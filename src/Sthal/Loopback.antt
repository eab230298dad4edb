-- ===== src/Sthal/Loopback.antt =====
-- driver/can/can_sthal.c: frames over the HAL's headers.
use blobly_emb.Prelude.{
  ℕ, ◌*◌, ◌^◌, pos, Status, ok, fail, ◌≡◌, inl, inr, ◌<◌, ◌≤◌, Bool, true, false, not,
  if◌then◌else◌, some, low_bits, arith, refl, ap, sym, ◌∙◌, ◌↔◌, dec_lt, Bool-cases,
}
use blobly_emb.Sthal.{
  Tally, TxHeader, RxHeader, Hal, dlc_exact, len_to_dlc, dlc_to_len, tx_header, frame_of, Driver,
  hal_busoff_poll, send_hal, send_polled, with_tally,
}

-- The HAL's codes are those of the standard: in order, and behind the codes of 0 to 8 bytes.
abbrev pub AreCodes : {W : Type 0} → Hal W → Type 0
AreCodes hal =
    (8 * 2 ^ 16 < hal.bytes_12)
    × (hal.bytes_12 < hal.bytes_16)
    × (hal.bytes_16 < hal.bytes_20)
    × (hal.bytes_20 < hal.bytes_24)
    × (hal.bytes_24 < hal.bytes_32)
    × (hal.bytes_32 < hal.bytes_48)
    × (hal.bytes_48 < hal.bytes_64)

-- The receive header of a transmitted frame
abbrev pub echo : TxHeader → RxHeader
echo tx = record {
  identifier = tx.identifier;
  extended = tx.extended;
  remote = false;
  data_length = tx.data_length;
  fd_format = tx.fd_format;
}

module _ {W : Type 0} (hal : Hal W) where
  short_code : (len : ℕ) → AreCodes hal → len ≤ 8 → dlc_to_len hal (len_to_dlc hal len) ≡ len
  short_code len codes le = ground arith

  long_code :
      (len : ℕ)
      → AreCodes hal
      → 8 < len
      → dlc_exact len ≡ true
      → dlc_to_len hal (len_to_dlc hal len) ≡ len
  long_code len codes long exact = ground arith

  exact_length :
      (len : ℕ) → AreCodes hal → dlc_exact len ≡ true → dlc_to_len hal (len_to_dlc hal len) ≡ len
  exact_length len codes exact = elim (dec_lt 8 len) [
    | yes long ↦ long_code len codes long exact
    | no short ↦ short_code len codes (omega arith)
  ]

  -- With the HAL's codes, the header of a frame that `blob_can_send` accepts, received by another
  -- node, gives `blob_can_recv` the frame back: the low 29 bits of the identifier, the length, the
  -- flags and the bytes.
  pub frame_of-tx_header :
      (id len : ℕ) (is_ext fd : Bool) (bytes : ℕ → ℕ)
      → AreCodes hal
      → dlc_exact len ≡ true
      → frame_of hal (echo (tx_header hal id len is_ext fd)) bytes
        ≡ some (record { id = low_bits id 29; len = len; is_ext = is_ext; fd = fd; bytes = bytes })
  frame_of-tx_header id len is_ext fd bytes codes exact =
      ap
        (λ n.
          some (record { id = low_bits id 29; len = n; is_ext = is_ext; fd = fd; bytes = bytes }))
        (exact_length len codes exact)

  with_tally-ok :
      (tally : ℕ → Tally) (r : Bool × W) → ((with_tally hal tally r).0 ≡ ok) ↔ (r.0 ≡ true)
  with_tally-ok tally (true, w) = (λ e. refl, λ e. refl)
  with_tally-ok tally (false, w) = (λ e. ground arith, λ e. ground arith)

  send_polled-ok :
      (h : ℕ) (id : ℕ) (bytes : ℕ → ℕ) (len : ℕ) (is_ext fd : Bool) (d : Driver hal)
      → ((send_polled hal h id bytes len is_ext fd d).0 ≡ ok) ↔ (
          (dlc_exact len ≡ true)
          × ((hal.add_message h (tx_header hal id len is_ext fd) bytes d.1).0 ≡ true))
  send_polled-ok h id bytes len is_ext fd (tally, w) =
      let taken = hal.add_message h (tx_header hal id len is_ext fd) bytes w in
      let (only, enough) = with_tally-ok tally taken in
      elim (Bool-cases (dlc_exact len)) [
        | inl exact ↦
            let sent : send_polled hal h id bytes len is_ext fd (tally, w)
                ≡ with_tally hal tally taken =
              ap (λ b. if not b then (fail, (tally, w)) else with_tally hal tally taken) exact in
            let status = ap (λ (r : Status × Driver hal). r.0) sent in
            (λ e. (exact, only (sym status ∙ e)), λ (x, e). status ∙ enough e)
        | inr inexact ↦
            let refused : send_polled hal h id bytes len is_ext fd (tally, w) ≡ (fail, (tally, w)) =
              ap (λ b. if not b then (fail, (tally, w)) else with_tally hal tally taken) inexact in
            let status = ap (λ (r : Status × Driver hal). r.0) refused in
            (
              λ e. absurd (let clash : fail ≡ ok = sym status ∙ e in ground arith),
              λ (exact, e). absurd (let clash : true ≡ false = sym exact ∙ inexact in ground arith),
            )
      ]

  -- `blob_can_send` returns 0 exactly for a handle of 0 to 2, a length that a length code has, and
  -- a frame that the HAL then takes; the HAL is asked after the poll for bus-off.
  pub send_hal-ok :
      (h : ℕ) (id : ℕ) (bytes : ℕ → ℕ) (len : ℕ) (is_ext fd : Bool) (d : Driver hal)
      → ((send_hal hal (pos h) id bytes len is_ext fd d).0 ≡ ok) ↔ (
          (h < 3)
          × (dlc_exact len ≡ true)
          × ((hal.add_message h
                (tx_header hal id len is_ext fd)
                bytes
                (hal_busoff_poll hal h d).1).0
              ≡ true))
  unfolding send_hal
  send_hal-ok h id bytes len is_ext fd d =
      let (only, enough) = send_polled-ok h id bytes len is_ext fd (hal_busoff_poll hal h d) in
      elim (dec_lt h 3) [
        | yes lt ↦
            let sent : send_hal hal (pos h) id bytes len is_ext fd d
                ≡ send_polled hal h id bytes len is_ext fd (hal_busoff_poll hal h d) =
              ground arith in
            let status = ap (λ (r : Status × Driver hal). r.0) sent in
            (
              λ e. let (exact, taken) = only (sym status ∙ e) in (lt, exact, taken),
              λ (lt, exact, taken). status ∙ enough (exact, taken),
            )
        | no ge ↦ (λ e. absurd (ground arith), λ (lt, exact, taken). absurd (ge lt))
      ]
