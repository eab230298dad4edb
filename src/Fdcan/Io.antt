-- ===== src/Fdcan/Io.antt =====
-- driver/can/can_fdcan.c, the calls on an open bus.
use blobly_emb.Prelude.{
  ℕ, ◌+◌, ◌*◌, ◌/◌, ◌-◌, ◌%◌, ◌^◌, ℤ, pos, negsuc, Status, ok, fail, Bool, true, false, not, ◌&&◌,
  if◌then◌else◌, leb, ltb, ◌==◌, test_bit, low_bits, shr, add32, Option, none, some, update, memcpy,
}
use blobly_emb.Fdcan.{Config, Can, inst, region_off, rx0_elmts, tx_elmts, elmt_words, busoff_poll}
use blobly_emb.Fdcan.Lengths.{dlc_to_len, len_to_dlc}

-- BLOB_CAN_FLAG_FD and BLOB_CAN_FLAG_EXT, bits 0 and 1 of `flags`
abbrev pub is_fd : ℕ → Bool
is_fd flags = test_bit flags 0

abbrev pub is_ext : ℕ → Bool
is_ext flags = test_bit flags 1

-- Word 0 of an element; `|` of disjoint fields is `+`.
abbrev pub head_word : ℕ → ℕ → ℕ
head_word id flags = if is_ext flags then low_bits id 29 + 2 ^ 30 else low_bits id 11 * 2 ^ 18

-- The DLC that is sent
abbrev pub sent_dlc : ℕ → ℕ → ℕ
sent_dlc len flags = if is_fd flags then len_to_dlc len else len

-- Word 1 of an element: DLC at bit 16, FDF bit 21, BRS bit 20
abbrev pub control_word : Bool → ℕ → ℕ → ℕ
control_word nobrs len flags =
    sent_dlc len flags * 2 ^ 16
    + (if is_fd flags then if nobrs then 2 ^ 21 else 2 ^ 21 + 2 ^ 20 else 0)

-- Word `2 + w`: four bytes, those from `len` on 0
abbrev pub padded : (ℕ → ℕ) → ℕ → ℕ → ℕ
padded payload len i = if ltb i len then payload i % 2 ^ 8 else 0

abbrev pub data_word : (ℕ → ℕ) → ℕ → ℕ → ℕ
data_word payload len w =
    padded payload len (4 * w)
    + padded payload len (4 * w + 1) * 2 ^ 8
    + padded payload len (4 * w + 2) * 2 ^ 16
    + padded payload len (4 * w + 3) * 2 ^ 24

-- The element written at the word `e`
unfoldable pub put_element : (ℕ → ℕ) → ℕ → Bool → ℕ → (ℕ → ℕ) → ℕ → ℕ → ℕ → ℕ
put_element ram e nobrs id payload len flags j =
    if j == e
    then head_word id flags
    else if j == e + 1
    then control_word nobrs len flags
    else if leb (e + 2) j && ltb j (e + 2 + (dlc_to_len (sent_dlc len flags) + 3) / 4)
    then data_word payload len (j - (e + 2))
    else ram j

-- The guards of `blob_can_send` on its arguments
unfoldable pub sendable : Bool → ℕ → ℕ → Bool
sendable fd_bus len flags =
    not (is_fd flags && not fd_bus)
    && not (not (is_fd flags) && ltb 8 len)
    && not (ltb 64 len)
    && dlc_to_len (len_to_dlc len) == len

-- `blob_can_send` of an instance that exists
unfoldable pub send_inst : Config → ℕ → ℕ → (ℕ → ℕ) → ℕ → ℕ → Can → Status × Can
send_inst cfg h id payload len flags d0 =
    let d = busoff_poll d0 h in
    let r = d.reg h in
    if not (sendable (d.port h).fd len flags)
    then (fail, d)
    else if r.tfqf
    then (fail, d)
    else if leb tx_elmts r.tfqpi
    then (fail, d)
    else (
      ok,
      record d {
        ram =
            put_element d.ram (region_off h + rx0_elmts * elmt_words + r.tfqpi * elmt_words)
              cfg.nobrs id payload len flags;
        reg = update d.reg h (record r { txbar = 2 ^ r.tfqpi });
      },
    )

-- What `blob_can_recv` writes through its pointers.
pub record Received : Type 0 where
  pub id : ℕ
  pub bytes : ℕ → ℕ
  pub len : ℕ
  pub flags : ℕ

-- The length of a received frame
abbrev pub received_len : ℕ → ℕ
received_len r1 =
    let dlc = r1 / 2 ^ 16 % 16 in
    let n = if test_bit r1 21 then dlc_to_len dlc else if ltb 8 dlc then 8 else dlc in
    if ltb 64 n then 64 else n

-- The element at the word `e`, into the caller's buffer
unfoldable pub get_element : (ℕ → ℕ) → ℕ → (ℕ → ℕ) → Received
get_element ram e buf =
    let r0 = ram e in
    let r1 = ram (e + 1) in
    record {
      id = if test_bit r0 30 then low_bits r0 29 else low_bits (shr r0 18) 11;
      flags = (if test_bit r0 30 then 2 else 0) + (if test_bit r1 21 then 1 else 0);
      len = received_len r1;
      bytes = memcpy buf (λ i. ram (e + 2 + i / 4) / 2 ^ (8 * (i % 4)) % 2 ^ 8) (received_len r1);
    }

-- The overrun flag counted and acknowledged
abbrev pub note_overrun : Can → ℕ → Can
note_overrun d h =
    if (d.reg h).rf0l
    then record d {
      port = update d.port h (record (d.port h) { rx_lost = add32 (d.port h).rx_lost 1 });
      reg = update d.reg h (record (d.reg h) { rf0l = false });
    }
    else d

-- `blob_can_recv` after the overrun flag; `none` is -1.
abbrev pub after_overrun : ℕ → (ℕ → ℕ) → Can → Option Received × Can
after_overrun h buf d =
    let r = d.reg h in
    if r.f0fl == 0
    then (none, d)
    else if leb rx0_elmts r.f0gi
    then (none, d)
    else let e = region_off h + r.f0gi * elmt_words in
      let acked = record d { reg = update d.reg h (record r { rxf0a = r.f0gi }) } in
      if test_bit (d.ram e) 29 then (none, acked) else (some (get_element d.ram e buf), acked)

-- `blob_can_recv` of an instance that exists
unfoldable pub recv_inst : ℕ → (ℕ → ℕ) → Can → Option Received × Can
recv_inst h buf d = after_overrun h buf (note_overrun (busoff_poll d h) h)

-- `blob_can_send`
abbrev pub send : Config → ℤ → ℕ → (ℕ → ℕ) → ℕ → ℕ → Can → Status × Can
send cfg h id payload len flags d = at (inst cfg h)
  where
    at : Option ℕ → Status × Can
    at none = (fail, d)
    at (some i) = send_inst cfg i id payload len flags d

-- `blob_can_recv`
abbrev pub recv : Config → ℤ → (ℕ → ℕ) → Can → Option Received × Can
recv cfg h buf d = at (inst cfg h)
  where
    at : Option ℕ → Option Received × Can
    at none = (none, d)
    at (some i) = recv_inst i buf d

-- `blob_can_tx_ready`
abbrev pub tx_ready : Config → ℤ → Can → Bool × Can
tx_ready cfg h d = at (inst cfg h)
  where
    at : Option ℕ → Bool × Can
    at none = (false, d)
    at (some i) = let d' = busoff_poll d i in (not (d'.reg i).tfqf, d')

-- `blob_can_tx_idle`
abbrev pub tx_idle : Config → ℤ → Can → Bool × Can
tx_idle cfg h d = at (inst cfg h)
  where
    at : Option ℕ → Bool × Can
    at none = (true, d)
    at (some i) = let d' = busoff_poll d i in ((d'.reg i).txbrp == 0, d')

-- `blob_can_busoff_recoveries`
abbrev pub busoff_recoveries : Config → ℤ → Can → ℕ × Can
busoff_recoveries cfg h d = (tally h, polled)
  where
    at : Option ℕ → Can
    at none = d
    at (some i) = busoff_poll d i

    polled : Can
    polled = at (inst cfg h)

    tally : ℤ → ℕ
    tally (pos i) = if ltb i 3 then (polled.port i).busoff_rec else 0
    tally (negsuc k) = 0

-- `blob_can_rx_overruns`
abbrev pub rx_overruns : ℤ → Can → ℕ
rx_overruns (pos i) d = if ltb i 3 then (d.port i).rx_lost else 0
rx_overruns (negsuc k) d = 0

-- `blob_can_close`
abbrev pub close : Config → ℤ → Can → Can
close cfg h d = at (inst cfg h)
  where
    at : Option ℕ → Can
    at none = d
    at (some i) = record d {
      port = update d.port i (record (d.port i) { closed = true });
      reg = update d.reg i (record (d.reg i) { init = true });
    }
