-- ===== src/Fdcan/Element.antt =====
-- driver/can/can_fdcan.c: what an element of the message RAM keeps of a frame.
use blobly_emb.Prelude.{
  ℕ, zero, suc, ◌+◌, ◌*◌, ◌/◌, ◌-◌, ◌%◌, ◌^◌, ◌≤◌, ◌<◌, ◌≡◌, ◌∙◌, ap, ap₂, memcpy_lt, Bool, true,
  false, if◌then◌else◌, ◌==◌, test_bit, low_bits, shr, memcpy, arith,
}
use blobly_emb.Fdcan.Lengths.{dlc_to_len, len_to_dlc}
use blobly_emb.Fdcan.Io.{
  is_fd, is_ext, head_word, control_word, sent_dlc, data_word, padded, put_element, get_element,
  sendable, received_len,
}

element_id : ℕ → ℕ
element_id r0 = if test_bit r0 30 then low_bits r0 29 else low_bits (shr r0 18) 11

head_word-fields :
    (id flags : ℕ)
    → id < (if is_ext flags then 2 ^ 29 else 2 ^ 11)
    → (test_bit (head_word id flags) 30 ≡ is_ext flags) × (element_id (head_word id flags) ≡ id)
unfolding element_id
head_word-fields id flags lt = (ground arith, ground arith)

flags_of :
    (flags : ℕ)
    → flags < 4
    → (if is_ext flags then 2 else 0) + (if is_fd flags then 1 else 0) ≡ flags
flags_of flags lt = ground arith

fields_apart :
    (fd nobrs : Bool) (dlc : ℕ)
    → dlc < 16
    → let w = dlc * 2 ^ 16 + (if fd then if nobrs then 2 ^ 21 else 2 ^ 21 + 2 ^ 20 else 0) in
      (test_bit w 21 ≡ fd) × (w / 2 ^ 16 % 16 ≡ dlc)
fields_apart true true dlc lt = (ground arith, omega arith)
fields_apart true false dlc lt = (ground arith, omega arith)
fields_apart false nobrs dlc lt = (ground arith, omega arith)

-- What the guards leave: a code of four bits that stands for the length itself.
sent_dlc-exact :
    (fd_bus : Bool) (len flags : ℕ)
    → sendable fd_bus len flags ≡ true
    → (sent_dlc len flags < 16)
      × (dlc_to_len (sent_dlc len flags) ≡ len)
      × (len ≤ 64)
      × (is_fd flags ≡ false → sent_dlc len flags ≤ 8)
unfolding sendable dlc_to_len len_to_dlc
sent_dlc-exact fd_bus len flags s = (ground arith, ground arith, ground arith, λ e. ground arith)

control-word :
    (nobrs fd_bus : Bool) (len flags : ℕ)
    → sendable fd_bus len flags ≡ true
    → (test_bit (control_word nobrs len flags) 21 ≡ is_fd flags)
      × (received_len (control_word nobrs len flags) ≡ len)
control-word nobrs fd_bus len flags s =
    let (small, exact, short, classic) = sent_dlc-exact fd_bus len flags s in
    let (fd, dlc) = fields_apart (is_fd flags) nobrs (sent_dlc len flags) small in
    (fd, ground (arith, fd, dlc, exact, short, classic))

-- One byte of a word
byte_of :
    (a b c d i : ℕ)
    → a < 2 ^ 8
    → b < 2 ^ 8
    → c < 2 ^ 8
    → d < 2 ^ 8
    → i < 4
    → (a + b * 2 ^ 8 + c * 2 ^ 16 + d * 2 ^ 24) / 2 ^ (8 * i) % 2 ^ 8
      ≡ (if i == 0 then a else if i == 1 then b else if i == 2 then c else d)
byte_of a b c d zero ha hb hc hd lt = omega arith
byte_of a b c d (suc zero) ha hb hc hd lt = omega arith
byte_of a b c d (suc (suc zero)) ha hb hc hd lt = omega arith
byte_of a b c d (suc (suc (suc zero))) ha hb hc hd lt = omega arith
byte_of a b c d (suc (suc (suc (suc i)))) ha hb hc hd lt = absurd (omega arith)

byte_at :
    (f : ℕ → ℕ) (i : ℕ)
    → (if i % 4 == 0
        then f (4 * (i / 4))
        else if i % 4 == 1
        then f (4 * (i / 4) + 1)
        else if i % 4 == 2
        then f (4 * (i / 4) + 2)
        else f (4 * (i / 4) + 3))
      ≡ f i
byte_at f i = grind arith

padded_byte : (payload : ℕ → ℕ) (len i : ℕ) → padded payload len i < 2 ^ 8
padded_byte payload len i = ground arith

data_word-byte :
    (payload : ℕ → ℕ) (len i : ℕ)
    → i < len
    → data_word payload len (i / 4) / 2 ^ (8 * (i % 4)) % 2 ^ 8 ≡ payload i % 2 ^ 8
data_word-byte payload len i lt =
    let w = i / 4 in
    byte_of (padded payload len (4 * w)) (padded payload len (4 * w + 1))
      (padded payload len (4 * w + 2)) (padded payload len (4 * w + 3)) (i % 4)
      (padded_byte payload len (4 * w)) (padded_byte payload len (4 * w + 1))
      (padded_byte payload len (4 * w + 2)) (padded_byte payload len (4 * w + 3)) (omega arith)
    ∙ byte_at (padded payload len) i
    ∙ ground arith

put-head :
    (ram : ℕ → ℕ) (e : ℕ) (nobrs : Bool) (id : ℕ) (payload : ℕ → ℕ) (len flags : ℕ)
    → put_element ram e nobrs id payload len flags e ≡ head_word id flags
unfolding put_element
put-head ram e nobrs id payload len flags = ground arith

put-control :
    (ram : ℕ → ℕ) (e : ℕ) (nobrs : Bool) (id : ℕ) (payload : ℕ → ℕ) (len flags : ℕ)
    → put_element ram e nobrs id payload len flags (e + 1) ≡ control_word nobrs len flags
unfolding put_element
put-control ram e nobrs id payload len flags = ground arith

put-data :
    (ram : ℕ → ℕ) (e : ℕ) (nobrs : Bool) (id : ℕ) (payload : ℕ → ℕ) (len flags w : ℕ)
    → w < (dlc_to_len (sent_dlc len flags) + 3) / 4
    → put_element ram e nobrs id payload len flags (e + 2 + w) ≡ data_word payload len w
unfolding put_element
put-data ram e nobrs id payload len flags w lt =
    ground
      (arith, ap (data_word payload len) (let same : e + 2 + w - (e + 2) ≡ w = omega arith in same))

-- The words at `at` are those that `blob_can_send` puts for the frame; the element's other words may
-- be anything.
abbrev pub Carries : (ℕ → ℕ) → ℕ → Bool → ℕ → (ℕ → ℕ) → ℕ → ℕ → Type 0
Carries ram at nobrs id payload len flags =
    (i : ℕ)
    → i < 2 + (dlc_to_len (sent_dlc len flags) + 3) / 4
    → ram (at + i) ≡ put_element (λ w. 0) 0 nobrs id payload len flags i

pub words-Carried :
    (ram : ℕ → ℕ) (e : ℕ) (nobrs : Bool) (id : ℕ) (payload : ℕ → ℕ) (len flags : ℕ)
    → Carries ram e nobrs id payload len flags
    → (ram e ≡ head_word id flags) × (ram (e + 1) ≡ control_word nobrs len flags)
words-Carried ram e nobrs id payload len flags same = (
  ap ram (let q : e ≡ e + 0 = omega arith in q)
      ∙ same 0 (omega arith)
      ∙ put-head (λ w. 0) 0 nobrs id payload len flags,
  same 1 (omega arith) ∙ put-control (λ w. 0) 0 nobrs id payload len flags,
)

data-Carried :
    (ram : ℕ → ℕ) (e : ℕ) (nobrs : Bool) (id : ℕ) (payload : ℕ → ℕ) (len flags w : ℕ)
    → Carries ram e nobrs id payload len flags
    → w < (dlc_to_len (sent_dlc len flags) + 3) / 4
    → ram (e + 2 + w) ≡ data_word payload len w
data-Carried ram e nobrs id payload len flags w same lt =
    ap ram (let q : e + 2 + w ≡ e + (2 + w) = omega arith in q)
    ∙ same (2 + w) (omega arith)
    ∙ put-data (λ w. 0) 0 nobrs id payload len flags w lt

pub element_round_trip :
    (ram : ℕ → ℕ) (e : ℕ) (nobrs fd_bus : Bool) (id : ℕ) (payload : ℕ → ℕ) (len flags : ℕ)
    (buf : ℕ → ℕ)
    → sendable fd_bus len flags ≡ true
    → id < (if is_ext flags then 2 ^ 29 else 2 ^ 11)
    → flags < 4
    → Carries ram e nobrs id payload len flags
    → let m = get_element ram e buf in
      (m.id ≡ id)
      × (m.len ≡ len)
      × (m.flags ≡ flags)
      × ((i : ℕ) → i < len → m.bytes i ≡ payload i % 2 ^ 8)
unfolding get_element element_id
element_round_trip ram e nobrs fd_bus id payload len flags buf s small two same =
    let (r0, r1) = words-Carried ram e nobrs id payload len flags same in
    let (ext, number) = head_word-fields id flags small in
    let (fd, n) = control-word nobrs fd_bus len flags s in
    let size : received_len (ram (e + 1)) ≡ len = ap received_len r1 ∙ n in
    let (_, exact, short, _) = sent_dlc-exact fd_bus len flags s in
    (
      ap element_id r0 ∙ number,
      size,
      ap₂ (λ (x y : Bool). (if x then 2 else 0) + (if y then 1 else 0))
            (ap (λ w. test_bit w 30) r0 ∙ ext) (ap (λ w. test_bit w 21) r1 ∙ fd)
          ∙ flags_of flags two,
      λ i lt.
          ap (λ k. memcpy buf (λ j. ram (e + 2 + j / 4) / 2 ^ (8 * (j % 4)) % 2 ^ 8) k i) size
          ∙ memcpy_lt buf (λ j. ram (e + 2 + j / 4) / 2 ^ (8 * (j % 4)) % 2 ^ 8) len i lt
          ∙ ap (λ x. x / 2 ^ (8 * (i % 4)) % 2 ^ 8)
              (data-Carried ram e nobrs id payload len flags (i / 4) same (omega (arith, exact)))
          ∙ data_word-byte payload len i lt,
    )
