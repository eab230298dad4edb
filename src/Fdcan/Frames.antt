-- ===== src/Fdcan/Frames.antt =====
-- driver/can/can_fdcan.c: frames from blob_can_send to blob_can_recv.
use blobly_emb.Prelude.{
  ℕ, ◌+◌, ◌*◌, ◌%◌, ◌^◌, ◌<◌, ◌≡◌, ◌∙◌, ap, Bool, true, false, if◌then◌else◌, test_bit, arith, some,
  sym, ◌≢◌,
}
use blobly_emb.Fdcan.{Can, region_off, rx0_elmts, elmt_words, busoff_poll}
use blobly_emb.Fdcan.Io.{
  is_ext, head_word, get_element, sendable, note_overrun, after_overrun, recv_inst, Received,
}
use blobly_emb.Fdcan.Element.{Carries, words-Carried, element_round_trip}

-- What `blob_can_send` writes is not the head of a remote frame.
head_word-data :
    (id flags : ℕ)
    → id < (if is_ext flags then 2 ^ 29 else 2 ^ 11)
    → test_bit (head_word id flags) 29 ≡ false
head_word-data id flags lt = ground arith

-- What stands between `blob_can_recv` and its read of the FIFO changes neither the FIFO's state nor
-- the message RAM.
before_fifo :
    (d : Can) (h : ℕ)
    → let q = note_overrun (busoff_poll d h) h in
      (q.ram ≡ d.ram) × ((q.reg h).f0fl ≡ (d.reg h).f0fl) × ((q.reg h).f0gi ≡ (d.reg h).f0gi)
unfolding busoff_poll
before_fifo d h = (ground arith, ground arith, ground arith)

fifo-taken :
    (q : Can) (h : ℕ) (buf : ℕ → ℕ)
    → (q.reg h).f0fl ≢ 0
    → (q.reg h).f0gi < rx0_elmts
    → test_bit (q.ram (region_off h + (q.reg h).f0gi * elmt_words)) 29 ≡ false
    → ((after_overrun h buf q).0
        ≡ some (get_element q.ram (region_off h + (q.reg h).f0gi * elmt_words) buf))
      × (((after_overrun h buf q).1.reg h).rxf0a ≡ (q.reg h).f0gi)
fifo-taken q h buf ne lt bit = (ground (arith, bit), ground (arith, bit))

-- A frame that `blob_can_send` accepts, with an identifier of 29 bits, or 11 where the extended flag
-- is not set, and no flag but the two, stands at the get index of a core's FIFO, in the words that
-- `blob_can_send` puts: `blob_can_recv` takes it, acknowledges its index, and gives its identifier,
-- its length, its flags and its bytes, whatever the caller's buffer held.
pub frame_round_trip :
    (d : Can) (h : ℕ) (nobrs fd_bus : Bool) (id : ℕ) (payload : ℕ → ℕ) (len flags : ℕ) (buf : ℕ → ℕ)
    → sendable fd_bus len flags ≡ true
    → id < (if is_ext flags then 2 ^ 29 else 2 ^ 11)
    → flags < 4
    → (d.reg h).f0fl ≢ 0
    → (d.reg h).f0gi < rx0_elmts
    → Carries d.ram (region_off h + (d.reg h).f0gi * elmt_words) nobrs id payload len flags
    → (m : Received) × ((recv_inst h buf d).0 ≡ some m)
      × (((recv_inst h buf d).1.reg h).rxf0a ≡ (d.reg h).f0gi)
      × (m.id ≡ id)
      × (m.len ≡ len)
      × (m.flags ≡ flags)
      × ((i : ℕ) → i < len → m.bytes i ≡ payload i % 2 ^ 8)
unfolding recv_inst
frame_round_trip d h nobrs fd_bus id payload len flags buf s small two some_wait fits same =
    let q = note_overrun (busoff_poll d h) h in
    let (ram, level, get) = before_fifo d h in
    let e = region_off h + (q.reg h).f0gi * elmt_words in
    let at : e ≡ region_off h + (d.reg h).f0gi * elmt_words =
      ap (λ (g : ℕ). region_off h + g * elmt_words) get in
    let same' : Carries q.ram e nobrs id payload len flags = rw (at, ram) same in
    let (r0, _) = words-Carried q.ram e nobrs id payload len flags same' in
    let (got, acked) =
      fifo-taken q h buf (λ z. some_wait (sym level ∙ z)) (omega (arith, get))
        (ap (λ w. test_bit w 29) r0 ∙ head_word-data id flags small) in
    let fields =
      element_round_trip q.ram e nobrs fd_bus id payload len flags buf s small two same' in
    (get_element q.ram e buf, got, acked ∙ get, fields.0, fields.1, fields.2, fields.3)
