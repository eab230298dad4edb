-- ===== src/Canif/Receive.antt =====
-- driver/can/can_canif.c: a received PDU, from CanIf's indication to the bridge.
use blobly_emb.Prelude.{
  ℕ, ◌<◌, ◌^◌, ◌≡◌, ◌≢◌, Status, ok, fail, if◌then◌else◌, ◌==◌, Option, none, some, update, add32,
  low_bits, List, [], ◌∷◌, arith, refl, update_self, update_ne, ap, sym, ◌∙◌, subst,
}
use blobly_emb.CanRing
use blobly_emb.CanRing.{Ring, Out, cap}
use blobly_emb.CanRing.Queue.{Frame, frame_of, contents, IsValid, push_refines, enqueue}
use blobly_emb.Canif.{
  RxMap, Shim, Received, set_ext, marked, rx_indication, enqueue_row, count_loss,
}

-- The tally of losses after an attempt to enqueue
abbrev pub tally : ℕ → Status → ℕ
tally n ok = n
tally n fail = add32 n 1

-- The row that the table has first for a PDU.
abbrev pub row_of : List RxMap → ℕ → Option RxMap
row_of [] pdu = none
row_of (row ∷ rows) pdu = let later = row_of rows pdu in if row.pdu == pdu then some row else later

indication-row :
    (rows : List RxMap) (row : RxMap) (pdu : ℕ) (d : ℕ → ℕ) (len : ℕ) (s : Shim)
    → row_of rows pdu ≡ some row
    → rx_indication rows pdu d len s ≡ enqueue_row row d len s
unfolding rx_indication
indication-row [] row pdu d len s e = ground arith
indication-row (r ∷ rows) row pdu d len s e = ground (arith, indication-row rows row pdu d len s)

-- What the identifier of a row is in the ring.
abbrev pub ring_id : RxMap → ℕ
ring_id row = if row.ext then set_ext row.id else row.id

loss_ring : (b : ℕ) (st : Status) (s : Shim) → (count_loss b st s).rx_ring ≡ s.rx_ring
loss_ring b ok s = refl
loss_ring b fail s = refl

loss_self :
    (b : ℕ) (st : Status) (s : Shim) → (count_loss b st s).rx_lost b ≡ tally (s.rx_lost b) st
loss_self b ok s = refl
loss_self b fail s = ground arith

loss_other :
    (b : ℕ) (st : Status) (s : Shim) (c : ℕ) → c ≢ b → (count_loss b st s).rx_lost c ≡ s.rx_lost c
loss_other b ok s c ne = refl
loss_other b fail s c ne = ground arith

-- An indication of a configured PDU puts its frame, with the identifier and the width that the
-- table says, behind what waits on the bus; where 32 frames wait, the frame is dropped and counted.
-- No other bus is touched.
pub rx_indication_refines :
    (rows : List RxMap) (row : RxMap) (pdu : ℕ) (d : ℕ → ℕ) (len : ℕ) (s : Shim)
    → row_of rows pdu ≡ some row
    → IsValid (s.rx_ring row.bus)
    → let s' = rx_indication rows pdu d len s in
      let q = contents (s.rx_ring row.bus) in
      let (st, q') = enqueue q (frame_of (ring_id row) d (low_bits len 8)) in
      (contents (s'.rx_ring row.bus) ≡ q')
      × (s'.rx_lost row.bus ≡ tally (s.rx_lost row.bus) st)
      × IsValid (s'.rx_ring row.bus)
      × ((b : ℕ) → b ≢ row.bus → (s'.rx_ring b ≡ s.rx_ring b) × (s'.rx_lost b ≡ s.rx_lost b))
rx_indication_refines rows row pdu d len s e v =
    let n = low_bits len 8 in
    let (same, valid) = push_refines (s.rx_ring row.bus) (ring_id row) d n v in
    let (st, r) = CanRing.push (s.rx_ring row.bus) (ring_id row) d n in
    let base = record s { rx_ring = update s.rx_ring row.bus r } in
    let at_row = indication-row rows row pdu d len s e in
    let ring : (rx_indication rows pdu d len s).rx_ring ≡ base.rx_ring =
      ap (λ (x : Shim). x.rx_ring) at_row ∙ loss_ring row.bus st base in
    let here : (rx_indication rows pdu d len s).rx_ring row.bus ≡ r =
      ap (λ f. f row.bus) ring ∙ update_self s.rx_ring row.bus r in
    (
      ap contents here ∙ ap (λ (x : Status × List Frame). x.1) same,
      ap (λ (x : Shim). x.rx_lost row.bus) at_row
          ∙ loss_self row.bus st base
          ∙ ap (λ (x : Status × List Frame). tally (s.rx_lost row.bus) x.0) same,
      subst IsValid (sym here) valid,
      λ b ne. (
        ap (λ f. f b) ring ∙ update_ne s.rx_ring row.bus r b (λ q. ne (sym q)),
        ap (λ (x : Shim). x.rx_lost b) at_row ∙ loss_other row.bus st base b ne,
      ),
    )

-- `blob_can_recv` undoes the marking: the identifier of a row below bit 31 comes back as it is in
-- the table, with the flag of an extended identifier exactly where the table has it.
pub marked-ring_id :
    (row : RxMap) (o : Out)
    → row.id < 2 ^ 31
    → o.id ≡ ring_id row
    → (r : Received) × (marked (some o) ≡ some r)
      × (r.out.id ≡ row.id)
      × (r.out.len ≡ o.len)
      × (r.out.bytes ≡ o.bytes)
      × (r.flags ≡ (if row.ext then 2 else 0))
marked-ring_id row o small e = (_, refl, ground arith, ground arith, ground arith, ground arith)
