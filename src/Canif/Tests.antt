-- ===== src/Canif/Tests.antt =====
-- The shim at concrete inputs.
use blobly_emb.Prelude.{
  ℕ, ◌+◌, ◌≡◌, ◌≢◌, ◌^◌, true, false, arith, refl, List, [], ◌∷◌, low_bits, if◌then◌else◌, ◌==◌,
}
use blobly_emb.CanRing.{Ring, Out}
use blobly_emb.CanRing.Queue.{frame_of, contents, IsValid, enqueue}
use blobly_emb.Canif.{TxMap, RxMap, Shim, rx_indication}
use blobly_emb.Canif.Receive.{ring_id, tally, rx_indication_refines}
use blobly_emb.Canif.Pending.{Event, sent, confirmed}

abbrev empty : Ring
empty = record {
  slot = λ i. record { id = 0; len = 0; bytes = λ j. 0 };
  head = 4294967295;
  tail = 4294967295;
}

abbrev shim : Shim
shim = record { rx_ring = λ b. empty; rx_lost = λ b. 3; tx_pending = λ b. 0 }

-- The rows of the source
abbrev tx_map : List TxMap
tx_map = record { bus = 0; id = 0x101; pdu = 0; ext = false } ∷ []

abbrev row : RxMap
row = record { pdu = 0; bus = 0; id = 0x100; ext = true }

empty-IsValid : IsValid empty
empty-IsValid = record { head_word = omega arith; tail_word = omega arith; within = omega arith }

rx_indication_refines_example :
    let s' = rx_indication (row ∷ []) 0 (λ i. i) 8 shim in
    let (st, q') = enqueue (contents empty) (frame_of (ring_id row) (λ i. i) (low_bits 8 8)) in
    (contents (s'.rx_ring 0) ≡ q')
    × (s'.rx_lost 0 ≡ tally 3 st)
    × IsValid (s'.rx_ring 0)
    × ((b : ℕ) → b ≢ 0 → (s'.rx_ring b ≡ empty) × (s'.rx_lost b ≡ 3))
rx_indication_refines_example =
    rx_indication_refines (row ∷ []) row 0 (λ i. i) 8 shim refl empty-IsValid

abbrev popped : Out
popped = record { id = 0x100 + 2 ^ 31; len = 8; bytes = λ i. i }

abbrev traffic : List Event
traffic = sent 0 0x101 0 true ∷ sent 0 0x101 0 false ∷ sent 0 0x101 0 true ∷ confirmed 0 ∷ []

-- "can1"
abbrev can1 : ℕ → ℕ
can1 i = if i == 3 then 49 else if i == 0 then 99 else if i == 1 then 97 else 110
