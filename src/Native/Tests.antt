-- ===== src/Native/Tests.antt =====
-- The channels of the simulation at concrete inputs.
use blobly_emb.Prelude.{ℕ, ◌-◌, ◌^◌, ◌≡◌, ◌&&◌, ltb, List, [], ◌∷◌}
use blobly_emb.Native.{SeqSlot, TripleSlot, at_most, vcopy, init_indices, acq_fresh_slot}
use blobly_emb.Native.Latest.{Call, publish, calls, latest, unpublished, acq_fresh_latest}

-- A channel whose next write brings the sequence number round
abbrev worn : ℕ → SeqSlot
worn i = record { seq = 2 ^ 32 - 2; len = 1; bytes = λ j. 7 }

abbrev zeroed : TripleSlot
zeroed = record { shared = 0; wb = 0; rf = 0; len = λ k. 0; buf = λ k i. 0 }

-- Two values, of which the reader missed the first
abbrev history : List Call
history = publish (λ i. 5) 3 ∷ publish (λ i. 6) 2 ∷ []

acq_fresh_latest_example :
    let ((fresh, out), s') = acq_fresh_slot (calls (init_indices zeroed) history) (λ i. 1) 8 in
    let a = latest (unpublished zeroed) history in
    (fresh ≡ (a.is_new && ltb 0 (at_most a.len 8)))
    × ((i : ℕ) → out i ≡ vcopy (λ i. 1) a.bytes (at_most a.len 8) i)
acq_fresh_latest_example = acq_fresh_latest zeroed history (λ i. 1) 8
