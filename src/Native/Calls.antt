-- ===== src/Native/Calls.antt =====
-- osal/osal_native.c: what one call finds of another.
use blobly_emb.Prelude.{
  ℕ, zero, suc, ◌+◌, ◌-◌, ◌%◌, ◌^◌, pos, ◌≡◌, ◌≢◌, ◌<◌, ◌≤◌, if_both, if◌then◌else◌, ◌==◌, some,
  update, update_self, low_bits, test_bit, bit_or, arith, refl, ap, ◌∙◌, ℕ_discrete,
}
use blobly_emb.Native.{
  SeqSlot, TripleSlot, channels, ioc_max, db_dirty, vcopy, init_indices, write_slot, ioc_write,
  read_slot, ioc_read, pub_slot, take_slot,
}

read_slot-write_slot :
    (s : SeqSlot) (src dst : ℕ → ℕ) (len : ℕ)
    → s.seq < 2 ^ 32
    → s.seq % 2 ≡ 0
    → read_slot (write_slot s src len) dst len ≡ (
        if s.seq == 2 ^ 32 - 2
        then some (0, dst)
        else some (1, vcopy dst (vcopy s.bytes src len) len))
read_slot-write_slot s src dst len word even = elim (ℕ_discrete s.seq (2 ^ 32 - 2)) [
  | yes last ↦ ground arith
  | no earlier ↦ ground arith
]

-- A read of a seqlock channel after a write copies the bytes written and returns 1, unless the
-- write brought the sequence number round to 0: then it returns 0 and copies nothing, as for a
-- channel that was never written.
pub ioc_read-ioc_write :
    (g : ℕ → SeqSlot) (idx : ℕ) (src dst : ℕ → ℕ) (len : ℕ)
    → idx < channels
    → len ≤ ioc_max
    → (g idx).seq < 2 ^ 32
    → (g idx).seq % 2 ≡ 0
    → ioc_read (ioc_write g (pos idx) src len) (pos idx) dst len ≡ (
        if (g idx).seq == 2 ^ 32 - 2
        then some (0, dst)
        else some (1, vcopy dst (vcopy (g idx).bytes src len) len))
unfolding ioc_read ioc_write
ioc_read-ioc_write g idx src dst len lt le word even =
    let s = write_slot (g idx) src len in
    let enter : ioc_write g (pos idx) src len ≡ update g idx s = ground arith in
    let at : ioc_write g (pos idx) src len idx ≡ s =
      ap (λ (f : ℕ → SeqSlot). f idx) enter ∙ update_self g idx s in
    let opened : ioc_read (ioc_write g (pos idx) src len) (pos idx) dst len
        ≡ read_slot (ioc_write g (pos idx) src len idx) dst len =
      ground arith in
    opened ∙ ap (λ x. read_slot x dst len) at ∙ read_slot-write_slot (g idx) src dst len word even

-- The three indices of a triple buffer are different ones of 0, 1 and 2.
abbrev pub IsPermuted : TripleSlot → Type 0
IsPermuted s =
    (s.wb < 3)
    × (s.rf < 3)
    × (low_bits s.shared 2 < 3)
    × (s.shared < 8)
    × (s.wb ≢ s.rf)
    × (s.wb ≢ low_bits s.shared 2)
    × (s.rf ≢ low_bits s.shared 2)

pub init_indices-IsPermuted : (s : TripleSlot) → IsPermuted (init_indices s)
init_indices-IsPermuted s =
    (omega arith, omega arith, omega arith, omega arith, omega arith, omega arith, omega arith)

-- `w | DB_DIRTY` for an index
pub dirty : (w : ℕ) → w < 3 → bit_or w db_dirty ≡ w + 4
dirty zero lt = refl
dirty (suc zero) lt = refl
dirty (suc (suc zero)) lt = refl
dirty (suc (suc (suc w))) lt = absurd (omega arith)

pub pub_slot-IsPermuted :
    (s : TripleSlot) (src : ℕ → ℕ) (len : ℕ) → IsPermuted s → IsPermuted (pub_slot s src len)
pub_slot-IsPermuted s src len (w, r, m, word, wr, wm, rm) =
    let d = dirty s.wb w in
    (omega arith, omega arith, omega arith, omega arith, omega arith, omega arith, omega arith)

pub take_slot-IsPermuted : (s : TripleSlot) → IsPermuted s → IsPermuted (take_slot s)
take_slot-IsPermuted s (w, r, m, word, wr, wm, rm) =
    if_both IsPermuted (test_bit s.shared 2)
      (omega arith, omega arith, omega arith, omega arith, omega arith, omega arith, omega arith)
      (w, r, m, word, wr, wm, rm)
