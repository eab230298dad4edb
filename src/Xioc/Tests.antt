-- ===== src/Xioc/Tests.antt =====
-- The cross-core channel at concrete inputs.
use blobly_emb.Prelude.{ℕ, ◌≤◌, ◌<◌, ◌≡◌, refl, arith}
use blobly_emb.Xioc.{XiocN, init_n, next_seq}
use blobly_emb.Xioc.Wide.Defs.{System, WStep, RStep, write, read, Reach, here, next, start}
use blobly_emb.Xioc.Wide.Seq.{seq_of}
use blobly_emb.Xioc.Wide.{never_torn}

abbrev garbage : XiocN
garbage = record { latest = 3; wseq = 4; words = 9; cell = λ i. 5 }

-- A value of one word, published right after the wrap of the sequence, and read.
abbrev one_value : (s : System) × Reach 1 (start garbage 1 4294967295 0 (λ i. 0)) s
unfolding init_n next_seq
one_value = (
  _,
  next
      (next
        (next
          (next
            (next
              (next
                (next
                  (next (next (next here (write (WStep.call (λ i. 7)))) (write WStep.invalidate))
                    (write (WStep.store_word (omega arith))))
                  (read RStep.call))
                (write (WStep.validate (omega arith))))
              (write WStep.publish))
            (read (RStep.load_latest (omega arith) (omega arith))))
          (read (RStep.load_words refl (omega arith) (λ i. 6))))
        (read (RStep.load_word (omega arith))))
      (read (RStep.recheck {n = 1} {w = 1} (omega arith) refl)),
)

abbrev one_read : (s : System) × Reach 1 (start garbage 1 4294967295 0 (λ i. 0)) s
unfolding init_n next_seq
one_read = (_, next one_value.1 (read (RStep.commit {n = 1} {k = 1} {w = 1})))

never_torn_example :
    let s = one_read.0 in
    ((j : ℕ) → j < 1 → s.mem.dst j ≡ s.mem.val 1 j)
    × (s.mem.rd_seq ≡ seq_of 4294967295 1)
    × (0 < 1)
    × (1 ≤ s.mem.done)
unfolding init_n next_seq
never_torn_example =
    never_torn garbage 1 4294967295 0 (λ i. 0) 1 (omega arith) 1 one_read.1 refl (omega arith)
