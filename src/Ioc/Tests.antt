-- ===== src/Ioc/Tests.antt =====
-- The triple buffer at concrete inputs.
use blobly_emb.Prelude.{ℕ, ◌≤◌, ◌<◌, ◌≡◌, refl, arith, true}
use blobly_emb.Ioc.{init}
use blobly_emb.Ioc.Handoff.Defs.{
  System, Reader, WStep, RStep, write, read, Reach, here, next, start,
}
use blobly_emb.Ioc.Handoff.{whole_and_fresh}

-- A write of one byte, and a read that begins behind it.
abbrev one_value : (s : System) × Reach (start (λ i. 9) 1) s
unfolding init
one_value = (
  _,
  next
      (next
        (next
          (next
            (next
              (next
                (next
                  (next
                    (next (next here (write (WStep.call (λ i. 7))))
                      (write (WStep.store_byte (omega arith))))
                    (write (WStep.swap (omega arith))))
                  (write WStep.set_wr))
                (read (RStep.call (λ i. 0))))
              (read (RStep.see_fresh refl)))
            (read RStep.swap))
          (read RStep.set_rd))
        (read (RStep.load_byte (omega arith))))
      (read (RStep.finish (omega arith))),
)

abbrev buffer : Reader → ℕ → ℕ
buffer (Reader.finished out since ever) = out
buffer _ = λ i. 0

whole_and_fresh_example :
    let s = one_value.0 in
    ((i : ℕ) → i < s.mem.ioc.size → buffer s.reader i ≡ s.mem.val s.mem.rd_k i)
    × (1 ≤ s.mem.rd_k)
    × (s.mem.rd_k ≤ s.mem.pub_n)
    × (true ≡ true → 0 < s.mem.rd_k)
unfolding init
whole_and_fresh_example =
    whole_and_fresh (λ i. 9) 1 (buffer one_value.0.reader) 1 true one_value.1 refl
