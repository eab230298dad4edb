-- ===== src/Xioc/Wide/Writer.antt =====
-- What a step of the writer leaves of a value that was published before.
use blobly_emb.Prelude.{
  ℕ, suc, ◌+◌, ◌*◌, ◌%◌, ◌≤◌, ◌<◌, ◌≡◌, ◌≢◌, refl, sym, ap, ◌∙◌, subst, update, update_self,
  update_ne, arith, rows_apart, grown, ℕ_discrete,
}
use native.Mathlib.Nat.{add-zero}
use blobly_emb.Xioc.{slot_at, next_seq, xioc_slots}
use blobly_emb.Xioc.Wide.Seq.{period, seq_of, seq_of-suc, seq_of-ne-zero, seq_of_distinct}
use blobly_emb.Xioc.Wide.Defs.{
  Mem, with_cell, Writer, WStep, call, invalidate, store_word, validate, publish, Guarded, WriterOk,
  MemOk, Known,
}

-- Words of different slots are different words.
slot_at_apart :
    (n p w i j : ℕ)
    → n % xioc_slots ≢ p % xioc_slots
    → i ≤ w
    → j ≤ w
    → slot_at p w + i ≢ slot_at n w + j
slot_at_apart n p w i j ne hi hj =
    rows_apart (p % xioc_slots) (n % xioc_slots) (1 + w) i j (λ e. ne (sym e)) (omega arith)
      (omega arith)

slot_at_apart_seq :
    (n p w j : ℕ) → n % xioc_slots ≢ p % xioc_slots → j ≤ w → slot_at p w ≢ slot_at n w + j
slot_at_apart_seq n p w j ne hj e =
    slot_at_apart n p w 0 j ne (omega arith) hj (add-zero (slot_at p w) ∙ e)

-- The slot of `n` is as it was, and so is the k-th value: what the step keeps of them where the
-- sequence word is still `n` and less than a period has gone by.
pub record Kept (m m' : Mem) (n k : ℕ) : Type 0 where
  pub near : m.begun < k + period
  pub stamp : m.chan.cell (slot_at n m.chan.words) ≡ n
  pub row :
      (j : ℕ)
      → j < m.chan.words
      → m'.chan.cell (slot_at n m.chan.words + suc j) ≡ m.chan.cell (slot_at n m.chan.words + suc j)
  pub history : (j : ℕ) → m'.val k j ≡ m.val k j

module _ {seed : ℕ} {m : Mem} (ok : MemOk seed m) (n k : ℕ) where
  -- A write of a word of another slot.
  Kept-with_cell :
      (at x : ℕ)
      → ((j : ℕ) → j ≤ m.chan.words → at ≢ slot_at n m.chan.words + j)
      → m.begun < k + period
      → (with_cell m at x).chan.cell (slot_at n m.chan.words) ≡ n
      → Kept m (with_cell m at x) n k
  Kept-with_cell at x apart near stamp = record {
    near = near;
    stamp =
        sym (
          update_ne m.chan.cell at x (slot_at n m.chan.words)
            (λ e. apart 0 (omega arith) (e ∙ sym (add-zero (slot_at n m.chan.words)))))
        ∙ stamp;
    row = λ j lt. update_ne m.chan.cell at x (slot_at n m.chan.words + suc j) (apart (suc j) lt);
    history = λ j. refl;
  }

  -- The slots of two numbers that are congruent are the same.
  same_slot :
      n % xioc_slots ≡ m.chan.wseq % xioc_slots
      → slot_at m.chan.wseq m.chan.words ≡ slot_at n m.chan.words
  same_slot e = ap (λ (s : ℕ). s * (1 + m.chan.words)) (sym e)

  not_zero : n ≡ seq_of seed k → 0 < k → n ≢ 0
  not_zero e pos z = seq_of-ne-zero seed k ok.seed_word pos (sym e ∙ z)

  not_again : n ≡ seq_of seed k → 0 < k → k < m.begun → m.begun < k + period → m.chan.wseq ≢ n
  not_again e pos lt near q =
      seq_of_distinct seed k m.begun ok.seed_word pos lt near (sym ok.numbers ∙ q ∙ e)

  -- The sequence word of the writer's own slot is 0 or its new number, never that of an earlier
  -- publish less than a period ago.
  pub WStep-Kept :
      {w w' : Writer} {m' : Mem}
      → WStep m w m' w'
      → WriterOk m w
      → n ≡ seq_of seed k
      → 0 < k
      → k ≤ m.done
      → m'.begun < k + period
      → m'.chan.cell (slot_at n m.chan.words) ≡ n
      → Kept m m' n k
  WStep-Kept (call v) l e pos le near stamp = record {
    near = omega arith;
    stamp = stamp;
    row = λ j lt. refl;
    history = λ j.
        let o = ok.order in
        ap (λ (f : ℕ → ℕ). f j) (update_ne m.val (suc m.begun) v k (omega arith));
  }
  WStep-Kept invalidate l e pos le near stamp =
      elim (ℕ_discrete (n % xioc_slots) (m.chan.wseq % xioc_slots)) [
        | yes same ↦ absurd (
            not_zero e pos (
              sym stamp
              ∙ subst (λ a. update m.chan.cell (slot_at m.chan.wseq m.chan.words) 0 a ≡ 0)
                  (same_slot same) (update_self m.chan.cell (slot_at m.chan.wseq m.chan.words) 0)))
        | no ne ↦
            Kept-with_cell (slot_at m.chan.wseq m.chan.words) 0
              (λ j. slot_at_apart_seq n m.chan.wseq m.chan.words j ne) near stamp
      ]
  WStep-Kept (store_word {v} {i} g) l e pos le near stamp =
      elim (ℕ_discrete (n % xioc_slots) (m.chan.wseq % xioc_slots)) [
        | yes same ↦ absurd (
            not_zero e pos (
              sym stamp
              ∙ update_ne m.chan.cell (slot_at m.chan.wseq m.chan.words + suc i) (v i)
                  (slot_at n m.chan.words) (λ q. let s = same_slot same in omega arith)
              ∙ ap m.chan.cell (sym (same_slot same))
              ∙ l.2))
        | no ne ↦
            Kept-with_cell (slot_at m.chan.wseq m.chan.words + suc i) (v i)
              (λ j. slot_at_apart n m.chan.wseq m.chan.words (suc i) j ne g) near stamp
      ]
  WStep-Kept (validate g) l e pos le near stamp =
      elim (ℕ_discrete (n % xioc_slots) (m.chan.wseq % xioc_slots)) [
        | yes same ↦ absurd (
            not_again e pos (omega arith) near (
              sym (
                subst
                  (λ a.
                    update m.chan.cell (slot_at m.chan.wseq m.chan.words) m.chan.wseq a
                    ≡ m.chan.wseq)
                  (same_slot same)
                  (update_self m.chan.cell (slot_at m.chan.wseq m.chan.words) m.chan.wseq))
              ∙ stamp))
        | no ne ↦
            Kept-with_cell (slot_at m.chan.wseq m.chan.words) m.chan.wseq
              (λ j. slot_at_apart_seq n m.chan.wseq m.chan.words j ne) near stamp
      ]
  WStep-Kept publish l e pos le near stamp = record {
    near = near;
    stamp = stamp;
    row = λ j lt. refl;
    history = λ j. refl;
  }

-- What the writer never changes.
pub words_kept : {w w' : Writer} {m m' : Mem} → WStep m w m' w' → m.chan.words ≡ m'.chan.words
words_kept (call v) = refl
words_kept invalidate = refl
words_kept (store_word g) = refl
words_kept (validate g) = refl
words_kept publish = refl

pub dst_kept : {w w' : Writer} {m m' : Mem} → WStep m w m' w' → m.dst ≡ m'.dst
dst_kept (call v) = refl
dst_kept invalidate = refl
dst_kept (store_word g) = refl
dst_kept (validate g) = refl
dst_kept publish = refl

pub rd_seq_kept : {w w' : Writer} {m m' : Mem} → WStep m w m' w' → m.rd_seq ≡ m'.rd_seq
rd_seq_kept (call v) = refl
rd_seq_kept invalidate = refl
rd_seq_kept (store_word g) = refl
rd_seq_kept (validate g) = refl
rd_seq_kept publish = refl

module _ {seed : ℕ} {m : Mem} (ok : MemOk seed m) where
  pub begun_grows :
      {w w' : Writer} {m' : Mem} → WStep m w m' w' → (m.begun ≤ m'.begun) × (m.done ≤ m'.done)
  begun_grows (call v) = omega arith
  begun_grows invalidate = omega arith
  begun_grows (store_word g) = omega arith
  begun_grows (validate g) = omega arith
  begun_grows publish = (omega arith, ok.order)

  -- A published value stays guarded.
  WStep-Guarded :
      {w w' : Writer} {m' : Mem} (n k : ℕ)
      → WStep m w m' w'
      → WriterOk m w
      → n ≡ seq_of seed k
      → 0 < k
      → k ≤ m.done
      → Guarded m n k
      → Guarded m' n k
  WStep-Guarded {m'} n k st l e pos le g near stamp j lt =
      let c = WStep-Kept ok n k st l e pos le near (rw (words_kept st) stamp) in
      let lt' : j < m.chan.words = rw (words_kept st) lt in
      rw (← words_kept st) (c.row j lt' ∙ g c.near c.stamp j lt' ∙ sym (c.history j))

  pub WStep-Known :
      {w w' : Writer} {m' : Mem} (n k : ℕ)
      → WStep m w m' w'
      → WriterOk m w
      → Known seed m n k
      → Known seed m' n k
  WStep-Known n k st l (e, pos, le, g) =
      let grow = begun_grows st in (e, pos, omega arith, WStep-Guarded n k st l e pos le g)

  pub WStep-WriterOk : {w w' : Writer} {m' : Mem} → WStep m w m' w' → WriterOk m w → WriterOk m' w'
  WStep-WriterOk (call v) l =
      (omega arith, λ j. ap (λ (f : ℕ → ℕ). f j) (update_self m.val (suc m.begun) v))
  WStep-WriterOk invalidate l = (
    l.0,
    l.1,
    update_self m.chan.cell (slot_at m.chan.wseq m.chan.words) 0,
    omega arith,
    λ j lt. absurd (omega arith),
  )
  WStep-WriterOk (store_word {v} {i} g) l =
      let base = slot_at m.chan.wseq m.chan.words in
      (
        l.0,
        l.1,
        update_ne m.chan.cell (base + suc i) (v i) base (omega arith) ∙ l.2,
        g,
        grown (λ j. update m.chan.cell (base + suc i) (v i) (base + suc j)) (m.val m.begun) i
            (λ j lt.
              update_ne m.chan.cell (base + suc i) (v i) (base + suc j) (omega arith) ∙ l.4 j lt)
            (update_self m.chan.cell (base + suc i) (v i) ∙ sym (l.1 i)),
      )
  WStep-WriterOk (validate {i} g) l =
      let base = slot_at m.chan.wseq m.chan.words in
      (
        l.0,
        λ j lt.
            update_ne m.chan.cell base m.chan.wseq (base + suc j) (omega arith)
            ∙ l.4 j (omega arith),
      )
  WStep-WriterOk publish l = refl

  pub WStep-MemOk : {w w' : Writer} {m' : Mem} → WStep m w m' w' → WriterOk m w → MemOk seed m'
  WStep-MemOk (call v) l = record {
    seed_word = ok.seed_word;
    numbers = ap next_seq ok.numbers ∙ seq_of-suc seed m.begun;
    order = omega (arith, ok.order);
    at_latest = ok.at_latest;
    none_yet = ok.none_yet;
    guarded = λ pos.
        WStep-Guarded (seq_of seed m.done) m.done (WStep.call v) l refl pos (omega arith)
          (ok.guarded pos);
  }
  WStep-MemOk invalidate l = record {
    seed_word = ok.seed_word;
    numbers = ok.numbers;
    order = ok.order;
    at_latest = ok.at_latest;
    none_yet = ok.none_yet;
    guarded = λ pos.
        WStep-Guarded (seq_of seed m.done) m.done invalidate l refl pos (omega arith)
          (ok.guarded pos);
  }
  WStep-MemOk (store_word g) l = record {
    seed_word = ok.seed_word;
    numbers = ok.numbers;
    order = ok.order;
    at_latest = ok.at_latest;
    none_yet = ok.none_yet;
    guarded = λ pos.
        WStep-Guarded (seq_of seed m.done) m.done (store_word g) l refl pos (omega arith)
          (ok.guarded pos);
  }
  WStep-MemOk (validate g) l = record {
    seed_word = ok.seed_word;
    numbers = ok.numbers;
    order = ok.order;
    at_latest = ok.at_latest;
    none_yet = ok.none_yet;
    guarded = λ pos.
        WStep-Guarded (seq_of seed m.done) m.done (validate g) l refl pos (omega arith)
          (ok.guarded pos);
  }
  WStep-MemOk publish l = record {
    seed_word = ok.seed_word;
    numbers = ok.numbers;
    order = omega arith;
    at_latest = λ pos. ok.numbers;
    none_yet = λ z. absurd (omega arith);
    guarded = λ pos near stamp j lt. rw (← ok.numbers) (l.1 j lt);
  }

  pub history_kept :
      {w w' : Writer} {m' : Mem}
      → WStep m w m' w'
      → (k : ℕ) → k ≤ m.begun
      → (j : ℕ) → m'.val k j ≡ m.val k j
  history_kept (call v) k le j =
      ap (λ (f : ℕ → ℕ). f j) (update_ne m.val (suc m.begun) v k (omega arith))
  history_kept invalidate k le j = refl
  history_kept (store_word g) k le j = refl
  history_kept (validate g) k le j = refl
  history_kept publish k le j = refl
