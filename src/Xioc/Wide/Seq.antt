-- ===== src/Xioc/Wide/Seq.antt =====
-- The sequence numbers of successive publishes.
use blobly_emb.Prelude.{ℕ, zero, suc, ◌+◌, ◌-◌, ◌%◌, ◌^◌, ◌<◌, ◌≡◌, ◌≢◌, refl, ap, ◌∙◌, arith}
use blobly_emb.Xioc.{next_seq}

-- 0 means "being written", so 2 ^ 32 - 1 numbers are in use.
abbrev pub period : ℕ
period = 2 ^ 32 - 1

-- The number of the k-th publish after a start at `seed`.
pub seq_of : ℕ → ℕ → ℕ
seq_of seed zero = seed
seq_of seed (suc k) = next_seq (seq_of seed k)

pub seq_of-suc : (seed k : ℕ) → next_seq (seq_of seed k) ≡ seq_of seed (suc k)
unfolding seq_of
seq_of-suc seed k = refl

pub seq_of-zero : (seed : ℕ) → seed ≡ seq_of seed 0
unfolding seq_of
seq_of-zero seed = refl

next_seq_first : (x : ℕ) → x < 2 ^ 32 → next_seq x ≡ (x + 0) % period + 1
unfolding next_seq
next_seq_first x h = ground arith

next_seq_wraps : (q : ℕ) → next_seq (q % period + 1) ≡ (q + 1) % period + 1
unfolding next_seq
next_seq_wraps q = ground arith

pub seq_of_closed : (seed k : ℕ) → seed < 2 ^ 32 → seq_of seed (suc k) ≡ (seed + k) % period + 1
unfolding seq_of
seq_of_closed seed zero h = next_seq_first seed h
seq_of_closed seed (suc k) h =
    ap next_seq (seq_of_closed seed k h)
    ∙ next_seq_wraps (seed + k)
    ∙ ap (λ (q : ℕ). q % period + 1) (let e : seed + k + 1 ≡ seed + suc k = omega arith in e)

pub seq_of-ne-zero : (seed k : ℕ) → seed < 2 ^ 32 → 0 < k → seq_of seed k ≢ 0
seq_of-ne-zero seed zero h lt = absurd (omega arith)
seq_of-ne-zero seed (suc k) h lt = omega (arith, seq_of_closed seed k h)

-- A number comes again only after a whole period.
pub seq_of_distinct :
    (seed j k : ℕ) → seed < 2 ^ 32 → 0 < j → j < k → k < j + period → seq_of seed k ≢ seq_of seed j
seq_of_distinct seed zero k h pos lt near = absurd (omega arith)
seq_of_distinct seed (suc j) zero h pos lt near = absurd (omega arith)
seq_of_distinct seed (suc j) (suc k) h pos lt near =
    omega (arith, seq_of_closed seed j h, seq_of_closed seed k h)
