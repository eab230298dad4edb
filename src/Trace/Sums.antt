-- ===== src/Trace/Sums.antt =====
-- Sums over the threads of boards/common/trace_hooks.c.
use blobly_emb.Prelude.{
  ℕ, zero, suc, ◌+◌, ◌^◌, ◌≤◌, ◌<◌, ◌≡◌, update, sub32, arith, refl, ap, ℕ_discrete,
}
use blobly_emb.Trace.Load.{add_all}

-- The first `n` values added up
pub sum : (ℕ → ℕ) → ℕ → ℕ
sum f zero = 0
sum f (suc n) = sum f n + f n

pub sum-update_ge : (f : ℕ → ℕ) (i v n : ℕ) → n ≤ i → sum (update f i v) n ≡ sum f n
unfolding sum
sum-update_ge f i v zero le = refl
sum-update_ge f i v (suc n) le = ground (arith, sum-update_ge f i v n (omega arith))

pub sum-update : (f : ℕ → ℕ) (i v n : ℕ) → i < n → sum (update f i v) n + f i ≡ sum f n + v
unfolding sum
sum-update f i v zero lt = absurd (omega arith)
sum-update f i v (suc n) lt = elim (ℕ_discrete i n) [
  | yes here ↦ ground (arith, sum-update_ge f i v n (omega arith), ap f here)
  | no below ↦ ground (arith, sum-update f i v n (omega arith))
]

pub le_sum : (f : ℕ → ℕ) (i n : ℕ) → i < n → f i ≤ sum f n
unfolding sum
le_sum f i zero lt = absurd (omega arith)
le_sum f i (suc n) lt = elim (ℕ_discrete i n) [
  | yes here ↦ ground (arith, ap f here)
  | no below ↦ ground (arith, le_sum f i n (omega arith))
]

-- The differences added up are the difference of the sums, where nothing wraps.
pub add_all-sum :
    (new old : ℕ → ℕ) (from n : ℕ)
    → ((i : ℕ) → i < n → old i ≤ new i)
    → from + sum new n < 2 ^ 32
    → add_all (λ i. sub32 (new i) (old i)) from n + sum old n ≡ from + sum new n
unfolding add_all sum
add_all-sum new old from zero le small = omega arith
add_all-sum new old from (suc n) le small =
    let ih = add_all-sum new old from n (λ i lt. le i (omega arith)) (omega arith) in
    ground (arith, ih, le n (omega arith))

pub sum_ext : (f g : ℕ → ℕ) (n : ℕ) → ((i : ℕ) → i < n → f i ≡ g i) → sum f n ≡ sum g n
unfolding sum
sum_ext f g zero h = refl
sum_ext f g (suc n) h = omega (arith, sum_ext f g n (λ i lt. h i (omega arith)), h n (omega arith))

pub sum_le : (f g : ℕ → ℕ) (n : ℕ) → ((i : ℕ) → i < n → f i ≤ g i) → sum f n ≤ sum g n
unfolding sum
sum_le f g zero h = omega arith
sum_le f g (suc n) h = omega (arith, sum_le f g n (λ i lt. h i (omega arith)), h n (omega arith))

-- One difference is at most the difference of the sums.
pub part_le :
    (old new : ℕ → ℕ) (i n : ℕ)
    → i < n
    → ((j : ℕ) → j < n → old j ≤ new j)
    → new i + sum old n ≤ sum new n + old i
part_le old new i n lt le =
    let cut = update new i (old i) in
    omega (
      arith,
      sum-update new i (old i) n lt,
      sum_le old cut n (λ j lj. ground (arith, le j lj, ap old)),
    )

pub sum_zero : (n : ℕ) → sum (λ i. 0) n ≡ 0
unfolding sum
sum_zero zero = refl
sum_zero (suc n) = omega (arith, sum_zero n)
