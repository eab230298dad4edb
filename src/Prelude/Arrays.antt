-- ===== src/Prelude/Arrays.antt =====
-- C arrays as functions of the index. The size of an array is no part of the function.
use Prim.Native.Nat.{ℕ, zero, suc, ◌+◌, ◌*◌, ◌<◌}
use native.Mathlib.Decide.{dec_lt, ℕ_discrete}
use mathlib.Core.Path.{◌≡◌, refl, ap, subst}
use mathlib.Core.Logic.{◌≢◌}
use mathlib.Core.List.{List, [], ◌∷◌}
use native.Mathlib.Omega.{arith}
use blobly_emb.Prelude.Tests.{ltb, ◌==◌, if◌then◌else◌}
use blobly_emb.Prelude.Lists.{length}

module _ {ℓ} {A : Type ℓ} where
  -- `a[i] = v`
  abbrev pub update : (ℕ → A) → ℕ → A → ℕ → A
  update a i v j = if i == j then v else a j

  -- `memcpy(dst, src, n)`, counted in elements
  abbrev pub memcpy : (ℕ → A) → (ℕ → A) → ℕ → ℕ → A
  memcpy dst src n i = if ltb i n then src i else dst i

  -- The elements `a[i .. i + n)`.
  abbrev pub slice : (ℕ → A) → ℕ → ℕ → List A
  slice a i zero = []
  slice a i (suc n) = a i ∷ slice a (suc i) n

  pub length-slice : (a : ℕ → A) (i n : ℕ) → length (slice a i n) ≡ n
  length-slice a i zero = refl
  length-slice a i (suc n) = ap suc (length-slice a (suc i) n)

  pub slice_ext :
      (a b : ℕ → A) (i n : ℕ) → ((j : ℕ) → j < i + n → a j ≡ b j) → slice a i n ≡ slice b i n
  slice_ext a b i zero h = refl
  slice_ext a b i (suc n) h =
      grind (arith, h i (omega arith), slice_ext a b (suc i) n (λ j p. h j (omega arith)))

  pub update_self : (a : ℕ → A) (i : ℕ) (v : A) → update a i v i ≡ v
  update_self a i v = ground arith

  pub update_at : (a : ℕ → A) (i : ℕ) (v : A) (j : ℕ) → i ≡ j → update a i v j ≡ v
  update_at a i v j e = ground arith

  pub update_ne : (a : ℕ → A) (i : ℕ) (v : A) (j : ℕ) → i ≢ j → update a i v j ≡ a j
  update_ne a i v j ne = ground arith

  pub memcpy_lt : (dst src : ℕ → A) (n i : ℕ) → i < n → memcpy dst src n i ≡ src i
  memcpy_lt dst src n i lt = ground arith

  -- A copied prefix reads as the source's.
  pub slice-memcpy : (dst src : ℕ → A) (n : ℕ) → slice (memcpy dst src n) 0 n ≡ slice src 0 n
  slice-memcpy dst src n = slice_ext (memcpy dst src n) src 0 n (λ j p. ground arith)

-- Elements of different rows of `n` are different elements.
rows_below : (a b n i j : ℕ) → a < b → i < n → a * n + i < b * n + j
rows_below a b n i j h p = grind arith

pub rows_apart : (a b n i j : ℕ) → a ≢ b → i < n → j < n → a * n + i ≢ b * n + j
rows_apart a b n i j ne p q = elim (dec_lt a b) [
  | yes lt ↦ omega (arith, rows_below a b n i j lt p)
  | no ge ↦ omega (arith, rows_below b a n j i (omega arith) q)
]

-- A prefix of an array that agrees with another, grown by one element.
pub grown :
    (a b : ℕ → ℕ) (i : ℕ)
    → ((j : ℕ) → j < i → a j ≡ b j)
    → a i ≡ b i
    → (j : ℕ) → j < suc i
    → a j ≡ b j
grown a b i h e j lt = elim (ℕ_discrete i j) [
  | yes p ↦ subst (λ k. a k ≡ b k) p e
  | no ne ↦ h j (omega arith)
]
