-- ===== src/Bulk/Rings.antt =====
-- A ring of `n` words under two 32-bit cursors, as the list of the words between them.
use blobly_emb.Prelude.{
  ℕ, zero, suc, ◌+◌, ◌-◌, ◌%◌, ◌^◌, ◌<◌, ◌≡◌, ◌≢◌, refl, sym, ap, ap₂, ◌∙◌, update, update_self,
  update_ne, slice, length-slice, length, add32, sub32, List, [], ◌∷◌, ◌++◌, arith, dec_lt,
}
use Prim.Native.Nat.{◌∣◌}
use native.Mathlib.Nat.{mod-add-mod, mod-eq_of_lt, mod-eq-sub-mod, mod-lt, mod-mod_of_dvd, add-zero}

-- The words at the cursors `t`, `t + 1`, … , `k` of them.
abbrev pub window : (ℕ → ℕ) → ℕ → ℕ → ℕ → List ℕ
window ring n t k = slice (λ (c : ℕ). ring (c % n)) t k

pub length-window : (ring : ℕ → ℕ) (n t k : ℕ) → length (window ring n t k) ≡ k
length-window ring n t k = length-slice (λ (c : ℕ). ring (c % n)) t k

-- Cursors less than a round apart are at different words.
mod_apart : (t d n : ℕ) → 0 < d → d < n → (t + d) % n ≢ t % n
mod_apart t d n pos lt e = elim (dec_lt (t % n + d) n) [
  | yes p ↦ omega (arith, mod-add-mod t n d, mod-eq_of_lt p)
  | no p ↦ omega (
    arith,
    mod-add-mod t n d,
    mod-lt t {m = n} (omega arith),
    mod-eq-sub-mod {n = t % n + d} {m = n} (omega arith),
    mod-eq_of_lt {n = t % n + d - n} {m = n} (omega (arith, mod-lt t {m = n} (omega arith))),
  )
]

-- A word written at the cursor behind a window that is not full extends it.
pub window-push :
    (ring : ℕ → ℕ) (n x k t h : ℕ)
    → k < n
    → h % n ≡ (t + k) % n
    → window (update ring (h % n) x) n t (suc k) ≡ window ring n t k ++ (x ∷ [])
window-push ring n x zero t h lt e =
    ap (λ y. y ∷ [])
      (ap (update ring (h % n) x) (sym (e ∙ ap (λ (c : ℕ). c % n) (add-zero t)))
        ∙ update_self ring (h % n) x)
window-push ring n x (suc k) t h lt e =
    ap₂ ◌∷◌
      (update_ne ring (h % n) x (t % n) (λ q. mod_apart t (suc k) n (omega arith) lt (sym e ∙ q)))
      (window-push ring n x k (suc t) h (omega arith)
        (e ∙ ap (λ (c : ℕ). c % n) (let s : t + suc k ≡ suc t + k = omega arith in s)))

-- A window begins with the word at its cursor.
pub window-pop :
    (ring : ℕ → ℕ) (n t k : ℕ)
    → 0 < k
    → window ring n t k ≡ ring (t % n) ∷ window ring n (suc t) (k - 1)
window-pop ring n t zero h = absurd (omega arith)
window-pop ring n t (suc k) h =
    ap (λ j. ring (t % n) ∷ window ring n (suc t) j) (let s : k ≡ suc k - 1 = omega arith in s)

-- The cursor's wrap at 2 ^ 32 is no seam if the ring's size divides it.
pub window-wrap :
    (ring : ℕ → ℕ) (n s t k : ℕ) → s % n ≡ t % n → window ring n s k ≡ window ring n t k
window-wrap ring n s t zero e = refl
window-wrap ring n s t (suc k) e =
    ap₂ ◌∷◌ (ap ring e) (window-wrap ring n (suc s) (suc t) k (suc_mod s t n e))
  where
    suc_mod : (s t n : ℕ) → s % n ≡ t % n → suc s % n ≡ suc t % n
    suc_mod s t n e =
        ap (λ (c : ℕ). c % n) (let p : suc s ≡ s + 1 = omega arith in p)
        ∙ sym (mod-add-mod s n 1)
        ∙ ap (λ (c : ℕ). (c + 1) % n) e
        ∙ mod-add-mod t n 1
        ∙ ap (λ (c : ℕ). c % n) (let p : t + 1 ≡ suc t = omega arith in p)

pub add32-mod : (t n : ℕ) → n ∣ 2 ^ 32 → add32 t 1 % n ≡ suc t % n
add32-mod t n d =
    mod-mod_of_dvd n (t + 1) d ∙ ap (λ (c : ℕ). c % n) (let p : t + 1 ≡ suc t = omega arith in p)

-- The cursor behind `k` words is the head.
pub head-mod : (h t n : ℕ) → h < 2 ^ 32 → t < 2 ^ 32 → n ∣ 2 ^ 32 → h % n ≡ (t + sub32 h t) % n
head-mod h t n hh ht d =
    ap (λ (c : ℕ). c % n) (let p : h ≡ (t + sub32 h t) % 2 ^ 32 = omega arith in p)
    ∙ mod-mod_of_dvd n (t + sub32 h t) d
