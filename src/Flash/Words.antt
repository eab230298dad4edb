-- ===== src/Flash/Words.antt =====
-- The erased words of the flash, by their bytes.
use blobly_emb.Prelude.{
  ℕ, zero, suc, ◌+◌, ◌*◌, ◌^◌, ◌≤◌, ◌<◌, ◌≡◌, ◌↔◌, refl, true, sym, subst, arith, dec_lt,
  ℕ_discrete,
}
use blobly_emb.Flash.{word_at, all_ones}

-- The bytes are bytes.
abbrev pub Bytes : (ℕ → ℕ) → Type 0
Bytes mem = (a : ℕ) → mem a < 256

pub four :
    (a b c d : ℕ)
    → a < 256
    → b < 256
    → c < 256
    → d < 256
    → a + b * 2 ^ 8 + c * 2 ^ 16 + d * 2 ^ 24 ≡ 0xFFFFFFFF
    → (a ≡ 255) × (b ≡ 255) × (c ≡ 255) × (d ≡ 255)
four a b c d p q r s e = (omega arith, omega arith, omega arith, omega arith)

pub word-ones :
    (mem : ℕ → ℕ) (k j : ℕ)
    → Bytes mem
    → word_at mem k ≡ 0xFFFFFFFF
    → 4 * k ≤ j
    → j < 4 * k + 4
    → mem j ≡ 255
word-ones mem k j bytes e le lt =
    let (a, b, c, d) =
      four (mem (4 * k)) (mem (4 * k + 1)) (mem (4 * k + 2)) (mem (4 * k + 3)) (bytes (4 * k))
        (bytes (4 * k + 1)) (bytes (4 * k + 2)) (bytes (4 * k + 3)) e in
    elim (ℕ_discrete j (4 * k)) [
      | yes p ↦ subst (λ i. mem i ≡ 255) (sym p) a
      | no ne ↦ elim (ℕ_discrete j (4 * k + 1)) [
        | yes p ↦ subst (λ i. mem i ≡ 255) (sym p) b
        | no nf ↦ elim (ℕ_discrete j (4 * k + 2)) [
          | yes p ↦ subst (λ i. mem i ≡ 255) (sym p) c
          | no ng ↦ subst (λ i. mem i ≡ 255) {x = 4 * k + 3} (omega arith) d
        ]
      ]
    ]

pub ones-word :
    (mem : ℕ → ℕ) (k : ℕ)
    → ((j : ℕ) → 4 * k ≤ j → j < 4 * k + 4 → mem j ≡ 255)
    → word_at mem k ≡ 0xFFFFFFFF
ones-word mem k h = omega (
  arith,
  h (4 * k) (omega arith) (omega arith),
  h (4 * k + 1) (omega arith) (omega arith),
  h (4 * k + 2) (omega arith) (omega arith),
  h (4 * k + 3) (omega arith) (omega arith),
)

pub all_ones_iff :
    (mem : ℕ → ℕ) (addr k n : ℕ)
    → Bytes mem
    → (all_ones mem addr k n ≡ true)
      ↔ ((j : ℕ) → 4 * k ≤ j → j < 4 * (k + n) → mem (addr + j) ≡ 255)
all_ones_iff mem addr k n bytes = (to k n, from k n)
  where
    to :
        (k n : ℕ)
        → all_ones mem addr k n ≡ true
        → (j : ℕ) → 4 * k ≤ j
        → j < 4 * (k + n)
        → mem (addr + j) ≡ 255
    to k zero h j le lt = absurd (omega arith)
    to k (suc n) h j le lt = elim (dec_lt j (4 * k + 4)) [
      | yes p ↦ word-ones (λ i. mem (addr + i)) k j (λ i. bytes (addr + i)) (ground arith) le p
      | no q ↦ to (suc k) n (ground arith) j (omega arith) (omega arith)
    ]

    from :
        (k n : ℕ)
        → ((j : ℕ) → 4 * k ≤ j → j < 4 * (k + n) → mem (addr + j) ≡ 255)
        → all_ones mem addr k n ≡ true
    from k zero h = refl
    from k (suc n) h = ground (
      arith,
      ones-word (λ i. mem (addr + i)) k (λ j le lt. h j le (omega arith)),
      from (suc k) n (λ j le lt. h j (omega arith) (omega arith)),
    )
