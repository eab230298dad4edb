-- ===== src/Canif/Names.antt =====
-- driver/can/can_canif.c: the bus that a name means.
use blobly_emb.Prelude.{
  ℕ, zero, suc, ◌-◌, ◌≤◌, ◌<◌, ◌≡◌, ◌⊎◌, inl, inr, true, false, some, arith, refl, Bool-cases,
  ℕ_discrete, subst, ◌≢◌,
}
use blobly_emb.Canif.{Shim, can_buses, is_digit, suffix_start, suffix_value, open_bus}

-- `start` begins the longest run of digits at the end of the first `len` characters.
abbrev pub IsSuffix : (ℕ → ℕ) → ℕ → ℕ → Type 0
IsSuffix name len start =
    (start ≤ len)
    × ((i : ℕ) → start ≤ i → i < len → is_digit (name i) ≡ true)
    × ((start ≡ 0) ⊎ (is_digit (name (start - 1)) ≡ false))

suffix_start-digit :
    (name : ℕ → ℕ) (len : ℕ)
    → is_digit (name len) ≡ true
    → suffix_start name len ≡ suffix_start name (suc len)
unfolding suffix_start
suffix_start-digit name len e = ground arith

suffix_start-other :
    (name : ℕ → ℕ) (len : ℕ) → is_digit (name len) ≡ false → suc len ≡ suffix_start name (suc len)
unfolding suffix_start
suffix_start-other name len e = ground arith

suffix_start-IsSuffix : (name : ℕ → ℕ) (len : ℕ) → IsSuffix name len (suffix_start name len)
suffix_start-IsSuffix name zero = (
  unfold suffix_start in omega arith,
  λ i lo hi. absurd (omega arith),
  inl (unfold suffix_start in refl),
)
suffix_start-IsSuffix name (suc len) =
    let (le, digits, stop) = suffix_start-IsSuffix name len in
    elim (Bool-cases (is_digit (name len))) [
      | inl digit ↦ subst (IsSuffix name (suc len)) (suffix_start-digit name len digit) (
        omega (arith, le),
        λ i lo hi. elim (ℕ_discrete len i) [
          | yes here ↦ subst (λ k. is_digit (name k) ≡ true) here digit
          | no before ↦ digits i lo (omega arith)
        ],
        stop,
      )
      | inr other ↦
          subst (IsSuffix name (suc len)) (suffix_start-other name len other)
            (omega arith, λ i lo hi. absurd (omega arith), inr ground (arith, other))
    ]

-- `blob_can_open` opens a bus only for a name that ends in a number, and then the bus of the whole
-- number at its end, its tally of losses cleared and no other's.
pub open_bus_sound :
    (name : ℕ → ℕ) (len b : ℕ) (s : Shim)
    → (open_bus name len s).0 ≡ some b
    → (start : ℕ) × (start < len)
      × IsSuffix name len start
      × (b ≡ suffix_value name start (len - start) 0)
      × (b < can_buses)
      × ((open_bus name len s).1.rx_lost b ≡ 0)
      × ((c : ℕ) → c ≢ b → (open_bus name len s).1.rx_lost c ≡ s.rx_lost c)
unfolding open_bus
open_bus_sound name len b s e =
    let suffix = suffix_start-IsSuffix name len in
    (
      suffix_start name len,
      ground (arith, suffix.0),
      suffix,
      ground arith,
      ground arith,
      ground arith,
      λ c ne. ground arith,
    )
