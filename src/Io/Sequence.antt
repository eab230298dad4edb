-- ===== src/Io/Sequence.antt =====
-- driver/io/io_stm32.c: each analog point is converted at the rank of its slot.
use blobly_emb.Prelude.{
  ℕ, zero, suc, ◌+◌, ◌-◌, ◌*◌, ◌/◌, ◌≡◌, ◌≢◌, inl, inr, ◌<◌, ◌≤◌, Bool, true, ◌&&◌, if◌then◌else◌,
  leb, ◌==◌, Option, none, some, bit_or, low_bits, arith, refl, ap, sym, ◌∙◌, ℕ_discrete, subst,
  ap₂, Bool-cases,
}
use blobly_emb.Io.Config.{Point, io_max, io_adc}
use blobly_emb.Io.Adc.{Sqr, reg_of, field_of, or_field, put_rank, put_point, sequence}

-- `SQ1` to `SQ16` as the reference manual places them: the register and the bit of a rank.
abbrev pub sq_register : ℕ → ℕ
sq_register r = if leb r 4 then 1 else if leb r 9 then 2 else if leb r 14 then 3 else 4

abbrev pub sq_bit : ℕ → ℕ
sq_bit r =
    if leb r 4
    then 6 * r
    else if leb r 9
    then 6 * (r - 5)
    else if leb r 14
    then 6 * (r - 10)
    else 6 * (r - 15)

abbrev pub IsAnalog : Point → ℕ → Type 0
IsAnalog p slot = (p.configured ≡ true) × (p.kind ≡ io_adc) × (p.adc_slot ≡ some slot)

places : (r : ℕ) → 1 ≤ r → r ≤ 16 → (reg_of r + 1 ≡ sq_register r) × (6 * field_of r ≡ sq_bit r)
places r lo hi = (ground arith, ground arith)

apart : (q r : ℕ) → 1 ≤ q → 1 ≤ r → reg_of q ≡ reg_of r → field_of q ≡ field_of r → q ≡ r
apart q r lo lo' e f = ground arith

-- Every number below `n` passes the test.
unfoldable all_below : (ℕ → Bool) → ℕ → Bool
all_below f zero = true
all_below f (suc n) = f n && all_below f n

all_below-true : (f : ℕ → Bool) (n k : ℕ) → all_below f n ≡ true → k < n → f k ≡ true
unfolding all_below
all_below-true f zero k e lt = ground arith
all_below-true f (suc n) k e lt = elim (ℕ_discrete k n) [
  | yes k=n ↦ let here : f n ≡ true = ground arith in subst (λ x. f x ≡ true) (sym k=n) here
  | no k≠n ↦
      let rest : all_below f n ≡ true = ground arith in all_below-true f n k rest (ground arith)
]

zeros : all_below (λ x. bit_or 0 x == x) 32 ≡ true
unfolding all_below
zeros = refl

bit_or-zero : (c : ℕ) → bit_or 0 (low_bits c 5) ≡ low_bits c 5
bit_or-zero c =
    let fits : low_bits c 5 < 32 = ground arith in
    let same : (bit_or 0 (low_bits c 5) == low_bits c 5) ≡ true =
      all_below-true (λ x. bit_or 0 x == x) 32 (low_bits c 5) zeros fits in
    ground arith

-- The field of the rank `slot + 1`
abbrev rank_field : Sqr → ℕ → ℕ
rank_field q slot = q.field (reg_of (slot + 1)) (field_of (slot + 1))

or_field_other :
    (q : Sqr) (s slot c : ℕ)
    → s ≢ slot
    → rank_field (or_field q (reg_of (s + 1)) (field_of (s + 1)) c) slot ≡ rank_field q slot
or_field_other q s slot c ne = elim (ℕ_discrete (reg_of (slot + 1)) (reg_of (s + 1))) [
  | yes e ↦ elim (ℕ_discrete (field_of (slot + 1)) (field_of (s + 1))) [
    | yes f ↦
        let same = apart (slot + 1) (s + 1) (ground arith) (ground arith) e f in
        absurd (ne (ground arith))
    | no far ↦ ground arith
  ]
  | no far ↦ ground arith
]

put_rank_other :
    (q : Sqr) (p : Point) (at : Option ℕ) (slot : ℕ)
    → at ≢ some slot
    → rank_field (put_rank q p at) slot ≡ rank_field q slot
put_rank_other q p none slot ne = refl
put_rank_other q p (some s) slot ne = elim (ℕ_discrete s slot) [
  | yes e ↦ absurd (ne (ap some e))
  | no apart_from ↦
      let same = or_field_other q s slot (low_bits p.adc_ch 5) apart_from in ground (arith, same)
]

put_point_other :
    (q : Sqr) (p : Point) (slot : ℕ)
    → ¬ IsAnalog p slot
    → rank_field (put_point q p) slot ≡ rank_field q slot
put_point_other q p slot not_here = elim (Bool-cases (p.configured && p.kind == io_adc)) [
  | inl on ↦
      let set : p.configured ≡ true = ground arith in
      let adc : p.kind ≡ io_adc = ground arith in
      let rest = put_rank_other q p p.adc_slot slot (λ e. not_here (set, adc, e)) in
      ground (arith, rest)
  | inr off ↦ ground arith
]

put_point_here :
    (q : Sqr) (p : Point) (slot : ℕ)
    → IsAnalog p slot
    → slot < 16
    → rank_field q slot ≡ 0
    → rank_field (put_point q p) slot ≡ low_bits p.adc_ch 5
put_point_here q p slot (on, adc, at) lt free =
    let guard : (p.configured && p.kind == io_adc) ≡ true = ground arith in
    let reg_small : leb (reg_of (slot + 1)) 3 ≡ true = ground arith in
    let or_zero = bit_or-zero p.adc_ch in
    let placed : rank_field (put_rank q p (some slot)) slot ≡ low_bits p.adc_ch 5 = ground arith in
    let enter : put_point q p ≡ put_rank q p p.adc_slot = ground arith in
    ap (λ x. rank_field x slot) (enter ∙ ap (put_rank q p) at) ∙ placed

-- No point below `n` has the slot.
abbrev IsFree : (ℕ → Point) → ℕ → ℕ → Type 0
IsFree pt n slot = (i : ℕ) → i < n → ¬ IsAnalog (pt i) slot

sequence_free :
    (pt : ℕ → Point) (adc_n n slot : ℕ)
    → IsFree pt n slot
    → rank_field (sequence pt adc_n n) slot ≡ 0
unfolding sequence
sequence_free pt adc_n zero slot free = refl
sequence_free pt adc_n (suc n) slot free =
    let ih = sequence_free pt adc_n n slot (λ i lt. free i (omega arith)) in
    put_point_other (sequence pt adc_n n) (pt n) slot (free n (omega arith)) ∙ ih

-- No two points share a slot.
abbrev pub AreApart : (ℕ → Point) → Type 0
AreApart pt = (i j slot : ℕ) → IsAnalog (pt i) slot → IsAnalog (pt j) slot → i ≡ j

sequence_field :
    (pt : ℕ → Point) (adc_n n i slot : ℕ)
    → AreApart pt
    → i < n
    → IsAnalog (pt i) slot
    → slot < 16
    → rank_field (sequence pt adc_n n) slot ≡ low_bits (pt i).adc_ch 5
unfolding sequence
sequence_field pt adc_n zero i slot distinct lt at small = absurd (omega arith)
sequence_field pt adc_n (suc n) i slot distinct lt at small = elim (ℕ_discrete i n) [
  | yes e ↦
      let at_n : IsAnalog (pt n) slot = subst (λ k. IsAnalog (pt k) slot) e at in
      let free : IsFree pt n slot =
        λ j below at_j. absurd (let same = distinct j n slot at_j at_n in omega arith) in
      put_point_here (sequence pt adc_n n) (pt n) slot at_n small
        (sequence_free pt adc_n n slot free)
      ∙ ap (λ k. low_bits (pt k).adc_ch 5) (sym e)
  | no other ↦
      put_point_other (sequence pt adc_n n) (pt n) slot (λ at_n. other (distinct i n slot at at_n))
      ∙ sequence_field pt adc_n n i slot distinct (omega arith) at small
]

-- What the converter reads of the rank `r`: the field at bit `sq_bit r` of SQR`sq_register r`.
abbrev pub sq_of : Sqr → ℕ → ℕ
sq_of q r = q.field (sq_register r - 1) (sq_bit r / 6)

pub sq_of-sequence :
    (pt : ℕ → Point) (adc_n i slot : ℕ)
    → AreApart pt
    → i < io_max
    → IsAnalog (pt i) slot
    → slot < 16
    → sq_of (sequence pt adc_n io_max) (slot + 1) ≡ low_bits (pt i).adc_ch 5
sq_of-sequence pt adc_n i slot distinct lt at small =
    let (reg, bit) = places (slot + 1) (omega arith) (omega arith) in
    let reg_eq : sq_register (slot + 1) - 1 ≡ reg_of (slot + 1) = omega arith in
    let bit_eq : sq_bit (slot + 1) / 6 ≡ field_of (slot + 1) = omega arith in
    ap₂ (sequence pt adc_n io_max).field reg_eq bit_eq
    ∙ sequence_field pt adc_n io_max i slot distinct lt at small
