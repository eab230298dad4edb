-- ===== src/Io/Slots.antt =====
-- driver/io/io_stm32.c: the slots that `blob_io_cfg` deals out to analog points.
use blobly_emb.Prelude.{
  ℕ, suc, ◌+◌, ℤ, pos, negsuc, Status, ◌≡◌, ◌≢◌, ◌⊎◌, inl, inr, ◌<◌, Bool, not, ◌||◌, leb, ◌==◌,
  Option, none, some, update, update_self, update_ne, low_bits, arith, refl, ap, subst, sym, ◌∙◌,
  ℕ_discrete, if_both,
}
use blobly_emb.Io.Config.{
  Point, Table, Board, io_max, io_adc, io_pwm, with_point, cfg_adc, cfg_kind, cfg_pad, io_cfg,
}
use blobly_emb.Io.Pins.{pin_parse, adc_channel_of}
use blobly_emb.Io.Adc.{sequence}
use blobly_emb.Io.Sequence.{IsAnalog, AreApart, sq_of, sq_of-sequence}

-- The slots of the analog points are below `g_adc_n` and different.
abbrev pub IsSlotted : Table → Type 0
IsSlotted t = ((i slot : ℕ) → IsAnalog (t.pt i) slot → slot < t.adc_n) × AreApart t.pt

-- An analog point of the table with a new entry is that entry or an old point.
update-IsAnalog :
    (pt : ℕ → Point) (ch : ℕ) (p : Point) (i slot : ℕ)
    → IsAnalog (update pt ch p i) slot
    → ((ch ≡ i) × IsAnalog p slot) ⊎ ((ch ≢ i) × IsAnalog (pt i) slot)
update-IsAnalog pt ch p i slot at = elim (ℕ_discrete ch i) [
  | yes here ↦
      let now : update pt ch p i ≡ p = ap (update pt ch p) (sym here) ∙ update_self pt ch p in
      inl (here, subst (λ q. IsAnalog q slot) now at)
  | no other ↦ inr (other, subst (λ q. IsAnalog q slot) (update_ne pt ch p i other) at)
]

-- An entry that is analog at a slot only if it was before
with_point-IsSlotted :
    (t : Table) (ch : ℕ) (p : Point)
    → IsSlotted t
    → ((slot : ℕ) → IsAnalog p slot → IsAnalog (t.pt ch) slot)
    → IsSlotted (with_point t ch p)
with_point-IsSlotted t ch p (low, distinct) keep =
    let old : (i slot : ℕ) → IsAnalog (update t.pt ch p i) slot → IsAnalog (t.pt i) slot =
      λ i slot at. elim (update-IsAnalog t.pt ch p i slot at) [
        | inl (here, now) ↦ subst (λ k. IsAnalog (t.pt k) slot) here (keep slot now)
        | inr (other, before) ↦ before
      ] in
    (
      λ i slot at. low i slot (old i slot at),
      λ i j slot at_i at_j. distinct i j slot (old i slot at_i) (old j slot at_j),
    )

-- An entry at the next slot
fresh-IsSlotted :
    (t : Table) (ch : ℕ) (p : Point)
    → IsSlotted t
    → p.adc_slot ≡ some t.adc_n
    → IsSlotted (record { pt = update t.pt ch p; adc_n = suc t.adc_n })
fresh-IsSlotted t ch p (low, distinct) next =
    let low' : (i slot : ℕ) → IsAnalog (update t.pt ch p i) slot → slot < suc t.adc_n = λ i slot at.
      elim (update-IsAnalog t.pt ch p i slot at) [
        | inl (here, (on, adc, now)) ↦ ground arith
        | inr (other, before) ↦ let lt = low i slot before in omega arith
      ] in
    let distinct' : AreApart (update t.pt ch p) = λ i j slot at_i at_j.
      elim (update-IsAnalog t.pt ch p i slot at_i) [
        | inl (here, (on, adc, now)) ↦ elim (update-IsAnalog t.pt ch p j slot at_j) [
          | inl (here', now') ↦ sym here ∙ here'
          | inr (other, before) ↦ absurd (let lt = low j slot before in ground arith)
        ]
        | inr (other, before) ↦ elim (update-IsAnalog t.pt ch p j slot at_j) [
          | inl (here, (on, adc, now)) ↦ absurd (let lt = low i slot before in ground arith)
          | inr (other', before') ↦ distinct i j slot before before'
        ]
      ] in
    (low', distinct')

cfg_adc-IsSlotted :
    (t : Table) (ch : ℕ) (p : Point) (channel : Option ℕ)
    → IsSlotted t
    → p.adc_slot ≡ none
    → IsSlotted (cfg_adc t ch p channel).1
cfg_adc-IsSlotted t ch p none ok_t unset =
    with_point-IsSlotted t ch p ok_t (λ slot (on, adc, at). ground arith)
cfg_adc-IsSlotted t ch p (some c) ok_t unset = fresh-IsSlotted t ch _ ok_t refl

-- An entry without a slot
unset-IsSlotted :
    (t : Table) (ch : ℕ) (p : Point)
    → IsSlotted t
    → p.adc_slot ≡ none
    → IsSlotted (with_point t ch p)
unset-IsSlotted t ch p ok_t unset =
    with_point-IsSlotted t ch p ok_t (λ slot (on, adc, at). ground arith)

cfg_kind-IsSlotted :
    (t : Table) (ch : ℕ) (p : Point) (init_val kind param : ℕ)
    → IsSlotted t
    → p.adc_slot ≡ none
    → IsSlotted (cfg_kind t ch p init_val kind param).1
cfg_kind-IsSlotted t ch p init_val kind param ok_t unset =
    let Done : Status × Table → Type 0 = λ r. IsSlotted r.1 in
    if_both Done (kind == io_adc)
      (cfg_adc-IsSlotted t ch p (adc_channel_of p.port p.pin) ok_t unset)
      (if_both Done (kind == io_pwm)
        (if_both Done (param == 0) (unset-IsSlotted t ch p ok_t unset)
          (unset-IsSlotted t ch _ ok_t unset))
        (unset-IsSlotted t ch _ ok_t unset))

cfg_pad-IsSlotted :
    (board : Board) (t : Table) (ch : ℕ) (dir : Bool) (init_val : ℕ) (active_low : Bool)
    (kind param : ℕ) (pad : Option (ℕ × ℕ))
    → IsSlotted t
    → IsSlotted (cfg_pad board t ch dir init_val active_low kind param pad).1
cfg_pad-IsSlotted board t ch dir init_val active_low kind param none ok_t = ok_t
cfg_pad-IsSlotted board t ch dir init_val active_low kind param (some (port, pin)) ok_t =
    if_both (λ (r : Status × Table). IsSlotted r.1)
      (not (board.pin_exists port pin) || board.pin_reserved port pin)
      (with_point-IsSlotted t ch _ ok_t (λ slot at. at))
      (cfg_kind-IsSlotted t ch _ init_val kind param ok_t refl)

-- Every call of `blob_io_cfg` keeps the analog points at different slots below `g_adc_n`, whether
-- it succeeds or fails.
pub cfg-IsSlotted :
    (board : Board) (t : Table) (ch : ℤ) (s : ℕ → ℕ) (dir : Bool) (init_val : ℕ) (active_low : Bool)
    (kind param : ℕ)
    → IsSlotted t
    → IsSlotted (io_cfg board t ch s dir init_val active_low kind param).1
unfolding io_cfg
cfg-IsSlotted board t (negsuc k) s dir init_val active_low kind param ok_t = ok_t
cfg-IsSlotted board t (pos ch) s dir init_val active_low kind param ok_t =
    if_both (λ (r : Status × Table). IsSlotted r.1) (leb io_max ch) ok_t
      (cfg_pad-IsSlotted board t ch dir init_val active_low kind param (pin_parse s) ok_t)

-- In a table whose analog points stand at different slots below `g_adc_n`, the sequence that
-- `adc_dma_start` programs has, for each of them whose slot is below 16, the low five bits of its
-- channel number in the field where the reference manual places the rank `slot + 1`.
pub scan_order :
    (t : Table) (i slot : ℕ)
    → IsSlotted t
    → i < io_max
    → IsAnalog (t.pt i) slot
    → slot < 16
    → sq_of (sequence t.pt t.adc_n io_max) (slot + 1) ≡ low_bits (t.pt i).adc_ch 5
scan_order t i slot (low, distinct) lt at small =
    sq_of-sequence t.pt t.adc_n i slot distinct lt at small
