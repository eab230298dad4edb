-- ===== src/Io/Carrier.antt =====
-- driver/io/io_stm32.c: the prescaler and the reload value of a PWM carrier.
use blobly_emb.Prelude.{
  ℕ, zero, suc, ◌+◌, ◌-◌, ◌*◌, ◌/◌, ◌^◌, ◌≡◌, ◌<◌, ◌≤◌, ◌||◌, if◌then◌else◌, ltb, Option, none,
  some, low_bits, arith, ap, ap₂, subst, sym, ◌∙◌, dec_lt, ℕ_discrete,
}
use native.Mathlib.Nat.{
  le-div_iff_mul-le, div-le_self, mul-div-le, mul-add-div_right, mul-div_right, div-eq_of_lt,
}
use blobly_emb.Io.Pwm.{psc_loop, checked_carrier, reload, period, carrier}

-- The loop from `psc` with the fuel to reach a prescaler `k` that will do
psc_loop_reaches :
    (fuel total psc k : ℕ)
    → psc ≤ k
    → k < psc + fuel
    → total / (k + 1) ≤ 65536
    → (p : ℕ) × (psc_loop fuel total psc ≡ some p)
      × (psc ≤ p)
      × (p ≤ k)
      × (total / (p + 1) ≤ 65536)
      × ((q : ℕ) → psc ≤ q → q < p → 65536 < total / (q + 1))
unfolding psc_loop
psc_loop_reaches zero total psc k lo hi fits = absurd (omega arith)
psc_loop_reaches (suc fuel) total psc k lo hi fits = elim (dec_lt 65536 (total / (psc + 1))) [
  | yes over ↦ elim (ℕ_discrete psc k) [
    | yes same ↦ absurd (let here = ap (λ x. total / (x + 1)) same in omega (arith, here))
    | no below ↦
        let (p, done, lo', le, fits', least) =
          psc_loop_reaches fuel total (psc + 1) k (omega arith) (omega arith) fits in
        (
          p,
          ground (arith, done),
          omega arith,
          le,
          fits',
          λ q lo_q lt. elim (ℕ_discrete psc q) [
            | yes here ↦ subst (λ x. 65536 < total / (x + 1)) here over
            | no further ↦ least q (omega arith) lt
          ],
        )
  ]
  | no under ↦ (psc, ground arith, omega arith, lo, omega arith, λ q lo_q lt. absurd (omega arith))
]

-- The loop over prescalers ends for every 32-bit period, within 65536 rounds, at the least
-- prescaler for which the reload value fits 16 bits; the prescaler fits 16 bits, too.
pub psc_loop_least :
    (total : ℕ)
    → total < 2 ^ 32
    → (p : ℕ) × (psc_loop 65536 total 0 ≡ some p)
      × (p ≤ 65535)
      × (total / (p + 1) ≤ 65536)
      × ((q : ℕ) → q < p → 65536 < total / (q + 1))
psc_loop_least total small =
    let (p, done, lo, le, fits, least) =
      psc_loop_reaches 65536 total 0 65535 (omega arith) (omega arith) (omega arith) in
    (p, done, le, fits, λ q lt. least q (omega arith) lt)

-- The tolerance of `pwm_setup` around a carrier of `req` Hz
abbrev pub tolerance : ℕ → ℕ
tolerance req = req / 100 + 1

-- What an accepted carrier is
abbrev pub IsCarrier : ℕ → ℕ → ℕ → ℕ → Type 0
IsCarrier clk fr psc arr =
    (psc ≤ 65535)
    × (arr ≤ 65535)
    × (clk / ((psc + 1) * (arr + 1)) ≤ fr + tolerance fr)
    × (fr ≤ clk / ((psc + 1) * (arr + 1)) + tolerance fr)

period_le : (clk fr : ℕ) → clk < 2 ^ 31 → fr < 2 ^ 31 → period clk fr ≤ clk + fr / 2
period_le clk fr small small' =
    let le = div-le_self (low_bits (clk + fr / 2) 32) fr in ground (arith, le)

-- The test of the tolerance on an achieved carrier
abbrev in_tolerance : ℕ → ℕ → ℕ × ℕ → Option (ℕ × ℕ)
in_tolerance req achieved found =
    if ltb (low_bits (req + tolerance req) 32) achieved
      || ltb (low_bits (achieved + tolerance req) 32) req
    then none
    else some found

in_tolerance_close :
    (req achieved p a psc arr : ℕ)
    → achieved < 2 ^ 31
    → req < 2 ^ 31
    → in_tolerance req achieved (p, a) ≡ some (psc, arr)
    → (psc ≡ p) × (arr ≡ a) × (achieved ≤ req + tolerance req) × (req ≤ achieved + tolerance req)
in_tolerance_close req achieved p a psc arr small small' e =
    (ground arith, ground arith, ground arith, ground arith)

-- With no product that wraps, an accepted carrier is within the tolerance.
checked_carrier_close :
    (clk fr p a product psc arr : ℕ)
    → clk < 2 ^ 31
    → fr < 2 ^ 31
    → (p + 1) * (a + 1) ≡ product
    → product < 2 ^ 32
    → checked_carrier clk fr p a ≡ some (psc, arr)
    → (psc ≡ p)
      × (arr ≡ a)
      × (clk / product ≤ fr + tolerance fr)
      × (fr ≤ clk / product + tolerance fr)
checked_carrier_close clk fr p a product psc arr small small' is fits e =
    let le = div-le_self clk product in
    let same : low_bits ((p + 1) * (a + 1)) 32 ≡ product = ground (arith, is) in
    let achieved : clk / low_bits ((p + 1) * (a + 1)) 32 ≡ clk / product = ap (λ x. clk / x) same in
    in_tolerance_close fr (clk / product) p a psc arr (omega arith) small'
      (ap (λ x. in_tolerance fr x (p, a)) (sym achieved) ∙ e)

checked_carrier-IsCarrier :
    (clk fr total p psc arr : ℕ)
    → clk < 2 ^ 31
    → fr < 2 ^ 31
    → total < 2 ^ 32
    → 1 ≤ total / (p + 1)
    → p ≤ 65535
    → total / (p + 1) ≤ 65536
    → checked_carrier clk fr p (total / (p + 1) - 1) ≡ some (psc, arr)
    → IsCarrier clk fr psc arr
checked_carrier-IsCarrier clk fr total p psc arr small small' small'' pos p_le fits e =
    let whole : total / (p + 1) - 1 + 1 ≡ total / (p + 1) = omega arith in
    let product_le : (p + 1) * (total / (p + 1)) ≤ total = mul-div-le total (p + 1) in
    let product : (p + 1) * (total / (p + 1) - 1 + 1) ≡ (p + 1) * (total / (p + 1)) =
      ap (λ x. (p + 1) * x) whole in
    let (p_eq, a_eq, high, low) =
      checked_carrier_close clk fr p (total / (p + 1) - 1) ((p + 1) * (total / (p + 1))) psc arr
        small small' product (omega (arith, product_le)) e in
    let result : (psc + 1) * (arr + 1) ≡ (p + 1) * (total / (p + 1)) =
      ap₂ (λ x y. (x + 1) * (y + 1)) p_eq a_eq ∙ product in
    (
      omega arith,
      omega arith,
      subst (λ x. clk / x ≤ fr + tolerance fr) (sym result) high,
      subst (λ x. fr ≤ clk / x + tolerance fr) (sym result) low,
    )

reload_pos :
    (total p : ℕ)
    → 2 ≤ total
    → p ≤ 65535
    → ((q : ℕ) → q < p → 65536 < total / (q + 1))
    → 1 ≤ total / (p + 1)
reload_pos total zero two le least = (le-div_iff_mul-le {k = 1} (omega arith)).1 (omega arith)
reload_pos total (suc q) two le least =
    let over = (le-div_iff_mul-le {k = q + 1} (omega arith)).0 (least q (omega arith)) in
    (le-div_iff_mul-le {k = suc q + 1} (omega arith)).1 (omega (arith, over))

-- For a timer clock and a carrier below 2 ^ 31 Hz, what `pwm_setup` takes as the prescaler and the
-- reload value fits the 16-bit registers, and the carrier that they make of the clock is within one
-- part in a hundred and 1 Hz of the one asked for.
pub carrier-IsCarrier :
    (clk fr psc arr : ℕ)
    → clk < 2 ^ 31
    → fr < 2 ^ 31
    → carrier clk fr ≡ some (psc, arr)
    → IsCarrier clk fr psc arr
unfolding carrier
carrier-IsCarrier clk fr psc arr small small' e =
    let total = period clk fr in
    let total_le = period_le clk fr small small' in
    let (p, done, p_le, fits, least) = psc_loop_least total (omega (arith, total_le)) in
    elim (dec_lt total 2) [
      | yes short ↦ ground arith
      | no long ↦
          let open_reload : carrier clk fr ≡ reload clk fr total (psc_loop 65536 total 0) =
            ground arith in
          let found : checked_carrier clk fr p (total / (p + 1) - 1) ≡ some (psc, arr) =
            sym (ap (reload clk fr total) done) ∙ sym open_reload ∙ e in
          checked_carrier-IsCarrier clk fr total p psc arr small small' (omega (arith, total_le))
            (reload_pos total p (omega arith) p_le least) p_le fits found
    ]

-- The period of an exact multiple
period_exact : (fr n : ℕ) → 1 ≤ fr → n * fr < 2 ^ 31 → fr < 2 ^ 31 → period (n * fr) fr ≡ n
period_exact fr n pos small small' =
    let fits : low_bits (n * fr + fr / 2) 32 ≡ n * fr + fr / 2 = omega arith in
    let sum : (n * fr + fr / 2) / fr ≡ n + fr / 2 / fr =
      mul-add-div_right {m = fr} (omega arith) n (fr / 2) in
    let half : fr / 2 / fr ≡ 0 = div-eq_of_lt (omega arith) in
    let quotient : low_bits (n * fr + fr / 2) 32 / fr ≡ n =
      ap (λ x. x / fr) fits ∙ sum ∙ ground (arith, half) in
    ground (arith, quotient)

-- A clock that is `n` times the carrier, `n` from 2 to 65536, is divided by exactly `n`: with no
-- prescaler, and the reload value `n - 1`.
pub carrier_exact :
    (fr n : ℕ)
    → 1 ≤ fr
    → 2 ≤ n
    → n ≤ 65536
    → n * fr < 2 ^ 31
    → fr < 2 ^ 31
    → carrier (n * fr) fr ≡ some (0, n - 1)
unfolding carrier
carrier_exact fr n pos two le small small' =
    let total = period_exact fr n pos small small' in
    let (p, done, p_le, fits, least) = psc_loop_least n (omega arith) in
    let p_zero : p ≡ 0 = ground (arith, least 0) in
    let open_reload : carrier (n * fr) fr ≡ reload (n * fr) fr n (psc_loop 65536 n 0) =
      ground (arith, total) in
    let divisor : low_bits ((0 + 1) * (n / (0 + 1) - 1 + 1)) 32 ≡ n = omega arith in
    let back : n * fr / low_bits ((0 + 1) * (n / (0 + 1) - 1 + 1)) 32 ≡ fr =
      ap (λ x. n * fr / x) divisor ∙ mul-div_right fr {m = n} (omega arith) in
    let passes : in_tolerance fr fr (0, n / (0 + 1) - 1) ≡ some (0, n / (0 + 1) - 1) =
      ground arith in
    let last : n / (0 + 1) - 1 ≡ n - 1 = omega arith in
    open_reload
    ∙ ap (reload (n * fr) fr n) (done ∙ ap some p_zero)
    ∙ ap (λ x. in_tolerance fr x (0, n / (0 + 1) - 1)) back
    ∙ passes
    ∙ ap (λ x. some (0, x)) last
