-- ===== src/Io/Duty.antt =====
-- driver/io/io_stm32.c: the duties of PWM points, and points at the same channel of a timer.
use blobly_emb.Prelude.{
  ℕ, suc, ◌+◌, ◌*◌, pos, Status, ok, fail, ◌≡◌, ◌≢◌, ◌<◌, ◌≤◌, true, false, not, ◌||◌,
  if◌then◌else◌, ltb, ◌==◌, Option, some, update, List, arith, refl, ap, sym, ◌∙◌, ◌↔◌,
}
use native.Mathlib.Nat.{mul-le-mul_right}
use blobly_emb.Io.Config.{Point, Table, io_max, io_pwm}
use blobly_emb.Io.Pwm.{
  PwmMap, Seen, Pwm, TimWrite, ccr, tim_clock_enable, carrier, Claim, refused, shared, fresh, claim,
  compare_of, claim_timer, set_carrier, setup_mapped, setup_at, pwm_setup, write_duty, pwm_write,
}

-- No compare value wraps, and it is the duty of the period rounded down.
compare_of_lem :
    (duty arr : ℕ)
    → duty ≤ 1000
    → arr ≤ 65535
    → (1000 * compare_of duty arr ≤ duty * (arr + 1))
      × (duty * (arr + 1) < 1000 * compare_of duty arr + 1000)
      × (compare_of duty arr ≤ arr + 1)
compare_of_lem duty arr le small =
    let top : duty * (arr + 1) ≤ 1000 * (arr + 1) = mul-le-mul_right (arr + 1) le in
    (omega (arith, top), omega (arith, top), omega (arith, top))

-- A write to a configured PWM point whose setup recorded a timer goes to the compare register of
-- the recorded channel. With a period of 16 bits, what it writes is the duty, at most 1000, of the
-- period in thousandths, rounded down, and never more than the period.
pub pwm_write_duty :
    (t : Table) (s : Pwm) (ch permille tim : ℕ)
    → ch < io_max
    → (t.pt ch).configured ≡ true
    → (t.pt ch).kind ≡ io_pwm
    → s.tim ch ≡ some tim
    → s.arr ch ≤ 65535
    → let duty = if ltb 1000 permille then 1000 else permille in
      (v : ℕ) × (pwm_write t s (pos ch) permille ≡ some (tim, ccr (s.ch ch) v))
      × (1000 * v ≤ duty * (s.arr ch + 1))
      × (duty * (s.arr ch + 1) < 1000 * v + 1000)
      × (v ≤ s.arr ch + 1)
unfolding pwm_write
pwm_write_duty t s ch permille tim lt on pwm at small =
    let duty = if ltb 1000 permille then 1000 else permille in
    let le : duty ≤ 1000 = ground arith in
    let (lo, hi, top) = compare_of_lem duty (s.arr ch) le small in
    let enter : pwm_write t s (pos ch) permille ≡ write_duty s ch permille (s.tim ch) =
      ground arith in
    (compare_of duty (s.arr ch), enter ∙ ap (write_duty s ch permille) at, lo, hi, top)

-- The loop over the table, where the first entry is on the timer
claim_first :
    (seen : ℕ → Seen) (want : Seen) (n : ℕ)
    → (seen 0).t ≡ want.t
    → claim seen want 0 (suc n) ≡ (
        if (seen 0).chan == want.chan
        then refused
        else if not ((seen 0).psc == want.psc) || not ((seen 0).arr == want.arr)
        then refused
        else shared)
unfolding claim
claim_first seen want n t = ground arith

abbrev status_of : Claim → Status
status_of refused = fail
status_of shared = ok
status_of fresh = ok

claim_timer-status :
    (s : Pwm) (p : Point) (e : Seen) (af : ℕ) (c : Claim)
    → (claim_timer s p e af c).0.0 ≡ status_of c
claim_timer-status s p e af refused = refl
claim_timer-status s p e af shared = refl
claim_timer-status s p e af fresh = refl

-- The decision on a point at the timer of the entry `e0`
abbrev decide : Seen → Seen → Claim
decide e0 want =
    if e0.chan == want.chan
    then refused
    else if not (e0.psc == want.psc) || not (e0.arr == want.arr)
    then refused
    else shared

decide-ok :
    (e0 want : Seen)
    → (status_of (decide e0 want) ≡ ok)
      ↔ ((e0.chan ≢ want.chan) × (e0.psc ≡ want.psc) × (e0.arr ≡ want.arr))
decide-ok e0 want =
    (λ e. (λ q. ground arith, ground arith, ground arith), λ (ne, psc, arr). ground arith)

-- Where the board maps a point to a channel of a timer and the carrier can be made, and the first
-- entry of the table is on that timer, `pwm_setup` accepts the point exactly if that first entry
-- has another channel and the same prescaler and reload value. Whether a later entry has the
-- channel makes no difference.
pub first_entry_decides :
    (map : ℕ → ℕ → Option PwmMap) (s : Pwm) (i : ℕ) (p : Point) (t chan af clk n psc arr : ℕ)
    → map p.port p.pin ≡ some (record { tim = some t; chan = pos chan; af = pos af; clk = clk })
    → 1 ≤ chan
    → chan ≤ 4
    → af ≤ 15
    → 1 ≤ clk
    → tim_clock_enable t ≡ true
    → carrier clk p.freq_hz ≡ some (psc, arr)
    → s.seen_n ≡ suc n
    → (s.seen 0).t ≡ t
    → ((pwm_setup map s i p).0.0 ≡ ok)
      ↔ (((s.seen 0).chan ≢ chan) × ((s.seen 0).psc ≡ psc) × ((s.seen 0).arr ≡ arr))
unfolding pwm_setup
first_entry_decides map s i p t chan af clk n psc arr m lo hi af_le clk_pos has c some_n first =
    let e : Seen = record { t = t; chan = chan; psc = psc; arr = arr } in
    let mapped : setup_at s i p (map p.port p.pin)
        ≡ setup_mapped s i p (some t) (pos chan) (pos af) clk =
      ap (setup_at s i p) m in
    let guards : (ltb chan 1 || ltb 4 chan || ltb 15 af || clk == 0) ≡ false = ground arith in
    let s' = record s { tim = update s.tim i (some t); ch = update s.ch i chan } in
    let passed : setup_mapped s i p (some t) (pos chan) (pos af) clk
        ≡ set_carrier s' i p t chan af (carrier clk p.freq_hz) =
      ground arith in
    let outcome : claim s.seen e 0 s.seen_n ≡ decide (s.seen 0) e =
      ap (claim s.seen e 0) some_n ∙ claim_first s.seen e n first in
    let status : (pwm_setup map s i p).0.0 ≡ status_of (decide (s.seen 0) e) =
      ap (λ (r : (Status × Pwm) × List TimWrite). r.0.0)
        (mapped ∙ passed ∙ ap (set_carrier s' i p t chan af) c)
      ∙ claim_timer-status (record s' { arr = update s.arr i arr }) p e af
          (claim s.seen e 0 s.seen_n)
      ∙ ap status_of outcome in
    let (only, enough) = decide-ok (s.seen 0) e in
    (λ q. only (sym status ∙ q), λ q. status ∙ enough q)
