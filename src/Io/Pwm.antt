-- ===== src/Io/Pwm.antt =====
-- driver/io/io_stm32.c: the PWM points and their timers. A timer's base address stands as the
-- number in its name: 3 is TIM3.
use blobly_emb.Prelude.{
  ℕ, zero, suc, ◌+◌, ◌-◌, ◌*◌, ◌/◌, ℤ, pos, negsuc, Status, ok, fail, Bool, true, false, not, ◌&&◌,
  ◌||◌, if◌then◌else◌, ltb, leb, ◌==◌, Option, none, some, update, low_bits, List, [], ◌∷◌, ◌++◌,
}
use blobly_emb.Io.Config.{Point, Table, io_max, io_pwm}

-- What `board_io_pwm_map` fills in; a null base is `none`.
pub record PwmMap : Type 0 where
  pub tim : Option ℕ
  pub chan : ℤ
  pub af : ℤ
  pub clk : ℕ

-- An entry of `g_tim_seen`
pub record Seen : Type 0 where
  pub t : ℕ
  pub chan : ℕ
  pub psc : ℕ
  pub arr : ℕ

-- `g_pwm_tim`, `g_pwm_ch`, `g_pwm_arr`, `g_tim_seen` and `g_tim_seen_n`. The array `g_tim_seen` has 32
-- entries, and nothing checks `g_tim_seen_n` against them; here it has no end.
pub record Pwm : Type 0 where
  pub tim : ℕ → Option ℕ
  pub ch : ℕ → ℕ
  pub arr : ℕ → ℕ
  pub seen : ℕ → Seen
  pub seen_n : ℕ

-- The register writes of `pwm_setup` and `blob_io_pwm_write`, each of the timer and the pad at
-- hand: `gate` of the clock, `ccmr` and `ccer` of a channel, `mux` of MODER.
pub data TimWrite : Type 0 where
  gate moe egr cr1 : TimWrite
  set_psc set_arr ccmr ccer afr mux : (v : ℕ) → TimWrite
  ccr : (chan v : ℕ) → TimWrite

abbrev pub tim_has_bdtr : ℕ → Bool
tim_has_bdtr t = t == 1 || t == 8 || t == 15 || t == 16 || t == 17

-- `tim_clock_enable`: whether the timer has a gate
abbrev pub tim_clock_enable : ℕ → Bool
tim_clock_enable t =
    t == 1
    || t == 8
    || t == 15
    || t == 16
    || t == 17
    || t == 2
    || t == 3
    || t == 4
    || t == 5
    || t == 12
    || t == 13
    || t == 14

-- `while (total / (psc + 1u) > 65536u) psc++`, `none` where the fuel does not do
unfoldable pub psc_loop : ℕ → ℕ → ℕ → Option ℕ
psc_loop zero total psc = none
psc_loop (suc fuel) total psc = elim (ltb 65536 (total / (psc + 1))) [
  | true ↦ psc_loop fuel total (psc + 1)
  | false ↦ some psc
]

-- Of the period of the timer the prescaler and the reload value; `none` where `pwm_setup` gives up.
abbrev pub checked_carrier : ℕ → ℕ → ℕ → ℕ → Option (ℕ × ℕ)
checked_carrier clk req psc arr =
    let achieved = clk / low_bits ((psc + 1) * (arr + 1)) 32 in
    let tol = req / 100 + 1 in
    if ltb (low_bits (req + tol) 32) achieved || ltb (low_bits (achieved + tol) 32) req
    then none
    else some (psc, arr)

abbrev pub reload : ℕ → ℕ → ℕ → Option ℕ → Option (ℕ × ℕ)
reload clk req total none = none
reload clk req total (some psc) = checked_carrier clk req psc (total / (psc + 1) - 1)

abbrev pub period : ℕ → ℕ → ℕ
period clk fr = if ltb 0 fr then low_bits (clk + fr / 2) 32 / fr else 0

unfoldable pub carrier : ℕ → ℕ → Option (ℕ × ℕ)
carrier clk fr =
    let total = period clk fr in
    if ltb total 2 then none else reload clk fr total (psc_loop 65536 total 0)

-- The loop over `n` entries of `g_tim_seen` from the index `k`
pub data Claim : Type 0 where
  refused shared fresh : Claim

unfoldable pub claim : (ℕ → Seen) → Seen → ℕ → ℕ → Claim
claim seen want k zero = fresh
claim seen want k (suc n) =
    let rest = claim seen want (suc k) n in
    if (seen k).t == want.t
    then if (seen k).chan == want.chan
      then refused
      else if not ((seen k).psc == want.psc) || not ((seen k).arr == want.arr)
      then refused
      else shared
    else rest

-- The compare value of a duty in permille
abbrev pub compare_of : ℕ → ℕ → ℕ
compare_of permille arr = low_bits (permille * (arr + 1)) 32 / 1000

-- From `period_set` on
abbrev pub go_live : Point → Seen → ℕ → List TimWrite
go_live p e af =
    ccr e.chan (compare_of p.init e.arr)
      ∷ ccmr e.chan
      ∷ ccer e.chan
      ∷ (if tim_has_bdtr e.t then moe ∷ [] else [])
    ++ (egr ∷ cr1 ∷ afr af ∷ mux 2 ∷ [])

abbrev pub record_seen : Pwm → Seen → Pwm
record_seen s e = record s { seen = update s.seen s.seen_n e; seen_n = s.seen_n + 1 }

abbrev pub claim_timer : Pwm → Point → Seen → ℕ → Claim → (Status × Pwm) × List TimWrite
claim_timer s p e af refused = ((fail, s), gate ∷ [])
claim_timer s p e af shared = ((ok, record_seen s e), gate ∷ go_live p e af)
claim_timer s p e af fresh =
    ((ok, record_seen s e), gate ∷ set_psc e.psc ∷ set_arr e.arr ∷ go_live p e af)

-- With the timer and the channel stored
abbrev pub set_carrier :
    Pwm → ℕ → Point → ℕ → ℕ → ℕ → Option (ℕ × ℕ) → (Status × Pwm) × List TimWrite
set_carrier s i p t chan af none = ((fail, s), gate ∷ [])
set_carrier s i p t chan af (some (psc, arr)) =
    let e : Seen = record { t = t; chan = chan; psc = psc; arr = arr } in
    claim_timer (record s { arr = update s.arr i arr }) p e af (claim s.seen e 0 s.seen_n)

abbrev pub setup_mapped : Pwm → ℕ → Point → Option ℕ → ℤ → ℤ → ℕ → (Status × Pwm) × List TimWrite
setup_mapped s i p (some t) (pos chan) (pos af) clk =
    if ltb chan 1 || ltb 4 chan || ltb 15 af || clk == 0
    then ((fail, s), [])
    else if not (tim_clock_enable t)
    then ((fail, s), [])
    else set_carrier (record s { tim = update s.tim i (some t); ch = update s.ch i chan }) i p t
        chan af (carrier clk p.freq_hz)
setup_mapped s i p none chan af clk = ((fail, s), [])
setup_mapped s i p (some t) (negsuc k) af clk = ((fail, s), [])
setup_mapped s i p (some t) (pos chan) (negsuc k) clk = ((fail, s), [])

abbrev pub setup_at : Pwm → ℕ → Point → Option PwmMap → (Status × Pwm) × List TimWrite
setup_at s i p none = ((fail, s), [])
setup_at s i p (some m) = setup_mapped s i p m.tim m.chan m.af m.clk

-- `pwm_setup` of the point `i`, with the board's `board_io_pwm_map`
unfoldable pub pwm_setup :
    (ℕ → ℕ → Option PwmMap) → Pwm → ℕ → Point → (Status × Pwm) × List TimWrite
pwm_setup map s i p = setup_at s i p (map p.port p.pin)

-- The second loop of `blob_io_init` over the first `n` points: whether one failed, and the state
abbrev pub note_fault : Bool → Status × Pwm → Bool × Pwm
note_fault fault (ok, s) = (fault, s)
note_fault fault (fail, s) = (true, s)

abbrev pub setup_one : (ℕ → ℕ → Option PwmMap) → Point → ℕ → Bool × Pwm → Bool × Pwm
setup_one map p i (fault, s) =
    if p.configured && p.kind == io_pwm
    then note_fault fault (pwm_setup map s i p).0
    else (fault, s)

unfoldable pub setup_all : (ℕ → ℕ → Option PwmMap) → (ℕ → Point) → Pwm → ℕ → Bool × Pwm
setup_all map pt s zero = (false, s)
setup_all map pt s (suc n) = setup_one map (pt n) n (setup_all map pt s n)

-- `blob_io_pwm_write`: the timer and the write to it
abbrev pub write_duty : Pwm → ℕ → ℕ → Option ℕ → Option (ℕ × TimWrite)
write_duty s i permille none = none
write_duty s i permille (some t) =
    let duty = if ltb 1000 permille then 1000 else permille in
    some (t, ccr (s.ch i) (compare_of duty (s.arr i)))

unfoldable pub pwm_write : Table → Pwm → ℤ → ℕ → Option (ℕ × TimWrite)
pwm_write t s (negsuc k) permille = none
pwm_write t s (pos ch) permille =
    if leb io_max ch || not (t.pt ch).configured || not ((t.pt ch).kind == io_pwm)
    then none
    else write_duty s ch permille (s.tim ch)

-- `blob_io_close` of the tables: the state of points, ADC and timers after it
abbrev pub io_close : Table → Pwm → Table × Pwm
io_close t s = (
  record {
    pt = λ i. if ltb i io_max then record (t.pt i) { configured = false } else t.pt i;
    adc_n = 0;
  },
  record s { tim = λ i. if ltb i io_max then none else s.tim i; seen_n = 0 },
)
