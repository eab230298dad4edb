-- ===== src/Io/Kept.antt =====
-- driver/io/io_stm32.c: what a PWM point that was set up keeps, whatever is set up after it.
use blobly_emb.Prelude.{
  ℕ, ◌+◌, ℤ, pos, negsuc, Status, ok, fail, ◌≡◌, ◌<◌, ◌≤◌, not, ◌||◌, if_cases, ltb, ◌==◌, Option,
  none, some, update, update_self, update_ne, length, List, [], ◌∷◌, arith, refl, ap, sym, ◌∙◌,
}
use blobly_emb.Io.Config.{Point}
use blobly_emb.Io.Pwm.{
  PwmMap, Seen, Pwm, TimWrite, tim_clock_enable, carrier, Claim, refused, shared, fresh, claim,
  claim_timer, record_seen, set_carrier, setup_mapped, setup_at, pwm_setup,
}
use blobly_emb.Io.Timers.{TimRegs, write_regs, timer_of, IsTuned, setup-IsTuned}

-- The tables and the timers' registers after the setups of some points, in their order
abbrev pub setup_each : (ℕ → ℕ → Option PwmMap) → List (ℕ × Point) → Pwm × TimRegs → Pwm × TimRegs
setup_each map [] x = x
setup_each map ((i, p) ∷ ps) (s, r) =
    setup_each map ps (
      (pwm_setup map s i p).0.1,
      write_regs (timer_of (map p.port p.pin)) r (pwm_setup map s i p).1,
    )

-- The entries of the table stay.
abbrev Extends : Pwm → Pwm → Type 0
Extends s s' = (s.seen_n ≤ s'.seen_n) × ((k : ℕ) → k < s.seen_n → s'.seen k ≡ s.seen k)

-- An entry for the timer, with the values that its carrier asks for
abbrev Recorded : Pwm → ℕ → ℕ → ℕ → Type 0
Recorded s t clk freq =
    (k : ℕ) × (k < s.seen_n)
    × ((s.seen k).t ≡ t)
    × (carrier clk freq ≡ some ((s.seen k).psc, (s.seen k).arr))

-- What a setup leaves in the table
abbrev Leaves : Pwm → ℕ → ℕ → ℕ → (Status × Pwm) × List TimWrite → Type 0
Leaves s t clk freq x = Extends s x.0.1 × (x.0.0 ≡ ok → Recorded x.0.1 t clk freq)

record_seen-Extends : (s : Pwm) (e : Seen) → Extends s (record_seen s e)
record_seen-Extends s e = (omega arith, λ k lt. update_ne s.seen s.seen_n e k (omega arith))

recorded :
    (s : Pwm) (e : Seen) (clk freq : ℕ)
    → carrier clk freq ≡ some (e.psc, e.arr)
    → Recorded (record_seen s e) e.t clk freq
recorded s e clk freq c =
    let at = update_self s.seen s.seen_n e in
    (
      s.seen_n,
      omega arith,
      ap (λ (x : Seen). x.t) at,
      c ∙ ap (λ (x : Seen). some (x.psc, x.arr)) (sym at),
    )

claim_timer-Leaves :
    (s : Pwm) (p : Point) (e : Seen) (af clk freq : ℕ) (c : Claim)
    → carrier clk freq ≡ some (e.psc, e.arr)
    → Leaves s e.t clk freq (claim_timer s p e af c)
claim_timer-Leaves s p e af clk freq refused h = ((omega arith, λ k lt. refl), λ f. absurd (cc f))
claim_timer-Leaves s p e af clk freq shared h =
    (record_seen-Extends s e, λ f. recorded s e clk freq h)
claim_timer-Leaves s p e af clk freq fresh h =
    (record_seen-Extends s e, λ f. recorded s e clk freq h)

set_carrier-Leaves :
    (s : Pwm) (i : ℕ) (p : Point) (t chan af clk freq : ℕ) (found : Option (ℕ × ℕ))
    → carrier clk freq ≡ found
    → Leaves s t clk freq (set_carrier s i p t chan af found)
set_carrier-Leaves s i p t chan af clk freq none h =
    ((omega arith, λ k lt. refl), λ f. absurd (cc f))
set_carrier-Leaves s i p t chan af clk freq (some (psc, arr)) h =
    let e : Seen = record { t = t; chan = chan; psc = psc; arr = arr } in
    claim_timer-Leaves (record s { arr = update s.arr i arr }) p e af clk freq
      (claim s.seen e 0 s.seen_n) h

-- The point's setup in the timer `t`, on the clock `clk`
abbrev Fits : Pwm → Option PwmMap → Point → (Status × Pwm) × List TimWrite → Type 0
Fits s m p x =
    Extends s x.0.1
    × (x.0.0 ≡ ok
        → (e : PwmMap) × (t : ℕ) × (m ≡ some e)
          × (e.tim ≡ some t)
          × Recorded x.0.1 t e.clk p.freq_hz)

failed : (s : Pwm) (m : Option PwmMap) (p : Point) (ws : List TimWrite) → Fits s m p ((fail, s), ws)
failed s m p ws = ((omega arith, λ k lt. refl), λ f. absurd (cc f))

mapped-Fits :
    (s : Pwm) (i : ℕ) (p : Point) (e : PwmMap) (tim : Option ℕ) (chan af : ℤ)
    → e.tim ≡ tim
    → Fits s (some e) p (setup_mapped s i p tim chan af e.clk)
mapped-Fits s i p e none chan af q = failed s (some e) p []
mapped-Fits s i p e (some t) (negsuc k) af q = failed s (some e) p []
mapped-Fits s i p e (some t) (pos chan) (negsuc k) q = failed s (some e) p []
mapped-Fits s i p e (some t) (pos chan) (pos af) q =
    let Ok : (Status × Pwm) × List TimWrite → Type 0 = λ x. Fits s (some e) p x in
    if_cases Ok (ltb chan 1 || ltb 4 chan || ltb 15 af || e.clk == 0) (λ _. failed s (some e) p [])
      (λ _.
        if_cases Ok (not (tim_clock_enable t)) (λ _. failed s (some e) p [])
          (λ _.
            let (kept, new) =
              set_carrier-Leaves
                (record s { tim = update s.tim i (some t); ch = update s.ch i chan }) i p t chan af
                e.clk p.freq_hz (carrier e.clk p.freq_hz) refl in
            (kept, λ f. (e, t, refl, q, new f))))

setup-Fits :
    (map : ℕ → ℕ → Option PwmMap) (s : Pwm) (i : ℕ) (p : Point)
    → Fits s (map p.port p.pin) p (pwm_setup map s i p)
unfolding pwm_setup
setup-Fits map s i p = at (map p.port p.pin)
  where
    at : (m : Option PwmMap) → Fits s m p (setup_at s i p m)
    at none = failed s none p []
    at (some e) = mapped-Fits s i p e e.tim e.chan e.af refl

each-IsTuned :
    (map : ℕ → ℕ → Option PwmMap) (ps : List (ℕ × Point)) (s : Pwm) (r : TimRegs)
    → IsTuned s r
    → IsTuned (setup_each map ps (s, r)).0 (setup_each map ps (s, r)).1
each-IsTuned map [] s r tuned = tuned
each-IsTuned map ((i, p) ∷ ps) s r tuned =
    each-IsTuned map ps (pwm_setup map s i p).0.1
      (write_regs (timer_of (map p.port p.pin)) r (pwm_setup map s i p).1)
      (setup-IsTuned map s i p r tuned)

each-Extends :
    (map : ℕ → ℕ → Option PwmMap) (ps : List (ℕ × Point)) (s : Pwm) (r : TimRegs)
    → Extends s (setup_each map ps (s, r)).0
each-Extends map [] s r = (omega arith, λ k lt. refl)
each-Extends map ((i, p) ∷ ps) s r =
    let ((le, same), _) = setup-Fits map s i p in
    let (le', same') =
      each-Extends map ps (pwm_setup map s i p).0.1
        (write_regs (timer_of (map p.port p.pin)) r (pwm_setup map s i p).1) in
    (omega arith, λ k lt. same' k (omega arith) ∙ same k lt)

-- From an empty table of timers on, after any setups, a point is set up and any others after it, at most
-- 32 together, the entries that the table has. Where
-- its setup succeeded, the board maps its pad to a timer, the carrier of its frequency at that timer's
-- clock has a prescaler and a reload value, and these two still stand in the timer's registers at the
-- end: a later setup, accepted or not, never retunes a timer that a point uses.
pub setup_stays :
    (map : ℕ → ℕ → Option PwmMap) (before after : List (ℕ × Point)) (s : Pwm) (r : TimRegs) (i : ℕ)
    (p : Point)
    → s.seen_n ≡ 0
    → length before + length after < 32
    → (pwm_setup map (setup_each map before (s, r)).0 i p).0.0 ≡ ok
    → let (s2, r2) = setup_each map ((i, p) ∷ after) (setup_each map before (s, r)) in
      (e : PwmMap) × (t psc arr : ℕ) × (map p.port p.pin ≡ some e)
      × (e.tim ≡ some t)
      × (carrier e.clk p.freq_hz ≡ some (psc, arr))
      × (r2.psc t ≡ psc)
      × (r2.arr t ≡ arr)
setup_stays map before after s r i p empty room good =
    let (s1, r1) = setup_each map before (s, r) in
    let tuned1 = each-IsTuned map before s r (λ k lt. absurd (omega arith)) in
    let tuned2 = each-IsTuned map ((i, p) ∷ after) s1 r1 tuned1 in
    let (_, found) = setup-Fits map s1 i p in
    let (e, t, at, tim, (k, lt, same_t, c)) = found good in
    let (le, same) =
      each-Extends map after (pwm_setup map s1 i p).0.1
        (write_regs (timer_of (map p.port p.pin)) r1 (pwm_setup map s1 i p).1) in
    let entry = (pwm_setup map s1 i p).0.1.seen k in
    let last = same k lt in
    let (psc, arr) = tuned2 k (omega arith) in
    let s2 = (setup_each map ((i, p) ∷ after) (s1, r1)).0 in
    let r2 = (setup_each map ((i, p) ∷ after) (s1, r1)).1 in
    let timer : (s2.seen k).t ≡ t = ap (λ (x : Seen). x.t) last ∙ same_t in
    (
      e,
      t,
      entry.psc,
      entry.arr,
      at,
      tim,
      c,
      ap r2.psc (sym timer) ∙ psc ∙ ap (λ (x : Seen). x.psc) last,
      ap r2.arr (sym timer) ∙ arr ∙ ap (λ (x : Seen). x.arr) last,
    )
