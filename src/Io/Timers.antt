-- ===== src/Io/Timers.antt =====
-- driver/io/io_stm32.c: PWM points that share a timer.
use blobly_emb.Prelude.{
  ℕ, zero, suc, ◌+◌, ℤ, pos, negsuc, Status, ◌≡◌, ◌≢◌, ◌<◌, ◌≤◌, not, ◌||◌, if◌then◌else◌, if_both,
  if_cases, ltb, ◌==◌, Option, none, some, update, update_self, update_ne, List, [], ◌∷◌, arith,
  refl, ap, subst, sym, ◌∙◌, ℕ_discrete,
}
use blobly_emb.Io.Config.{Point}
use blobly_emb.Io.Pwm.{
  PwmMap, Seen, Pwm, TimWrite, set_psc, set_arr, tim_clock_enable, carrier, Claim, refused, shared,
  fresh, claim, go_live, record_seen, claim_timer, set_carrier, setup_mapped, setup_at, pwm_setup,
}

-- PSC and ARR of every timer
pub record TimRegs : Type 0 where
  pub psc : ℕ → ℕ
  pub arr : ℕ → ℕ

abbrev pub write_reg : ℕ → TimRegs → TimWrite → TimRegs
write_reg t r (set_psc v) = record r { psc = update r.psc t v }
write_reg t r (set_arr v) = record r { arr = update r.arr t v }
write_reg t r w = r

abbrev pub write_regs : ℕ → TimRegs → List TimWrite → TimRegs
write_regs t r [] = r
write_regs t r (w ∷ ws) = write_regs t (write_reg t r w) ws

-- The timer of the board's entry, where it names one
abbrev pub timer_of : Option PwmMap → ℕ
timer_of none = 0
timer_of (some m) = elim m.tim [ none ↦ 0 | some t ↦ t ]

-- The timer of an entry runs with the entry's prescaler and reload value.
abbrev pub Runs : TimRegs → Seen → Type 0
Runs r e = (r.psc e.t ≡ e.psc) × (r.arr e.t ≡ e.arr)

-- Every timer that a point was given runs with what is recorded for the point.
abbrev pub IsTuned : Pwm → TimRegs → Type 0
IsTuned s r = (k : ℕ) → k < s.seen_n → Runs r (s.seen k)

-- The outcome of the loop, and an entry that explains it
abbrev Explains : (ℕ → Seen) → Seen → ℕ → ℕ → Claim → Type 0
Explains seen want k n refused = Unit
Explains seen want k n shared =
    (i : ℕ) × (k ≤ i)
    × (i < k + n)
    × ((seen i).t ≡ want.t)
    × ((seen i).psc ≡ want.psc)
    × ((seen i).arr ≡ want.arr)
Explains seen want k n fresh = (i : ℕ) → k ≤ i → i < k + n → (seen i).t ≢ want.t

claim-suc :
    (seen : ℕ → Seen) (want : Seen) (k n : ℕ)
    → claim seen want k (suc n) ≡ (
        if (seen k).t == want.t
        then if (seen k).chan == want.chan
          then refused
          else if not ((seen k).psc == want.psc) || not ((seen k).arr == want.arr)
          then refused
          else shared
        else claim seen want (suc k) n)
unfolding claim
claim-suc seen want k n = refl

Explains-suc :
    (seen : ℕ → Seen) (want : Seen) (k n : ℕ) (c : Claim)
    → (seen k).t ≢ want.t
    → Explains seen want (suc k) n c
    → Explains seen want k (suc n) c
Explains-suc seen want k n refused ne e = tt
Explains-suc seen want k n shared ne (i, lo, hi, t, psc, arr) =
    (i, omega arith, omega arith, t, psc, arr)
Explains-suc seen want k n fresh ne e = λ i lo hi. elim (ℕ_discrete k i) [
  | yes here ↦ subst (λ j. (seen j).t ≢ want.t) here ne
  | no later ↦ e i (omega arith) (omega arith)
]

claim-Explains :
    (seen : ℕ → Seen) (want : Seen) (k n : ℕ) → Explains seen want k n (claim seen want k n)
unfolding claim
claim-Explains seen want k zero = λ i lo hi. absurd (omega arith)
claim-Explains seen want k (suc n) =
    let Fits = Explains seen want k (suc n) in
    subst Fits (sym (claim-suc seen want k n)) (
      if_cases Fits ((seen k).t == want.t)
        (λ same.
          if_cases Fits ((seen k).chan == want.chan) (λ e. tt)
            (λ other.
              if_cases Fits (not ((seen k).psc == want.psc) || not ((seen k).arr == want.arr))
                (λ e. tt)
                (λ e. (k, omega arith, omega arith, ground arith, ground arith, ground arith))))
        (λ other.
          Explains-suc seen want k n (claim seen want (suc k) n) (ground arith)
            (claim-Explains seen want (suc k) n)))

write_regs_live :
    (t : ℕ) (r : TimRegs) (p : Point) (e : Seen) (af : ℕ) → write_regs t r (go_live p e af) ≡ r
write_regs_live t r p e af = ground arith

-- One more entry, where the timer's registers hold its values
record_seen-IsTuned :
    (s : Pwm) (r : TimRegs) (e : Seen) → IsTuned s r → Runs r e → IsTuned (record_seen s e) r
record_seen-IsTuned s r e tuned new k lt = elim (ℕ_discrete s.seen_n k) [
  | yes last ↦
      subst (Runs r)
        (sym (ap (update s.seen s.seen_n e) (sym last) ∙ update_self s.seen s.seen_n e)) new
  | no earlier ↦
      subst (Runs r) (sym (update_ne s.seen s.seen_n e k earlier)) (tuned k (omega arith))
]

-- The registers after `t->PSC = psc; t->ARR = arr`
abbrev retune : TimRegs → Seen → TimRegs
retune r e = record { psc = update r.psc e.t e.psc; arr = update r.arr e.t e.arr }

claim_timer-IsTuned :
    (s : Pwm) (p : Point) (e : Seen) (af : ℕ) (r : TimRegs) (c : Claim)
    → Explains s.seen e 0 s.seen_n c
    → IsTuned s r
    → IsTuned (claim_timer s p e af c).0.1 (write_regs e.t r (claim_timer s p e af c).1)
claim_timer-IsTuned s p e af r refused why tuned = tuned
claim_timer-IsTuned s p e af r shared (i, lo, hi, t, psc, arr) tuned =
    let (psc_i, arr_i) = tuned i (omega arith) in
    let agrees : Runs r e = (ap r.psc (sym t) ∙ psc_i ∙ psc, ap r.arr (sym t) ∙ arr_i ∙ arr) in
    subst (IsTuned (record_seen s e)) (sym (write_regs_live e.t r p e af))
      (record_seen-IsTuned s r e tuned agrees)
claim_timer-IsTuned s p e af r fresh why tuned =
    let old : IsTuned s (retune r e) = λ k lt.
      let (psc_k, arr_k) = tuned k lt in
      let ne : e.t ≢ (s.seen k).t = λ q. why k (omega arith) (omega arith) (sym q) in
      (
        update_ne r.psc e.t e.psc (s.seen k).t ne ∙ psc_k,
        update_ne r.arr e.t e.arr (s.seen k).t ne ∙ arr_k,
      ) in
    let new : Runs (retune r e) e = (update_self r.psc e.t e.psc, update_self r.arr e.t e.arr) in
    subst (IsTuned (record_seen s e)) (sym (write_regs_live e.t (retune r e) p e af))
      (record_seen-IsTuned s (retune r e) e old new)

set_carrier-IsTuned :
    (s : Pwm) (i : ℕ) (p : Point) (t chan af : ℕ) (found : Option (ℕ × ℕ)) (r : TimRegs)
    → IsTuned s r
    → IsTuned
        (set_carrier s i p t chan af found).0.1
        (write_regs t r (set_carrier s i p t chan af found).1)
set_carrier-IsTuned s i p t chan af none r tuned = tuned
set_carrier-IsTuned s i p t chan af (some (psc, arr)) r tuned =
    let e : Seen = record { t = t; chan = chan; psc = psc; arr = arr } in
    claim_timer-IsTuned (record s { arr = update s.arr i arr }) p e af r (claim s.seen e 0 s.seen_n)
      (claim-Explains s.seen e 0 s.seen_n) tuned

setup_mapped-IsTuned :
    (s : Pwm) (i : ℕ) (p : Point) (t chan af clk : ℕ) (r : TimRegs)
    → IsTuned s r
    → IsTuned
        (setup_mapped s i p (some t) (pos chan) (pos af) clk).0.1
        (write_regs t r (setup_mapped s i p (some t) (pos chan) (pos af) clk).1)
setup_mapped-IsTuned s i p t chan af clk r tuned =
    let Done : (Status × Pwm) × List TimWrite → Type 0 = λ x. IsTuned x.0.1 (write_regs t r x.1) in
    if_both Done (ltb chan 1 || ltb 4 chan || ltb 15 af || clk == 0) tuned (
      if_both Done (not (tim_clock_enable t)) tuned (
        set_carrier-IsTuned (record s { tim = update s.tim i (some t); ch = update s.ch i chan }) i
          p t chan af (carrier clk p.freq_hz) r tuned))

mapped-IsTuned :
    (s : Pwm) (i : ℕ) (p : Point) (tim : Option ℕ) (chan af : ℤ) (clk : ℕ) (r : TimRegs)
    → IsTuned s r
    → IsTuned
        (setup_mapped s i p tim chan af clk).0.1
        (write_regs (elim tim [ none ↦ 0 | some t ↦ t ]) r (setup_mapped s i p tim chan af clk).1)
mapped-IsTuned s i p none chan af clk r tuned = tuned
mapped-IsTuned s i p (some t) (negsuc k) af clk r tuned = tuned
mapped-IsTuned s i p (some t) (pos chan) (negsuc k) clk r tuned = tuned
mapped-IsTuned s i p (some t) (pos chan) (pos af) clk r tuned =
    setup_mapped-IsTuned s i p t chan af clk r tuned

setup_at-IsTuned :
    (s : Pwm) (i : ℕ) (p : Point) (m : Option PwmMap) (r : TimRegs)
    → IsTuned s r
    → IsTuned (setup_at s i p m).0.1 (write_regs (timer_of m) r (setup_at s i p m).1)
setup_at-IsTuned s i p none r tuned = tuned
setup_at-IsTuned s i p (some m) r tuned = mapped-IsTuned s i p m.tim m.chan m.af m.clk r tuned

-- If every timer in the table runs with the prescaler and the reload value recorded for each of its
-- points, it still does after the register writes of another setup, accepted or not.
pub setup-IsTuned :
    (map : ℕ → ℕ → Option PwmMap) (s : Pwm) (i : ℕ) (p : Point) (r : TimRegs)
    → IsTuned s r
    → IsTuned
        (pwm_setup map s i p).0.1
        (write_regs (timer_of (map p.port p.pin)) r (pwm_setup map s i p).1)
unfolding pwm_setup
setup-IsTuned map s i p r tuned = setup_at-IsTuned s i p (map p.port p.pin) r tuned
