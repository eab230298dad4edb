-- ===== src/Io/Levels.antt =====
-- driver/io/io_stm32.c: levels at the pads, and when a pad becomes an output or goes to its timer.
use blobly_emb.Prelude.{
  ℕ, ℤ, negsuc, refl, not, ◌||◌, ltb, if_both, update, List, [], ◌∷◌, ◌++◌, zero, suc, pos, ◌≡◌,
  ◌≢◌, ◌<◌, ◌↔◌, ◌⊎◌, ok, Bool, true, false, ◌&&◌, if◌then◌else◌, ◌==◌, Option, none, some, take,
  arith, dec_lt, sym, ap, subst, ◌∙◌, Status,
}
use blobly_emb.Io.Config.{Board, Point, Table, io_max, io_adc, io_pwm, flip, io_cfg, cfg_pad}
use blobly_emb.Io.Pins.{pin_parse}
use blobly_emb.Io.Pwm.{
  PwmMap, Seen, Pwm, TimWrite, ccr, ccmr, ccer, moe, egr, cr1, afr, mux, tim_has_bdtr, compare_of,
  tim_clock_enable, carrier, Claim, refused, shared, fresh, claim, go_live, claim_timer,
  set_carrier, setup_mapped, setup_at, pwm_setup,
}
use blobly_emb.Io.Gpio.{Pad, apply, apply_all, init_writes, gpio_read, gpio_write}

-- A pad goes to its alternate function only when the compare value is written, the timer updated from
-- its preload registers, and its counter started.
abbrev pub af_last : (compare updated counting : Bool) → List TimWrite → Bool
af_last c u n [] = true
af_last c u n (ccr chan v ∷ ws) = af_last true u n ws
af_last c u n (egr ∷ ws) = af_last c true n ws
af_last c u n (cr1 ∷ ws) = af_last c u true ws
af_last c u n (mux v ∷ ws) = c && u && n && af_last c u n ws
af_last c u n (w ∷ ws) = af_last c u n ws

go_live-af_last :
    (p : Point) (e : Seen) (af : ℕ) → af_last false false false (go_live p e af) ≡ true
go_live-af_last p e af = by_moe (tim_has_bdtr e.t)
  where
    by_moe :
        (b : Bool)
        → af_last false false false (
            ccr e.chan (compare_of p.init e.arr)
              ∷ ccmr e.chan
              ∷ ccer e.chan
              ∷ (if b then moe ∷ [] else [])
            ++ (egr ∷ cr1 ∷ afr af ∷ mux 2 ∷ []))
          ≡ true
    by_moe true = refl
    by_moe false = refl

-- The writes of a setup, with any outcome
abbrev Ordered : (Status × Pwm) × List TimWrite → Type 0
Ordered x = af_last false false false x.1 ≡ true

claim_timer-Ordered :
    (s : Pwm) (p : Point) (e : Seen) (af : ℕ) (c : Claim) → Ordered (claim_timer s p e af c)
claim_timer-Ordered s p e af refused = refl
claim_timer-Ordered s p e af shared = go_live-af_last p e af
claim_timer-Ordered s p e af fresh = go_live-af_last p e af

set_carrier-Ordered :
    (s : Pwm) (i : ℕ) (p : Point) (t chan af : ℕ) (found : Option (ℕ × ℕ))
    → Ordered (set_carrier s i p t chan af found)
set_carrier-Ordered s i p t chan af none = refl
set_carrier-Ordered s i p t chan af (some (psc, arr)) =
    let e : Seen = record { t = t; chan = chan; psc = psc; arr = arr } in
    claim_timer-Ordered (record s { arr = update s.arr i arr }) p e af (claim s.seen e 0 s.seen_n)

mapped-Ordered :
    (s : Pwm) (i : ℕ) (p : Point) (tim : Option ℕ) (chan af : ℤ) (clk : ℕ)
    → Ordered (setup_mapped s i p tim chan af clk)
mapped-Ordered s i p none chan af clk = refl
mapped-Ordered s i p (some t) (negsuc k) af clk = refl
mapped-Ordered s i p (some t) (pos chan) (negsuc k) clk = refl
mapped-Ordered s i p (some t) (pos chan) (pos af) clk =
    if_both Ordered (ltb chan 1 || ltb 4 chan || ltb 15 af || clk == 0) refl (
      if_both Ordered (not (tim_clock_enable t)) refl (
        set_carrier-Ordered (record s { tim = update s.tim i (some t); ch = update s.ch i chan }) i
          p t chan af (carrier clk p.freq_hz)))

setup-Ordered :
    (map : ℕ → ℕ → Option PwmMap) (s : Pwm) (i : ℕ) (p : Point) → Ordered (pwm_setup map s i p)
unfolding pwm_setup
setup-Ordered map s i p = at (map p.port p.pin)
  where
    at : (m : Option PwmMap) → Ordered (setup_at s i p m)
    at none = refl
    at (some m) = mapped-Ordered s i p m.tim m.chan m.af m.clk

pad_phase :
    (p : Point) (pad : Pad) (k : ℕ)
    → pad.moder ≢ 1
    → pad.moder ≢ 2
    → let now = apply_all pad (take k (init_writes p)) in
      let done = apply_all pad (init_writes p) in
      ((now.moder ≢ 1) ⊎ ((p.dir ≡ true) × (now.odr ≡ (if p.init == 0 then 0 else 1))))
      × (now.moder ≢ 2)
      × ((done.moder ≡ 1) ↔ ((p.dir ≡ true) × (p.kind ≢ io_adc) × (p.kind ≢ io_pwm)))
unfolding init_writes apply
pad_phase p pad zero ne na = (ground arith, ground arith, ground arith)
pad_phase p pad (suc zero) ne na = (ground arith, ground arith, ground arith)
pad_phase p pad (suc (suc zero)) ne na = (ground arith, ground arith, ground arith)
pad_phase p pad (suc (suc (suc zero))) ne na = (ground arith, ground arith, ground arith)
pad_phase p pad (suc (suc (suc (suc zero)))) ne na = (ground arith, ground arith, ground arith)
pad_phase p pad (suc (suc (suc (suc (suc k))))) ne na = (ground arith, ground arith, ground arith)

-- Of a pad that is neither an output (MODER 1) nor in its alternate function (2): between any two of
-- the writes that the first loop of `blob_io_init` makes for it, it is not in its alternate function,
-- and if it is an output, so is the point, and the pad drives its init level. After the last of
-- these writes the pad is an output exactly if the point is a digital output. Where the point is set
-- up for PWM, in any state of the tables and with any outcome, the pad goes to its alternate function
-- only after the compare value, the update of the timer and the start of its counter.
pub init_no_glitch :
    (p : Point) (pad : Pad) (k : ℕ) (map : ℕ → ℕ → Option PwmMap) (s : Pwm) (i : ℕ)
    → pad.moder ≢ 1
    → pad.moder ≢ 2
    → let now = apply_all pad (take k (init_writes p)) in
      let done = apply_all pad (init_writes p) in
      ((now.moder ≢ 1) ⊎ ((p.dir ≡ true) × (now.odr ≡ (if p.init == 0 then 0 else 1))))
      × (now.moder ≢ 2)
      × ((done.moder ≡ 1) ↔ ((p.dir ≡ true) × (p.kind ≢ io_adc) × (p.kind ≢ io_pwm)))
      × (af_last false false false (pwm_setup map s i p).1 ≡ true)
init_no_glitch p pad k map s i ne na =
    let (out, af, last) = pad_phase p pad k ne na in (out, af, last, setup-Ordered map s i p)

-- What a digital point holds after it was configured
abbrev pub IsDigital : Board → Point → Option (ℕ × ℕ) → ℕ → Bool → Type 0
IsDigital board p pad init_val active_low =
    (pad ≡ some (p.port, p.pin))
    × (board.pin_exists p.port p.pin ≡ true)
    × (board.pin_reserved p.port p.pin ≡ false)
    × (p.configured ≡ true)
    × (p.al ≡ (if active_low then 1 else 0))
    × (p.init ≡ flip (if init_val == 0 then 0 else 1) p.al)

cfg_pad-IsDigital :
    (board : Board) (t : Table) (ch : ℕ) (dir : Bool) (init_val : ℕ) (active_low : Bool)
    (kind param : ℕ) (pad : Option (ℕ × ℕ))
    → kind ≢ io_adc
    → kind ≢ io_pwm
    → (cfg_pad board t ch dir init_val active_low kind param pad).0 ≡ ok
    → IsDigital board
        ((cfg_pad board t ch dir init_val active_low kind param pad).1.pt ch)
        pad
        init_val
        active_low
cfg_pad-IsDigital board t ch dir init_val active_low kind param none na np e = ground arith
cfg_pad-IsDigital board t ch dir init_val active_low kind param (some (port, pin)) na np e =
    (ground arith, ground arith, ground arith, ground arith, ground arith, ground arith)

cfg-IsDigital :
    (board : Board) (t : Table) (ch : ℕ) (s : ℕ → ℕ) (dir : Bool) (init_val : ℕ) (active_low : Bool)
    (kind param : ℕ)
    → kind ≢ io_adc
    → kind ≢ io_pwm
    → (io_cfg board t (pos ch) s dir init_val active_low kind param).0 ≡ ok
    → (ch < io_max)
      × IsDigital board
          ((io_cfg board t (pos ch) s dir init_val active_low kind param).1.pt ch)
          (pin_parse s)
          init_val
          active_low
unfolding io_cfg
cfg-IsDigital board t ch s dir init_val active_low kind param na np e = elim (dec_lt ch io_max) [
  | yes lt ↦
      let done = cfg_pad board t ch dir init_val active_low kind param (pin_parse s) in
      let same : io_cfg board t (pos ch) s dir init_val active_low kind param ≡ done =
        ground arith in
      (
        lt,
        subst
            (λ (r : Status × Table). IsDigital board (r.1.pt ch) (pin_parse s) init_val active_low)
            (sym same)
            (cfg_pad-IsDigital board t ch dir init_val active_low kind param (pin_parse s) na np
              (ap (λ (r : Status × Table). r.0) (sym same) ∙ e)),
      )
  | no ge ↦ ground arith
]

-- The input levels with one pad at the level `v`
abbrev pub set_pad : (ℕ → ℕ → ℕ) → ℕ → ℕ → ℕ → ℕ → ℕ → ℕ
set_pad idr port pin v a b = if a == port && b == pin then v else idr a b

-- The application's levels are logical: a digital point that `blob_io_cfg` accepts is on a pad that
-- exists and that the board does not own, and if the pad stands at the stored init level,
-- `blob_io_gpio_read` gives the init value that was configured. Whatever level
-- `blob_io_gpio_write` is given, it sets that pad, and a read of the pad so set gives the level
-- back, active low or not.
pub logical_levels :
    (board : Board) (t : Table) (ch : ℕ) (s : ℕ → ℕ) (dir : Bool) (init_val : ℕ) (active_low : Bool)
    (kind param : ℕ) (level : Bool) (idr : ℕ → ℕ → ℕ)
    → kind ≢ io_adc
    → kind ≢ io_pwm
    → (io_cfg board t (pos ch) s dir init_val active_low kind param).0 ≡ ok
    → let t' = (io_cfg board t (pos ch) s dir init_val active_low kind param).1 in
      let p = t'.pt ch in
      (pin_parse s ≡ some (p.port, p.pin))
      × (board.pin_exists p.port p.pin ≡ true)
      × (board.pin_reserved p.port p.pin ≡ false)
      × (gpio_read t' (pos ch) (λ port pin. p.init) ≡ (if init_val == 0 then 0 else 1))
      × ((pad_level : ℕ) × (gpio_write t' (pos ch) level ≡ some ((p.port, p.pin), pad_level))
          × (gpio_read t' (pos ch) (set_pad idr p.port p.pin pad_level) ≡ (if level then 1 else 0)))
unfolding gpio_read gpio_write
logical_levels board t ch s dir init_val active_low kind param level idr na np e =
    let (lt, (pad, exists, free, on, al, init)) =
      cfg-IsDigital board t ch s dir init_val active_low kind param na np e in
    let p = (io_cfg board t (pos ch) s dir init_val active_low kind param).1.pt ch in
    (
      pad,
      exists,
      free,
      ground arith,
      (flip (if level then 1 else 0) p.al, ground arith, ground arith),
    )
