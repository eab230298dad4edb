-- ===== src/Io/Tests.antt =====
-- The pads, the converter and the timers at concrete inputs.
use blobly_emb.Prelude.{
  ℕ, ◌+◌, ◌/◌, pos, ◌≡◌, ◌≢◌, ◌⊎◌, ◌<◌, ◌≤◌, ◌↔◌, true, false, if◌then◌else◌, ◌==◌, Option, none,
  some, take, arith, List, [], ◌∷◌, refl, ok,
}
use blobly_emb.Io.Config.{Point, Table, Board, io_adc, io_pwm, io_cfg}
use blobly_emb.Io.Pins.{pin_parse, Spells, pin_parse_iff}
use blobly_emb.Io.Gpio.{Pad, apply_all, init_writes}
use blobly_emb.Io.Levels.{af_last, init_no_glitch}
use blobly_emb.Io.Slots.{IsSlotted, cfg-IsSlotted}
use blobly_emb.Io.Pwm.{PwmMap, Pwm, psc_loop, carrier, claim, pwm_setup}
use blobly_emb.Io.Carrier.{psc_loop_least}
use blobly_emb.Io.Timers.{TimRegs}
use blobly_emb.Io.Kept.{setup_each, setup_stays}
use blobly_emb.Io.Init.{Polls}

-- "PB0" and "PA10"
abbrev pb0 : ℕ → ℕ
pb0 i = if i == 0 then 80 else if i == 1 then 66 else if i == 2 then 48 else 0

pin_parse_iff_example : (pin_parse pb0 ≡ some (1, 0)) ↔ Spells pb0 1 0
pin_parse_iff_example = pin_parse_iff pb0 1 0

abbrev blank : Point
blank = record {
  port = 0;
  pin = 0;
  dir = false;
  kind = 0;
  init = 0;
  al = 0;
  adc_slot = none;
  adc_ch = 0;
  freq_hz = 0;
  configured = false;
}

-- An active-low output, as `blob_io_cfg` leaves it for the init value 0
abbrev lamp : Point
lamp = record blank { dir = true; init = 1; al = 1; configured = true }

abbrev reset_pad : Pad
reset_pad = record { moder = 3; ospeedr = 0; pupdr = 0; odr = 0 }

-- TIM3 behind two pads of port B, at channels 1 and 2
abbrev tim3 : ℕ → ℕ → Option PwmMap
tim3 port pin =
    if port == 1
    then some (record { tim = some 3; chan = pos (pin + 1); af = pos 2; clk = 200000000 })
    else none

abbrev fan : ℕ → Point
fan pin = record blank {
  port = 1;
  pin = pin;
  kind = 2;
  init = 250;
  freq_hz = 20000;
  configured = true;
}

abbrev unset : Pwm
unset = record {
  tim = λ i. none;
  ch = λ i. 0;
  arr = λ i. 0;
  seen = λ i. record { t = 0; chan = 0; psc = 0; arr = 0 };
  seen_n = 0;
}

init_no_glitch_example :
    let now = apply_all reset_pad (take 2 (init_writes lamp)) in
    let done = apply_all reset_pad (init_writes lamp) in
    ((now.moder ≢ 1) ⊎ ((lamp.dir ≡ true) × (now.odr ≡ (if lamp.init == 0 then 0 else 1))))
    × (now.moder ≢ 2)
    × ((done.moder ≡ 1) ↔ ((lamp.dir ≡ true) × (lamp.kind ≢ io_adc) × (lamp.kind ≢ io_pwm)))
    × (af_last false false false (pwm_setup tim3 unset 5 lamp).1 ≡ true)
init_no_glitch_example = init_no_glitch lamp reset_pad 2 tim3 unset 5 (omega arith) (omega arith)

abbrev all_pads : Board
all_pads = record { pin_exists = λ port pin. true; pin_reserved = λ port pin. port == 0 }

abbrev empty : Table
empty = record { pt = λ i. blank; adc_n = 0 }

empty-IsSlotted : IsSlotted empty
empty-IsSlotted = (λ i slot (on, adc, at). ground arith, λ i j slot (on, adc, at) q. ground arith)

-- The table with one analog point
abbrev one_analog : Table
one_analog = (io_cfg all_pads empty (pos 7) pb0 false 0 false 1 0).1

cfg-IsSlotted_example : IsSlotted one_analog
cfg-IsSlotted_example = cfg-IsSlotted all_pads empty (pos 7) pb0 false 0 false 1 0 empty-IsSlotted

-- "PB1" as a second one
abbrev pb1 : ℕ → ℕ
pb1 i = if i == 0 then 80 else if i == 1 then 66 else if i == 2 then 49 else 0

abbrev two_analog : Table
two_analog = (io_cfg all_pads one_analog (pos 2) pb1 false 0 false 1 0).1

two_analog-IsSlotted : IsSlotted two_analog
two_analog-IsSlotted =
    cfg-IsSlotted all_pads one_analog (pos 2) pb1 false 0 false 1 0
      (cfg-IsSlotted all_pads empty (pos 7) pb0 false 0 false 1 0 empty-IsSlotted)

psc_loop_least_example :
    (p : ℕ) × (psc_loop 65536 4000000 0 ≡ some p)
    × (p ≤ 65535)
    × (4000000 / (p + 1) ≤ 65536)
    × ((q : ℕ) → q < p → 65536 < 4000000 / (q + 1))
psc_loop_least_example = psc_loop_least 4000000 (omega arith)

abbrev regs : TimRegs
regs = record { psc = λ t. 0; arr = λ t. 65535 }

-- A point with another carrier at the same timer comes between, and is refused.
abbrev set_up : List (ℕ × Point)
set_up = (6, fan 1) ∷ (7, record (fan 2) { freq_hz = 1000 }) ∷ []

accepted : (pwm_setup tim3 (setup_each tim3 ((4, fan 3) ∷ []) (unset, regs)).0 5 (fan 0)).0.0 ≡ ok
unfolding pwm_setup carrier psc_loop claim
accepted = refl

setup_stays_example :
    let (s2, r2) =
      setup_each tim3 ((5, fan 0) ∷ set_up) (setup_each tim3 ((4, fan 3) ∷ []) (unset, regs)) in
    (e : PwmMap) × (t psc arr : ℕ) × (tim3 1 0 ≡ some e)
    × (e.tim ≡ some t)
    × (carrier e.clk 20000 ≡ some (psc, arr))
    × (r2.psc t ≡ psc)
    × (r2.arr t ≡ arr)
setup_stays_example =
    setup_stays tim3 ((4, fan 3) ∷ []) set_up unset regs 5 (fan 0) refl (omega arith) accepted

-- Channels 1 and 2 of TIM3 are taken, and a third point asks for channel 2.
abbrev both_taken : Pwm
both_taken = record unset {
  seen = λ i. record { t = 3; chan = i + 1; psc = 0; arr = 9999 };
  seen_n = 2;
}

abbrev silent : Polls
silent = record {
  calibrated = λ k. false;
  dma_off = λ k. true;
  adc_ready = λ k. true;
  scan_done = λ k. false;
}

abbrev fans : Table
fans = record {
  pt = λ i. if i == 3 then fan 0 else if i == 4 then record (fan 0) { port = 2 } else blank;
  adc_n = 1;
}
