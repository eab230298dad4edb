-- ===== src/Sthal/Tests.antt =====
-- The port over a HAL of three instances that takes every frame.
use blobly_emb.Prelude.{
  ℕ, ◌*◌, ◌^◌, Bool, true, false, ◌==◌, none, update, update_self, update_ne, arith, refl, ap,
}
use blobly_emb.Fdcan.{Regs, Can, Timing, busoff_poll}
use blobly_emb.Sthal.{Tally, Hal, Driver, hal_busoff_poll}
use blobly_emb.Sthal.Session.{ClearsInit, Agree, poll-Agree}

-- An instance is off or not, with INIT set or not.
abbrev World : Type 0
World = ℕ → Bool × Bool

abbrev lab : Hal World
lab = record {
  config_filter = λ h w. w;
  start = λ h w. (true, update w h ((w h).0, false));
  stop = λ h w. update w h ((w h).0, true);
  add_message = λ h header bytes w. (true, w);
  free_level = λ h w. 3;
  fill_level = λ h w. 0;
  get_message = λ h w. (none, w);
  lost_flag = λ h w. false;
  clear_lost = λ h w. w;
  bus_off = λ h w. (w h).0;
  init_bit = λ h w. (w h).1;
  clear_init = λ h w. update w h ((w h).0, false);
  txbrp = λ h w. 0;
  bytes_12 = 9 * 2 ^ 16;
  bytes_16 = 10 * 2 ^ 16;
  bytes_20 = 11 * 2 ^ 16;
  bytes_24 = 12 * 2 ^ 16;
  bytes_32 = 13 * 2 ^ 16;
  bytes_48 = 14 * 2 ^ 16;
  bytes_64 = 15 * 2 ^ 16;
}

abbrev idle : ℕ → Tally
idle h = record { rx_lost = 0; closed = false; recovering = false; busoff_rec = 0 }

-- Instance 1 went off the bus and latched INIT.
abbrev off_bus : Driver lab
off_bus = (idle, λ h. (h == 1, h == 1))

abbrev no_timing : Timing
no_timing = record { sjw = 0; tseg1 = 0; tseg2 = 0; brp = 0 }

abbrev regs : ℕ → Regs
regs h = record {
  init = h == 1;
  cce = false;
  fdoe = false;
  brse = false;
  nbtp = no_timing;
  dbtp = no_timing;
  rrfe = false;
  rrfs = false;
  sidfc = 0;
  f0sa = 0;
  f0s = 0;
  f0ds = 0;
  tbsa = 0;
  tfqs = 0;
  tbds = 0;
  rf0l = false;
  psr_bo = h == 1;
  tfqf = false;
  tfqpi = 0;
  txbar = 0;
  txbrp = 0;
  f0fl = 0;
  f0gi = 0;
  rxf0a = 0;
}

abbrev can : Can
can = record {
  reg = regs;
  ram = λ i. 0;
  port = λ h. record { rx_lost = 0; closed = false; recovering = false; busoff_rec = 0; fd = true };
}

lab-ClearsInit : ClearsInit lab
lab-ClearsInit = record {
  cleared = λ h w. ap (λ (x : Bool × Bool). x.1) (update_self w h ((w h).0, false));
  others = λ h k w ne. ap (λ (x : Bool × Bool). x.1) (update_ne w h ((w h).0, false) k ne);
  bus_off = λ h k w. ground arith;
}

poll-Agree_example : Agree lab (hal_busoff_poll lab 1 off_bus) (busoff_poll can 1)
poll-Agree_example =
    poll-Agree lab off_bus can 1 lab-ClearsInit (λ k. ((refl, refl, refl, refl), refl, refl))
