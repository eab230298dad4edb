-- ===== src/Sthal/Session.antt =====
-- driver/can/can_sthal.c: the recovery from bus-off, against that of driver/can/can_fdcan.c.
use blobly_emb.Prelude.{ℕ, ◌≡◌, ◌≢◌, false, arith, subst, ℕ_discrete}
use blobly_emb.Fdcan.{Port, Can, busoff_poll}
use blobly_emb.Sthal.{Tally, Hal, Driver, hal_busoff_poll}

-- A tally is what the register-level driver keeps.
abbrev pub SameTally : Tally → Port → Type 0
SameTally t p =
    (t.closed ≡ p.closed)
    × (t.recovering ≡ p.recovering)
    × (t.busoff_rec ≡ p.busoff_rec)
    × (t.rx_lost ≡ p.rx_lost)

-- Clearing INIT of an instance clears it, and moves neither bus-off nor another instance's INIT.
pub record ClearsInit {W : Type 0} (hal : Hal W) : Type 0 where
  pub cleared : (h : ℕ) (w : W) → hal.init_bit h (hal.clear_init h w) ≡ false
  pub others : (h k : ℕ) (w : W) → h ≢ k → hal.init_bit k (hal.clear_init h w) ≡ hal.init_bit k w
  pub bus_off : (h k : ℕ) (w : W) → hal.bus_off k (hal.clear_init h w) ≡ hal.bus_off k w

-- One instance in both drivers: tallies, bus-off and INIT
abbrev pub SameAt : {W : Type 0} → (hal : Hal W) → Driver hal → Can → ℕ → Type 0
SameAt hal s d k =
    SameTally (s.0 k) (d.port k)
    × (hal.bus_off k s.1 ≡ (d.reg k).psr_bo)
    × (hal.init_bit k s.1 ≡ (d.reg k).init)

module _ {W : Type 0} (hal : Hal W) where
  abbrev pub Agree : Driver hal → Can → Type 0
  Agree s d = (k : ℕ) → SameAt hal s d k

  poll_here :
      (s : Driver hal) (d : Can) (h : ℕ)
      → ClearsInit hal
      → SameAt hal s d h
      → SameAt hal (hal_busoff_poll hal h s) (busoff_poll d h) h
  unfolding hal_busoff_poll busoff_poll
  poll_here (tally, w) d h clears ((closed, recovering, rec, lost), off, latched) =
      let cleared = clears.cleared h w in
      let still_off = clears.bus_off h h w in
      ((ground arith, ground arith, ground arith, ground arith), ground arith, ground arith)

  poll_elsewhere :
      (s : Driver hal) (d : Can) (h k : ℕ)
      → ClearsInit hal
      → h ≢ k
      → SameAt hal s d k
      → SameAt hal (hal_busoff_poll hal h s) (busoff_poll d h) k
  unfolding hal_busoff_poll busoff_poll
  poll_elsewhere (tally, w) d h k clears ne ((closed, recovering, rec, lost), off, latched) =
      let others = clears.others h k w ne in
      let still_off = clears.bus_off h k w in
      ((ground arith, ground arith, ground arith, ground arith), ground arith, ground arith)

  -- Over a HAL whose write to CCCR clears INIT alone, the poll for bus-off of this driver keeps step
  -- with that of the register-level driver: from states with the same tallies, bus-off and INIT, the
  -- polls of an instance lead to such states again.
  pub poll-Agree :
      (s : Driver hal) (d : Can) (h : ℕ)
      → ClearsInit hal
      → Agree s d
      → Agree (hal_busoff_poll hal h s) (busoff_poll d h)
  poll-Agree s d h clears same k = elim (ℕ_discrete h k) [
    | yes here ↦
        subst (SameAt hal (hal_busoff_poll hal h s) (busoff_poll d h)) here
          (poll_here s d h clears (same h))
    | no other ↦ poll_elsewhere s d h k clears other (same k)
  ]
