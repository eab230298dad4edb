-- ===== src/Xcore/Boots.antt =====
-- The owner's boots and the satellite's reads of one channel, one access to the gate at a time. The read of
-- the channel has a beginning, its load of `latest`, and an end, and the owner's steps may come
-- between. Where the owner has not taken a new nonce by the end, a publish may have overlapped the
-- read, which then reads what was there at the beginning or nothing (Xioc.Wide). Where it has, its
-- initialisation and its publishes may have overlapped the read in any way, and the read gives
-- anything: any sequence number and any lanes.
use blobly_emb.Prelude.{
  ℕ, ◌+◌, ◌^◌, Bool, true, false, if◌then◌else◌, ltb, not, ◌==◌, List, [], ◌∷◌, slice, update,
}
use blobly_emb.Xcore.{
  Window, retract, renew, ow_init, owner_commit, opub_n, Reader, down_reset, gate_open, under_nonce,
  read_into, gate_again,
}

-- Where the owner stands in its boot: retracted, after a boot that was committed or not; with a nonce taken;
-- with the channel initialised; committed
pub data Phase : Type 0 where
  closed : (after_commit : Bool) → Phase
  renewed inited committed : Phase

-- Where the satellite stands in `xcore_down_read`, with what it has loaded
pub data Pc : Type 0 where
  rests : (result : Bool) (st : Reader) → Pc
  has_ack : (ack : ℕ) (st : Reader) → Pc
  passed has_read : (ack nonce : ℕ) (st : Reader) → Pc
  reading : (ack nonce : ℕ) (st whole : Reader) → Pc
  has_ack_again : (ack nonce again : ℕ) (st : Reader) → Pc

-- With the values that each boot, by its nonce, has published
pub record System : Type 0 where
  pub window : Window
  pub phase : Phase
  pub values : ℕ → List (List ℕ)
  pub pc : Pc

pub data Act : Type 0 where
  retracts renews inits commits : Act
  publishes : (src : ℕ → ℕ) → Act
  loads_ack loads_nonce begins_read loads_ack_again loads_nonce_again : Act
  ends_read : (lapped : Bool) (seq : ℕ) (lanes : ℕ → ℕ) → Act

abbrev pub retracted : Phase → Phase
retracted (closed was) = closed was
retracted renewed = closed false
retracted inited = closed false
retracted committed = closed true

abbrev pub renew_step : System → Phase → System
renew_step s (closed was) =
    if ltb (s.window.nonce + 3) (2 ^ 32)
    then record s { window = renew s.window; phase = renewed }
    else s
renew_step s renewed = s
renew_step s inited = s
renew_step s committed = s

module _ (layout words : ℕ) where
  abbrev pub init_step : System → Phase → System
  init_step s renewed = record s { window = ow_init s.window words; phase = inited }
  init_step s inited = s
  init_step s (closed was) = s
  init_step s committed = s

  abbrev pub commit_step : System → Phase → System
  commit_step s inited = record s { window = owner_commit layout s.window; phase = committed }
  commit_step s renewed = s
  commit_step s (closed was) = s
  commit_step s committed = s

  abbrev pub publish_step : System → (ℕ → ℕ) → Phase → System
  publish_step s src committed = record s {
    window = opub_n s.window src;
    values = update s.values s.window.nonce (slice src 0 words ∷ s.values s.window.nonce);
  }
  publish_step s src inited = s
  publish_step s src renewed = s
  publish_step s src (closed was) = s

  abbrev pub load_ack : System → Pc → System
  load_ack s (rests b st) = record s { pc = has_ack s.window.ack st }
  load_ack s (has_ack a st) = s
  load_ack s (passed a n st) = s
  load_ack s (has_read a n st) = s
  load_ack s (reading a n st whole) = s
  load_ack s (has_ack_again a n a' st) = s

  abbrev pub load_nonce : System → Pc → System
  load_nonce s (has_ack a st) =
      if gate_open layout a s.window.nonce
      then record s { pc = passed a s.window.nonce (under_nonce s.window.nonce words st) }
      else record s { pc = rests false (down_reset 0 words st) }
  load_nonce s (rests b st) = s
  load_nonce s (passed a n st) = s
  load_nonce s (has_read a n st) = s
  load_nonce s (reading a n st whole) = s
  load_nonce s (has_ack_again a n a' st) = s

  abbrev pub begin_read : System → Pc → System
  begin_read s (passed a n st) = record s { pc = reading a n st (read_into s.window.chan words st) }
  begin_read s (rests b st) = s
  begin_read s (has_ack a st) = s
  begin_read s (has_read a n st) = s
  begin_read s (reading a n st whole) = s
  begin_read s (has_ack_again a n a' st) = s

  abbrev pub end_read : System → Bool → ℕ → (ℕ → ℕ) → Pc → System
  end_read s lapped seq lanes (reading a n st whole) = record s {
    pc = has_read a n (
        if not (s.window.nonce == n)
        then record st { seq = seq; lanes = lanes }
        else if lapped
        then st
        else whole);
  }
  end_read s lapped seq lanes (passed a n st) = s
  end_read s lapped seq lanes (rests b st) = s
  end_read s lapped seq lanes (has_ack a st) = s
  end_read s lapped seq lanes (has_read a n st) = s
  end_read s lapped seq lanes (has_ack_again a n a' st) = s

  abbrev pub load_ack_again : System → Pc → System
  load_ack_again s (has_read a n st) = record s { pc = has_ack_again a n s.window.ack st }
  load_ack_again s (rests b st) = s
  load_ack_again s (has_ack a st) = s
  load_ack_again s (passed a n st) = s
  load_ack_again s (reading a n st whole) = s
  load_ack_again s (has_ack_again a n a' st) = s

  abbrev pub load_nonce_again : System → Pc → System
  load_nonce_again s (has_ack_again a n a' st) = record s {
    pc =
        rests (gate_again a n a' s.window.nonce words st).0
          (gate_again a n a' s.window.nonce words st).1;
  }
  load_nonce_again s (rests b st) = s
  load_nonce_again s (has_ack a st) = s
  load_nonce_again s (passed a n st) = s
  load_nonce_again s (reading a n st whole) = s
  load_nonce_again s (has_read a n st) = s

  -- A step that its core cannot take now changes nothing. The nonce does not wrap.
  unfoldable pub step : Act → System → System
  step retracts s = record s { window = retract s.window; phase = retracted s.phase }
  step renews s = renew_step s s.phase
  step inits s = init_step s s.phase
  step commits s = commit_step s s.phase
  step (publishes src) s = publish_step s src s.phase
  step loads_ack s = load_ack s s.pc
  step loads_nonce s = load_nonce s s.pc
  step begins_read s = begin_read s s.pc
  step (ends_read lapped seq lanes) s = end_read s lapped seq lanes s.pc
  step loads_ack_again s = load_ack_again s s.pc
  step loads_nonce_again s = load_nonce_again s s.pc

  unfoldable pub run : List Act → System → System
  run [] s = s
  run (a ∷ acts) s = run acts (step a s)
