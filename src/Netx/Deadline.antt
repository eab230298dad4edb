-- ===== src/Netx/Deadline.antt =====
-- The receive of the byte pipe against the inactivity deadline of Doip.Idle.
use blobly_emb.Prelude.{
  ℕ, ◌+◌, ◌≤◌, ◌<◌, ◌≡◌, ◌≢◌, ◌⊎◌, inl, inr, refl, Bool, true, false, if◌then◌else◌, ltb, leb, ◌==◌,
  Option, none, some, List, [], ◌∷◌, ◌++◌, arith, if_both, if_cases, sym, ◌∙◌, subst, sub32, add32,
}
use blobly_emb.Doip.Idle.{Idle, left}
use blobly_emb.Netx.Stream.{
  NxPacket, Received, packet, no_packet, failed, Op, listens, accepts, disconnects, unaccepts,
  relistens, wakes, receives, allocates, releases, sends, Stream, Asked, Result, dropped, recycle,
  release_pending, take_bytes, after_wait, receive_or_go_on, recv_open, stream_recv,
}

-- The ticks that the running deadline has used up, and its length
abbrev pub elapsed : Idle → ℕ → ℕ
elapsed s now = sub32 now (if s.activated then s.last_activity else s.conn_start)

abbrev pub limit : Idle → ℕ
limit s = if s.activated then s.general else s.initial

-- Every wait for a packet is over `used` and its time-out before `lim`.
abbrev pub WaitBy : ℕ → ℕ → Op → Type 0
WaitBy used lim (receives t r) = used + t ≤ lim
WaitBy used lim listens = Unit
WaitBy used lim accepts = Unit
WaitBy used lim disconnects = Unit
WaitBy used lim unaccepts = Unit
WaitBy used lim relistens = Unit
WaitBy used lim wakes = Unit
WaitBy used lim (allocates i) = Unit
WaitBy used lim (releases i) = Unit
WaitBy used lim (sends i) = Unit

abbrev pub WaitsBy : ℕ → ℕ → List Op → Type 0
WaitsBy used lim [] = Unit
WaitsBy used lim (op ∷ ops) = WaitBy used lim op × WaitsBy used lim ops

left_zero : (s : Idle) (now : ℕ) → left s now ≡ 0 → limit s ≤ elapsed s now
unfolding left
left_zero s now e = ground arith

left_some : (s : Idle) (now : ℕ) → left s now ≢ 0 → elapsed s now + left s now ≡ limit s
unfolding left
left_some s now ne = ground arith

recycle-WaitsBy : (used lim : ℕ) (s : Stream) → WaitsBy used lim (recycle s).1
recycle-WaitsBy used lim s = from_pending s.pending
  where
    from_pending :
        (o : Option (NxPacket × ℕ))
        → WaitsBy used lim (release_pending o ++ (disconnects ∷ unaccepts ∷ relistens ∷ wakes ∷ []))
    from_pending none = (tt, (tt, (tt, (tt, tt))))
    from_pending (some (p, off)) = (tt, (tt, (tt, (tt, (tt, tt)))))

if_true : (b : Bool) (x y : Result) → b ≡ true → (if b then x else y) ≡ x
if_true b x y e = rw e refl

module _ (extract : NxPacket → ℕ → (ℕ → ℕ) → ℕ → (ℕ → ℕ) × ℕ) where
  take_bytes-WaitsBy :
      (used lim : ℕ) (a : Asked) (s : Stream) (buf : ℕ → ℕ) (max : ℕ) (p : NxPacket) (off : ℕ)
      → WaitsBy used lim (take_bytes extract a s buf max p off).ops
  take_bytes-WaitsBy used lim a s buf max p off =
      if_both (λ (ops : List Op). WaitsBy used lim ops)
        (leb p.length (add32 off (extract p off buf max).1)) (tt, tt) tt

  after_wait-WaitsBy :
      (used lim : ℕ) (a : Asked) (s : Stream) (buf : ℕ → ℕ) (max : ℕ) (r : Received)
      → WaitsBy used lim (after_wait extract a s buf max r).ops
  after_wait-WaitsBy used lim a s buf max (packet p) = take_bytes-WaitsBy used lim a s buf max p 0
  after_wait-WaitsBy used lim a s buf max no_packet =
      if_both (λ (r : Result). WaitsBy used lim r.ops) (left s.idle a.back_at == 0)
        (recycle-WaitsBy used lim s) tt
  after_wait-WaitsBy used lim a s buf max failed = recycle-WaitsBy used lim s

  go_on-WaitsBy :
      (used lim : ℕ) (a : Asked) (s : Stream) (buf : ℕ → ℕ) (max timeout : ℕ)
      (o : Option (NxPacket × ℕ))
      → used + timeout ≤ lim
      → WaitsBy used lim (receive_or_go_on extract a s buf max timeout o).ops
  go_on-WaitsBy used lim a s buf max timeout none le =
      (le, after_wait-WaitsBy used lim a s buf max a.received)
  go_on-WaitsBy used lim a s buf max timeout (some (p, off)) le =
      take_bytes-WaitsBy used lim a s buf max p off

  -- On an open connection: a receive that is called when the deadline has passed drops the connection and
  -- leaves the buffer alone; one that is called before waits for a packet, if it does, until the deadline at
  -- the latest.
  pub recv_in_time :
      (a : Asked) (s : Stream) (buf : ℕ → ℕ) (max timeout : ℕ)
      → s.listening ≡ true
      → s.connected ≡ true
      → let r = stream_recv extract a s buf max timeout in
        let used = elapsed s.idle a.called_at in
        ((limit s.idle ≤ used) × (r.value ≡ dropped) × (r.buf ≡ buf) × (r.ops ≡ (recycle s).1))
        ⊎ ((used < limit s.idle) × WaitsBy used (limit s.idle) r.ops)
  recv_in_time a s buf max timeout li co = subst Timely (sym whole) (
      if_cases Timely (left s.idle a.called_at == 0)
        (λ z. inl (left_zero s.idle a.called_at (ground arith), refl, refl, refl))
        (λ nz. inr (
          before_limit nz,
          go_on-WaitsBy used (limit s.idle) a s buf max clipped s.pending (in_limit nz),
        )))
    where
      used : ℕ
      used = elapsed s.idle a.called_at

      clipped : ℕ
      clipped = if ltb (left s.idle a.called_at) timeout then left s.idle a.called_at else timeout

      Timely : Result → Type 0
      Timely r =
          ((limit s.idle ≤ used) × (r.value ≡ dropped) × (r.buf ≡ buf) × (r.ops ≡ (recycle s).1))
          ⊎ ((used < limit s.idle) × WaitsBy used (limit s.idle) r.ops)

      whole : stream_recv extract a s buf max timeout ≡ recv_open extract a s buf max timeout
      whole = if_true s.listening _ _ li ∙ if_true s.connected _ _ co

      before_limit : (left s.idle a.called_at == 0) ≡ false → used < limit s.idle
      before_limit nz =
          let ne : left s.idle a.called_at ≢ 0 = ground arith in
          omega (arith, left_some s.idle a.called_at ne)

      in_limit : (left s.idle a.called_at == 0) ≡ false → used + clipped ≤ limit s.idle
      in_limit nz =
          let ne : left s.idle a.called_at ≢ 0 = ground arith in
          let e = left_some s.idle a.called_at ne in ground arith
