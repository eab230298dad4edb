-- ===== src/Netx/Order.antt =====
-- The receives of the byte pipe hand the bytes over in order.
use mathlib.Core.List.{append-nil}
use blobly_emb.Prelude.{
  ℕ, ◌+◌, ◌-◌, ◌^◌, ◌≤◌, ◌<◌, ◌≡◌, refl, true, not, if◌then◌else◌, ltb, leb, ◌==◌, Option, none,
  some, List, [], ◌∷◌, ◌++◌, slice, arith, if_both, if_cases, ap, sym, ◌∙◌, subst, add32,
}
use blobly_emb.Doip.Idle.{left, accept}
use blobly_emb.Netx.Stream.{
  NxPacket, Received, packet, no_packet, failed, Op, listens, accepts, receives, Stream, Asked,
  Result, got, before, take_bytes, after_wait, receive_or_go_on, recv_open, recv_listening,
  stream_recv,
}
use blobly_emb.Netx.Bytes.{
  Extracts, rest_of, arrived, PendingOk, ReceivedOk, InOrder, early, slice_shift, slice_split,
}

module _ (extract : NxPacket → ℕ → (ℕ → ℕ) → ℕ → (ℕ → ℕ) × ℕ) (law : Extracts extract) where
  split_packet :
      (p : NxPacket) (off n : ℕ) (out : ℕ → ℕ)
      → n ≤ p.length - off
      → ((i : ℕ) → i < n → out i ≡ p.bytes (off + i))
      → slice out 0 n ++ slice p.bytes (off + n) (p.length - (off + n))
        ≡ slice p.bytes off (p.length - off)
  split_packet p off n out le h =
      ap (λ (l : List ℕ). l ++ slice p.bytes (off + n) (p.length - (off + n)))
        (slice_shift out p.bytes 0 off n (λ k lt. ap out (omega arith) ∙ h k lt))
      ∙ slice_split p.bytes off n (p.length - (off + n))
      ∙ ap (λ k. slice p.bytes off k) (omega arith)

  leftover :
      (p : NxPacket) (off n : ℕ)
      → n ≤ p.length - off
      → off < p.length
      → p.length < 2 ^ 32
      → rest_of (if leb p.length (add32 off n) then none else some (p, add32 off n))
        ≡ slice p.bytes (off + n) (p.length - (off + n))
  leftover p off n le lt w =
      let sum : add32 off n ≡ off + n = omega arith in
      if_cases
        (λ (o : Option (NxPacket × ℕ)). rest_of o ≡ slice p.bytes (off + n) (p.length - (off + n)))
        (leb p.length (add32 off n))
        (λ t. ap (λ k. slice p.bytes (off + n) k) {x = 0} (ground (arith, sum)))
        (λ t. ap (λ k. slice p.bytes k (p.length - k)) sum)

  take_bytes-InOrder :
      (a : Asked) (s : Stream) (buf : ℕ → ℕ) (max : ℕ) (p : NxPacket) (off : ℕ)
      → off < p.length
      → p.length < 2 ^ 32
      → (slice (extract p off buf max).0 0 (extract p off buf max).1
            ++ rest_of (take_bytes extract a s buf max p off).after.pending
          ≡ slice p.bytes off (p.length - off))
        × (arrived (take_bytes extract a s buf max p off).ops ≡ [])
        × PendingOk (take_bytes extract a s buf max p off).after.pending
  take_bytes-InOrder a s buf max p off lt w =
      let (e, h) = law p off buf max lt in
      let n = (extract p off buf max).1 in
      let le : n ≤ p.length - off = ground (arith, e) in
      let sum : add32 off n ≡ off + n = omega (arith, le) in
      (
        ap (λ (l : List ℕ). slice (extract p off buf max).0 0 n ++ l) (leftover p off n le lt w)
            ∙ split_packet p off n (extract p off buf max).0 le h,
        if_both (λ (ops : List Op). arrived ops ≡ []) (leb p.length (add32 off n)) refl refl,
        if_cases (λ (o : Option (NxPacket × ℕ)). PendingOk o) (leb p.length (add32 off n)) (λ _. tt)
            (λ t. (ground (arith, sum), w)),
      )

  -- The receives of an open connection, by the state that they find
  nothing :
      (s : Stream) (buf : ℕ → ℕ) (ops : List Op)
      → PendingOk s.pending
      → arrived ops ≡ []
      → InOrder
          (rest_of s.pending)
          (record { value = got 0; buf = buf; after = s; ops = ops })
          (got 0)
  nothing s buf ops ok e = (
    sym (append-nil (rest_of s.pending)) ∙ ap (λ (l : List ℕ). rest_of s.pending ++ l) (sym e),
    ok,
  )

  after_wait-InOrder :
      (a : Asked) (s : Stream) (buf : ℕ → ℕ) (max timeout : ℕ) (r : Received)
      → s.pending ≡ none
      → ReceivedOk r
      → InOrder
          (rest_of s.pending)
          (before (receives timeout r ∷ []) (after_wait extract a s buf max r))
          (after_wait extract a s buf max r).value
  after_wait-InOrder a s buf max timeout (packet p) e (lt, w) =
      let (bytes, none_came, ok) = take_bytes-InOrder a s buf max p 0 lt w in
      (
        bytes
            ∙ ap (λ k. slice p.bytes 0 k) {x = p.length - 0} {y = p.length} (omega arith)
            ∙ sym (append-nil (slice p.bytes 0 p.length))
            ∙ ap (λ (l : List ℕ). slice p.bytes 0 p.length ++ l) (sym none_came)
            ∙ ap
                (λ o.
                  rest_of o
                  ++ (slice p.bytes 0 p.length ++ arrived (take_bytes extract a s buf max p 0).ops))
                (sym e),
        ok,
      )
  after_wait-InOrder a s buf max timeout no_packet e ok =
      if_both
        (λ (r : Result).
          InOrder (rest_of s.pending) (before (receives timeout no_packet ∷ []) r) r.value)
        (left s.idle a.back_at == 0) tt
        (nothing s buf (receives timeout no_packet ∷ []) (subst PendingOk (sym e) tt) refl)
  after_wait-InOrder a s buf max timeout failed e ok = tt

  go_on-InOrder :
      (a : Asked) (s : Stream) (buf : ℕ → ℕ) (max timeout : ℕ) (o : Option (NxPacket × ℕ))
      → s.pending ≡ o
      → PendingOk o
      → ReceivedOk a.received
      → InOrder
          (rest_of s.pending)
          (receive_or_go_on extract a s buf max timeout o)
          (receive_or_go_on extract a s buf max timeout o).value
  go_on-InOrder a s buf max timeout none e ok r =
      after_wait-InOrder a s buf max timeout a.received e r
  go_on-InOrder a s buf max timeout (some (p, off)) e (lt, w) r =
      let (bytes, none_came, ok) = take_bytes-InOrder a s buf max p off lt w in
      (
        bytes
            ∙ sym (append-nil (slice p.bytes off (p.length - off)))
            ∙ ap (λ (l : List ℕ). slice p.bytes off (p.length - off) ++ l) (sym none_came)
            ∙ ap (λ o. rest_of o ++ arrived (take_bytes extract a s buf max p off).ops) (sym e),
        ok,
      )

  open-InOrder :
      (a : Asked) (s : Stream) (buf : ℕ → ℕ) (max timeout : ℕ)
      → PendingOk s.pending
      → ReceivedOk a.received
      → InOrder
          (rest_of s.pending)
          (recv_open extract a s buf max timeout)
          (recv_open extract a s buf max timeout).value
  open-InOrder a s buf max timeout ok r =
      let l = left s.idle a.called_at in
      if_both (λ (r : Result). InOrder (rest_of s.pending) r r.value) (l == 0) tt
        (go_on-InOrder a s buf max (if ltb l timeout then l else timeout) s.pending refl ok r)

  listening-InOrder :
      (a : Asked) (s : Stream) (buf : ℕ → ℕ) (max timeout : ℕ)
      → PendingOk s.pending
      → ReceivedOk a.received
      → InOrder
          (rest_of s.pending)
          (recv_listening extract a s buf max timeout)
          (recv_listening extract a s buf max timeout).value
  listening-InOrder a s buf max timeout ok r =
      if_both (λ (r : Result). InOrder (rest_of s.pending) r r.value) s.connected
        (open-InOrder a s buf max timeout ok r)
        (if_both (λ (r : Result). InOrder (rest_of s.pending) r r.value) (not a.accept_ok)
          (nothing s buf (accepts ∷ []) ok refl)
          (early (rest_of s.pending)
            (recv_open extract a (record s { connected = true; idle = accept s.idle a.accepted_at })
              buf max timeout)
            accepts
            (recv_open extract a (record s { connected = true; idle = accept s.idle a.accepted_at })
              buf max timeout).value
            refl
            (open-InOrder a (record s { connected = true; idle = accept s.idle a.accepted_at }) buf
              max timeout ok r)))

  -- Of a call that returns a number of bytes: these and what it keeps are what was kept before and what
  -- NetX has handed out in it, of packets that are not empty.
  pub recv-InOrder :
      (a : Asked) (s : Stream) (buf : ℕ → ℕ) (max timeout : ℕ)
      → PendingOk s.pending
      → ReceivedOk a.received
      → InOrder
          (rest_of s.pending)
          (stream_recv extract a s buf max timeout)
          (stream_recv extract a s buf max timeout).value
  recv-InOrder a s buf max timeout ok r =
      if_both (λ (r : Result). InOrder (rest_of s.pending) r r.value) s.listening
        (listening-InOrder a s buf max timeout ok r)
        (if_both (λ (r : Result). InOrder (rest_of s.pending) r r.value) (not a.listen_ok) tt
          (early (rest_of s.pending)
            (recv_listening extract a (record s { listening = true }) buf max timeout) listens
            (recv_listening extract a (record s { listening = true }) buf max timeout).value refl
            (listening-InOrder a (record s { listening = true }) buf max timeout ok r)))
