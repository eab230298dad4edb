-- ===== src/Netx/Ledger.antt =====
-- The packets of the byte pipe: each is disposed of once, or kept.
use blobly_emb.Prelude.{
  ℕ, ap, ◌+◌, ◌≡◌, refl, Bool, true, not, ◌||◌, if◌then◌else◌, ltb, ◌==◌, Option, none, some, List,
  [], ◌∷◌, ◌++◌, count, count-append, arith, if_both,
}
use blobly_emb.Doip.Idle.{left, accept}
use blobly_emb.Netx.Stream.{
  NxPacket, Received, packet, no_packet, failed, Op, listens, accepts, disconnects, unaccepts,
  relistens, wakes, receives, allocates, releases, sends, Stream, Asked, Result, recycle,
  release_pending, take_bytes, after_wait, receive_or_go_on, recv_open, recv_listening, stream_recv,
  Sending, send_packet, stream_send, stream_drop, notify_activated,
}

-- The packets that the calls hand to the driver, and those that it hands on
abbrev pub obtained_by : Op → List ℕ
obtained_by (receives t (packet p)) = p.id ∷ []
obtained_by (receives t no_packet) = []
obtained_by (receives t failed) = []
obtained_by (allocates i) = i ∷ []
obtained_by (releases i) = []
obtained_by (sends i) = []
obtained_by listens = []
obtained_by accepts = []
obtained_by disconnects = []
obtained_by unaccepts = []
obtained_by relistens = []
obtained_by wakes = []

abbrev pub obtained : List Op → List ℕ
obtained [] = []
obtained (op ∷ ops) = obtained_by op ++ obtained ops

abbrev pub disposed_by : Op → List ℕ
disposed_by (receives t (packet p)) = []
disposed_by (receives t no_packet) = []
disposed_by (receives t failed) = []
disposed_by (allocates i) = []
disposed_by (releases i) = i ∷ []
disposed_by (sends i) = i ∷ []
disposed_by listens = []
disposed_by accepts = []
disposed_by disconnects = []
disposed_by unaccepts = []
disposed_by relistens = []
disposed_by wakes = []

abbrev pub disposed : List Op → List ℕ
disposed [] = []
disposed (op ∷ ops) = disposed_by op ++ disposed ops

abbrev pub kept_in : Option (NxPacket × ℕ) → List ℕ
kept_in none = []
kept_in (some (p, off)) = p.id ∷ []

abbrev pub kept : Stream → List ℕ
kept s = kept_in s.pending

-- Each packet is disposed of, or kept after, as often as it was kept before, or obtained.
abbrev pub Balanced : Stream → List Op → Stream → Type 0
Balanced s ops s' =
    (i : ℕ) → count i (disposed ops) + count i (kept s') ≡ count i (kept s) + count i (obtained ops)

released :
    (o : Option (NxPacket × ℕ)) (i : ℕ)
    → (count i (disposed (release_pending o ++ (disconnects ∷ unaccepts ∷ relistens ∷ wakes ∷ [])))
        ≡ count i (kept_in o))
      × (count i
            (obtained (release_pending o ++ (disconnects ∷ unaccepts ∷ relistens ∷ wakes ∷ [])))
          ≡ 0)
released none i = (refl, refl)
released (some (p, off)) i = (refl, refl)

recycle-Balanced : (s : Stream) → Balanced s (recycle s).1 (recycle s).0
recycle-Balanced s i = let (d, o) = released s.pending i in omega (arith, d, o)

abbrev Kept : Stream → Result → Type 0
Kept s r = Balanced s r.ops r.after

module _ (extract : NxPacket → ℕ → (ℕ → ℕ) → ℕ → (ℕ → ℕ) × ℕ) where
  take_bytes-Kept :
      (a : Asked) (s : Stream) (buf : ℕ → ℕ) (max : ℕ) (p : NxPacket) (off i : ℕ)
      → let r = take_bytes extract a s buf max p off in
        count i (disposed r.ops) + count i (kept r.after)
        ≡ count i (p.id ∷ []) + count i (obtained r.ops)
  take_bytes-Kept a s buf max p off i = ground arith

  after_wait-Kept :
      (a : Asked) (s : Stream) (buf : ℕ → ℕ) (max timeout : ℕ) (r : Received)
      → s.pending ≡ none
      → Balanced s
          (receives timeout r ∷ (after_wait extract a s buf max r).ops)
          (after_wait extract a s buf max r).after
  after_wait-Kept a s buf max timeout (packet p) e i =
      omega (arith, take_bytes-Kept a s buf max p 0 i, ap (λ o. count i (kept_in o)) e)
  after_wait-Kept a s buf max timeout no_packet e i =
      if_both
        (λ (r : Result).
          count i (disposed r.ops) + count i (kept r.after)
          ≡ count i (kept s) + count i (obtained r.ops))
        (left s.idle a.back_at == 0) (recycle-Balanced s i) (omega arith)
  after_wait-Kept a s buf max timeout failed e i = recycle-Balanced s i

  go_on-Kept :
      (a : Asked) (s : Stream) (buf : ℕ → ℕ) (max timeout : ℕ) (o : Option (NxPacket × ℕ))
      → s.pending ≡ o
      → Kept s (receive_or_go_on extract a s buf max timeout o)
  go_on-Kept a s buf max timeout none e i = after_wait-Kept a s buf max timeout a.received e i
  go_on-Kept a s buf max timeout (some (p, off)) e i =
      omega (arith, take_bytes-Kept a s buf max p off i, ap (λ o. count i (kept_in o)) e)

  open-Kept :
      (a : Asked) (s : Stream) (buf : ℕ → ℕ) (max timeout : ℕ)
      → Kept s (recv_open extract a s buf max timeout)
  open-Kept a s buf max timeout =
      let l = left s.idle a.called_at in
      if_both (λ (r : Result). Kept s r) (l == 0) (recycle-Balanced s)
        (go_on-Kept a s buf max (if ltb l timeout then l else timeout) s.pending refl)

  listening-Kept :
      (a : Asked) (s : Stream) (buf : ℕ → ℕ) (max timeout : ℕ)
      → Kept s (recv_listening extract a s buf max timeout)
  listening-Kept a s buf max timeout =
      if_both (λ (r : Result). Kept s r) s.connected (open-Kept a s buf max timeout)
        (if_both (λ (r : Result). Kept s r) (not a.accept_ok) (λ i. omega arith)
          (open-Kept a (record s { connected = true; idle = accept s.idle a.accepted_at }) buf max
            timeout))

  -- A call of `doip_stream_recv`, on every path: each packet that NetX has handed out, or that was kept
  -- before, is released as often as it came, or kept for the next call.
  pub recv-Balanced :
      (a : Asked) (s : Stream) (buf : ℕ → ℕ) (max timeout : ℕ)
      → Balanced s
          (stream_recv extract a s buf max timeout).ops
          (stream_recv extract a s buf max timeout).after
  recv-Balanced a s buf max timeout =
      if_both (λ (r : Result). Kept s r) s.listening (listening-Kept a s buf max timeout)
        (if_both (λ (r : Result). Kept s r) (not a.listen_ok) (λ i. omega arith)
          (listening-Kept a (record s { listening = true }) buf max timeout))

send-Balanced :
    (a : Sending) (s : Stream) (len : ℕ)
    → Balanced s (stream_send a s len).2 (stream_send a s len).1
send-Balanced a s len = at_packet a.allocated
  where
    at_packet : (o : Option ℕ) → Balanced s (send_packet a s len o).2 (send_packet a s len o).1
    at_packet none i = recycle-Balanced s i
    at_packet (some p) i =
        if_both
          (λ (r : Bool × Stream × List Op).
            count i (disposed r.2) + count i (kept r.1) ≡ count i (kept s) + count i (obtained r.2))
          (not a.append_ok || not a.send_ok) (omega (arith, recycle-Balanced s i)) (omega arith)

drop-Balanced : (s : Stream) → Balanced s (stream_drop s).1 (stream_drop s).0
drop-Balanced s =
    if_both (λ (r : Stream × List Op). Balanced s r.1 r.0) s.connected (recycle-Balanced s)
      (λ i. omega arith)

disposed-append :
    (ops rest : List Op) (i : ℕ)
    → count i (disposed (ops ++ rest)) ≡ count i (disposed ops) + count i (disposed rest)
disposed-append [] rest i = omega arith
disposed-append (op ∷ ops) rest i = omega (
  arith,
  disposed-append ops rest i,
  count-append (disposed_by op) (disposed ops) i,
  count-append (disposed_by op) (disposed (ops ++ rest)) i,
)

obtained-append :
    (ops rest : List Op) (i : ℕ)
    → count i (obtained (ops ++ rest)) ≡ count i (obtained ops) + count i (obtained rest)
obtained-append [] rest i = omega arith
obtained-append (op ∷ ops) rest i = omega (
  arith,
  obtained-append ops rest i,
  count-append (obtained_by op) (obtained ops) i,
  count-append (obtained_by op) (obtained (ops ++ rest)) i,
)

-- The calls of the V loop on the pipe, with what NetX answers
pub data Call : Type 0 where
  recv : (a : Asked) (buf : ℕ → ℕ) (max timeout : ℕ) → Call
  send : (a : Sending) (len : ℕ) → Call
  drop_ : Call
  activated : (on : Bool) → Call

module _ (extract : NxPacket → ℕ → (ℕ → ℕ) → ℕ → (ℕ → ℕ) × ℕ) where
  abbrev pub call_step : Call → Stream → Stream × List Op
  call_step (recv a buf max timeout) s =
      let r = stream_recv extract a s buf max timeout in (r.after, r.ops)
  call_step (send a len) s = let r = stream_send a s len in (r.1, r.2)
  call_step drop_ s = stream_drop s
  call_step (activated on) s = (notify_activated s on, [])

  unfoldable pub session : List Call → Stream → Stream × List Op
  session [] s = (s, [])
  session (c ∷ calls) s =
      let r = call_step c s in let rest = session calls r.0 in (rest.0, r.1 ++ rest.1)

  step-Balanced : (c : Call) (s : Stream) → Balanced s (call_step c s).1 (call_step c s).0
  step-Balanced (recv a buf max timeout) s = recv-Balanced extract a s buf max timeout
  step-Balanced (send a len) s = send-Balanced a s len
  step-Balanced drop_ s = drop-Balanced s
  step-Balanced (activated on) s = λ i. omega arith

  -- Over every sequence of receives, sends and drops, whatever NetX answers: each packet is released or
  -- sent as often as it was handed out or allocated, but for the one that a receive keeps.
  pub session-Balanced :
      (calls : List Call) (s : Stream) → Balanced s (session calls s).1 (session calls s).0
  unfolding session
  session-Balanced [] s i = omega arith
  session-Balanced (c ∷ calls) s i =
      let r = call_step c s in
      let rest = session calls r.0 in
      omega (
        arith,
        step-Balanced c s i,
        session-Balanced calls r.0 i,
        disposed-append r.1 rest.1 i,
        obtained-append r.1 rest.1 i,
      )
