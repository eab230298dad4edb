-- ===== src/Doip/Mailbox/Guarantees.antt =====
-- What each thread may conclude from the mailbox's answers, after any sequence of calls.
use blobly_emb.Prelude.{ℕ, ◌+◌, ◌^◌, ◌<◌, ◌≡◌, ◌⊎◌, true, false, arith}
use blobly_emb.Doip.Mailbox.{
  established, close_wait, collect, drop, push_take, sent_take, push_sent_take, drop_pending,
  dropped_take,
}
use blobly_emb.Doip.Mailbox.Protocol.{served, withdrawn, Session, Reach, start, Reach-Inv}

-- Fewer than 2 ^ 32 requests, pushes and drops having been made (`Reach`): when `doip_mb_sent_take`
-- reports the answer, the request was served and not withdrawn, its answer
-- was queued on the connection that still stands, nothing is left unacknowledged, and the socket is
-- open; and it is reported once: the next call returns 0, whatever the socket then says.
pub sent_take_sound :
    {s : Session} (state unacked : ℕ)
    → Reach start s
    → (sent_take s.mb state unacked).0 ≡ true
    → (0 < s.mb.served)
      × (s.fate s.mb.served ≡ served)
      × (s.queued_on ≡ s.mb.drops)
      × (unacked ≡ 0)
      × ((state ≡ established) ⊎ (state ≡ close_wait))
      × ((state' unacked' : ℕ)
          → (sent_take (sent_take s.mb state unacked).1 state' unacked').0 ≡ false)
unfolding sent_take
sent_take_sound {s} state unacked r e =
    let v = Reach-Inv r in
    let pos : 0 < s.mb.served = ground arith in
    (
      pos,
      v.served_fate pos,
      v.on_this (ground arith),
      ground arith,
      ground arith,
      λ state' unacked'. ground arith,
    )

-- Within the same bounds, the same of a pushed response, by its own sequence: it was itself queued on the connection that
-- still stands, and is reported once.
pub push_sent_take_sound :
    {s : Session} (state unacked : ℕ)
    → Reach start s
    → (push_sent_take s.mb state unacked).0 ≡ true
    → (0 < s.mb.pushed)
      × (s.mb.push_queued ≡ s.mb.pushed)
      × (s.push_queued_on ≡ s.mb.drops)
      × (unacked ≡ 0)
      × ((state ≡ established) ⊎ (state ≡ close_wait))
      × ((state' unacked' : ℕ)
          → (push_sent_take (push_sent_take s.mb state unacked).1 state' unacked').0 ≡ false)
unfolding push_sent_take
push_sent_take_sound {s} state unacked r e =
    let v = Reach-Inv r in
    let pos : 0 < s.mb.pushed = ground arith in
    (
      pos,
      ground arith,
      v.push_on_this (ground arith),
      ground arith,
      ground arith,
      λ state' unacked'. ground arith,
    )

-- Fewer than 2 ^ 32 requests, pushes and drops having been made, this drop included: a dropped
-- connection takes with it what it had queued: neither the answer nor a push is reported
-- acknowledged, no push is left to take, and the server hears of the drop, once.
pub drop_cancels :
    {s : Session}
    → Reach start s
    → s.mb.drops + 1 < 2 ^ 32
    → let m = drop s.mb in
      ((state unacked : ℕ) → (sent_take m state unacked).0 ≡ false)
      × ((state unacked : ℕ) → (push_sent_take m state unacked).0 ≡ false)
      × ((push_take m).0 ≡ false)
      × (drop_pending m ≡ true)
      × ((dropped_take m).0 ≡ true)
      × (drop_pending (dropped_take m).1 ≡ false)
      × ((dropped_take (dropped_take m).1).0 ≡ false)
unfolding sent_take push_sent_take push_take drop drop_pending dropped_take
drop_cancels {s} r small =
    let v = Reach-Inv r in
    (
      λ state unacked. ground arith,
      λ state unacked. ground arith,
      ground arith,
      ground arith,
      ground arith,
      ground arith,
      ground arith,
    )

-- Within the same bounds, the doip thread never collects an answer to a request that was withdrawn.
pub withdrawn-not-collected :
    {s : Session} (seq : ℕ)
    → Reach start s
    → 0 < seq
    → s.fate seq ≡ withdrawn
    → collect s.mb seq ≡ false
unfolding collect
withdrawn-not-collected {s} seq r pos w = let v = Reach-Inv r in ground (arith, v.served_fate)
