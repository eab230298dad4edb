-- ===== src/Doip/Mailbox/Protocol.antt =====
-- The calls of the doip thread and of the server's thread in any order that the transport allows.
use blobly_emb.Prelude.{ℕ, ◌+◌, ◌^◌, ◌≤◌, ◌<◌, ◌≡◌, true, false, arith, update}
use blobly_emb.Doip.Mailbox.{
  Mailbox, post, waiting, serve, withdraw, queue, push_queue, drop, push, push_take, sent_take,
  push_sent_take, dropped_take,
}

pub data Fate : Type 0 where
  open_ served withdrawn : Fate

-- A mailbox with its history: the fate of each request, and on which connection (counted by drops)
-- the answer and the push that were queued last went out.
pub record Session : Type 0 where
  pub mb : Mailbox
  pub fate : ℕ → Fate
  pub queued_on : ℕ
  pub push_queued_on : ℕ

-- Fewer than 2 ^ 32 requests, pushes and drops are made, so that no counter wraps; the calls
-- themselves wrap at 2 ^ 32. The doip thread posts when nothing waits, and withdraws what
-- waits; the server serves what waits.
pub data Step (s : Session) : Session → Type 0 where
  do_post :
      waiting s.mb ≡ false → s.mb.posted + 1 < 2 ^ 32 → Step s (record s { mb = (post s.mb).0 })
  do_serve :
      waiting s.mb ≡ true
      → Step s (record s { mb = serve s.mb; fate = update s.fate s.mb.posted served })
  do_withdraw :
      waiting s.mb ≡ true
      → Step s
          (record s { mb = withdraw s.mb s.mb.posted; fate = update s.fate s.mb.posted withdrawn })
  do_queue : Step s (record s { mb = queue s.mb; queued_on = s.mb.drops })
  do_push_queue : Step s (record s { mb = push_queue s.mb; push_queued_on = s.mb.drops })
  do_drop : s.mb.drops + 1 < 2 ^ 32 → Step s (record s { mb = drop s.mb })
  do_push : s.mb.pushed + 1 < 2 ^ 32 → Step s (record s { mb = push s.mb })
  do_push_take : Step s (record s { mb = (push_take s.mb).1 })
  do_sent_take : (state unacked : ℕ) → Step s (record s { mb = (sent_take s.mb state unacked).1 })
  do_push_sent_take :
      (state unacked : ℕ) → Step s (record s { mb = (push_sent_take s.mb state unacked).1 })
  do_dropped_take : Step s (record s { mb = (dropped_take s.mb).1 })

pub data Reach (s : Session) : Session → Type 0 where
  here : Reach s s
  next : {t u : Session} → Reach s t → Step t u → Reach s u

-- The zeroed mailbox
abbrev pub start : Session
start = record {
  mb = record {
    posted = 0;
    settled = 0;
    served = 0;
    queued = 0;
    reported = 0;
    drops = 0;
    drop_after = 0;
    drops_seen = 0;
    pushed = 0;
    push_taken = 0;
    push_queued = 0;
    push_reported = 0;
  };
  fate = λ i. open_;
  queued_on = 0;
  push_queued_on = 0;
}

pub record Inv (s : Session) : Type 0 where
  pub one_waits : s.mb.posted ≤ s.mb.settled + 1
  pub settled_le : s.mb.settled ≤ s.mb.posted
  pub served_le : s.mb.served ≤ s.mb.settled
  pub queued_le : s.mb.queued ≤ s.mb.served
  pub reported_le : s.mb.reported ≤ s.mb.served
  pub push_taken_le : s.mb.push_taken ≤ s.mb.pushed
  pub push_queued_le : s.mb.push_queued ≤ s.mb.push_taken
  pub push_reported_le : s.mb.push_reported ≤ s.mb.pushed
  pub drop_after_le : s.mb.drop_after ≤ s.mb.posted
  pub drops_seen_le : s.mb.drops_seen ≤ s.mb.drops
  pub words : (s.mb.posted < 2 ^ 32) × (s.mb.pushed < 2 ^ 32) × (s.mb.drops < 2 ^ 32)
  pub served_fate : 0 < s.mb.served → s.fate s.mb.served ≡ served
  pub on_this : 0 < s.mb.queued → s.queued_on ≡ s.mb.drops
  pub push_on_this : 0 < s.mb.push_queued → s.push_queued_on ≡ s.mb.drops

Step-Inv : {s t : Session} → Step s t → Inv s → Inv t
unfolding post waiting serve withdraw queue push_queue drop push push_take sent_take push_sent_take
    dropped_take
Step-Inv (do_post idle small) v = ground arith
Step-Inv (do_serve some) v = ground arith
Step-Inv (do_withdraw some) v = ground arith
Step-Inv do_queue v = ground arith
Step-Inv do_push_queue v = ground arith
Step-Inv (do_drop small) v = ground arith
Step-Inv (do_push small) v = ground arith
Step-Inv do_push_take v = ground arith
Step-Inv (do_sent_take state unacked) v = ground arith
Step-Inv (do_push_sent_take state unacked) v = ground arith
Step-Inv do_dropped_take v = ground arith

pub Reach-Inv : {s : Session} → Reach start s → Inv s
Reach-Inv here = ground arith
Reach-Inv (next r st) = Step-Inv st (Reach-Inv r)
