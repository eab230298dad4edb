-- ===== src/Doip/Mailbox.antt =====
-- driver/eth/doip_mb.h: the sequence rules of the mailbox between the doip thread and the server.
pub mod Protocol
pub mod Guarantees
use blobly_emb.Prelude.{ℕ, Bool, true, false, not, ◌&&◌, ◌||◌, if◌then◌else◌, ◌==◌, leb, add32}

-- DOIP_MB_TCP_ESTABLISHED, DOIP_MB_TCP_CLOSE_WAIT
abbrev pub established : ℕ
established = 5

abbrev pub close_wait : ℕ
close_wait = 6

-- `doip_mb_t`
pub record Mailbox : Type 0 where
  pub posted : ℕ
  pub settled : ℕ
  pub served : ℕ
  pub queued : ℕ
  pub reported : ℕ
  pub drops : ℕ
  pub drop_after : ℕ
  pub drops_seen : ℕ
  pub pushed : ℕ
  pub push_taken : ℕ
  pub push_queued : ℕ
  pub push_reported : ℕ

-- `doip_mb_post`: the mailbox and the sequence of the request
unfoldable pub post : Mailbox → Mailbox × ℕ
post m = (record m { posted = add32 m.posted 1 }, add32 m.posted 1)

-- `doip_mb_waiting`
unfoldable pub waiting : Mailbox → Bool
waiting m = not (m.settled == m.posted)

-- `doip_mb_serve`
unfoldable pub serve : Mailbox → Mailbox
serve m = record m { served = m.posted; settled = m.posted }

-- `doip_mb_withdraw`
unfoldable pub withdraw : Mailbox → ℕ → Mailbox
withdraw m seq = record m { settled = seq }

-- `doip_mb_collect`
unfoldable pub collect : Mailbox → ℕ → Bool
collect m seq = m.served == seq

-- `doip_mb_queue`
unfoldable pub queue : Mailbox → Mailbox
queue m = record m { queued = m.served }

-- `doip_mb_push_queue`
unfoldable pub push_queue : Mailbox → Mailbox
push_queue m = record m { push_queued = m.push_taken }

-- `doip_mb_drop`
unfoldable pub drop : Mailbox → Mailbox
drop m = record m {
  queued = 0;
  push_queued = 0;
  push_taken = m.pushed;
  drop_after = m.posted;
  drops = add32 m.drops 1;
}

-- `doip_mb_push`
unfoldable pub push : Mailbox → Mailbox
push m = record m { pushed = add32 m.pushed 1 }

-- `doip_mb_push_take`
unfoldable pub push_take : Mailbox → Bool × Mailbox
push_take m =
    if m.push_taken == m.pushed then (false, m) else (true, record m { push_taken = m.pushed })

-- `state != DOIP_MB_TCP_ESTABLISHED && state != DOIP_MB_TCP_CLOSE_WAIT`
abbrev pub not_open : ℕ → Bool
not_open state = not (state == established) && not (state == close_wait)

-- `doip_mb_sent_take`
unfoldable pub sent_take : Mailbox → ℕ → ℕ → Bool × Mailbox
sent_take m state unacked =
    let s = m.served in
    if s == m.reported || not (m.queued == s) || not (unacked == 0) || not_open state
    then (false, m)
    else (true, record m { reported = s })

-- `doip_mb_push_sent_take`
unfoldable pub push_sent_take : Mailbox → ℕ → ℕ → Bool × Mailbox
push_sent_take m state unacked =
    let p = m.pushed in
    if p == m.push_reported || not (m.push_queued == p) || not (unacked == 0) || not_open state
    then (false, m)
    else (true, record m { push_reported = p })

-- `doip_mb_drop_pending`
unfoldable pub drop_pending : Mailbox → Bool
drop_pending m = not (m.drops == m.drops_seen)

-- `doip_mb_dropped_take`
unfoldable pub dropped_take : Mailbox → Bool × Mailbox
dropped_take m =
    let d = m.drops in
    let r = not (d == m.drops_seen) && leb m.served m.drop_after in
    let m' = record m { drops_seen = d } in
    (r, if r then record m' { push_taken = m'.pushed } else m')
