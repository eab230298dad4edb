-- ===== src/Netx/Mail.antt =====
-- The mailbox of driver/eth/doip_netx.c, which carries one request to the comm thread and its answer back:
-- the parts of its calls under the mutex. The rules of the sequence numbers are Doip.Mailbox.
use blobly_emb.Prelude.{
  ℕ, Bool, true, false, not, ◌||◌, if◌then◌else◌, ltb, leb, ◌==◌, Option, none, some, memcpy, sub32,
  ℤ, pos, negsuc,
}
use blobly_emb.Doip.Mailbox.{
  Mailbox, post, waiting, serve, withdraw, collect, push, push_take, push_queue, push_sent_take,
  sent_take, drop_pending, dropped_take,
}

-- The state of the mailbox. `mb_req` and `mb_resp` are set before the threads run.
pub record Chan : Type 0 where
  pub mb : Mailbox
  pub req : ℕ → ℕ
  pub req_len : ℕ
  pub functional : Bool
  pub resp : ℕ → ℕ
  pub resp_len : ℤ

-- `doip_mb_call` up to its wait: the mailbox and the sequence of the request
abbrev pub post_call : Chan → (ℕ → ℕ) → ℕ → Bool → Chan × ℕ
post_call c bytes len functional = (
  record c {
    mb = (post c.mb).0;
    req = memcpy c.req bytes len;
    req_len = len;
    functional = functional;
  },
  (post c.mb).1,
)

-- How long a round waits for the semaphore; `none` is no wait at all.
abbrev pub wait_left : ℕ → ℕ → ℕ → Option ℕ
wait_left limit deadline now =
    let left = sub32 deadline now in if left == 0 || ltb limit left then none else some left

pub data Outcome : Type 0 where
  answered : (n : ℤ) (resp : ℕ → ℕ) → Outcome
  timed_out again : Outcome

-- -1 where the answer is longer than the caller's buffer
abbrev pub capped : ℤ → ℕ → ℤ
capped (pos n) cap = if ltb cap n then negsuc 0 else pos n
capped (negsuc n) cap = negsuc n

abbrev pub copied_answer : ℤ → (ℕ → ℕ) → (ℕ → ℕ) → ℕ → ℕ
copied_answer (pos n) dst src = memcpy dst src n
copied_answer (negsuc n) dst src = dst

-- A round of `doip_mb_call` after its wait, which got the semaphore or not
abbrev pub call_round : Chan → ℕ → Bool → ℕ → (ℕ → ℕ) → Outcome × Chan
call_round c seq got cap dst =
    if collect c.mb seq
    then (answered (capped c.resp_len cap) (copied_answer (capped c.resp_len cap) dst c.resp), c)
    else if not got
    then (timed_out, record c { mb = withdraw c.mb seq })
    else (again, c)

-- `doip_mb_take` with the mutex got: the length of the request and whether it is functional
abbrev pub mb_take : Chan → Option (ℕ × Bool)
mb_take c = if waiting c.mb then some (c.req_len, c.functional) else none

-- `doip_mb_answer` up to the semaphore, with what the comm thread has written to the buffer
abbrev pub mb_answer : Chan → ℤ → (ℕ → ℕ) → Chan
mb_answer c n bytes = record c { mb = serve c.mb; resp = bytes; resp_len = n }

-- The socket as the two polls below read it: a connection that is not open reads as `closed`,
-- NX_TCP_CLOSED.
abbrev pub socket_seen : ℕ → Bool → ℕ → ℕ → ℕ × ℕ
socket_seen closed connected state unacked = if connected then (state, unacked) else (closed, 0)

-- `doip_mb_take_sent` and `doip_mb_take_push_sent`
abbrev pub take_sent : ℕ → Mailbox → Bool → ℕ → ℕ → Bool × Mailbox
take_sent closed m connected state unacked =
    let s = socket_seen closed connected state unacked in sent_take m s.0 s.1

abbrev pub take_push_sent : ℕ → Mailbox → Bool → ℕ → ℕ → Bool × Mailbox
take_push_sent closed m connected state unacked =
    let s = socket_seen closed connected state unacked in push_sent_take m s.0 s.1

-- `doip_mb_drop_is_pending` and `doip_mb_take_dropped`
abbrev pub drop_is_pending : Mailbox → Bool
drop_is_pending m = drop_pending m

abbrev pub take_dropped : Mailbox → Bool × Mailbox
take_dropped m = dropped_take m

-- MB_PUSH_MAX, and the slot of the further response
abbrev pub push_max : ℕ
push_max = 16

pub record Pusher : Type 0 where
  pub rules : Mailbox
  pub slot : ℕ → ℕ
  pub slot_len : ℕ

-- `doip_mb_push_resp`, of a response of `n` bytes
abbrev pub push_resp : Pusher → (ℕ → ℕ) → ℕ → Bool × Pusher
push_resp p bytes n =
    if ltb n 1 || ltb push_max n
    then (false, p)
    else (true, record { rules = push p.rules; slot = memcpy p.slot bytes n; slot_len = n })

-- `doip_mb_push_queued`
abbrev pub push_queued : Pusher → Pusher
push_queued p = record p { rules = push_queue p.rules }

-- `doip_mb_push_get`: the length and the caller's buffer; `none` is -1.
abbrev pub push_get : Pusher → (ℕ → ℕ) → ℕ → Option (ℕ × (ℕ → ℕ)) × Pusher
push_get p dst cap =
    if leb p.slot_len cap
    then if (push_take p.rules).0
      then (
        some (p.slot_len, memcpy dst p.slot p.slot_len),
        record p { rules = (push_take p.rules).1 },
      )
      else (none, p)
    else (none, p)
