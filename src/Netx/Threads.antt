-- ===== src/Netx/Threads.antt =====
-- The doip thread and the comm thread over the mailbox, one atomic step at a time: what stands between two
-- mutex operations, and each operation of the semaphore.
use blobly_emb.Prelude.{
  ℕ, zero, suc, ◌+◌, ◌^◌, Bool, true, false, not, ◌&&◌, if◌then◌else◌, ltb, List, [], ◌∷◌, slice, ℤ,
}
use blobly_emb.Doip.Mailbox.{
  Mailbox, waiting, queue, drop, sent_take, dropped_take, push, push_take, push_queue,
  push_sent_take,
}
use blobly_emb.Netx.Mail.{
  Chan, Outcome, answered, timed_out, again, post_call, call_round, mb_answer,
}

-- A call: its sequence, its request, the caller's buffer, and the puts of the semaphore that were
-- outstanding when it began
pub record Call : Type 0 where
  pub seq : ℕ
  pub msg : List ℕ
  pub functional : Bool
  pub room : ℕ
  pub dst : ℕ → ℕ
  pub stock : ℕ

-- Between rounds, and with the wait of a round over; `rounds` counts the rounds gone.
pub data Doip : Type 0 where
  idle : Doip
  waits : (c : Call) (rounds : ℕ) → Doip
  checks : (c : Call) (rounds : ℕ) (got : Bool) → Doip
  finished : (c : Call) (o : Outcome) → Doip

-- The comm thread holds the mutex from `doip_mb_take` to `doip_mb_answer`, and puts the semaphore after.
pub data Comm : Type 0 where
  free holding putting : Comm

pub record System : Type 0 where
  pub chan : Chan
  pub sem : ℕ
  pub comm : Comm
  pub doip : Doip

abbrev pub held : Comm → Bool
held holding = true
held free = false
held putting = false

abbrev pub owed : Comm → ℕ
owed putting = 1
owed free = 0
owed holding = 0

abbrev pub calling : Doip → Bool
calling idle = false
calling (finished c o) = false
calling (waits c r) = true
calling (checks c r g) = true

-- The calls on the same mailbox that move nothing of a request
pub data Note : Type 0 where
  queues drops takes_dropped pushes takes_push queues_push : Note
  takes_sent takes_push_sent : (state unacked : ℕ) → Note

abbrev pub noted : Note → Mailbox → Mailbox
noted queues m = queue m
noted drops m = drop m
noted takes_dropped m = (dropped_take m).1
noted pushes m = push m
noted takes_push m = (push_take m).1
noted queues_push m = push_queue m
noted (takes_sent state unacked) m = (sent_take m state unacked).1
noted (takes_push_sent state unacked) m = (push_sent_take m state unacked).1

pub data Act : Type 0 where
  begin : (bytes : ℕ → ℕ) (len : ℕ) (functional : Bool) (room : ℕ) (dst : ℕ → ℕ) → Act
  get expire check take answer put : Act
  note : (n : Note) → Act

abbrev pub begin_call : System → (ℕ → ℕ) → ℕ → Bool → ℕ → (ℕ → ℕ) → System
begin_call s bytes len functional room dst =
    let p = post_call s.chan bytes len functional in
    record s {
      chan = p.0;
      doip =
          waits
            (record {
              seq = p.1;
              msg = slice bytes 0 len;
              functional = functional;
              room = room;
              dst = dst;
              stock = s.sem + owed s.comm;
            })
            0;
    }

abbrev pub get_step : System → Doip → ℕ → System
get_step s (waits c r) (suc n) = record s { sem = n; doip = checks c r true }
get_step s (waits c r) zero = s
get_step s idle n = s
get_step s (checks c r g) n = s
get_step s (finished c o) n = s

abbrev pub expire_step : System → Doip → System
expire_step s (waits c r) = record s { doip = checks c r false }
expire_step s idle = s
expire_step s (checks c r g) = s
expire_step s (finished c o) = s

abbrev pub outcome_step : Call → ℕ → Outcome → Doip
outcome_step c r again = waits c (r + 1)
outcome_step c r timed_out = finished c timed_out
outcome_step c r (answered n b) = finished c (answered n b)

abbrev pub check_step : System → Doip → System
check_step s (checks c r got) = if held s.comm then s else record s {
  chan = (call_round s.chan c.seq got c.room c.dst).1;
  doip = outcome_step c r (call_round s.chan c.seq got c.room c.dst).0;
}
check_step s idle = s
check_step s (waits c r) = s
check_step s (finished c o) = s

abbrev pub take_step : System → Comm → System
take_step s free = if waiting s.chan.mb then record s { comm = holding } else s
take_step s holding = s
take_step s putting = s

module _ (server : List ℕ → Bool → ℤ × (ℕ → ℕ)) where
  -- `server` is what the comm thread answers to a request of these bytes, functional or not.
  abbrev pub served_chan : Chan → Chan
  served_chan c = let a = server (slice c.req 0 c.req_len) c.functional in mb_answer c a.0 a.1

  abbrev pub answer_step : System → Comm → System
  answer_step s holding = record s { chan = served_chan s.chan; comm = putting }
  answer_step s free = s
  answer_step s putting = s

  abbrev pub put_step : System → Comm → System
  put_step s putting = record s { sem = s.sem + 1; comm = free }
  put_step s free = s
  put_step s holding = s

  -- A step that its thread cannot take now changes nothing. There are fewer than 2 ^ 32 requests.
  unfoldable pub step : Act → System → System
  step (begin bytes len functional room dst) s =
      if not (calling s.doip) && not (held s.comm) && ltb (s.chan.mb.posted + 1) (2 ^ 32)
      then begin_call s bytes len functional room dst
      else s
  step get s = get_step s s.doip s.sem
  step expire s = expire_step s s.doip
  step check s = check_step s s.doip
  step take s = take_step s s.comm
  step answer s = answer_step s s.comm
  step put s = put_step s s.comm
  step (note n) s = record s { chan = record (s.chan) { mb = noted n s.chan.mb } }

  unfoldable pub run : List Act → System → System
  run [] s = s
  run (a ∷ rest) s = run rest (step a s)
