-- ===== src/Netx/Tests.antt =====
-- A diagnostic session on a bench: a server that answers two bytes, and packets nx_cut as NetX cuts them.
use blobly_emb.Prelude.{
  ℕ, ◌+◌, ◌-◌, ◌*◌, ◌≡◌, ◌≢◌, ◌≤◌, ◌<◌, ◌⊎◌, refl, Bool, true, false, if◌then◌else◌, ltb, Option,
  none, some, List, [], ◌∷◌, ◌++◌, slice, count, arith, ℤ, pos, memcpy,
}
use blobly_emb.Doip.Mailbox.{post, waiting, serve, collect, withdraw}
use blobly_emb.Doip.Idle.{left, rx}
use blobly_emb.Netx.Mail.{Outcome, answered, timed_out, capped, copied_answer}
use blobly_emb.Netx.Threads.{
  Call, waits, finished, Act, begin, get, expire, check, take, answer, put, step, run,
}
use blobly_emb.Netx.Answers.{fresh_box, mb_init, call_answered, call_ends}
use blobly_emb.Netx.Withdrawn.{timed_out-unserved}
use blobly_emb.Netx.Stream.{
  NxPacket, Received, packet, no_packet, failed, Stream, Asked, stream_recv, dropped, recycle,
}
use blobly_emb.Netx.Ledger
use blobly_emb.Netx.Ledger.{Balanced, session, session-Balanced}
use blobly_emb.Netx.Deadline.{recv_in_time, WaitsBy}
use blobly_emb.Netx.Bytes.{Extracts, least, rest_of}
use blobly_emb.Netx.Pipe.{Pull, pipe, pipe_in_order}
use blobly_emb.Netx.Route
use blobly_emb.Netx.Route.{Route, rt_put, rt_get, rt_done, acts, put-get}
use blobly_emb.Netx.Service
use blobly_emb.Netx.Service.{svc_pass}
use blobly_emb.Netx.Replies.{total, requests_by, replies_by, came, went, svc_pass-Settled}

abbrev server : List ℕ → Bool → ℤ × (ℕ → ℕ)
server msg functional = (pos 2, λ i. 80 + i)

abbrev zeroes : ℕ → ℕ
zeroes i = 0

abbrev question : Act
question = begin (λ i. 16 + i) 2 false 8 zeroes

abbrev asked : Call
asked = record {
  seq = 1;
  msg = 16 ∷ 17 ∷ [];
  functional = false;
  room = 8;
  dst = zeroes;
  stock = 0;
}

abbrev two_bytes : ℕ → ℕ
two_bytes = memcpy zeroes (λ i. 80 + i) 2

served_run :
    (run server (question ∷ take ∷ answer ∷ put ∷ get ∷ check ∷ []) (mb_init zeroes zeroes)).doip
    ≡ finished asked (answered (pos 2) two_bytes)
unfolding run step post waiting serve collect
served_run = refl

call_answered_example :
    (pos 2 ≡ capped (pos 2) 8) × (two_bytes ≡ copied_answer (capped (pos 2) 8) zeroes (λ i. 80 + i))
call_answered_example =
    call_answered server (question ∷ take ∷ answer ∷ put ∷ get ∷ check ∷ []) zeroes zeroes asked
      (pos 2) two_bytes served_run

waiting_run : (run server (question ∷ take ∷ []) (mb_init zeroes zeroes)).doip ≡ waits asked 0
unfolding run step post waiting
waiting_run = refl

call_ends_example :
    (0 ≤ 0)
    × ((o : Outcome) × ((run server
            ((question ∷ take ∷ []) ++ (expire ∷ answer ∷ check ∷ []))
            (mb_init zeroes zeroes)).doip
          ≡ finished asked o))
call_ends_example = call_ends server (question ∷ take ∷ []) zeroes zeroes asked 0 waiting_run

late_run :
    (run server (question ∷ expire ∷ check ∷ []) (mb_init zeroes zeroes)).doip
    ≡ finished asked timed_out
unfolding run step post waiting serve collect withdraw
late_run = refl

timed_out-unserved_example :
    ((run server (question ∷ expire ∷ check ∷ []) (mb_init zeroes zeroes)).chan.mb.served < 1)
    × ((run server
          ((question ∷ expire ∷ check ∷ []) ++ (take ∷ answer ∷ question ∷ take ∷ answer ∷ []))
          (mb_init zeroes zeroes)).chan.mb.served
        ≢ 1)
timed_out-unserved_example =
    timed_out-unserved server (question ∷ expire ∷ check ∷ [])
      (take ∷ answer ∷ question ∷ take ∷ answer ∷ []) zeroes zeroes asked late_run

-- NetX's extraction, as documented
abbrev nx_cut : NxPacket → ℕ → (ℕ → ℕ) → ℕ → (ℕ → ℕ) × ℕ
nx_cut p off buf max =
    let n = least max (p.length - off) in (λ i. if ltb i n then p.bytes (off + i) else buf i, n)

nx_cut-Extracts : Extracts nx_cut
nx_cut-Extracts p off buf max lt = (refl, λ i h. ground arith)

abbrev ten : NxPacket
ten = record { id = 7; length = 10; bytes = λ i. i * i }

abbrev accepted : Stream
accepted = record {
  pending = none;
  listening = true;
  connected = true;
  idle = record {
    initial = 2000;
    general = 300000;
    conn_start = 100;
    last_activity = 100;
    activated = false;
  };
  mb = fresh_box;
  ends = 0;
  rx_bytes = 0;
  tx_bytes = 0;
}

abbrev at_tick : ℕ → Received → Asked
at_tick t r = record {
  listen_ok = true;
  accept_ok = true;
  accepted_at = t;
  called_at = t;
  received = r;
  back_at = t + 1;
  done_at = t + 1;
}

abbrev two_pulls : List Pull
two_pulls =
    record { asked = at_tick 150 (packet ten); buf = zeroes; max = 4; timeout = 10 }
    ∷ record { asked = at_tick 160 no_packet; buf = zeroes; max = 4; timeout = 10 }
    ∷ []

abbrev pulled : Stream
pulled = record accepted {
  pending = some (ten, 8);
  idle = record {
    initial = 2000;
    general = 300000;
    conn_start = 100;
    last_activity = 161;
    activated = false;
  };
  rx_bytes = 8;
}

two_pulls-run :
    pipe nx_cut two_pulls accepted
    ≡ some (0 ∷ 1 ∷ 4 ∷ 9 ∷ 16 ∷ 25 ∷ 36 ∷ 49 ∷ [], slice (λ i. i * i) 0 10, pulled)
unfolding pipe left rx
two_pulls-run = refl

pipe_in_order_example :
    (0 ∷ 1 ∷ 4 ∷ 9 ∷ 16 ∷ 25 ∷ 36 ∷ 49 ∷ []) ++ rest_of pulled.pending
    ≡ [] ++ slice (λ i. i * i) 0 10
pipe_in_order_example =
    pipe_in_order nx_cut nx_cut-Extracts two_pulls accepted pulled
      (0 ∷ 1 ∷ 4 ∷ 9 ∷ 16 ∷ 25 ∷ 36 ∷ 49 ∷ []) (slice (λ i. i * i) 0 10) tt (omega arith)
      two_pulls-run

recv_in_time_example :
    ((2000 ≤ 1990)
      × ((stream_recv nx_cut (at_tick 2090 (packet ten)) accepted zeroes 4 50).value ≡ dropped)
      × ((stream_recv nx_cut (at_tick 2090 (packet ten)) accepted zeroes 4 50).buf ≡ zeroes)
      × ((stream_recv nx_cut (at_tick 2090 (packet ten)) accepted zeroes 4 50).ops
          ≡ (recycle accepted).1))
    ⊎ ((1990 < 2000)
        × WaitsBy 1990 2000
            (stream_recv nx_cut (at_tick 2090 (packet ten)) accepted zeroes 4 50).ops)
recv_in_time_example =
    recv_in_time nx_cut (at_tick 2090 (packet ten)) accepted zeroes 4 50 refl refl

abbrev day : List Ledger.Call
day =
    Ledger.recv (at_tick 150 (packet ten)) zeroes 4 10
    ∷ Ledger.send (record { allocated = some 9; append_ok = true; send_ok = false; sent_at = 155 })
        12
    ∷ Ledger.recv (at_tick 160 failed) zeroes 4 10
    ∷ Ledger.drop_
    ∷ []

session-Balanced_example :
    Balanced accepted (session nx_cut day accepted).1 (session nx_cut day accepted).0
session-Balanced_example = session-Balanced nx_cut day accepted

abbrev gateway : Route
gateway = record {
  present = true;
  rules = fresh_box;
  req = zeroes;
  req_len = 0;
  idx = pos 0;
  conn = 0;
  ticket = 0;
  code = pos 0;
  ans = zeroes;
  ans_len = none;
  ans_from = 0;
  ans_ticket = 0;
  ends_seen = 0;
  live = 0;
  live_at = 0;
}

abbrev meanwhile : List Route.Act
meanwhile =
    Route.puts 0x1002 6 zeroes (pos 1)
    ∷ Route.posts (pos 1) zeroes 1 1 6
    ∷ Route.answers (pos 0)
    ∷ Route.ended 3
    ∷ []

put-get_example :
    ((rt_put gateway 0x1001 5 (λ i. 98 + i) (pos 3)).0 ≡ true)
    × (rt_get (acts meanwhile (rt_put gateway 0x1001 5 (λ i. 98 + i) (pos 3)).1)
        ≡ some (3, 0x1001, 5))
    × (slice (acts meanwhile (rt_put gateway 0x1001 5 (λ i. 98 + i) (pos 3)).1).ans 0 3
        ≡ 98 ∷ 99 ∷ 100 ∷ [])
    × (rt_get (rt_done (acts meanwhile (rt_put gateway 0x1001 5 (λ i. 98 + i) (pos 3)).1)) ≡ none)
put-get_example = put-get gateway 0x1001 5 3 (λ i. 98 + i) meanwhile refl refl

abbrev call : ℕ → Option ℕ → Service.Round
call id response = record {
  request = some (record {
    id = id;
    ip = 20;
    port = 13400;
    req = zeroes;
    len = 8;
    buf_start = 256;
    ip_hdr = 288;
  });
  found = false;
  set_ok = true;
  response = response;
  append_ok = true;
  send_ok = true;
}

abbrev announce : (ℕ → ℕ) → ℕ → ℤ × (ℕ → ℕ)
announce req len = (pos 33, zeroes)

abbrev flood : List Service.Round
flood = call 1 (some 11) ∷ call 2 none ∷ call 3 (some 13) ∷ call 4 (some 14) ∷ call 5 (some 15) ∷ []

svc_pass-Settled_example :
    (total requests_by (svc_pass zeroes (2, 3) announce flood) ≤ 4)
    × ((i : ℕ)
        → count i (went (svc_pass zeroes (2, 3) announce flood))
          ≡ count i (came (svc_pass zeroes (2, 3) announce flood)))
    × (total replies_by (svc_pass zeroes (2, 3) announce flood)
        ≤ total requests_by (svc_pass zeroes (2, 3) announce flood))
svc_pass-Settled_example = svc_pass-Settled zeroes (2, 3) announce flood
