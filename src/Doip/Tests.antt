-- ===== src/Doip/Tests.antt =====
-- The DoIP rules at concrete inputs.
use blobly_emb.Prelude.{ℕ, ◌<◌, ◌≡◌, ◌⊎◌, refl, arith, true, false}
use blobly_emb.Doip.Idle.{Idle}
use blobly_emb.Doip.Mailbox.{
  established, close_wait, post, waiting, serve, withdraw, queue, push_queue, drop, push, push_take,
  sent_take, push_sent_take, drop_pending, dropped_take,
}
use blobly_emb.Doip.Mailbox.Protocol.{
  served, Session, Reach, here, next, start, do_post, do_serve, do_withdraw, do_queue, do_push,
  do_push_take, do_push_queue,
}
use blobly_emb.Doip.Mailbox.Guarantees.{sent_take_sound, drop_cancels}

-- 2 s and 300 s at 100 ticks a second, close to the counter's wrap.
abbrev conn : Idle
conn = record {
  initial = 200;
  general = 30000;
  conn_start = 4294967290;
  last_activity = 4294967295;
  activated = true;
}

-- One request withdrawn, the next served, and its answer and a push queued.
abbrev in_flight : (s : Session) × Reach start s
unfolding post waiting serve withdraw queue push push_take push_queue
in_flight = (
  _,
  next
      (next
        (next
          (next
            (next
              (next (next (next here (do_post refl (omega arith))) (do_withdraw refl))
                (do_post refl (omega arith)))
              (do_serve refl))
            do_queue)
          (do_push (omega arith)))
        do_push_take)
      do_push_queue,
)

sent_take_sound_example :
    let s = in_flight.0 in
    (0 < s.mb.served)
    × (s.fate s.mb.served ≡ served)
    × (s.queued_on ≡ s.mb.drops)
    × ◌≡◌ {A = ℕ} 0 0
    × ((5 ≡ established) ⊎ (5 ≡ close_wait))
    × ((state unacked : ℕ) → (sent_take (sent_take s.mb 5 0).1 state unacked).0 ≡ false)
unfolding post waiting serve withdraw queue push push_take push_queue sent_take
sent_take_sound_example = sent_take_sound 5 0 in_flight.1 refl

drop_cancels_example :
    let m = drop in_flight.0.mb in
    ((state unacked : ℕ) → (sent_take m state unacked).0 ≡ false)
    × ((state unacked : ℕ) → (push_sent_take m state unacked).0 ≡ false)
    × ((push_take m).0 ≡ false)
    × (drop_pending m ≡ true)
    × ((dropped_take m).0 ≡ true)
    × (drop_pending (dropped_take m).1 ≡ false)
    × ((dropped_take (dropped_take m).1).0 ≡ false)
unfolding post waiting serve withdraw queue push push_take push_queue
drop_cancels_example = drop_cancels in_flight.1 (omega arith)
