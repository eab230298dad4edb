-- ===== src/Xcore/Tests.antt =====
-- Two owner boots with a retained window, and a load report.
use blobly_emb.Prelude.{ℕ, ◌+◌, ◌≡◌, refl, true, false, List, [], ◌∷◌, slice, arith, pos, negsuc}
use blobly_emb.Xioc.{init_n, write_n, read_n, next_seq}
use blobly_emb.Xcore.{Window, Reader, xor, ow_ack, Busy, busy_pub, busy_watch, busy_begin, busy_get}
use blobly_emb.Xcore.Boots.{
  Pc, has_ack, passed, has_read, reading, has_ack_again, Act, renews, inits, commits, publishes,
  loads_ack, loads_nonce, begins_read, ends_read, loads_ack_again, loads_nonce_again, rests, step,
  run,
}
use blobly_emb.Xcore.Gate.{Among}
use blobly_emb.Xcore.Reads.{start, down_read_sound}
use blobly_emb.Xcore.Load.{busy_reported}

abbrev retained : Window
retained = record {
  ack = 77;
  nonce = 41;
  chan = record { latest = 5; wseq = 5; words = 2; cell = λ i. 9 };
}

abbrev boot : List Act
boot =
    renews
    ∷ inits
    ∷ commits
    ∷ publishes (λ i. 100 + i)
    ∷ loads_ack
    ∷ loads_nonce
    ∷ begins_read
    ∷ publishes (λ i. 200 + i)
    ∷ ends_read false 0 (λ i. 0)
    ∷ loads_ack_again
    ∷ loads_nonce_again
    ∷ []

abbrev layout_id : ℕ
layout_id = 0x1234ABCD

abbrev reader_at : Pc → Reader
reader_at (rests b st) = st
reader_at (has_ack a st) = st
reader_at (passed a n st) = st
reader_at (has_read a n st) = st
reader_at (reading a n st whole) = st
reader_at (has_ack_again a n a' st) = st

abbrev seen : Reader
seen = reader_at (run layout_id 2 boot (start layout_id 2 retained)).pc

boot-run : (run layout_id 2 boot (start layout_id 2 retained)).pc ≡ rests true seen
unfolding run step xor ow_ack init_n write_n read_n next_seq
boot-run = refl

down_read_sound_example :
    Among
      (slice seen.lanes 0 2)
      ((run layout_id 2 boot (start layout_id 2 retained)).values seen.under)
down_read_sound_example = down_read_sound layout_id 2 retained boot seen (omega arith) boot-run

abbrev slots : Busy
slots = record { slot = λ c. 0xFFFF; published = 65535; seen = λ c. 0; live = λ c. false }

busy_reported_example :
    (busy_get (busy_watch (busy_pub slots 1 (pos 196))) (pos 1) ≡ pos 196)
    × (busy_get (busy_watch (busy_watch (busy_pub slots 1 (pos 196)))) (pos 1) ≡ negsuc 0)
    × (busy_get (busy_begin (busy_watch (busy_pub slots 1 (pos 196)))) (pos 1) ≡ negsuc 0)
    × (busy_get (busy_watch (busy_begin (busy_watch (busy_pub slots 1 (pos 196))))) (pos 1)
        ≡ negsuc 0)
busy_reported_example =
    busy_reported slots 1 196 (omega arith) (omega arith) (omega arith) (omega arith)
