-- ===== src/Trace/Tests.antt =====
-- The recorder and the accounting at concrete inputs.
use blobly_emb.Prelude.{
  ℕ, ◌+◌, ◌-◌, ◌≤◌, ◌<◌, ◌≡◌, ◌⊎◌, false, if◌then◌else◌, ◌==◌, none, arith, refl,
}
use blobly_emb.Trace.Ring.{Event, Recorder, ring_cap, arm, snapshot}
use blobly_emb.Trace.Snapshot.{record_all, Same, decode, snapshot_latest}
use blobly_emb.Trace.Ids.{Ids}
use blobly_emb.Trace.Load.{
  Load, window_at, thread_enter_at, thread_exit_at, isr_enter_at, isr_exit_at,
}
use blobly_emb.Trace.Account.{Timed, Reach, here, next, enter, exit, interrupt, tick}
use blobly_emb.Trace.Window.{boot}

abbrev blank : Recorder
blank = record { ring = λ i j. 0; head = 77; capturing = false }

abbrev events : ℕ → Event
events k = record { kind = 1; id = 3; info = 2; start_us = 70000; dur_us = 9 }

snapshot_latest_example :
    let (count, out') = snapshot (record_all (arm blank) events 300) (λ i j. 5) 64 in
    (count ≤ 300)
    × (count ≤ ring_cap)
    × (count ≤ 64)
    × ((count ≡ 300) ⊎ (count ≡ ring_cap) ⊎ (count ≡ 64))
    × ((i : ℕ) → i < count → Same (decode (out' i)) (events (300 - count + i)))
    × ((i j : ℕ) → count ≤ i → out' i j ≡ 5)
snapshot_latest_example =
    snapshot_latest blank (λ i j. 5) events 300 64 (omega arith) (λ k lt. omega arith)

abbrev ids : Ids
ids = record { ptr = λ i. if i == 0 then 1000 else 2000; n = 2 }

abbrev cleared : Load
cleared = record {
  busy = λ i. 9;
  isr = 9;
  seen = false;
  slice_start = 0;
  slice_isr = 0;
  isr_start = 0;
  isr_vec = 0;
  started = false;
  w_t0 = 0;
  w_isr0 = 0;
  w_th0 = λ i. 0;
  load_pm = none;
  isr_pm = none;
  win_ms = none;
  th_pm = λ i. 0;
}

-- A first window, an interrupt in thread 2, and its end.
abbrev second : (s : Timed) × Reach (boot cleared 5) s
unfolding thread_enter_at thread_exit_at isr_enter_at isr_exit_at window_at
second = (
  _,
  next
      (next
        (next (next here (enter 2 10 refl (omega arith) (omega arith) (omega arith)))
          (tick 20 (λ on. ground arith) (omega arith) (omega arith)))
        (interrupt 15 30 40 (omega arith) (omega arith) (omega arith)))
      (exit 2 600000 refl (omega arith) (omega arith)),
)
