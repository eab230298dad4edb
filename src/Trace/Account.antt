-- ===== src/Trace/Account.antt =====
-- boards/common/trace_hooks.c: no microsecond is counted twice, in slices, interrupts and windows.
use blobly_emb.Prelude.{
  ℕ, suc, ◌+◌, ◌-◌, ◌^◌, ◌≤◌, ◌<◌, ◌≡◌, true, if◌then◌else◌, ◌==◌, Option, none, some, update,
  add32, arith,
}
use blobly_emb.Trace.Ids.{max_threads}
use blobly_emb.Trace.Sums.{sum, sum-update, le_sum}
use blobly_emb.Trace.Load.{
  Load, slice_time, thread_exit_at, thread_enter_at, isr_enter_at, isr_exit_at, window_at,
  load_win_us,
}

-- The accounting at the moment `now`, in microseconds since the clock's start; `current` is the
-- number of the thread that runs.
pub record Timed : Type 0 where
  pub load : Load
  pub now : ℕ
  pub current : Option ℕ

-- The hooks as the scheduler calls them, at moments that do not go back and stay below 2 ^ 32.
-- Interrupts do not nest: an entry and its exit are one step, as the hooks have one start for both
-- (single-level, as the comment at _tx_execution_isr_enter says).
pub data Step (s : Timed) : Timed → Type 0 where
  enter :
      (id t : ℕ)
      → s.current ≡ none
      → id ≤ max_threads
      → s.now ≤ t
      → t < 2 ^ 32
      → Step s (record { load = thread_enter_at t s.load; now = t; current = some id })
  exit :
      (id t : ℕ)
      → s.current ≡ some id
      → s.now ≤ t
      → t < 2 ^ 32
      → Step s (record { load = thread_exit_at true id t s.load; now = t; current = none })
  interrupt :
      (vec t u : ℕ)
      → s.now ≤ t
      → t ≤ u
      → u < 2 ^ 32
      → Step s (record s { load = isr_exit_at u (isr_enter_at vec t s.load); now = u })
  tick :
      (t : ℕ)
      → (s.load.started ≡ true → load_win_us ≤ t - s.load.w_t0)
      → s.now ≤ t
      → t < 2 ^ 32
      → Step s (record s { load = window_at s.current t s.load; now = t })

pub data Reach (s : Timed) : Timed → Type 0 where
  here : Reach s s
  next : {t u : Timed} → Reach s t → Step t u → Reach s u

-- What the running slice will add for the thread `i`
abbrev pub pending : Load → ℕ → Option ℕ → ℕ → ℕ
pending l now none i = 0
pending l now (some id) i = if id == i then now - l.slice_start - l.slice_isr else 0

abbrev pub open_slice : Load → ℕ → Option ℕ → ℕ
open_slice l now none = 0
open_slice l now (some id) = now - l.slice_start - l.slice_isr

-- The slice's numbers make sense.
abbrev pub SliceOk : Load → ℕ → Option ℕ → Type 0
SliceOk l now none = Unit
SliceOk l now (some id) =
    (id ≤ max_threads) × (l.slice_start ≤ now) × (l.slice_isr ≤ now - l.slice_start)

pub record Inv (l : Load) (now : ℕ) (cur : Option ℕ) : Type 0 where
  pub clock : now < 2 ^ 32
  pub slice : SliceOk l now cur
  pub since_boot : l.isr + sum l.busy (suc max_threads) + open_slice l now cur ≤ now
  pub isr_grows : l.started ≡ true → l.w_isr0 ≤ l.isr
  pub thread_grows :
      l.started ≡ true → (i : ℕ) → i ≤ max_threads → l.w_th0 i ≤ l.busy i + pending l now cur i
  pub starts : l.started ≡ true → l.w_t0 ≤ now
  pub in_window :
      l.started ≡ true
      → l.isr + sum l.busy (suc max_threads) + open_slice l now cur + l.w_t0
        ≤ l.w_isr0 + sum l.w_th0 (suc max_threads) + now

-- The time that the accounting adds for a slice is what was pending.
pub slice_time-pending :
    (l : Load) (now t id : ℕ)
    → now ≤ t
    → t < 2 ^ 32
    → SliceOk l now (some id)
    → slice_time l t ≡ t - l.slice_start - l.slice_isr
slice_time-pending l now t id le small ok = ground arith

pub enter-Inv :
    (l : Load) (now id t : ℕ)
    → id ≤ max_threads
    → now ≤ t
    → t < 2 ^ 32
    → Inv l now none
    → Inv (thread_enter_at t l) t (some id)
unfolding thread_enter_at
enter-Inv l now id t bound le small v = record {
  clock = small;
  slice = ground arith;
  since_boot = omega (arith, v.since_boot);
  isr_grows = v.isr_grows;
  thread_grows = λ on i lt. ground (arith, v.thread_grows on i lt);
  starts = λ on. omega (arith, v.starts on);
  in_window = λ on. omega (arith, v.in_window on);
}

-- The slice's time moves from what is pending to what is counted.
pub exit-busy :
    (l : Load) (now id t : ℕ)
    → now ≤ t
    → t < 2 ^ 32
    → Inv l now (some id)
    → (l.busy id + slice_time l t < 2 ^ 32)
      × (sum (update l.busy id (add32 (l.busy id) (slice_time l t))) (suc max_threads)
          ≡ sum l.busy (suc max_threads) + slice_time l t)
exit-busy l now id t le small v =
    let (bound, start, isr) = v.slice in
    let time = slice_time-pending l now t id le small v.slice in
    let part = le_sum l.busy id (suc max_threads) (omega arith) in
    let fits : l.busy id + slice_time l t < 2 ^ 32 = omega (arith, v.since_boot) in
    (
      fits,
      omega (
        arith,
        sum-update l.busy id (add32 (l.busy id) (slice_time l t)) (suc max_threads) (omega arith),
      ),
    )

pub exit-Inv :
    (l : Load) (now id t : ℕ)
    → now ≤ t
    → t < 2 ^ 32
    → Inv l now (some id)
    → Inv (thread_exit_at true id t l) t none
unfolding thread_exit_at
exit-Inv l now id t le small v =
    let (fits, total) = exit-busy l now id t le small v in
    let (bound, start, isr) = v.slice in
    let time = slice_time-pending l now t id le small v.slice in
    record {
      clock = small;
      slice = tt;
      since_boot = omega (arith, total, time, v.since_boot);
      isr_grows = v.isr_grows;
      thread_grows = λ on i lt. ground (arith, v.thread_grows on i lt, fits, time);
      starts = λ on. omega (arith, v.starts on);
      in_window = λ on. omega (arith, total, time, v.in_window on);
    }

pub interrupt-Inv :
    (l : Load) (now vec t u : ℕ) (cur : Option ℕ)
    → now ≤ t
    → t ≤ u
    → u < 2 ^ 32
    → Inv l now cur
    → Inv (isr_exit_at u (isr_enter_at vec t l)) u cur
unfolding isr_exit_at isr_enter_at
interrupt-Inv l now vec t u none le le' small v = record {
  clock = small;
  slice = tt;
  since_boot = omega (arith, v.since_boot);
  isr_grows = λ on. omega (arith, v.isr_grows on, v.since_boot);
  thread_grows = v.thread_grows;
  starts = λ on. omega (arith, v.starts on);
  in_window = λ on. omega (arith, v.in_window on, v.since_boot);
}
interrupt-Inv l now vec t u (some id) le le' small v =
    let (bound, start, isr) = v.slice in
    record {
      clock = small;
      slice = ground arith;
      since_boot = omega (arith, v.since_boot);
      isr_grows = λ on. omega (arith, v.isr_grows on, v.since_boot);
      thread_grows = λ on i lt. ground (arith, v.thread_grows on i lt);
      starts = λ on. omega (arith, v.starts on);
      in_window = λ on. omega (arith, v.in_window on, v.since_boot);
    }
