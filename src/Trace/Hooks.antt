-- ===== src/Trace/Hooks.antt =====
-- boards/common/trace_hooks.c: the hooks, with the clock, the recorder and the accounting.
use blobly_emb.Prelude.{
  ℕ, suc, ◌+◌, ◌*◌, ◌/◌, ◌%◌, ◌^◌, not, ◌&&◌, if◌then◌else◌, ltb, ◌==◌, Option, none, some, add32,
  sub32, low_bits,
}
use blobly_emb.Trace.Ids.{Ids, find, thread_id, max_threads}
use blobly_emb.Trace.Ring.{Event, Recorder, push_rec}
use blobly_emb.Trace.Load.{
  Load, state_reason, slice_time, thread_exit_at, thread_enter_at, isr_enter_at, isr_exit_at,
  window_at, load_win_us,
}

-- `g_ticks` and the statics of `now_us`; `acc` has 64 bits.
pub record Clock : Type 0 where
  pub ticks : ℕ
  pub last_cyc : ℕ
  pub acc : ℕ

-- `now_us`, when CYCCNT reads `cyc`; `mhz` is TRACE_CPU_MHZ.
unfoldable pub now_us : ℕ → ℕ → Clock → ℕ × Clock
now_us mhz cyc c =
    if cyc == 0 && c.acc == 0
    then (c.ticks * 10000 % 2 ^ 32, c)
    else let acc = (c.acc + sub32 cyc c.last_cyc) % 2 ^ 64 in
      (acc / mhz % 2 ^ 32, record c { last_cyc = cyc; acc = acc })

-- Everything that the hooks keep
pub record Core : Type 0 where
  pub clock : Clock
  pub ids : Ids
  pub recorder : Recorder
  pub load : Load

-- `dur > 0xFFFFu ? 0xFFFFu : dur`
abbrev pub cut : ℕ → ℕ
cut dur = if ltb 0xFFFF dur then 0xFFFF else dur

-- `_tx_execution_thread_exit` of the thread `tcb` (0: none) in ThreadX's state `st`
unfoldable pub thread_exit : ℕ → ℕ → ℕ → ℕ → Core → Core
thread_exit mhz cyc tcb st k =
    let (t, clock) = now_us mhz cyc k.clock in
    let (id, ids) = thread_id k.ids tcb in
    let rec_ : Event = record {
      kind = 1;
      id = id;
      info = state_reason st;
      start_us = k.load.slice_start;
      dur_us = cut (slice_time k.load t);
    } in
    record {
      clock = clock;
      ids = ids;
      recorder = if id == 0 then k.recorder else push_rec k.recorder rec_;
      load = thread_exit_at (not (tcb == 0)) id t k.load;
    }

-- `_tx_execution_thread_enter`
unfoldable pub thread_enter : ℕ → ℕ → Core → Core
thread_enter mhz cyc k =
    let (t, clock) = now_us mhz cyc k.clock in
    record k { clock = clock; load = thread_enter_at t k.load }

-- `_tx_execution_isr_enter` in the exception `ipsr`
unfoldable pub isr_enter : ℕ → ℕ → ℕ → Core → Core
isr_enter mhz cyc ipsr k =
    let vec = low_bits ipsr 9 in
    let ticked =
      (if vec == 15 then record (k.clock) { ticks = add32 k.clock.ticks 1 } else k.clock) in
    let (t, clock) = now_us mhz cyc ticked in
    record k { clock = clock; load = isr_enter_at vec t k.load }

-- `_tx_execution_isr_exit`
unfoldable pub isr_exit : ℕ → ℕ → Core → Core
isr_exit mhz cyc k =
    let (t, clock) = now_us mhz cyc k.clock in
    let rec_ : Event = record {
      kind = 0;
      id = k.load.isr_vec;
      info = 0;
      start_us = k.load.isr_start;
      dur_us = cut (sub32 t k.load.isr_start);
    } in
    record k { clock = clock; load = isr_exit_at t k.load; recorder = push_rec k.recorder rec_ }

-- `trace_fb`
unfoldable pub trace_fb : ℕ → ℕ → ℕ → Core → Core
trace_fb id start_us dur_us k = record k {
  recorder =
      push_rec k.recorder
        (record { kind = 2; id = id; info = 0; start_us = start_us % 2 ^ 32; dur_us = cut dur_us });
}

-- `core_load_tick` past its guard, called by the thread `tcb` (0: none)
abbrev pub close_window : ℕ → ℕ → ℕ → Core → Core
close_window mhz cyc tcb k =
    let (now, clock) = now_us mhz cyc k.clock in
    let (id, ids) = thread_id k.ids tcb in
    record k {
      clock = clock;
      ids = ids;
      load = window_at (if tcb == 0 then none else some id) now k.load;
    }

-- `core_load_tick`; `cyc` and `cyc'` are what its reads of CYCCNT give.
unfoldable pub core_load_tick : ℕ → ℕ → ℕ → ℕ → Core → Core
core_load_tick mhz cyc cyc' tcb k =
    let (t, clock) = now_us mhz cyc k.clock in
    if k.load.started
    then if ltb (sub32 t k.load.w_t0) load_win_us
      then record k { clock = clock }
      else close_window mhz cyc' tcb (record k { clock = clock })
    else close_window mhz cyc' tcb k

-- `core_thread_permille`; the result `none` is -1.
abbrev pub permille_at : Core → Option ℕ → Option ℕ
permille_at k none = if ltb k.ids.n max_threads then some 0 else none
permille_at k (some i) = some (k.load.th_pm (suc i))

abbrev pub if_measured : Option ℕ → Option ℕ → Option ℕ
if_measured none r = none
if_measured (some pm) r = r

unfoldable pub core_thread_permille : ℕ → Core → Option ℕ
core_thread_permille tcb k =
    if_measured k.load.load_pm (permille_at k (find k.ids.ptr tcb 0 k.ids.n))
