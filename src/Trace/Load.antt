-- ===== src/Trace/Load.antt =====
-- boards/common/trace_hooks.c: the busy time of the core, by thread and in interrupts.
use blobly_emb.Prelude.{
  ℕ, zero, suc, ◌*◌, ◌/◌, Bool, true, ◌||◌, if◌then◌else◌, ltb, leb, ◌==◌, Option, none, some,
  update, add32, sub32,
}
use blobly_emb.Trace.Ids.{max_threads}

-- REASON_PREEMPT, REASON_BLOCK, REASON_YIELD, REASON_EXIT
abbrev pub reason_preempt : ℕ
reason_preempt = 0

abbrev pub reason_block : ℕ
reason_block = 1

abbrev pub reason_yield : ℕ
reason_yield = 2

abbrev pub reason_exit : ℕ
reason_exit = 3

-- `state_reason`
abbrev pub state_reason : ℕ → ℕ
state_reason st =
    if st == 0
    then reason_preempt
    else if st == 4
    then reason_yield
    else if st == 1 || st == 2
    then reason_exit
    else reason_block

-- The variables of the accounting: `g_busy_us`, `g_isr_us`, `g_hooks_seen`, the current slice and
-- interrupt, the window's start, and what the window published (`none` is -1).
pub record Load : Type 0 where
  pub busy : ℕ → ℕ
  pub isr : ℕ
  pub seen : Bool
  pub slice_start : ℕ
  pub slice_isr : ℕ
  pub isr_start : ℕ
  pub isr_vec : ℕ
  pub started : Bool
  pub w_t0 : ℕ
  pub w_isr0 : ℕ
  pub w_th0 : ℕ → ℕ
  pub load_pm : Option ℕ
  pub isr_pm : Option ℕ
  pub win_ms : Option ℕ
  pub th_pm : ℕ → ℕ

-- The slice up to `t` less the interrupts in it
abbrev pub slice_time : Load → ℕ → ℕ
slice_time l t =
    let wall = sub32 t l.slice_start in if ltb l.slice_isr wall then sub32 wall l.slice_isr else 0

-- `_tx_execution_thread_exit` at `t`, of the thread numbered `id`; `real` is whether there is one.
unfoldable pub thread_exit_at : Bool → ℕ → ℕ → Load → Load
thread_exit_at real id t l = record l {
  busy = if real then update l.busy id (add32 (l.busy id) (slice_time l t)) else l.busy;
  seen = true;
}

-- `_tx_execution_thread_enter` at `t`
unfoldable pub thread_enter_at : ℕ → Load → Load
thread_enter_at t l = record l { slice_start = t; slice_isr = 0 }

-- `_tx_execution_isr_enter` at `t`
unfoldable pub isr_enter_at : ℕ → ℕ → Load → Load
isr_enter_at vec t l = record l { isr_vec = vec; isr_start = t }

-- `_tx_execution_isr_exit` at `t`
unfoldable pub isr_exit_at : ℕ → Load → Load
isr_exit_at t l = record l {
  slice_isr = add32 l.slice_isr (sub32 t l.isr_start);
  isr = add32 l.isr (sub32 t l.isr_start);
  seen = true;
}

-- LOAD_WIN_US
abbrev pub load_win_us : ℕ
load_win_us = 1000000

-- The copy `th`, with the running slice of the caller
abbrev pub now_busy : Option ℕ → ℕ → Load → ℕ → ℕ
now_busy none now l = l.busy
now_busy (some id) now l = update l.busy id (add32 (l.busy id) (slice_time l now))

-- `busy += d` over the first `n` threads
unfoldable pub add_all : (ℕ → ℕ) → ℕ → ℕ → ℕ
add_all d from zero = from
add_all d from (suc n) = add32 (add_all d from n) (d n)

-- The busy time of the window that ends at `now`
abbrev pub window_busy : (ℕ → ℕ) → Load → ℕ
window_busy th l = add_all (λ i. sub32 (th i) (l.w_th0 i)) (sub32 l.isr l.w_isr0) (suc max_threads)

-- The window that ends at `now` published; the casts to `int` and `short` keep what is below 2 ^ 15.
abbrev pub publish : (ℕ → ℕ) → ℕ → Load → Load
publish th now l =
    let dt = sub32 now l.w_t0 in
    record l {
      th_pm = λ i. if leb i max_threads then sub32 (th i) (l.w_th0 i) * 1000 / dt else l.th_pm i;
      isr_pm = if l.seen then some (sub32 l.isr l.w_isr0 * 1000 / dt) else l.isr_pm;
      load_pm = if l.seen then some (window_busy th l * 1000 / dt) else l.load_pm;
      win_ms = if l.seen then some (dt / 1000) else l.win_ms;
    }

-- `core_load_tick` past its guard, at `now`, called by the thread `current`; the call of
-- xcore_busy_watch is left out.
unfoldable pub window_at : Option ℕ → ℕ → Load → Load
window_at current now l =
    let th = now_busy current now l in
    let p = (if l.started then publish th now l else l) in
    record p {
      started = true;
      w_t0 = now;
      w_isr0 = l.isr;
      w_th0 = λ i. if leb i max_threads then th i else l.w_th0 i;
    }
