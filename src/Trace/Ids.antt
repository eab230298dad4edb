-- ===== src/Trace/Ids.antt =====
-- boards/common/trace_hooks.c: the small numbers of the threads.
use blobly_emb.Prelude.{ℕ, zero, suc, if◌then◌else◌, ltb, ◌==◌, Option, none, some, update}

-- MAX_THREADS
abbrev pub max_threads : ℕ
max_threads = 8

-- `g_tid_ptr`, `g_tid_n`; a null pointer is 0.
pub record Ids : Type 0 where
  pub ptr : ℕ → ℕ
  pub n : ℕ

-- The search of the first `n` entries from entry `i` on.
unfoldable pub find : (ℕ → ℕ) → ℕ → ℕ → ℕ → Option ℕ
find ptr p i zero = none
find ptr p i (suc n) = let later = find ptr p (suc i) n in if ptr i == p then some i else later

-- `trace_bind_thread`
unfoldable pub bind_thread : Ids → ℕ → Ids
bind_thread t tcb =
    if ltb t.n max_threads then record { ptr = update t.ptr t.n tcb; n = suc t.n } else t

-- What `thread_id` does with the result of the search.
abbrev pub id_or_new : Ids → ℕ → Option ℕ → ℕ × Ids
id_or_new t p (some i) = (suc i, t)
id_or_new t p none =
    if ltb t.n max_threads
    then (suc t.n, record { ptr = update t.ptr t.n p; n = suc t.n })
    else (0, t)

-- `thread_id`
unfoldable pub thread_id : Ids → ℕ → ℕ × Ids
thread_id t p = if p == 0 then (0, t) else id_or_new t p (find t.ptr p 0 t.n)
