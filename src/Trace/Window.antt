-- ===== src/Trace/Window.antt =====
-- boards/common/trace_hooks.c: the shares that a window publishes.
use blobly_emb.Prelude.{ℕ, false, none}
use blobly_emb.Trace.Load.{Load}
use blobly_emb.Trace.Account.{Timed}

-- Reads at boot, before any thread runs.
abbrev pub boot : Load → ℕ → Timed
boot l now = record {
  load = record l { busy = λ i. 0; isr = 0; started = false };
  now = now;
  current = none;
}
