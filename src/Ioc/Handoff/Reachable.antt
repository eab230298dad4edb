-- ===== src/Ioc/Handoff/Reachable.antt =====
-- What holds of every interleaving of the writer and the reader of a channel.
use blobly_emb.Prelude.{ℕ, ◌≤◌, ◌<◌, ◌≡◌, ◌≢◌, refl, subst, arith, Bool, true, low_bits}
use blobly_emb.Ioc.{init}
use blobly_emb.Ioc.Handoff.Defs.{
  Reader, System, Step, write, read, start, Reach, here, next, writer_slot, reader_slot, ReaderOk,
  Inv,
}
use blobly_emb.Ioc.Handoff.Steps.{
  reader_slot_kept, writer_slot_kept, WStep-Owned, WStep-WriterOk, WStep-ReaderOk, RStep-Owned,
  RStep-WriterOk, RStep-ReaderOk,
}

Step-Inv : {s t : System} → Step s t → Inv s → Inv t
Step-Inv {s} (write st) inv = record {
  owned = rw (← reader_slot_kept st s.reader) (WStep-Owned st inv.writer inv.owned);
  writer = WStep-WriterOk st inv.writer;
  reader = WStep-ReaderOk st inv.owned s.reader inv.reader;
}
Step-Inv {s} (read st) inv = record {
  owned = rw (← writer_slot_kept st s.writer) (RStep-Owned st inv.reader inv.owned);
  writer = RStep-WriterOk st s.writer inv.writer;
  reader = RStep-ReaderOk st inv.owned inv.reader;
}

start-Inv : (arena : ℕ → ℕ) (size : ℕ) → Inv (start arena size)
unfolding init
start-Inv arena size = record {
  owned = record {
    w_lt = omega arith;
    mid_lt = omega arith;
    r_lt = omega arith;
    w_mid = omega arith;
    w_r = omega arith;
    r_mid = omega arith;
    held = λ i lt. ground arith;
    latest = λ q. cc;
    caught_up = λ q. refl;
    behind = omega arith;
    fresh_pos = λ q. cc;
  };
  writer = tt;
  reader = tt;
}

pub Reach-Inv : (arena : ℕ → ℕ) (size : ℕ) {s : System} → Reach (start arena size) s → Inv s
Reach-Inv arena size here = start-Inv arena size
Reach-Inv arena size (next rs st) = Step-Inv st (Reach-Inv arena size rs)

-- Under every interleaving of the writer's and the reader's accesses, a read that returns has
-- filled the caller's buffer with one whole published value (or the zeroes of `ioc_init`), number
-- `rd_k`, that is at least as recent as the last one published when the call began; and if it sets
-- `*ever`, a value has been published.
pub whole_and_fresh :
    (arena : ℕ → ℕ) (size : ℕ) {s : System} (out : ℕ → ℕ) (since : ℕ) (ever : Bool)
    → Reach (start arena size) s
    → s.reader ≡ Reader.finished out since ever
    → ((i : ℕ) → i < s.mem.ioc.size → out i ≡ s.mem.val s.mem.rd_k i)
      × (since ≤ s.mem.rd_k)
      × (s.mem.rd_k ≤ s.mem.pub_n)
      × (ever ≡ true → 0 < s.mem.rd_k)
whole_and_fresh arena size {s} out since ever rs e =
    let inv = Reach-Inv arena size rs in
    let k = subst (ReaderOk s.mem) e inv.reader in (k.1, k.0, inv.owned.behind, k.2)

-- Under every interleaving, the slot that the writer fills, the slot in the middle and the slot
-- that the reader copies from are three different ones of the three.
pub slots_distinct :
    (arena : ℕ → ℕ) (size : ℕ) {s : System}
    → Reach (start arena size) s
    → let w = writer_slot s.mem s.writer in
      let r = reader_slot s.mem s.reader in
      let mid = low_bits s.mem.ioc.shared 2 in
      (w < 3) × (mid < 3) × (r < 3) × (w ≢ mid) × (w ≢ r) × (r ≢ mid)
slots_distinct arena size rs =
    let own = (Reach-Inv arena size rs).owned in
    (own.w_lt, own.mid_lt, own.r_lt, own.w_mid, own.w_r, own.r_mid)
