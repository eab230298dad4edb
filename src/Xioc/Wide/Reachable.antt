-- ===== src/Xioc/Wide/Reachable.antt =====
-- What holds of every interleaving of the writer and the reader of a wide channel.
use blobly_emb.Prelude.{ℕ, ◌+◌, ◌≤◌, ◌<◌, ◌^◌, ◌≡◌, refl, subst, arith}
use blobly_emb.Xioc.{XiocN, init_n}
use blobly_emb.Xioc.Wide.Seq.{period, seq_of, seq_of-zero}
use blobly_emb.Xioc.Wide.Defs.{
  Reader, System, Step, write, read, Reach, here, next, start, WriterOk, MemOk, ReaderOk,
}
use blobly_emb.Xioc.Wide.Writer.{WStep-WriterOk, WStep-MemOk}
use blobly_emb.Xioc.Wide.Reader.{WStep-ReaderOk, RStep-ReaderOk, RStep-MemOk, RStep-WriterOk}

record Inv (seed dst_words : ℕ) (s : System) : Type 0 where
  memory : MemOk seed s.mem
  writer : WriterOk s.mem s.writer
  reader : ReaderOk seed dst_words s.mem s.reader

Step-Inv :
    {seed dst_words : ℕ} {s t : System}
    → Step dst_words s t
    → Inv seed dst_words s
    → Inv seed dst_words t
Step-Inv {dst_words} {s} (write st) inv = record {
  memory = WStep-MemOk inv.memory st inv.writer;
  writer = WStep-WriterOk inv.memory st inv.writer;
  reader = WStep-ReaderOk dst_words inv.memory st inv.writer s.reader inv.reader;
}
Step-Inv {dst_words} {s} (read st) inv = record {
  memory = RStep-MemOk dst_words inv.memory st;
  writer = RStep-WriterOk dst_words inv.memory st s.writer inv.writer;
  reader = RStep-ReaderOk dst_words inv.memory st inv.reader;
}

module _ (c : XiocN) (words seed rd_seq : ℕ) (dst : ℕ → ℕ) (dst_words : ℕ)
    (small : seed < 2 ^ 32) where
  start-Inv : Inv seed dst_words (start c words seed rd_seq dst)
  unfolding init_n
  start-Inv = record {
    memory = record {
      seed_word = small;
      numbers = seq_of-zero seed;
      order = omega arith;
      at_latest = λ pos. absurd (omega arith);
      none_yet = λ z. refl;
      guarded = λ pos. absurd (omega arith);
    };
    writer = refl;
    reader = tt;
  }

  Reach-Inv :
      {s : System} → Reach dst_words (start c words seed rd_seq dst) s → Inv seed dst_words s
  Reach-Inv here = start-Inv
  Reach-Inv (next rs st) = Step-Inv st (Reach-Inv rs)

  -- After `xioc_n_init`, under every interleaving of the writer's and the reader's shared
  -- accesses: when `xioc_n_read` returns 1, `dst` holds the whole of the value of one publish `k`
  -- that was already visible, provided that fewer than 2 ^ 32 - 1 publishes have begun since; and
  -- `*rd_seq` is the number of that publish, the k-th after the seed.
  pub never_torn :
      (k : ℕ) {s : System}
      → Reach dst_words (start c words seed rd_seq dst) s
      → s.reader ≡ Reader.newer k
      → s.mem.begun < k + period
      → ((j : ℕ) → j < dst_words → s.mem.dst j ≡ s.mem.val k j)
        × (s.mem.rd_seq ≡ seq_of seed k)
        × (0 < k)
        × (k ≤ s.mem.done)
  never_torn k {s} rs e near =
      let l = subst (ReaderOk seed dst_words s.mem) e (Reach-Inv rs).reader in
      (l.3 near, l.0, l.1, l.2)
