-- ===== src/Xioc/Wide/Defs.antt =====
-- The steps of `xioc_n_write` and `xioc_n_read`, one shared word each.
use blobly_emb.Prelude.{ℕ, suc, ◌+◌, ◌≤◌, ◌<◌, ◌^◌, ◌≡◌, ◌≢◌, update, memcpy}
use blobly_emb.Xioc.{XiocN, xioc_max_words, slot_at, next_seq, init_n}
use blobly_emb.Xioc.Wide.Seq.{period, seq_of}

-- The channel, the reader's `*rd_seq` and `dst`, and a history: `val k` is the value of the k-th
-- publish, of which `begun` have begun and `done` are visible in `latest`.
pub record Mem : Type 0 where
  pub chan : XiocN
  pub rd_seq : ℕ
  pub dst : ℕ → ℕ
  pub val : ℕ → ℕ → ℕ
  pub begun : ℕ
  pub done : ℕ

abbrev pub with_cell : Mem → ℕ → ℕ → Mem
with_cell m j x = record m { chan = record (m.chan) { cell = update m.chan.cell j x } }

-- `n = ++c->wseq` (private to the writer), at the start of a publish of `v`
abbrev pub begin : Mem → (ℕ → ℕ) → Mem
begin m v = record m {
  chan = record (m.chan) { wseq = next_seq m.chan.wseq };
  val = update m.val (suc m.begun) v;
  begun = suc m.begun;
}

pub data Writer : Type 0 where
  idle : Writer
  numbered : (v : ℕ → ℕ) → Writer
  filling : (v : ℕ → ℕ) (i : ℕ) → Writer
  valid : Writer

-- `n` is the sequence number read, and `k` the number of its publish.
pub data Reader : Type 0 where
  idle : Reader
  called : Reader
  got_latest : (n k : ℕ) → Reader
  copying : (n k w : ℕ) (tmp : ℕ → ℕ) (i : ℕ) → Reader
  checked : (n k w : ℕ) (tmp : ℕ → ℕ) → Reader
  newer : (k : ℕ) → Reader

pub data WStep (m : Mem) : Writer → Mem → Writer → Type 0 where
  call : (v : ℕ → ℕ) → WStep m Writer.idle (begin m v) (Writer.numbered v)
  invalidate :
      {v : ℕ → ℕ}
      → WStep m
          (Writer.numbered v)
          (with_cell m (slot_at m.chan.wseq m.chan.words) 0)
          (Writer.filling v 0)
  store_word :
      {v : ℕ → ℕ} {i : ℕ}
      → i < m.chan.words
      → WStep m
          (Writer.filling v i)
          (with_cell m (slot_at m.chan.wseq m.chan.words + suc i) (v i))
          (Writer.filling v (suc i))
  validate :
      {v : ℕ → ℕ} {i : ℕ}
      → m.chan.words ≤ i
      → WStep m
          (Writer.filling v i)
          (with_cell m (slot_at m.chan.wseq m.chan.words) m.chan.wseq)
          Writer.valid
  publish :
      WStep m Writer.valid
        (record m { chan = record (m.chan) { latest = m.chan.wseq }; done = m.begun })
        Writer.idle

-- `dst_words` is the reader's own width.
pub data RStep (dst_words : ℕ) (m : Mem) : Reader → Mem → Reader → Type 0 where
  call : RStep dst_words m Reader.idle m Reader.called
  nothing : (m.chan.latest ≡ 0) → RStep dst_words m Reader.called m Reader.idle
  known : (m.chan.latest ≡ m.rd_seq) → RStep dst_words m Reader.called m Reader.idle
  load_latest :
      m.chan.latest ≢ 0
      → m.chan.latest ≢ m.rd_seq
      → RStep dst_words m Reader.called m (Reader.got_latest m.chan.latest m.done)
  refuse_width :
      {n k : ℕ} → m.chan.words ≢ dst_words → RStep dst_words m (Reader.got_latest n k) m Reader.idle
  refuse_max :
      {n k : ℕ}
      → xioc_max_words < m.chan.words
      → RStep dst_words m (Reader.got_latest n k) m Reader.idle
  load_words :
      {n k : ℕ}
      → m.chan.words ≡ dst_words
      → m.chan.words ≤ xioc_max_words
      → (tmp : ℕ → ℕ)
      → RStep dst_words m (Reader.got_latest n k) m (Reader.copying n k m.chan.words tmp 0)
  load_word :
      {n k w i : ℕ} {tmp : ℕ → ℕ}
      → i < w
      → RStep dst_words m
          (Reader.copying n k w tmp i)
          m
          (Reader.copying n k w (update tmp i (m.chan.cell (slot_at n w + suc i))) (suc i))
  lapped :
      {n k w i : ℕ} {tmp : ℕ → ℕ}
      → w ≤ i
      → m.chan.cell (slot_at n w) ≢ n
      → RStep dst_words m (Reader.copying n k w tmp i) m Reader.idle
  recheck :
      {n k w i : ℕ} {tmp : ℕ → ℕ}
      → w ≤ i
      → m.chan.cell (slot_at n w) ≡ n
      → RStep dst_words m (Reader.copying n k w tmp i) m (Reader.checked n k w tmp)
  commit :
      {n k w : ℕ} {tmp : ℕ → ℕ}
      → RStep dst_words m
          (Reader.checked n k w tmp)
          (record m { rd_seq = n; dst = memcpy m.dst tmp w })
          (Reader.newer k)
  return : {k : ℕ} → RStep dst_words m (Reader.newer k) m Reader.idle

pub record System : Type 0 where
  pub mem : Mem
  pub writer : Writer
  pub reader : Reader

pub data Step (dst_words : ℕ) (s : System) : System → Type 0 where
  write :
      {m : Mem} {w : Writer}
      → WStep s.mem s.writer m w
      → Step dst_words s (record s { mem = m; writer = w })
  read :
      {m : Mem} {r : Reader}
      → RStep dst_words s.mem s.reader m r
      → Step dst_words s (record s { mem = m; reader = r })

pub data Reach (dst_words : ℕ) (s : System) : System → Type 0 where
  here : Reach dst_words s s
  next : {t u : System} → Reach dst_words s t → Step dst_words t u → Reach dst_words s u

-- After `xioc_n_init` with the seed, whatever the reader holds from before.
abbrev pub start : XiocN → ℕ → ℕ → ℕ → (ℕ → ℕ) → System
start c words seed rd_seq dst = record {
  mem = record {
    chan = init_n c words seed;
    rd_seq = rd_seq;
    dst = dst;
    val = λ k i. 0;
    begun = 0;
    done = 0;
  };
  writer = Writer.idle;
  reader = Reader.idle;
}

-- The slot of the publish `k` with number `n` holds the whole value.
abbrev pub Holds : Mem → ℕ → ℕ → Type 0
Holds m n k = (j : ℕ) → j < m.chan.words → m.chan.cell (slot_at n m.chan.words + suc j) ≡ m.val k j

-- While fewer than a period of publishes have begun since `k`, its slot holds the whole value, or
-- the slot's sequence word differs from `n`.
abbrev pub Guarded : Mem → ℕ → ℕ → Type 0
Guarded m n k = m.begun < k + period → m.chan.cell (slot_at n m.chan.words) ≡ n → Holds m n k

abbrev pub WriterOk : Mem → Writer → Type 0
WriterOk m Writer.idle = m.done ≡ m.begun
WriterOk m (Writer.numbered v) = (m.begun ≡ suc m.done) × ((j : ℕ) → m.val m.begun j ≡ v j)
WriterOk m (Writer.filling v i) =
    (m.begun ≡ suc m.done)
    × ((j : ℕ) → m.val m.begun j ≡ v j)
    × (m.chan.cell (slot_at m.chan.wseq m.chan.words) ≡ 0)
    × (i ≤ m.chan.words)
    × ((j : ℕ) → j < i → m.chan.cell (slot_at m.chan.wseq m.chan.words + suc j) ≡ m.val m.begun j)
WriterOk m Writer.valid = (m.begun ≡ suc m.done) × Holds m m.chan.wseq m.begun

-- The history and the shared words.
pub record MemOk (seed : ℕ) (m : Mem) : Type 0 where
  pub seed_word : seed < 2 ^ 32
  pub numbers : m.chan.wseq ≡ seq_of seed m.begun
  pub order : m.done ≤ m.begun
  pub at_latest : 0 < m.done → m.chan.latest ≡ seq_of seed m.done
  pub none_yet : m.done ≡ 0 → m.chan.latest ≡ 0
  pub guarded : 0 < m.done → Guarded m (seq_of seed m.done) m.done

-- The number read is that of a publish that was visible.
abbrev pub Known : ℕ → Mem → ℕ → ℕ → Type 0
Known seed m n k = (n ≡ seq_of seed k) × (0 < k) × (k ≤ m.done) × Guarded m n k

abbrev pub ReaderOk : ℕ → ℕ → Mem → Reader → Type 0
ReaderOk seed dst_words m Reader.idle = Unit {0}
ReaderOk seed dst_words m Reader.called = Unit {0}
ReaderOk seed dst_words m (Reader.got_latest n k) = Known seed m n k
ReaderOk seed dst_words m (Reader.copying n k w tmp i) =
    Known seed m n k
    × (w ≡ m.chan.words)
    × (w ≡ dst_words)
    × (i ≤ w)
    × (m.begun < k + period
        → m.chan.cell (slot_at n m.chan.words) ≡ n
        → (j : ℕ) → j < i
        → tmp j ≡ m.val k j)
ReaderOk seed dst_words m (Reader.checked n k w tmp) =
    (n ≡ seq_of seed k)
    × (0 < k)
    × (k ≤ m.done)
    × (w ≡ dst_words)
    × (m.begun < k + period → (j : ℕ) → j < w → tmp j ≡ m.val k j)
ReaderOk seed dst_words m (Reader.newer k) =
    (m.rd_seq ≡ seq_of seed k)
    × (0 < k)
    × (k ≤ m.done)
    × (m.begun < k + period → (j : ℕ) → j < dst_words → m.dst j ≡ m.val k j)
