-- ===== src/Ioc/Handoff/Defs.antt =====
-- The steps of `ioc_write_bytes` and `ioc_read_bytes_ever`, one shared access each.
use blobly_emb.Prelude.{
  ℕ, suc, ◌+◌, ◌*◌, ◌≤◌, ◌<◌, ◌≡◌, ◌≢◌, Bool, true, false, update, bit_or, low_bits, test_bit,
}
use blobly_emb.Ioc.{Ioc, ioc_fresh, init}

-- The channel, and a history: `val k` is the k-th published value (0 is the zeroed channel),
-- `pub_n` the number published, `rd_k` the number of the value in the reader's slot.
pub record Mem : Type 0 where
  pub ioc : Ioc
  pub val : ℕ → ℕ → ℕ
  pub pub_n : ℕ
  pub rd_k : ℕ

-- In `ioc_write_bytes`: `i` bytes of `v` copied; the exchange done and `wr` not yet set.
pub data Writer : Type 0 where
  idle : Writer
  filling : (v : ℕ → ℕ) (i : ℕ) → Writer
  swapped : (prev : ℕ) → Writer

-- In `ioc_read_bytes_ever`. `since` is the number published when the call began; at `finished` it
-- has returned.
pub data Reader : Type 0 where
  idle : Reader
  called : (out : ℕ → ℕ) (since : ℕ) → Reader
  fresh : (out : ℕ → ℕ) (since : ℕ) → Reader
  swapped : (out : ℕ → ℕ) (since prev : ℕ) → Reader
  reading : (out : ℕ → ℕ) (since : ℕ) (ever : Bool) (i : ℕ) → Reader
  finished : (out : ℕ → ℕ) (since : ℕ) (ever : Bool) → Reader

abbrev pub with_byte : Mem → ℕ → ℕ → Mem
with_byte m j x = record m { ioc = record (m.ioc) { arena = update m.ioc.arena j x } }

-- The writer's exchange publishes `v`.
abbrev pub publish : Mem → (ℕ → ℕ) → Mem
publish m v = record m {
  ioc = record (m.ioc) { shared = bit_or m.ioc.wr ioc_fresh };
  val = update m.val (suc m.pub_n) v;
  pub_n = suc m.pub_n;
}

-- The reader's exchange takes the value published last.
abbrev pub exchange : Mem → Mem
exchange m = record m { ioc = record (m.ioc) { shared = m.ioc.rd }; rd_k = m.pub_n }

pub data WStep (m : Mem) : Writer → Mem → Writer → Type 0 where
  call : (v : ℕ → ℕ) → WStep m Writer.idle m (Writer.filling v 0)
  store_byte :
      {v : ℕ → ℕ} {i : ℕ}
      → i < m.ioc.size
      → WStep m
          (Writer.filling v i)
          (with_byte m (m.ioc.wr * m.ioc.size + i) (v i))
          (Writer.filling v (suc i))
  swap :
      {v : ℕ → ℕ} {i : ℕ}
      → m.ioc.size ≤ i
      → WStep m (Writer.filling v i) (publish m v) (Writer.swapped m.ioc.shared)
  set_wr :
      {prev : ℕ}
      → WStep m
          (Writer.swapped prev)
          (record m { ioc = record (m.ioc) { wr = low_bits prev 2 } })
          Writer.idle

pub data RStep (m : Mem) : Reader → Mem → Reader → Type 0 where
  call : (out : ℕ → ℕ) → RStep m Reader.idle m (Reader.called out m.pub_n)
  see_fresh :
      {out : ℕ → ℕ} {since : ℕ}
      → test_bit m.ioc.shared 2 ≡ true
      → RStep m (Reader.called out since) m (Reader.fresh out since)
  see_stale :
      {out : ℕ → ℕ} {since : ℕ}
      → test_bit m.ioc.shared 2 ≡ false
      → RStep m (Reader.called out since) m (Reader.reading out since false 0)
  swap :
      {out : ℕ → ℕ} {since : ℕ}
      → RStep m (Reader.fresh out since) (exchange m) (Reader.swapped out since m.ioc.shared)
  set_rd :
      {out : ℕ → ℕ} {since prev : ℕ}
      → RStep m
          (Reader.swapped out since prev)
          (record m { ioc = record (m.ioc) { rd = low_bits prev 2 } })
          (Reader.reading out since (test_bit prev 2) 0)
  load_byte :
      {out : ℕ → ℕ} {since : ℕ} {ever : Bool} {i : ℕ}
      → i < m.ioc.size
      → RStep m (Reader.reading out since ever i) m (
          Reader.reading
            (update out i (m.ioc.arena (m.ioc.rd * m.ioc.size + i)))
            since
            ever
            (suc i))
  finish :
      {out : ℕ → ℕ} {since : ℕ} {ever : Bool} {i : ℕ}
      → m.ioc.size ≤ i
      → RStep m (Reader.reading out since ever i) m (Reader.finished out since ever)
  return :
      {out : ℕ → ℕ} {since : ℕ} {ever : Bool}
      → RStep m (Reader.finished out since ever) m Reader.idle

pub record System : Type 0 where
  pub mem : Mem
  pub writer : Writer
  pub reader : Reader

pub data Step (s : System) : System → Type 0 where
  write :
      {m : Mem} {w : Writer} → WStep s.mem s.writer m w → Step s (record s { mem = m; writer = w })
  read :
      {m : Mem} {r : Reader} → RStep s.mem s.reader m r → Step s (record s { mem = m; reader = r })

-- After `ioc_init`, with no call under way.
abbrev pub start : (ℕ → ℕ) → ℕ → System
start arena size = record {
  mem = record { ioc = init arena size; val = λ k i. 0; pub_n = 0; rd_k = 0 };
  writer = Writer.idle;
  reader = Reader.idle;
}

pub data Reach (s : System) : System → Type 0 where
  here : Reach s s
  next : {t u : System} → Reach s t → Step t u → Reach s u

-- The slot that is the writer's, and the reader's: between the exchange and the assignment it is
-- the one that the exchange returned.
abbrev pub writer_slot : Mem → Writer → ℕ
writer_slot m (Writer.swapped prev) = low_bits prev 2
writer_slot m _ = m.ioc.wr

abbrev pub reader_slot : Mem → Reader → ℕ
reader_slot m (Reader.swapped out since prev) = low_bits prev 2
reader_slot m _ = m.ioc.rd

-- Slot `s` holds the whole of value `k`.
abbrev pub Holds : Mem → ℕ → ℕ → Type 0
Holds m s k = (i : ℕ) → i < m.ioc.size → m.ioc.arena (s * m.ioc.size + i) ≡ m.val k i

-- The three slots are owned by the writer (`w`), the middle and the reader (`r`), one each; the
-- reader's slot holds a whole value; the middle holds the latest if it is fresh, and otherwise
-- the reader's slot does.
pub record Owned (m : Mem) (w r : ℕ) : Type 0 where
  pub w_lt : w < 3
  pub mid_lt : low_bits m.ioc.shared 2 < 3
  pub r_lt : r < 3
  pub w_mid : w ≢ low_bits m.ioc.shared 2
  pub w_r : w ≢ r
  pub r_mid : r ≢ low_bits m.ioc.shared 2
  pub held : Holds m r m.rd_k
  pub latest : test_bit m.ioc.shared 2 ≡ true → Holds m (low_bits m.ioc.shared 2) m.pub_n
  pub caught_up : test_bit m.ioc.shared 2 ≡ false → m.rd_k ≡ m.pub_n
  pub behind : m.rd_k ≤ m.pub_n
  pub fresh_pos : test_bit m.ioc.shared 2 ≡ true → 0 < m.pub_n

abbrev pub WriterOk : Mem → Writer → Type 0
WriterOk m Writer.idle = Unit {0}
WriterOk m (Writer.filling v i) =
    (i ≤ m.ioc.size) × ((j : ℕ) → j < i → m.ioc.arena (m.ioc.wr * m.ioc.size + j) ≡ v j)
WriterOk m (Writer.swapped prev) = Unit {0}

abbrev pub ReaderOk : Mem → Reader → Type 0
ReaderOk m Reader.idle = Unit {0}
ReaderOk m (Reader.called out since) = since ≤ m.pub_n
ReaderOk m (Reader.fresh out since) = (since ≤ m.pub_n) × (test_bit m.ioc.shared 2 ≡ true)
ReaderOk m (Reader.swapped out since prev) = (since ≤ m.rd_k) × (0 < m.rd_k)
ReaderOk m (Reader.reading out since ever i) =
    (since ≤ m.rd_k)
    × (i ≤ m.ioc.size)
    × ((j : ℕ) → j < i → out j ≡ m.val m.rd_k j)
    × (ever ≡ true → 0 < m.rd_k)
ReaderOk m (Reader.finished out since ever) =
    (since ≤ m.rd_k)
    × ((j : ℕ) → j < m.ioc.size → out j ≡ m.val m.rd_k j)
    × (ever ≡ true → 0 < m.rd_k)

pub record Inv (s : System) : Type 0 where
  pub owned : Owned s.mem (writer_slot s.mem s.writer) (reader_slot s.mem s.reader)
  pub writer : WriterOk s.mem s.writer
  pub reader : ReaderOk s.mem s.reader
