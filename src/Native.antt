-- ===== src/Native.antt =====
-- osal/osal_native.c: the three kinds of channel between the cores of a simulation, each call whole.
-- Child modules: Calls has one call after another, Latest every sequence of calls of the triple buffer.
mod Calls
mod Latest
mod Tests
use blobly_emb.Prelude.{
  ℕ, zero, suc, ◌+◌, ◌*◌, ◌/◌, ◌-◌, ◌%◌, ◌^◌, ℤ, pos, negsuc, Bool, true, false, not, ◌&&◌, ◌||◌,
  if◌then◌else◌, ltb, leb, ◌==◌, Option, none, some, update, add32, low_bits, test_bit, bit_or,
}

-- IOC_SLOTS, DB_SLOTS and DB2_SLOTS; IOC_MAX; DB_DIRTY
abbrev pub channels : ℕ
channels = 256

abbrev pub ioc_max : ℕ
ioc_max = 64

abbrev pub db_dirty : ℕ
db_dirty = 4

-- `ioc_slot_t`, `db_slot_t` and `db2_slot_t`
pub record SeqSlot : Type 0 where
  pub seq : ℕ
  pub len : ℕ
  pub bytes : ℕ → ℕ

pub record TripleSlot : Type 0 where
  pub shared : ℕ
  pub wb : ℕ
  pub rf : ℕ
  pub len : ℕ → ℕ
  pub buf : ℕ → ℕ → ℕ

pub record PairSlot : Type 0 where
  pub active : ℕ
  pub len : ℕ → ℕ
  pub buf : ℕ → ℕ → ℕ

-- `vcopy(dst, src, n)`
abbrev pub vcopy : (ℕ → ℕ) → (ℕ → ℕ) → ℕ → ℕ → ℕ
vcopy dst src n i = if ltb i n then src i else dst i

-- `if (len > max_len) len = max_len`
abbrev pub at_most : ℕ → ℕ → ℕ
at_most len max_len = if ltb max_len len then max_len else len

-- `init_db_indices` of one channel
abbrev pub init_indices : TripleSlot → TripleSlot
init_indices s = record s { shared = 1; wb = 0; rf = 2 }

-- The stores of `blob_ioc_write` to its channel
abbrev pub write_slot : SeqSlot → (ℕ → ℕ) → ℕ → SeqSlot
write_slot s src len = record {
  seq = add32 (add32 s.seq 1) 1;
  len = len;
  bytes = vcopy s.bytes src len;
}

unfoldable pub ioc_write : (ℕ → SeqSlot) → ℤ → (ℕ → ℕ) → ℕ → ℕ → SeqSlot
ioc_write g (negsuc k) src len = g
ioc_write g (pos idx) src len =
    if leb channels idx || ltb ioc_max len then g else update g idx (write_slot (g idx) src len)

-- One round of the loop of `blob_ioc_read` while no writer is at work: `none` where it goes round
-- again, else the result and the buffer
abbrev pub read_slot : SeqSlot → (ℕ → ℕ) → ℕ → Option (ℕ × (ℕ → ℕ))
read_slot s dst max_len =
    if s.seq == 0
    then some (0, dst)
    else if test_bit s.seq 0
    then none
    else some (1, vcopy dst s.bytes (at_most s.len max_len))

unfoldable pub ioc_read : (ℕ → SeqSlot) → ℤ → (ℕ → ℕ) → ℕ → Option (ℕ × (ℕ → ℕ))
ioc_read g (negsuc k) dst max_len = some (0, dst)
ioc_read g (pos idx) dst max_len =
    if leb channels idx then some (0, dst) else read_slot (g idx) dst max_len

-- `blob_ioc_pub`
abbrev pub pub_slot : TripleSlot → (ℕ → ℕ) → ℕ → TripleSlot
pub_slot s src len = record s {
  len = update s.len s.wb len;
  buf = update s.buf s.wb (vcopy (s.buf s.wb) src len);
  shared = bit_or s.wb db_dirty;
  wb = low_bits s.shared 2;
}

unfoldable pub ioc_pub : (ℕ → TripleSlot) → ℤ → (ℕ → ℕ) → ℕ → ℕ → TripleSlot
ioc_pub g (negsuc k) src len = g
ioc_pub g (pos idx) src len =
    if leb channels idx || ltb ioc_max len then g else update g idx (pub_slot (g idx) src len)

-- The exchange of the two readers, where a buffer was published
abbrev pub take_slot : TripleSlot → TripleSlot
take_slot s =
    if test_bit s.shared 2 then record s { shared = s.rf; rf = low_bits s.shared 2 } else s

-- The copy of the two readers
abbrev pub copied : TripleSlot → (ℕ → ℕ) → ℕ → ℕ → ℕ
copied s dst max_len = vcopy dst (s.buf s.rf) (at_most (s.len s.rf) max_len)

-- `blob_ioc_acq_fresh` and `blob_ioc_acq` of a channel: the result, the buffer, and the channel
abbrev pub acq_fresh_slot : TripleSlot → (ℕ → ℕ) → ℕ → (Bool × (ℕ → ℕ)) × TripleSlot
acq_fresh_slot s dst max_len =
    let t = take_slot s in
    ((test_bit s.shared 2 && ltb 0 (at_most (t.len t.rf) max_len), copied t dst max_len), t)

abbrev pub acq_slot : TripleSlot → (ℕ → ℕ) → ℕ → (Bool × (ℕ → ℕ)) × TripleSlot
acq_slot s dst max_len =
    let t = take_slot s in ((ltb 0 (at_most (t.len t.rf) max_len), copied t dst max_len), t)

abbrev pub on_channel :
    (TripleSlot → (Bool × (ℕ → ℕ)) × TripleSlot)
    → (ℕ → TripleSlot)
    → ℤ
    → (ℕ → ℕ)
    → (Bool × (ℕ → ℕ)) × (ℕ → TripleSlot)
on_channel call g (negsuc k) dst = ((false, dst), g)
on_channel call g (pos idx) dst =
    if leb channels idx
    then ((false, dst), g)
    else ((call (g idx)).0, update g idx (call (g idx)).1)

abbrev pub ioc_acq_fresh : (ℕ → TripleSlot) → ℤ → (ℕ → ℕ) → ℕ → (Bool × (ℕ → ℕ)) × (ℕ → TripleSlot)
ioc_acq_fresh g idx dst max_len = on_channel (λ s. acq_fresh_slot s dst max_len) g idx dst

abbrev pub ioc_acq : (ℕ → TripleSlot) → ℤ → (ℕ → ℕ) → ℕ → (Bool × (ℕ → ℕ)) × (ℕ → TripleSlot)
ioc_acq g idx dst max_len = on_channel (λ s. acq_slot s dst max_len) g idx dst

-- `blob_ioc_pub2` and `blob_ioc_acq2`
abbrev pub pub2_slot : PairSlot → (ℕ → ℕ) → ℕ → PairSlot
pub2_slot s src len =
    let w = if s.active == 0 then 1 else 0 in
    record { len = update s.len w len; buf = update s.buf w (vcopy (s.buf w) src len); active = w }

unfoldable pub ioc_pub2 : (ℕ → PairSlot) → ℤ → (ℕ → ℕ) → ℕ → ℕ → PairSlot
ioc_pub2 g (negsuc k) src len = g
ioc_pub2 g (pos idx) src len =
    if leb channels idx || ltb ioc_max len then g else update g idx (pub2_slot (g idx) src len)

unfoldable pub ioc_acq2 : (ℕ → PairSlot) → ℤ → (ℕ → ℕ) → ℕ → Bool × (ℕ → ℕ)
ioc_acq2 g (negsuc k) dst max_len = (false, dst)
ioc_acq2 g (pos idx) dst max_len =
    if leb channels idx
    then (false, dst)
    else let s = g idx in
      let n = at_most (s.len s.active) max_len in (ltb 0 n, vcopy dst (s.buf s.active) n)
