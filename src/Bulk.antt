-- ===== src/Bulk.antt =====
-- boards/common/bulk.h: a pool of buffers that two sides hand to each other by index, over two
-- rings of descriptors.
pub mod Rings
pub mod Session
pub mod Ownership
pub mod Pool
mod Tests
use blobly_emb.Prelude.{
  ℕ, suc, ◌+◌, ◌*◌, ◌/◌, ◌%◌, Bool, if◌then◌else◌, ◌==◌, Option, none, some, update, add32, sub32,
  ltb,
}

-- BULK_MAGIC
abbrev pub bulk_magic : ℕ
bulk_magic = 0x424C4B31

-- BULK_HDR_BYTES, BULK_BYTES
abbrev pub hdr_bytes : ℕ
hdr_bytes = 96

abbrev pub array_bytes : ℕ → ℕ
array_bytes nbuf = (3 * 4 * nbuf + 31) / 32 * 32

abbrev pub bulk_bytes : ℕ → ℕ → ℕ
bulk_bytes nbuf bufsz = hdr_bytes + array_bytes nbuf + nbuf * bufsz

-- `bulk_t`, with the three arrays of `nbuf` words that follow it in the region.
pub record Bulk : Type 0 where
  pub magic : ℕ
  pub nbuf : ℕ
  pub bufsz : ℕ
  pub r_head : ℕ
  pub f_tail : ℕ
  pub overflows : ℕ
  pub r_tail : ℕ
  pub f_head : ℕ
  pub free_ring : ℕ → ℕ
  pub ready_ring : ℕ → ℕ
  pub len_arr : ℕ → ℕ

-- `bulk_buf`, as an offset into the region
unfoldable pub buf_offset : Bulk → ℕ → ℕ
buf_offset b idx = hdr_bytes + array_bytes b.nbuf + idx * b.bufsz

-- `bulk_init` over a region that held `b`
unfoldable pub init : Bulk → ℕ → ℕ → Bulk
init b nbuf bufsz = record {
  magic = bulk_magic;
  nbuf = nbuf;
  bufsz = bufsz;
  r_head = 0;
  f_tail = 0;
  overflows = 0;
  r_tail = 0;
  f_head = nbuf;
  free_ring = λ i. if ltb i nbuf then i else b.free_ring i;
  ready_ring = b.ready_ring;
  len_arr = b.len_arr;
}

-- `bulk_valid`
unfoldable pub valid : Bulk → Bool
valid b = b.magic == bulk_magic

-- `bulk_loan`; `none` is -1.
unfoldable pub loan : Bulk → Option ℕ × Bulk
loan b =
    if b.f_tail == b.f_head
    then (none, record b { overflows = add32 b.overflows 1 })
    else (some (b.free_ring (b.f_tail % b.nbuf)), record b { f_tail = add32 b.f_tail 1 })

-- `bulk_publish`
unfoldable pub publish : Bulk → ℕ → ℕ → Bulk
publish b idx len = record b {
  len_arr = update b.len_arr idx len;
  ready_ring = update b.ready_ring (b.r_head % b.nbuf) idx;
  r_head = add32 b.r_head 1;
}

-- `bulk_ready`
unfoldable pub ready : Bulk → ℕ
ready b = sub32 b.r_head b.r_tail

-- `bulk_take`: the index and `*len`; `none` is -1.
unfoldable pub take : Bulk → Option (ℕ × ℕ) × Bulk
take b =
    if b.r_tail == b.r_head
    then (none, b)
    else let idx = b.ready_ring (b.r_tail % b.nbuf) in
      (some (idx, b.len_arr idx), record b { r_tail = add32 b.r_tail 1 })

-- `bulk_release`
unfoldable pub release : Bulk → ℕ → Bulk
release b idx = record b {
  free_ring = update b.free_ring (b.f_head % b.nbuf) idx;
  f_head = add32 b.f_head 1;
}
