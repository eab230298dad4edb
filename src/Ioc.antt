-- ===== src/Ioc.antt =====
-- boards/common/ioc.h: the triple buffer that hands the latest value of a signal from one thread
-- to another.
pub mod Handoff
pub mod Single
mod Tests
use blobly_emb.Prelude.{
  ℕ, ◌+◌, ◌-◌, ◌*◌, ◌/◌, ◌%◌, ◌≤◌, ◌<◌, ◌≡◌, Bool, true, false, ◌&&◌, if◌then◌else◌, ltb, leb, ◌==◌,
  bit_or, low_bits, test_bit, memcpy,
}

-- IOC_FRESH, bit 2 of `shared`
abbrev pub ioc_fresh : ℕ
ioc_fresh = 0x04

-- IOC_ARENA_BYTES: `(3 * size + 31) & ~31`
abbrev pub arena_bytes : ℕ → ℕ
arena_bytes size = (3 * size + 31) / 32 * 32

-- `ioc_t`; the arena is the bytes from the pointer on.
pub record Ioc : Type 0 where
  pub arena : ℕ → ℕ
  pub size : ℕ
  pub shared : ℕ
  pub wr : ℕ
  pub rd : ℕ

-- `ioc_vcopy(arena + off, src, n)`
abbrev pub vcopy_to : (ℕ → ℕ) → ℕ → (ℕ → ℕ) → ℕ → ℕ → ℕ
vcopy_to arena off src n j = if leb off j && ltb j (off + n) then src (j - off) else arena j

-- `ioc_init`
unfoldable pub init : (ℕ → ℕ) → ℕ → Ioc
init arena size = record {
  arena = vcopy_to arena 0 (λ i. 0) (3 * size);
  size = size;
  shared = 0;
  wr = 1;
  rd = 2;
}

-- `ioc_write_bytes`
unfoldable pub write_bytes : Ioc → (ℕ → ℕ) → Ioc
write_bytes b v = record b {
  arena = vcopy_to b.arena (b.wr * b.size) v b.size;
  shared = bit_or b.wr ioc_fresh;
  wr = low_bits b.shared 2;
}

-- The reader's exchange, under the test of IOC_FRESH.
abbrev pub take : Ioc → Ioc
take b = if test_bit b.shared 2 then record b { shared = b.rd; rd = low_bits b.shared 2 } else b

-- `ioc_read_bytes` into `out`
unfoldable pub read_bytes : Ioc → (ℕ → ℕ) → Ioc × (ℕ → ℕ)
read_bytes b out = let b' = take b in (b', memcpy out (λ i. b'.arena (b'.rd * b'.size + i)) b'.size)

-- `ioc_read_bytes_ever` into `out`; the last component is `*ever`.
unfoldable pub read_bytes_ever : Ioc → (ℕ → ℕ) → Ioc × (ℕ → ℕ) × Bool
read_bytes_ever b out =
    let b' = take b in
    (b', memcpy out (λ i. b'.arena (b'.rd * b'.size + i)) b'.size, test_bit b.shared 2)
