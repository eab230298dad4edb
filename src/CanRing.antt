-- ===== src/CanRing.antt =====
-- driver/can/can_ring.h: the ring of CAN frames between an interrupt and the bridge's tick.
pub mod Queue
pub mod Spsc
mod Tests
use blobly_emb.Prelude.{
  ℕ, ◌≡◌, Bool, Status, ok, fail, if◌then◌else◌, leb, ltb, ◌==◌, Option, none, some, update, memcpy,
  add32, sub32, low_bits,
}

-- BLOB_CAN_RING_CAP
abbrev pub cap : ℕ
cap = 32

-- `blob_can_msg`: the 64 bytes of `data` are an array.
pub record Msg : Type 0 where
  pub id : ℕ
  pub len : ℕ
  pub bytes : ℕ → ℕ

-- `blob_can_ring`
pub record Ring : Type 0 where
  pub slot : ℕ → Msg
  pub head : ℕ
  pub tail : ℕ

-- `h & (BLOB_CAN_RING_CAP - 1u)`
abbrev pub slot_of : ℕ → ℕ
slot_of h = low_bits h 5

-- `if (len > 64) len = 64`
abbrev pub clamp : ℕ → ℕ
clamp len = if ltb 64 len then 64 else len

-- What the producer writes into a slot; bytes from `len` on stay.
abbrev pub fill : Msg → ℕ → (ℕ → ℕ) → ℕ → Msg
fill m id d n = record { id = id; len = n; bytes = memcpy m.bytes d n }

-- `blob_ring_push`
unfoldable pub push : Ring → ℕ → (ℕ → ℕ) → ℕ → Status × Ring
push r id d len = if leb cap (sub32 r.head r.tail) then (fail, r) else (
  ok,
  record r {
    slot = update r.slot (slot_of r.head) (fill (r.slot (slot_of r.head)) id d (clamp len));
    head = add32 r.head 1;
  },
)

-- What `blob_ring_pop` writes through its pointers: `*id`, `*len` and the caller's buffer.
pub record Out : Type 0 where
  pub id : ℕ
  pub len : ℕ
  pub bytes : ℕ → ℕ

-- `blob_ring_pop` into the caller's buffer `d`; `none` is -1.
unfoldable pub pop : Ring → (ℕ → ℕ) → Option Out × Ring
pop r d =
    if r.head == r.tail
    then (none, r)
    else let m = r.slot (slot_of r.tail) in
      (
        some (record { id = m.id; len = m.len; bytes = memcpy d m.bytes m.len }),
        record r { tail = add32 r.tail 1 },
      )
