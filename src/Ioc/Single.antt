-- ===== src/Ioc/Single.antt =====
-- boards/common/ioc.h, called by one side at a time.
use blobly_emb.Prelude.{ℕ, ◌<◌, ◌≡◌, true, arith}
use blobly_emb.Ioc.{Ioc, write_bytes, read_bytes_ever}
use blobly_emb.Ioc.Handoff.Slots.{bit_or-fresh}

-- A read after a write by a channel whose writer's slot is one of the three copies the value
-- written and reports it as published.
pub read_bytes_ever-write_bytes :
    (b : Ioc) (v out : ℕ → ℕ)
    → b.wr < 3
    → let (b', out', ever) = read_bytes_ever (write_bytes b v) out in
      (ever ≡ true) × ((i : ℕ) → i < b.size → out' i ≡ v i)
unfolding read_bytes_ever write_bytes
read_bytes_ever-write_bytes b v out lt =
    let fresh = bit_or-fresh b.wr lt in (ground (arith, fresh), λ i p. ground (arith, fresh))
