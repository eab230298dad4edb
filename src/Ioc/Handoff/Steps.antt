-- ===== src/Ioc/Handoff/Steps.antt =====
-- Every step of the writer and of the reader keeps the invariant.
use blobly_emb.Prelude.{
  ℕ, suc, ◌+◌, ◌*◌, ◌≡◌, refl, sym, ap, ◌∙◌, update, update_self, update_ne, bit_or, low_bits,
  arith, grown,
}
use blobly_emb.Ioc.{ioc_fresh}
use blobly_emb.Ioc.Handoff.Defs.{
  Mem, Writer, Reader, WStep, RStep, call, store_byte, swap, set_wr, see_fresh, see_stale, set_rd,
  load_byte, finish, return, with_byte, publish, Owned, writer_slot, reader_slot, WriterOk,
  ReaderOk,
}
use blobly_emb.Ioc.Handoff.Slots.{
  with_byte-Owned, publish-Owned, exchange-Owned, with_index-Owned, bit_or-fresh,
}

rd_kept : {m m' : Mem} {w w' : Writer} → WStep m w m' w' → m.ioc.rd ≡ m'.ioc.rd
rd_kept (call v) = refl
rd_kept (store_byte g) = refl
rd_kept (swap g) = refl
rd_kept set_wr = refl

wr_kept : {m m' : Mem} {rd rd' : Reader} → RStep m rd m' rd' → m.ioc.wr ≡ m'.ioc.wr
wr_kept (call out) = refl
wr_kept (see_fresh g) = refl
wr_kept (see_stale g) = refl
wr_kept swap = refl
wr_kept set_rd = refl
wr_kept (load_byte g) = refl
wr_kept (finish g) = refl
wr_kept return = refl

-- A step of one side leaves the other's slot.
pub reader_slot_kept :
    {m m' : Mem} {w w' : Writer}
    → WStep m w m' w'
    → (rd : Reader) → reader_slot m rd ≡ reader_slot m' rd
reader_slot_kept st (Reader.swapped out since prev) = refl
reader_slot_kept st Reader.idle = rd_kept st
reader_slot_kept st (Reader.called out since) = rd_kept st
reader_slot_kept st (Reader.fresh out since) = rd_kept st
reader_slot_kept st (Reader.reading out since ever i) = rd_kept st
reader_slot_kept st (Reader.finished out since ever) = rd_kept st

pub writer_slot_kept :
    {m m' : Mem} {rd rd' : Reader}
    → RStep m rd m' rd'
    → (w : Writer) → writer_slot m w ≡ writer_slot m' w
writer_slot_kept st (Writer.swapped prev) = refl
writer_slot_kept st Writer.idle = wr_kept st
writer_slot_kept st (Writer.filling v i) = wr_kept st

module _ {m : Mem} where
  pub WStep-Owned :
      {w w' : Writer} {m' : Mem} {r : ℕ}
      → WStep m w m' w'
      → WriterOk m w
      → Owned m (writer_slot m w) r
      → Owned m' (writer_slot m' w') r
  WStep-Owned (call v) l own = own
  WStep-Owned (store_byte {v} {i} g) l own = with_byte-Owned own i (v i) g
  WStep-Owned (swap {v} g) l own = publish-Owned own v refl (λ i lt. l.1 i (omega arith))
  WStep-Owned (set_wr {prev}) l own = with_index-Owned own (low_bits prev 2) m.ioc.rd

  pub WStep-WriterOk : {w w' : Writer} {m' : Mem} → WStep m w m' w' → WriterOk m w → WriterOk m' w'
  WStep-WriterOk (call v) l = (omega arith, λ j lt. absurd (omega arith))
  WStep-WriterOk (store_byte {v} {i} g) l = (
    g,
    grown
        (λ j. (with_byte m (m.ioc.wr * m.ioc.size + i) (v i)).ioc.arena (m.ioc.wr * m.ioc.size + j))
        v i
        (λ j lt.
          update_ne m.ioc.arena (m.ioc.wr * m.ioc.size + i) (v i) (m.ioc.wr * m.ioc.size + j)
            (omega arith)
          ∙ l.1 j lt)
        (update_self m.ioc.arena (m.ioc.wr * m.ioc.size + i) (v i)),
  )
  WStep-WriterOk (swap g) l = tt
  WStep-WriterOk set_wr l = tt

  -- The reader's own slot, and what it knows of the history, stay.
  kept : {w r : ℕ} (v : ℕ → ℕ) → Owned m w r → (j : ℕ) → m.val m.rd_k j ≡ (publish m v).val m.rd_k j
  kept v own j =
      let le = own.behind in
      sym (ap (λ (f : ℕ → ℕ). f j) (update_ne m.val (suc m.pub_n) v m.rd_k (omega arith)))

  publish-ReaderOk :
      {w r : ℕ} (v : ℕ → ℕ)
      → Owned m w r
      → m.ioc.wr ≡ w
      → (rd : Reader) → ReaderOk m rd
      → ReaderOk (publish m v) rd
  publish-ReaderOk v own e Reader.idle k = tt
  publish-ReaderOk v own e (Reader.called out since) k = omega arith
  publish-ReaderOk {w} v own e (Reader.fresh out since) k =
      let b : bit_or m.ioc.wr ioc_fresh ≡ w + 4 = rw e (bit_or-fresh w own.w_lt) in
      let lt = own.w_lt in (omega arith, ground arith)
  publish-ReaderOk v own e (Reader.swapped out since prev) k = k
  publish-ReaderOk v own e (Reader.reading out since ever i) k =
      (k.0, k.1, λ j lt. k.2 j lt ∙ kept v own j, k.3)
  publish-ReaderOk v own e (Reader.finished out since ever) k =
      (k.0, λ j lt. k.1 j lt ∙ kept v own j, k.2)

  pub WStep-ReaderOk :
      {w w' : Writer} {m' : Mem} {r : ℕ}
      → WStep m w m' w'
      → Owned m (writer_slot m w) r
      → (rd : Reader) → ReaderOk m rd
      → ReaderOk m' rd
  WStep-ReaderOk (call v) own rd k = k
  WStep-ReaderOk (store_byte g) own Reader.idle k = tt
  WStep-ReaderOk (store_byte g) own (Reader.called out since) k = k
  WStep-ReaderOk (store_byte g) own (Reader.fresh out since) k = k
  WStep-ReaderOk (store_byte g) own (Reader.swapped out since prev) k = k
  WStep-ReaderOk (store_byte g) own (Reader.reading out since ever i) k = k
  WStep-ReaderOk (store_byte g) own (Reader.finished out since ever) k = k
  WStep-ReaderOk (swap {v} g) own rd k = publish-ReaderOk v own refl rd k
  WStep-ReaderOk set_wr own Reader.idle k = tt
  WStep-ReaderOk set_wr own (Reader.called out since) k = k
  WStep-ReaderOk set_wr own (Reader.fresh out since) k = k
  WStep-ReaderOk set_wr own (Reader.swapped out since prev) k = k
  WStep-ReaderOk set_wr own (Reader.reading out since ever i) k = k
  WStep-ReaderOk set_wr own (Reader.finished out since ever) k = k

  pub RStep-Owned :
      {rd rd' : Reader} {m' : Mem} {w : ℕ}
      → RStep m rd m' rd'
      → ReaderOk m rd
      → Owned m w (reader_slot m rd)
      → Owned m' w (reader_slot m' rd')
  RStep-Owned (call out) l own = own
  RStep-Owned (see_fresh g) l own = own
  RStep-Owned (see_stale g) l own = own
  RStep-Owned swap l own = exchange-Owned own refl l.1
  RStep-Owned (set_rd {prev}) l own = with_index-Owned own m.ioc.wr (low_bits prev 2)
  RStep-Owned (load_byte g) l own = own
  RStep-Owned (finish g) l own = own
  RStep-Owned return l own = own

  pub RStep-WriterOk :
      {rd rd' : Reader} {m' : Mem} → RStep m rd m' rd' → (w : Writer) → WriterOk m w → WriterOk m' w
  RStep-WriterOk (call out) w k = k
  RStep-WriterOk (see_fresh g) w k = k
  RStep-WriterOk (see_stale g) w k = k
  RStep-WriterOk swap Writer.idle k = tt
  RStep-WriterOk swap (Writer.filling v i) k = k
  RStep-WriterOk swap (Writer.swapped prev) k = tt
  RStep-WriterOk set_rd Writer.idle k = tt
  RStep-WriterOk set_rd (Writer.filling v i) k = k
  RStep-WriterOk set_rd (Writer.swapped prev) k = tt
  RStep-WriterOk (load_byte g) w k = k
  RStep-WriterOk (finish g) w k = k
  RStep-WriterOk return w k = k

  pub RStep-ReaderOk :
      {rd rd' : Reader} {m' : Mem} {w : ℕ}
      → RStep m rd m' rd'
      → Owned m w (reader_slot m rd)
      → ReaderOk m rd
      → ReaderOk m' rd'
  RStep-ReaderOk (call out) own l = omega arith
  RStep-ReaderOk (see_fresh g) own l = (l, g)
  RStep-ReaderOk (see_stale g) own l =
      (rw (own.caught_up g) l, omega arith, λ j lt. absurd (omega arith), λ q. cc)
  RStep-ReaderOk swap own l = (l.0, own.fresh_pos l.1)
  RStep-ReaderOk set_rd own l = (l.0, omega arith, λ j lt. absurd (omega arith), λ q. l.1)
  RStep-ReaderOk (load_byte {out} {i} g) own l = (
    l.0,
    g,
    grown (update out i (m.ioc.arena (m.ioc.rd * m.ioc.size + i))) (m.val m.rd_k) i
        (λ j lt.
          update_ne out i (m.ioc.arena (m.ioc.rd * m.ioc.size + i)) j (omega arith) ∙ l.2 j lt)
        (update_self out i (m.ioc.arena (m.ioc.rd * m.ioc.size + i)) ∙ own.held i g),
    l.3,
  )
  RStep-ReaderOk (finish g) own l = (l.0, λ j lt. l.2 j (omega arith), l.3)
  RStep-ReaderOk return own l = tt
