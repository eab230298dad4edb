-- ===== src/CanRing/Spsc/Consumer.antt =====
-- A step of the consumer keeps the invariant.
use blobly_emb.Prelude.{
  ℕ, ◌+◌, ◌<◌, ◌≡◌, refl, update, slice, slice_ext, arith, subst, ◌∙◌, update_self, update_ne,
  ℕ_discrete,
}
use blobly_emb.CanRing.{Msg, slot_of}
use blobly_emb.CanRing.Queue.{Frame, frame}
use blobly_emb.CanRing.Spsc.Defs.{
  Mem, Producer, Consumer, release, CStep, call, load_head, load_tail, empty, enter, load_id,
  load_len, load_size, load_byte, store_tail, MemOk, ProducerOk, ConsumerOk,
}

-- The bytes copied out of a slot make its frame.
copied_frame :
    (x : Msg) (id len : ℕ) (buf : ℕ → ℕ)
    → id ≡ x.id
    → len ≡ x.len
    → ((j : ℕ) → j < len → buf j ≡ x.bytes j)
    → record { id = id; payload = slice buf 0 len } ≡ frame x
copied_frame x id len buf e n h =
    let s : slice buf 0 len ≡ slice x.bytes 0 len =
      slice_ext buf x.bytes 0 len (λ j lt. h j (omega arith)) in
    ground arith

module _ {base : ℕ} {m : Mem} (ok : MemOk base m) where
  open ok use {head, tail, order, fits, stored, delivered}

  oldest :
      (t : ℕ)
      → t ≡ m.ring.tail
      → m.got_n < m.sent_n
      → frame (m.ring.slot (slot_of t)) ≡ m.sent m.got_n
  oldest t e lt =
      let same : slot_of t ≡ slot_of (base + m.got_n) = omega arith in
      rw same (stored m.got_n (omega arith) lt)

  release-MemOk :
      (t : ℕ) (f : Frame)
      → t ≡ m.ring.tail
      → m.got_n < m.sent_n
      → f ≡ frame (m.ring.slot (slot_of t))
      → MemOk base (release m t f)
  release-MemOk t f e lt same = record {
    head = head;
    tail = omega arith;
    order = omega arith;
    fits = omega arith;
    stored = λ k lo hi. stored k (omega arith) hi;
    delivered = λ k q. elim (ℕ_discrete m.got_n k) [
      | yes p ↦
          subst (λ j. update m.got m.got_n f j ≡ m.sent j) p
            (update_self m.got m.got_n f ∙ same ∙ oldest t e lt)
      | no ne ↦ update_ne m.got m.got_n f k ne ∙ delivered k (omega arith)
    ];
  }

  release-ProducerOk :
      (t : ℕ) (f : Frame) (p : Producer) → ProducerOk m p → ProducerOk (release m t f) p
  release-ProducerOk t f Producer.idle k = tt
  release-ProducerOk t f (Producer.called g) k = tt
  release-ProducerOk t f (Producer.got_head g h) k = k
  release-ProducerOk t f (Producer.got_tail g h t') k = (k.0, omega arith)
  release-ProducerOk t f (Producer.room g h) k = (k.0, omega arith)
  release-ProducerOk t f (Producer.put_id g h) k = (k.0, omega arith, k.2)
  release-ProducerOk t f (Producer.copying g h i) k = (k.0, omega arith, k.2, k.3, k.4, k.5)

  pub CStep-MemOk : {c c' : Consumer} {m' : Mem} → CStep m c m' c' → ConsumerOk m c → MemOk base m'
  CStep-MemOk (call buf) l = ok
  CStep-MemOk load_head l = ok
  CStep-MemOk load_tail l = ok
  CStep-MemOk (empty g) l = ok
  CStep-MemOk (enter g) l = ok
  CStep-MemOk load_id l = ok
  CStep-MemOk load_len l = ok
  CStep-MemOk load_size l = ok
  CStep-MemOk (load_byte g) l = ok
  CStep-MemOk (store_tail {buf} {t} {id} {len} g) l =
      release-MemOk t (record { id = id; payload = slice buf 0 len }) l.0 l.1
        (copied_frame (m.ring.slot (slot_of t)) id len buf l.2 l.3 (λ j lt. l.6 j (omega arith)))

  pub CStep-ConsumerOk :
      {c c' : Consumer} {m' : Mem} → CStep m c m' c' → ConsumerOk m c → ConsumerOk m' c'
  CStep-ConsumerOk (call buf) l = tt
  CStep-ConsumerOk load_tail l = refl
  CStep-ConsumerOk load_head l = (l, λ ne. omega arith)
  CStep-ConsumerOk (empty g) l = tt
  CStep-ConsumerOk (enter g) l = (l.0, l.1 g)
  CStep-ConsumerOk load_id l = (l.0, l.1, refl)
  CStep-ConsumerOk load_len l = (l.0, l.1, l.2, refl)
  CStep-ConsumerOk load_size l =
      (l.0, l.1, l.2, l.3, ground arith, omega arith, λ j lt. absurd (omega arith))
  CStep-ConsumerOk (load_byte g) l =
      (l.0, l.1, l.2, l.3, l.4, omega arith, λ j lt. ground (arith, l.6 j))
  CStep-ConsumerOk (store_tail g) l = tt

  -- A step of the consumer only makes room.
  pub CStep-ProducerOk :
      {c c' : Consumer} {m' : Mem}
      → CStep m c m' c'
      → ConsumerOk m c
      → (p : Producer) → ProducerOk m p
      → ProducerOk m' p
  CStep-ProducerOk (call buf) l p k = k
  CStep-ProducerOk load_head l p k = k
  CStep-ProducerOk load_tail l p k = k
  CStep-ProducerOk (empty g) l p k = k
  CStep-ProducerOk (enter g) l p k = k
  CStep-ProducerOk load_id l p k = k
  CStep-ProducerOk load_len l p k = k
  CStep-ProducerOk load_size l p k = k
  CStep-ProducerOk (load_byte g) l p k = k
  CStep-ProducerOk (store_tail {buf} {t} {id} {len} g) l p k =
      release-ProducerOk t (record { id = id; payload = slice buf 0 len }) p k
