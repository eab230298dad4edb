-- ===== src/CanRing/Spsc/Producer.antt =====
-- A step of the producer keeps the invariant.
use blobly_emb.Prelude.{ℕ, ◌+◌, ◌<◌, ◌≡◌, ◌≢◌, refl, slice, slice_ext, arith}
use blobly_emb.CanRing.{Msg, cap, clamp, slot_of}
use blobly_emb.CanRing.Queue.{Frame, frame}
use blobly_emb.CanRing.Spsc.Defs.{
  Call, frame_of_call, Mem, Producer, Consumer, with_slot, publish, PStep, call, load_head,
  load_tail, full, enter, store_id, store_len, store_byte, store_head, MemOk, ProducerOk,
  ConsumerOk,
}

-- A slot whose fields and counted bytes are the call's holds the call's frame.
frame_of_copied :
    (x : Msg) (f : Call)
    → x.id ≡ f.id
    → x.len ≡ clamp f.len
    → ((j : ℕ) → j < clamp f.len → x.bytes j ≡ f.bytes j)
    → frame x ≡ frame_of_call f
frame_of_copied x f e n h =
    let s : slice x.bytes 0 (clamp f.len) ≡ slice f.bytes 0 (clamp f.len) =
      slice_ext x.bytes f.bytes 0 (clamp f.len) (λ j lt. h j (omega arith)) in
    ground arith

module _ {base : ℕ} {m : Mem} (ok : MemOk base m) where
  open ok use {head, tail, order, fits, stored, delivered}

  -- A write to the producer's slot reaches none of the frames that wait.
  with_slot-MemOk :
      (h : ℕ) (x : Msg) → h ≡ m.ring.head → m.sent_n < m.got_n + cap → MemOk base (with_slot m h x)
  with_slot-MemOk h x e lt = record {
    head = head;
    tail = tail;
    order = order;
    fits = fits;
    stored = λ k lo hi. ground (arith, stored k lo hi);
    delivered = delivered;
  }

  -- Publishing the producer's slot adds its frame to those that wait.
  publish-MemOk :
      (h : ℕ) (f : Frame)
      → h ≡ m.ring.head
      → m.sent_n < m.got_n + cap
      → frame (m.ring.slot (slot_of h)) ≡ f
      → MemOk base (publish m h f)
  publish-MemOk h f e lt same = record {
    head = omega arith;
    tail = tail;
    order = omega arith;
    fits = omega arith;
    stored = λ k lo hi. ground (arith, stored k);
    delivered = λ k lt. ground (arith, delivered k);
  }

  pub PStep-MemOk : {p p' : Producer} {m' : Mem} → PStep m p m' p' → ProducerOk m p → MemOk base m'
  PStep-MemOk (call f) l = ok
  PStep-MemOk load_head l = ok
  PStep-MemOk load_tail l = ok
  PStep-MemOk (full g) l = ok
  PStep-MemOk (enter g) l = ok
  PStep-MemOk store_id l = with_slot-MemOk _ _ l.0 l.1
  PStep-MemOk store_len l = with_slot-MemOk _ _ l.0 l.1
  PStep-MemOk (store_byte g) l = with_slot-MemOk _ _ l.0 l.1
  PStep-MemOk (store_head {f} {h} {i} g) l =
      publish-MemOk h (frame_of_call f) l.0 l.1
        (frame_of_copied (m.ring.slot (slot_of h)) f l.2 l.3 (λ j lt. l.5 j (omega arith)))

  -- The producer and the consumer are at work in different slots.
  apart :
      (h t : ℕ)
      → h ≡ m.ring.head
      → t ≡ m.ring.tail
      → m.got_n < m.sent_n
      → m.sent_n < m.got_n + cap
      → slot_of h ≢ slot_of t
  apart h t eh et lo hi = omega arith

  with_slot-ConsumerOk :
      (h : ℕ) (x : Msg)
      → h ≡ m.ring.head
      → m.sent_n < m.got_n + cap
      → (c : Consumer) → ConsumerOk m c
      → ConsumerOk (with_slot m h x) c
  with_slot-ConsumerOk h x e lt Consumer.idle k = tt
  with_slot-ConsumerOk h x e lt (Consumer.called buf) k = tt
  with_slot-ConsumerOk h x e lt (Consumer.got_tail buf t) k = k
  with_slot-ConsumerOk h x e lt (Consumer.got_head buf t h') k = k
  with_slot-ConsumerOk h x e lt (Consumer.present buf t) k = k
  with_slot-ConsumerOk h x e lt (Consumer.got_id buf t id) k = ground arith
  with_slot-ConsumerOk h x e lt (Consumer.got_len buf t id len) k = ground arith
  with_slot-ConsumerOk h x e lt (Consumer.copying buf t id len n i) k =
      let ne = apart h t e k.0 k.1 lt in
      (k.0, k.1, ground arith, ground arith, k.4, k.5, λ j lt. ground (arith, k.6 j lt))

  publish-ConsumerOk :
      (h : ℕ) (f : Frame) (c : Consumer) → ConsumerOk m c → ConsumerOk (publish m h f) c
  publish-ConsumerOk h f Consumer.idle k = tt
  publish-ConsumerOk h f (Consumer.called buf) k = tt
  publish-ConsumerOk h f (Consumer.got_tail buf t) k = k
  publish-ConsumerOk h f (Consumer.got_head buf t h') k =
      (k.0, λ ne. let lt = k.1 ne in omega arith)
  publish-ConsumerOk h f (Consumer.present buf t) k = (k.0, omega arith)
  publish-ConsumerOk h f (Consumer.got_id buf t id) k = (k.0, omega arith, k.2)
  publish-ConsumerOk h f (Consumer.got_len buf t id len) k = (k.0, omega arith, k.2, k.3)
  publish-ConsumerOk h f (Consumer.copying buf t id len n i) k =
      (k.0, omega arith, k.2, k.3, k.4, k.5, k.6)

  pub PStep-ProducerOk :
      {p p' : Producer} {m' : Mem} → PStep m p m' p' → ProducerOk m p → ProducerOk m' p'
  PStep-ProducerOk (call f) l = tt
  PStep-ProducerOk load_head l = refl
  PStep-ProducerOk load_tail l = (l, omega arith)
  PStep-ProducerOk (full g) l = tt
  PStep-ProducerOk (enter g) l = omega arith
  PStep-ProducerOk store_id l = ground arith
  PStep-ProducerOk store_len l =
      (l.0, l.1, ground arith, ground arith, omega arith, λ j lt. absurd (omega arith))
  PStep-ProducerOk (store_byte {i} g) l =
      (l.0, l.1, ground arith, ground arith, omega arith, λ j lt. ground (arith, l.5 j))
  PStep-ProducerOk (store_head g) l = tt

  -- The consumer's slot is another one, and more frames do not disturb it.
  pub PStep-ConsumerOk :
      {p p' : Producer} {m' : Mem}
      → PStep m p m' p'
      → ProducerOk m p
      → (c : Consumer) → ConsumerOk m c
      → ConsumerOk m' c
  PStep-ConsumerOk (call f) l c k = k
  PStep-ConsumerOk load_head l c k = k
  PStep-ConsumerOk load_tail l c k = k
  PStep-ConsumerOk (full g) l c k = k
  PStep-ConsumerOk (enter g) l c k = k
  PStep-ConsumerOk store_id l c k = with_slot-ConsumerOk _ _ l.0 l.1 c k
  PStep-ConsumerOk store_len l c k = with_slot-ConsumerOk _ _ l.0 l.1 c k
  PStep-ConsumerOk (store_byte g) l c k = with_slot-ConsumerOk _ _ l.0 l.1 c k
  PStep-ConsumerOk (store_head {f} {h} g) l c k = publish-ConsumerOk h (frame_of_call f) c k
