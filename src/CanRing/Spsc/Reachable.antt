-- ===== src/CanRing/Spsc/Reachable.antt =====
-- What holds of every interleaving of one producer and one consumer.
use blobly_emb.Prelude.{ℕ, ◌+◌, ◌≤◌, ◌<◌, ◌^◌, ◌≡◌, arith}
use blobly_emb.CanRing.{Ring, cap}
use blobly_emb.CanRing.Spsc.Defs.{System, Step, produce, consume, Reach, here, next, init, Inv}
use blobly_emb.CanRing.Spsc.Producer.{PStep-MemOk, PStep-ProducerOk, PStep-ConsumerOk}
use blobly_emb.CanRing.Spsc.Consumer.{CStep-MemOk, CStep-ProducerOk, CStep-ConsumerOk}

Step-Inv : {base : ℕ} {s t : System} → Step s t → Inv base s → Inv base t
Step-Inv {s} (produce st) inv = record {
  memory = PStep-MemOk inv.memory st inv.producer;
  producer = PStep-ProducerOk inv.memory st inv.producer;
  consumer = PStep-ConsumerOk inv.memory st inv.producer s.consumer inv.consumer;
}
Step-Inv {s} (consume st) inv = record {
  memory = CStep-MemOk inv.memory st inv.consumer;
  producer = CStep-ProducerOk inv.memory st inv.consumer s.producer inv.producer;
  consumer = CStep-ConsumerOk inv.memory st inv.consumer;
}

init-Inv : (r : Ring) → r.head < 2 ^ 32 → Inv r.head (init r)
init-Inv r h = record {
  memory = record {
    head = omega arith;
    tail = omega arith;
    order = omega arith;
    fits = omega arith;
    stored = λ k lo hi. absurd (omega arith);
    delivered = λ k lt. absurd (omega arith);
  };
  producer = tt;
  consumer = tt;
}

pub Reach-Inv : (r : Ring) {s : System} → r.head < 2 ^ 32 → Reach (init r) s → Inv r.head s
Reach-Inv r h here = init-Inv r h
Reach-Inv r h (next rs st) = Step-Inv st (Reach-Inv r h rs)

-- From a ring at rest, under every interleaving of the producer's and the consumer's accesses: the
-- k-th frame that `blob_ring_pop` hands out is the k-th that `blob_ring_push` accepted, whole; no
-- more come out than went in, and at most 32 are under way.
pub fifo :
    (r : Ring) {s : System}
    → r.head < 2 ^ 32
    → Reach (init r) s
    → ((k : ℕ) → k < s.mem.got_n → s.mem.got k ≡ s.mem.sent k)
      × (s.mem.got_n ≤ s.mem.sent_n)
      × (s.mem.sent_n ≤ s.mem.got_n + cap)
fifo r h rs = let inv = (Reach-Inv r h rs).memory in (inv.delivered, inv.order, inv.fits)
