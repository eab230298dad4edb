-- ===== src/CanRing/Spsc/Defs.antt =====
-- The steps of `blob_ring_push` and `blob_ring_pop`, one shared access each.
use blobly_emb.Prelude.{ℕ, suc, ◌+◌, ◌%◌, ◌^◌, ◌≤◌, ◌<◌, ◌≡◌, ◌≢◌, update, slice, add32, sub32, []}
use blobly_emb.CanRing.{Msg, Ring, cap, clamp, slot_of}
use blobly_emb.CanRing.Queue.{Frame, frame, frame_of}

-- The arguments of a call of `blob_ring_push`.
pub record Call : Type 0 where
  pub id : ℕ
  pub bytes : ℕ → ℕ
  pub len : ℕ

abbrev pub frame_of_call : Call → Frame
frame_of_call f = frame_of f.id f.bytes f.len

-- The shared ring, and a history: the frames published (`sent`, in order, `sent_n` of them) and
-- the frames handed to the consumer's caller (`got`, `got_n` of them).
pub record Mem : Type 0 where
  pub ring : Ring
  pub sent : ℕ → Frame
  pub sent_n : ℕ
  pub got : ℕ → Frame
  pub got_n : ℕ

-- Where the producer stands in `blob_ring_push`, with the locals that are live there.
pub data Producer : Type 0 where
  idle : Producer
  called : (f : Call) → Producer
  got_head : (f : Call) (h : ℕ) → Producer
  got_tail : (f : Call) (h t : ℕ) → Producer
  room : (f : Call) (h : ℕ) → Producer
  put_id : (f : Call) (h : ℕ) → Producer
  copying : (f : Call) (h i : ℕ) → Producer

-- Where the consumer stands in `blob_ring_pop`; `buf` is the caller's buffer.
pub data Consumer : Type 0 where
  idle : Consumer
  called : (buf : ℕ → ℕ) → Consumer
  got_tail : (buf : ℕ → ℕ) (t : ℕ) → Consumer
  got_head : (buf : ℕ → ℕ) (t h : ℕ) → Consumer
  present : (buf : ℕ → ℕ) (t : ℕ) → Consumer
  got_id : (buf : ℕ → ℕ) (t id : ℕ) → Consumer
  got_len : (buf : ℕ → ℕ) (t id len : ℕ) → Consumer
  copying : (buf : ℕ → ℕ) (t id len n i : ℕ) → Consumer

abbrev pub with_slot : Mem → ℕ → Msg → Mem
with_slot m h x = record m { ring = record (m.ring) { slot = update m.ring.slot (slot_of h) x } }

-- `__atomic_store_n(&r->head, h + 1u)`: the frame enters the history.
abbrev pub publish : Mem → ℕ → Frame → Mem
publish m h f = record m {
  ring = record (m.ring) { head = add32 h 1 };
  sent = update m.sent m.sent_n f;
  sent_n = suc m.sent_n;
}

-- `__atomic_store_n(&r->tail, t + 1u)`: the call returns 0 with the frame copied out.
abbrev pub release : Mem → ℕ → Frame → Mem
release m t f = record m {
  ring = record (m.ring) { tail = add32 t 1 };
  got = update m.got m.got_n f;
  got_n = suc m.got_n;
}

pub data PStep (m : Mem) : Producer → Mem → Producer → Type 0 where
  call : (f : Call) → PStep m Producer.idle m (Producer.called f)
  load_head : {f : Call} → PStep m (Producer.called f) m (Producer.got_head f m.ring.head)
  load_tail :
      {f : Call} {h : ℕ} → PStep m (Producer.got_head f h) m (Producer.got_tail f h m.ring.tail)
  full : {f : Call} {h t : ℕ} → cap ≤ sub32 h t → PStep m (Producer.got_tail f h t) m Producer.idle
  enter :
      {f : Call} {h t : ℕ}
      → sub32 h t < cap
      → PStep m (Producer.got_tail f h t) m (Producer.room f h)
  store_id :
      {f : Call} {h : ℕ}
      → PStep m
          (Producer.room f h)
          (with_slot m h (record (m.ring.slot (slot_of h)) { id = f.id }))
          (Producer.put_id f h)
  store_len :
      {f : Call} {h : ℕ}
      → PStep m
          (Producer.put_id f h)
          (with_slot m h (record (m.ring.slot (slot_of h)) { len = clamp f.len }))
          (Producer.copying f h 0)
  store_byte :
      {f : Call} {h i : ℕ}
      → i < clamp f.len
      → PStep m
          (Producer.copying f h i)
          (with_slot m h (record (m.ring.slot (slot_of h)) {
            bytes = update (m.ring.slot (slot_of h)).bytes i (f.bytes i);
          }))
          (Producer.copying f h (suc i))
  store_head :
      {f : Call} {h i : ℕ}
      → clamp f.len ≤ i
      → PStep m (Producer.copying f h i) (publish m h (frame_of_call f)) Producer.idle

pub data CStep (m : Mem) : Consumer → Mem → Consumer → Type 0 where
  call : (buf : ℕ → ℕ) → CStep m Consumer.idle m (Consumer.called buf)
  load_tail : {buf : ℕ → ℕ} → CStep m (Consumer.called buf) m (Consumer.got_tail buf m.ring.tail)
  load_head :
      {buf : ℕ → ℕ} {t : ℕ}
      → CStep m (Consumer.got_tail buf t) m (Consumer.got_head buf t m.ring.head)
  empty : {buf : ℕ → ℕ} {t h : ℕ} → h ≡ t → CStep m (Consumer.got_head buf t h) m Consumer.idle
  enter :
      {buf : ℕ → ℕ} {t h : ℕ}
      → h ≢ t
      → CStep m (Consumer.got_head buf t h) m (Consumer.present buf t)
  load_id :
      {buf : ℕ → ℕ} {t : ℕ}
      → CStep m (Consumer.present buf t) m (Consumer.got_id buf t (m.ring.slot (slot_of t)).id)
  load_len :
      {buf : ℕ → ℕ} {t id : ℕ}
      → CStep m
          (Consumer.got_id buf t id)
          m
          (Consumer.got_len buf t id (m.ring.slot (slot_of t)).len)
  -- `m->len`, read once more as the length of the copy
  load_size :
      {buf : ℕ → ℕ} {t id len : ℕ}
      → CStep m
          (Consumer.got_len buf t id len)
          m
          (Consumer.copying buf t id len (m.ring.slot (slot_of t)).len 0)
  load_byte :
      {buf : ℕ → ℕ} {t id len n i : ℕ}
      → i < n
      → CStep m
          (Consumer.copying buf t id len n i)
          m
          (Consumer.copying (update buf i ((m.ring.slot (slot_of t)).bytes i)) t id len n (suc i))
  store_tail :
      {buf : ℕ → ℕ} {t id len n i : ℕ}
      → n ≤ i
      → CStep m
          (Consumer.copying buf t id len n i)
          (release m t (record { id = id; payload = slice buf 0 len }))
          Consumer.idle

pub record System : Type 0 where
  pub mem : Mem
  pub producer : Producer
  pub consumer : Consumer

pub data Step (s : System) : System → Type 0 where
  produce :
      {m : Mem} {p : Producer}
      → PStep s.mem s.producer m p
      → Step s (record s { mem = m; producer = p })
  consume :
      {m : Mem} {c : Consumer}
      → CStep s.mem s.consumer m c
      → Step s (record s { mem = m; consumer = c })

pub data Reach (s : System) : System → Type 0 where
  here : Reach s s
  next : {t u : System} → Reach s t → Step t u → Reach s u

-- A ring at rest: head and tail on one index, and no call under way.
abbrev pub init : Ring → System
init r = record {
  mem = record {
    ring = record r { tail = r.head };
    sent = λ _. record { id = 0; payload = [] };
    sent_n = 0;
    got = λ _. record { id = 0; payload = [] };
    got_n = 0;
  };
  producer = Producer.idle;
  consumer = Consumer.idle;
}

-- Shared memory against the history, as `base` counts from the index at rest.
pub record MemOk (base : ℕ) (m : Mem) : Type 0 where
  pub head : m.ring.head ≡ (base + m.sent_n) % 2 ^ 32
  pub tail : m.ring.tail ≡ (base + m.got_n) % 2 ^ 32
  pub order : m.got_n ≤ m.sent_n
  pub fits : m.sent_n ≤ m.got_n + cap
  pub stored :
      (k : ℕ) → m.got_n ≤ k → k < m.sent_n → frame (m.ring.slot (slot_of (base + k))) ≡ m.sent k
  pub delivered : (k : ℕ) → k < m.got_n → m.got k ≡ m.sent k

-- What the producer's locals say of shared memory.
abbrev pub ProducerOk : Mem → Producer → Type 0
ProducerOk m Producer.idle = Unit {0}
ProducerOk m (Producer.called f) = Unit {0}
ProducerOk m (Producer.got_head f h) = h ≡ m.ring.head
ProducerOk m (Producer.got_tail f h t) = (h ≡ m.ring.head) × (m.sent_n ≤ m.got_n + sub32 h t)
ProducerOk m (Producer.room f h) = (h ≡ m.ring.head) × (m.sent_n < m.got_n + cap)
ProducerOk m (Producer.put_id f h) =
    (h ≡ m.ring.head) × (m.sent_n < m.got_n + cap) × ((m.ring.slot (slot_of h)).id ≡ f.id)
ProducerOk m (Producer.copying f h i) =
    (h ≡ m.ring.head)
    × (m.sent_n < m.got_n + cap)
    × ((m.ring.slot (slot_of h)).id ≡ f.id)
    × ((m.ring.slot (slot_of h)).len ≡ clamp f.len)
    × (i ≤ clamp f.len)
    × ((j : ℕ) → j < i → (m.ring.slot (slot_of h)).bytes j ≡ f.bytes j)

-- What the consumer's locals say of shared memory.
abbrev pub ConsumerOk : Mem → Consumer → Type 0
ConsumerOk m Consumer.idle = Unit {0}
ConsumerOk m (Consumer.called buf) = Unit {0}
ConsumerOk m (Consumer.got_tail buf t) = t ≡ m.ring.tail
ConsumerOk m (Consumer.got_head buf t h) = (t ≡ m.ring.tail) × (h ≢ t → m.got_n < m.sent_n)
ConsumerOk m (Consumer.present buf t) = (t ≡ m.ring.tail) × (m.got_n < m.sent_n)
ConsumerOk m (Consumer.got_id buf t id) =
    (t ≡ m.ring.tail) × (m.got_n < m.sent_n) × (id ≡ (m.ring.slot (slot_of t)).id)
ConsumerOk m (Consumer.got_len buf t id len) =
    (t ≡ m.ring.tail)
    × (m.got_n < m.sent_n)
    × (id ≡ (m.ring.slot (slot_of t)).id)
    × (len ≡ (m.ring.slot (slot_of t)).len)
ConsumerOk m (Consumer.copying buf t id len n i) =
    (t ≡ m.ring.tail)
    × (m.got_n < m.sent_n)
    × (id ≡ (m.ring.slot (slot_of t)).id)
    × (len ≡ (m.ring.slot (slot_of t)).len)
    × (n ≡ len)
    × (i ≤ n)
    × ((j : ℕ) → j < i → buf j ≡ (m.ring.slot (slot_of t)).bytes j)

pub record Inv (base : ℕ) (s : System) : Type 0 where
  pub memory : MemOk base s.mem
  pub producer : ProducerOk s.mem s.producer
  pub consumer : ConsumerOk s.mem s.consumer
