-- ===== src/CanRing/Queue.antt =====
-- The ring, called by one side at a time, against a bounded queue of frames.
use blobly_emb.Prelude.{
  ℕ, zero, suc, ◌+◌, ◌-◌, ◌^◌, ◌≤◌, ◌<◌, ◌≡◌, ◌≢◌, refl, ap, Status, ok, fail, if◌then◌else◌, leb,
  Option, none, some, update, memcpy, slice, slice-memcpy, add32, sub32, List, [], ◌∷◌, ◌++◌, arith,
  length, dec_lt, ℕ_discrete,
}
use mathlib.Core.Option
use blobly_emb.CanRing.{Msg, Ring, Out, cap, clamp, slot_of, fill, push, pop}

-- A frame: its identifier and the bytes that its length counts.
pub record Frame : Type 0 where
  pub id : ℕ
  pub payload : List ℕ

abbrev pub frame : Msg → Frame
frame m = record { id = m.id; payload = slice m.bytes 0 m.len }

-- The frame that the caller of `push` hands over: of at most 64 bytes.
abbrev pub frame_of : ℕ → (ℕ → ℕ) → ℕ → Frame
frame_of id d len = record { id = id; payload = slice d 0 (clamp len) }

abbrev pub out_frame : Out → Frame
out_frame o = record { id = o.id; payload = slice o.bytes 0 o.len }

-- The frames in the `n` slots from index `t` on, going round.
abbrev pub window : (ℕ → Msg) → ℕ → ℕ → List Frame
window slot t zero = []
window slot t (suc n) = frame (slot (slot_of t)) ∷ window slot (suc t) n

-- The queue that the ring holds, oldest first.
abbrev pub contents : Ring → List Frame
contents r = window r.slot r.tail (sub32 r.head r.tail)

-- The indices are 32-bit words at most `cap` apart.
pub record IsValid (r : Ring) : Type 0 where
  pub head_word : r.head < 2 ^ 32
  pub tail_word : r.tail < 2 ^ 32
  pub within : sub32 r.head r.tail ≤ cap

-- The bounded queue.
unfoldable pub enqueue : List Frame → Frame → Status × List Frame
enqueue q f = if leb cap (length q) then (fail, q) else (ok, q ++ (f ∷ []))

unfoldable pub dequeue : List Frame → Option Frame × List Frame
dequeue [] = (none, [])
dequeue (f ∷ q) = (some f, q)

length-window : (slot : ℕ → Msg) (t n : ℕ) → length (window slot t n) ≡ n
length-window slot t zero = refl
length-window slot t (suc n) = ap suc (length-window slot (suc t) n)

-- Writing the slot just past a window extends it.
window-push :
    (slot : ℕ → Msg) (m : Msg) (t n h : ℕ)
    → n < cap
    → slot_of h ≡ slot_of (t + n)
    → window (update slot (slot_of h) m) t (suc n) ≡ window slot t n ++ (frame m ∷ [])
window-push slot m t zero h lt e = ground arith
window-push slot m t (suc n) h lt e =
    ground (arith, window-push slot m (suc t) n h (omega arith) (omega arith))

-- Windows at indices of one slot agree.
window-shift :
    (slot : ℕ → Msg) (s t n : ℕ) → slot_of s ≡ slot_of t → window slot s n ≡ window slot t n
window-shift slot s t zero e = refl
window-shift slot s t (suc n) e = ground (arith, window-shift slot (suc s) (suc t) n (omega arith))

-- The slot that `push` fills, as a frame.
frame-fill :
    (m : Msg) (id : ℕ) (d : ℕ → ℕ) (len : ℕ) → frame (fill m id d (clamp len)) ≡ frame_of id d len
frame-fill m id d len =
    ap (λ p. record { id = id; payload = p }) (slice-memcpy m.bytes d (clamp len))

module _ (r : Ring) (v : IsValid r) where
  count-push : sub32 r.head r.tail < cap → sub32 (add32 r.head 1) r.tail ≡ suc (sub32 r.head r.tail)
  count-push lt = let h = v.head_word in let t = v.tail_word in omega arith

  contents-push :
      (id : ℕ) (d : ℕ → ℕ) (len : ℕ)
      → sub32 r.head r.tail < cap
      → contents (push r id d len).1 ≡ contents r ++ (frame_of id d len ∷ [])
  unfolding push
  contents-push id d len lt = ground (
    arith,
    count-push lt,
    frame-fill (r.slot (slot_of r.head)) id d len,
    window-push r.slot (fill (r.slot (slot_of r.head)) id d (clamp len)) r.tail
        (sub32 r.head r.tail) r.head lt (let h = v.head_word in let t = v.tail_word in omega arith),
  )

-- `blob_ring_push` on a valid ring is `enqueue` on its queue: -1 and no change at 32 frames, else
-- 0 and the frame, cut to 64 bytes, behind the others. The ring stays valid.
pub push_refines :
    (r : Ring) (id : ℕ) (d : ℕ → ℕ) (len : ℕ)
    → IsValid r
    → let (s, r') = push r id d len in
      ((s, contents r') ≡ enqueue (contents r) (frame_of id d len)) × IsValid r'
unfolding push enqueue
push_refines r id d len v = elim (dec_lt (sub32 r.head r.tail) cap) [
  | yes lt ↦ (
    ground
        (arith, contents-push r v id d len lt, length-window r.slot r.tail (sub32 r.head r.tail)),
    ground (arith),
  )
  | no ge ↦ (ground (arith, length-window r.slot r.tail (sub32 r.head r.tail)), ground arith)
]

window-pop :
    (slot : ℕ → Msg) (t n : ℕ)
    → 0 < n
    → window slot t n ≡ frame (slot (slot_of t)) ∷ window slot (suc t) (n - 1)
window-pop slot t zero h = absurd (omega arith)
window-pop slot t (suc n) h =
    ap (λ k. frame (slot (slot_of t)) ∷ window slot (suc t) k) (omega arith)

-- What `pop` copies out, as a frame.
frame-copy :
    (m : Msg) (d : ℕ → ℕ)
    → out_frame (record { id = m.id; len = m.len; bytes = memcpy d m.bytes m.len }) ≡ frame m
frame-copy m d = ap (λ p. record { id = m.id; payload = p }) (slice-memcpy d m.bytes m.len)

module _ (r : Ring) (v : IsValid r) (d : ℕ → ℕ) where
  pop-empty : r.head ≡ r.tail → (pop r d ≡ (none, r)) × (contents r ≡ [])
  unfolding pop
  pop-empty e =
      (ground arith, ap (window r.slot r.tail) (let n : sub32 r.head r.tail ≡ 0 = omega arith in n))

  count-ne-zero : r.head ≢ r.tail → 0 < sub32 r.head r.tail
  count-ne-zero ne = let h = v.head_word in let t = v.tail_word in omega arith

  count-pop : r.head ≢ r.tail → sub32 r.head (add32 r.tail 1) ≡ sub32 r.head r.tail - 1
  count-pop ne = let h = v.head_word in let t = v.tail_word in omega arith

  pop-some :
      r.head ≢ r.tail
      → (Option.map out_frame (pop r d).0 ≡ some (frame (r.slot (slot_of r.tail))))
        × (contents r ≡ frame (r.slot (slot_of r.tail)) ∷ contents (pop r d).1)
  unfolding pop
  pop-some ne = (
    ground (arith, frame-copy (r.slot (slot_of r.tail)) d),
    ground (
      arith,
      count-pop ne,
      window-pop r.slot r.tail (sub32 r.head r.tail) (count-ne-zero ne),
      window-shift r.slot (suc r.tail) (add32 r.tail 1) (sub32 r.head r.tail - 1) (omega arith),
    ),
  )

-- `blob_ring_pop` on a valid ring is `dequeue` on its queue: -1 and no change when it is empty,
-- else the oldest frame, whatever the caller's buffer held. The ring stays valid.
pub pop_refines :
    (r : Ring) (d : ℕ → ℕ)
    → IsValid r
    → let (o, r') = pop r d in
      ((Option.map out_frame o, contents r') ≡ dequeue (contents r)) × IsValid r'
pop_refines r d v = elim (ℕ_discrete r.head r.tail) [
  | yes e ↦ (unfold dequeue in ground (arith, pop-empty r v d e), unfold pop in ground arith)
  | no ne ↦ (unfold dequeue in ground (arith, pop-some r v d ne), unfold pop in ground arith)
]
