-- ===== src/Trace/Snapshot.antt =====
-- boards/common/trace_hooks.c: what a snapshot holds.
use blobly_emb.Prelude.{
  ℕ, zero, suc, ◌+◌, ◌-◌, ◌*◌, ◌/◌, ◌%◌, ◌^◌, ◌≤◌, ◌<◌, ◌≡◌, ◌⊎◌, true, update, update_self,
  update_ne, add32, arith, refl, ap, ◌∙◌, sym, ℕ_discrete,
}
use blobly_emb.Trace.Ring.{
  ring_cap, Event, Recorder, encode, push_rec, arm, snapshot, snapshot_count,
}

-- The events `e 0`, …, `e (n - 1)`, recorded one after the other.
abbrev pub record_all : Recorder → (ℕ → Event) → ℕ → Recorder
record_all r e zero = r
record_all r e (suc n) = push_rec (record_all r e n) (e n)

-- The 256 latest events stand in their slots.
record Held (e : ℕ → Event) (n : ℕ) (r : Recorder) : Type 0 where
  running : r.capturing ≡ true
  at_head : r.head ≡ n
  stored : (k : ℕ) → k < n → n ≤ k + ring_cap → r.ring (k % ring_cap) ≡ encode (e k)

push_rec-ring :
    (r : Recorder) (x : Event) (i : ℕ)
    → r.capturing ≡ true
    → (push_rec r x).ring i ≡ update r.ring (r.head % ring_cap) (encode x) i
unfolding push_rec
push_rec-ring r x i run = ground arith

push_rec-Held :
    (e : ℕ → Event) (n : ℕ) (r : Recorder)
    → suc n < 2 ^ 32
    → Held e n r
    → Held e (suc n) (push_rec r (e n))
unfolding push_rec
push_rec-Held e n r small h =
    let run = h.running in
    let at = h.at_head in
    record {
      running = ground arith;
      at_head = ground arith;
      stored = λ k lt near. push_rec-ring r (e n) (k % ring_cap) run ∙ (elim (ℕ_discrete k n) [
        | yes same ↦
            ap (λ m. update r.ring (r.head % ring_cap) (encode (e n)) (m % ring_cap))
              (same ∙ sym at)
            ∙ update_self r.ring (r.head % ring_cap) (encode (e n))
            ∙ ap (λ m. encode (e m)) (sym same)
        | no older ↦
            update_ne r.ring (r.head % ring_cap) (encode (e n)) (k % ring_cap) (omega arith)
            ∙ h.stored k (omega arith) (omega arith)
      ]);
    }

record_all-Held :
    (r : Recorder) (e : ℕ → Event) (n : ℕ) → n < 2 ^ 32 → Held e n (record_all (arm r) e n)
unfolding arm
record_all-Held r e zero small = record {
  running = refl;
  at_head = refl;
  stored = λ k lt near. absurd (omega arith);
}
record_all-Held r e (suc n) small =
    push_rec-Held e n (record_all (arm r) e n) small (record_all-Held r e n (omega arith))

-- The fields as the host reads them from eight bytes.
abbrev pub decode : (ℕ → ℕ) → Event
decode b = record {
  kind = b 1 / 2 ^ 6;
  id = b 0 + b 1 % 2 ^ 6 * 2 ^ 8;
  info = b 2;
  start_us = b 3 + b 4 * 2 ^ 8 + b 5 * 2 ^ 16;
  dur_us = b 6 + b 7 * 2 ^ 8;
}

-- What the eight bytes have room for.
abbrev pub Fits : Event → Type 0
Fits e =
    (e.kind < 2 ^ 2)
    × (e.id < 2 ^ 14)
    × (e.info < 2 ^ 8)
    × (e.start_us < 2 ^ 24)
    × (e.dur_us < 2 ^ 16)

abbrev pub Same : Event → Event → Type 0
Same a b =
    (a.kind ≡ b.kind)
    × (a.id ≡ b.id)
    × (a.info ≡ b.info)
    × (a.start_us ≡ b.start_us)
    × (a.dur_us ≡ b.dur_us)

decode-encode : (e : Event) → Fits e → Same (decode (encode e)) e
decode-encode e (hk, hi, hn, hs, hd) =
    (ground arith, ground arith, ground arith, ground arith, ground arith)

decode_ext :
    (a b : ℕ → ℕ) (e : Event)
    → ((j : ℕ) → j < 8 → a j ≡ b j)
    → Same (decode b) e
    → Same (decode a) e
decode_ext a b e h (ek, ei, en, es, ed) =
    let h0 = h 0 (omega arith) in
    let h1 = h 1 (omega arith) in
    let h2 = h 2 (omega arith) in
    let h3 = h 3 (omega arith) in
    let h4 = h 4 (omega arith) in
    let h5 = h 5 (omega arith) in
    let h6 = h 6 (omega arith) in
    let h7 = h 7 (omega arith) in
    (ground arith, ground arith, ground arith, ground arith, ground arith)

-- After `trace_arm` and `n` events, fewer than 2 ^ 32, that the records have room for, `trace_snapshot` copies as many
-- records as there are, at most 256 and at most `max`; they are the latest ones, oldest first, each
-- with its fields as recorded; and it leaves the rest of the buffer.
pub snapshot_latest :
    (r : Recorder) (out : ℕ → ℕ → ℕ) (e : ℕ → Event) (n max : ℕ)
    → n < 2 ^ 32
    → ((k : ℕ) → k < n → Fits (e k))
    → let (count, out') = snapshot (record_all (arm r) e n) out max in
      (count ≤ n)
      × (count ≤ ring_cap)
      × (count ≤ max)
      × ((count ≡ n) ⊎ (count ≡ ring_cap) ⊎ (count ≡ max))
      × ((i : ℕ) → i < count → Same (decode (out' i)) (e (n - count + i)))
      × ((i j : ℕ) → count ≤ i → out' i j ≡ out i j)
unfolding snapshot
snapshot_latest r out e n max small fits =
    let held = record_all-Held r e n small in
    let at = held.at_head in
    let c = snapshot_count (record_all (arm r) e n) max in
    (
      ground arith,
      ground arith,
      ground arith,
      ground arith,
      λ i lt.
          decode_ext ((snapshot (record_all (arm r) e n) out max).1 i) (encode (e (n - c + i)))
            (e (n - c + i))
            (λ j lj.
              let slot : add32 ((record_all (arm r) e n).head - c) i % ring_cap
                  ≡ (n - c + i) % ring_cap =
                ground arith in
              ground (
                arith,
                ap (λ m. (record_all (arm r) e n).ring m j) slot,
                ap (λ (f : ℕ → ℕ). f j) (held.stored (n - c + i) ground arith ground arith),
              ))
            (decode-encode (e (n - c + i)) (fits (n - c + i) ground arith)),
      λ i j ge. ground arith,
    )
