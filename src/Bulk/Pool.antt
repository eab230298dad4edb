-- ===== src/Bulk/Pool.antt =====
-- What the two sides can rely on: exclusive buffers, first in first out, and counted loss.
use blobly_emb.Prelude.{
  ℕ, zero, suc, ◌+◌, ◌-◌, ◌%◌, ◌^◌, ◌≤◌, ◌<◌, ◌≡◌, ◌≢◌, ◌↔◌, refl, sym, ap, ap₂, ◌∙◌, update,
  update_self, update_ne, length, count, add32, sub32, ltb, leb, slice, slice_ext, if◌then◌else◌,
  List, [], ◌∷◌, ◌++◌, map, none, some, arith,
}
use native.Mathlib.Nat.{mod-eq_of_lt, mod-add-mod, zero-mod, dvd_of_mod-eq-zero}
use Prim.Native.Nat.{◌∣◌}
use blobly_emb.Bulk.{
  Bulk, buf_offset, hdr_bytes, array_bytes, bulk_bytes, init, loan, publish, take,
}
use blobly_emb.Bulk.Rings.{window, length-window}
use blobly_emb.Bulk.Session.{
  free_list, ready_list, queue, with_len, Session, places, IsValid, Reach, here, next,
}
use blobly_emb.Bulk.Ownership.{ring-pop, ring-push, Step-IsValid, count-middle, length-middle}

-- The pool after `bulk_init`, with nothing handed out.
abbrev pub fresh : Bulk → ℕ → ℕ → Session
fresh b nbuf bufsz = record { pool = init b nbuf bufsz; loaned = []; taken = [] }

count-slice_id :
    (i s k : ℕ)
    → count i (slice (λ (c : ℕ). c) s k) ≡ (if leb s i then (if ltb i (s + k) then 1 else 0) else 0)
count-slice_id i s zero = ground arith
count-slice_id i s (suc k) = ground (arith, count-slice_id i (suc s) k)

free_list-init :
    (b : Bulk) (nbuf bufsz : ℕ)
    → nbuf < 2 ^ 32
    → free_list (init b nbuf bufsz) ≡ slice (λ (c : ℕ). c) 0 nbuf
unfolding init
free_list-init b nbuf bufsz small =
    ap (window (λ i. if ltb i nbuf then i else b.free_ring i) nbuf 0)
      (let e : sub32 nbuf 0 ≡ nbuf = omega arith in e)
    ∙ slice_ext (λ (c : ℕ). if ltb (c % nbuf) nbuf then c % nbuf else b.free_ring (c % nbuf))
        (λ (c : ℕ). c) 0 nbuf
        (λ j lt. ground (arith, mod-eq_of_lt {n = j} {m = nbuf} (omega arith)))

pub fresh-IsValid :
    (b : Bulk) (nbuf bufsz : ℕ)
    → 0 < nbuf
    → nbuf < 2 ^ 32
    → nbuf ∣ 2 ^ 32
    → IsValid (fresh b nbuf bufsz)
unfolding init
fresh-IsValid b nbuf bufsz pos small div = record {
  nbuf_pos = pos;
  nbuf_small = small;
  divides = div;
  r_head_word = omega arith;
  r_tail_word = omega arith;
  f_head_word = small;
  f_tail_word = omega arith;
  total = omega arith;
  once = λ i.
      ground (arith, ap (count i) (free_list-init b nbuf bufsz small), count-slice_id i 0 nbuf);
}

-- After `bulk_init`, along every sequence of calls that keeps the rules of ownership, each of the
-- `nbuf` buffers stands in exactly one place: the free ring, the ready ring, the producer's hands
-- or the consumer's; and no other index stands in any. `nbuf` has to divide 2 ^ 32.
pub exclusive :
    (b : Bulk) (nbuf bufsz : ℕ) {s : Session}
    → 0 < nbuf
    → nbuf < 2 ^ 32
    → nbuf ∣ 2 ^ 32
    → Reach (fresh b nbuf bufsz) s
    → (i : ℕ) → places s i ≡ (if ltb i s.pool.nbuf then 1 else 0)
exclusive b nbuf bufsz pos small div r i = (Reach-IsValid r).once i
  where
    Reach-IsValid : {s : Session} → Reach (fresh b nbuf bufsz) s → IsValid s
    Reach-IsValid here = fresh-IsValid b nbuf bufsz pos small div
    Reach-IsValid (next r st) = Step-IsValid st (Reach-IsValid r)

map-append_one : (f : ℕ → ℕ × ℕ) (xs : List ℕ) (x : ℕ) → map f (xs ++ x ∷ []) ≡ map f xs ++ f x ∷ []
map-append_one f [] x = refl
map-append_one f (y ∷ xs) x = ap (λ (l : List (ℕ × ℕ)). f y ∷ l) (map-append_one f xs x)

pair_path : {a b : ℕ} (x : ℕ) → a ≡ b → ◌≡◌ {A = ℕ × ℕ} (x, a) (x, b)
pair_path x e = ground arith

-- A length written for an index that does not wait leaves the lengths of those that do.
map-update_len :
    (lens : ℕ → ℕ) (i len : ℕ) (xs : List ℕ)
    → count i xs ≡ 0
    → map (with_len (update lens i len)) xs ≡ map (with_len lens) xs
map-update_len lens i len [] e = refl
map-update_len lens i len (x ∷ xs) e =
    ap₂ ◌∷◌ (pair_path x (update_ne lens i len x (ground arith)))
      (map-update_len lens i len xs (omega arith))

module _ {s : Session} (v : IsValid s) where
  open v use {nbuf_small, divides, r_head_word, r_tail_word, f_head_word, f_tail_word, total, once}

  -- For a valid session: `bulk_publish` of an index on loan puts it, with its length, behind the
  -- queue of what waits for the consumer, and changes no length in the queue.
  pub queue-publish :
      (xs : List ℕ) (i : ℕ) (ys : List ℕ) (len : ℕ)
      → s.loaned ≡ xs ++ i ∷ ys
      → queue (publish s.pool i len) ≡ queue s.pool ++ (i, len) ∷ []
  unfolding publish
  queue-publish xs i ys len e =
      let n = ap length e ∙ length-middle xs i ys in
      let c = ap (count i) e ∙ count-middle i xs i ys in
      let push =
        ring-push s.pool.ready_ring s.pool.nbuf s.pool.r_head s.pool.r_tail r_head_word r_tail_word
          divides i (omega arith) nbuf_small in
      let none_waits : count i (ready_list s.pool) ≡ 0 = ground (arith, once i) in
      ap (map (with_len (update s.pool.len_arr i len))) push
      ∙ map-append_one (with_len (update s.pool.len_arr i len)) (ready_list s.pool) i
      ∙ ap₂ ◌++◌ (map-update_len s.pool.len_arr i len (ready_list s.pool) none_waits)
          (ap (λ (x : ℕ × ℕ). x ∷ []) (pair_path i (update_self s.pool.len_arr i len)))

  -- For a valid session: where something waits, `bulk_take` returns the oldest index with its length
  -- and leaves the rest of the queue.
  pub queue-take :
      s.pool.r_tail ≢ s.pool.r_head
      → let (o, b) = take s.pool in (x : ℕ × ℕ) × (o ≡ some x) × (queue s.pool ≡ x ∷ queue b)
  unfolding take
  queue-take ne =
      let pop =
        ring-pop s.pool.ready_ring s.pool.nbuf s.pool.r_head s.pool.r_tail r_head_word r_tail_word
          divides ne in
      let i = s.pool.ready_ring (s.pool.r_tail % s.pool.nbuf) in
      ((i, s.pool.len_arr i), ground arith, ground (arith, ap (map (with_len s.pool.len_arr)) pop))

-- `bulk_loan` fails exactly when the free ring is empty; then every buffer is with the producer,
-- the consumer or the ready ring, and the loss is counted.
pub loan_exhausted :
    (s : Session)
    → IsValid s
    → ((loan s.pool).0 ≡ none)
      ↔ (length (ready_list s.pool) + length s.loaned + length s.taken ≡ s.pool.nbuf)
unfolding loan
loan_exhausted s v =
    let n =
      length-window s.pool.ready_ring s.pool.nbuf s.pool.r_tail
        (sub32 s.pool.r_head s.pool.r_tail) in
    let fh = v.f_head_word in
    let ft = v.f_tail_word in let t = v.total in (λ e. ground arith, λ e. ground arith)

-- Two buffers of the region do not overlap, and each lies behind the header and inside the region.
pub buf_offset_apart :
    (b : Bulk) (i j : ℕ)
    → i < j
    → j < b.nbuf
    → (hdr_bytes + array_bytes b.nbuf ≤ buf_offset b i)
      × (buf_offset b i + b.bufsz ≤ buf_offset b j)
      × (buf_offset b j + b.bufsz ≤ bulk_bytes b.nbuf b.bufsz)
unfolding buf_offset
buf_offset_apart b i j lt top = grind arith

-- Slot 0 does not follow the slot of the last cursor.
seam_apart :
    (b : Bulk) → ¬ (b.nbuf ∣ 2 ^ 32) → b.r_head ≡ 2 ^ 32 - 1 → (b.r_head % b.nbuf + 1) % b.nbuf ≢ 0
seam_apart b odd e q = odd (
    dvd_of_mod-eq-zero b.nbuf
      (sym (mod-add-mod b.r_head b.nbuf 1 ∙ ap (λ (h : ℕ). (h + 1) % b.nbuf) e) ∙ q))

-- Where `nbuf` does not divide 2 ^ 32, the cursor's wrap is a seam. Of two buffers published from the
-- cursor 2 ^ 32 - 1 on, the first stands at the cursor's slot (where that is not 0) with its length
-- (where it is not the second again), the second, with its length, in slot 0, which is not the slot
-- that follows in the ring; all other slots and lengths are as before.
pub publish_wrap_seam :
    (b : Bulk) (i l j k : ℕ)
    → ¬ (b.nbuf ∣ 2 ^ 32)
    → b.r_head ≡ 2 ^ 32 - 1
    → let c = publish (publish b i l) j k in
      let last = b.r_head % b.nbuf in
      (last ≢ 0 → c.ready_ring last ≡ i)
      × (i ≢ j → c.len_arr i ≡ l)
      × (c.ready_ring 0 ≡ j)
      × (c.len_arr j ≡ k)
      × (0 ≢ (last + 1) % b.nbuf)
      × ((s : ℕ) → s ≢ last → s ≢ 0 → c.ready_ring s ≡ b.ready_ring s)
      × ((x : ℕ) → x ≢ i → x ≢ j → c.len_arr x ≡ b.len_arr x)
unfolding publish
publish_wrap_seam b i l j k odd e =
    let wrapped : add32 b.r_head 1 ≡ 0 = omega arith in
    let slot : add32 b.r_head 1 % b.nbuf ≡ 0 =
      ap (λ (h : ℕ). h % b.nbuf) wrapped ∙ zero-mod b.nbuf in
    (
      λ ne. ground (arith, slot),
      λ ne. ground arith,
      ground (arith, slot),
      ground arith,
      λ q. seam_apart b odd e (sym q),
      λ s ne nz. ground (arith, slot),
      λ x ni nj. ground arith,
    )
