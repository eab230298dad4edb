-- ===== src/Bulk/Ownership.antt =====
-- Every call keeps each buffer in exactly one place.
use blobly_emb.Prelude.{
  ℕ, suc, ◌+◌, ◌-◌, ◌%◌, ◌^◌, ◌<◌, ◌≡◌, ◌≢◌, sym, ap, ◌∙◌, update, length, length-append, count,
  count-append, add32, sub32, if◌then◌else◌, ◌==◌, List, [], ◌∷◌, ◌++◌, none, some, arith,
}
use Prim.Native.Nat.{◌∣◌}
use blobly_emb.Bulk.{Bulk, loan, publish, take, release}
use blobly_emb.Bulk.Rings.{window, window-push, window-pop, window-wrap, add32-mod, head-mod}
use blobly_emb.Bulk.Session.{
  free_list, ready_list, Session, IsValid, Step, loan_some, loan_none, publish_one, take_some,
  take_none, release_one,
}

-- Taking one element out of a list.
pub count-middle :
    (a : ℕ) (xs : List ℕ) (i : ℕ) (ys : List ℕ)
    → count a (xs ++ i ∷ ys) ≡ (if i == a then 1 else 0) + count a (xs ++ ys)
count-middle a xs i ys = omega (arith, count-append xs (i ∷ ys) a, count-append xs ys a)

pub length-middle :
    (xs : List ℕ) (i : ℕ) (ys : List ℕ) → length (xs ++ i ∷ ys) ≡ suc (length (xs ++ ys))
length-middle xs i ys = omega (arith, length-append {0} xs (i ∷ ys), length-append {0} xs ys)

-- One turn of each ring, on valid cursors.
module _ (ring : ℕ → ℕ) (n h t : ℕ) (hh : h < 2 ^ 32) (ht : t < 2 ^ 32) (div : n ∣ 2 ^ 32) where
  pub ring-pop :
      t ≢ h
      → window ring n t (sub32 h t) ≡ ring (t % n) ∷ window ring n (add32 t 1) (sub32 h (add32 t 1))
  ring-pop ne =
      window-pop ring n t (sub32 h t) (omega arith)
      ∙ ap (λ (l : List ℕ). ring (t % n) ∷ l)
          (window-wrap ring n (suc t) (add32 t 1) (sub32 h t - 1) (sym (add32-mod t n div))
            ∙ ap (window ring n (add32 t 1))
                (let e : sub32 h t - 1 ≡ sub32 h (add32 t 1) = omega arith in e))

  pub ring-push :
      (x : ℕ)
      → sub32 h t < n
      → n < 2 ^ 32
      → window (update ring (h % n) x) n t (sub32 (add32 h 1) t)
        ≡ window ring n t (sub32 h t) ++ (x ∷ [])
  ring-push x lt small =
      ap (window (update ring (h % n) x) n t)
        (let e : sub32 (add32 h 1) t ≡ suc (sub32 h t) = omega arith in e)
      ∙ window-push ring n x (sub32 h t) t h lt (head-mod h t n hh ht div)

-- What each call that succeeds does to the pool.
loan-some :
    (b : Bulk) (i : ℕ)
    → (loan b).0 ≡ some i
    → (b.f_tail ≢ b.f_head)
      × (b.free_ring (b.f_tail % b.nbuf) ≡ i)
      × ((loan b).1 ≡ record b { f_tail = add32 b.f_tail 1 })
unfolding loan
loan-some b i e = ground arith

loan-none :
    (b : Bulk) → (loan b).0 ≡ none → (loan b).1 ≡ record b { overflows = add32 b.overflows 1 }
unfolding loan
loan-none b e = ground arith

take-some :
    (b : Bulk) (i len : ℕ)
    → (take b).0 ≡ some (i, len)
    → (b.r_tail ≢ b.r_head)
      × (b.ready_ring (b.r_tail % b.nbuf) ≡ i)
      × ((take b).1 ≡ record b { r_tail = add32 b.r_tail 1 })
unfolding take
take-some b i len e = ground arith

take-none : (b : Bulk) → (take b).0 ≡ none → (take b).1 ≡ b
unfolding take
take-none b e = ground arith

module _ {s : Session} (v : IsValid s) where
  open v use {
    nbuf_pos, nbuf_small, divides, r_head_word, r_tail_word, f_head_word, f_tail_word, total, once,
  }

  recount : IsValid (record s { pool = record (s.pool) { overflows = add32 s.pool.overflows 1 } })
  recount = record {
    nbuf_pos = nbuf_pos;
    nbuf_small = nbuf_small;
    divides = divides;
    r_head_word = r_head_word;
    r_tail_word = r_tail_word;
    f_head_word = f_head_word;
    f_tail_word = f_tail_word;
    total = total;
    once = once;
  }

  loan-IsValid :
      (i : ℕ)
      → s.pool.f_tail ≢ s.pool.f_head
      → s.pool.free_ring (s.pool.f_tail % s.pool.nbuf) ≡ i
      → IsValid (record s {
        pool = record (s.pool) { f_tail = add32 s.pool.f_tail 1 };
        loaned = i ∷ s.loaned;
      })
  loan-IsValid i ne e =
      let pop =
        ring-pop s.pool.free_ring s.pool.nbuf s.pool.f_head s.pool.f_tail f_head_word f_tail_word
          divides ne in
      record {
        nbuf_pos = nbuf_pos;
        nbuf_small = nbuf_small;
        divides = divides;
        r_head_word = r_head_word;
        r_tail_word = r_tail_word;
        f_head_word = f_head_word;
        f_tail_word = omega arith;
        total = omega arith;
        once = λ j. rw (← e) (omega (arith, once j, ap (count j) pop));
      }

  take-IsValid :
      (i : ℕ)
      → s.pool.r_tail ≢ s.pool.r_head
      → s.pool.ready_ring (s.pool.r_tail % s.pool.nbuf) ≡ i
      → IsValid (record s {
        pool = record (s.pool) { r_tail = add32 s.pool.r_tail 1 };
        taken = i ∷ s.taken;
      })
  take-IsValid i ne e =
      let pop =
        ring-pop s.pool.ready_ring s.pool.nbuf s.pool.r_head s.pool.r_tail r_head_word r_tail_word
          divides ne in
      record {
        nbuf_pos = nbuf_pos;
        nbuf_small = nbuf_small;
        divides = divides;
        r_head_word = r_head_word;
        r_tail_word = omega arith;
        f_head_word = f_head_word;
        f_tail_word = f_tail_word;
        total = omega arith;
        once = λ j. rw (← e) (omega (arith, once j, ap (count j) pop));
      }

  publish-IsValid :
      (xs : List ℕ) (i : ℕ) (ys : List ℕ) (len : ℕ)
      → s.loaned ≡ xs ++ i ∷ ys
      → IsValid (record s { pool = publish s.pool i len; loaned = xs ++ ys })
  unfolding publish
  publish-IsValid xs i ys len e =
      let n = ap length e ∙ length-middle xs i ys in
      let push =
        ring-push s.pool.ready_ring s.pool.nbuf s.pool.r_head s.pool.r_tail r_head_word r_tail_word
          divides i (omega arith) nbuf_small in
      record {
        nbuf_pos = nbuf_pos;
        nbuf_small = nbuf_small;
        divides = divides;
        r_head_word = omega arith;
        r_tail_word = r_tail_word;
        f_head_word = f_head_word;
        f_tail_word = f_tail_word;
        total = omega arith;
        once = λ j. omega (
          arith,
          once j,
          ap (count j) push,
          count-append (ready_list s.pool) (i ∷ []) j,
          ap (count j) e,
          count-middle j xs i ys,
        );
      }

  release-IsValid :
      (xs : List ℕ) (i : ℕ) (ys : List ℕ)
      → s.taken ≡ xs ++ i ∷ ys
      → IsValid (record s { pool = release s.pool i; taken = xs ++ ys })
  unfolding release
  release-IsValid xs i ys e =
      let n = ap length e ∙ length-middle xs i ys in
      let push =
        ring-push s.pool.free_ring s.pool.nbuf s.pool.f_head s.pool.f_tail f_head_word f_tail_word
          divides i (omega arith) nbuf_small in
      record {
        nbuf_pos = nbuf_pos;
        nbuf_small = nbuf_small;
        divides = divides;
        r_head_word = r_head_word;
        r_tail_word = r_tail_word;
        f_head_word = omega arith;
        f_tail_word = f_tail_word;
        total = omega arith;
        once = λ j. omega (
          arith,
          once j,
          ap (count j) push,
          count-append (free_list s.pool) (i ∷ []) j,
          ap (count j) e,
          count-middle j xs i ys,
        );
      }

pub Step-IsValid : {s t : Session} → Step s t → IsValid s → IsValid t
Step-IsValid {s} (loan_some i e) v =
    let r = loan-some s.pool i e in rw r.2 (loan-IsValid v i r.0 r.1)
Step-IsValid {s} (loan_none e) v = rw (loan-none s.pool e) (recount v)
Step-IsValid {s} (publish_one xs i ys len e) v = publish-IsValid v xs i ys len e
Step-IsValid {s} (take_some i len e) v =
    let r = take-some s.pool i len e in rw r.2 (take-IsValid v i r.0 r.1)
Step-IsValid {s} (take_none e) v = rw (take-none s.pool e) v
Step-IsValid {s} (release_one xs i ys e) v = release-IsValid v xs i ys e
