-- ===== src/Trace/Stable.antt =====
-- boards/common/trace_hooks.c: a thread keeps its number, and no two share one.
use blobly_emb.Prelude.{
  ℕ, zero, suc, ◌+◌, ◌≤◌, ◌<◌, ◌≡◌, ◌≢◌, if◌then◌else◌, ◌==◌, none, some, update, arith, ℕ_discrete,
  refl, sym, ap, ◌∙◌, List, [], ◌∷◌, Option-cases, inl, inr,
}
use blobly_emb.Trace.Ids.{Ids, bind_thread, find, thread_id, max_threads}

-- A hit is an entry of the pointer.
find-some :
    (ptr : ℕ → ℕ) (p i n k : ℕ) → find ptr p i n ≡ some k → (ptr k ≡ p) × (i ≤ k) × (k < i + n)
unfolding find
find-some ptr p i zero k e = ground arith
find-some ptr p i (suc n) k e = elim (ℕ_discrete (ptr i) p) [
  | yes here ↦ ground arith
  | no further ↦ ground (arith, find-some ptr p (suc i) n k)
]

find-suc :
    (ptr : ℕ → ℕ) (p i n : ℕ)
    → find ptr p i (suc n) ≡ (if ptr i == p then some i else find ptr p (suc i) n)
unfolding find
find-suc ptr p i n = refl

-- An entry behind the others changes no search that hits.
find-append :
    (ptr : ℕ → ℕ) (p q i n k : ℕ)
    → find ptr p i n ≡ some k
    → find (update ptr (i + n) q) p i (suc n) ≡ some k
find-append ptr p q i zero k e = unfold find in ground arith
find-append ptr p q i (suc n) k e =
    let old = find-suc ptr p i n in
    let upd = update ptr (i + suc n) q in
    let new = find-suc upd p i (suc n) in
    let same : i + suc n ≡ suc i + n = omega arith in
    elim (ℕ_discrete (ptr i) p) [
      | yes here ↦ ground arith
      | no further ↦
          let ih = find-append ptr p q (suc i) n k ground arith in
          ground (arith, ap (λ m. find (update ptr m q) p (suc i) (suc n)) same)
    ]

-- The search for the new entry of a pointer that was not there hits it.
find-new :
    (ptr : ℕ → ℕ) (p i n : ℕ)
    → find ptr p i n ≡ none
    → find (update ptr (i + n) p) p i (suc n) ≡ some (i + n)
find-new ptr p i zero e = unfold find in ground arith
find-new ptr p i (suc n) e =
    let old = find-suc ptr p i n in
    let upd = update ptr (i + suc n) p in
    let new = find-suc upd p i (suc n) in
    let same : i + suc n ≡ suc i + n = omega arith in
    elim (ℕ_discrete (ptr i) p) [
      | yes here ↦ ground arith
      | no further ↦
          let ih = find-new ptr p (suc i) n ground arith in
          ground (arith, ap (λ m. find (update ptr m p) p (suc i) (suc n)) same)
    ]

-- The pointer `p` has the number `suc k`.
abbrev pub Known : Ids → ℕ → ℕ → Type 0
Known t p k = find t.ptr p 0 t.n ≡ some k

thread_id-Known :
    (t : Ids) (p k : ℕ) → (thread_id t p).0 ≡ suc k → (p ≢ 0) × Known (thread_id t p).1 p k
unfolding thread_id
thread_id-Known t p k e = elim (Option-cases (find t.ptr p 0 t.n)) [
  | inl miss ↦ let new = find-new t.ptr p 0 t.n miss in (ground arith, ground (arith, new))
  | inr (i, hit) ↦ (ground arith, ground arith)
]

Known-thread_id : (t : Ids) (p k : ℕ) → p ≢ 0 → Known t p k → (thread_id t p).0 ≡ suc k
unfolding thread_id
Known-thread_id t p k ne e = ground arith

-- The calls
pub data Call : Type 0 where
  bind : (tcb : ℕ) → Call
  ask : (p : ℕ) → Call

abbrev pub call : Ids → Call → Ids
call t (bind tcb) = bind_thread t tcb
call t (ask p) = (thread_id t p).1

abbrev pub calls : Ids → List Call → Ids
calls t [] = t
calls t (c ∷ cs) = calls (call t c) cs

call-Known : (t : Ids) (c : Call) (p k : ℕ) → Known t p k → Known (call t c) p k
unfolding bind_thread thread_id
call-Known t (bind tcb) p k e = let more = find-append t.ptr p tcb 0 t.n k e in ground arith
call-Known t (ask q) p k e =
    let more = find-append t.ptr p q 0 t.n k e in
    elim (Option-cases (find t.ptr q 0 t.n)) [
      | inl miss ↦ ground arith
      | inr (i, hit) ↦ ground arith
    ]

calls-Known : (t : Ids) (cs : List Call) (p k : ℕ) → Known t p k → Known (calls t cs) p k
calls-Known t [] p k e = e
calls-Known t (c ∷ cs) p k e = calls-Known (call t c) cs p k (call-Known t c p k e)

call_bounded : (t : Ids) (c : Call) → t.n ≤ max_threads → (call t c).n ≤ max_threads
unfolding bind_thread thread_id
call_bounded t (bind tcb) le = ground arith
call_bounded t (ask q) le = elim (Option-cases (find t.ptr q 0 t.n)) [
  | inl miss ↦ ground arith
  | inr (i, hit) ↦ ground arith
]

-- A thread that was given a number, one of 1 to 8, keeps it over every later sequence of binds and
-- look-ups, and no other thread is ever given the same.
pub ids_stable :
    (t : Ids) (p k : ℕ) (cs : List Call)
    → t.n ≤ max_threads
    → (thread_id t p).0 ≡ suc k
    → let later = calls (thread_id t p).1 cs in
      (k < max_threads)
      × ((thread_id later p).0 ≡ suc k)
      × ((q : ℕ) → (thread_id later q).0 ≡ suc k → q ≡ p)
ids_stable t p k cs le e =
    let later = calls (thread_id t p).1 cs in
    let (ne, known) = thread_id-Known t p k e in
    let kept = calls-Known (thread_id t p).1 cs p k known in
    let (at, low, high) = find-some (thread_id t p).1.ptr p 0 (thread_id t p).1.n k known in
    (
      omega (arith, call_bounded t (ask p) le),
      Known-thread_id later p k ne kept,
      λ q same.
          let (ne', known') = thread_id-Known later q k same in
          let kept' = call-Known later (ask q) p k kept in
          let (at', _, _) =
            find-some (thread_id later q).1.ptr q 0 (thread_id later q).1.n k known' in
          let (at'', _, _) =
            find-some (thread_id later q).1.ptr p 0 (thread_id later q).1.n k kept' in
          sym at' ∙ at'',
    )
