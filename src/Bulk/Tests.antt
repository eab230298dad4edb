-- ===== src/Bulk/Tests.antt =====
-- The pool at concrete inputs.
use blobly_emb.Prelude.{
  ℕ, ◌+◌, ◌-◌, ◌%◌, ◌^◌, ◌≡◌, ◌≢◌, refl, arith, [], ◌∷◌, some, if◌then◌else◌, ltb,
}
use Prim.Native.Nat.{◌∣◌}
use native.Mathlib.Nat.{dvd_of_mod-eq-zero, mod-eq-zero_of_dvd}
use blobly_emb.Bulk.{Bulk, init, loan, publish, take}
use blobly_emb.Bulk.Session.{Session, IsValid, places, Reach, here, next, loan_some, publish_one}
use blobly_emb.Bulk.Ownership.{Step-IsValid}
use blobly_emb.Bulk.Pool.{fresh, fresh-IsValid, exclusive, publish_wrap_seam}

abbrev region : Bulk
region = record {
  magic = 0;
  nbuf = 9;
  bufsz = 9;
  r_head = 9;
  f_tail = 9;
  overflows = 9;
  r_tail = 9;
  f_head = 9;
  free_ring = λ i. 9;
  ready_ring = λ i. 9;
  len_arr = λ i. 9;
}

four : 4 ∣ 2 ^ 32
four = dvd_of_mod-eq-zero 4 refl

-- Two buffers loaned.
abbrev two_loans : (s : Session) × Reach (fresh region 4 32) s
unfolding init loan
two_loans = (_, next (next here (loan_some 0 refl)) (loan_some 1 refl))

exclusive_example : places two_loans.0 1 ≡ (if ltb 1 two_loans.0.pool.nbuf then 1 else 0)
exclusive_example = exclusive region 4 32 (omega arith) (omega arith) four two_loans.1 1

two_loans-IsValid : IsValid two_loans.0
unfolding init loan
two_loans-IsValid =
    Step-IsValid (loan_some 1 refl)
      (Step-IsValid (loan_some 0 refl) (fresh-IsValid region 4 32 (omega arith) (omega arith) four))

-- The second loan is published.
abbrev one_ready : Session
one_ready = record { pool = publish two_loans.0.pool 1 5; loaned = 0 ∷ []; taken = [] }

one_ready-IsValid : IsValid one_ready
unfolding init loan
one_ready-IsValid = Step-IsValid (publish_one [] 1 (0 ∷ []) 5 refl) two_loans-IsValid

-- Three buffers, and four descriptors' worth of publishes short of the wrap.
abbrev at_wrap : Bulk
at_wrap = record region { nbuf = 3; bufsz = 32; r_head = 2 ^ 32 - 1; r_tail = 2 ^ 32 - 1 }

three : ¬ (3 ∣ 2 ^ 32)
three d = let e : 2 ^ 32 % 3 ≡ 0 = mod-eq-zero_of_dvd 3 d in omega arith

publish_wrap_seam_example :
    let c = publish (publish at_wrap 2 8) 1 4 in
    let last = at_wrap.r_head % 3 in
    (last ≢ 0 → c.ready_ring last ≡ 2)
    × (◌≢◌ {A = ℕ} 2 1 → c.len_arr 2 ≡ 8)
    × (c.ready_ring 0 ≡ 1)
    × (c.len_arr 1 ≡ 4)
    × (◌≢◌ {A = ℕ} 0 ((last + 1) % 3))
    × ((s : ℕ) → s ≢ last → s ≢ 0 → c.ready_ring s ≡ at_wrap.ready_ring s)
    × ((x : ℕ) → x ≢ 2 → x ≢ 1 → c.len_arr x ≡ at_wrap.len_arr x)
publish_wrap_seam_example = publish_wrap_seam at_wrap 2 8 1 4 three refl

-- The second descriptor takes the place of the first: the consumer takes it twice, and the first
-- buffer never.
descriptor_lost :
    let b = publish (publish at_wrap 0 8) 1 8 in
    ((take b).0 ≡ some (1, 8)) × ((take (take b).1).0 ≡ some (1, 8))
unfolding publish take
descriptor_lost = (refl, refl)
