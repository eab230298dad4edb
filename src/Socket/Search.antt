-- ===== src/Socket/Search.antt =====
-- driver/can/can_socket.c: the loops over the table of drop counts.
use blobly_emb.Prelude.{
  ℕ, zero, suc, ◌+◌, ◌≡◌, inl, inr, ◌<◌, ◌≤◌, Bool, true, false, if◌then◌else◌, none, some, arith,
  refl, ap₂, subst, sym, ℕ_discrete, Bool-cases,
}
use blobly_emb.Socket.{Slot, first_of}

pub first_of-suc :
    (test : Slot → Bool) (g : ℕ → Slot) (i n : ℕ)
    → first_of test g i (suc n) ≡ (if test (g i) then some i else first_of test g (suc i) n)
unfolding first_of
first_of-suc test g i n = refl

-- Tests that agree on the entries find the same entry.
pub first_of_ext :
    (test : Slot → Bool) (g h : ℕ → Slot) (i n : ℕ)
    → ((j : ℕ) → i ≤ j → j < i + n → test (g j) ≡ test (h j))
    → first_of test g i n ≡ first_of test h i n
unfolding first_of
first_of_ext test g h i zero same = refl
first_of_ext test g h i (suc n) same =
    let rest = first_of_ext test g h (suc i) n (λ j lo hi. same j (omega arith) (omega arith)) in
    ap₂ (λ b r. if b then some i else r) (same i (omega arith) (omega arith)) rest

-- Where no entry passes, none is found.
pub first_of-none :
    (test : Slot → Bool) (g : ℕ → Slot) (i n : ℕ)
    → ((j : ℕ) → i ≤ j → j < i + n → test (g j) ≡ false)
    → first_of test g i n ≡ none
unfolding first_of
first_of-none test g i zero fails = refl
first_of-none test g i (suc n) fails =
    let rest = first_of-none test g (suc i) n (λ j lo hi. fails j (omega arith) (omega arith)) in
    ap₂ (λ b r. if b then some i else r) (fails i (omega arith) (omega arith)) rest

-- The entry found is the first that passes.
pub first_of_found :
    (test : Slot → Bool) (g : ℕ → Slot) (i n k : ℕ)
    → first_of test g i n ≡ some k
    → (i ≤ k) × (k < i + n) × (test (g k) ≡ true)
unfolding first_of
first_of_found test g i zero k e = absurd (ground arith)
first_of_found test g i (suc n) k e = elim (Bool-cases (test (g i))) [
  | inl here ↦
      let at : i ≡ k = ground arith in
      (omega arith, omega arith, subst (λ j. test (g j) ≡ true) at here)
  | inr not_here ↦
      let (lo, hi, passes) = first_of_found test g (suc i) n k ground arith in
      (omega arith, omega arith, passes)
]

pub first_of_missed :
    (test : Slot → Bool) (g : ℕ → Slot) (i n j : ℕ)
    → first_of test g i n ≡ none
    → i ≤ j
    → j < i + n
    → test (g j) ≡ false
unfolding first_of
first_of_missed test g i zero j e lo hi = absurd (omega arith)
first_of_missed test g i (suc n) j e lo hi = elim (Bool-cases (test (g i))) [
  | inl here ↦ absurd (ground arith)
  | inr not_here ↦ elim (ℕ_discrete i j) [
    | yes at ↦ subst (λ k. test (g k) ≡ false) at not_here
    | no later ↦ first_of_missed test g (suc i) n j ground arith (omega arith) (omega arith)
  ]
]

pub first_of_first :
    (test : Slot → Bool) (g : ℕ → Slot) (i n k : ℕ)
    → i ≤ k
    → k < i + n
    → test (g k) ≡ true
    → ((j : ℕ) → i ≤ j → j < k → test (g j) ≡ false)
    → first_of test g i n ≡ some k
unfolding first_of
first_of_first test g i zero k lo hi passes before = absurd (omega arith)
first_of_first test g i (suc n) k lo hi passes before = elim (ℕ_discrete i k) [
  | yes at ↦
      let here : test (g i) ≡ true = subst (λ j. test (g j) ≡ true) (sym at) passes in
      ground (arith, here, at)
  | no later ↦
      let not_here = before i (omega arith) (omega arith) in
      let rest =
        first_of_first test g (suc i) n k (omega arith) (omega arith) passes
          (λ j lo_j lt. before j (omega arith) lt) in
      ground (arith, not_here, rest)
]

pub first_of_least :
    (test : Slot → Bool) (g : ℕ → Slot) (i n k j : ℕ)
    → first_of test g i n ≡ some k
    → i ≤ j
    → j < k
    → test (g j) ≡ false
unfolding first_of
first_of_least test g i zero k j e lo hi = absurd (ground arith)
first_of_least test g i (suc n) k j e lo hi = elim (Bool-cases (test (g i))) [
  | inl here ↦ absurd (ground arith)
  | inr not_here ↦ elim (ℕ_discrete i j) [
    | yes at ↦ subst (λ m. test (g m) ≡ false) at not_here
    | no later ↦ first_of_least test g (suc i) n k j ground arith (omega arith) hi
  ]
]
