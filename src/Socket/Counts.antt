-- ===== src/Socket/Counts.antt =====
-- driver/can/can_socket.c: the table of drop counts is a map from descriptors to counts.
use blobly_emb.Prelude.{
  ℕ, ◌≡◌, ◌≢◌, ◌⊎◌, inl, inr, ◌<◌, true, false, if◌then◌else◌, ◌==◌, none, some, update,
  update_self, update_ne, update_at, arith, ap, subst, sym, ◌∙◌, ℕ_discrete, Option-cases,
}
use blobly_emb.Socket.{
  Slot, ovfl_slots, first_of, holds, is_free, claim_free, store_at, ovfl_store, ovfl_reset,
  count_at, rx_overruns,
}
use blobly_emb.Socket.Search.{
  first_of_ext, first_of-none, first_of_found, first_of_missed, first_of_least, first_of_first,
}

-- The descriptor has an entry, or there is room for one.
abbrev pub HasRoom : (ℕ → Slot) → ℕ → Type 0
HasRoom g fd = (i : ℕ) × (i < ovfl_slots) × ((holds fd (g i) ≡ true) ⊎ ((g i).in_use ≡ false))

-- Two tables with the same entries of a descriptor have the same count for it.
same_count :
    (g h : ℕ → Slot) (q : ℕ)
    → ((j : ℕ) → holds q (g j) ≡ holds q (h j))
    → ((j : ℕ) → holds q (g j) ≡ true → (g j).ovfl ≡ (h j).ovfl)
    → rx_overruns h q ≡ rx_overruns g q
unfolding rx_overruns
same_count g h q holders counts =
    let found : first_of (holds q) g 0 ovfl_slots ≡ first_of (holds q) h 0 ovfl_slots =
      first_of_ext (holds q) g h 0 ovfl_slots (λ j lo hi. holders j) in
    elim (Option-cases (first_of (holds q) g 0 ovfl_slots)) [
      | inl missed ↦ ap (count_at h) (sym found ∙ missed) ∙ sym (ap (count_at g) missed)
      | inr (k, at) ↦
          let (lo, hi, passes) = first_of_found (holds q) g 0 ovfl_slots k at in
          ap (count_at h) (sym found ∙ at) ∙ sym (counts k passes) ∙ sym (ap (count_at g) at)
    ]

-- An entry changed where it holds another descriptor's count before and after
change_other :
    (g : ℕ → Slot) (i : ℕ) (s : Slot) (q : ℕ)
    → holds q (g i) ≡ false
    → holds q s ≡ false
    → rx_overruns (update g i s) q ≡ rx_overruns g q
change_other g i s q before after =
    same_count g (update g i s) q
      (λ j. elim (ℕ_discrete i j) [
        | yes here ↦
            ap (holds q) (ap g (sym here))
            ∙ before
            ∙ sym after
            ∙ sym (ap (holds q) (update_at g i s j here))
        | no other ↦ ap (holds q) (sym (update_ne g i s j other))
      ])
      (λ j held. elim (ℕ_discrete i j) [
        | yes here ↦ absurd (
            let clash : false ≡ true = sym before ∙ ap (λ k. holds q (g k)) here ∙ held in
            ground arith)
        | no other ↦ ap (λ (x : Slot). x.ovfl) (sym (update_ne g i s j other))
      ])

-- An entry of the descriptor found first after the change
change_own :
    (g : ℕ → Slot) (i : ℕ) (s : Slot) (fd : ℕ)
    → i < ovfl_slots
    → holds fd s ≡ true
    → ((j : ℕ) → j < i → holds fd (g j) ≡ false)
    → rx_overruns (update g i s) fd ≡ s.ovfl
unfolding rx_overruns
change_own g i s fd lt after before =
    let at : update g i s i ≡ s = update_self g i s in
    let found : first_of (holds fd) (update g i s) 0 ovfl_slots ≡ some i =
      first_of_first (holds fd) (update g i s) 0 ovfl_slots i (omega arith) (omega arith)
        (ap (holds fd) at ∙ after)
        (λ j lo below. ap (holds fd) (update_ne g i s j (omega arith)) ∙ before j below) in
    ap (count_at (update g i s)) found ∙ ap (λ (x : Slot). x.ovfl) at

-- The first entry of a descriptor, kept in place with another count
keep_own :
    (g : ℕ → Slot) (i fd v : ℕ)
    → first_of (holds fd) g 0 ovfl_slots ≡ some i
    → (rx_overruns (update g i (record (g i) { ovfl = v })) fd ≡ v)
      × ((q : ℕ)
          → fd ≢ q
          → rx_overruns (update g i (record (g i) { ovfl = v })) q ≡ rx_overruns g q)
keep_own g i fd v e =
    let (lo, hi, held) = first_of_found (holds fd) g 0 ovfl_slots i e in
    let s : Slot = record (g i) { ovfl = v } in
    (
      change_own g i s fd (omega arith) held
          (λ j lt. first_of_least (holds fd) g 0 ovfl_slots i j e (omega arith) lt),
      λ q ne.
          let not_held : holds q (g i) ≡ false = ground arith in
          change_other g i s q not_held not_held,
    )

claim_own :
    (g : ℕ → Slot) (i fd v : ℕ)
    → first_of (holds fd) g 0 ovfl_slots ≡ none
    → first_of is_free g 0 ovfl_slots ≡ some i
    → (rx_overruns (claim_free g fd v (some i)) fd ≡ v)
      × ((q : ℕ) → fd ≢ q → rx_overruns (claim_free g fd v (some i)) q ≡ rx_overruns g q)
claim_own g i fd v missed e =
    let (lo, hi, free) = first_of_found is_free g 0 ovfl_slots i e in
    let s : Slot = record { fd = fd; ovfl = v; in_use = true } in
    (
      change_own g i s fd (omega arith) (ground arith)
          (λ j lt. first_of_missed (holds fd) g 0 ovfl_slots j missed (omega arith) (omega arith)),
      λ q ne. change_other g i s q (ground arith) (ground arith),
    )

-- What a table holds of every descriptor after the count `v` of `fd` was stored
abbrev pub IsStored : (ℕ → Slot) → (ℕ → Slot) → ℕ → ℕ → Type 0
IsStored g h fd v = (q : ℕ) → rx_overruns h q ≡ (if q == fd then v else rx_overruns g q)

stored :
    (g h : ℕ → Slot) (fd v : ℕ)
    → rx_overruns h fd ≡ v
    → ((q : ℕ) → fd ≢ q → rx_overruns h q ≡ rx_overruns g q)
    → IsStored g h fd v
stored g h fd v own others q = elim (ℕ_discrete fd q) [
  | yes here ↦ let at = ap (rx_overruns h) (sym here) in ground (arith, at, own)
  | no other ↦ let same = others q other in ground (arith, same)
]

-- `ovfl_store` updates a map from descriptors to counts: where the descriptor has an entry or one of
-- the 16 is free, `blob_can_rx_overruns` gives the count stored for it afterwards, and for every
-- other descriptor what it gave before.
pub rx_overruns-ovfl_store :
    (g : ℕ → Slot) (fd v : ℕ) → HasRoom g fd → IsStored g (ovfl_store g fd v) fd v
unfolding ovfl_store
rx_overruns-ovfl_store g fd v (i, lt, room) =
    elim (Option-cases (first_of (holds fd) g 0 ovfl_slots)) [
      | inr (k, at) ↦
          let (own, others) = keep_own g k fd v at in
          subst (λ o. IsStored g (store_at g fd v o) fd v) (sym at) (stored g _ fd v own others)
      | inl missed ↦ elim (Option-cases (first_of is_free g 0 ovfl_slots)) [
        | inr (k, free) ↦
            let (own, others) = claim_own g k fd v missed free in
            subst (λ o. IsStored g (store_at g fd v o) fd v) (sym missed)
              (subst (λ o. IsStored g (claim_free g fd v o) fd v) (sym free)
                (stored g _ fd v own others))
        | inl full ↦
            let held =
              first_of_missed (holds fd) g 0 ovfl_slots i missed (omega arith) (omega arith) in
            let used = first_of_missed is_free g 0 ovfl_slots i full (omega arith) (omega arith) in
            absurd (elim room [ inl holds_fd ↦ ground arith | inr free ↦ ground arith ])
      ]
    ]

-- After `ovfl_reset`, at `blob_can_open` and `blob_can_close`, the count of the descriptor is 0 and
-- that of every other is what it was.
pub rx_overruns-ovfl_reset : (g : ℕ → Slot) (fd : ℕ) → IsStored g (ovfl_reset g fd) fd 0
unfolding rx_overruns
rx_overruns-ovfl_reset g fd =
    stored g (ovfl_reset g fd) fd 0
      (ap (count_at (ovfl_reset g fd))
        (first_of-none (holds fd) (ovfl_reset g fd) 0 ovfl_slots (λ j lo hi. ground arith)))
      (λ q ne. same_count g (ovfl_reset g fd) q (λ j. ground arith) (λ j held. ground arith))
