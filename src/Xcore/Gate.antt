-- ===== src/Xcore/Gate.antt =====
-- What the satellite takes for a value is one of the owner boot that it names.
use blobly_emb.Prelude.{
  ℕ, ◌+◌, ◌%◌, ◌^◌, ◌<◌, ◌≡◌, ◌≢◌, ◌⊎◌, inl, inr, Bool, true, false, not, ◌||◌, ltb, ◌==◌, List, [],
  ◌∷◌, slice, slice_ext, slice-memcpy, memcpy, arith, sym, subst, if_cases,
}
use blobly_emb.Xioc.{XiocN, write_n, read_n, slot_at, xioc_max_words}
use blobly_emb.Xcore.{Window, Reader, read_into, ack_of}
use blobly_emb.Xcore.Boots.{
  Phase, closed, renewed, inited, committed, Pc, rests, has_ack, passed, has_read, reading,
  has_ack_again, System,
}

abbrev pub Among : List ℕ → List (List ℕ) → Type 0
Among v [] = ⊥
Among v (x ∷ xs) = (v ≡ x) ⊎ Among v xs

-- A boot that was committed and is not over
abbrev pub live : Phase → Bool
live (closed was) = was
live renewed = false
live inited = false
live committed = true

abbrev pub numbered : Phase → Bool
numbered (closed was) = was
numbered renewed = true
numbered inited = true
numbered committed = true

module _ (layout words : ℕ) where
  abbrev pub Kept : (ℕ → List (List ℕ)) → Reader → Type 0
  Kept values st = (st.seq ≡ 0) ⊎ Among (slice st.lanes 0 words) (values st.under)

  abbrev pub payload : XiocN → List ℕ
  payload c = slice (λ i. c.cell (slot_at c.latest c.words + 1 + i)) 0 words

  abbrev pub ChanOk : (ℕ → List (List ℕ)) → ℕ → XiocN → Type 0
  ChanOk values nonce c = (c.words ≡ words) × ((c.latest ≡ 0) ⊎ Among (payload c) (values nonce))

  -- The channel under its boot, once it is initialised
  abbrev pub PhaseOk : (ℕ → List (List ℕ)) → Window → Phase → Type 0
  PhaseOk values w (closed false) = Unit
  PhaseOk values w (closed true) = ChanOk values w.nonce w.chan
  PhaseOk values w renewed = Unit
  PhaseOk values w inited = ChanOk values w.nonce w.chan
  PhaseOk values w committed = ChanOk values w.nonce w.chan

  -- A nonce that a loaded acknowledgement stands for
  abbrev pub Known : Window → Phase → ℕ → Type 0
  Known w phase n =
      (n % 2 ≡ 1) × (w.nonce % 2 ≡ 1) × ((n < w.nonce) ⊎ ((n ≡ w.nonce) × (live phase ≡ true)))

  abbrev pub PcOk : (ℕ → List (List ℕ)) → Window → Phase → Pc → Type 0
  PcOk values w phase (rests b st) = Kept values st × ((b ≡ false) ⊎ (st.seq ≢ 0))
  PcOk values w phase (has_ack a st) =
      Kept values st × ((a ≡ 0) ⊎ ((n : ℕ) × (a ≡ ack_of layout n) × Known w phase n))
  PcOk values w phase (passed a n st) = (st.under ≡ n) × Kept values st × Known w phase n
  PcOk values w phase (reading a n st whole) =
      (st.under ≡ n)
      × (whole.under ≡ n)
      × Kept values st
      × (Kept values whole ⊎ (n < w.nonce))
      × ((n < w.nonce) ⊎ (n ≡ w.nonce))
  PcOk values w phase (has_read a n st) = (st.under ≡ n) × (Kept values st ⊎ (n < w.nonce))
  PcOk values w phase (has_ack_again a n a' st) = (st.under ≡ n) × (Kept values st ⊎ (n < w.nonce))

  pub record Inv (s : System) : Type 0 where
    pub small : s.window.nonce < 2 ^ 32
    pub ack_ok :
        (s.window.ack ≡ 0) ⊎ ((s.window.ack ≡ ack_of layout s.window.nonce) × (s.phase ≡ committed))
    pub odd_ok : (numbered s.phase ≡ false) ⊎ (s.window.nonce % 2 ≡ 1)
    pub chan_ok : PhaseOk s.values s.window s.phase
    pub pc_ok : PcOk s.values s.window s.phase s.pc

  pub read_into-Kept :
      (values : ℕ → List (List ℕ)) (c : XiocN) (st : Reader)
      → ChanOk values st.under c
      → Kept values st
      → Kept values (read_into c words st)
  unfolding read_n
  read_into-Kept values c st (w, ok) k =
      if_cases P (c.latest == 0 || c.latest == st.seq) (λ _. k)
        (λ e.
          if_cases P (not (c.words == words) || ltb xioc_max_words c.words) (λ _. k)
            (λ _.
              if_cases P (not (c.cell (slot_at c.latest c.words) == c.latest)) (λ _. k)
                (λ _. inr (fresh e ok))))
    where
      P : Bool × ℕ × (ℕ → ℕ) → Type 0
      P r = Kept values (record st { seq = r.1; lanes = r.2 })

      fresh :
          (c.latest == 0 || c.latest == st.seq) ≡ false
          → (c.latest ≡ 0) ⊎ Among (payload c) (values st.under)
          → Among
              (slice
                (memcpy st.lanes (λ i. c.cell (slot_at c.latest c.words + 1 + i)) c.words)
                0
                words)
              (values st.under)
      fresh e (inl z) = absurd (ground arith)
      fresh e (inr among) =
          subst
            (λ k.
              Among
                (slice (memcpy st.lanes (λ i. c.cell (slot_at c.latest c.words + 1 + i)) k) 0 words)
                (values st.under))
            (sym w)
            (subst (λ l. Among l (values st.under))
              (sym (slice-memcpy st.lanes (λ i. c.cell (slot_at c.latest c.words + 1 + i)) words))
              among)

  pub payload-write_n :
      (values : List (List ℕ)) (c : XiocN) (src : ℕ → ℕ)
      → c.words ≡ words
      → (payload (write_n c src) ≡ slice src 0 words) × ((write_n c src).words ≡ words)
  unfolding write_n
  payload-write_n values c src w = (
    slice_ext (λ i. (write_n c src).cell (slot_at (write_n c src).latest c.words + 1 + i)) src 0
        words (λ i lt. ground arith),
    w,
  )
