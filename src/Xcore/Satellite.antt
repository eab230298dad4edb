-- ===== src/Xcore/Satellite.antt =====
-- The satellite's steps keep the invariant of Xcore.Gate.
use blobly_emb.Prelude.{
  ℕ, ◌%◌, ◌^◌, ◌<◌, ◌≡◌, ◌≢◌, ◌⊎◌, inl, inr, refl, Bool, true, false, not, ◌||◌, ◌==◌, List, arith,
  ap, sym, ◌∙◌, subst, if_cases, ℕ_discrete,
}
use blobly_emb.Xcore.{Window, Reader, down_reset, gate_open, under_nonce, read_into, ack_of}
use blobly_emb.Xcore.Xor.{ack_of_inj}
use blobly_emb.Xcore.Boots.{
  Phase, closed, renewed, inited, committed, Pc, rests, has_ack, passed, has_read, reading,
  has_ack_again, System, load_ack, load_nonce, begin_read, end_read, load_ack_again,
  load_nonce_again,
}
use blobly_emb.Xcore.Gate.{live, numbered, Kept, ChanOk, PhaseOk, Known, PcOk, Inv, read_into-Kept}

module _ (layout words : ℕ) where
  -- The satellite's steps
  pub load_ack-Inv :
      (s : System) (pc : Pc)
      → s.pc ≡ pc
      → Inv layout words s
      → Inv layout words (load_ack layout words s pc)
  load_ack-Inv s (has_ack a st) e v = v
  load_ack-Inv s (passed a n st) e v = v
  load_ack-Inv s (has_read a n st) e v = v
  load_ack-Inv s (reading a n st whole) e v = v
  load_ack-Inv s (has_ack_again a n a' st) e v = v
  load_ack-Inv s (rests b st) e v =
      let (k, _) = subst (λ q. PcOk layout words s.values s.window s.phase q) e v.pc_ok in
      record {
        small = v.small;
        ack_ok = v.ack_ok;
        odd_ok = v.odd_ok;
        chan_ok = v.chan_ok;
        pc_ok = (k, known v.ack_ok);
      }
    where
      known :
          (s.window.ack ≡ 0)
            ⊎ ((s.window.ack ≡ ack_of layout s.window.nonce) × (s.phase ≡ committed))
          → (s.window.ack ≡ 0)
            ⊎ ((n : ℕ) × (s.window.ack ≡ ack_of layout n) × Known layout words s.window s.phase n)
      known (inl z) = inl z
      known (inr (f, c)) =
          let o =
            odd_of (subst (λ q. (numbered q ≡ false) ⊎ (s.window.nonce % 2 ≡ 1)) c v.odd_ok) in
          inr (s.window.nonce, f, (o, o, inr (refl, ap live c)))
        where
          odd_of : (true ≡ false) ⊎ (s.window.nonce % 2 ≡ 1) → s.window.nonce % 2 ≡ 1
          odd_of (inl f) = absurd (cc f)
          odd_of (inr o) = o

  reset-Kept :
      (values : ℕ → List (List ℕ)) (n : ℕ) (st : Reader)
      → Kept layout words values (down_reset n words st)
  reset-Kept values n st = inl refl

  under-Kept :
      (values : ℕ → List (List ℕ)) (n : ℕ) (st : Reader)
      → Kept layout words values st
      → ((under_nonce n words st).under ≡ n) × Kept layout words values (under_nonce n words st)
  under-Kept values n st k = elim (ℕ_discrete st.under n) [
    | yes e ↦
        if_cases (λ (t : Reader). (t.under ≡ n) × Kept layout words values t) (not (st.under == n))
          (λ f. absurd (ground arith)) (λ f. (e, k))
    | no ne ↦
        if_cases (λ (t : Reader). (t.under ≡ n) × Kept layout words values t) (not (st.under == n))
          (λ f. (refl, inl refl)) (λ f. absurd (ground arith))
  ]

  pub load_nonce-Inv :
      (s : System) (pc : Pc)
      → s.pc ≡ pc
      → Inv layout words s
      → Inv layout words (load_nonce layout words s pc)
  load_nonce-Inv s (rests b st) e v = v
  load_nonce-Inv s (passed a n st) e v = v
  load_nonce-Inv s (has_read a n st) e v = v
  load_nonce-Inv s (reading a n st whole) e v = v
  load_nonce-Inv s (has_ack_again a n a' st) e v = v
  load_nonce-Inv s (has_ack a st) e v =
      let (k, known) = subst (λ q. PcOk layout words s.values s.window s.phase q) e v.pc_ok in
      if_cases (λ (t : System). Inv layout words t) (gate_open layout a s.window.nonce)
        (λ g. record {
          small = v.small;
          ack_ok = v.ack_ok;
          odd_ok = v.odd_ok;
          chan_ok = v.chan_ok;
          pc_ok =
              (let (u, k') = under-Kept s.values s.window.nonce st k in (u, k', current g known));
        })
        (λ g. record {
          small = v.small;
          ack_ok = v.ack_ok;
          odd_ok = v.odd_ok;
          chan_ok = v.chan_ok;
          pc_ok = (inl refl, inl refl);
        })
    where
      current :
          gate_open layout a s.window.nonce ≡ true
          → (a ≡ 0) ⊎ ((n : ℕ) × (a ≡ ack_of layout n) × Known layout words s.window s.phase n)
          → Known layout words s.window s.phase s.window.nonce
      current g (inl z) = absurd (ground arith)
      current g (inr (n, f, (o, p, h))) =
          let f' : a ≡ ack_of layout s.window.nonce = ground arith in
          let small = v.small in
          let same : n ≡ s.window.nonce =
            ack_of_inj layout n s.window.nonce (bound h) small o p (sym f ∙ f') in
          (p, p, now same h)
        where
          bound : (n < s.window.nonce) ⊎ ((n ≡ s.window.nonce) × (live s.phase ≡ true)) → n < 2 ^ 32
          bound (inl lt) = let small = v.small in omega arith
          bound (inr (q, _)) = let small = v.small in omega arith

          now :
              n ≡ s.window.nonce
              → (n < s.window.nonce) ⊎ ((n ≡ s.window.nonce) × (live s.phase ≡ true))
              → (s.window.nonce < s.window.nonce)
                ⊎ ((s.window.nonce ≡ s.window.nonce) × (live s.phase ≡ true))
          now q (inl lt) = absurd (omega arith)
          now q (inr (_, l)) = inr (refl, l)

  live-ChanOk :
      (values : ℕ → List (List ℕ)) (w : Window) (p : Phase)
      → live p ≡ true
      → PhaseOk layout words values w p
      → ChanOk layout words values w.nonce w.chan
  live-ChanOk values w (closed true) l h = h
  live-ChanOk values w (closed false) l h = absurd (cc l)
  live-ChanOk values w renewed l h = absurd (cc l)
  live-ChanOk values w inited l h = absurd (cc l)
  live-ChanOk values w committed l h = h

  pub begin_read-Inv :
      (s : System) (pc : Pc)
      → s.pc ≡ pc
      → Inv layout words s
      → Inv layout words (begin_read layout words s pc)
  begin_read-Inv s (rests b st) e v = v
  begin_read-Inv s (has_ack a st) e v = v
  begin_read-Inv s (has_read a n st) e v = v
  begin_read-Inv s (reading a n st whole) e v = v
  begin_read-Inv s (has_ack_again a n a' st) e v = v
  begin_read-Inv s (passed a n st) e v =
      let (u, k, (o, p, h)) =
        subst (λ q. PcOk layout words s.values s.window s.phase q) e v.pc_ok in
      record {
        small = v.small;
        ack_ok = v.ack_ok;
        odd_ok = v.odd_ok;
        chan_ok = v.chan_ok;
        pc_ok = (u, u, k, kept u k h, omega (arith, h));
      }
    where
      kept :
          st.under ≡ n
          → Kept layout words s.values st
          → (n < s.window.nonce) ⊎ ((n ≡ s.window.nonce) × (live s.phase ≡ true))
          → Kept layout words s.values (read_into s.window.chan words st) ⊎ (n < s.window.nonce)
      kept u k (inl lt) = inr lt
      kept u k (inr (q, l)) = inl (
          read_into-Kept layout words s.values s.window.chan st
            (subst (λ m. ChanOk layout words s.values m s.window.chan) (sym (u ∙ q))
              (live-ChanOk s.values s.window s.phase l v.chan_ok))
            k)

  pub end_read-Inv :
      (s : System) (lapped : Bool) (seq : ℕ) (lanes : ℕ → ℕ) (pc : Pc)
      → s.pc ≡ pc
      → Inv layout words s
      → Inv layout words (end_read layout words s lapped seq lanes pc)
  end_read-Inv s lapped seq lanes (rests b st) e v = v
  end_read-Inv s lapped seq lanes (has_ack a st) e v = v
  end_read-Inv s lapped seq lanes (has_read a n st) e v = v
  end_read-Inv s lapped seq lanes (passed a n st) e v = v
  end_read-Inv s lapped seq lanes (has_ack_again a n a' st) e v = v
  end_read-Inv s lapped seq lanes (reading a n st whole) e v =
      let (u, u', k, k', le) =
        subst (λ q. PcOk layout words s.values s.window s.phase q) e v.pc_ok in
      record {
        small = v.small;
        ack_ok = v.ack_ok;
        odd_ok = v.odd_ok;
        chan_ok = v.chan_ok;
        pc_ok =
            if_cases Ok (not (s.window.nonce == n)) (λ f. (u, inr (ground (arith, le))))
              (λ f. if_cases Ok lapped (λ _. (u, inl k)) (λ _. (u', k')));
      }
    where
      Ok : Reader → Type 0
      Ok r = (r.under ≡ n) × (Kept layout words s.values r ⊎ (n < s.window.nonce))

  pub load_ack_again-Inv :
      (s : System) (pc : Pc)
      → s.pc ≡ pc
      → Inv layout words s
      → Inv layout words (load_ack_again layout words s pc)
  load_ack_again-Inv s (rests b st) e v = v
  load_ack_again-Inv s (has_ack a st) e v = v
  load_ack_again-Inv s (passed a n st) e v = v
  load_ack_again-Inv s (reading a n st whole) e v = v
  load_ack_again-Inv s (has_ack_again a n a' st) e v = v
  load_ack_again-Inv s (has_read a n st) e v = record {
    small = v.small;
    ack_ok = v.ack_ok;
    odd_ok = v.odd_ok;
    chan_ok = v.chan_ok;
    pc_ok = subst (λ q. PcOk layout words s.values s.window s.phase q) e v.pc_ok;
  }

  pub load_nonce_again-Inv :
      (s : System) (pc : Pc)
      → s.pc ≡ pc
      → Inv layout words s
      → Inv layout words (load_nonce_again layout words s pc)
  load_nonce_again-Inv s (rests b st) e v = v
  load_nonce_again-Inv s (has_ack a st) e v = v
  load_nonce_again-Inv s (passed a n st) e v = v
  load_nonce_again-Inv s (reading a n st whole) e v = v
  load_nonce_again-Inv s (has_read a n st) e v = v
  load_nonce_again-Inv s (has_ack_again a n a' st) e v =
      let (u, k) = subst (λ q. PcOk layout words s.values s.window s.phase q) e v.pc_ok in
      record {
        small = v.small;
        ack_ok = v.ack_ok;
        odd_ok = v.odd_ok;
        chan_ok = v.chan_ok;
        pc_ok =
            if_cases
              (λ (r : Bool × Reader).
                Kept layout words s.values r.1 × ((r.0 ≡ false) ⊎ (r.1.seq ≢ 0)))
              (not (a' == a) || not (s.window.nonce == n)) (λ _. (inl refl, inl refl))
              (λ f. (now f k, zero_or st.seq));
      }
    where
      now :
          (not (a' == a) || not (s.window.nonce == n)) ≡ false
          → Kept layout words s.values st ⊎ (n < s.window.nonce)
          → Kept layout words s.values st
      now f (inl k) = k
      now f (inr lt) = absurd (ground arith)

      zero_or : (q : ℕ) → (not (q == 0) ≡ false) ⊎ (q ≢ 0)
      zero_or q = ground arith
