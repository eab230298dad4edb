-- ===== src/Xcore/Steps.antt =====
-- The owner's steps keep the invariant of Xcore.Gate.
use blobly_emb.Prelude.{
  ℕ, ◌+◌, ◌%◌, ◌^◌, ◌≤◌, ◌<◌, ◌≡◌, ◌⊎◌, inl, inr, refl, true, false, ltb, ltb→lt, List, ◌∷◌, slice,
  update, update_self, update_at, update_ne, arith, ap, sym, ◌∙◌, subst, if_cases, ℕ_discrete,
}
use blobly_emb.Xioc.{init_n, write_n}
use blobly_emb.Xcore.{
  Window, retract, renew, ow_init, owner_commit, opub_n, Reader, ack_of, seed_of,
}
use blobly_emb.Xcore.Boots.{
  Phase, closed, renewed, inited, committed, Pc, rests, has_ack, passed, has_read, reading,
  has_ack_again, System, retracted, renew_step, init_step, commit_step, publish_step,
}
use blobly_emb.Xcore.Gate.{
  Among, live, numbered, Kept, payload, ChanOk, PhaseOk, Known, PcOk, Inv, payload-write_n,
}

module _ (layout words : ℕ) where
  -- Among more values, and under a later nonce
  abbrev Grows : (ℕ → List (List ℕ)) → (ℕ → List (List ℕ)) → Type 0
  Grows values values' = (n : ℕ) (v : List ℕ) → Among v (values n) → Among v (values' n)

  Kept-Grows :
      (values values' : ℕ → List (List ℕ)) (st : Reader)
      → Grows values values'
      → Kept layout words values st
      → Kept layout words values' st
  Kept-Grows values values' st g (inl z) = inl z
  Kept-Grows values values' st g (inr among) = inr (g st.under (slice st.lanes 0 words) among)

  -- The window after a step of the owner: the nonce as it was and a live boot live, or a later nonce
  abbrev Later : Window → Phase → Window → Phase → Type 0
  Later w phase w' phase' =
      ((w'.nonce ≡ w.nonce) × ((live phase ≡ false) ⊎ (live phase' ≡ true)))
      ⊎ ((w.nonce < w'.nonce) × (w'.nonce % 2 ≡ 1))

  Known-Later :
      (w w' : Window) (phase phase' : Phase) (n : ℕ)
      → Later w phase w' phase'
      → Known layout words w phase n
      → Known layout words w' phase' n
  Known-Later w w' phase phase' n (inl (e, l)) (o, p, inl lt) = (o, omega arith, inl (omega arith))
  Known-Later w w' phase phase' n (inl (e, inl f)) (o, p, inr (m, l)) = absurd (cc (f, l))
  Known-Later w w' phase phase' n (inl (e, inr t)) (o, p, inr (m, l)) =
      (o, omega arith, inr (omega arith, t))
  Known-Later w w' phase phase' n (inr (lt, q)) (o, p, inl lt') = (o, q, inl (omega arith))
  Known-Later w w' phase phase' n (inr (lt, q)) (o, p, inr (m, l)) = (o, q, inl (omega arith))

  nonce-le : (w w' : Window) (phase phase' : Phase) → Later w phase w' phase' → w.nonce ≤ w'.nonce
  nonce-le w w' phase phase' (inl (e, l)) = omega arith
  nonce-le w w' phase phase' (inr (lt, q)) = omega arith

  PcOk-Later :
      (values values' : ℕ → List (List ℕ)) (w w' : Window) (phase phase' : Phase) (pc : Pc)
      → Grows values values'
      → Later w phase w' phase'
      → PcOk layout words values w phase pc
      → PcOk layout words values' w' phase' pc
  PcOk-Later values values' w w' phase phase' (rests b st) g l (k, r) =
      (Kept-Grows values values' st g k, r)
  PcOk-Later values values' w w' phase phase' (has_ack a st) g l (k, inl z) =
      (Kept-Grows values values' st g k, inl z)
  PcOk-Later values values' w w' phase phase' (has_ack a st) g l (k, inr (n, e, known)) =
      (Kept-Grows values values' st g k, inr (n, e, Known-Later w w' phase phase' n l known))
  PcOk-Later values values' w w' phase phase' (passed a n st) g l (u, k, known) =
      (u, Kept-Grows values values' st g k, Known-Later w w' phase phase' n l known)
  PcOk-Later values values' w w' phase phase' (reading a n st whole) g l (u, u', k, k', le) =
      let later = nonce-le w w' phase phase' l in
      (u, u', Kept-Grows values values' st g k, whole_kept k', omega (arith, le))
    where
      whole_kept :
          Kept layout words values whole ⊎ (n < w.nonce)
          → Kept layout words values' whole ⊎ (n < w'.nonce)
      whole_kept (inl k) = inl (Kept-Grows values values' whole g k)
      whole_kept (inr lt) = let later = nonce-le w w' phase phase' l in inr (omega arith)
  PcOk-Later values values' w w' phase phase' (has_read a n st) g l (u, inl k) =
      (u, inl (Kept-Grows values values' st g k))
  PcOk-Later values values' w w' phase phase' (has_read a n st) g l (u, inr lt) =
      let le = nonce-le w w' phase phase' l in (u, inr (omega arith))
  PcOk-Later values values' w w' phase phase' (has_ack_again a n a' st) g l (u, inl k) =
      (u, inl (Kept-Grows values values' st g k))
  PcOk-Later values values' w w' phase phase' (has_ack_again a n a' st) g l (u, inr lt) =
      let le = nonce-le w w' phase phase' l in (u, inr (omega arith))

  -- The owner's steps
  pub retract-Inv :
      (s : System) (p : Phase)
      → s.phase ≡ p
      → Inv layout words s
      → Inv layout words (record s { window = retract s.window; phase = retracted p })
  retract-Inv s p e v = record {
    small = v.small;
    ack_ok = inl refl;
    odd_ok = odd_of p (subst (λ q. (numbered q ≡ false) ⊎ (s.window.nonce % 2 ≡ 1)) e v.odd_ok);
    chan_ok = chan_of p (subst (λ q. PhaseOk layout words s.values s.window q) e v.chan_ok);
    pc_ok =
        PcOk-Later s.values s.values s.window (retract s.window) p (retracted p) s.pc (λ n x a. a)
          (inl (refl, live_of p))
          (subst (λ q. PcOk layout words s.values s.window q s.pc) e v.pc_ok);
  }
    where
      odd_of :
          (p : Phase)
          → (numbered p ≡ false) ⊎ (s.window.nonce % 2 ≡ 1)
          → (numbered (retracted p) ≡ false) ⊎ (s.window.nonce % 2 ≡ 1)
      odd_of (closed was) h = h
      odd_of renewed h = inl refl
      odd_of inited h = inl refl
      odd_of committed h = h

      chan_of :
          (p : Phase)
          → PhaseOk layout words s.values s.window p
          → PhaseOk layout words s.values (retract s.window) (retracted p)
      chan_of (closed true) h = h
      chan_of (closed false) h = tt
      chan_of renewed h = tt
      chan_of inited h = tt
      chan_of committed h = h

      live_of : (p : Phase) → (live p ≡ false) ⊎ (live (retracted p) ≡ true)
      live_of (closed true) = inr refl
      live_of (closed false) = inl refl
      live_of renewed = inl refl
      live_of inited = inl refl
      live_of committed = inr refl

  pub renew-Inv :
      (s : System) (p : Phase)
      → s.phase ≡ p
      → Inv layout words s
      → Inv layout words (renew_step s p)
  renew-Inv s renewed e v = v
  renew-Inv s inited e v = v
  renew-Inv s committed e v = v
  renew-Inv s (closed was) e v =
      if_cases (λ (t : System). Inv layout words t) (ltb (s.window.nonce + 3) (2 ^ 32))
        (λ t.
          let lt = ltb→lt (s.window.nonce + 3) (2 ^ 32) t in
          record {
            small = omega arith;
            ack_ok = inl (unacked v.ack_ok);
            odd_ok = inr (omega arith);
            chan_ok = tt;
            pc_ok =
                PcOk-Later s.values s.values s.window (renew s.window) s.phase renewed s.pc
                  (λ n x a. a) (inr (omega arith, omega arith)) v.pc_ok;
          })
        (λ _. v)
    where
      unacked :
          (s.window.ack ≡ 0)
            ⊎ ((s.window.ack ≡ ack_of layout s.window.nonce) × (s.phase ≡ committed))
          → s.window.ack ≡ 0
      unacked (inl z) = z
      unacked (inr (_, c)) = absurd (cc (sym e ∙ c))

  init-ChanOk :
      (s : System)
      → ChanOk layout words s.values s.window.nonce
          (init_n s.window.chan words (seed_of s.window.nonce))
  unfolding init_n
  init-ChanOk s = (refl, inl refl)

  pub init-Inv :
      (s : System) (p : Phase)
      → s.phase ≡ p
      → Inv layout words s
      → Inv layout words (init_step layout words s p)
  init-Inv s (closed was) e v = v
  init-Inv s inited e v = v
  init-Inv s committed e v = v
  init-Inv s renewed e v = record {
    small = v.small;
    ack_ok = unacked v.ack_ok;
    odd_ok = subst (λ q. (numbered q ≡ false) ⊎ (s.window.nonce % 2 ≡ 1)) e v.odd_ok;
    chan_ok = init-ChanOk s;
    pc_ok =
        PcOk-Later s.values s.values s.window (ow_init s.window words) renewed inited s.pc
          (λ n x a. a) (inl (refl, inl refl))
          (subst (λ q. PcOk layout words s.values s.window q s.pc) e v.pc_ok);
  }
    where
      unacked :
          (s.window.ack ≡ 0)
            ⊎ ((s.window.ack ≡ ack_of layout s.window.nonce) × (s.phase ≡ committed))
          → (s.window.ack ≡ 0)
            ⊎ ((s.window.ack ≡ ack_of layout s.window.nonce) × (inited ≡ committed))
      unacked (inl z) = inl z
      unacked (inr (_, c)) = absurd (cc (sym e ∙ c))

  pub commit-Inv :
      (s : System) (p : Phase)
      → s.phase ≡ p
      → Inv layout words s
      → Inv layout words (commit_step layout words s p)
  commit-Inv s (closed was) e v = v
  commit-Inv s renewed e v = v
  commit-Inv s committed e v = v
  commit-Inv s inited e v = record {
    small = v.small;
    ack_ok = inr (refl, refl);
    odd_ok = subst (λ q. (numbered q ≡ false) ⊎ (s.window.nonce % 2 ≡ 1)) e v.odd_ok;
    chan_ok = subst (λ q. PhaseOk layout words s.values s.window q) e v.chan_ok;
    pc_ok =
        PcOk-Later s.values s.values s.window (owner_commit layout s.window) inited committed s.pc
          (λ n x a. a) (inl (refl, inl refl))
          (subst (λ q. PcOk layout words s.values s.window q s.pc) e v.pc_ok);
  }

  more :
      (values : ℕ → List (List ℕ)) (nonce : ℕ) (x : List ℕ)
      → Grows values (update values nonce (x ∷ values nonce))
  more values nonce x n v a = elim (ℕ_discrete nonce n) [
    | yes e ↦
        subst (λ l. Among v l) (sym (update_at values nonce (x ∷ values nonce) n e))
          (inr (subst (λ k. Among v (values k)) (sym e) a))
    | no ne ↦ subst (λ l. Among v l) (sym (update_ne values nonce (x ∷ values nonce) n ne)) a
  ]

  pub publish-Inv :
      (s : System) (src : ℕ → ℕ) (p : Phase)
      → s.phase ≡ p
      → Inv layout words s
      → Inv layout words (publish_step layout words s src p)
  publish-Inv s src (closed was) e v = v
  publish-Inv s src renewed e v = v
  publish-Inv s src inited e v = v
  publish-Inv s src committed e v =
      let values' = update s.values s.window.nonce (slice src 0 words ∷ s.values s.window.nonce) in
      let (w, _) = subst (λ q. PhaseOk layout words s.values s.window q) e v.chan_ok in
      let (load, width) =
        payload-write_n layout words (s.values s.window.nonce) s.window.chan src w in
      let ok : ChanOk layout words values' s.window.nonce (write_n s.window.chan src) = (
        width,
        inr (
            subst (λ l. Among (payload layout words (write_n s.window.chan src)) l)
              (sym
                (update_self s.values s.window.nonce (slice src 0 words ∷ s.values s.window.nonce)))
              (inl load)),
      ) in
      record {
        small = v.small;
        ack_ok = v.ack_ok;
        odd_ok = v.odd_ok;
        chan_ok = subst (λ q. PhaseOk layout words values' (opub_n s.window src) q) (sym e) ok;
        pc_ok =
            PcOk-Later s.values values' s.window (opub_n s.window src) s.phase s.phase s.pc
              (more s.values s.window.nonce (slice src 0 words)) (inl (refl, inr (ap live e)))
              v.pc_ok;
      }
