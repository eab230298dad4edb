-- ===== src/Xcore/Reads.antt =====
-- What a read that returns 1 has read, whatever came between.
use blobly_emb.Prelude.{
  ℕ, ◌^◌, ◌<◌, ◌≡◌, ◌≢◌, ◌⊎◌, inl, inr, refl, true, false, List, [], ◌∷◌, slice, subst,
}
use blobly_emb.Xcore.{Window, retract, Reader}
use blobly_emb.Xcore.Boots.{
  closed, rests, System, Act, retracts, renews, inits, commits, publishes, loads_ack, loads_nonce,
  begins_read, ends_read, loads_ack_again, loads_nonce_again, step, run,
}
use blobly_emb.Xcore.Gate.{Among, Kept, PcOk, Inv}
use blobly_emb.Xcore.Steps.{retract-Inv, renew-Inv, init-Inv, commit-Inv, publish-Inv}
use blobly_emb.Xcore.Satellite.{
  load_ack-Inv, load_nonce-Inv, begin_read-Inv, end_read-Inv, load_ack_again-Inv,
  load_nonce_again-Inv,
}

module _ (layout words : ℕ) where
  step-Inv : (a : Act) (s : System) → Inv layout words s → Inv layout words (step layout words a s)
  unfolding step
  step-Inv retracts s v = retract-Inv layout words s s.phase refl v
  step-Inv renews s v = renew-Inv layout words s s.phase refl v
  step-Inv inits s v = init-Inv layout words s s.phase refl v
  step-Inv commits s v = commit-Inv layout words s s.phase refl v
  step-Inv (publishes src) s v = publish-Inv layout words s src s.phase refl v
  step-Inv loads_ack s v = load_ack-Inv layout words s s.pc refl v
  step-Inv loads_nonce s v = load_nonce-Inv layout words s s.pc refl v
  step-Inv begins_read s v = begin_read-Inv layout words s s.pc refl v
  step-Inv (ends_read lapped seq lanes) s v =
      end_read-Inv layout words s lapped seq lanes s.pc refl v
  step-Inv loads_ack_again s v = load_ack_again-Inv layout words s s.pc refl v
  step-Inv loads_nonce_again s v = load_nonce_again-Inv layout words s s.pc refl v

  run-Inv :
      (acts : List Act) (s : System)
      → Inv layout words s
      → Inv layout words (run layout words acts s)
  unfolding run
  run-Inv [] s v = v
  run-Inv (a ∷ acts) s v = run-Inv acts (step layout words a s) (step-Inv a s v)

  -- The owner has retracted the gate of a retained window, and the satellite's state is zero.
  abbrev pub start : Window → System
  start w = record {
    window = retract w;
    phase = closed false;
    values = λ n. [];
    pc = rests false (record { under = 0; seq = 0; lanes = λ i. 0 });
  }

  -- Under every order of the owner's steps and the satellite's accesses to the gate, over any number of
  -- owner boots whose nonces do not wrap, on whatever the window retains: when `xcore_down_read`
  -- returns 1, the lanes are a value that the owner has published in the boot whose nonce the reader's
  -- state holds. The read of the channel may be overlapped: by publishes of that boot, where it reads
  -- what stood there at its beginning, or nothing, and by a later boot, where it reads anything.
  pub down_read_sound :
      (w : Window) (acts : List Act) (st : Reader)
      → w.nonce < 2 ^ 32
      → (run layout words acts (start w)).pc ≡ rests true st
      → Among (slice st.lanes 0 words) ((run layout words acts (start w)).values st.under)
  down_read_sound w acts st lt e =
      let s = run layout words acts (start w) in
      let v = run-Inv acts (start w) (record {
        small = lt;
        ack_ok = inl refl;
        odd_ok = inl refl;
        chan_ok = tt;
        pc_ok = (inl refl, inl refl);
      }) in
      let (k, r) = subst (λ q. PcOk layout words s.values s.window s.phase q) e v.pc_ok in there k r
    where
      there :
          Kept layout words (run layout words acts (start w)).values st
          → (true ≡ false) ⊎ (st.seq ≢ 0)
          → Among (slice st.lanes 0 words) ((run layout words acts (start w)).values st.under)
      there (inr a) r = a
      there (inl z) (inl f) = absurd (cc f)
      there (inl z) (inr ne) = absurd (ne z)
