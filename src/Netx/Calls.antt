-- ===== src/Netx/Calls.antt =====
-- What a call of the mailbox returns, under every order of the two threads' steps.
use blobly_emb.Prelude.{
  ℕ, ◌+◌, ◌^◌, ◌≡◌, ◌≢◌, refl, Bool, true, false, not, ◌&&◌, ltb, ltb→lt, List, [], ◌∷◌, inl, inr,
  arith, ℤ, ap₂, sym, if_cases, subst,
}
use blobly_emb.Doip.Mailbox.{waiting, serve}
use blobly_emb.Netx.Mail.{Chan}
use blobly_emb.Netx.Threads.{
  Call, Doip, idle, waits, checks, finished, Comm, free, holding, putting, System, held, calling,
  noted, Act, begin, get, expire, check, take, answer, put, note, take_step, served_chan,
  answer_step, put_step, step, run,
}
use blobly_emb.Netx.Invariant.{
  noted_same, InCall, Quiet, extra_of, DoipOk, Inv, DoipOk-note, begin-InCall, get-Inv, expire-Inv,
  check-Inv,
}

module _ (server : List ℕ → Bool → ℤ × (ℕ → ℕ)) where
  take_ok :
      (chan : Chan) (sem : ℕ) (d : Doip)
      → chan.mb.settled ≢ chan.mb.posted
      → DoipOk server chan sem free d
      → DoipOk server chan sem holding d
  take_ok chan sem idle ne (q, h) = absurd (ne q)
  take_ok chan sem (waits c r) ne (e, inl o) = (e, inl o)
  take_ok chan sem (waits c r) ne (e, inr o) = absurd (ne o.settled)
  take_ok chan sem (checks c r got) ne (e, inl o) = (e, inl o)
  take_ok chan sem (checks c r got) ne (e, inr o) = absurd (ne o.settled)
  take_ok chan sem (finished c o) ne (q, h, f) = absurd (ne q)

  answer-Served :
      (chan : Chan) (sem : ℕ) (c : Call) (r extra : ℕ)
      → InCall server chan sem holding c r extra
      → InCall server (served_chan server chan) sem putting c r extra
  unfolding serve
  answer-Served chan sem c r extra (e, inl o) = (
    e,
    inr (record {
      settled = refl;
      served = sym e;
      not_held = refl;
      length = ap₂ (λ m f. (server m f).0) o.request o.kind;
      bytes = ap₂ (λ m f. (server m f).1) o.request o.kind;
      budget = omega (arith, o.budget);
    }),
  )
  answer-Served chan sem c r extra (e, inr o) = absurd (cc o.not_held)

  answer_ok :
      (chan : Chan) (sem : ℕ) (d : Doip)
      → DoipOk server chan sem holding d
      → DoipOk server (served_chan server chan) sem putting d
  answer_ok chan sem idle (q, h) = absurd (cc h)
  answer_ok chan sem (waits c r) h = answer-Served chan sem c r 0 h
  answer_ok chan sem (checks c r got) h = answer-Served chan sem c r (extra_of server got) h
  answer_ok chan sem (finished c o) (q, h, f) = absurd (cc h)

  put-InCall :
      (chan : Chan) (sem : ℕ) (c : Call) (r extra : ℕ)
      → InCall server chan sem putting c r extra
      → InCall server chan (sem + 1) free c r extra
  put-InCall chan sem c r extra (e, inl o) = (
    e,
    inl (record {
      unsettled = o.unsettled;
      unserved = o.unserved;
      request = o.request;
      kind = o.kind;
      budget = omega (arith, o.budget);
    }),
  )
  put-InCall chan sem c r extra (e, inr o) = (e, inr o)

  put_ok :
      (chan : Chan) (sem : ℕ) (d : Doip)
      → DoipOk server chan sem putting d
      → DoipOk server chan (sem + 1) free d
  put_ok chan sem idle h = h
  put_ok chan sem (waits c r) h = put-InCall chan sem c r 0 h
  put_ok chan sem (checks c r got) h = put-InCall chan sem c r (extra_of server got) h
  put_ok chan sem (finished c o) h = h

  -- The comm thread's steps
  take-Inv : (s : System) (m : Comm) → s.comm ≡ m → Inv server s → Inv server (take_step s m)
  unfolding waiting
  take-Inv s free e v =
      if_cases (λ (t : System). Inv server t) (waiting s.chan.mb)
        (λ w. record {
          box = v.box;
          call =
              take_ok s.chan s.sem s.doip (ground arith)
                (subst (λ m. DoipOk server s.chan s.sem m s.doip) e v.call);
        })
        (λ _. v)
  take-Inv s holding e v = v
  take-Inv s putting e v = v

  answer-Inv :
      (s : System) (m : Comm) → s.comm ≡ m → Inv server s → Inv server (answer_step server s m)
  unfolding serve
  answer-Inv s holding e v = record {
    box = (omega arith, omega arith, v.box.2);
    call =
        answer_ok s.chan s.sem s.doip (subst (λ m. DoipOk server s.chan s.sem m s.doip) e v.call);
  }
  answer-Inv s free e v = v
  answer-Inv s putting e v = v

  put-Inv : (s : System) (m : Comm) → s.comm ≡ m → Inv server s → Inv server (put_step server s m)
  put-Inv s putting e v = record {
    box = v.box;
    call = put_ok s.chan s.sem s.doip (subst (λ m. DoipOk server s.chan s.sem m s.doip) e v.call);
  }
  put-Inv s free e v = v
  put-Inv s holding e v = v

  rest-Quiet :
      (chan : Chan) (sem : ℕ) (comm : Comm) (d : Doip)
      → calling d ≡ false
      → DoipOk server chan sem comm d
      → Quiet server chan comm
  rest-Quiet chan sem comm idle e h = h
  rest-Quiet chan sem comm (waits c r) e h = absurd (cc e)
  rest-Quiet chan sem comm (checks c r g) e h = absurd (cc e)
  rest-Quiet chan sem comm (finished c o) e (q, h, f) = (q, h)

  pub begin_tests : (a b c : Bool) → (not a && not b && c) ≡ true → (a ≡ false) × (c ≡ true)
  begin_tests a b c e = (ground arith, ground arith)

  pub step-Inv : (a : Act) (s : System) → Inv server s → Inv server (step server a s)
  unfolding step
  step-Inv (begin bytes len functional room dst) s v =
      if_cases (λ (t : System). Inv server t)
        (not (calling s.doip) && not (held s.comm) && ltb (s.chan.mb.posted + 1) (2 ^ 32))
        (λ t.
          let (i, w) =
            begin_tests (calling s.doip) (held s.comm) (ltb (s.chan.mb.posted + 1) (2 ^ 32)) t in
          begin-InCall server s bytes len functional room dst v.box
            (rest-Quiet s.chan s.sem s.comm s.doip i v.call)
            (ltb→lt (s.chan.mb.posted + 1) (2 ^ 32) w))
        (λ _. v)
  step-Inv get s v = get-Inv server s s.doip s.sem refl refl v
  step-Inv expire s v = expire-Inv server s s.doip refl v
  step-Inv check s v = check-Inv server s s.doip refl v
  step-Inv take s v = take-Inv s s.comm refl v
  step-Inv answer s v = answer-Inv s s.comm refl v
  step-Inv put s v = put-Inv s s.comm refl v
  step-Inv (note n) s v =
      let (p, st, sv) = noted_same n s.chan.mb in
      record {
        box = (omega (arith, p, sv), omega (arith, p, st), omega (arith, p));
        call = DoipOk-note server s.chan (noted n s.chan.mb) s.sem s.comm s.doip (p, st, sv) v.call;
      }

  pub run-Inv : (acts : List Act) (s : System) → Inv server s → Inv server (run server acts s)
  unfolding run
  run-Inv [] s v = v
  run-Inv (a ∷ acts) s v = run-Inv acts (step server a s) (step-Inv a s v)
