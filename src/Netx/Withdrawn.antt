-- ===== src/Netx/Withdrawn.antt =====
-- A request that its call gave up is not served later.
use blobly_emb.Prelude.{
  ℕ, zero, suc, ◌+◌, ◌^◌, ◌≤◌, ◌<◌, ◌≡◌, ◌≢◌, refl, Bool, not, ◌&&◌, ltb, ltb→lt, List, [], ◌∷◌,
  ◌++◌, ◌⊎◌, inl, inr, arith, ℤ, ap, sym, ◌∙◌, if_cases, if_both, subst,
}
use blobly_emb.Doip.Mailbox.{Mailbox, post, waiting, serve, collect, withdraw}
use blobly_emb.Netx.Mail.{Chan, Outcome, timed_out}
use blobly_emb.Netx.Threads.{
  Call, Doip, idle, waits, checks, finished, Comm, free, holding, putting, System, held, calling,
  Act, begin, get, expire, check, take, answer, put, note, get_step, expire_step, check_step,
  take_step, answer_step, put_step, step, run,
}
use blobly_emb.Netx.Invariant.{noted_same, DoipOk, Inv}
use blobly_emb.Netx.Calls.{step-Inv, begin_tests}
use blobly_emb.Netx.Answers.{mb_init, after-Inv, run-append}

module _ (server : List ℕ → Bool → ℤ × (ℕ → ℕ)) where
  -- Request `q` is over and was not served; one that waits now is a later one.
  abbrev Gone : ℕ → Mailbox → Type 0
  Gone q m = (m.served ≢ q) × (q ≤ m.posted) × ((m.settled ≡ m.posted) ⊎ (q < m.posted))

  held_later :
      (q : ℕ) (s : System) (d : Doip)
      → s.comm ≡ holding
      → DoipOk server s.chan s.sem s.comm d
      → Gone q s.chan.mb
      → q < s.chan.mb.posted
  held_later q s idle e (_, h) g = absurd (cc (ap held e, h))
  held_later q s (finished c o) e (_, h, _) g = absurd (cc (ap held e, h))
  held_later q s (waits c r) e (_, inr o) g = absurd (cc (ap held e, o.not_held))
  held_later q s (checks c r got) e (_, inr o) g = absurd (cc (ap held e, o.not_held))
  held_later q s (waits c r) e (_, inl o) (_, _, inr lt) = lt
  held_later q s (waits c r) e (_, inl o) (_, _, inl p) = absurd (omega (arith, o.unsettled))
  held_later q s (checks c r got) e (_, inl o) (_, _, inr lt) = lt
  held_later q s (checks c r got) e (_, inl o) (_, _, inl p) = absurd (omega (arith, o.unsettled))

  check-Gone :
      (q : ℕ) (s : System) (d : Doip)
      → s.doip ≡ d
      → Inv server s
      → Gone q s.chan.mb
      → Gone q (check_step s d).chan.mb
  unfolding collect withdraw
  check-Gone q s idle e v g = g
  check-Gone q s (waits c r) e v g = g
  check-Gone q s (finished c o) e v g = g
  check-Gone q s (checks c r got) e v g =
      let (p, _) = subst (λ d. DoipOk server s.chan s.sem s.comm d) e v.call in
      if_cases (λ (t : System). Gone q t.chan.mb) (held s.comm) (λ _. g)
        (λ _.
          if_cases (λ (x : Outcome × Chan). Gone q x.1.mb) (collect s.chan.mb c.seq) (λ _. g)
            (λ _.
              if_cases (λ (x : Outcome × Chan). Gone q x.1.mb) (not got) (λ _. (g.0, g.1, inl p))
                (λ _. g)))

  step-Gone :
      (q : ℕ) (a : Act) (s : System)
      → Inv server s
      → Gone q s.chan.mb
      → Gone q (step server a s).chan.mb
  unfolding step post serve
  step-Gone q (begin bytes len functional cap dst) s v (n, le, g) =
      if_cases (λ (t : System). Gone q t.chan.mb)
        (not (calling s.doip) && not (held s.comm) && ltb (s.chan.mb.posted + 1) (2 ^ 32))
        (λ t.
          let (_, w) =
            begin_tests server (calling s.doip) (held s.comm) (ltb (s.chan.mb.posted + 1) (2 ^ 32))
              t in
          let w' = ltb→lt (s.chan.mb.posted + 1) (2 ^ 32) w in (n, omega arith, inr (omega arith)))
        (λ _. (n, le, g))
  step-Gone q get s v g = get_gone s.doip s.sem
    where
      get_gone : (d : Doip) (k : ℕ) → Gone q (get_step s d k).chan.mb
      get_gone idle k = g
      get_gone (waits c r) zero = g
      get_gone (waits c r) (suc k) = g
      get_gone (checks c r x) k = g
      get_gone (finished c o) k = g
  step-Gone q expire s v g = expire_gone s.doip
    where
      expire_gone : (d : Doip) → Gone q (expire_step s d).chan.mb
      expire_gone idle = g
      expire_gone (waits c r) = g
      expire_gone (checks c r x) = g
      expire_gone (finished c o) = g
  step-Gone q check s v g = check-Gone q s s.doip refl v g
  step-Gone q take s v g = take_gone s.comm
    where
      take_gone : (m : Comm) → Gone q (take_step s m).chan.mb
      take_gone free = if_both (λ (t : System). Gone q t.chan.mb) (waiting s.chan.mb) g g
      take_gone holding = g
      take_gone putting = g
  step-Gone q answer s v g = answer_gone s.comm refl
    where
      answer_gone : (m : Comm) → s.comm ≡ m → Gone q (answer_step server s m).chan.mb
      answer_gone free e = g
      answer_gone holding e =
          let lt = held_later q s s.doip e v.call g in
          ((λ p. absurd (omega (arith, p))), omega arith, inl refl)
      answer_gone putting e = g
  step-Gone q put s v g = put_gone s.comm
    where
      put_gone : (m : Comm) → Gone q (put_step server s m).chan.mb
      put_gone free = g
      put_gone holding = g
      put_gone putting = g
  step-Gone q (note n) s v (ne, le, g) =
      let (p, st, sv) = noted_same n s.chan.mb in
      ((λ z. ne (sym sv ∙ z)), omega (arith, p), ground (arith, p, st))

  run-Gone :
      (q : ℕ) (acts : List Act) (s : System)
      → Inv server s
      → Gone q s.chan.mb
      → Gone q (run server acts s).chan.mb
  unfolding run
  run-Gone q [] s v g = g
  run-Gone q (a ∷ acts) s v g =
      run-Gone q acts (step server a s) (step-Inv server a s v) (step-Gone q a s v g)

  -- Fewer than 2 ^ 32 requests being made, a call that has returned -1 for want of an answer: its request was not served, and is not served
  -- by whatever the two threads do after it.
  pub timed_out-unserved :
      (acts more : List Act) (req resp : ℕ → ℕ) (c : Call)
      → (run server acts (mb_init req resp)).doip ≡ finished c timed_out
      → ((run server acts (mb_init req resp)).chan.mb.served < c.seq)
        × ((run server (acts ++ more) (mb_init req resp)).chan.mb.served ≢ c.seq)
  timed_out-unserved acts more req resp c e =
      let s = run server acts (mb_init req resp) in
      let v = after-Inv server acts req resp in
      let (st, _, (lt, le)) = subst (λ d. DoipOk server s.chan s.sem s.comm d) e v.call in
      let (ne, _, _) = run-Gone c.seq more s v ((λ p. absurd (omega arith)), le, inl st) in
      (
        lt,
        subst (λ (t : System). t.chan.mb.served ≢ c.seq)
            (sym (run-append server acts more (mb_init req resp))) ne,
      )
