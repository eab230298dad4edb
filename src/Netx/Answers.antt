-- ===== src/Netx/Answers.antt =====
-- The results of a call of the mailbox, from the start on.
use blobly_emb.Prelude.{
  ℕ, ◌≤◌, ◌≡◌, refl, Bool, false, List, [], ◌∷◌, ◌++◌, inl, inr, arith, ℤ, pos, ap, sym, ◌∙◌,
  Bool-cases, subst,
}
use blobly_emb.Doip.Mailbox.{Mailbox, collect}
use blobly_emb.Netx.Mail.{Chan, Outcome, answered, timed_out, capped, copied_answer, call_round}
use blobly_emb.Netx.Threads.{
  Call, idle, waits, checks, finished, Comm, free, holding, putting, System, held, Act, expire,
  check, answer, expire_step, check_step, outcome_step, served_chan, answer_step, step, run,
}
use blobly_emb.Netx.Invariant.{InCall, DoipOk, Inv}
use blobly_emb.Netx.Calls.{run-Inv}

-- The zeroed mailbox, over the buffers of `doip_mb_init`
abbrev pub fresh_box : Mailbox
fresh_box = record {
  posted = 0;
  settled = 0;
  served = 0;
  queued = 0;
  reported = 0;
  drops = 0;
  drop_after = 0;
  drops_seen = 0;
  pushed = 0;
  push_taken = 0;
  push_queued = 0;
  push_reported = 0;
}

abbrev pub mb_init : (ℕ → ℕ) → (ℕ → ℕ) → System
mb_init req resp = record {
  chan = record {
    mb = fresh_box;
    req = req;
    req_len = 0;
    functional = false;
    resp = resp;
    resp_len = pos 0;
  };
  sem = 0;
  comm = free;
  doip = idle;
}

module _ (server : List ℕ → Bool → ℤ × (ℕ → ℕ)) where
  pub after-Inv :
      (acts : List Act) (req resp : ℕ → ℕ) → Inv server (run server acts (mb_init req resp))
  after-Inv acts req resp =
      run-Inv server acts (mb_init req resp)
        (record { box = (omega arith, omega arith, omega arith); call = (refl, refl) })

  -- However the steps of the two threads, their waits and the other calls on the mailbox are ordered,
  -- fewer than 2 ^ 32 requests being made:
  -- what a call returns as an answer is the answer of the server to that call's own request, -1 where it
  -- is longer than the caller's buffer, and its bytes at the front of that buffer.
  pub call_answered :
      (acts : List Act) (req resp : ℕ → ℕ) (c : Call) (n : ℤ) (b : ℕ → ℕ)
      → (run server acts (mb_init req resp)).doip ≡ finished c (answered n b)
      → (n ≡ capped (server c.msg c.functional).0 c.room)
        × (b
            ≡ copied_answer
                (capped (server c.msg c.functional).0 c.room)
                c.dst
                (server c.msg c.functional).1)
  call_answered acts req resp c n b e =
      let s = run server acts (mb_init req resp) in
      let (_, _, f) =
        subst (λ d. DoipOk server s.chan s.sem s.comm d) e (after-Inv acts req resp).call in
      f

  pub run-append :
      (acts more : List Act) (s : System)
      → run server (acts ++ more) s ≡ run server more (run server acts s)
  unfolding run
  run-append [] more s = refl
  run-append (a ∷ acts) more s = run-append acts more (step server a s)

  settles :
      (c : Chan) (seq room : ℕ) (dst : ℕ → ℕ) (k : Call) (r : ℕ)
      → (o : Outcome) × (outcome_step k r (call_round c seq false room dst).0 ≡ finished k o)
  settles c seq room dst k r = elim (Bool-cases (collect c.mb seq)) [
    | inl e ↦ (
      answered (capped c.resp_len room) (copied_answer (capped c.resp_len room) dst c.resp),
      rw e refl,
    )
    | inr e ↦ (timed_out, rw e refl)
  ]

  settle :
      (s : System) (m : Comm) (c : Call) (r : ℕ)
      → s.comm ≡ m
      → (o : Outcome) × ((check_step
            (answer_step server (record s { doip = checks c r false }) m)
            (checks c r false)).doip
          ≡ finished c o)
  settle s holding c r e = settles (served_chan server s.chan) c.seq c.room c.dst c r
  settle s free c r e = let (o, f) = settles s.chan c.seq c.room c.dst c r in (o, rw (ap held e) f)
  settle s putting c r e =
      let (o, f) = settles s.chan c.seq c.room c.dst c r in (o, rw (ap held e) f)

  answer_doip : (t : System) (m : Comm) → (answer_step server t m).doip ≡ t.doip
  answer_doip t free = refl
  answer_doip t holding = refl
  answer_doip t putting = refl

  waits_settle :
      (s : System) (c : Call) (r : ℕ)
      → s.doip ≡ waits c r
      → (o : Outcome) × ((run server (expire ∷ answer ∷ check ∷ []) s).doip ≡ finished c o)
  unfolding run step
  waits_settle s c r e =
      subst
        (λ d.
          (o : Outcome) × ((step server check (step server answer (expire_step s d))).doip
            ≡ finished c o))
        (sym e)
        (let t = record s { doip = checks c r false } in
          let (o, f) = settle s s.comm c r refl in
          (
            o,
            ap (λ d. (check_step (answer_step server t s.comm) d).doip) (answer_doip t s.comm) ∙ f,
          ))

  in_budget :
      (s : System) (c : Call) (r : ℕ) (extra : ℕ)
      → InCall server s.chan s.sem s.comm c r extra
      → r ≤ c.stock
  in_budget s c r extra (e, inl o) = omega (arith, o.budget)
  in_budget s c r extra (e, inr o) = o.budget

  -- Whatever has happened: a call that waits has gone round at most as often as there were puts of the
  -- semaphore outstanding when it began, and it ends when its wait expires, the answer that the comm thread is
  -- giving, if it is, is given, and the mailbox is checked.
  pub call_ends :
      (acts : List Act) (req resp : ℕ → ℕ) (c : Call) (r : ℕ)
      → (run server acts (mb_init req resp)).doip ≡ waits c r
      → (r ≤ c.stock)
        × ((o : Outcome) × ((run server
                (acts ++ (expire ∷ answer ∷ check ∷ []))
                (mb_init req resp)).doip
              ≡ finished c o))
  call_ends acts req resp c r e =
      let s = run server acts (mb_init req resp) in
      let (o, f) = waits_settle s c r e in
      (
        in_budget s c r 0
            (subst (λ d. DoipOk server s.chan s.sem s.comm d) e (after-Inv acts req resp).call),
        (
          o,
          ap (λ (t : System). t.doip)
                (run-append acts (expire ∷ answer ∷ check ∷ []) (mb_init req resp))
              ∙ f,
        ),
      )
