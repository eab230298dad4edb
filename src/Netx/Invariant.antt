-- ===== src/Netx/Invariant.antt =====
-- The invariant of a call of the mailbox, and the doip thread's steps.
use blobly_emb.Prelude.{
  ℕ, zero, suc, ◌+◌, ◌^◌, ◌≤◌, ◌<◌, ◌≡◌, refl, Bool, true, false, if◌then◌else◌, List, ◌⊎◌, inl,
  inr, slice, slice-memcpy, arith, ℤ, ap, ap₂, sym, ◌∙◌, if_cases, subst,
}
use blobly_emb.Doip.Mailbox.{
  Mailbox, post, withdraw, collect, queue, drop, sent_take, dropped_take, push, push_take,
  push_queue, push_sent_take,
}
use blobly_emb.Netx.Mail.{
  Chan, Outcome, answered, timed_out, again, call_round, capped, copied_answer,
}
use blobly_emb.Netx.Threads.{
  Call, Doip, idle, waits, checks, finished, Comm, System, held, owed, Note, queues, drops,
  takes_dropped, pushes, takes_push, queues_push, takes_sent, takes_push_sent, noted, begin_call,
  get_step, expire_step, outcome_step, check_step,
}

-- The calls that move nothing of a request
pub noted_same :
    (n : Note) (m : Mailbox)
    → ((noted n m).posted ≡ m.posted)
      × ((noted n m).settled ≡ m.settled)
      × ((noted n m).served ≡ m.served)
unfolding queue drop push push_take push_queue sent_take push_sent_take dropped_take
noted_same queues m = (refl, refl, refl)
noted_same drops m = (refl, refl, refl)
noted_same takes_dropped m = ground arith
noted_same pushes m = (refl, refl, refl)
noted_same takes_push m = ground arith
noted_same queues_push m = (refl, refl, refl)
noted_same (takes_sent state unacked) m = ground arith
noted_same (takes_push_sent state unacked) m = ground arith

-- What an outcome says of its call
module _ (server : List ℕ → Bool → ℤ × (ℕ → ℕ)) where
  abbrev pub IsFor : Mailbox → Call → Outcome → Type 0
  IsFor m c again = ⊥
  IsFor m c timed_out = (m.served < c.seq) × (c.seq ≤ m.posted)
  IsFor m c (answered n b) =
      (n ≡ capped (server c.msg c.functional).0 c.room)
      × (b
          ≡ copied_answer (capped (server c.msg c.functional).0 c.room) c.dst
              (server c.msg c.functional).1)

  -- The request waits in the buffer; `extra` counts a put that the round has got.
  pub record Open (chan : Chan) (sem out : ℕ) (c : Call) (r extra : ℕ) : Type 0 where
    pub unsettled : chan.mb.settled < chan.mb.posted
    pub unserved : chan.mb.served < c.seq
    pub request : slice chan.req 0 chan.req_len ≡ c.msg
    pub kind : chan.functional ≡ c.functional
    pub budget : r + sem + out + extra ≤ c.stock

  pub record Served (chan : Chan) (h : Bool) (c : Call) (r : ℕ) : Type 0 where
    pub settled : chan.mb.settled ≡ chan.mb.posted
    pub served : chan.mb.served ≡ c.seq
    pub not_held : h ≡ false
    pub length : chan.resp_len ≡ (server c.msg c.functional).0
    pub bytes : chan.resp ≡ (server c.msg c.functional).1
    pub budget : r ≤ c.stock

  abbrev pub InCall : Chan → ℕ → Comm → Call → ℕ → ℕ → Type 0
  InCall chan sem comm c r extra =
      (c.seq ≡ chan.mb.posted) × (Open chan sem (owed comm) c r extra ⊎ Served chan (held comm) c r)

  abbrev pub Quiet : Chan → Comm → Type 0
  Quiet chan comm = (chan.mb.settled ≡ chan.mb.posted) × (held comm ≡ false)

  abbrev pub extra_of : Bool → ℕ
  extra_of got = if got then 1 else 0

  abbrev pub DoipOk : Chan → ℕ → Comm → Doip → Type 0
  DoipOk chan sem comm idle = Quiet chan comm
  DoipOk chan sem comm (waits c r) = InCall chan sem comm c r 0
  DoipOk chan sem comm (checks c r got) = InCall chan sem comm c r (extra_of got)
  DoipOk chan sem comm (finished c o) =
      (chan.mb.settled ≡ chan.mb.posted) × (held comm ≡ false) × IsFor chan.mb c o

  abbrev pub BoxOk : Mailbox → Type 0
  BoxOk m = (m.served ≤ m.posted) × (m.settled ≤ m.posted) × (m.posted < 2 ^ 32)

  pub record Inv (s : System) : Type 0 where
    pub box : BoxOk s.chan.mb
    pub call : DoipOk s.chan s.sem s.comm s.doip

  InCall-note :
      (chan : Chan) (m : Mailbox) (sem : ℕ) (comm : Comm) (c : Call) (r extra : ℕ)
      → (m.posted ≡ chan.mb.posted) × (m.settled ≡ chan.mb.settled) × (m.served ≡ chan.mb.served)
      → InCall chan sem comm c r extra
      → InCall (record chan { mb = m }) sem comm c r extra
  InCall-note chan m sem comm c r extra (p, st, sv) (e, inl o) = (
    e ∙ sym p,
    inl (record {
      unsettled = omega (arith, o.unsettled);
      unserved = omega (arith, o.unserved);
      request = o.request;
      kind = o.kind;
      budget = o.budget;
    }),
  )
  InCall-note chan m sem comm c r extra (p, st, sv) (e, inr o) = (
    e ∙ sym p,
    inr (record {
      settled = st ∙ o.settled ∙ sym p;
      served = sv ∙ o.served;
      not_held = o.not_held;
      length = o.length;
      bytes = o.bytes;
      budget = o.budget;
    }),
  )

  IsFor-note :
      (m m' : Mailbox) (c : Call) (o : Outcome)
      → m'.served ≡ m.served
      → m'.posted ≡ m.posted
      → IsFor m c o
      → IsFor m' c o
  IsFor-note m m' c again e f h = h
  IsFor-note m m' c timed_out e f (h, l) = (omega arith, omega arith)
  IsFor-note m m' c (answered n b) e f h = h

  pub DoipOk-note :
      (chan : Chan) (m : Mailbox) (sem : ℕ) (comm : Comm) (d : Doip)
      → (m.posted ≡ chan.mb.posted) × (m.settled ≡ chan.mb.settled) × (m.served ≡ chan.mb.served)
      → DoipOk chan sem comm d
      → DoipOk (record chan { mb = m }) sem comm d
  DoipOk-note chan m sem comm idle (p, st, sv) (q, h) = (st ∙ q ∙ sym p, h)
  DoipOk-note chan m sem comm (waits c r) u h = InCall-note chan m sem comm c r 0 u h
  DoipOk-note chan m sem comm (checks c r got) u h =
      InCall-note chan m sem comm c r (extra_of got) u h
  DoipOk-note chan m sem comm (finished c o) (p, st, sv) (q, h, f) =
      (st ∙ q ∙ sym p, h, IsFor-note chan.mb m c o sv p f)

  -- The doip thread's steps
  pub begin-InCall :
      (s : System) (bytes : ℕ → ℕ) (len : ℕ) (functional : Bool) (room : ℕ) (dst : ℕ → ℕ)
      → BoxOk s.chan.mb
      → Quiet s.chan s.comm
      → s.chan.mb.posted + 1 < 2 ^ 32
      → Inv (begin_call s bytes len functional room dst)
  unfolding post
  begin-InCall s bytes len functional room dst (a, b, w) (q, h) lt = record {
    box = (omega arith, omega arith, omega arith);
    call = (
      refl,
      inl (record {
        unsettled = omega arith;
        unserved = omega arith;
        request = slice-memcpy s.chan.req bytes len;
        kind = refl;
        budget = omega arith;
      }),
    );
  }

  pub InCall-sem :
      (chan : Chan) (sem sem' : ℕ) (comm : Comm) (c : Call) (r extra extra' : ℕ)
      → sem' + extra' ≤ sem + extra
      → InCall chan sem comm c r extra
      → InCall chan sem' comm c r extra'
  InCall-sem chan sem sem' comm c r extra extra' le (e, inl o) = (
    e,
    inl (record {
      unsettled = o.unsettled;
      unserved = o.unserved;
      request = o.request;
      kind = o.kind;
      budget = omega (arith, o.budget);
    }),
  )
  InCall-sem chan sem sem' comm c r extra extra' le (e, inr o) = (e, inr o)

  pub get-Inv :
      (s : System) (d : Doip) (n : ℕ) → s.doip ≡ d → s.sem ≡ n → Inv s → Inv (get_step s d n)
  get-Inv s (waits c r) (suc n) e f v = record {
    box = v.box;
    call =
        InCall-sem s.chan s.sem n s.comm c r 0 1 (omega arith)
          (subst (λ d. DoipOk s.chan s.sem s.comm d) e v.call);
  }
  get-Inv s (waits c r) zero e f v = v
  get-Inv s idle n e f v = v
  get-Inv s (checks c r g) n e f v = v
  get-Inv s (finished c o) n e f v = v

  pub expire-Inv : (s : System) (d : Doip) → s.doip ≡ d → Inv s → Inv (expire_step s d)
  expire-Inv s (waits c r) e v = record {
    box = v.box;
    call = subst (λ d. DoipOk s.chan s.sem s.comm d) e v.call;
  }
  expire-Inv s idle e v = v
  expire-Inv s (checks c r g) e v = v
  expire-Inv s (finished c o) e v = v

  -- A check of a request that is not served, and of one that is
  check-Open :
      (s : System) (c : Call) (r : ℕ) (got : Bool)
      → Inv s
      → held s.comm ≡ false
      → c.seq ≡ s.chan.mb.posted
      → Open s.chan s.sem (owed s.comm) c r (extra_of got)
      → Inv (record s {
        chan = (call_round s.chan c.seq got c.room c.dst).1;
        doip = outcome_step c r (call_round s.chan c.seq got c.room c.dst).0;
      })
  unfolding collect withdraw
  check-Open s c r true v h e o =
      subst (λ (x : Outcome × Chan). Inv (record s { chan = x.1; doip = outcome_step c r x.0 }))
        {x = (again, s.chan)} (ground (arith, o.unserved))
        (record {
          box = v.box;
          call = (
            e,
            inl (record {
              unsettled = o.unsettled;
              unserved = o.unserved;
              request = o.request;
              kind = o.kind;
              budget = omega (arith, o.budget);
            }),
          );
        })
  check-Open s c r false v h e o =
      subst (λ (x : Outcome × Chan). Inv (record s { chan = x.1; doip = outcome_step c r x.0 }))
        {x = (timed_out, record (s.chan) { mb = withdraw s.chan.mb c.seq })}
        (ground (arith, o.unserved))
        (record {
          box = (v.box.0, omega (arith, e), v.box.2);
          call = (e, h, (o.unserved, omega (arith, e)));
        })

  check-Served :
      (s : System) (c : Call) (r : ℕ) (got : Bool)
      → Inv s
      → Served s.chan (held s.comm) c r
      → Inv (record s {
        chan = (call_round s.chan c.seq got c.room c.dst).1;
        doip = outcome_step c r (call_round s.chan c.seq got c.room c.dst).0;
      })
  unfolding collect withdraw
  check-Served s c r got v o =
      subst (λ (x : Outcome × Chan). Inv (record s { chan = x.1; doip = outcome_step c r x.0 }))
        {x = (
          answered (capped s.chan.resp_len c.room)
              (copied_answer (capped s.chan.resp_len c.room) c.dst s.chan.resp),
          s.chan,
        )}
        (ground (arith, o.served))
        (record {
          box = v.box;
          call = (
            o.settled,
            o.not_held,
            (
              ap (λ n. capped n c.room) o.length,
              ap₂ (λ n (b : ℕ → ℕ). copied_answer (capped n c.room) c.dst b) o.length o.bytes,
            ),
          );
        })

  pub check-Inv : (s : System) (d : Doip) → s.doip ≡ d → Inv s → Inv (check_step s d)
  check-Inv s (checks c r got) e v =
      if_cases (λ (t : System). Inv t) (held s.comm) (λ _. v)
        (λ h. by_call h (subst (λ d. DoipOk s.chan s.sem s.comm d) e v.call))
    where
      by_call :
          held s.comm ≡ false
          → InCall s.chan s.sem s.comm c r (extra_of got)
          → Inv (record s {
            chan = (call_round s.chan c.seq got c.room c.dst).1;
            doip = outcome_step c r (call_round s.chan c.seq got c.room c.dst).0;
          })
      by_call h (q, inl o) = check-Open s c r got v h q o
      by_call h (q, inr o) = check-Served s c r got v o
  check-Inv s idle e v = v
  check-Inv s (waits c r) e v = v
  check-Inv s (finished c o) e v = v
