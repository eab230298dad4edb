-- ===== src/Netx/Route.antt =====
-- The route channel of driver/eth/doip_netx.c, for a gateway: a request to the router with its verdict, and
-- the slot of a routed node's answer.
use blobly_emb.Prelude.{
  ℕ, ◌≡◌, refl, Bool, true, false, not, ◌&&◌, if◌then◌else◌, leb, ◌==◌, Option, none, some, List,
  [], ◌∷◌, slice, slice-memcpy, memcpy, sub32, ℤ, pos, negsuc, ap, ap₂, ◌∙◌, if_both,
}
use blobly_emb.Doip.Mailbox.{Mailbox, post, waiting, serve, withdraw, collect}

-- The statics of the channel; `present` is whether `doip_rt_init` has given it buffers. `ans_len` is `none`
-- for -1.
pub record Route : Type 0 where
  pub present : Bool
  pub rules : Mailbox
  pub req : ℕ → ℕ
  pub req_len : ℕ
  pub idx : ℤ
  pub conn : ℕ
  pub ticket : ℕ
  pub code : ℤ
  pub ans : ℕ → ℕ
  pub ans_len : Option ℕ
  pub ans_from : ℕ
  pub ans_ticket : ℕ
  pub ends_seen : ℕ
  pub live : ℕ
  pub live_at : ℕ

-- `doip_rt_live` at a tick, and `doip_rt_is_live`, `fresh` being RT_LIVE_FRESH_MS in ticks
abbrev pub rt_live : Route → ℕ → ℕ → Route
rt_live r now ticket = record r { live_at = now; live = ticket }

abbrev pub rt_is_live : ℕ → Route → ℕ → ℕ → Bool
rt_is_live fresh r now ticket =
    not (ticket == 0) && r.live == ticket && leb (sub32 now r.live_at) fresh

-- `doip_rt_init`, over the two buffers
abbrev pub rt_init : Route → (ℕ → ℕ) → (ℕ → ℕ) → Route
rt_init r req ans = record r { present = true; req = req; ans = ans }

-- `doip_rt_call` up to its wait; `none` is the -1 of a channel that has no buffers.
abbrev pub rt_post : Route → ℤ → (ℕ → ℕ) → ℕ → ℕ → ℕ → Option (Route × ℕ)
rt_post r idx bytes len conn ticket =
    if not r.present
    then none
    else some (
      record r {
        rules = (post r.rules).0;
        req = memcpy r.req bytes len;
        req_len = len;
        idx = idx;
        conn = conn;
        ticket = ticket;
      },
      (post r.rules).1,
    )

pub data Verdict : Type 0 where
  verdict : (code : ℤ) → Verdict
  untaken wait_on : Verdict

-- A round of `doip_rt_call` after its wait
abbrev pub rt_round : Route → ℕ → Bool → Verdict × Route
rt_round r seq got =
    if collect r.rules seq
    then (verdict r.code, r)
    else if not got
    then (untaken, record r { rules = withdraw r.rules seq })
    else (wait_on, r)

-- `doip_rt_take` with the mutex got, and `doip_rt_answer` up to the semaphore
abbrev pub rt_take : Route → Option (ℕ × ℤ × ℕ × ℕ)
rt_take r = if r.present && waiting r.rules then some (r.req_len, r.idx, r.conn, r.ticket) else none

abbrev pub rt_answer : Route → ℤ → Route
rt_answer r code = record r { code = code; rules = serve r.rules }

abbrev pub full : Option ℕ → Bool
full none = false
full (some n) = true

-- `doip_rt_put`: whether the slot took the answer
abbrev pub rt_put : Route → ℕ → ℕ → (ℕ → ℕ) → ℤ → Bool × Route
rt_put r from ticket bytes (negsuc n) = (false, r)
rt_put r from ticket bytes (pos n) =
    if not r.present then (false, r) else if full r.ans_len then (false, r) else (
      true,
      record r {
        ans = memcpy r.ans bytes n;
        ans_from = from;
        ans_ticket = ticket;
        ans_len = some n;
      },
    )

-- `doip_rt_get`: the length, the node and the ticket; `none` is -1.
abbrev pub answer_in : Route → Option ℕ → Option (ℕ × ℕ × ℕ)
answer_in r none = none
answer_in r (some n) = some (n, r.ans_from, r.ans_ticket)

abbrev pub rt_get : Route → Option (ℕ × ℕ × ℕ)
rt_get r = answer_in r r.ans_len

-- `doip_rt_take_ended`, of the count of ended connections, and `doip_rt_done`
abbrev pub rt_take_ended : Route → ℕ → Bool × Route
rt_take_ended r ends =
    if ends == r.ends_seen then (false, r) else (true, record r { ends_seen = ends })

abbrev pub rt_done : Route → Route
rt_done r = record r { ans_len = none }

-- The calls that may come between a put and the next `doip_rt_done`
pub data Act : Type 0 where
  puts : (from ticket : ℕ) (bytes : ℕ → ℕ) (n : ℤ) → Act
  posts : (idx : ℤ) (bytes : ℕ → ℕ) (len conn ticket : ℕ) → Act
  rounds : (seq : ℕ) (got : Bool) → Act
  answers : (code : ℤ) → Act
  lives : (now ticket : ℕ) → Act
  ended : (ends : ℕ) → Act

abbrev pub posted_or : Route → Option (Route × ℕ) → Route
posted_or r none = r
posted_or r (some (r', seq)) = r'

abbrev pub act : Act → Route → Route
act (puts from ticket bytes n) r = (rt_put r from ticket bytes n).1
act (posts idx bytes len conn ticket) r = posted_or r (rt_post r idx bytes len conn ticket)
act (rounds seq got) r = (rt_round r seq got).1
act (answers code) r = rt_answer r code
act (lives now ticket) r = rt_live r now ticket
act (ended ends) r = (rt_take_ended r ends).1

unfoldable pub acts : List Act → Route → Route
acts [] r = r
acts (a ∷ rest) r = acts rest (act a r)

-- The slot holds this answer.
abbrev pub SlotHas : ℕ → ℕ → ℕ → List ℕ → Route → Type 0
SlotHas n from ticket bytes r =
    (r.ans_len ≡ some n) × (r.ans_from ≡ from) × (r.ans_ticket ≡ ticket) × (slice r.ans 0 n ≡ bytes)

act-SlotHas :
    (a : Act) (n from ticket : ℕ) (bytes : List ℕ) (r : Route)
    → SlotHas n from ticket bytes r
    → SlotHas n from ticket bytes (act a r)
act-SlotHas (puts from' ticket' bytes' (negsuc m)) n from ticket bytes r h = h
act-SlotHas (puts from' ticket' bytes' (pos m)) n from ticket bytes r h =
    if_both (λ (x : Bool × Route). SlotHas n from ticket bytes x.1) (not r.present) h
      (rw (ap full h.0) h)
act-SlotHas (posts idx bytes' len conn ticket') n from ticket bytes r h =
    if_both (λ o. SlotHas n from ticket bytes (posted_or r o)) (not r.present) h h
act-SlotHas (rounds seq got) n from ticket bytes r h =
    if_both (λ (x : Verdict × Route). SlotHas n from ticket bytes x.1) (collect r.rules seq) h
      (if_both (λ (x : Verdict × Route). SlotHas n from ticket bytes x.1) (not got) h h)
act-SlotHas (answers code) n from ticket bytes r h = h
act-SlotHas (lives now ticket') n from ticket bytes r h = h
act-SlotHas (ended ends) n from ticket bytes r h =
    if_both (λ (x : Bool × Route). SlotHas n from ticket bytes x.1) (ends == r.ends_seen) h h

acts-SlotHas :
    (ops : List Act) (n from ticket : ℕ) (bytes : List ℕ) (r : Route)
    → SlotHas n from ticket bytes r
    → SlotHas n from ticket bytes (acts ops r)
unfolding acts
acts-SlotHas [] n from ticket bytes r h = h
acts-SlotHas (a ∷ ops) n from ticket bytes r h =
    acts-SlotHas ops n from ticket bytes (act a r) (act-SlotHas a n from ticket bytes r h)

-- Of a channel that has its buffers, with an empty slot: an answer that is put is what `doip_rt_get` gives, its
-- length, node, ticket and bytes, whatever is put, called, answered or polled in between, until
-- `doip_rt_done` empties the slot.
pub put-get :
    (r : Route) (from ticket n : ℕ) (bytes : ℕ → ℕ) (between : List Act)
    → r.present ≡ true
    → r.ans_len ≡ none
    → let p = rt_put r from ticket bytes (pos n) in
      let later = acts between p.1 in
      (p.0 ≡ true)
      × (rt_get later ≡ some (n, from, ticket))
      × (slice later.ans 0 n ≡ slice bytes 0 n)
      × (rt_get (rt_done later) ≡ none)
put-get r from ticket n bytes between e f =
    let p : rt_put r from ticket bytes (pos n) ≡ (
      true,
      record r {
        ans = memcpy r.ans bytes n;
        ans_from = from;
        ans_ticket = ticket;
        ans_len = some n;
      },
    ) =
      rw (e, ap full f) refl in
    let (len, node, tick, bs) =
      acts-SlotHas between n from ticket (slice bytes 0 n) (rt_put r from ticket bytes (pos n)).1
        (rw p (refl, refl, refl, slice-memcpy r.ans bytes n)) in
    (
      ap (λ (x : Bool × Route). x.0) p,
      ap (λ o. answer_in (acts between (rt_put r from ticket bytes (pos n)).1) o) len
          ∙ ap₂ (λ (x y : ℕ). some (n, x, y)) node tick,
      bs,
      refl,
    )
