-- ===== src/Netx/Replies.antt =====
-- The packets and the replies of the service thread's pass.
use blobly_emb.Prelude.{
  ℕ, zero, suc, ◌+◌, ◌≡◌, ◌≤◌, refl, not, ◌&&◌, ◌||◌, Option, none, some, List, [], ◌∷◌, ◌++◌,
  count, count-append, arith, if_both, ℤ, pos, negsuc,
}
use blobly_emb.ArpGlean.{source}
use blobly_emb.Netx.Service.{
  Op, received, released, allocated, sent, learnt, Request, Round, learn, learn_peer, respond_in,
  respond, serve_round, and_then, pass, svc_pass,
}

abbrev pub came_by : Op → List ℕ
came_by (received id) = id ∷ []
came_by (allocated id) = id ∷ []
came_by (released id) = []
came_by (sent id ip port bytes n) = []
came_by (learnt ip msw lsw) = []

abbrev pub went_by : Op → List ℕ
went_by (received id) = []
went_by (allocated id) = []
went_by (released id) = id ∷ []
went_by (sent id ip port bytes n) = id ∷ []
went_by (learnt ip msw lsw) = []

abbrev pub came : List Op → List ℕ
came [] = []
came (op ∷ ops) = came_by op ++ came ops

abbrev pub went : List Op → List ℕ
went [] = []
went (op ∷ ops) = went_by op ++ went ops

abbrev pub requests_by : Op → ℕ
requests_by (received id) = 1
requests_by (allocated id) = 0
requests_by (released id) = 0
requests_by (sent id ip port bytes n) = 0
requests_by (learnt ip msw lsw) = 0

abbrev pub replies_by : Op → ℕ
replies_by (received id) = 0
replies_by (allocated id) = 0
replies_by (released id) = 0
replies_by (sent id ip port bytes n) = 1
replies_by (learnt ip msw lsw) = 0

abbrev pub total : (Op → ℕ) → List Op → ℕ
total f [] = 0
total f (op ∷ ops) = f op + total f ops

-- The packets balance, and there is at most one reply to each request.
abbrev pub Settled : List Op → Type 0
Settled ops =
    ((i : ℕ) → count i (went ops) ≡ count i (came ops))
    × (total replies_by ops ≤ total requests_by ops)

came-append :
    (ops rest : List Op) (i : ℕ)
    → count i (came (ops ++ rest)) ≡ count i (came ops) + count i (came rest)
came-append [] rest i = omega arith
came-append (op ∷ ops) rest i = omega (
  arith,
  came-append ops rest i,
  count-append (came_by op) (came ops) i,
  count-append (came_by op) (came (ops ++ rest)) i,
)

went-append :
    (ops rest : List Op) (i : ℕ)
    → count i (went (ops ++ rest)) ≡ count i (went ops) + count i (went rest)
went-append [] rest i = omega arith
went-append (op ∷ ops) rest i = omega (
  arith,
  went-append ops rest i,
  count-append (went_by op) (went ops) i,
  count-append (went_by op) (went (ops ++ rest)) i,
)

total-append :
    (f : Op → ℕ) (ops rest : List Op) → total f (ops ++ rest) ≡ total f ops + total f rest
total-append f [] rest = omega arith
total-append f (op ∷ ops) rest = omega (arith, total-append f ops rest)

Settled-append : (ops rest : List Op) → Settled ops → Settled rest → Settled (ops ++ rest)
Settled-append ops rest (a, b) (c, d) = (
  (λ i. omega (arith, a i, c i, came-append ops rest i, went-append ops rest i)),
  omega (arith, total-append replies_by ops rest, total-append requests_by ops rest),
)

module _ (mem : ℕ → ℕ) (self : ℕ × ℕ) (answer : (ℕ → ℕ) → ℕ → ℤ × (ℕ → ℕ)) where
  respond_in-Settled :
      (r : Round) (q : Request) (bytes : ℕ → ℕ) (n : ℕ) (o : Option ℕ)
      → Settled (received q.id ∷ released q.id ∷ respond_in mem self answer r q bytes n o)
  respond_in-Settled r q bytes n none = ((λ i. refl), omega arith)
  respond_in-Settled r q bytes n (some p) =
      if_both (λ (ops : List Op). Settled (received q.id ∷ released q.id ∷ ops))
        (not r.append_ok || not r.send_ok) ((λ i. omega arith), omega arith)
        ((λ i. omega arith), omega arith)

  learn-Settled :
      (r : Round) (q : Request) (o : Option (ℕ × ℕ)) (rest : List Op)
      → Settled (received q.id ∷ released q.id ∷ rest)
      → Settled (received q.id ∷ (learn mem self answer r q.ip o ++ (released q.id ∷ rest)))
  learn-Settled r q none rest h = h
  learn-Settled r q (some (msw, lsw)) rest h =
      if_both (λ (ops : List Op). Settled (received q.id ∷ (ops ++ (released q.id ∷ rest))))
        (not r.found && r.set_ok) (h.0, omega (arith, h.1)) h

  respond-Settled :
      (r : Round) (q : Request) (x : ℤ × (ℕ → ℕ))
      → Settled (received q.id ∷ respond mem self answer r q x)
  respond-Settled r q (negsuc n, bytes) = ((λ i. refl), omega arith)
  respond-Settled r q (pos zero, bytes) = ((λ i. refl), omega arith)
  respond-Settled r q (pos (suc n), bytes) =
      learn-Settled r q (source mem q.buf_start q.ip_hdr self)
        (respond_in mem self answer r q bytes (suc n) r.response)
        (respond_in-Settled r q bytes (suc n) r.response)

  pass-Settled : (k : ℕ) (rs : List Round) → Settled (pass mem self answer k rs)
  unfolding pass
  pass-Settled zero rs = ((λ i. refl), omega arith)
  pass-Settled (suc k) [] = ((λ i. refl), omega arith)
  pass-Settled (suc k) (r ∷ rs) = at_request r.request (pass-Settled k rs)
    where
      at_request :
          (o : Option Request)
          → Settled (pass mem self answer k rs)
          → Settled (
              and_then mem self answer
                (serve_round mem self answer r o)
                (pass mem self answer k rs))
      at_request none later = ((λ i. refl), omega arith)
      at_request (some q) later =
          Settled-append (received q.id ∷ respond mem self answer r q (answer q.req q.len))
            (pass mem self answer k rs) (respond-Settled r q (answer q.req q.len)) later

  requests_le : (k : ℕ) (rs : List Round) → total requests_by (pass mem self answer k rs) ≤ k
  unfolding pass
  requests_le zero rs = omega arith
  requests_le (suc k) [] = omega arith
  requests_le (suc k) (r ∷ rs) = at_request r.request (requests_le k rs)
    where
      one_request :
          (r : Round) (q : Request) (x : ℤ × (ℕ → ℕ))
          → total requests_by (respond mem self answer r q x) ≡ 0
      one_request r q (negsuc n, bytes) = refl
      one_request r q (pos zero, bytes) = refl
      one_request r q (pos (suc n), bytes) = omega (
        arith,
        total-append requests_by (learn_peer mem self answer r q)
            (released q.id ∷ respond_in mem self answer r q bytes (suc n) r.response),
        no_learn (source mem q.buf_start q.ip_hdr self),
        no_respond r.response,
      )
        where
          no_learn : (o : Option (ℕ × ℕ)) → total requests_by (learn mem self answer r q.ip o) ≡ 0
          no_learn none = refl
          no_learn (some (msw, lsw)) =
              if_both (λ (ops : List Op). total requests_by ops ≡ 0) (not r.found && r.set_ok) refl
                refl

          no_respond :
              (o : Option ℕ)
              → total requests_by (respond_in mem self answer r q bytes (suc n) o) ≡ 0
          no_respond none = refl
          no_respond (some p) =
              if_both (λ (ops : List Op). total requests_by ops ≡ 0)
                (not r.append_ok || not r.send_ok) refl refl

      at_request :
          (o : Option Request)
          → total requests_by (pass mem self answer k rs) ≤ k
          → total requests_by (
              and_then mem self answer
                (serve_round mem self answer r o)
                (pass mem self answer k rs))
            ≤ suc k
      at_request none later = omega arith
      at_request (some q) later =
          let ops = respond mem self answer r q (answer q.req q.len) in
          omega (
            arith,
            total-append requests_by ops (pass mem self answer k rs),
            one_request r q (answer q.req q.len),
            later,
          )

  -- A pass of the service thread, whatever is received, answered and refused: it takes four requests at
  -- most, gives at most one reply to each, and each packet received or allocated is released or sent as
  -- often as it came.
  pub svc_pass-Settled :
      (rs : List Round)
      → (total requests_by (svc_pass mem self answer rs) ≤ 4)
        × ((i : ℕ)
            → count i (went (svc_pass mem self answer rs))
              ≡ count i (came (svc_pass mem self answer rs)))
        × (total replies_by (svc_pass mem self answer rs)
            ≤ total requests_by (svc_pass mem self answer rs))
  svc_pass-Settled rs = let (a, b) = pass-Settled 4 rs in (requests_le 4 rs, a, b)
