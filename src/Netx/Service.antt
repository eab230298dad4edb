-- ===== src/Netx/Service.antt =====
-- The UDP requests and announcements of driver/eth/doip_netx.c. NetX, the generated answer and the requester's
-- frame are arguments; the calls are listed in their order.
use blobly_emb.Prelude.{
  ℕ, zero, suc, ◌-◌, ◌/◌, ◌%◌, ◌^◌, Bool, not, ◌&&◌, ◌||◌, if◌then◌else◌, ◌==◌, Option, none, some,
  List, [], ◌∷◌, ◌++◌, ℤ, pos, negsuc, bit_and, bit_or,
}
use blobly_emb.ArpGlean.{source}

pub data Op : Type 0 where
  received released allocated : (id : ℕ) → Op
  sent : (id ip port : ℕ) (bytes : ℕ → ℕ) (n : ℕ) → Op
  learnt : (ip msw lsw : ℕ) → Op

-- A request: the packet, whose it is, its bytes, and where the frame that brought it lies in memory
pub record Request : Type 0 where
  pub id : ℕ
  pub ip : ℕ
  pub port : ℕ
  pub req : ℕ → ℕ
  pub len : ℕ
  pub buf_start : ℕ
  pub ip_hdr : ℕ

-- What the calls of one round answer: whether ARP has the requester, whether it takes an entry, and
-- the packet for the response
pub record Round : Type 0 where
  pub request : Option Request
  pub found : Bool
  pub set_ok : Bool
  pub response : Option ℕ
  pub append_ok : Bool
  pub send_ok : Bool

abbrev pub ident_per_pass : ℕ
ident_per_pass = 4

-- `mem` is the memory, `self` the station's MAC in NetX's split, `answer` is blobly_doip_udp: the length of
-- its response and the bytes.
module _ (mem : ℕ → ℕ) (self : ℕ × ℕ) (answer : (ℕ → ℕ) → ℕ → ℤ × (ℕ → ℕ)) where
  -- `learn_peer`
  abbrev pub learn : Round → ℕ → Option (ℕ × ℕ) → List Op
  learn r ip none = []
  learn r ip (some (msw, lsw)) = if not r.found && r.set_ok then learnt ip msw lsw ∷ [] else []

  abbrev pub learn_peer : Round → Request → List Op
  learn_peer r q = learn r q.ip (source mem q.buf_start q.ip_hdr self)

  -- The response of `n` bytes, once the request's packet is released
  abbrev pub respond_in : Round → Request → (ℕ → ℕ) → ℕ → Option ℕ → List Op
  respond_in r q bytes n none = []
  respond_in r q bytes n (some p) =
      if not r.append_ok || not r.send_ok
      then allocated p ∷ released p ∷ []
      else allocated p ∷ sent p q.ip q.port bytes n ∷ []

  abbrev pub respond : Round → Request → ℤ × (ℕ → ℕ) → List Op
  respond r q (negsuc n, bytes) = released q.id ∷ []
  respond r q (pos zero, bytes) = released q.id ∷ []
  respond r q (pos (suc n), bytes) =
      learn_peer r q ++ (released q.id ∷ respond_in r q bytes (suc n) r.response)

  abbrev pub serve_round : Round → Option Request → Option (List Op)
  serve_round r none = none
  serve_round r (some q) = some (received q.id ∷ respond r q (answer q.req q.len))

  abbrev pub and_then : Option (List Op) → List Op → List Op
  and_then none rest = []
  and_then (some ops) rest = ops ++ rest

  -- A pass of `svc_entry`, at most `k` rounds long: it ends at the first receive that finds none.
  unfoldable pub pass : ℕ → List Round → List Op
  pass zero rs = []
  pass (suc k) [] = []
  pass (suc k) (r ∷ rs) = let rest = pass k rs in and_then (serve_round r r.request) rest

  abbrev pub svc_pass : List Round → List Op
  svc_pass rs = pass ident_per_pass rs

-- NET_BROADCAST with a configured mask, and without
abbrev pub net_broadcast : Option ℕ → ℕ → ℕ
net_broadcast (some mask) a = bit_or (bit_and a mask) (2 ^ 32 - 1 - mask)
net_broadcast none a = bit_or a 0xFF

-- `doip_udp_broadcast`: the packet that is allocated, if one is, and what the two calls on it answer
abbrev pub udp_broadcast : Option ℕ → Bool → Bool → ℕ → ℕ → (ℕ → ℕ) → ℕ → List Op
udp_broadcast none append_ok send_ok to port bytes len = []
udp_broadcast (some p) append_ok send_ok to port bytes len =
    if not append_ok || not send_ok
    then allocated p ∷ released p ∷ []
    else allocated p ∷ sent p to port bytes len ∷ []

-- `doip_eid`: byte `i` of the entity id, of the MAC in NetX's split
abbrev pub eid : ℕ → ℕ → ℕ → ℕ
eid msw lsw i =
    if i == 0
    then msw / 2 ^ 8 % 256
    else if i == 1
    then msw % 256
    else if i == 2
    then lsw / 2 ^ 24 % 256
    else if i == 3
    then lsw / 2 ^ 16 % 256
    else if i == 4
    then lsw / 2 ^ 8 % 256
    else lsw % 256
