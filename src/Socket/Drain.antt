-- ===== src/Socket/Drain.antt =====
-- driver/can/can_socket.c: blob_can_recv against the kernel's answers to recvmsg.
use blobly_emb.Prelude.{
  ℕ, refl, ◌/◌, ◌%◌, ◌^◌, ◌≤◌, ◌<◌, ◌≡◌, ◌↔◌, Bool, true, false, if◌then◌else◌, Option, none, some,
  List, [], ◌∷◌, arith,
}
use blobly_emb.Socket.{
  Slot, Message, Received, received, is_remote, store_all, Answer, refusal, message, recv_socket,
}

-- The frame that the caller gets of a message, field by field: 29 bits of identifier, bit 31 for an
-- extended one, the size of the struct for FD, and the message's bytes over the caller's buffer.
pub record Frame (buffer : ℕ → ℕ) (m : Message) (r : Received) : Type 0 where
  pub id : r.id ≡ m.packet.can_id % 2 ^ 29
  pub len : r.len ≡ m.packet.len
  pub ext : (r.ext ≡ true) ↔ (m.packet.can_id / 2 ^ 31 % 2 ≡ 1)
  pub fd : (r.fd ≡ true) ↔ (m.packet.size ≡ 72)
  pub bytes : (i : ℕ) → i < m.packet.len → r.bytes i ≡ m.packet.bytes i
  pub untouched : (i : ℕ) → m.packet.len ≤ i → r.bytes i ≡ buffer i

-- What a call may make of the answers: -1 at an empty queue or a refusal, the others left; past
-- messages with bit 30 of the identifier set, what comes behind; the first message without.
pub data Drained (buffer : ℕ → ℕ) : List Answer → Option Received → List Answer → Type 0 where
  at_end : Drained buffer [] none []
  refused : {answers : List Answer} → Drained buffer (refusal ∷ answers) none answers
  skipped :
      {m : Message} {answers left : List Answer} {got : Option Received}
      → m.packet.can_id / 2 ^ 30 % 2 ≡ 1
      → Drained buffer answers got left
      → Drained buffer (message m ∷ answers) got left
  taken :
      {m : Message} {answers : List Answer} {r : Received}
      → m.packet.can_id / 2 ^ 30 % 2 ≡ 0
      → Frame buffer m r
      → Drained buffer (message m ∷ answers) (some r) answers

received-Frame : (buffer : ℕ → ℕ) (m : Message) → Frame buffer m (received buffer m.packet)
received-Frame buffer m = record {
  id = ground arith;
  len = ground arith;
  ext = (λ e. ground arith, λ e. ground arith);
  fd = (λ e. ground arith, λ e. ground arith);
  bytes = λ i lt. ground arith;
  untouched = λ i le. ground arith;
}

-- One message: skipped where it is a remote frame, else taken
drain_step :
    (buffer : ℕ → ℕ) (m : Message) (answers : List Answer) (g : ℕ → Slot)
    (skip : Option Received × (List Answer × (ℕ → Slot))) (b : Bool)
    → (b ≡ is_remote m.packet)
    → Drained buffer answers skip.0 skip.1.0
    → let r = if b then skip else (some (received buffer m.packet), (answers, g)) in
      Drained buffer (message m ∷ answers) r.0 r.1.0
drain_step buffer m answers g skip true e d = skipped (ground arith) d
drain_step buffer m answers g skip false e d = taken (ground arith) (received-Frame buffer m)

-- Whatever recvmsg answers, `blob_can_recv` ends in one of these ways: past the remote frames (bit 30)
-- ahead of it, the first data frame is returned, with the fields that its message spells; or recvmsg
-- has refused, or the queue is empty, before a data frame came, and it returns -1. The answers behind
-- are left to the next call, in their order.
pub recv_refines :
    (g : ℕ → Slot) (sock : ℕ) (buffer : ℕ → ℕ) (answers : List Answer)
    → let r = recv_socket g sock buffer answers in Drained buffer answers r.0 r.1.0
unfolding recv_socket
recv_refines g sock buffer [] = at_end
recv_refines g sock buffer (refusal ∷ answers) = refused
recv_refines g sock buffer (message m ∷ answers) =
    drain_step buffer m answers (store_all g sock m.drops)
      (recv_socket (store_all g sock m.drops) sock buffer answers) (is_remote m.packet) refl
      (recv_refines (store_all g sock m.drops) sock buffer answers)
