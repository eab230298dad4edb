-- ===== src/Socket/Wire.antt =====
-- driver/can/can_socket.c: what a frame keeps between blob_can_send and blob_can_recv.
use blobly_emb.Prelude.{ℕ, ◌+◌, ◌^◌, ◌≡◌, ◌<◌, Bool, false, if◌then◌else◌, some, List, ◌∷◌, arith}
use blobly_emb.Socket.{
  Slot, Packet, Answer, message, Received, received, is_remote, packet_of, recv_socket,
}

-- A frame with an identifier of 29 bits that `blob_can_send` hands to the kernel, at the head of a
-- receiving socket's queue, comes out of `blob_can_recv` with its identifier, its length, its two
-- flags and its bytes.
pub wire_round_trip :
    (id : ℕ) (bytes : ℕ → ℕ) (len : ℕ) (ext fd : Bool) (p : Packet) (g : ℕ → Slot) (sock : ℕ)
    (buffer : ℕ → ℕ) (drops : List ℕ) (answers : List Answer)
    → id < 2 ^ 29
    → packet_of id bytes len ext fd ≡ some p
    → (r : Received) × ((recv_socket g sock buffer
          (message (record { packet = p; drops = drops }) ∷ answers)).0
        ≡ some r)
      × (r.id ≡ id)
      × (r.len ≡ len)
      × (r.ext ≡ ext)
      × (r.fd ≡ fd)
      × ((j : ℕ) → j < len → r.bytes j ≡ bytes j)
unfolding recv_socket
wire_round_trip id bytes len ext fd p g sock buffer drops answers small e =
    let id_eq : p.can_id ≡ (if ext then id + 2 ^ 31 else id) = ground arith in
    let data_frame : is_remote p ≡ false = ground arith in
    (
      received buffer p,
      ground arith,
      ground arith,
      ground arith,
      ground arith,
      ground arith,
      λ j lt. ground arith,
    )
