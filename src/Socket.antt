-- ===== src/Socket.antt =====
-- driver/can/can_socket.c: the CAN port over SocketCAN. What the kernel answers is an argument; its
-- answers to recvmsg are a list. Child modules: Search and Counts have the table of drop counts, Drain
-- the loop of blob_can_recv, Wire what a frame keeps on its way.
mod Search
mod Counts
mod Drain
mod Wire
mod Tests
use blobly_emb.Prelude.{
  ℕ, zero, suc, ◌+◌, ◌*◌, ◌/◌, ◌-◌, ◌%◌, ◌^◌, ℤ, pos, negsuc, Status, ok, fail, Bool, true, false,
  not, ◌&&◌, ◌||◌, if◌then◌else◌, ltb, leb, ◌==◌, Option, none, some, update, low_bits, test_bit,
  List, [], ◌∷◌, length,
}

-- An entry of `g_ovfl`; a descriptor is not negative.
pub record Slot : Type 0 where
  pub fd : ℕ
  pub ovfl : ℕ
  pub in_use : Bool

abbrev pub ovfl_slots : ℕ
ovfl_slots = 16

-- The first of the `n` entries from `i` on that passes the test of a loop
unfoldable pub first_of : (Slot → Bool) → (ℕ → Slot) → ℕ → ℕ → Option ℕ
first_of test g i zero = none
first_of test g i (suc n) =
    let rest = first_of test g (suc i) n in if test (g i) then some i else rest

abbrev pub holds : ℕ → Slot → Bool
holds fd s = s.in_use && s.fd == fd

abbrev pub is_free : Slot → Bool
is_free s = not s.in_use

abbrev pub claim_free : (ℕ → Slot) → ℕ → ℕ → Option ℕ → ℕ → Slot
claim_free g fd v none = g
claim_free g fd v (some i) = update g i (record { fd = fd; ovfl = v; in_use = true })

abbrev pub store_at : (ℕ → Slot) → ℕ → ℕ → Option ℕ → ℕ → Slot
store_at g fd v (some i) = update g i (record (g i) { ovfl = v })
store_at g fd v none = claim_free g fd v (first_of is_free g 0 ovfl_slots)

unfoldable pub ovfl_store : (ℕ → Slot) → ℕ → ℕ → ℕ → Slot
ovfl_store g fd v = store_at g fd v (first_of (holds fd) g 0 ovfl_slots)

-- `ovfl_reset`
abbrev pub ovfl_reset : (ℕ → Slot) → ℕ → ℕ → Slot
ovfl_reset g fd i =
    if ltb i ovfl_slots && holds fd (g i) then record { fd = 0; ovfl = 0; in_use = false } else g i

abbrev pub count_at : (ℕ → Slot) → Option ℕ → ℕ
count_at g none = 0
count_at g (some i) = (g i).ovfl

-- `blob_can_rx_overruns`
unfoldable pub rx_overruns : (ℕ → Slot) → ℕ → ℕ
rx_overruns g sock = count_at g (first_of (holds sock) g 0 ovfl_slots)

-- What the kernel answers to `blob_can_open`: the socket, whether the interface exists, and whether
-- the socket is bound to it.
pub record Answers : Type 0 where
  pub socket : Option ℕ
  pub has_index : Bool
  pub binds : Bool

-- `blob_can_open`: the descriptor or -1, and the table
abbrev pub open_fd : Answers → Option ℕ → (ℕ → Slot) → Option ℕ × (ℕ → Slot)
open_fd k none g = (none, g)
open_fd k (some s) g =
    if not k.has_index
    then (none, g)
    else if not k.binds
    then (none, g)
    else (some s, ovfl_reset g s)

abbrev pub open_socket : Answers → (ℕ → Slot) → Option ℕ × (ℕ → Slot)
open_socket k g = open_fd k k.socket g

-- `blob_can_tx_ready` with the result of `poll` and its POLLOUT
abbrev pub poll_ready : ℤ → ℤ → Bool → Bool
poll_ready (negsuc k) r pollout = false
poll_ready (pos sock) (negsuc k) pollout = false
poll_ready (pos sock) (pos r) pollout = ltb 0 r && pollout

-- A struct can_frame or canfd_frame on its way, `size` in bytes
pub record Packet : Type 0 where
  pub size : ℕ
  pub can_id : ℕ
  pub len : ℕ
  pub bytes : ℕ → ℕ

-- The sizes of the two structs
abbrev pub can_mtu : ℕ
can_mtu = 16

abbrev pub canfd_mtu : ℕ
canfd_mtu = 72

-- `x | (1 << 31)`
abbrev pub set_eff : ℕ → ℕ
set_eff x = if test_bit x 31 then x else x + 2 ^ 31

-- The struct that `blob_can_send` fills, where it does not return first
abbrev pub packet_of : ℕ → (ℕ → ℕ) → ℕ → Bool → Bool → Option Packet
packet_of id bytes len ext fd =
    let can_id = if ext then set_eff id else id in
    let payload : ℕ → ℕ = λ i. if ltb i len then bytes i else 0 in
    if fd
    then if ltb 64 len
      then none
      else some (record { size = canfd_mtu; can_id = can_id; len = len; bytes = payload })
    else if ltb 8 len
    then none
    else some (record { size = can_mtu; can_id = can_id; len = len; bytes = payload })

-- `blob_can_send` with what `write` returns
abbrev pub written : (Packet → ℤ) → Option Packet → Status
written write none = fail
written write (some p) = elim (write p) [
  | negsuc k ↦ fail
  | pos n ↦ if n == p.size then ok else fail
]

unfoldable pub send_socket : (Packet → ℤ) → ℕ → (ℕ → ℕ) → ℕ → Bool → Bool → Status
send_socket write id bytes len ext fd = written write (packet_of id bytes len ext fd)

-- One message of the socket's queue, with the drop counts among its ancillary data
pub record Message : Type 0 where
  pub packet : Packet
  pub drops : List ℕ

abbrev pub store_all : (ℕ → Slot) → ℕ → List ℕ → ℕ → Slot
store_all g sock [] = g
store_all g sock (v ∷ vs) = store_all (ovfl_store g sock v) sock vs

abbrev pub is_remote : Packet → Bool
is_remote p = test_bit p.can_id 30

-- What `blob_can_recv` leaves for its caller: `*data` from the bytes it held before
pub record Received : Type 0 where
  pub id : ℕ
  pub len : ℕ
  pub ext : Bool
  pub fd : Bool
  pub bytes : ℕ → ℕ

abbrev pub received : (ℕ → ℕ) → Packet → Received
received buffer p = record {
  id = low_bits p.can_id 29;
  len = p.len;
  ext = test_bit p.can_id 31;
  fd = p.size == canfd_mtu;
  bytes = λ i. if ltb i p.len then p.bytes i else buffer i;
}

-- What the next call of recvmsg gives: n <= 0, whatever the queue holds, or a message
pub data Answer : Type 0 where
  refusal : Answer
  message : (m : Message) → Answer

-- `blob_can_recv`: the frame or -1, the answers to later calls, and the table. Where the answers end,
-- the queue is empty.
unfoldable pub recv_socket :
    (ℕ → Slot) → ℕ → (ℕ → ℕ) → List Answer → Option Received × (List Answer × (ℕ → Slot))
recv_socket g sock buffer [] = (none, ([], g))
recv_socket g sock buffer (refusal ∷ answers) = (none, (answers, g))
recv_socket g sock buffer (message m ∷ answers) =
    let g' = store_all g sock m.drops in
    let rest = recv_socket g' sock buffer answers in
    if is_remote m.packet then rest else (some (received buffer m.packet), (answers, g'))
