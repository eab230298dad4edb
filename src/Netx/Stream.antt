-- ===== src/Netx/Stream.antt =====
-- The TCP byte pipe of driver/eth/doip_netx.c. Packets, the clock and what NetX's calls return are
-- arguments; the calls are listed in their order. The deadlines are Doip.Idle.
use blobly_emb.Prelude.{
  ℕ, ◌*◌, ◌/◌, ◌%◌, ◌^◌, Bool, true, false, not, ◌&&◌, ◌||◌, if◌then◌else◌, ltb, leb, ◌==◌, Option,
  none, some, List, [], ◌∷◌, ◌++◌, add32,
}
use blobly_emb.Doip.Mailbox.{Mailbox, drop, queue}
use blobly_emb.Doip.Idle.{Idle, accept, left, rx, tx, activate}

-- What the source reads of an NX_PACKET: `nx_packet_length` and the bytes, through
-- nx_packet_data_extract_offset
pub record NxPacket : Type 0 where
  pub id : ℕ
  pub length : ℕ
  pub bytes : ℕ → ℕ

pub data Received : Type 0 where
  packet : (p : NxPacket) → Received
  no_packet failed : Received

-- The calls of NetX and of the comm thread's wake-up
pub data Op : Type 0 where
  listens accepts disconnects unaccepts relistens wakes : Op
  receives : (timeout : ℕ) (r : Received) → Op
  allocates releases sends : (id : ℕ) → Op

-- The statics of the pipe, with the mailbox and `rt_ends`
pub record Stream : Type 0 where
  pub pending : Option (NxPacket × ℕ)
  pub listening : Bool
  pub connected : Bool
  pub idle : Idle
  pub mb : Mailbox
  pub ends : ℕ
  pub rx_bytes : ℕ
  pub tx_bytes : ℕ

-- `ms_ticks_sat` at a tick rate
abbrev pub ms_ticks_sat : ℕ → ℕ → ℕ
ms_ticks_sat rate ms =
    let t = ms * rate % 2 ^ 64 / 1000 in if ltb 0xFFFFFFFF t then 0xFFFFFFFF else t

-- `doip_net_timers`
abbrev pub net_timers : ℕ → ℕ → ℕ → Stream → Stream
net_timers rate initial_ms general_ms s = record s {
  idle = record (s.idle) {
    initial = ms_ticks_sat rate initial_ms;
    general = ms_ticks_sat rate general_ms;
  };
}

abbrev pub release_pending : Option (NxPacket × ℕ) → List Op
release_pending none = []
release_pending (some (p, off)) = releases p.id ∷ []

-- `stream_recycle`, whose result is -1
abbrev pub recycle : Stream → Stream × List Op
recycle s = (
  record s { pending = none; connected = false; mb = drop s.mb; ends = add32 s.ends 1 },
  release_pending s.pending ++ (disconnects ∷ unaccepts ∷ relistens ∷ wakes ∷ []),
)

-- The answers to a call of `doip_stream_recv`, in the order in which it asks, each time a tick
pub record Asked : Type 0 where
  pub listen_ok : Bool
  pub accept_ok : Bool
  pub accepted_at : ℕ
  pub called_at : ℕ
  pub received : Received
  pub back_at : ℕ
  pub done_at : ℕ

-- -1, a number of bytes, or no return: without a listener doip_setup_failed is set and the thread
-- sleeps for ever.
pub data Got : Type 0 where
  dropped parked : Got
  got : (n : ℕ) → Got

pub record Result : Type 0 where
  pub value : Got
  pub buf : ℕ → ℕ
  pub after : Stream
  pub ops : List Op

abbrev pub recycled : Stream → (ℕ → ℕ) → Result
recycled s buf = record { value = dropped; buf = buf; after = (recycle s).0; ops = (recycle s).1 }

abbrev pub before : List Op → Result → Result
before ops r = record r { ops = ops ++ r.ops }

-- `extract` is nx_packet_data_extract_offset: the buffer and `got`, of a packet, an offset, the buffer
-- and its size.
module _ (extract : NxPacket → ℕ → (ℕ → ℕ) → ℕ → (ℕ → ℕ) × ℕ) where
  -- The bytes of a packet from `off` on, what is left of it being kept
  abbrev pub take_bytes : Asked → Stream → (ℕ → ℕ) → ℕ → NxPacket → ℕ → Result
  take_bytes a s buf max p off =
      let e = extract p off buf max in
      let all = leb p.length (add32 off e.1) in
      record {
        value = got e.1;
        buf = e.0;
        after = record s {
          pending = if all then none else some (p, add32 off e.1);
          idle = rx s.idle a.done_at;
          rx_bytes = add32 s.rx_bytes e.1;
        };
        ops = if all then releases p.id ∷ [] else [];
      }

  abbrev pub after_wait : Asked → Stream → (ℕ → ℕ) → ℕ → Received → Result
  after_wait a s buf max (packet p) = take_bytes a s buf max p 0
  after_wait a s buf max no_packet =
      if left s.idle a.back_at == 0
      then recycled s buf
      else record { value = got 0; buf = buf; after = s; ops = [] }
  after_wait a s buf max failed = recycled s buf

  abbrev pub receive_or_go_on : Asked → Stream → (ℕ → ℕ) → ℕ → ℕ → Option (NxPacket × ℕ) → Result
  receive_or_go_on a s buf max timeout none =
      before (receives timeout a.received ∷ []) (after_wait a s buf max a.received)
  receive_or_go_on a s buf max timeout (some (p, off)) = take_bytes a s buf max p off

  -- Not past the deadline that is running
  abbrev pub recv_open : Asked → Stream → (ℕ → ℕ) → ℕ → ℕ → Result
  recv_open a s buf max timeout =
      let l = left s.idle a.called_at in
      if l == 0
      then recycled s buf
      else receive_or_go_on a s buf max (if ltb l timeout then l else timeout) s.pending

  abbrev pub recv_listening : Asked → Stream → (ℕ → ℕ) → ℕ → ℕ → Result
  recv_listening a s buf max timeout =
      if s.connected
      then recv_open a s buf max timeout
      else if not a.accept_ok
      then record { value = got 0; buf = buf; after = s; ops = accepts ∷ [] }
      else before (accepts ∷ []) (
          recv_open a (record s { connected = true; idle = accept s.idle a.accepted_at }) buf max
            timeout)

  -- `doip_stream_recv`
  abbrev pub stream_recv : Asked → Stream → (ℕ → ℕ) → ℕ → ℕ → Result
  stream_recv a s buf max timeout =
      if s.listening
      then recv_listening a s buf max timeout
      else if not a.listen_ok
      then record { value = parked; buf = buf; after = s; ops = listens ∷ [] }
      else before (listens ∷ []) (recv_listening a (record s { listening = true }) buf max timeout)

-- `doip_net_ready`, `doip_stream_open` and `doip_tx_pending`
abbrev pub net_ready : Stream → Bool
net_ready s = s.listening

abbrev pub stream_open : Stream → Bool
stream_open s = s.connected

abbrev pub tx_pending : Stream → ℕ → Bool
tx_pending s unacked = s.connected && not (unacked == 0)

-- The answers to a call of `doip_stream_send`: the packet that is allocated, if one is
pub record Sending : Type 0 where
  pub allocated : Option ℕ
  pub append_ok : Bool
  pub send_ok : Bool
  pub sent_at : ℕ

abbrev pub send_packet : Sending → Stream → ℕ → Option ℕ → Bool × Stream × List Op
send_packet a s len none = (false, (recycle s).0, (recycle s).1)
send_packet a s len (some p) =
    if not a.append_ok || not a.send_ok
    then (false, (recycle s).0, allocates p ∷ releases p ∷ (recycle s).1)
    else (
      true,
      record s { tx_bytes = add32 s.tx_bytes len; idle = tx s.idle a.sent_at; mb = queue s.mb },
      allocates p ∷ sends p ∷ wakes ∷ [],
    )

-- `doip_stream_send`: whether it returns `len`, and not -1
abbrev pub stream_send : Sending → Stream → ℕ → Bool × Stream × List Op
stream_send a s len = send_packet a s len a.allocated

-- `doip_stream_drop` and `doip_stream_notify_activated`
abbrev pub stream_drop : Stream → Stream × List Op
stream_drop s = if s.connected then recycle s else (s, [])

abbrev pub notify_activated : Stream → Bool → Stream
notify_activated s on = record s { idle = activate s.idle on }
