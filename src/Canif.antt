-- ===== src/Canif.antt =====
-- driver/can/can_canif.c: the CAN port above AUTOSAR's CanIf. The two tables are the integration's
-- and CanIf is not here: `tx_map`, `rx_map` and CanIf_Transmit's answer are arguments.

pub mod Receive
pub mod Pending
pub mod Names
mod Tests
use blobly_emb.Prelude.{
  ℕ, zero, suc, ◌+◌, ◌*◌, ◌-◌, ◌≤◌, ◌<◌, ◌^◌, ◌≡◌, ℤ, pos, negsuc, Status, ok, fail, Bool, true,
  false, not, ◌&&◌, ◌||◌, if◌then◌else◌, ltb, leb, ◌==◌, Option, none, some, update, add32, sub32,
  test_bit, low_bits, List, [], ◌∷◌,
}
use blobly_emb.CanRing
use blobly_emb.CanRing.{Ring, Out}

-- BLOB_CAN_BUSES
abbrev pub can_buses : ℕ
can_buses = 2

-- `tx_map_t`, `rx_map_t`; a bus is an index of the arrays below.
pub record TxMap : Type 0 where
  pub bus : ℕ
  pub id : ℕ
  pub pdu : ℕ
  pub ext : Bool

pub record RxMap : Type 0 where
  pub pdu : ℕ
  pub bus : ℕ
  pub id : ℕ
  pub ext : Bool

-- `rx_ring`, `rx_lost`, `tx_pending`
pub record Shim : Type 0 where
  pub rx_ring : ℕ → Ring
  pub rx_lost : ℕ → ℕ
  pub tx_pending : ℕ → ℕ

-- `id | BLOB_CANIF_RX_EXT_BIT`
abbrev pub set_ext : ℕ → ℕ
set_ext id = if test_bit id 31 then id else id + 2 ^ 31

-- `Blobly_TxConfirmation`: the first row of the PDU decides.
unfoldable pub tx_confirmation : List TxMap → ℕ → Shim → Shim
tx_confirmation [] pdu s = s
tx_confirmation (row ∷ rows) pdu s =
    let later = tx_confirmation rows pdu s in
    if row.pdu == pdu
    then if ltb row.bus can_buses
      then record s { tx_pending = update s.tx_pending row.bus (sub32 (s.tx_pending row.bus) 1) }
      else s
    else later

-- `blob_can_send` of a row on bus `h`; `accepted` is whether CanIf_Transmit returns E_OK.
abbrev pub send_row : Bool → ℕ → Shim → Status × Shim
send_row accepted h s =
    let bumped =
      (if ltb h can_buses
        then record s { tx_pending = update s.tx_pending h (add32 (s.tx_pending h) 1) }
        else s) in
    let undone =
      (if ltb h can_buses
        then record bumped {
          tx_pending = update bumped.tx_pending h (sub32 (bumped.tx_pending h) 1);
        }
        else bumped) in
    if accepted then (ok, bumped) else (fail, undone)

-- The test for a row.
abbrev pub sends : TxMap → ℕ → ℕ → ℕ → Bool
sends row h id flags =
    row.bus == h && row.id == id && (if row.ext then test_bit flags 1 else not (test_bit flags 1))

-- `blob_can_send`; `transmit` is CanIf_Transmit's answer for a PDU.
unfoldable pub send : List TxMap → (ℕ → Bool) → ℕ → ℕ → ℕ → Shim → Status × Shim
send [] transmit h id flags s = (fail, s)
send (row ∷ rows) transmit h id flags s =
    let later = send rows transmit h id flags s in
    if sends row h id flags then send_row (transmit row.pdu) h s else later

-- `blob_can_tx_idle`
unfoldable pub tx_idle : ℤ → Shim → Bool
tx_idle (pos h) s = if leb can_buses h then true else s.tx_pending h == 0
tx_idle (negsuc k) s = true

-- What `blob_can_recv` writes through its pointers.
pub record Received : Type 0 where
  pub out : Out
  pub flags : ℕ

abbrev pub marked : Option Out → Option Received
marked none = none
marked (some o) = some (
    if test_bit o.id 31
    then record { out = record o { id = low_bits o.id 31 }; flags = 2 }
    else record { out = o; flags = 0 })

-- `blob_can_recv` into the buffer `d`; `none` is -1.
unfoldable pub recv : ℤ → (ℕ → ℕ) → Shim → Option Received × Shim
recv (negsuc k) d s = (none, s)
recv (pos h) d s =
    if leb can_buses h
    then (none, s)
    else let (o, r) = CanRing.pop (s.rx_ring h) d in
      (marked o, record s { rx_ring = update s.rx_ring h r })

-- `Blobly_RxIndication` of the bytes `d`, `len` of them: the first row of the PDU decides.
abbrev pub count_loss : ℕ → Status → Shim → Shim
count_loss b ok s = s
count_loss b fail s = record s { rx_lost = update s.rx_lost b (add32 (s.rx_lost b) 1) }

abbrev pub enqueue_row : RxMap → (ℕ → ℕ) → ℕ → Shim → Shim
enqueue_row row d len s =
    let (st, r) =
      CanRing.push (s.rx_ring row.bus) (if row.ext then set_ext row.id else row.id) d
        (low_bits len 8) in
    count_loss row.bus st (record s { rx_ring = update s.rx_ring row.bus r })

unfoldable pub rx_indication : List RxMap → ℕ → (ℕ → ℕ) → ℕ → Shim → Shim
rx_indication [] pdu d len s = s
rx_indication (row ∷ rows) pdu d len s =
    let later = rx_indication rows pdu d len s in
    if row.pdu == pdu then enqueue_row row d len s else later

-- `blob_can_rx_overruns`
unfoldable pub rx_overruns : ℤ → Shim → ℕ
rx_overruns (pos h) s = if ltb h can_buses then s.rx_lost h else 0
rx_overruns (negsuc k) s = 0

-- `blob_can_open` by a name of `len` characters: where the decimal suffix begins, its value, and
-- the bus. A name's suffix is taken to be small enough for an `int`.
abbrev pub is_digit : ℕ → Bool
is_digit c = leb 48 c && leb c 57

unfoldable pub suffix_start : (ℕ → ℕ) → ℕ → ℕ
suffix_start name zero = zero
suffix_start name (suc start) =
    let further = suffix_start name start in if is_digit (name start) then further else suc start

unfoldable pub suffix_value : (ℕ → ℕ) → ℕ → ℕ → ℕ → ℕ
suffix_value name i zero idx = idx
suffix_value name i (suc n) idx = suffix_value name (suc i) n (idx * 10 + (name i - 48))

unfoldable pub open_bus : (ℕ → ℕ) → ℕ → Shim → Option ℕ × Shim
open_bus name len s =
    let start = suffix_start name len in
    let idx = suffix_value name start (len - start) 0 in
    if start == len || leb can_buses idx
    then (none, s)
    else (some idx, record s { rx_lost = update s.rx_lost idx 0 })
