-- ===== src/Canif/Pending.antt =====
-- driver/can/can_canif.c: the tally of frames handed over and not yet confirmed.
use blobly_emb.Prelude.{
  ℕ, ◌+◌, ◌%◌, ◌<◌, ◌^◌, ◌≡◌, Bool, true, false, ◌&&◌, if◌then◌else◌, ◌==◌, add32, sub32, List, [],
  ◌∷◌, arith, refl,
}
use blobly_emb.Canif.{TxMap, Shim, can_buses, send, sends, tx_confirmation}

-- A call of `blob_can_send` that CanIf_Transmit answers with `accepted`, or a confirmation.
pub data Event : Type 0 where
  sent : (h id flags : ℕ) (accepted : Bool) → Event
  confirmed : (pdu : ℕ) → Event

abbrev pub handle : List TxMap → Shim → Event → Shim
handle rows s (sent h id flags accepted) = (send rows (λ pdu. accepted) h id flags s).1
handle rows s (confirmed pdu) = tx_confirmation rows pdu s

abbrev pub run : List TxMap → Shim → List Event → Shim
run rows s [] = s
run rows s (e ∷ es) = run rows (handle rows s e) es

-- Whether the table has the frame, and the bus of a PDU.
abbrev pub configured : List TxMap → ℕ → ℕ → ℕ → Bool
configured [] h id flags = false
configured (row ∷ rows) h id flags =
    let later = configured rows h id flags in if sends row h id flags then true else later

abbrev pub bus_is : List TxMap → ℕ → ℕ → Bool
bus_is [] pdu b = false
bus_is (row ∷ rows) pdu b =
    let later = bus_is rows pdu b in if row.pdu == pdu then row.bus == b else later

-- What an event adds to and takes from what is under way on bus `b`.
abbrev pub begun : List TxMap → ℕ → Event → ℕ
begun rows b (sent h id flags accepted) =
    if h == b && configured rows h id flags && accepted then 1 else 0
begun rows b (confirmed pdu) = 0

abbrev pub ended : List TxMap → ℕ → Event → ℕ
ended rows b (sent h id flags accepted) = 0
ended rows b (confirmed pdu) = if bus_is rows pdu b then 1 else 0

abbrev pub total : (Event → ℕ) → List Event → ℕ
total f [] = 0
total f (e ∷ es) = f e + total f es

sent-pending :
    (rows : List TxMap) (h id flags : ℕ) (accepted : Bool) (s : Shim) (b : ℕ)
    → b < can_buses
    → s.tx_pending b < 2 ^ 32
    → (send rows (λ pdu. accepted) h id flags s).1.tx_pending b
      ≡ add32 (s.tx_pending b) (begun rows b (sent h id flags accepted))
unfolding send
sent-pending [] h id flags accepted s b lt word = ground arith
sent-pending (row ∷ rows) h id flags accepted s b lt word =
    ground (arith, sent-pending rows h id flags accepted s b lt word)

confirmed-pending :
    (rows : List TxMap) (pdu : ℕ) (s : Shim) (b : ℕ)
    → b < can_buses
    → s.tx_pending b < 2 ^ 32
    → (tx_confirmation rows pdu s).tx_pending b
      ≡ sub32 (s.tx_pending b) (ended rows b (confirmed pdu))
unfolding tx_confirmation
confirmed-pending [] pdu s b lt word = ground arith
confirmed-pending (row ∷ rows) pdu s b lt word =
    ground (arith, confirmed-pending rows pdu s b lt word)

handle-pending :
    (rows : List TxMap) (s : Shim) (e : Event) (b : ℕ)
    → b < can_buses
    → s.tx_pending b < 2 ^ 32
    → ((handle rows s e).tx_pending b + ended rows b e) % 2 ^ 32
      ≡ (s.tx_pending b + begun rows b e) % 2 ^ 32
handle-pending rows s (sent h id flags accepted) b lt word =
    ground (arith, sent-pending rows h id flags accepted s b lt word)
handle-pending rows s (confirmed pdu) b lt word =
    ground (arith, confirmed-pending rows pdu s b lt word)

handle-word :
    (rows : List TxMap) (s : Shim) (e : Event) (b : ℕ)
    → b < can_buses
    → s.tx_pending b < 2 ^ 32
    → (handle rows s e).tx_pending b < 2 ^ 32
handle-word rows s (sent h id flags accepted) b lt word =
    ground (arith, sent-pending rows h id flags accepted s b lt word)
handle-word rows s (confirmed pdu) b lt word =
    ground (arith, confirmed-pending rows pdu s b lt word)

-- Over any sequence of sends and confirmations, the tally of a bus grows by the accepted frames and
-- shrinks by the confirmations, modulo 2 ^ 32: what CanIf_Transmit rejects leaves no trace.
pub pending_balance :
    (rows : List TxMap) (es : List Event) (s : Shim) (b : ℕ)
    → b < can_buses
    → s.tx_pending b < 2 ^ 32
    → ((run rows s es).tx_pending b + total (ended rows b) es) % 2 ^ 32
      ≡ (s.tx_pending b + total (begun rows b) es) % 2 ^ 32
pending_balance rows [] s b lt word = refl
pending_balance rows (e ∷ es) s b lt word =
    let rest = pending_balance rows es (handle rows s e) b lt (handle-word rows s e b lt word) in
    omega (arith, rest, handle-pending rows s e b lt word)
