-- ===== src/Sthal.antt =====
-- driver/can/can_sthal.c: the CAN port over the vendor's HAL, which is an argument. Child modules:
-- Loopback has frames and their length codes, Session the tallies.
mod Loopback
mod Session
mod Tests
use blobly_emb.Prelude.{
  ℕ, ◌+◌, ◌*◌, ◌/◌, ◌-◌, ◌%◌, ◌^◌, ℤ, pos, negsuc, Status, ok, fail, Bool, true, false, not, ◌&&◌,
  ◌||◌, if◌then◌else◌, ltb, leb, ◌==◌, Option, none, some, update, add32, low_bits,
}

-- FDCAN_TxHeaderTypeDef, without the fields that every frame sets alike
pub record TxHeader : Type 0 where
  pub identifier : ℕ
  pub extended : Bool
  pub data_length : ℕ
  pub bit_rate_switch : Bool
  pub fd_format : Bool

-- FDCAN_RxHeaderTypeDef, as far as the driver reads it
pub record RxHeader : Type 0 where
  pub identifier : ℕ
  pub extended : Bool
  pub remote : Bool
  pub data_length : ℕ
  pub fd_format : Bool

-- The HAL over the state `W` of the peripheral, by the index of the instance: its calls, the
-- register bits that the driver reads and writes, and FDCAN_DLC_BYTES_12 to 64.
pub record Hal (W : Type 0) : Type 0 where
  pub config_filter : ℕ → W → W
  pub start : ℕ → W → Bool × W
  pub stop : ℕ → W → W
  pub add_message : ℕ → TxHeader → (ℕ → ℕ) → W → Bool × W
  pub free_level : ℕ → W → ℕ
  pub fill_level : ℕ → W → ℕ
  pub get_message : ℕ → W → Option (RxHeader × (ℕ → ℕ)) × W
  pub lost_flag : ℕ → W → Bool
  pub clear_lost : ℕ → W → W
  pub bus_off : ℕ → W → Bool
  pub init_bit : ℕ → W → Bool
  pub clear_init : ℕ → W → W
  pub txbrp : ℕ → W → ℕ
  pub bytes_12 : ℕ
  pub bytes_16 : ℕ
  pub bytes_20 : ℕ
  pub bytes_24 : ℕ
  pub bytes_32 : ℕ
  pub bytes_48 : ℕ
  pub bytes_64 : ℕ

-- `rx_lost`, `hal_closed`, `hal_recovering` and `hal_busoff_rec` of one instance
pub record Tally : Type 0 where
  pub rx_lost : ℕ
  pub closed : Bool
  pub recovering : Bool
  pub busoff_rec : ℕ

-- `bus_handle`: whether there is an instance
abbrev pub bus_handle : ℤ → Option ℕ
bus_handle (negsuc k) = none
bus_handle (pos h) = if ltb h 3 then some h else none

abbrev pub dlc_exact : ℕ → Bool
dlc_exact len =
    leb len 8
    || len == 12
    || len == 16
    || len == 20
    || len == 24
    || len == 32
    || len == 48
    || len == 64

-- What a frame read leaves in `*id`, `*len`, `*flags` and `bytes`
pub record Frame : Type 0 where
  pub id : ℕ
  pub len : ℕ
  pub is_ext : Bool
  pub fd : Bool
  pub bytes : ℕ → ℕ

module _ {W : Type 0} (hal : Hal W) where
  abbrev pub len_to_dlc : ℕ → ℕ
  len_to_dlc len =
      if leb len 8
      then len * 2 ^ 16
      else if leb len 12
      then hal.bytes_12
      else if leb len 16
      then hal.bytes_16
      else if leb len 20
      then hal.bytes_20
      else if leb len 24
      then hal.bytes_24
      else if leb len 32
      then hal.bytes_32
      else if leb len 48
      then hal.bytes_48
      else hal.bytes_64

  abbrev pub dlc_to_len : ℕ → ℕ
  dlc_to_len dlc =
      if dlc == hal.bytes_12
      then 12
      else if dlc == hal.bytes_16
      then 16
      else if dlc == hal.bytes_20
      then 20
      else if dlc == hal.bytes_24
      then 24
      else if dlc == hal.bytes_32
      then 32
      else if dlc == hal.bytes_48
      then 48
      else if dlc == hal.bytes_64
      then 64
      else low_bits (dlc / 2 ^ 16) 8

  -- The driver's tallies and the peripheral
  abbrev pub Driver : Type 0
  Driver = (ℕ → Tally) × W

  -- `hal_busoff_poll` of an instance
  unfoldable pub hal_busoff_poll : ℕ → Driver → Driver
  hal_busoff_poll h (tally, w) =
      let t = tally h in
      if t.closed
      then (tally, w)
      else if hal.bus_off h w
      then (
        update tally h (record t { recovering = true }),
        (if hal.init_bit h w then hal.clear_init h w else w),
      )
      else if t.recovering
      then (update tally h (record t { recovering = false; busoff_rec = add32 t.busoff_rec 1 }), w)
      else (tally, w)

  abbrev pub started : ℕ → (ℕ → Tally) → Bool × W → Option ℕ × Driver
  started h tally (false, w) = (none, (tally, w))
  started h tally (true, w) = (
    some h,
    (
      update tally h (record { rx_lost = 0; closed = false; recovering = false; busoff_rec = 0 }),
      hal.clear_lost h w,
    ),
  )

  abbrev pub open_handle : Option ℕ → Driver → Option ℕ × Driver
  open_handle none d = (none, d)
  open_handle (some h) (tally, w) = started h tally (hal.start h (hal.config_filter h w))

  -- `blob_can_open` with the name's bytes, or no name; a name's first byte gives the index.
  unfoldable pub open_name : Option (ℕ → ℕ) → Driver → Option ℕ × Driver
  open_name none d = open_handle (some 0) d
  open_name (some name) d =
      if name 0 == 0
      then open_handle (some 0) d
      else if ltb (name 0) b'0'
      then (none, d)
      else open_handle (bus_handle (pos (name 0 - b'0'))) d

  abbrev pub tx_header : ℕ → ℕ → Bool → Bool → TxHeader
  tx_header id len is_ext fd = record {
    identifier = low_bits id 29;
    extended = is_ext;
    data_length = len_to_dlc len;
    bit_rate_switch = fd;
    fd_format = fd;
  }

  abbrev pub with_tally : (ℕ → Tally) → Bool × W → Status × Driver
  with_tally tally (true, w) = (ok, (tally, w))
  with_tally tally (false, w) = (fail, (tally, w))

  abbrev pub send_polled : ℕ → ℕ → (ℕ → ℕ) → ℕ → Bool → Bool → Driver → Status × Driver
  send_polled h id bytes len is_ext fd (tally, w) =
      if not (dlc_exact len)
      then (fail, (tally, w))
      else with_tally tally (hal.add_message h (tx_header id len is_ext fd) bytes w)

  -- `blob_can_send` with the two flags
  abbrev pub send_handle : Option ℕ → ℕ → (ℕ → ℕ) → ℕ → Bool → Bool → Driver → Status × Driver
  send_handle none id bytes len is_ext fd d = (fail, d)
  send_handle (some h) id bytes len is_ext fd d =
      send_polled h id bytes len is_ext fd (hal_busoff_poll h d)

  unfoldable pub send_hal : ℤ → ℕ → (ℕ → ℕ) → ℕ → Bool → Bool → Driver → Status × Driver
  send_hal h id bytes len is_ext fd d = send_handle (bus_handle h) id bytes len is_ext fd d

  -- `blob_can_tx_ready` and `blob_can_tx_idle`
  abbrev pub ready_handle : Option ℕ → Driver → Bool × Driver
  ready_handle none d = (false, d)
  ready_handle (some h) d = let d' = hal_busoff_poll h d in (ltb 0 (hal.free_level h d'.1), d')

  abbrev pub idle_handle : Option ℕ → Driver → Bool × Driver
  idle_handle none d = (true, d)
  idle_handle (some h) d = let d' = hal_busoff_poll h d in (hal.txbrp h d'.1 == 0, d')

  -- The overrun flag, noted and cleared
  abbrev pub note_lost : ℕ → Driver → Driver
  note_lost h (tally, w) =
      if hal.lost_flag h w
      then (
        update tally h (record (tally h) { rx_lost = add32 (tally h).rx_lost 1 }),
        hal.clear_lost h w,
      )
      else (tally, w)

  abbrev pub frame_of : RxHeader → (ℕ → ℕ) → Option Frame
  frame_of rx bytes =
      if rx.remote
      then none
      else some (record {
        id = rx.identifier;
        len = dlc_to_len rx.data_length;
        is_ext = rx.extended;
        fd = rx.fd_format;
        bytes = bytes;
      })

  abbrev pub read_message : (ℕ → Tally) → Option (RxHeader × (ℕ → ℕ)) × W → Option Frame × Driver
  read_message tally (none, w) = (none, (tally, w))
  read_message tally (some (rx, bytes), w) = (frame_of rx bytes, (tally, w))

  abbrev pub recv_noted : ℕ → Driver → Option Frame × Driver
  recv_noted h (tally, w) =
      if hal.fill_level h w == 0
      then (none, (tally, w))
      else read_message tally (hal.get_message h w)

  abbrev pub recv_handle : Option ℕ → Driver → Option Frame × Driver
  recv_handle none d = (none, d)
  recv_handle (some h) d = recv_noted h (note_lost h (hal_busoff_poll h d))

  -- `blob_can_recv`, `none` for -1
  unfoldable pub recv_hal : ℤ → Driver → Option Frame × Driver
  recv_hal h d = recv_handle (bus_handle h) d

  -- `blob_can_rx_overruns` and `blob_can_busoff_recoveries`
  abbrev pub overruns_of : Option ℕ → Driver → ℕ
  overruns_of none d = 0
  overruns_of (some h) d = (d.0 h).rx_lost

  abbrev pub recoveries_of : Option ℕ → Driver → ℕ × Driver
  recoveries_of none d = (0, d)
  recoveries_of (some h) d = let d' = hal_busoff_poll h d in ((d'.0 h).busoff_rec, d')

  -- `blob_can_close`
  abbrev pub close_handle : Option ℕ → Driver → Driver
  close_handle none d = d
  close_handle (some h) (tally, w) =
      (update tally h (record (tally h) { closed = true }), hal.stop h w)
