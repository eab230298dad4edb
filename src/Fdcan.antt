-- ===== src/Fdcan.antt =====
-- driver/can/can_fdcan.c: the register-level driver of the Bosch M_CAN cores. Child modules:
-- Lengths has the length codes, Open the initialisation, Io the calls after it; Element, Frames, Send and
-- Recovery the results.
pub mod Lengths
pub mod Open
pub mod Io
mod Element
pub mod Frames
mod Send
pub mod Recovery
mod Tests
use blobly_emb.Prelude.{
  ℕ, ◌+◌, ◌*◌, ◌/◌, ◌-◌, ◌%◌, ◌^◌, ℤ, pos, negsuc, Bool, true, false, not, ◌&&◌, ◌||◌,
  if◌then◌else◌, ltb, ◌==◌, Option, none, some, update, add32,
}

-- The macros that a board may override.
pub record Config : Type 0 where
  pub kclk_hz : ℕ
  pub bitrate : ℕ
  pub tq : ℕ
  pub ntseg1 : ℕ
  pub ntseg2 : ℕ
  pub nsjw : ℕ
  pub dbitrate : ℕ
  pub dtq : ℕ
  pub dtseg1 : ℕ
  pub dtseg2 : ℕ
  pub dsjw : ℕ
  pub nobrs : Bool
  -- 3 where the part has FDCAN3, else 2
  pub instances : ℕ

abbrev pub defaults : Config
defaults = record {
  kclk_hz = 80000000;
  bitrate = 500000;
  tq = 16;
  ntseg1 = 13;
  ntseg2 = 2;
  nsjw = 1;
  dbitrate = 2000000;
  dtq = 20;
  dtseg1 = 15;
  dtseg2 = 4;
  dsjw = 4;
  nobrs = false;
  instances = 3;
}

-- RX0_ELMTS, TX_ELMTS, ELMT_WORDS, REGION_WORDS
abbrev pub rx0_elmts : ℕ
rx0_elmts = 8

abbrev pub tx_elmts : ℕ
tx_elmts = 8

abbrev pub elmt_words : ℕ
elmt_words = 18

abbrev pub region_words : ℕ
region_words = (rx0_elmts + tx_elmts) * elmt_words

-- The four fields of NBTP and DBTP, as written (each one less than the count).
pub record Timing : Type 0 where
  pub sjw : ℕ
  pub tseg1 : ℕ
  pub tseg2 : ℕ
  pub brp : ℕ

-- The registers of one core by their fields: the driver reads and writes them by CMSIS's masks.
-- `txbar` is the word written last; `rf0l` is IR.RF0L, cleared by writing 1.
pub record Regs : Type 0 where
  pub init : Bool
  pub cce : Bool
  pub fdoe : Bool
  pub brse : Bool
  pub nbtp : Timing
  pub dbtp : Timing
  pub rrfe : Bool
  pub rrfs : Bool
  pub sidfc : ℕ
  pub f0sa : ℕ
  pub f0s : ℕ
  pub f0ds : ℕ
  pub tbsa : ℕ
  pub tfqs : ℕ
  pub tbds : ℕ
  pub rf0l : Bool
  pub psr_bo : Bool
  pub tfqf : Bool
  pub tfqpi : ℕ
  pub txbar : ℕ
  pub txbrp : ℕ
  pub f0fl : ℕ
  pub f0gi : ℕ
  pub rxf0a : ℕ

-- What the driver keeps for each handle.
pub record Port : Type 0 where
  pub rx_lost : ℕ
  pub closed : Bool
  pub recovering : Bool
  pub busoff_rec : ℕ
  pub fd : Bool

-- The cores, the shared message RAM in words from SRAMCAN_BASE on, and the driver's state.
pub record Can : Type 0 where
  pub reg : ℕ → Regs
  pub ram : ℕ → ℕ
  pub port : ℕ → Port

-- `inst`
abbrev pub inst : Config → ℤ → Option ℕ
inst cfg (pos i) = if ltb i cfg.instances && ltb i 3 then some i else none
inst cfg (negsuc k) = none

-- `region_off`
abbrev pub region_off : ℕ → ℕ
region_off i = i * region_words

-- `busoff_poll` of an instance that exists
unfoldable pub busoff_poll : Can → ℕ → Can
busoff_poll d h =
    let p = d.port h in
    let r = d.reg h in
    if p.closed
    then d
    else if r.psr_bo
    then record d {
      reg = if r.init then update d.reg h (record r { init = false }) else d.reg;
      port = update d.port h (record p { recovering = true });
    }
    else if p.recovering
    then record d {
      port = update d.port h (record p { recovering = false; busoff_rec = add32 p.busoff_rec 1 });
    }
    else d
