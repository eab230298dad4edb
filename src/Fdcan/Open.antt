-- ===== src/Fdcan/Open.antt =====
-- driver/can/can_fdcan.c, `blob_can_open`.
use blobly_emb.Prelude.{
  ℕ, zero, suc, ◌+◌, ◌*◌, ◌/◌, ◌-◌, ◌%◌, ◌≤◌, ◌<◌, ◌≡◌, ℤ, pos, negsuc, Bool, true, false, not,
  ◌&&◌, ◌||◌, if◌then◌else◌, leb, ltb, ◌==◌, Option, none, some, update, arith, refl, ◌∙◌, ◌≢◌, ap,
  sym, subst, Bool-cases, inl, inr,
}
use native.Mathlib.Nat.{div-add-mod'}
use blobly_emb.Fdcan.{
  Config, Regs, Can, inst, region_off, region_words, rx0_elmts, tx_elmts, elmt_words,
}

-- NBRP, DBRP; `/` by 0, which the compiler refuses, is 0 here.
abbrev pub nbrp : Config → ℕ
nbrp cfg = cfg.kclk_hz / (cfg.bitrate * cfg.tq)

abbrev pub dbrp : Config → ℕ
dbrp cfg = cfg.kclk_hz / (cfg.dbitrate * cfg.dtq)

-- The wait for CCCR.INIT: read `t` of the register shows the value waited for if `reads t`; the
-- reads are those with `t` up to 1000000.
unfoldable pub wait_init : (ℕ → Bool) → ℕ → ℕ → Bool
wait_init reads zero t = reads t
wait_init reads (suc n) t = let later = wait_init reads n (suc t) in if reads t then true else later

-- The test of the data phase's timing.
unfoldable pub mistimed : Config → Bool
mistimed cfg =
    ltb (dbrp cfg) 1
    || ltb 32 (dbrp cfg)
    || not (cfg.kclk_hz % (cfg.dbitrate * cfg.dtq) == 0)
    || not (1 + cfg.dtseg1 + cfg.dtseg2 == cfg.dtq)

-- The zeroed slice of the message RAM
abbrev pub zero_slice : Can → ℕ → Can
zero_slice d i = record d {
  ram = λ j. if leb (region_off i) j && ltb j (region_off i + region_words) then 0 else d.ram j;
}

-- CCCR.FDOE, CCCR.BRSE and DBTP; `none` is the return of -1.
unfoldable pub set_mode : Config → Bool → Regs → Option Regs
set_mode cfg fd_mode r =
    if fd_mode
    then if cfg.nobrs
      then some (record r { fdoe = true; brse = false })
      else if mistimed cfg
      then none
      else some (record r {
        fdoe = true;
        brse = true;
        dbtp = record {
          sjw = cfg.dsjw - 1;
          tseg1 = cfg.dtseg1 - 1;
          tseg2 = cfg.dtseg2 - 1;
          brp = dbrp cfg - 1;
        };
      })
    else some (record r { fdoe = false; brse = false })

-- From NBTP to the clearing of RF0L.
unfoldable pub configure : Config → ℕ → Regs → Regs
configure cfg off r = record r {
  nbtp = record {
    sjw = cfg.nsjw - 1;
    tseg1 = cfg.ntseg1 - 1;
    tseg2 = cfg.ntseg2 - 1;
    brp = nbrp cfg - 1;
  };
  rrfe = true;
  rrfs = true;
  sidfc = 0;
  f0sa = off;
  f0s = rx0_elmts;
  f0ds = 7;
  tbsa = off + rx0_elmts * elmt_words;
  tfqs = tx_elmts;
  tbds = 7;
  rf0l = false;
}

-- `(name && name[0]) ? (name[0] - '0') : 0`; `none` is the null pointer, and the string ends in 0.
abbrev pub index_of : Option (ℕ → ℕ) → ℤ
index_of none = pos 0
index_of (some name) =
    if name 0 == 0
    then pos 0
    else if ltb (name 0) 48
    then negsuc (47 - name 0)
    else pos (name 0 - 48)

-- From the timing on: `none` is -1.
abbrev pub finish : Config → ℕ → (ℕ → Bool) → Can → Option Regs → Option ℕ × Can
finish cfg i leave d none = (none, d)
finish cfg i leave d (some r) =
    let d' = record d {
      reg = update d.reg i (record (configure cfg (region_off i) r) { init = false });
      port =
          update d.port i
            (record (d.port i) { rx_lost = 0; closed = false; recovering = false; busoff_rec = 0 });
    } in
    (if wait_init leave 1000000 0 then some i else none, d')

-- After the wait for INIT to be set: `false` is its time-out.
abbrev pub after_enter : Config → ℕ → Bool → (ℕ → Bool) → Can → Bool → Option ℕ × Can
after_enter cfg i fd_mode leave d false = (none, d)
after_enter cfg i fd_mode leave d true =
    let r = record (d.reg i) { cce = true } in
    finish cfg i leave (record d { reg = update d.reg i r }) (set_mode cfg fd_mode r)

-- Of an instance that exists, the handle's mode latched.
abbrev pub open_inst : Config → ℕ → Bool → (ℕ → Bool) → (ℕ → Bool) → Can → Option ℕ × Can
open_inst cfg i fd_mode enter leave d0 =
    let latched = record d0 { port = update d0.port i (record (d0.port i) { fd = fd_mode }) } in
    let d = zero_slice latched i in
    after_enter cfg i fd_mode leave
      (record d { reg = update d.reg i (record (d.reg i) { init = true }) })
      (wait_init enter 1000000 0)

abbrev pub open_at : Config → Bool → (ℕ → Bool) → (ℕ → Bool) → Can → Option ℕ → Option ℕ × Can
open_at cfg fd_mode enter leave d none = (none, d)
open_at cfg fd_mode enter leave d (some i) = open_inst cfg i fd_mode enter leave d

-- `blob_can_open`. `enter` and `leave` are what the core answers to the two waits for CCCR.INIT.
unfoldable pub open_can :
    Config → Option (ℕ → ℕ) → Bool → (ℕ → Bool) → (ℕ → Bool) → Can → Option ℕ × Can
open_can cfg name fd_mode enter leave d =
    open_at cfg fd_mode enter leave d (inst cfg (index_of name))

-- What holds of a core that has just been opened: a fresh session, and its two FIFOs within its
-- slice of the 2560 words.
pub record Opened (i : ℕ) (d : Can) : Type 0 where
  pub lost : (d.port i).rx_lost ≡ 0
  pub recovered : (d.port i).busoff_rec ≡ 0
  pub live : (d.port i).closed ≡ false
  pub rx_start : (d.reg i).f0sa ≡ region_off i
  pub rx_end : (d.reg i).f0sa + (d.reg i).f0s * elmt_words ≡ (d.reg i).tbsa
  pub tx_end : (d.reg i).tbsa + (d.reg i).tfqs * elmt_words ≡ region_off (suc i)
  pub fits : region_off (suc i) ≤ 2560

finish-Opened :
    (cfg : Config) (i k : ℕ) (leave : ℕ → Bool) (d : Can) (r : Option Regs)
    → i < 3
    → (finish cfg i leave d r).0 ≡ some k
    → (k ≡ i) × Opened i (finish cfg i leave d r).1
unfolding configure
finish-Opened cfg i k leave d none lt e = ground arith
finish-Opened cfg i k leave d (some r) lt e = (
  ground arith,
  record {
    lost = ground arith;
    recovered = ground arith;
    live = ground arith;
    rx_start = ground arith;
    rx_end = ground arith;
    tx_end = ground arith;
    fits = omega arith;
  },
)

after_enter-Opened :
    (cfg : Config) (i k : ℕ) (fd_mode : Bool) (leave : ℕ → Bool) (d : Can) (b : Bool)
    → i < 3
    → (after_enter cfg i fd_mode leave d b).0 ≡ some k
    → (k ≡ i) × Opened i (after_enter cfg i fd_mode leave d b).1
after_enter-Opened cfg i k fd_mode leave d false lt e = ground arith
after_enter-Opened cfg i k fd_mode leave d true lt e =
    let r = record (d.reg i) { cce = true } in
    finish-Opened cfg i k leave (record d { reg = update d.reg i r }) (set_mode cfg fd_mode r) lt e

inst_lt : (cfg : Config) (h : ℤ) (i : ℕ) → inst cfg h ≡ some i → i < 3
inst_lt cfg (pos n) i e = ground arith
inst_lt cfg (negsuc k) i e = ground arith

open_at-Opened :
    (cfg : Config) (fd_mode : Bool) (enter leave : ℕ → Bool) (d : Can) (o : Option ℕ) (k : ℕ)
    → ((i : ℕ) → o ≡ some i → i < 3)
    → (open_at cfg fd_mode enter leave d o).0 ≡ some k
    → (o ≡ some k) × Opened k (open_at cfg fd_mode enter leave d o).1
open_at-Opened cfg fd_mode enter leave d none k lt e = ground arith
open_at-Opened cfg fd_mode enter leave d (some i) k lt e =
    let latched = record d { port = update d.port i (record (d.port i) { fd = fd_mode }) } in
    let d' = zero_slice latched i in
    let (same, all) =
      after_enter-Opened cfg i k fd_mode leave
        (record d' { reg = update d'.reg i (record (d'.reg i) { init = true }) })
        (wait_init enter 1000000 0) (lt i refl) e in
    (
      ap some (sym same),
      subst (λ (n : ℕ). Opened n (open_inst cfg i fd_mode enter leave d).1) (sym same) all,
    )

-- `blob_can_open` returns only the handle of a core that the name means and the part has, and
-- leaves that core with a fresh session and its FIFOs within its slice.
pub open-Opened :
    (cfg : Config) (name : Option (ℕ → ℕ)) (fd_mode : Bool) (enter leave : ℕ → Bool) (d : Can)
    (k : ℕ)
    → (open_can cfg name fd_mode enter leave d).0 ≡ some k
    → (inst cfg (index_of name) ≡ some k) × Opened k (open_can cfg name fd_mode enter leave d).1
unfolding open_can
open-Opened cfg name fd_mode enter leave d k e =
    open_at-Opened cfg fd_mode enter leave d (inst cfg (index_of name)) k
      (inst_lt cfg (index_of name)) e

-- The data phase is programmed only if the kernel clock gives its bit rate exactly with a
-- prescaler from 1 to 32; else opening in FD mode with bit rate switching fails. Without it the
-- data phase is not looked at.
pub set_mode_exact :
    (cfg : Config) (r : Regs)
    → (cfg.nobrs ≡ true → set_mode cfg true r ≢ none)
      × ((r' : Regs)
          → cfg.nobrs ≡ false
          → set_mode cfg true r ≡ some r'
          → (r'.brse ≡ true)
            × (r'.dbtp.brp < 32)
            × ((r'.dbtp.brp + 1) * (cfg.dbitrate * cfg.dtq) ≡ cfg.kclk_hz))
unfolding set_mode mistimed
set_mode_exact cfg r =
    let whole = div-add-mod' cfg.kclk_hz (cfg.dbitrate * cfg.dtq) in
    (
      λ e. ground arith,
      λ r' e s. (
        ground arith,
        ground arith,
        ap (λ q. q * (cfg.dbitrate * cfg.dtq))
              (let one : r'.dbtp.brp + 1 ≡ dbrp cfg = ground arith in one)
            ∙ ground (arith, whole),
      ),
    )

-- The wait ends well only if one of the `n + 1` reads that it makes shows the value.
pub wait_init_sound :
    (reads : ℕ → Bool) (n t : ℕ)
    → wait_init reads n t ≡ true
    → (k : ℕ) × (t ≤ k) × (k ≤ t + n) × (reads k ≡ true)
unfolding wait_init
wait_init_sound reads zero t e = (t, omega arith, omega arith, e)
wait_init_sound reads (suc n) t e = elim (Bool-cases (reads t)) [
  | inl now ↦ (t, omega arith, omega arith, now)
  | inr later ↦
      let (k, lo, hi, at) = wait_init_sound reads n (suc t) ground arith in
      (k, omega arith, omega arith, at)
]

pub wait_init_now : (reads : ℕ → Bool) (n t : ℕ) → reads t ≡ true → wait_init reads n t ≡ true
unfolding wait_init
wait_init_now reads zero t e = e
wait_init_now reads (suc n) t e = ground arith
