-- ===== src/Xcore.antt =====
-- boards/h755zi/xcore.h, xcore_owner.c and xcore_sat.c: the signals that the owner core hands down, behind the
-- gate of layout and boot, and the load that a satellite core reports. Child modules: Boots has the steps of the two sides,
-- Gate the invariant, Steps and Satellite its proof, Reads the result, Xor the acknowledgements, Load
-- the slots.
mod Xor
mod Boots
mod Gate
mod Steps
mod Satellite
mod Reads
mod Load
mod Tests
use blobly_emb.Prelude.{
  ℕ, zero, suc, ◌+◌, ◌-◌, ◌*◌, ◌/◌, ◌%◌, ◌^◌, Bool, true, false, not, ◌&&◌, ◌||◌, if◌then◌else◌,
  ltb, ◌==◌, update, add32, ℤ, pos, negsuc,
}
use blobly_emb.Xioc.{XiocN, init_n, write_n, read_n}

-- `a ^ b` of the lowest `k` bits
unfoldable pub xor : ℕ → ℕ → ℕ → ℕ
xor zero a b = 0
xor (suc k) a b = (if a % 2 == b % 2 then 0 else 1) + 2 * xor k (a / 2) (b / 2)

-- `x | 1`
abbrev pub odd : ℕ → ℕ
odd x = x / 2 * 2 + 1

-- `xcore_ow_ack`, and its use on a nonce and a layout
unfoldable pub ow_ack : ℕ → ℕ
ow_ack v = if not (v == 0) then v else 0x4C594F31

abbrev pub ack_of : ℕ → ℕ → ℕ
ack_of layout nonce = ow_ack (xor 32 nonce layout)

-- The owner-payload-write_n window, of one channel
pub record Window : Type 0 where
  pub ack : ℕ
  pub nonce : ℕ
  pub chan : XiocN

-- `xcore_owner_begin`, in its two stores: the gate is retracted, then a nonce is taken.
abbrev pub retract : Window → Window
retract w = record w { ack = 0 }

abbrev pub next_nonce : ℕ → ℕ
next_nonce nonce = odd (add32 nonce 2)

abbrev pub renew : Window → Window
renew w = record w { nonce = next_nonce w.nonce }

-- The sequence seed of an owner boot
abbrev pub seed_of : ℕ → ℕ
seed_of nonce = odd (nonce * 2654435761 % 2 ^ 32)

-- `xcore_ow_init`, `xcore_owner_commit` and `xcore_opub_n`
abbrev pub ow_init : Window → ℕ → Window
ow_init w words = record w { chan = init_n w.chan words (seed_of w.nonce) }

abbrev pub owner_commit : ℕ → Window → Window
owner_commit layout w = record w { ack = ack_of layout w.nonce }

abbrev pub opub_n : Window → (ℕ → ℕ) → Window
opub_n w src = record w { chan = write_n w.chan src }

-- The reader's state `st`: the nonce, the read sequence and the lanes
pub record Reader : Type 0 where
  pub under : ℕ
  pub seq : ℕ
  pub lanes : ℕ → ℕ

-- `down_reset` under a nonce
abbrev pub down_reset : ℕ → ℕ → Reader → Reader
down_reset nonce words st = record {
  under = nonce;
  seq = 0;
  lanes = λ i. if ltb i words then 0 else st.lanes i;
}

-- `xcore_down_read` by its accesses: the gate of the two values loaded, the state under this nonce, the read,
-- and the gate again
abbrev pub gate_open : ℕ → ℕ → ℕ → Bool
gate_open layout ack nonce = not (ack == 0) && ack == ack_of layout nonce

abbrev pub under_nonce : ℕ → ℕ → Reader → Reader
under_nonce nonce words st = if not (st.under == nonce) then down_reset nonce words st else st

abbrev pub read_into : XiocN → ℕ → Reader → Reader
read_into c words st =
    let r = read_n c st.seq st.lanes words in record st { seq = r.1; lanes = r.2 }

abbrev pub gate_again : ℕ → ℕ → ℕ → ℕ → ℕ → Reader → Bool × Reader
gate_again ack nonce ack' nonce' words st =
    if not (ack' == ack) || not (nonce' == nonce)
    then (false, down_reset 0 words st)
    else (not (st.seq == 0), st)

-- The busy slots: the share in the low half, the publish count in the high half. The count is of the
-- satellite, the others of the owner.
pub record Busy : Type 0 where
  pub slot : ℕ → ℕ
  pub published : ℕ
  pub seen : ℕ → ℕ
  pub live : ℕ → Bool

-- What `xcore_owner_begin` does to the slots
abbrev pub busy_begin : Busy → Busy
busy_begin b = record b {
  slot = λ c. if ltb c 8 then 0xFFFF else b.slot c;
  live = λ c. if ltb c 8 then false else b.live c;
}

-- The next count of `xcore_busy_pub`, not 0 in its low half
abbrev pub next_count : ℕ → ℕ
next_count n = if add32 n 1 % 2 ^ 16 == 0 then add32 (add32 n 1) 1 else add32 n 1

abbrev pub low_half : ℤ → ℕ
low_half (pos pm) = pm % 2 ^ 16
low_half (negsuc pm) = 0xFFFF

-- `xcore_busy_pub`, of the core's own index
abbrev pub busy_pub : Busy → ℕ → ℤ → Busy
busy_pub b core pm =
    if ltb core 8
    then record b {
      published = next_count b.published;
      slot = update b.slot core (low_half pm + next_count b.published % 2 ^ 16 * 2 ^ 16);
    }
    else b

-- `xcore_busy_watch`
abbrev pub busy_watch : Busy → Busy
busy_watch b = record b {
  live = λ c.
      if ltb c 8
      then not (b.slot c / 2 ^ 16 == 0) && not (b.slot c / 2 ^ 16 == b.seen c)
      else b.live c;
  seen = λ c. if ltb c 8 then b.slot c / 2 ^ 16 else b.seen c;
}

-- `xcore_busy_get`
abbrev pub busy_get : Busy → ℤ → ℤ
busy_get b (negsuc core) = negsuc 0
busy_get b (pos core) =
    if not (ltb core 8) || not (b.live core)
    then negsuc 0
    else if b.slot core % 2 ^ 16 == 0xFFFF
    then negsuc 0
    else pos (b.slot core % 2 ^ 16)

-- `xcore_clk_release`, `xcore_clk_retract`, and a round of `xcore_clk_take`: whether it takes the release,
-- and the cell
abbrev pub clk_magic : ℕ
clk_magic = 0x434C4B52

abbrev pub clk_release : ℕ → ℕ
clk_release cell = clk_magic

abbrev pub clk_retract : ℕ → ℕ
clk_retract cell = 0

abbrev pub clk_take : ℕ → Bool × ℕ
clk_take cell = if cell == clk_magic then (true, 0) else (false, cell)
