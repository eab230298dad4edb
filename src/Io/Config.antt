-- ===== src/Io/Config.antt =====
-- driver/io/io_stm32.c: the table of points and `blob_io_cfg`.
use blobly_emb.Prelude.{
  ℕ, suc, ℤ, pos, negsuc, Status, ok, fail, Bool, true, not, ◌||◌, if◌then◌else◌, ltb, leb, ◌==◌,
  Option, none, some, update,
}
use blobly_emb.Io.Pins.{pin_parse, adc_channel_of}

-- BLOB_IO_MAX, IO_ADC, IO_PWM
abbrev pub io_max : ℕ
io_max = 32

abbrev pub io_adc : ℕ
io_adc = 1

abbrev pub io_pwm : ℕ
io_pwm = 2

-- An entry of `g_pt`; `adc_slot` is -1 as `none`, `init` and `al` are 0 or 1 for a digital point.
pub record Point : Type 0 where
  pub port : ℕ
  pub pin : ℕ
  pub dir : Bool
  pub kind : ℕ
  pub init : ℕ
  pub al : ℕ
  pub adc_slot : Option ℕ
  pub adc_ch : ℕ
  pub freq_hz : ℕ
  pub configured : Bool

-- `g_pt` and `g_adc_n`
pub record Table : Type 0 where
  pub pt : ℕ → Point
  pub adc_n : ℕ

-- The board's two tables
pub record Board : Type 0 where
  pub pin_exists : ℕ → ℕ → Bool
  pub pin_reserved : ℕ → ℕ → Bool

-- `a ^ b` of two bits
abbrev pub flip : ℕ → ℕ → ℕ
flip a b = if a == b then 0 else 1

abbrev pub with_point : Table → ℕ → Point → Table
with_point t ch p = record t { pt = update t.pt ch p }

-- An analog point, with the channel of its pad
abbrev pub cfg_adc : Table → ℕ → Point → Option ℕ → Status × Table
cfg_adc t ch p none = (fail, with_point t ch p)
cfg_adc t ch p (some c) = (
  ok,
  record {
    pt =
        update t.pt ch
          (record p { adc_ch = c; adc_slot = some t.adc_n; init = 0; configured = true });
    adc_n = suc t.adc_n;
  },
)

abbrev pub cfg_kind : Table → ℕ → Point → ℕ → ℕ → ℕ → Status × Table
cfg_kind t ch p init_val kind param =
    if kind == io_adc
    then cfg_adc t ch p (adc_channel_of p.port p.pin)
    else if kind == io_pwm
    then if param == 0 then (fail, with_point t ch p) else (
      ok,
      with_point t ch
          (record p { init = (if ltb 1000 init_val then 1000 else init_val); configured = true }),
    )
    else (
      ok,
      with_point t ch
          (record p { init = flip (if init_val == 0 then 0 else 1) p.al; configured = true }),
    )

-- With the pad that the name means: the pad is stored before the board is asked.
abbrev pub cfg_pad : Board → Table → ℕ → Bool → ℕ → Bool → ℕ → ℕ → Option (ℕ × ℕ) → Status × Table
cfg_pad board t ch dir init_val active_low kind param none = (fail, t)
cfg_pad board t ch dir init_val active_low kind param (some (port, pin)) =
    let p = record (t.pt ch) { port = port; pin = pin } in
    if not (board.pin_exists port pin) || board.pin_reserved port pin
    then (fail, with_point t ch p)
    else cfg_kind t ch
        (record p {
          dir = dir;
          kind = kind;
          al = (if active_low then 1 else 0);
          adc_slot = none;
          freq_hz = param;
        })
        init_val kind param

-- `blob_io_cfg` with a name and a pin that are not null
unfoldable pub io_cfg : Board → Table → ℤ → (ℕ → ℕ) → Bool → ℕ → Bool → ℕ → ℕ → Status × Table
io_cfg board t (negsuc k) s dir init_val active_low kind param = (fail, t)
io_cfg board t (pos ch) s dir init_val active_low kind param =
    if leb io_max ch
    then (fail, t)
    else cfg_pad board t ch dir init_val active_low kind param (pin_parse s)
