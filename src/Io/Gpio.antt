-- ===== src/Io/Gpio.antt =====
-- driver/io/io_stm32.c: the digital pads.
use blobly_emb.Prelude.{
  ℕ, ℤ, pos, negsuc, Bool, not, ◌||◌, if◌then◌else◌, leb, ◌==◌, Option, none, some, bit_or, List,
  [], ◌∷◌,
}
use blobly_emb.Io.Config.{Point, Table, io_max, io_adc, io_pwm, flip}

-- The fields of one pad in MODER, OSPEEDR, PUPDR and ODR.
pub record Pad : Type 0 where
  pub moder : ℕ
  pub ospeedr : ℕ
  pub pupdr : ℕ
  pub odr : ℕ

-- The register writes of `blob_io_init` for a pad; `bsrr` sets or resets the output level.
pub data Write : Type 0 where
  moder ospeedr pupdr bsrr ospeedr_or : (v : ℕ) → Write

unfoldable pub apply : Pad → Write → Pad
apply p (moder v) = record p { moder = v }
apply p (ospeedr v) = record p { ospeedr = v }
apply p (ospeedr_or v) = record p { ospeedr = bit_or p.ospeedr v }
apply p (pupdr v) = record p { pupdr = v }
apply p (bsrr v) = record p { odr = v }

abbrev pub apply_all : Pad → List Write → Pad
apply_all p [] = p
apply_all p (w ∷ ws) = apply_all (apply p w) ws

-- The first loop of `blob_io_init` at a configured point, in the order of the writes.
unfoldable pub init_writes : Point → List Write
init_writes p =
    if p.kind == io_adc
    then moder 3 ∷ pupdr 0 ∷ []
    else if p.kind == io_pwm
    then ospeedr_or 2 ∷ pupdr 0 ∷ []
    else if p.dir
    then bsrr (if p.init == 0 then 0 else 1) ∷ moder 1 ∷ ospeedr 0 ∷ pupdr 0 ∷ []
    else moder 0 ∷ pupdr 0 ∷ []

-- `blob_io_gpio_read` where the pad's bit of IDR is `level`
unfoldable pub gpio_read : Table → ℤ → (ℕ → ℕ → ℕ) → ℕ
gpio_read t (negsuc k) idr = 0
gpio_read t (pos ch) idr =
    let p = t.pt ch in if leb io_max ch || not p.configured then 0 else flip (idr p.port p.pin) p.al

-- `blob_io_gpio_write`: the pad and the level that BSRR gives it
unfoldable pub gpio_write : Table → ℤ → Bool → Option ((ℕ × ℕ) × ℕ)
gpio_write t (negsuc k) level = none
gpio_write t (pos ch) level =
    let p = t.pt ch in
    if leb io_max ch || not p.configured
    then none
    else some ((p.port, p.pin), flip (if level then 1 else 0) p.al)
