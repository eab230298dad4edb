-- ===== src/Io/Pins.antt =====
-- driver/io/io_stm32.c: pad names and the ADC channels of pads.
use blobly_emb.Prelude.{
  ℕ, ◌+◌, ◌*◌, ◌-◌, ◌≤◌, ◌<◌, ◌≡◌, ◌↔◌, ◌⊎◌, Bool, not, ◌&&◌, ◌||◌, if◌then◌else◌, ltb, leb, ◌==◌,
  Option, none, some, arith,
}

abbrev pub digit : ℕ → Bool
digit c = leb b'0' c && leb c b'9'

-- The number behind the port letter and the index behind it; `none` is the leading zero.
abbrev pub pin_number : (ℕ → ℕ) → Option (ℕ × ℕ)
pin_number s =
    let n = s 2 - b'0' in
    if digit (s 3) then if n == 0 then none else some (n * 10 + (s 3 - b'0'), 4) else some (n, 3)

abbrev pub pin_end : (ℕ → ℕ) → Option (ℕ × ℕ) → Option (ℕ × ℕ)
pin_end s none = none
pin_end s (some (n, i)) = if not (s i == 0) || ltb 15 n then none else some (s 1 - b'A', n)

-- `pin_parse` of a string that ends in 0: the port and the pin; `none` is -1.
unfoldable pub pin_parse : (ℕ → ℕ) → Option (ℕ × ℕ)
pin_parse s =
    if not (s 0 == b'P')
    then none
    else if ltb (s 1) b'A' || ltb b'K' (s 1)
    then none
    else if ltb (s 2) b'0' || ltb b'9' (s 2)
    then none
    else pin_end s (pin_number s)

-- The one spelling of a pad: "P", the letter of the port, the pin in decimal.
abbrev pub Spells : (ℕ → ℕ) → ℕ → ℕ → Type 0
Spells s port pin =
    (port ≤ 10)
    × (pin ≤ 15)
    × (s 0 ≡ b'P')
    × (s 1 ≡ b'A' + port)
    × (((pin < 10) × (s 2 ≡ b'0' + pin) × (s 3 ≡ 0))
        ⊎ ((10 ≤ pin) × (s 2 ≡ b'1') × (s 3 ≡ b'0' + (pin - 10)) × (s 4 ≡ 0)))

-- A string is the name of a pad exactly if it is that pad's one spelling, "PA0" to "PK15": every
-- pad has a name, and no pad has two.
pub pin_parse_iff :
    (s : ℕ → ℕ) (port pin : ℕ) → (pin_parse s ≡ some (port, pin)) ↔ Spells s port pin
unfolding pin_parse
pin_parse_iff s port pin = (
  λ e. (ground arith, ground arith, ground arith, ground arith, ground arith),
  λ (hp, hn, h0, h1, h). ground arith,
)

-- `adc_channel_of`; `none` is -1.
unfoldable pub adc_channel_of : ℕ → ℕ → Option ℕ
adc_channel_of port pin =
    if port == 0
    then if pin == 0
      then some 16
      else if pin == 1
      then some 17
      else if pin == 2
      then some 14
      else if pin == 3
      then some 15
      else if pin == 4
      then some 18
      else if pin == 5
      then some 19
      else if pin == 6
      then some 3
      else if pin == 7
      then some 7
      else none
    else if port == 1
    then if pin == 0 then some 9 else if pin == 1 then some 5 else none
    else if port == 2
    then if pin == 0
      then some 10
      else if pin == 1
      then some 11
      else if pin == 2
      then some 12
      else if pin == 3
      then some 13
      else if pin == 4
      then some 4
      else if pin == 5
      then some 8
      else none
    else none

-- The pad of a channel
port_of : ℕ → ℕ
port_of c =
    if c == 9 || c == 5
    then 1
    else if c == 10 || c == 11 || c == 12 || c == 13 || c == 4 || c == 8
    then 2
    else 0

pin_of : ℕ → ℕ
pin_of c =
    if c == 17 || c == 5 || c == 11
    then 1
    else if c == 14 || c == 12
    then 2
    else if c == 15 || c == 13
    then 3
    else if c == 18 || c == 4
    then 4
    else if c == 19 || c == 8
    then 5
    else if c == 3
    then 6
    else if c == 7
    then 7
    else 0

channel-pad :
    (port pin c : ℕ)
    → adc_channel_of port pin ≡ some c
    → (port ≡ port_of c) × (pin ≡ pin_of c) × (c < 20)
unfolding adc_channel_of port_of pin_of
channel-pad port pin c e = (ground arith, ground arith, ground arith)

-- Two pads have the same channel only if they are the same pad.
pub adc_channel_of_injective :
    (port pin port' pin' c : ℕ)
    → adc_channel_of port pin ≡ some c
    → adc_channel_of port' pin' ≡ some c
    → (port ≡ port') × (pin ≡ pin') × (c < 20)
adc_channel_of_injective port pin port' pin' c e f =
    let (a, b, lt) = channel-pad port pin c e in
    let (a', b', _) = channel-pad port' pin' c f in (omega arith, omega arith, lt)
