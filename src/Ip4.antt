-- ===== src/Ip4.antt =====
-- driver/eth/ip4.h: the parser of the address of a static endpoint. The network stack's IP_ADDRESS
-- is an argument.
mod Quad
mod Tests
use blobly_emb.Prelude.{
  ℕ, zero, suc, ◌+◌, ◌*◌, ◌-◌, Bool, true, false, not, ◌&&◌, ◌||◌, if◌then◌else◌, ltb, leb, ◌==◌,
  Option, none, some, update, List, [], ◌∷◌,
}

-- The variables of the loop: `i`, `oct` and `digits`
pub record Scan : Type 0 where
  pub i : ℕ
  pub oct : ℕ → ℕ
  pub digits : ℕ → ℕ

abbrev pub start : Scan
start = record { i = 0; oct = λ k. 0; digits = λ k. 0 }

-- One digit `d` of the octet at hand
abbrev pub put_digit : Scan → ℕ → Scan
put_digit s d = record s {
  oct = update s.oct s.i (s.oct s.i * 10 + d);
  digits = update s.digits s.i (s.digits s.i + 1);
}

-- One round of the loop; `none` is `return 0`.
unfoldable pub scan_char : Scan → ℕ → Option Scan
scan_char s c =
    if c == b'.'
    then if ltb 3 (s.i + 1) then none else some (record s { i = s.i + 1 })
    else if leb b'0' c && leb c b'9'
    then if ltb 255 (s.oct s.i * 10 + (c - b'0')) then none else some (put_digit s (c - b'0'))
    else none

-- The loop over the string's characters
abbrev pub scan_all : Option Scan → List ℕ → Option Scan
scan_all none cs = none
scan_all (some s) [] = some s
scan_all (some s) (c ∷ cs) = scan_all (scan_char s c) cs

abbrev pub address : (ℕ → ℕ → ℕ → ℕ → ℕ) → Option Scan → ℕ
address ip_address none = 0
address ip_address (some s) =
    if not (s.i == 3) || s.digits 0 == 0 || s.digits 1 == 0 || s.digits 2 == 0 || s.digits 3 == 0
    then 0
    else ip_address (s.oct 0) (s.oct 1) (s.oct 2) (s.oct 3)

abbrev pub parse_ip4 : (ℕ → ℕ → ℕ → ℕ → ℕ) → List ℕ → ℕ
parse_ip4 ip_address cs = address ip_address (scan_all (some start) cs)
