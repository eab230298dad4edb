-- ===== src/ArpGlean.antt =====
-- driver/eth/arp_glean.h: the Ethernet source of a received frame, read back in front of its IP
-- header.
pub mod Source
mod Tests
use blobly_emb.Prelude.{
  ℕ, ◌+◌, ◌*◌, ◌-◌, ◌^◌, Bool, not, ◌&&◌, ◌||◌, if◌then◌else◌, ltb, ◌==◌, test_bit, Option, none,
  some,
}

-- ARP_GLEAN_ETH_HDR
abbrev pub eth_hdr : ℕ
eth_hdr = 14

-- `arp_glean_split` of the six bytes from `m` on: the first two, and the last four
unfoldable pub split : (ℕ → ℕ) → ℕ → ℕ × ℕ
split mem m = (
  mem m * 2 ^ 8 + mem (m + 1),
  mem (m + 2) * 2 ^ 24 + mem (m + 3) * 2 ^ 16 + mem (m + 4) * 2 ^ 8 + mem (m + 5),
)

-- The comparison of two addresses
abbrev pub same : ℕ × ℕ → ℕ × ℕ → Bool
same a b = a.0 == b.0 && a.1 == b.1

-- `arp_glean_source` over the memory `mem`, with pointers as addresses; `none` is 0.
unfoldable pub source : (ℕ → ℕ) → ℕ → ℕ → ℕ × ℕ → Option (ℕ × ℕ)
source mem buf_start ip_hdr self =
    let h = ip_hdr - eth_hdr in
    let d = split mem h in
    let s = split mem (h + 6) in
    if buf_start == 0 || ip_hdr == 0 || ltb ip_hdr buf_start || ltb (ip_hdr - buf_start) eth_hdr
    then none
    else if not (mem (h + 12) == 0x08) || not (mem (h + 13) == 0x00)
    then none
    else if not (same d self) && not (same d (0xFFFF, 0xFFFFFFFF))
    then none
    else if test_bit s.0 8 || s.0 == 0 && s.1 == 0
    then none
    else some s
