-- ===== src/ArpGlean/Source.antt =====
-- driver/eth/arp_glean.h against the bytes of the header.
use blobly_emb.Prelude.{
  ℕ, ◌+◌, ◌-◌, ◌%◌, ◌^◌, ◌≤◌, ◌<◌, ◌≡◌, ◌↔◌, ◌⊎◌, inl, inr, true, false, test_bit, some, arith,
  refl, subst,
}
use blobly_emb.ArpGlean.{eth_hdr, split, source, same}

-- Six bytes
abbrev pub Bytes : (ℕ → ℕ) → ℕ → Type 0
Bytes mem m = (i : ℕ) → mem (m + i) < 2 ^ 8

-- The six bytes from `m` on are those of `mac`.
abbrev pub IsMac : (ℕ → ℕ) → ℕ → ℕ → ℕ → ℕ → ℕ → ℕ → ℕ → Type 0
IsMac mem m a b c d e f =
    (mem m ≡ a)
    × (mem (m + 1) ≡ b)
    × (mem (m + 2) ≡ c)
    × (mem (m + 3) ≡ d)
    × (mem (m + 4) ≡ e)
    × (mem (m + 5) ≡ f)

split-same :
    (p q : ℕ → ℕ) (m n : ℕ)
    → ((i : ℕ) → p i < 2 ^ 8)
    → ((i : ℕ) → q i < 2 ^ 8)
    → same (split p m) (split q n) ≡ true
    → IsMac p m (q n) (q (n + 1)) (q (n + 2)) (q (n + 3)) (q (n + 4)) (q (n + 5))
unfolding split
split-same p q m n hp hq e =
    let p0 = hp m in
    let p1 = hp (m + 1) in
    let p2 = hp (m + 2) in
    let p3 = hp (m + 3) in
    let p4 = hp (m + 4) in
    let p5 = hp (m + 5) in
    let q0 = hq n in
    let q1 = hq (n + 1) in
    let q2 = hq (n + 2) in
    let q3 = hq (n + 3) in
    let q4 = hq (n + 4) in
    let q5 = hq (n + 5) in
    (ground arith, ground arith, ground arith, ground arith, ground arith, ground arith)

-- Two MAC addresses have the same split exactly if their six bytes are the same.
pub split_injective :
    (p q : ℕ → ℕ) (m n : ℕ)
    → ((i : ℕ) → p i < 2 ^ 8)
    → ((i : ℕ) → q i < 2 ^ 8)
    → (split p m ≡ split q n)
      ↔ IsMac p m (q n) (q (n + 1)) (q (n + 2)) (q (n + 3)) (q (n + 4)) (q (n + 5))
unfolding split
split_injective p q m n hp hq =
    (λ e. split-same p q m n hp hq ground arith, λ (e0, e1, e2, e3, e4, e5). ground arith)

broadcast-split : (0xFFFF, 0xFFFFFFFF) ≡ split (λ i. 255) 0
unfolding split
broadcast-split = refl

even_first :
    (mem : ℕ → ℕ) (m : ℕ) → mem (m + 1) < 2 ^ 8 → test_bit (split mem m).0 8 ≡ false → mem m % 2 ≡ 0
unfolding split
even_first mem m small e = ground arith

-- What is returned is the split of the source in a header of 14 bytes inside the buffer, of an
-- IPv4 frame to this station's MAC (`own`, its six bytes) or to broadcast; the source is no
-- multicast address (its first byte is even) and not all zero.
pub source_sound :
    (mem : ℕ → ℕ) (buf_start ip_hdr : ℕ) (own : ℕ → ℕ) (r : ℕ × ℕ)
    → ((i : ℕ) → mem i < 2 ^ 8)
    → ((i : ℕ) → own i < 2 ^ 8)
    → source mem buf_start ip_hdr (split own 0) ≡ some r
    → let h = ip_hdr - eth_hdr in
      (buf_start + eth_hdr ≤ ip_hdr)
      × (mem (h + 12) ≡ 0x08)
      × (mem (h + 13) ≡ 0x00)
      × ((IsMac mem h (own 0) (own 1) (own 2) (own 3) (own 4) (own 5))
          ⊎ (IsMac mem h 255 255 255 255 255 255))
      × (mem (h + 6) % 2 ≡ 0)
      × (r ≡ split mem (h + 6))
      × (0 < r.0 + r.1)
unfolding source
source_sound mem buf_start ip_hdr own r hm ho e =
    let h = ip_hdr - eth_hdr in
    let to : (same (split mem h) (split own 0) ≡ true)
        ⊎ (same (split mem h) (0xFFFF, 0xFFFFFFFF) ≡ true) =
      ground arith in
    (
      ground arith,
      ground arith,
      ground arith,
      elim to [
        | inl mine ↦ inl (split-same mem own h 0 hm ho mine)
        | inr all ↦ inr (
            split-same mem (λ i. 255) h 0 hm (λ i. omega arith)
              (subst (λ (x : ℕ × ℕ). same (split mem h) x ≡ true) broadcast-split all))
      ],
      even_first mem (h + 6) (hm (h + 6 + 1)) ground arith,
      ground arith,
      ground arith,
    )
