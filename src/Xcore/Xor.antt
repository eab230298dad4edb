-- ===== src/Xcore/Xor.antt =====
-- The acknowledgements of different nonces differ.
use blobly_emb.Prelude.{
  ℕ, zero, suc, ◌+◌, ◌*◌, ◌/◌, ◌%◌, ◌^◌, ◌<◌, ◌≡◌, ◌≢◌, if◌then◌else◌, ◌==◌, arith, sym, ◌∙◌,
}
use blobly_emb.Xcore.{xor, ow_ack, ack_of}

abbrev pow : ℕ → ℕ
pow zero = 1
pow (suc k) = 2 * pow k

abbrev bit : ℕ → ℕ → ℕ
bit a c = if a % 2 == c % 2 then 0 else 1

bit_inj : (a b c x y : ℕ) → bit a c + 2 * x ≡ bit b c + 2 * y → (a % 2 ≡ b % 2) × (x ≡ y)
bit_inj a b c x y e = ground arith

xor_inj : (k a b c : ℕ) → a < pow k → b < pow k → xor k a c ≡ xor k b c → a ≡ b
unfolding xor
xor_inj zero a b c p q e = omega arith
xor_inj (suc k) a b c p q e =
    let (low, high) = bit_inj a b c (xor k (a / 2) (c / 2)) (xor k (b / 2) (c / 2)) e in
    let half : a / 2 ≡ b / 2 = xor_inj k (a / 2) (b / 2) (c / 2) (omega arith) (omega arith) high in
    omega arith

parity_of : (a c x : ℕ) → (bit a c + 2 * x) % 2 ≡ bit a c
parity_of a c x = ground arith

xor_parity : (k a c : ℕ) → xor (suc k) a c % 2 ≡ bit a c
unfolding xor
xor_parity k a c = parity_of a c (xor k (a / 2) (c / 2))

-- 0 and its acknowledgement are no exclusive ors of two odd numbers.
ow_ack_inj : (x y : ℕ) → x % 2 ≡ y % 2 → ow_ack x ≡ ow_ack y → x ≡ y
unfolding ow_ack
ow_ack_inj x y e f = ground arith

bit_odd : (n m c : ℕ) → n % 2 ≡ 1 → m % 2 ≡ 1 → bit n c ≡ bit m c
bit_odd n m c o r = ground arith

-- Odd nonces whose acknowledgements are equal are equal: where one exclusive or is 0, whose
-- acknowledgement is another word, the parities differ.
pub ack_of_inj :
    (layout n m : ℕ)
    → n < 2 ^ 32
    → m < 2 ^ 32
    → n % 2 ≡ 1
    → m % 2 ≡ 1
    → ack_of layout n ≡ ack_of layout m
    → n ≡ m
ack_of_inj layout n m p q o r e = xor_inj 32 n m layout p q (
    ow_ack_inj (xor 32 n layout) (xor 32 m layout)
      (xor_parity 31 n layout ∙ bit_odd n m layout o r ∙ sym (xor_parity 31 m layout)) e)

pub ack-pos : (layout n : ℕ) → ack_of layout n ≢ 0
unfolding ow_ack
ack-pos layout n = ground arith
