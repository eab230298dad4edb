-- ===== src/Ip4/Quad.antt =====
-- driver/eth/ip4.h: a dotted quad is read as the address it names.
use blobly_emb.Prelude.{
  ℕ, ◌+◌, ◌*◌, ◌-◌, ◌/◌, ◌%◌, ◌≡◌, ◌≢◌, ◌≤◌, if◌then◌else◌, ltb, some, List, [], ◌∷◌, arith, refl,
  sym, ap, ap₂, subst, ◌∙◌, dec_lt,
}
use blobly_emb.Ip4.{Scan, start, put_digit, scan_char, scan_all, address, parse_ip4}

-- A number of at most three digits in decimal, in front of `rest`
abbrev pub decimal : ℕ → List ℕ → List ℕ
decimal n rest =
    if ltb n 10
    then (b'0' + n) ∷ rest
    else if ltb n 100
    then (b'0' + n / 10) ∷ (b'0' + n % 10) ∷ rest
    else (b'0' + n / 100) ∷ (b'0' + n / 10 % 10) ∷ (b'0' + n % 10) ∷ rest

abbrev pub quad : ℕ → ℕ → ℕ → ℕ → List ℕ
quad a b c d = decimal a (b'.' ∷ decimal b (b'.' ∷ decimal c (b'.' ∷ decimal d [])))

scan_char-digit :
    (s : Scan) (d : ℕ)
    → d ≤ 9
    → s.oct s.i * 10 + d ≤ 255
    → scan_char s (b'0' + d) ≡ some (put_digit s d)
unfolding scan_char
scan_char-digit s d le fits =
    let back : b'0' + d - b'0' ≡ d = omega arith in
    let passes : scan_char s (b'0' + d) ≡ some (put_digit s (b'0' + d - b'0')) = ground arith in
    passes ∙ ap (λ x. some (put_digit s x)) back

-- The octet at hand was read as `n`, and the others are as they were.
abbrev IsRead : Scan → Scan → ℕ → Type 0
IsRead s t n =
    (t.i ≡ s.i)
    × (t.oct s.i ≡ n)
    × (t.digits s.i ≢ 0)
    × ((j : ℕ) → s.i ≢ j → (t.oct j ≡ s.oct j) × (t.digits j ≡ s.digits j))

put_digit-IsRead : (s : Scan) (d n : ℕ) → s.oct s.i * 10 + d ≡ n → IsRead s (put_digit s d) n
put_digit-IsRead s d n e = (refl, ground arith, ground arith, λ j ne. (ground arith, ground arith))

IsRead-put_digit :
    (s t : Scan) (m d n : ℕ) → IsRead s t m → m * 10 + d ≡ n → IsRead s (put_digit t d) n
IsRead-put_digit s t m d n (same_i, value, some_digits, others) e =
    let oct_at = ap t.oct same_i in
    let digits_at = ap t.digits same_i in
    (
      same_i,
      ground (arith, oct_at),
      ground (arith, digits_at),
      λ j ne. let (o, g) = others j ne in (ground arith, ground arith),
    )

-- One more digit read
more :
    (s t : Scan) (m d n : ℕ) (rest : List ℕ)
    → IsRead s t m
    → d ≤ 9
    → m * 10 + d ≡ n
    → n ≤ 255
    → scan_all (some t) ((b'0' + d) ∷ rest) ≡ scan_all (some (put_digit t d)) rest
more s t m d n rest (same_i, value, some_digits, others) le e fits =
    let oct_at = ap t.oct same_i in
    ap (λ o. scan_all o rest) (scan_char-digit t d le (omega (arith, oct_at)))

-- The digits of an octet are read as its value, in front of whatever follows.
octet :
    (s : Scan) (n : ℕ) (rest : List ℕ)
    → n ≤ 255
    → s.oct s.i ≡ 0
    → (t : Scan) × (scan_all (some s) (decimal n rest) ≡ scan_all (some t) rest) × IsRead s t n
octet s n rest le zeroed = elim (dec_lt n 10) [
  | yes one ↦
      let spelt : decimal n rest ≡ (b'0' + n) ∷ rest = ground arith in
      (
        put_digit s n,
        ap (scan_all (some s)) spelt
            ∙ ap (λ o. scan_all o rest) (scan_char-digit s n (omega arith) (omega arith)),
        put_digit-IsRead s n n (omega arith),
      )
  | no more_than_one ↦ elim (dec_lt n 100) [
    | yes two ↦
        let spelt : decimal n rest ≡ (b'0' + n / 10) ∷ (b'0' + n % 10) ∷ rest = ground arith in
        let first = put_digit-IsRead s (n / 10) (n / 10) (omega arith) in
        (
          put_digit (put_digit s (n / 10)) (n % 10),
          ap (scan_all (some s)) spelt
              ∙ ap (λ o. scan_all o ((b'0' + n % 10) ∷ rest))
                  (scan_char-digit s (n / 10) (omega arith) (omega arith))
              ∙ more s (put_digit s (n / 10)) (n / 10) (n % 10) n rest first (omega arith)
                  (omega arith) le,
          IsRead-put_digit s (put_digit s (n / 10)) (n / 10) (n % 10) n first (omega arith),
        )
    | no three ↦
        let spelt : decimal n rest
            ≡ (b'0' + n / 100) ∷ (b'0' + n / 10 % 10) ∷ (b'0' + n % 10) ∷ rest =
          ground arith in
        let s1 = put_digit s (n / 100) in
        let s2 = put_digit s1 (n / 10 % 10) in
        let first = put_digit-IsRead s (n / 100) (n / 100) (omega arith) in
        let second = IsRead-put_digit s s1 (n / 100) (n / 10 % 10) (n / 10) first (omega arith) in
        (
          put_digit s2 (n % 10),
          ap (scan_all (some s)) spelt
              ∙ ap (λ o. scan_all o ((b'0' + n / 10 % 10) ∷ (b'0' + n % 10) ∷ rest))
                  (scan_char-digit s (n / 100) (omega arith) (omega arith))
              ∙ more s s1 (n / 100) (n / 10 % 10) (n / 10) ((b'0' + n % 10) ∷ rest) first
                  (omega arith) (omega arith) (omega arith)
              ∙ more s s2 (n / 10) (n % 10) n rest second (omega arith) (omega arith) le,
          IsRead-put_digit s s2 (n / 10) (n % 10) n second (omega arith),
        )
  ]
]

-- The point behind one of the first three octets
abbrev pass_point : Scan → Scan
pass_point s = record s { i = s.i + 1 }

point :
    (s : Scan) (rest : List ℕ)
    → s.i ≤ 2
    → scan_all (some s) (b'.' ∷ rest) ≡ scan_all (some (pass_point s)) rest
point s rest le =
    let passed : scan_char s b'.' ≡ some (pass_point s) = unfold scan_char in ground arith in
    ap (λ o. scan_all o rest) passed

-- The octet `k`, which was read as `n`
abbrev IsReadAt : Scan → Scan → ℕ → ℕ → Type 0
IsReadAt s t k n =
    (t.i ≡ k)
    × (t.oct k ≡ n)
    × (t.digits k ≢ 0)
    × ((j : ℕ) → k ≢ j → (t.oct j ≡ s.oct j) × (t.digits j ≡ s.digits j))

octet_at :
    (s : Scan) (k n : ℕ) (rest : List ℕ)
    → s.i ≡ k
    → n ≤ 255
    → s.oct k ≡ 0
    → (t : Scan) × (scan_all (some s) (decimal n rest) ≡ scan_all (some t) rest) × IsReadAt s t k n
octet_at s k n rest at le zeroed =
    subst
      (λ m.
        s.oct m ≡ 0
        → (t : Scan) × (scan_all (some s) (decimal n rest) ≡ scan_all (some t) rest)
          × IsReadAt s t m n)
      at (octet s n rest le) zeroed

-- At the end of the string with every octet written
address_complete :
    (ip_address : ℕ → ℕ → ℕ → ℕ → ℕ) (t : Scan)
    → t.i ≡ 3
    → t.digits 0 ≢ 0
    → t.digits 1 ≢ 0
    → t.digits 2 ≢ 0
    → t.digits 3 ≢ 0
    → address ip_address (some t) ≡ ip_address (t.oct 0) (t.oct 1) (t.oct 2) (t.oct 3)
address_complete ip_address t last g0 g1 g2 g3 = ground arith

-- The four octets, each read behind the point after the one before
address_read :
    (ip_address : ℕ → ℕ → ℕ → ℕ → ℕ) (t1 t2 t3 t4 : Scan) (a b c d : ℕ)
    → IsReadAt start t1 0 a
    → IsReadAt (pass_point t1) t2 1 b
    → IsReadAt (pass_point t2) t3 2 c
    → IsReadAt (pass_point t3) t4 3 d
    → address ip_address (some t4) ≡ ip_address a b c d
address_read ip_address t1 t2 t3 t4 a b c d (i1, a1, g1, o1) (i2, b2, g2, o2) (i3, c3, g3, o3)
      (i4, d4, g4, o4) =
    let digits_0 = (o4 0 (omega arith)).1 ∙ (o3 0 (omega arith)).1 ∙ (o2 0 (omega arith)).1 in
    let digits_1 = (o4 1 (omega arith)).1 ∙ (o3 1 (omega arith)).1 in
    let digits_2 = (o4 2 (omega arith)).1 in
    let oct_0 = (o4 0 (omega arith)).0 ∙ (o3 0 (omega arith)).0 ∙ (o2 0 (omega arith)).0 ∙ a1 in
    let oct_1 = (o4 1 (omega arith)).0 ∙ (o3 1 (omega arith)).0 ∙ b2 in
    let oct_2 = (o4 2 (omega arith)).0 ∙ c3 in
    address_complete ip_address t4 i4 (λ z. g1 (sym digits_0 ∙ z)) (λ z. g2 (sym digits_1 ∙ z))
      (λ z. g3 (sym digits_2 ∙ z)) g4
    ∙ ap (λ x. ip_address x (t4.oct 1) (t4.oct 2) (t4.oct 3)) oct_0
    ∙ ap (λ x. ip_address a x (t4.oct 2) (t4.oct 3)) oct_1
    ∙ ap₂ (ip_address a b) oct_2 d4

-- `parse_ip4` reads the dotted quad of four octets of at most 255, written without leading zeros, as
-- the address of these octets in this order.
pub parse_ip4-quad :
    (ip_address : ℕ → ℕ → ℕ → ℕ → ℕ) (a b c d : ℕ)
    → a ≤ 255
    → b ≤ 255
    → c ≤ 255
    → d ≤ 255
    → parse_ip4 ip_address (quad a b c d) ≡ ip_address a b c d
parse_ip4-quad ip_address a b c d a_le b_le c_le d_le =
    let rest_d = decimal d [] in
    let rest_c = decimal c (b'.' ∷ rest_d) in
    let rest_b = decimal b (b'.' ∷ rest_c) in
    let (t1, scan1, r1) = octet_at start 0 a (b'.' ∷ rest_b) refl a_le refl in
    let u1 = pass_point t1 in
    let (t2, scan2, r2) =
      octet_at u1 1 b (b'.' ∷ rest_c) (ap (λ k. k + 1) r1.0) b_le (r1.3 1 (omega arith)).0 in
    let u2 = pass_point t2 in
    let (t3, scan3, r3) =
      octet_at u2 2 c (b'.' ∷ rest_d) (ap (λ k. k + 1) r2.0) c_le
        ((r2.3 2 (omega arith)).0 ∙ (r1.3 2 (omega arith)).0) in
    let u3 = pass_point t3 in
    let (t4, scan4, r4) =
      octet_at u3 3 d [] (ap (λ k. k + 1) r3.0) d_le
        ((r3.3 3 (omega arith)).0 ∙ (r2.3 3 (omega arith)).0 ∙ (r1.3 3 (omega arith)).0) in
    let scanned : scan_all (some start) (quad a b c d) ≡ some t4 =
      scan1
      ∙ point t1 rest_b (omega (arith, r1.0))
      ∙ scan2
      ∙ point t2 rest_c (omega (arith, r2.0))
      ∙ scan3
      ∙ point t3 rest_d (omega (arith, r3.0))
      ∙ scan4 in
    ap (address ip_address) scanned ∙ address_read ip_address t1 t2 t3 t4 a b c d r1 r2 r3 r4
