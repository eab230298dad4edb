-- ===== src/Flash/Blank.antt =====
-- `bflash_blank`: what it answers, against the bytes and the flash words of the range.
use blobly_emb.Prelude.{
  ℕ, zero, suc, ◌+◌, ◌*◌, ◌-◌, ◌/◌, ◌%◌, ◌^◌, ◌≤◌, ◌<◌, ◌≡◌, ◌↔◌, refl, Bool, true, false,
  if◌then◌else◌, Option, none, some, ap, sym, subst, ◌∙◌, arith, dec_lt, Bool-cases, inl, inr,
  add32,
}
use blobly_emb.Flash.{
  Cells, Flags, bank_of, all_ones, blank_word, blank_round, blank_rounds, bflash_blank, bflash_read,
  read_flags,
}
use blobly_emb.Flash.Read.{sound, sound_in, Holds, Holds_at, read_sound, fresh, word-bank}
use blobly_emb.Flash.Words.{Bytes, all_ones_iff}

-- The address lies in the flash, its flash word is not torn, and its byte is 0xFF.
abbrev pub Untouched : ℕ → Cells → ℕ → Type 0
Untouched banks c a =
    ((b : ℕ) × (bank_of banks a ≡ some b)) × (c.torn (a / 32) ≡ false) × (c.mem a ≡ 255)

blank_word_lem :
    (c : Cells) (addr b : ℕ) (f : Flags)
    → Bytes c.mem
    → (blank_word c addr b f ≡ true)
      ↔ ((c.torn (addr / 32) ≡ false) × ((k : ℕ) → k < 32 → c.mem (addr + k) ≡ 255))
blank_word_lem c addr b f bytes = (to, from)
  where
    as_torn :
        blank_word c addr b f ≡ (if c.torn (addr / 32) then false else all_ones c.mem addr 0 8)
    as_torn = ap (λ t. if t then false else all_ones c.mem addr 0 8) (fresh c b addr f)

    to :
        blank_word c addr b f ≡ true
        → (c.torn (addr / 32) ≡ false) × ((k : ℕ) → k < 32 → c.mem (addr + k) ≡ 255)
    to e = elim (Bool-cases (c.torn (addr / 32))) [
      | inl t ↦ absurd (cc (as_torn, t, e))
      | inr t ↦ (
        t,
        λ k lt.
            (all_ones_iff c.mem addr 0 8 bytes).0
              (ap (λ u. if u then false else all_ones c.mem addr 0 8) (sym t) ∙ sym as_torn ∙ e) k
              (omega arith) (omega arith),
      )
    ]

    from :
        (c.torn (addr / 32) ≡ false) × ((k : ℕ) → k < 32 → c.mem (addr + k) ≡ 255)
        → blank_word c addr b f ≡ true
    from (t, h) =
        as_torn
        ∙ ap (λ u. if u then false else all_ones c.mem addr 0 8) t
        ∙ (all_ones_iff c.mem addr 0 8 bytes).1 (λ j le lt. h j (omega arith))

-- The next flash word from `a` on
abbrev Word : ℕ → Cells → ℕ → Type 0
Word banks c a = (k : ℕ) → k < 32 → Untouched banks c (a + k)

blank_word-Word :
    (banks : ℕ) (c : Cells) (a b : ℕ) (f : Flags)
    → Bytes c.mem
    → a % 32 ≡ 0
    → bank_of banks a ≡ some b
    → blank_word c a b f ≡ true
    → Word banks c a
blank_word-Word banks c a b f bytes al e h k lt =
    let (t, ones) = (blank_word_lem c a b f bytes).0 h in
    let w : (a + k) / 32 ≡ a / 32 = omega arith in
    ((b, word-bank banks (a + k) a w ∙ e), ap (λ i. c.torn i) w ∙ t, ones k lt)

Word-blank_word :
    (banks : ℕ) (c : Cells) (a b : ℕ) (f : Flags)
    → Bytes c.mem
    → a % 32 ≡ 0
    → Word banks c a
    → blank_word c a b f ≡ true
Word-blank_word banks c a b f bytes al h =
    let w : (a + 0) / 32 ≡ a / 32 = omega arith in
    let (_, t, _) = h 0 (omega arith) in
    (blank_word_lem c a b f bytes).1 (sym (ap (λ i. c.torn i) w) ∙ t, λ k lt. (h k lt).2)

-- One round, the rounds after it at hand
round_lem :
    (banks : ℕ) (c : Cells) (a : ℕ) (f : Flags) (ob : Option ℕ) (rest : Bool × Flags)
    → Bytes c.mem
    → a % 32 ≡ 0
    → bank_of banks a ≡ ob
    → ((blank_round c a f ob rest).0 ≡ true) ↔ (Word banks c a × (rest.0 ≡ true))
round_lem banks c a f none rest bytes al e = (
  (λ h. absurd (cc h)),
  λ (w, _).
      let ((b, e'), _, _) = w 0 (omega arith) in
      absurd
        (clash e b (subst (λ k. bank_of banks k ≡ some b) {x = a + 0} {y = a} (omega arith) e')),
)
  where
    clash : bank_of banks a ≡ none → (b : ℕ) → bank_of banks a ≡ some b → ⊥
    clash p b q = cc (p, q)
round_lem banks c a f (some b) rest bytes al e = (to, from)
  where
    to : (blank_round c a f (some b) rest).0 ≡ true → Word banks c a × (rest.0 ≡ true)
    to h = elim (Bool-cases (blank_word c a b f)) [
      | inl t ↦ (
        blank_word-Word banks c a b f bytes al e t,
        ap (λ u. (if u then rest else (false, read_flags c a f (some b))).0) (sym t) ∙ h,
      )
      | inr t ↦ absurd (cc (t, h))
    ]

    from : Word banks c a × (rest.0 ≡ true) → (blank_round c a f (some b) rest).0 ≡ true
    from (w, h) =
        ap (λ u. (if u then rest else (false, read_flags c a f (some b))).0)
          (Word-blank_word banks c a b f bytes al w)
        ∙ h

-- The first word of a range, and the words after it
round_range :
    (banks : ℕ) (c : Cells) (addr i n : ℕ) (f : Flags) (rest : Bool × Flags)
    → Bytes c.mem
    → addr % 32 ≡ 0
    → i % 32 ≡ 0
    → addr + i + 32 * suc n ≤ 2 ^ 32
    → ((rest.0 ≡ true)
        ↔ ((a : ℕ) → addr + (i + 32) ≤ a → a < addr + (i + 32) + 32 * n → Untouched banks c a))
    → ((blank_round c (add32 addr i) f (bank_of banks (add32 addr i)) rest).0 ≡ true)
      ↔ ((a : ℕ) → addr + i ≤ a → a < addr + i + 32 * suc n → Untouched banks c a)
round_range banks c addr i n f rest bytes al ai w (rest_to, rest_from) = (to, from)
  where
    a0 : add32 addr i ≡ addr + i
    a0 = omega arith

    here :
        ((blank_round c (add32 addr i) f (bank_of banks (add32 addr i)) rest).0 ≡ true)
        ↔ (Word banks c (add32 addr i) × (rest.0 ≡ true))
    here =
        round_lem banks c (add32 addr i) f (bank_of banks (add32 addr i)) rest bytes
          (omega (arith, a0)) refl

    to :
        (blank_round c (add32 addr i) f (bank_of banks (add32 addr i)) rest).0 ≡ true
        → (a : ℕ) → addr + i ≤ a
        → a < addr + i + 32 * suc n
        → Untouched banks c a
    to h a le lt = elim (dec_lt a (addr + i + 32)) [
      | yes p ↦
          subst (λ k. Untouched banks c k) {x = add32 addr i + (a - (addr + i))} {y = a}
            (omega (arith, a0)) ((here.0 h).0 (a - (addr + i)) (omega arith))
      | no q ↦ rest_to (here.0 h).1 a (omega arith) (omega arith)
    ]

    from :
        ((a : ℕ) → addr + i ≤ a → a < addr + i + 32 * suc n → Untouched banks c a)
        → (blank_round c (add32 addr i) f (bank_of banks (add32 addr i)) rest).0 ≡ true
    from h = here.1 (
      (λ k lt. h (add32 addr i + k) (omega (arith, a0)) (omega (arith, a0))),
      rest_from (λ a le lt. h a (omega arith) (omega arith)),
    )

rounds_iff :
    (banks : ℕ) (c : Cells) (addr i n : ℕ) (f : Flags)
    → Bytes c.mem
    → addr % 32 ≡ 0
    → i % 32 ≡ 0
    → addr + i + 32 * n ≤ 2 ^ 32
    → ((blank_rounds banks c addr f i n).0 ≡ true)
      ↔ ((a : ℕ) → addr + i ≤ a → a < addr + i + 32 * n → Untouched banks c a)
unfolding blank_rounds
rounds_iff banks c addr i zero f bytes al ai w = (λ h a le lt. absurd (omega arith), λ h. refl)
rounds_iff banks c addr i (suc n) f bytes al ai w =
    let g = read_flags c (add32 addr i) f (bank_of banks (add32 addr i)) in
    round_range banks c addr i n f (blank_rounds banks c addr g (i + 32) n) bytes al ai w
      (rounds_iff banks c addr (i + 32) n g bytes al (omega arith) (omega arith))

-- Of an aligned range whose words lie below 2 ^ 32, over cells that are bytes and in any state of the
-- flags: `bflash_blank` is 1 exactly when each byte of the flash words that cover the range is in the flash,
-- in a flash word that raises no double error, and 0xFF.
pub blank_iff :
    (banks : ℕ) (c : Cells) (addr : ℕ) (f : Flags) (len : ℕ)
    → Bytes c.mem
    → addr % 32 ≡ 0
    → addr + len + 31 ≤ 2 ^ 32
    → ((bflash_blank banks c addr f len).0 ≡ true)
      ↔ ((a : ℕ) → addr ≤ a → a < addr + 32 * ((len + 31) / 32) → Untouched banks c a)
blank_iff banks c addr f len bytes al w =
    let (to, from) = rounds_iff banks c addr 0 ((len + 31) / 32) f bytes al refl (omega arith) in
    (
      (λ h a le lt. to h a (omega arith) (omega arith)),
      λ h. from (λ a le lt. h a (omega arith) (omega arith)),
    )

-- What `bflash_blank` passes as blank, `bflash_read` reads as 0xFF, and it does so without a fault: of an
-- aligned range below 2 ^ 32 over cells that are bytes, the flags of the two calls being any.
pub read-blank :
    (banks : ℕ) (c : Cells) (addr : ℕ) (out : ℕ → ℕ) (f g : Flags) (len : ℕ)
    → Bytes c.mem
    → addr % 32 ≡ 0
    → addr + len + 31 ≤ 2 ^ 32
    → (bflash_blank banks c addr f len).0 ≡ true
    → (out' : ℕ → ℕ) × (g' : Flags) × (bflash_read banks c addr out g len ≡ some (out', g'))
      × ((j : ℕ) → j < len → out' j ≡ 255)
read-blank banks c addr out f g len bytes al w h =
    let (out', g', e, holds, _) = read_sound banks c addr out g len in
    (out', g', e, λ j lt. byte out' holds j lt)
  where
    byte : (out' : ℕ → ℕ) → Holds banks c addr 0 len out out' → (j : ℕ) → j < len → out' j ≡ 255
    byte out' holds j lt =
        let ((b, at), t, ones) =
          (blank_iff banks c addr f len bytes al w).0 h (add32 addr j) (omega arith)
            (omega arith) in
        let e : sound banks c (add32 addr j) ≡ 255 =
          ap (λ o. sound_in c (add32 addr j) o) at
          ∙ ap (λ u. if u then 0 else c.mem (add32 addr j)) t
          ∙ ones in
        Holds_at banks c addr len out out' j holds lt ∙ e
