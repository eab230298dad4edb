-- ===== src/Flash/Read.antt =====
-- `bflash_read`: what it leaves in the buffer, and the flags.
use blobly_emb.Prelude.{
  ℕ, zero, suc, ◌+◌, ◌-◌, ◌/◌, ◌%◌, ◌^◌, ◌≤◌, ◌<◌, ◌≡◌, ◌⊎◌, refl, Bool, true, false, ◌&&◌,
  if◌then◌else◌, ltb, leb, lt→ltb, Option, none, some, ap, sym, ◌∙◌, arith, dec_lt, inr, add32,
}
use blobly_emb.Flash.{
  Cells, Flags, bank_of, read_loop, bflash_read, read_round, read_flags, read_step, chunk_at,
  copy_chunk, ecc_clear, ecc_fired, touch,
}

-- The byte that a fault-tolerant read gives for an address: the cell's, or 0 where it lies in a torn
-- flash word
abbrev pub sound_in : Cells → ℕ → Option ℕ → ℕ
sound_in c a none = c.mem a
sound_in c a (some b) = if c.torn (a / 32) then 0 else c.mem a

abbrev pub sound : ℕ → Cells → ℕ → ℕ
sound banks c a = sound_in c a (bank_of banks a)

in_prefix : (j len x y : ℕ) → j < len → (if leb 0 j && ltb j len then x else y) ≡ x
in_prefix j len x y lt = ground arith

-- The buffer holds the bytes of [from, to) of the range, and what it held elsewhere.
abbrev pub Holds : ℕ → Cells → ℕ → ℕ → ℕ → (ℕ → ℕ) → (ℕ → ℕ) → Type 0
Holds banks c addr from to before out =
    (j : ℕ) → out j ≡ (if leb from j && ltb j to then sound banks c (add32 addr j) else before j)

pub Holds_at :
    (banks : ℕ) (c : Cells) (addr len : ℕ) (before out : ℕ → ℕ) (j : ℕ)
    → Holds banks c addr 0 len before out
    → j < len
    → out j ≡ sound banks c (add32 addr j)
Holds_at banks c addr len before out j h lt =
    h j ∙ in_prefix j len (sound banks c (add32 addr j)) (before j) lt

-- No flag is set that was not.
abbrev pub Quiet : Flags → Flags → Type 0
Quiet before f =
    (b : ℕ)
    → ((f.dbe b ≡ false) ⊎ (f.dbe b ≡ before.dbe b))
      × ((f.sne b ≡ false) ⊎ (f.sne b ≡ before.sne b))

pub round-Quiet :
    (c : Cells) (addr : ℕ) (f : Flags) (b : Option ℕ) → Quiet f (read_flags c addr f b)
round-Quiet c addr f none k = (inr refl, inr refl)
round-Quiet c addr f (some b) k = ground arith

pub fresh :
    (c : Cells) (b addr : ℕ) (f : Flags)
    → ecc_fired b (touch c b addr (ecc_clear b f)) ≡ c.torn (addr / 32)
fresh c b addr f = ground arith

pub word-bank : (banks a a' : ℕ) → a / 32 ≡ a' / 32 → bank_of banks a ≡ bank_of banks a'
word-bank banks a a' e = ground arith

in_flash : (banks a b : ℕ) → bank_of banks a ≡ some b → a < 2 ^ 31
in_flash banks a b e = ground arith

-- The bytes of a chunk lie in one flash word.
chunk-word :
    (banks addr i len j b : ℕ)
    → bank_of banks (add32 addr i) ≡ some b
    → i ≤ j
    → j < i + chunk_at addr i len
    → add32 addr j / 32 ≡ add32 addr i / 32
chunk-word banks addr i len j b e le l =
    let lt = in_flash banks (add32 addr i) b e in
    let l' : j < i + (32 - add32 addr i % 32) = (ground arith) in omega arith

chunk-sound :
    (banks : ℕ) (c : Cells) (addr i len j b : ℕ)
    → bank_of banks (add32 addr i) ≡ some b
    → i ≤ j
    → j < i + chunk_at addr i len
    → sound banks c (add32 addr j)
      ≡ (if c.torn (add32 addr i / 32) then 0 else c.mem (add32 addr j))
chunk-sound banks c addr i len j b e le l =
    let w = chunk-word banks addr i len j b e le l in
    let e' = word-bank banks (add32 addr j) (add32 addr i) w ∙ e in
    ap (λ b'. sound_in c (add32 addr j) b') e'
    ∙ ap (λ k. if c.torn k then 0 else c.mem (add32 addr j)) w

chunk_pos : (addr i len : ℕ) → i < len → 1 ≤ chunk_at addr i len
chunk_pos addr i len lt = ground arith

chunk-le : (addr i len : ℕ) → i < len → i + chunk_at addr i len ≤ len
chunk-le addr i len lt = ground arith

-- Two values of a conditional, equal where the test holds
if_eq : (b : Bool) (x y z : ℕ) → (b ≡ true → x ≡ y) → (if b then x else z) ≡ (if b then y else z)
if_eq true x y z h = h refl
if_eq false x y z h = refl

in_range : (i j n : ℕ) → (leb i j && ltb j n) ≡ true → (i ≤ j) × (j < n)
in_range i j n e = (ground arith, ground arith)

plain-sound :
    (banks : ℕ) (c : Cells) (addr i j : ℕ)
    → bank_of banks (add32 addr i) ≡ none
    → i ≤ j
    → j < i + 1
    → c.mem (add32 addr j) ≡ sound banks c (add32 addr j)
plain-sound banks c addr i j e le lt =
    let p : j ≡ i = omega arith in
    sym (
      ap (λ k. sound_in c (add32 addr j) (bank_of banks (add32 addr k))) p
      ∙ ap (λ b. sound_in c (add32 addr j) b) e)

round-Holds :
    (banks : ℕ) (c : Cells) (addr i len : ℕ) (out : ℕ → ℕ) (f : Flags) (b : Option ℕ)
    → bank_of banks (add32 addr i) ≡ b
    → Holds banks c addr i (i + read_step addr i len b) out (read_round c addr out f i len b)
round-Holds banks c addr i len out f none e j =
    if_eq (leb i j && ltb j (i + 1)) (c.mem (add32 addr j)) (sound banks c (add32 addr j)) (out j)
      (λ t. let (le, lt) = in_range i j (i + 1) t in plain-sound banks c addr i j e le lt)
round-Holds banks c addr i len out f (some b) e j =
    ap (λ t. copy_chunk c.mem t addr out i (chunk_at addr i len) j) (fresh c b (add32 addr i) f)
    ∙ if_eq (leb i j && ltb j (i + chunk_at addr i len))
        (if c.torn (add32 addr i / 32) then 0 else c.mem (add32 addr j))
        (sound banks c (add32 addr j)) (out j)
        (λ t.
          let (le, lt) = in_range i j (i + chunk_at addr i len) t in
          sym (chunk-sound banks c addr i len j b e le lt))

step_pos :
    (addr i len : ℕ) (b : Option ℕ)
    → i < len
    → (1 ≤ read_step addr i len b) × (i + read_step addr i len b ≤ len)
step_pos addr i len none lt = (omega arith, omega arith)
step_pos addr i len (some b) lt = (chunk_pos addr i len lt, chunk-le addr i len lt)

join :
    (x y i m n j : ℕ)
    → i ≤ m
    → m ≤ n
    → (if leb m j && ltb j n then x else (if leb i j && ltb j m then x else y))
      ≡ (if leb i j && ltb j n then x else y)
join x y i m n j l k = ground arith

-- A stretch, and the stretch after it
Holds_trans :
    (banks : ℕ) (c : Cells) (addr i m n : ℕ) (before mid out : ℕ → ℕ)
    → i ≤ m
    → m ≤ n
    → Holds banks c addr i m before mid
    → Holds banks c addr m n mid out
    → Holds banks c addr i n before out
Holds_trans banks c addr i m n before mid out l k first rest j =
    rest j
    ∙ ap (λ v. if leb m j && ltb j n then sound banks c (add32 addr j) else v) (first j)
    ∙ join (sound banks c (add32 addr j)) (before j) i m n j l k

pub Quiet-trans : (f g h : Flags) → Quiet f g → Quiet g h → Quiet f h
Quiet-trans f g h p q b = ground (arith, p b, q b)

-- The rounds from `i` on end, with the bytes of the range from there on, and no flag set.
abbrev pub Reads : ℕ → Cells → ℕ → ℕ → ℕ → (ℕ → ℕ) → Flags → Option ((ℕ → ℕ) × Flags) → Type 0
Reads banks c addr i len before f r =
    (out : ℕ → ℕ) × (f' : Flags) × (r ≡ some (out, f'))
    × Holds banks c addr i len before out
    × Quiet f f'

one_round :
    (fuel banks : ℕ) (c : Cells) (addr : ℕ) (out : ℕ → ℕ) (f : Flags) (i len : ℕ) (b : Option ℕ)
    → i < len
    → bank_of banks (add32 addr i) ≡ b
    → read_loop (suc fuel) banks c addr out f i len
      ≡ read_loop fuel banks c addr
          (read_round c addr out f i len b)
          (read_flags c (add32 addr i) f b)
          (i + read_step addr i len b)
          len
unfolding read_loop
one_round fuel banks c addr out f i len b lt e = rw (lt→ltb i len lt) (
    ap
      (λ b'.
        read_loop fuel banks c addr (read_round c addr out f i len b')
          (read_flags c (add32 addr i) f b') (i + read_step addr i len b') len)
      e)

no_round :
    (fuel banks : ℕ) (c : Cells) (addr : ℕ) (out : ℕ → ℕ) (f : Flags) (i len : ℕ)
    → len ≤ i
    → read_loop (suc fuel) banks c addr out f i len ≡ some (out, f)
unfolding read_loop
no_round fuel banks c addr out f i len le = ground arith

loop-Reads :
    (fuel banks : ℕ) (c : Cells) (addr : ℕ) (out : ℕ → ℕ) (f : Flags) (i len : ℕ)
    → len < i + fuel
    → i ≤ len
    → Reads banks c addr i len out f (read_loop fuel banks c addr out f i len)
loop-Reads zero banks c addr out f i len lt le = absurd (omega arith)
loop-Reads (suc fuel) banks c addr out f i len lt le = elim (dec_lt i len) [
  | no ge ↦ (
    out,
    f,
    no_round fuel banks c addr out f i len (omega arith),
    (λ j. ground arith),
    (λ b. (inr refl, inr refl)),
  )
  | yes l ↦
      let b = bank_of banks (add32 addr i) in
      let (pos, fit) = step_pos addr i len b l in
      let mid = read_round c addr out f i len b in
      let g = read_flags c (add32 addr i) f b in
      let (out', f', e, holds, quiet) =
        loop-Reads fuel banks c addr mid g (i + read_step addr i len b) len (omega arith) fit in
      (
        out',
        f',
        one_round fuel banks c addr out f i len b l refl ∙ e,
        Holds_trans banks c addr i (i + read_step addr i len b) len out mid out' (omega arith) fit
            (round-Holds banks c addr i len out f b refl) holds,
        Quiet-trans f g f' (round-Quiet c (add32 addr i) f b) quiet,
      )
]

-- Of any address and length, in any state of the flags: `bflash_read` ends, byte `j` below the length is
-- 0 where the address lies in a flash word of the flash that raises a double error, and the cell
-- otherwise, the bytes from the length on are as before, and no flag is set that was not.
pub read_sound :
    (banks : ℕ) (c : Cells) (addr : ℕ) (out : ℕ → ℕ) (f : Flags) (len : ℕ)
    → Reads banks c addr 0 len out f (bflash_read banks c addr out f len)
read_sound banks c addr out f len =
    loop-Reads (len + 1) banks c addr out f 0 len (omega arith) (omega arith)
