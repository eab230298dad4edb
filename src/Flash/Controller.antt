-- ===== src/Flash/Controller.antt =====
-- The flash controller as a parameter, with the behaviour that the driver relies on, and the cells that
-- stores of words leave.
use blobly_emb.Prelude.{
  ℕ, Bool, true, false, zero, suc, ◌+◌, ◌*◌, ◌-◌, ◌/◌, ◌%◌, ◌^◌, ◌≤◌, ◌<◌, ◌≡◌, refl, ◌&&◌,
  if◌then◌else◌, ltb, leb, ◌==◌, some, List, [], ◌∷◌, ap, ◌∙◌, arith, fun_ext,
}
use blobly_emb.Flash.{Op, keyr, cr, store, bank_of, word_at, stores}
use blobly_emb.Flash.Words.{Bytes}

-- Byte `k` of a word, in the order of the memory
abbrev pub byte_of : ℕ → ℕ → ℕ
byte_of w k =
    if k == 0
    then w % 256
    else if k == 1
    then w / 2 ^ 8 % 256
    else if k == 2
    then w / 2 ^ 16 % 256
    else w / 2 ^ 24 % 256

-- The flash controller, a parameter: its state `S`, the cells, whether the registers of a bank are
-- unlocked, whether the bank is set to program words of 32 bits, and the effect of a write.
pub record Hw (S : Type 0) : Type 0 where
  pub cell : S → ℕ → ℕ
  pub is_open : S → ℕ → Bool
  pub programs : S → ℕ → Bool
  pub react : S → Op → S

abbrev pub run : {S : Type 0} → Hw S → List Op → S → S
run hw [] s = s
run hw (op ∷ ops) s = run hw ops (hw.react s op)

-- `n` words from the index `i` on, stored from `addr` on
abbrev pub words : ℕ → (ℕ → ℕ) → ℕ → ℕ → List Op
words addr w i zero = []
words addr w i (suc n) = store (addr + 4 * i) (w i) ∷ words addr w (suc i) n

-- The bytes that the words spell
abbrev pub spelled : (ℕ → ℕ) → ℕ → ℕ
spelled w k = byte_of (w (k / 4)) (k % 4)

-- The cells hold the bytes of [from, to), counted from `addr`, and what they held elsewhere.
abbrev pub patched : ℕ → (ℕ → ℕ) → ℕ → ℕ → (ℕ → ℕ) → ℕ → ℕ
patched addr src from to mem a =
    if leb (addr + from) a && ltb a (addr + to) then src (a - addr) else mem a

-- What the driver relies on, as the reference manual documents it. The two keys open the registers of
-- a locked bank, and keys program nothing. A write of CR without START leaves the cells, and one to
-- an open bank with PG and without LOCK, SER and BER lets it program. The bank of a flash word (32
-- aligned bytes) that is erased then takes eight words stored there, and changes no other cell.
pub record Documented {S : Type 0} (banks : ℕ) (hw : Hw S) : Type 0 where
  pub keys_open :
      (s : S) (b : ℕ)
      → hw.is_open s b ≡ false
      → hw.is_open (hw.react (hw.react s (keyr b 0x45670123)) (keyr b 0xCDEF89AB)) b ≡ true
  pub keys_keep : (s : S) (b v : ℕ) → hw.cell (hw.react s (keyr b v)) ≡ hw.cell s
  pub cr_keeps : (s : S) (b v : ℕ) → v / 2 ^ 7 % 2 ≡ 0 → hw.cell (hw.react s (cr b v)) ≡ hw.cell s
  pub cr_sets :
      (s : S) (b v : ℕ)
      → hw.is_open s b ≡ true
      → v % 16 ≡ 2
      → v / 2 ^ 4 % 4 ≡ 2
      → hw.programs (hw.react s (cr b v)) b ≡ true
  pub programmed :
      (s : S) (b addr : ℕ) (w : ℕ → ℕ)
      → bank_of banks addr ≡ some b
      → addr % 32 ≡ 0
      → hw.programs s b ≡ true
      → ((a : ℕ) → addr ≤ a → a < addr + 32 → hw.cell s a ≡ 255)
      → hw.cell (run hw (words addr w 0 8) s) ≡ patched addr (spelled w) 0 32 (hw.cell s)

byte-word :
    (a b c d : ℕ)
    → a < 256
    → b < 256
    → c < 256
    → d < 256
    → (byte_of (a + b * 2 ^ 8 + c * 2 ^ 16 + d * 2 ^ 24) 0 ≡ a)
      × (byte_of (a + b * 2 ^ 8 + c * 2 ^ 16 + d * 2 ^ 24) 1 ≡ b)
      × (byte_of (a + b * 2 ^ 8 + c * 2 ^ 16 + d * 2 ^ 24) 2 ≡ c)
      × (byte_of (a + b * 2 ^ 8 + c * 2 ^ 16 + d * 2 ^ 24) 3 ≡ d)
byte-word a b c d p q r s = (omega arith, omega arith, omega arith, omega arith)

byte_of-word_at :
    (src : ℕ → ℕ) (i k : ℕ) → Bytes src → k < 4 → byte_of (word_at src i) k ≡ src (4 * i + k)
byte_of-word_at src i k bytes lt =
    let (a, b, c, d) =
      byte-word (src (4 * i)) (src (4 * i + 1)) (src (4 * i + 2)) (src (4 * i + 3)) (bytes (4 * i))
        (bytes (4 * i + 1)) (bytes (4 * i + 2)) (bytes (4 * i + 3)) in
    pick (word_at src i) k a b c d lt
  where
    pick :
        (w k : ℕ)
        → byte_of w 0 ≡ src (4 * i)
        → byte_of w 1 ≡ src (4 * i + 1)
        → byte_of w 2 ≡ src (4 * i + 2)
        → byte_of w 3 ≡ src (4 * i + 3)
        → k < 4
        → byte_of w k ≡ src (4 * i + k)
    pick w zero a b c d lt = a ∙ ap src (omega arith)
    pick w (suc zero) a b c d lt = b
    pick w (suc (suc zero)) a b c d lt = c
    pick w (suc (suc (suc zero))) a b c d lt = d
    pick w (suc (suc (suc (suc k)))) a b c d lt = absurd (omega arith)

pub spelled-word_at : (src : ℕ → ℕ) (k : ℕ) → Bytes src → spelled (word_at src) k ≡ src k
spelled-word_at src k bytes =
    byte_of-word_at src (k / 4) (k % 4) bytes (omega arith) ∙ ap src (omega arith)

pub patched-spelled :
    (addr n : ℕ) (src mem : ℕ → ℕ)
    → Bytes src
    → patched addr (spelled (word_at src)) 0 n mem ≡ patched addr src 0 n mem
patched-spelled addr n src mem bytes =
    ap (λ (f : ℕ → ℕ). patched addr f 0 n mem) (fun_ext (λ k. spelled-word_at src k bytes))

pub stores-words :
    (addr : ℕ) (src : ℕ → ℕ) (i n : ℕ) → stores addr src i n ≡ words addr (word_at src) i n
stores-words addr src i zero = refl
stores-words addr src i (suc n) =
    ap (λ (ops : List Op). store (addr + 4 * i) (word_at src i) ∷ ops)
      (stores-words addr src (suc i) n)

pub written_join :
    (addr : ℕ) (src : ℕ → ℕ) (i m n : ℕ) (mem : ℕ → ℕ)
    → i ≤ m
    → m ≤ n
    → patched addr src m n (patched addr src i m mem) ≡ patched addr src i n mem
written_join addr src i m n mem le k = fun_ext (λ a. ground arith)
