-- ===== src/Flash/Roundtrip.antt =====
-- What `bflash_program` writes, `bflash_read` reads.
use blobly_emb.Prelude.{
  ℕ, ◌+◌, ◌*◌, ◌-◌, ◌/◌, ◌%◌, ◌≤◌, ◌<◌, ◌≡◌, false, some, List, ok, ap, ◌∙◌, arith, add32,
  if◌then◌else◌,
}
use blobly_emb.Flash.{Op, Answer, Cells, Flags, bank1_addr, bank_size, bflash_program, bflash_read}
use blobly_emb.Flash.Read.{read_sound, sound_in, Holds, Holds_at}
use blobly_emb.Flash.Words.{Bytes}
use blobly_emb.Flash.Controller.{Hw, run, Documented, patched}
use blobly_emb.Flash.Program.{Told, program_writes, in_bank}

read_byte :
    (banks : ℕ) (c : Cells) (addr : ℕ) (bytes out out' mem : ℕ → ℕ) (len j : ℕ)
    → banks ≤ 2
    → bank1_addr ≤ addr
    → addr + len ≤ bank1_addr + banks * bank_size
    → c.mem ≡ patched addr bytes 0 len mem
    → ((a : ℕ) → c.torn a ≡ false)
    → Holds banks c addr 0 len out out'
    → j < len
    → out' j ≡ bytes j
read_byte banks c addr bytes out out' mem len j k lo hi m sane holds lt =
    let w : add32 addr j ≡ addr + j = omega arith in
    let (b, e) = in_bank banks (add32 addr j) k (omega (arith, w)) (omega (arith, w)) in
    let got : sound_in c (add32 addr j) (some b) ≡ c.mem (add32 addr j) =
      ap (λ t. if t then 0 else c.mem (add32 addr j)) (sane (add32 addr j / 32)) in
    let at : bytes (add32 addr j - addr) ≡ bytes j = ap bytes (omega (arith, w)) in
    let cell : patched addr bytes 0 len mem (add32 addr j) ≡ bytes (add32 addr j - addr) =
      ground (arith, w) in
    let first : out' j ≡ sound_in c (add32 addr j) (some b) =
      Holds_at banks c addr len out out' j holds lt ∙ ap (λ o. sound_in c (add32 addr j) o) e in
    first ∙ got ∙ ap (λ f. f (add32 addr j)) m ∙ cell ∙ at

-- An aligned, erased range in the flash is programmed with bytes, on a controller as documented whose
-- LOCK the driver reads as it stands, no round failing: `bflash_program` is 1 and leaves cells from
-- which, if no flash word is torn, `bflash_read` of the same range gives these bytes.
pub program-read :
    {S : Type 0} (hw : Hw S) (banks : ℕ) (ask : ℕ → Answer) (s : S) (c : Cells) (addr : ℕ)
    (bytes out : ℕ → ℕ) (f : Flags) (len : ℕ)
    → Documented banks hw
    → banks ≤ 2
    → bank1_addr ≤ addr
    → addr + len ≤ bank1_addr + banks * bank_size
    → addr % 32 ≡ 0
    → len % 32 ≡ 0
    → Bytes bytes
    → ((a : ℕ) → (ask a).errs ≡ 0)
    → Told hw banks ask addr bytes 0 (len / 32) s
    → ((a : ℕ) → addr ≤ a → a < addr + len → hw.cell s a ≡ 255)
    → ((a : ℕ) → c.torn a ≡ false)
    → (ops : List Op) × (out' : ℕ → ℕ) × (f' : Flags) × (bflash_program banks ask addr bytes len
        ≡ (ok, ops))
      × (bflash_read banks (record c { mem = hw.cell (run hw ops s) }) addr out f len
          ≡ some (out', f'))
      × ((j : ℕ) → j < len → out' j ≡ bytes j)
program-read hw banks ask s c addr bytes out f len doc k lo hi al ll by good told erased sane =
    let (ops, e, m) =
      program_writes hw banks ask addr bytes len s doc k lo hi al ll by good told erased in
    let c' = record c { mem = hw.cell (run hw ops s) } in
    let (out', f', r, holds, _) = read_sound banks c' addr out f len in
    (
      ops,
      out',
      f',
      e,
      r,
      λ j lt. read_byte banks c' addr bytes out out' (hw.cell s) len j k lo hi m sane holds lt,
    )
