-- ===== src/Flash/Tests.antt =====
-- A download to the second bank, and what it reads back.
use blobly_emb.Prelude.{
  ℕ, ℕ_discrete, ◌+◌, ◌*◌, ◌/◌, ◌%◌, ◌≡◌, ◌<◌, ◌↔◌, ◌≤◌, ◌^◌, ok, true, false, ◌==◌, if◌then◌else◌,
  some, List, arith, refl,
}
use blobly_emb.Flash.{
  Op, Answer, Cells, Flags, sector_size, bflash_erase, bflash_program, bflash_read, bflash_blank,
  blank_rounds,
}
use blobly_emb.Flash.Within.{Ends, erase-Ends}
use blobly_emb.Flash.Read.{Reads, read_sound}
use blobly_emb.Flash.Blank.{blank_iff, Untouched}
use blobly_emb.Flash.Controller.{run}
use blobly_emb.Flash.Program.{Told}
use blobly_emb.Flash.Chip.{chip, chip-Documented, reset_chip}
use blobly_emb.Flash.Roundtrip.{program-read}

abbrev fine : ℕ → Answer
fine a = record { locked = true; errs = 0 }

-- The sector 0x08100000 / 0x20000 = 1032 is protected.
abbrev guarded : ℕ → Answer
guarded a = record { locked = true; errs = if a / sector_size == 1032 then 2 ^ 17 else 0 }

abbrev erased : Cells
erased = record { mem = λ a. 255; torn = λ w. false; worn = λ w. w == 4227072 }

abbrev spoilt : Cells
spoilt = record { mem = λ a. a % 256; torn = λ w. w == 4194305; worn = λ w. false }

abbrev clear : Flags
clear = record { dbe = λ b. false; sne = λ b. false }

abbrev lingering : Flags
lingering = record { dbe = λ b. true; sne = λ b. true }

erase-Ends_example : Ends 1 0x080F0000 0x08140000 (bflash_erase 1 guarded 0x080F0000 0x00050000)
erase-Ends_example = erase-Ends 1 guarded 0x080F0000 0x00050000 (omega arith) (omega arith)

read_sound_example :
    Reads 2 spoilt 0x08000010 0 100
      (λ j. 7)
      lingering
      (bflash_read 2 spoilt 0x08000010 (λ j. 7) lingering 100)
read_sound_example = read_sound 2 spoilt 0x08000010 (λ j. 7) lingering 100

blank_iff_example :
    ((bflash_blank 2 erased 0x08100000 lingering 100).0 ≡ true)
    ↔ ((a : ℕ) → 0x08100000 ≤ a → a < 0x08100000 + 32 * 4 → Untouched 2 erased a)
blank_iff_example =
    blank_iff 2 erased 0x08100000 lingering 100 (λ a. omega arith) refl (omega arith)

-- The two rounds stand in different banks, and find them locked.
locked_rounds : Told chip 2 fine 0x080FFFE0 (λ i. i % 256) 0 2 reset_chip
locked_rounds b e = (
  refl,
  λ b' e'. (elim (ℕ_discrete b b') [ yes q ↦ absurd (ground arith) | no ne ↦ ground arith ], tt),
)

program-read_example :
    (ops : List Op) × (out' : ℕ → ℕ) × (f' : Flags) × (bflash_program 2 fine 0x080FFFE0
        (λ i. i % 256)
        64
      ≡ (ok, ops))
    × (bflash_read 2
          (record erased { mem = chip.cell (run chip ops reset_chip) })
          0x080FFFE0
          (λ j. 7)
          lingering
          64
        ≡ some (out', f'))
    × ((j : ℕ) → j < 64 → out' j ≡ j % 256)
program-read_example =
    program-read chip 2 fine reset_chip erased 0x080FFFE0 (λ i. i % 256) (λ j. 7) lingering 64
      chip-Documented (omega arith) (omega arith) (omega arith) refl refl (λ a. omega arith)
      (λ a. refl) locked_rounds (λ a lo hi. refl) (λ a. refl)

passed : (bflash_blank 2 erased 0x08100000 lingering 32).0 ≡ true
unfolding blank_rounds
passed = refl
