-- ===== src/Flash/H72x.antt =====
-- The driver of boards/common/flash_h72x.c, with one bank: the calls of Flash at its banks.
use blobly_emb.Prelude.{ℕ, Bool, Option, List, Status}
use blobly_emb.Flash.{Op, Answer, Cells, Flags}
use blobly_emb.Flash

abbrev pub bflash_erase : (ℕ → Answer) → ℕ → ℕ → Option (Status × List Op)
bflash_erase = Flash.bflash_erase 1

abbrev pub bflash_program : (ℕ → Answer) → ℕ → (ℕ → ℕ) → ℕ → Status × List Op
bflash_program = Flash.bflash_program 1

abbrev pub bflash_read : Cells → ℕ → (ℕ → ℕ) → Flags → ℕ → Option ((ℕ → ℕ) × Flags)
bflash_read = Flash.bflash_read 1

abbrev pub bflash_blank : Cells → ℕ → Flags → ℕ → Bool × Flags
bflash_blank = Flash.bflash_blank 1
