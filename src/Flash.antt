-- ===== src/Flash.antt =====
-- boards/h755zi/flash.c and boards/common/flash_h72x.c: the embedded flash, of two banks and of one.
-- H755 and H72x have the calls of the two drivers; Erase and Within, Program, Stays and Roundtrip, Read and
-- Blank the results.
mod H755
mod H72x
mod Starts
mod Erase
mod Within
mod Roundtrip
mod Stays
mod Controller
mod Program
mod Chip
mod Read
mod Words
mod Blank
mod Tests
use blobly_emb.Prelude.{
  ℕ, zero, suc, ◌+◌, ◌*◌, ◌-◌, ◌/◌, ◌%◌, ◌^◌, Status, ok, fail, Bool, true, false, not, ◌&&◌, ◌||◌,
  if◌then◌else◌, ltb, leb, ◌==◌, Option, none, some, update, add32, List, [], ◌∷◌, ◌++◌,
}

-- BANK1_ADDR, BANK_SIZE and SECTOR_SIZE
abbrev pub bank1_addr : ℕ
bank1_addr = 0x08000000

abbrev pub bank_size : ℕ
bank_size = 0x00100000

abbrev pub sector_size : ℕ
sector_size = 0x00020000

-- `bank_of` with `banks` banks, one behind the other; `none` is -1. With one bank it is `in_bank`.
abbrev pub bank_of : ℕ → ℕ → Option ℕ
bank_of banks addr =
    if leb bank1_addr addr && ltb addr (bank1_addr + bank_size)
    then some 0
    else if leb 2 banks
        && leb (bank1_addr + bank_size) addr
        && ltb addr (bank1_addr + 2 * bank_size)
    then some 1
    else none

abbrev pub base_of : ℕ → ℕ
base_of b = bank1_addr + b * bank_size

-- FLASH_KEY1 and FLASH_KEY2; CR_PG, CR_SER, CR_PSIZE_32 and CR_START; CR_SNB_SHIFT
abbrev pub key1 : ℕ
key1 = 0x45670123

abbrev pub key2 : ℕ
key2 = 0xCDEF89AB

abbrev pub cr_pg : ℕ
cr_pg = 2

abbrev pub cr_ser : ℕ
cr_ser = 4

abbrev pub cr_psize_32 : ℕ
cr_psize_32 = 32

abbrev pub cr_start : ℕ
cr_start = 128

-- The writes of the driver: to the registers of a bank, and a word to an address
pub data Op : Type 0 where
  keyr cr ccr : (b v : ℕ) → Op
  store : (addr w : ℕ) → Op

-- What the registers of a bank read: CR.LOCK, and the error bits of SR once BSY and QW are clear
pub record Answer : Type 0 where
  pub locked : Bool
  pub errs : ℕ

abbrev pub unlock : ℕ → Answer → List Op
unlock b a = if a.locked then keyr b key1 ∷ keyr b key2 ∷ [] else []

-- `wait_done`: the errors are cleared for the next attempt.
abbrev pub wait_done : ℕ → Answer → Bool × List Op
wait_done b a = if a.errs == 0 then (true, []) else (false, ccr b a.errs ∷ [])

-- The rounds of `bflash_erase`, `none` where the fuel does not do. `ask` answers in the round of an
-- address.
abbrev pub start_erase : ℕ → ℕ → Answer → List Op
start_erase b snb a =
    unlock b a
    ++ (cr b (cr_ser + cr_psize_32 + snb * 256)
        ∷ cr b (cr_ser + cr_psize_32 + snb * 256 + cr_start)
        ∷ (wait_done b a).1)

abbrev pub after : List Op → Option (Status × List Op) → Option (Status × List Op)
after ops none = none
after ops (some (s, rest)) = some (s, ops ++ rest)

abbrev pub sector_of : ℕ → ℕ → ℕ
sector_of b addr = (addr - base_of b) / sector_size

abbrev pub next_sector : ℕ → ℕ → ℕ
next_sector b addr = base_of b + (sector_of b addr + 1) * sector_size

-- One round in the bank of the address, with the rounds after it
abbrev pub erase_round :
    (ℕ → Answer) → ℕ → Option ℕ → Option (Status × List Op) → Option (Status × List Op)
erase_round ask addr none rest = some (fail, [])
erase_round ask addr (some b) rest =
    let ops = start_erase b (sector_of b addr) (ask addr) in
    if (wait_done b (ask addr)).0 then after (ops ++ (cr b 0 ∷ [])) rest else some (fail, ops)

abbrev pub next_addr : ℕ → Option ℕ → ℕ
next_addr addr none = addr
next_addr addr (some b) = next_sector b addr

unfoldable pub erase_loop : ℕ → ℕ → (ℕ → Answer) → ℕ → ℕ → Option (Status × List Op)
erase_loop zero banks ask addr end = none
erase_loop (suc fuel) banks ask addr end =
    let rest = erase_loop fuel banks ask (next_addr addr (bank_of banks addr)) end in
    if ltb addr end then erase_round ask addr (bank_of banks addr) rest else some (ok, [])

-- `bflash_erase`: 17 rounds do for the 16 sectors of two banks.
abbrev pub bflash_erase : ℕ → (ℕ → Answer) → ℕ → ℕ → Option (Status × List Op)
bflash_erase banks ask addr size = erase_loop 17 banks ask addr (add32 addr size)

-- The word `i` of the 32 bytes from `src` on
abbrev pub word_at : (ℕ → ℕ) → ℕ → ℕ
word_at src i =
    src (4 * i) + src (4 * i + 1) * 2 ^ 8 + src (4 * i + 2) * 2 ^ 16 + src (4 * i + 3) * 2 ^ 24

-- The stores of a flash word, from word `i` on
abbrev pub stores : ℕ → (ℕ → ℕ) → ℕ → ℕ → List Op
stores dst src i zero = []
stores dst src i (suc n) = store (dst + 4 * i) (word_at src i) ∷ stores dst src (suc i) n

abbrev pub then_program : List Op → Status × List Op → Status × List Op
then_program ops (s, rest) = (s, ops ++ rest)

-- One round of `bflash_program` in the bank of its address, with the rounds after it
abbrev pub program_round :
    (ℕ → Answer) → ℕ → (ℕ → ℕ) → Option ℕ → Status × List Op → Status × List Op
program_round ask addr src none rest = (fail, [])
program_round ask addr src (some b) rest =
    let a = ask addr in
    let ops =
      unlock b a
      ++ (cr b (cr_pg + cr_psize_32) ∷ stores addr src 0 8)
      ++ ((wait_done b a).1 ++ (cr b 0 ∷ [])) in
    if (wait_done b a).0 then then_program ops rest else (fail, ops)

-- The `n` rounds from the offset on
unfoldable pub program_rounds : ℕ → (ℕ → Answer) → ℕ → (ℕ → ℕ) → ℕ → ℕ → Status × List Op
program_rounds banks ask addr bytes off zero = (ok, [])
program_rounds banks ask addr bytes off (suc n) =
    let rest = program_rounds banks ask addr bytes (off + 32) n in
    program_round ask (add32 addr off) (λ i. bytes (off + i)) (bank_of banks (add32 addr off)) rest

abbrev pub bflash_program : ℕ → (ℕ → Answer) → ℕ → (ℕ → ℕ) → ℕ → Status × List Op
bflash_program banks ask addr bytes len =
    if not (addr % 32 == 0) || not (len % 32 == 0)
    then (fail, [])
    else program_rounds banks ask addr bytes 0 (len / 32)

-- The memory, and of each flash word, by its number, whether a read of it raises a double error or a
-- corrected single one
pub record Cells : Type 0 where
  pub mem : ℕ → ℕ
  pub torn : ℕ → Bool
  pub worn : ℕ → Bool

-- SR.DBECCERR and SR.SNECCERR of each bank
pub record Flags : Type 0 where
  pub dbe : ℕ → Bool
  pub sne : ℕ → Bool

abbrev pub ecc_clear : ℕ → Flags → Flags
ecc_clear b f = record f { dbe = update f.dbe b false; sne = update f.sne b false }

abbrev pub ecc_fired : ℕ → Flags → Bool
ecc_fired b f = f.dbe b

-- A read inside the flash word of the address: the flags set, and stay.
abbrev pub touch : Cells → ℕ → ℕ → Flags → Flags
touch c b addr f = record f {
  dbe = update f.dbe b (f.dbe b || c.torn (addr / 32));
  sne = update f.sne b (f.sne b || c.worn (addr / 32));
}

-- What the copy of `chunk` bytes leaves in `out`, and where `fired` the zeroes over it
abbrev pub copy_chunk : (ℕ → ℕ) → Bool → ℕ → (ℕ → ℕ) → ℕ → ℕ → ℕ → ℕ
copy_chunk mem fired addr out i chunk j =
    if leb i j && ltb j (i + chunk) then (if fired then 0 else mem (add32 addr j)) else out j

abbrev pub chunk_at : ℕ → ℕ → ℕ → ℕ
chunk_at addr i len =
    let chunk = 32 - add32 addr i % 32 in if ltb (len - i) chunk then len - i else chunk

-- The step of a round, what it leaves in `out`, and the flags after it
abbrev pub read_step : ℕ → ℕ → ℕ → Option ℕ → ℕ
read_step addr i len none = 1
read_step addr i len (some b) = chunk_at addr i len

abbrev pub read_round : Cells → ℕ → (ℕ → ℕ) → Flags → ℕ → ℕ → Option ℕ → ℕ → ℕ
read_round c addr out f i len none = copy_chunk c.mem false addr out i 1
read_round c addr out f i len (some b) =
    copy_chunk c.mem (ecc_fired b (touch c b (add32 addr i) (ecc_clear b f))) addr out i
      (chunk_at addr i len)

abbrev pub read_flags : Cells → ℕ → Flags → Option ℕ → Flags
read_flags c addr f none = f
read_flags c addr f (some b) = ecc_clear b (touch c b addr (ecc_clear b f))

-- The rounds of `bflash_read`, `none` where the fuel does not do
unfoldable pub read_loop : ℕ → ℕ → Cells → ℕ → (ℕ → ℕ) → Flags → ℕ → ℕ → Option ((ℕ → ℕ) × Flags)
read_loop zero banks c addr out f i len = none
read_loop (suc fuel) banks c addr out f i len =
    let b = bank_of banks (add32 addr i) in
    let rest =
      read_loop fuel banks c addr (read_round c addr out f i len b)
        (read_flags c (add32 addr i) f b) (i + read_step addr i len b) len in
    if ltb i len then rest else some (out, f)

abbrev pub bflash_read : ℕ → Cells → ℕ → (ℕ → ℕ) → Flags → ℕ → Option ((ℕ → ℕ) × Flags)
bflash_read banks c addr out f len = read_loop (len + 1) banks c addr out f 0 len

-- Whether the AND of the `n` words from word `k` on is 0xFFFFFFFF, that is, each of them is
abbrev pub all_ones : (ℕ → ℕ) → ℕ → ℕ → ℕ → Bool
all_ones mem addr k zero = true
all_ones mem addr k (suc n) =
    (word_at (λ i. mem (addr + i)) k == 0xFFFFFFFF) && all_ones mem addr (suc k) n

abbrev pub blank_word : Cells → ℕ → ℕ → Flags → Bool
blank_word c addr b f =
    if ecc_fired b (touch c b addr (ecc_clear b f)) then false else all_ones c.mem addr 0 8

-- One round of `bflash_blank` in the bank of its address, with the rounds after it
abbrev pub blank_round : Cells → ℕ → Flags → Option ℕ → Bool × Flags → Bool × Flags
blank_round c addr f none rest = (false, f)
blank_round c addr f (some b) rest =
    if blank_word c addr b f then rest else (false, read_flags c addr f (some b))

-- The `n` rounds of `bflash_blank` from `i` on
unfoldable pub blank_rounds : ℕ → Cells → ℕ → Flags → ℕ → ℕ → Bool × Flags
blank_rounds banks c addr f i zero = (true, f)
blank_rounds banks c addr f i (suc n) =
    let b = bank_of banks (add32 addr i) in
    let rest = blank_rounds banks c addr (read_flags c (add32 addr i) f b) (i + 32) n in
    blank_round c (add32 addr i) f b rest

abbrev pub bflash_blank : ℕ → Cells → ℕ → Flags → ℕ → Bool × Flags
bflash_blank banks c addr f len = blank_rounds banks c addr f 0 ((len + 31) / 32)
