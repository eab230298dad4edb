-- ===== src/Flash/Chip.antt =====
-- A flash controller that behaves as Flash.Controller has it documented, to run the driver on.
use blobly_emb.Prelude.{
  ℕ, zero, suc, ◌+◌, ◌*◌, ◌-◌, ◌/◌, ◌%◌, ◌<◌, ◌≡◌, refl, Bool, true, false, ◌&&◌, if◌then◌else◌,
  leb, ltb, ◌==◌, Option, none, some, update, update_self, ap, ◌∙◌, arith, dec_lt, fun_ext,
}
use blobly_emb.Flash.{Op, keyr, cr, ccr, store, bank_of, key1, key2}
use blobly_emb.Flash.Controller.{
  Hw, run, words, byte_of, spelled, patched, Documented, written_join,
}

-- Of each bank the last key, whether it is open, and whether it programs words
pub record Chip : Type 0 where
  pub mem : ℕ → ℕ
  pub keyed : ℕ → ℕ
  pub open_banks : ℕ → Bool
  pub set_up : ℕ → Bool

abbrev takes_store : Chip → Option ℕ → Bool
takes_store s none = false
takes_store s (some b) = s.set_up b

abbrev with_word : (ℕ → ℕ) → ℕ → ℕ → ℕ → ℕ
with_word mem addr w a = if leb addr a && ltb a (addr + 4) then byte_of w (a - addr) else mem a

abbrev chip_react : Chip → Op → Chip
chip_react s (keyr b v) = record s {
  keyed = update s.keyed b v;
  open_banks = if v == key2 && s.keyed b == key1 then update s.open_banks b true else s.open_banks;
}
chip_react s (cr b v) = record s {
  set_up = if s.open_banks b then update s.set_up b (v % 16 == 2 && v / 16 % 4 == 2) else s.set_up;
}
chip_react s (ccr b v) = s
chip_react s (store addr w) = record s {
  mem = if takes_store s (bank_of 2 addr) then with_word s.mem addr w else s.mem;
}

abbrev pub chip : Hw Chip
chip = record {
  cell = λ s. s.mem;
  is_open = λ s. s.open_banks;
  programs = λ s. s.set_up;
  react = chip_react;
}

same_bank :
    (addr i b : ℕ)
    → bank_of 2 addr ≡ some b
    → addr % 32 ≡ 0
    → i < 8
    → bank_of 2 (addr + 4 * i) ≡ bank_of 2 addr
same_bank addr i b e al lt = ground arith

with_word-patched :
    (addr i : ℕ) (w mem : ℕ → ℕ)
    → with_word mem (addr + 4 * i) (w i) ≡ patched addr (spelled w) (4 * i) (4 * i + 4) mem
with_word-patched addr i w mem = fun_ext (λ a. elim (dec_lt a (addr + 4 * i)) [
  | yes lt ↦ ground arith
  | no ge ↦ elim (dec_lt a (addr + 4 * i + 4)) [
    | yes lt ↦
        let at : (a - addr) / 4 ≡ i = omega arith in
        let within : (a - addr) % 4 ≡ a - (addr + 4 * i) = omega arith in
        let e : spelled w (a - addr) ≡ byte_of (w i) (a - (addr + 4 * i)) =
          ap (λ k. byte_of (w k) ((a - addr) % 4)) at ∙ ap (byte_of (w i)) within in
        ground (arith, e)
    | no gt ↦ ground arith
  ]
])

stored_words :
    (addr b : ℕ) (w : ℕ → ℕ) (i n : ℕ) (s : Chip)
    → bank_of 2 addr ≡ some b
    → addr % 32 ≡ 0
    → i + n ≡ 8
    → s.set_up b ≡ true
    → (run chip (words addr w i n) s).mem ≡ patched addr (spelled w) (4 * i) (4 * (i + n)) s.mem
stored_words addr b w i zero s e al n up = fun_ext (λ a. ground arith)
stored_words addr b w i (suc n) s e al total up =
    let taken : takes_store s (bank_of 2 (addr + 4 * i)) ≡ true =
      ap (takes_store s) (same_bank addr i b e al (omega arith) ∙ e) ∙ up in
    let first : (chip_react s (store (addr + 4 * i) (w i))).mem
        ≡ patched addr (spelled w) (4 * i) (4 * i + 4) s.mem =
      ap (λ t. if t then with_word s.mem (addr + 4 * i) (w i) else s.mem) taken
      ∙ with_word-patched addr i w s.mem in
    stored_words addr b w (suc i) n (chip_react s (store (addr + 4 * i) (w i))) e al (omega arith)
      up
    ∙ ap (λ (m : ℕ → ℕ). patched addr (spelled w) (4 * suc i) (4 * (suc i + n)) m) first
    ∙ ap
        (λ from.
          patched addr (spelled w) from (4 * (suc i + n))
            (patched addr (spelled w) (4 * i) (4 * i + 4) s.mem))
        (omega arith)
    ∙ ap
        (λ to.
          patched addr (spelled w) (4 * i + 4) to
            (patched addr (spelled w) (4 * i) (4 * i + 4) s.mem))
        (omega arith)
    ∙ written_join addr (spelled w) (4 * i) (4 * i + 4) (4 * (i + suc n)) s.mem (omega arith)
        (omega arith)

pub chip-Documented : Documented 2 chip
chip-Documented = record {
  keys_open = λ s b e.
      let last : update s.keyed b 0x45670123 b ≡ 0x45670123 = update_self s.keyed b 0x45670123 in
      let opened =
        update_self
          (if 0x45670123 == key2 && s.keyed b == key1
            then update s.open_banks b true
            else s.open_banks)
          b true in
      ap
        (λ k.
          (if 0xCDEF89AB == key2 && k == key1 then update s.open_banks b true else s.open_banks) b)
        last
      ∙ opened;
  keys_keep = λ s b v. refl;
  cr_keeps = λ s b v e. refl;
  cr_sets = λ s b v open_now pg size.
      ap (λ t. (if t then update s.set_up b (v % 16 == 2 && v / 16 % 4 == 2) else s.set_up) b)
        open_now
      ∙ update_self s.set_up b (v % 16 == 2 && v / 16 % 4 == 2)
      ∙ ground arith;
  programmed = λ s b addr w bank al up erased. stored_words addr b w 0 8 s bank al refl up;
}

-- Fresh from reset: locked and erased
abbrev pub reset_chip : Chip
reset_chip = record { mem = λ a. 255; keyed = λ b. 0; open_banks = λ b. false; set_up = λ b. false }
