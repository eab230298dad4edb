-- ===== src/Flash/Starts.antt =====
-- The sectors that a call of `bflash_erase` starts, and its single rounds.
use mathlib.Core.List.{append_assoc}
use blobly_emb.Prelude.{
  ◌≢◌, ℕ, zero, suc, ◌+◌, ◌*◌, ◌-◌, ◌/◌, ◌%◌, ◌≤◌, ◌<◌, ◌≡◌, refl, ok, fail, if◌then◌else◌, ◌==◌,
  none, some, List, [], ◌∷◌, ◌++◌, arith, dec_lt, ap, sym, ◌∙◌,
}
use blobly_emb.Flash.{
  Op, keyr, cr, ccr, store, Answer, bank_of, base_of, bank1_addr, bank_size, sector_size, sector_of,
  next_sector, start_erase, erase_loop, after,
}

-- The sector that a write to CR starts, by its address: START is bit 7, SNB the bits from 8 on.
abbrev pub started_by : Op → List ℕ
started_by (cr b v) = if v / 128 % 2 == 1 then (base_of b + v / 256 * sector_size) ∷ [] else []
started_by (keyr b v) = []
started_by (ccr b v) = []
started_by (store addr w) = []

unfoldable pub started : List Op → List ℕ
started [] = []
started (op ∷ ops) = started_by op ++ started ops

pub started-append : (ops rest : List Op) → started (ops ++ rest) ≡ started ops ++ started rest
unfolding started
started-append [] rest = refl
started-append (op ∷ ops) rest =
    ap (λ (l : List ℕ). started_by op ++ l) (started-append ops rest)
    ∙ sym (append_assoc (started_by op) (started ops) (started rest))

pub started_nil : started [] ≡ []
unfolding started
started_nil = refl

-- A driver in bank `b` starts the one sector that it means to.
pub started-start_erase :
    (b snb : ℕ) (a : Answer) → started (start_erase b snb a) ≡ (base_of b + snb * sector_size) ∷ []
unfolding started
started-start_erase b snb a = ground arith

-- The sectors from the one of `addr` on, as many as `n`
abbrev pub sectors : ℕ → ℕ → List ℕ
sectors first zero = []
sectors first (suc n) = (first * sector_size) ∷ sectors (suc first) n

-- The range from `addr` to `end` ends in the `n`th sector from its first on.
abbrev pub Spans : ℕ → ℕ → ℕ → Type 0
Spans zero addr end = end ≤ addr
Spans (suc n) addr end = (addr < end) × ((end - 1) / sector_size ≡ addr / sector_size + n)

pub bank-in :
    (banks addr : ℕ)
    → banks ≤ 2
    → bank1_addr ≤ addr
    → addr < bank1_addr + banks * bank_size
    → (b : ℕ) × (bank_of banks addr ≡ some b)
      × (base_of b + sector_of b addr * sector_size ≡ addr / sector_size * sector_size)
      × (next_sector b addr ≡ suc (addr / sector_size) * sector_size)
bank-in banks addr k lo hi = elim (dec_lt addr (bank1_addr + bank_size)) [
  | yes p ↦ (0, ground arith, omega arith, omega arith)
  | no q ↦ (1, ground arith, omega arith, omega arith)
]

-- A round with no error, and one with an error
pub round-ok :
    (fuel banks : ℕ) (ask : ℕ → Answer) (addr end b : ℕ)
    → addr < end
    → bank_of banks addr ≡ some b
    → (ask addr).errs ≡ 0
    → erase_loop (suc fuel) banks ask addr end
      ≡ after
          (start_erase b (sector_of b addr) (ask addr) ++ (cr b 0 ∷ []))
          (erase_loop fuel banks ask (next_sector b addr) end)
unfolding erase_loop
round-ok fuel banks ask addr end b lt e h = rw e (ground (arith))

pub round-fail :
    (fuel banks : ℕ) (ask : ℕ → Answer) (addr end b : ℕ)
    → addr < end
    → bank_of banks addr ≡ some b
    → (ask addr).errs ≢ 0
    → erase_loop (suc fuel) banks ask addr end
      ≡ some (fail, start_erase b (sector_of b addr) (ask addr))
unfolding erase_loop
round-fail fuel banks ask addr end b lt e h = rw e (ground (arith))

pub round-end :
    (fuel banks : ℕ) (ask : ℕ → Answer) (addr end : ℕ)
    → end ≤ addr
    → erase_loop (suc fuel) banks ask addr end ≡ some (ok, [])
unfolding erase_loop
round-end fuel banks ask addr end h = ground arith

pub round-out :
    (fuel banks : ℕ) (ask : ℕ → Answer) (addr end : ℕ)
    → addr < end
    → bank_of banks addr ≡ none
    → erase_loop (suc fuel) banks ask addr end ≡ some (fail, [])
unfolding erase_loop
round-out fuel banks ask addr end h e = rw e (ground arith)
