-- ===== src/Flash/Within.antt =====
-- `bflash_erase` at every input: it ends, and stays in the range and in the flash.
use blobly_emb.Prelude.{
  ◌⊎◌, ℕ, zero, suc, ◌+◌, ◌*◌, ◌/◌, ◌%◌, ◌≤◌, ◌<◌, ◌≡◌, Status, ok, fail, Option, none, List, [],
  ◌∷◌, ap, ◌∙◌, arith, dec_lt, ℕ_discrete, inl, inr, add32,
}
use blobly_emb.Flash.{
  Answer, Op, bank_of, bank1_addr, bank_size, sector_size, sector_of, erase_loop, bflash_erase,
  start_erase,
}
use blobly_emb.Flash.Starts.{
  round-end, round-out, round-fail, bank-in, started-start_erase, started_nil,
}
use blobly_emb.Flash.Erase.{Erases, round-Erases}

-- The sectors of a list are whole sectors of the flash, and each meets [addr, end).
abbrev pub Inside : ℕ → ℕ → ℕ → List ℕ → Type 0
Inside banks addr end [] = Unit
Inside banks addr end (x ∷ l) =
    (bank1_addr ≤ x)
    × (x + sector_size ≤ bank1_addr + banks * bank_size)
    × (addr < x + sector_size)
    × (x < end)
    × (x % sector_size ≡ 0)
    × Inside banks addr end l

Inside-le :
    (banks from to end : ℕ) (l : List ℕ)
    → from ≤ to
    → Inside banks to end l
    → Inside banks from end l
Inside-le banks from to end [] le h = h
Inside-le banks from to end (x ∷ l) le (a, b, c, d, e, h) =
    (a, b, omega arith, d, e, Inside-le banks from to end l le h)

-- A run that ends, inside
abbrev pub Ends : ℕ → ℕ → ℕ → Option (Status × List Op) → Type 0
Ends banks addr end r = (s : Status) × (l : List ℕ) × Erases r s l × Inside banks addr end l

outside :
    (banks addr : ℕ)
    → banks ≤ 2
    → 1 ≤ banks
    → (addr < bank1_addr) ⊎ (bank1_addr + banks * bank_size ≤ addr)
    → bank_of banks addr ≡ none
outside banks addr k l (inl lt) = ground arith
outside banks addr k l (inr le) = ground arith

failed :
    (fuel banks : ℕ) (ask : ℕ → Answer) (addr end : ℕ)
    → banks ≤ 2
    → 1 ≤ banks
    → addr < end
    → (addr < bank1_addr) ⊎ (bank1_addr + banks * bank_size ≤ addr)
    → Ends banks addr end (erase_loop (suc fuel) banks ask addr end)
failed fuel banks ask addr end k l lt o = (
  fail,
  [],
  ([], round-out fuel banks ask addr end lt (outside banks addr k l o), started_nil),
  tt,
)

-- One round in the flash, the rounds after it at hand
started_in :
    (fuel banks : ℕ) (ask : ℕ → Answer) (addr end : ℕ)
    → banks ≤ 2
    → bank1_addr ≤ addr
    → addr < bank1_addr + banks * bank_size
    → addr < end
    → Ends banks
        (suc (addr / sector_size) * sector_size)
        end
        (erase_loop fuel banks ask (suc (addr / sector_size) * sector_size) end)
    → Ends banks addr end (erase_loop (suc fuel) banks ask addr end)
started_in fuel banks ask addr end k lo hi lt (s, l, er, ins) =
    elim (ℕ_discrete (ask addr).errs 0) [
      | yes e ↦ (
        s,
        (addr / sector_size * sector_size) ∷ l,
        round-Erases fuel banks ask addr end s l k lo hi lt e er,
        (
          omega arith,
          omega arith,
          omega arith,
          omega arith,
          omega arith,
          Inside-le banks addr (suc (addr / sector_size) * sector_size) end l (omega arith) ins,
        ),
      )
      | no ne ↦
          let (b, e, at, next) = bank-in banks addr k lo hi in
          (
            fail,
            (addr / sector_size * sector_size) ∷ [],
            (
              start_erase b (sector_of b addr) (ask addr),
              round-fail fuel banks ask addr end b lt e ne,
              started-start_erase b (sector_of b addr) (ask addr) ∙ ap (λ (x : ℕ). x ∷ []) at,
            ),
            (omega arith, omega arith, omega arith, omega arith, omega arith, tt),
          )
    ]

loop-Ends :
    (fuel banks : ℕ) (ask : ℕ → Answer) (addr end : ℕ)
    → banks ≤ 2
    → 1 ≤ banks
    → 0 < fuel
    → (addr < bank1_addr)
      ⊎ ((bank1_addr + banks * bank_size) / sector_size < addr / sector_size + fuel)
    → Ends banks addr end (erase_loop fuel banks ask addr end)
loop-Ends zero banks ask addr end k l f h = absurd (omega arith)
loop-Ends (suc fuel) banks ask addr end k l f h = elim (dec_lt addr end) [
  | no ge ↦ (ok, [], ([], round-end fuel banks ask addr end (omega arith), started_nil), tt)
  | yes lt ↦ elim (dec_lt addr bank1_addr) [
    | yes low ↦ failed fuel banks ask addr end k l lt (inl low)
    | no lo ↦ elim (dec_lt addr (bank1_addr + banks * bank_size)) [
      | no high ↦ failed fuel banks ask addr end k l lt (inr (omega arith))
      | yes hi ↦ started_in fuel banks ask addr end k (omega arith) hi lt (
          loop-Ends fuel banks ask (suc (addr / sector_size) * sector_size) end k l (omega arith)
            (inr (omega arith)))
    ]
  ]
]

-- At every address and size, whatever the flash answers, with one bank or two: `bflash_erase` ends, and
-- each sector that it has started is a whole sector of the flash which meets [addr, end), where `end`
-- is the 32-bit sum.
pub erase-Ends :
    (banks : ℕ) (ask : ℕ → Answer) (addr size : ℕ)
    → banks ≤ 2
    → 1 ≤ banks
    → Ends banks addr (add32 addr size) (bflash_erase banks ask addr size)
erase-Ends banks ask addr size k l =
    loop-Ends 17 banks ask addr (add32 addr size) k l (omega arith)
      (elim (dec_lt addr bank1_addr) [ yes low ↦ inl low | no lo ↦ inr (omega arith) ])
