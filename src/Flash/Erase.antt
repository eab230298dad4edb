-- ===== src/Flash/Erase.antt =====
-- `bflash_erase`: the sectors that it starts, against those that the range overlaps.
use blobly_emb.Prelude.{
  ap₂, subst, ◌≢◌, ℕ, suc, ◌+◌, ◌*◌, ◌-◌, ◌/◌, ◌≤◌, ◌<◌, ◌≡◌, refl, Status, if◌then◌else◌, ◌==◌,
  Option, some, List, [], ◌∷◌, ◌++◌, arith, ap, sym, ◌∙◌,
}
use blobly_emb.Flash.{
  Op, cr, Answer, base_of, bank1_addr, bank_size, sector_size, sector_of, next_sector, start_erase,
  erase_loop, after,
}
use blobly_emb.Flash.Starts.{started, started-append, bank-in, round-ok}

-- The driver returns `s`, having started these sectors.
abbrev pub Erases : Option (Status × List Op) → Status → List ℕ → Type 0
Erases r s l = (ops : List Op) × (r ≡ some (s, ops)) × (started ops ≡ l)

started-round :
    (b snb : ℕ) (a : Answer)
    → started (start_erase b snb a ++ (cr b 0 ∷ [])) ≡ (base_of b + snb * sector_size) ∷ []
unfolding started
started-round b snb a = ground arith

after-Erases :
    (pre : List Op) (x : ℕ) (r : Option (Status × List Op)) (s : Status) (l : List ℕ)
    → started pre ≡ x ∷ []
    → Erases r s l
    → Erases (after pre r) s (x ∷ l)
after-Erases pre x r s l p (ops, e, st) =
    (pre ++ ops, rw e refl, started-append pre ops ∙ ap₂ (λ (a b : List ℕ). a ++ b) p st)

-- One good round, and the sectors from the next one on
pub round-Erases :
    (fuel banks : ℕ) (ask : ℕ → Answer) (addr end : ℕ) (s : Status) (l : List ℕ)
    → banks ≤ 2
    → bank1_addr ≤ addr
    → addr < bank1_addr + banks * bank_size
    → addr < end
    → (ask addr).errs ≡ 0
    → Erases (erase_loop fuel banks ask (suc (addr / sector_size) * sector_size) end) s l
    → Erases (erase_loop (suc fuel) banks ask addr end) s ((addr / sector_size * sector_size) ∷ l)
round-Erases fuel banks ask addr end s l k lo hi lt good rest =
    let (b, e, at, next) = bank-in banks addr k lo hi in
    subst (λ r. Erases r s ((addr / sector_size * sector_size) ∷ l))
      (sym (round-ok fuel banks ask addr end b lt e good))
      (after-Erases (start_erase b (sector_of b addr) (ask addr) ++ (cr b 0 ∷ []))
        (addr / sector_size * sector_size) (erase_loop fuel banks ask (next_sector b addr) end) s l
        (started-round b (sector_of b addr) (ask addr) ∙ ap (λ (x : ℕ). x ∷ []) at)
        (subst (λ a. Erases (erase_loop fuel banks ask a end) s l) (sym next) rest))

-- The first `n` sectors, the first of them counted from `addr`, do not fail.
abbrev pub Good : (ℕ → Answer) → ℕ → ℕ → Type 0
Good ask addr n = (a : ℕ) → a / sector_size < addr / sector_size + n → (ask a).errs ≡ 0

-- The sector number `n`, counted from `addr`, fails.
abbrev pub Bad : (ℕ → Answer) → ℕ → ℕ → Type 0
Bad ask addr n = (a : ℕ) → a / sector_size ≡ addr / sector_size + n → (ask a).errs ≢ 0

-- How many sectors [addr, addr + size) overlaps
abbrev pub overlapped : ℕ → ℕ → ℕ
overlapped addr size =
    if size == 0 then 0 else suc ((addr + size - 1) / sector_size - addr / sector_size)
