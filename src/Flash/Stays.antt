-- ===== src/Flash/Stays.antt =====
-- `bflash_program` at every input: where it stores.
use blobly_emb.Prelude.{
  ℕ, zero, suc, ◌+◌, ◌*◌, ◌/◌, ◌%◌, ◌^◌, ◌≤◌, ◌≡◌, refl, Bool, false, Status, Option, none, some,
  List, [], ◌∷◌, ◌++◌, subst, arith, add32, if_both, if_cases, not, ◌||◌, ◌==◌,
}
use blobly_emb.Flash.{
  Op, keyr, cr, ccr, store, Answer, bank_of, bank1_addr, bank_size, stores, unlock, wait_done,
  program_round, program_rounds, bflash_program, cr_pg, cr_psize_32,
}

-- The stores are to words of [from, to).
abbrev pub Stores : ℕ → ℕ → List Op → Type 0
Stores from to [] = Unit
Stores from to (store x w ∷ ops) = (from ≤ x) × (x + 4 ≤ to) × Stores from to ops
Stores from to (keyr b v ∷ ops) = Stores from to ops
Stores from to (cr b v ∷ ops) = Stores from to ops
Stores from to (ccr b v ∷ ops) = Stores from to ops

Stores-append :
    (from to : ℕ) (ops rest : List Op)
    → Stores from to ops
    → Stores from to rest
    → Stores from to (ops ++ rest)
Stores-append from to [] rest h k = k
Stores-append from to (store x w ∷ ops) rest (a, b, h) k =
    (a, b, Stores-append from to ops rest h k)
Stores-append from to (keyr b v ∷ ops) rest h k = Stores-append from to ops rest h k
Stores-append from to (cr b v ∷ ops) rest h k = Stores-append from to ops rest h k
Stores-append from to (ccr b v ∷ ops) rest h k = Stores-append from to ops rest h k

stores-Stores :
    (from to dst : ℕ) (src : ℕ → ℕ) (i n : ℕ)
    → from ≤ dst
    → dst + 4 * (i + n) ≤ to
    → Stores from to (stores dst src i n)
stores-Stores from to dst src i zero lo hi = tt
stores-Stores from to dst src i (suc n) lo hi =
    (omega arith, omega arith, stores-Stores from to dst src (suc i) n lo (omega arith))

-- A round at an address of the flash, whatever its answers
round-Stores :
    (from to : ℕ) (ask : ℕ → Answer) (addr : ℕ) (src : ℕ → ℕ) (ob : Option ℕ)
    (rest : Status × List Op)
    → from ≤ addr
    → addr + 32 ≤ to
    → Stores from to rest.1
    → Stores from to (program_round ask addr src ob rest).1
round-Stores from to ask addr src none rest lo hi h = tt
round-Stores from to ask addr src (some b) rest lo hi h =
    if_both (λ (r : Status × List Op). Stores from to r.1) (wait_done b (ask addr)).0
      (Stores-append from to ops rest.1 here h) here
  where
    ops : List Op
    ops =
        unlock b (ask addr)
        ++ (cr b (cr_pg + cr_psize_32) ∷ stores addr src 0 8)
        ++ ((wait_done b (ask addr)).1 ++ (cr b 0 ∷ []))

    here : Stores from to ops
    here =
        Stores-append from to
          (unlock b (ask addr) ++ (cr b (cr_pg + cr_psize_32) ∷ stores addr src 0 8))
          ((wait_done b (ask addr)).1 ++ (cr b 0 ∷ []))
          (Stores-append from to (unlock b (ask addr))
            (cr b (cr_pg + cr_psize_32) ∷ stores addr src 0 8)
            (if_both (λ (l : List Op). Stores from to l) (ask addr).locked tt tt)
            (stores-Stores from to addr src 0 8 lo hi))
          (Stores-append from to (wait_done b (ask addr)).1 (cr b 0 ∷ [])
            (if_both (λ (r : Bool × List Op). Stores from to r.1) ((ask addr).errs == 0) tt tt) tt)

-- Of a word of the flash: it is a whole one, of a flash whose end is a flash word's.
word_fits :
    (banks a b : ℕ)
    → banks ≤ 2
    → 1 ≤ banks
    → bank_of banks a ≡ some b
    → a % 32 ≡ 0
    → (bank1_addr ≤ a) × (a + 32 ≤ bank1_addr + banks * bank_size)
word_fits banks a b k l e al = ground arith

-- The words that the rounds store to lie in [from, to).
abbrev Fit : ℕ → ℕ → ℕ → ℕ → ℕ → ℕ → Type 0
Fit banks from to addr off n =
    (o b : ℕ)
    → off ≤ o
    → o + 32 ≤ off + 32 * n
    → o % 32 ≡ off % 32
    → bank_of banks (add32 addr o) ≡ some b
    → (from ≤ add32 addr o) × (add32 addr o + 32 ≤ to)

rounds-Stores :
    (from to banks : ℕ) (ask : ℕ → Answer) (addr : ℕ) (bytes : ℕ → ℕ) (off n : ℕ)
    → Fit banks from to addr off n
    → Stores from to (program_rounds banks ask addr bytes off n).1
unfolding program_rounds
rounds-Stores from to banks ask addr bytes off zero fit = tt
rounds-Stores from to banks ask addr bytes off (suc n) fit =
    at_bank (bank_of banks (add32 addr off)) refl (program_rounds banks ask addr bytes (off + 32) n)
      (rounds-Stores from to banks ask addr bytes (off + 32) n
        (λ o b le l m e. fit o b (omega arith) (omega arith) (omega arith) e))
  where
    at_bank :
        (ob : Option ℕ)
        → bank_of banks (add32 addr off) ≡ ob
        → (rest : Status × List Op) → Stores from to rest.1
        → Stores from to (program_round ask (add32 addr off) (λ i. bytes (off + i)) ob rest).1
    at_bank none e rest h = tt
    at_bank (some b) e rest h =
        let (lo, hi) = fit off b (omega arith) (omega arith) refl e in
        round-Stores from to ask (add32 addr off) (λ i. bytes (off + i)) (some b) rest lo hi h

in_flash :
    (banks addr n : ℕ)
    → banks ≤ 2
    → 1 ≤ banks
    → addr % 32 ≡ 0
    → Fit banks bank1_addr (bank1_addr + banks * bank_size) addr 0 n
in_flash banks addr n k l al o b le lt m e = word_fits banks (add32 addr o) b k l e (omega arith)

in_range : (banks addr n : ℕ) → addr + 32 * n ≤ 2 ^ 32 → Fit banks addr (addr + 32 * n) addr 0 n
in_range banks addr n w o b le lt m e = (omega arith, omega arith)

-- At every address, aligned or not, of a range that does not wrap, with any data and length, whatever the
-- flash answers, with one bank or two: the words that `bflash_program` stores to lie in the flash and
-- in the range.
pub program_stays :
    (banks : ℕ) (ask : ℕ → Answer) (addr : ℕ) (bytes : ℕ → ℕ) (len : ℕ)
    → banks ≤ 2
    → 1 ≤ banks
    → addr + len ≤ 2 ^ 32
    → Stores bank1_addr (bank1_addr + banks * bank_size) (bflash_program banks ask addr bytes len).1
      × Stores addr (addr + len) (bflash_program banks ask addr bytes len).1
program_stays banks ask addr bytes len k l w =
    if_cases
      (λ (r : Status × List Op).
        Stores bank1_addr (bank1_addr + banks * bank_size) r.1 × Stores addr (addr + len) r.1)
      (not (addr % 32 == 0) || not (len % 32 == 0)) (λ _. (tt, tt))
      (λ e.
        let (al, ll) = both addr len e in
        (
          rounds-Stores bank1_addr (bank1_addr + banks * bank_size) banks ask addr bytes 0
              (len / 32) (in_flash banks addr (len / 32) k l al),
          subst (λ to. Stores addr to (program_rounds banks ask addr bytes 0 (len / 32)).1)
              {x = addr + 32 * (len / 32)} (omega arith)
              (rounds-Stores addr (addr + 32 * (len / 32)) banks ask addr bytes 0 (len / 32)
                (in_range banks addr (len / 32) (omega arith))),
        ))
  where
    both :
        (addr len : ℕ)
        → (not (addr % 32 == 0) || not (len % 32 == 0)) ≡ false
        → (addr % 32 ≡ 0) × (len % 32 ≡ 0)
    both addr len e = (ground arith, ground arith)
