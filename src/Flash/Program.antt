-- ===== src/Flash/Program.antt =====
-- `bflash_program`: what its writes leave in the cells of a controller that behaves as documented.
use blobly_emb.Prelude.{
  ℕ, Bool, true, false, not, zero, suc, ◌+◌, ◌*◌, ◌-◌, ◌/◌, ◌%◌, ◌≤◌, ◌<◌, ◌≡◌, refl, if◌then◌else◌,
  some, List, [], ◌∷◌, ◌++◌, Status, ok, ap, ◌∙◌, arith, dec_lt, add32, fun_ext,
}
use blobly_emb.Flash.{
  Op, keyr, cr, Answer, bank_of, bank1_addr, bank_size, word_at, stores, unlock, cr_pg, cr_psize_32,
  then_program, program_round, program_rounds, bflash_program, key1, key2,
}
use blobly_emb.Flash.Words.{Bytes}
use blobly_emb.Flash.Controller.{
  Hw, run, spelled, patched, Documented, patched-spelled, stores-words, written_join,
}

-- The writes of a good round
abbrev pub round_ops : ℕ → Answer → ℕ → (ℕ → ℕ) → List Op
round_ops b a addr src =
    unlock b a ++ (cr b (cr_pg + cr_psize_32) ∷ stores addr src 0 8) ++ ([] ++ (cr b 0 ∷ []))

module _ {S : Type 0} (hw : Hw S) where
  run-append : (ops rest : List Op) (s : S) → run hw (ops ++ rest) s ≡ run hw rest (run hw ops s)
  run-append [] rest s = refl
  run-append (op ∷ ops) rest s = run-append ops rest (hw.react s op)

  -- The driver reads LOCK as it stands when a round begins.
  abbrev pub Told : ℕ → (ℕ → Answer) → ℕ → (ℕ → ℕ) → ℕ → ℕ → S → Type 0
  Told banks ask addr bytes off zero s = Unit
  Told banks ask addr bytes off (suc n) s =
      let a = add32 addr off in
      (b : ℕ)
      → bank_of banks a ≡ some b
      → ((ask a).locked ≡ not (hw.is_open s b))
        × Told banks ask addr bytes (off + 32) n
            (run hw (round_ops b (ask a) a (λ i. bytes (off + i))) s)

  module _ (banks : ℕ) (doc : Documented banks hw) where
    run-unlock :
        (b : ℕ) (l : Bool) (s : S)
        → l ≡ not (hw.is_open s b)
        → let t = run hw (if l then keyr b key1 ∷ keyr b key2 ∷ [] else []) s in
          (hw.is_open t b ≡ true) × (hw.cell t ≡ hw.cell s)
    run-unlock b true s e = (
      doc.keys_open s b (ground arith),
      doc.keys_keep (hw.react s (keyr b key1)) b key2 ∙ doc.keys_keep s b key1,
    )
    run-unlock b false s e = (ground arith, refl)

    run-round_ops :
        (b : ℕ) (a : Answer) (addr : ℕ) (src : ℕ → ℕ) (s : S)
        → Bytes src
        → bank_of banks addr ≡ some b
        → addr % 32 ≡ 0
        → a.locked ≡ not (hw.is_open s b)
        → ((j : ℕ) → addr ≤ j → j < addr + 32 → hw.cell s j ≡ 255)
        → hw.cell (run hw (round_ops b a addr src) s) ≡ patched addr src 0 32 (hw.cell s)
    run-round_ops b a addr src s bytes bank al locked erased =
        let (open_now, kept) = run-unlock b a.locked s locked in
        let u = run hw (unlock b a) s in
        let v = hw.react u (cr b (cr_pg + cr_psize_32)) in
        let same : hw.cell v ≡ hw.cell s = doc.cr_keeps u b (cr_pg + cr_psize_32) refl ∙ kept in
        let w = run hw (stores addr src 0 8) v in
        let written =
          ap (λ (ops : List Op). hw.cell (run hw ops v)) (stores-words addr src 0 8)
          ∙ doc.programmed v b addr (word_at src) bank al
              (doc.cr_sets u b (cr_pg + cr_psize_32) open_now refl refl)
              (λ j lo hi. ap (λ (f : ℕ → ℕ). f j) same ∙ erased j lo hi) in
        ap hw.cell (
          run-append (unlock b a ++ (cr b (cr_pg + cr_psize_32) ∷ stores addr src 0 8))
            (cr b 0 ∷ []) s
          ∙ ap (λ (t : S). run hw (cr b 0 ∷ []) t)
              (run-append (unlock b a) (cr b (cr_pg + cr_psize_32) ∷ stores addr src 0 8) s))
        ∙ doc.cr_keeps w b 0 refl
        ∙ written
        ∙ ap (λ (m : ℕ → ℕ). patched addr (spelled (word_at src)) 0 32 m) same
        ∙ patched-spelled addr 32 src (hw.cell s) bytes

round-good :
    (ask : ℕ → Answer) (addr : ℕ) (src : ℕ → ℕ) (b : ℕ) (rest : Status × List Op)
    → (ask addr).errs ≡ 0
    → program_round ask addr src (some b) rest ≡ then_program (round_ops b (ask addr) addr src) rest
round-good ask addr src b rest e = rw e refl

offset_written :
    (addr off : ℕ) (bytes mem : ℕ → ℕ)
    → patched (addr + off) (λ i. bytes (off + i)) 0 32 mem ≡ patched addr bytes off (off + 32) mem
offset_written addr off bytes mem = fun_ext (λ a. elim (dec_lt a (addr + off)) [
  | yes lt ↦ ground arith
  | no ge ↦
      let e : bytes (off + (a - (addr + off))) ≡ bytes (a - addr) = ap bytes (omega arith) in
      ground (arith, e)
])

-- The rounds succeed, and leave `want` in the cells.
abbrev pub Leaves : {S : Type 0} → Hw S → Status × List Op → S → (ℕ → ℕ) → Type 0
Leaves hw r s want = (ops : List Op) × (r ≡ (ok, ops)) × (hw.cell (run hw ops s) ≡ want)

pub in_bank :
    (banks a : ℕ)
    → banks ≤ 2
    → bank1_addr ≤ a
    → a < bank1_addr + banks * bank_size
    → (b : ℕ) × (bank_of banks a ≡ some b)
in_bank banks a k lo hi = elim (dec_lt a (bank1_addr + bank_size)) [
  | yes p ↦ (0, ground arith)
  | no q ↦ (1, ground arith)
]

rounds-Leaves :
    {S : Type 0} (hw : Hw S) (banks : ℕ) (ask : ℕ → Answer) (addr : ℕ) (bytes : ℕ → ℕ) (off n : ℕ)
    (s : S)
    → Documented banks hw
    → banks ≤ 2
    → bank1_addr ≤ addr
    → addr + off + 32 * n ≤ bank1_addr + banks * bank_size
    → (addr + off) % 32 ≡ 0
    → Bytes bytes
    → ((a : ℕ) → (ask a).errs ≡ 0)
    → Told hw banks ask addr bytes off n s
    → ((a : ℕ) → addr + off ≤ a → a < addr + off + 32 * n → hw.cell s a ≡ 255)
    → Leaves hw
        (program_rounds banks ask addr bytes off n)
        s
        (patched addr bytes off (off + 32 * n) (hw.cell s))
unfolding program_rounds
rounds-Leaves hw banks ask addr bytes off zero s doc k lo hi al b good told erased =
    ([], refl, fun_ext (λ a. ground arith))
rounds-Leaves hw banks ask addr bytes off (suc n) s doc k lo hi al by good told erased =
    let w : add32 addr off ≡ addr + off = omega arith in
    let (b, e) = in_bank banks (add32 addr off) k (omega (arith, w)) (omega (arith, w)) in
    let (locked, later) = told b e in
    let src = λ (i : ℕ). bytes (off + i) in
    let here = round_ops b (ask (add32 addr off)) (add32 addr off) src in
    let mid = run hw here s in
    let left : hw.cell mid ≡ patched addr bytes off (off + 32) (hw.cell s) =
      run-round_ops hw banks doc b (ask (add32 addr off)) (add32 addr off) src s (λ i. by (off + i))
        e (omega (arith, w)) locked (λ j lo hi. erased j (omega (arith, w)) (omega (arith, w)))
      ∙ ap (λ a. patched a src 0 32 (hw.cell s)) w
      ∙ offset_written addr off bytes (hw.cell s) in
    let (ops, r, m) =
      rounds-Leaves hw banks ask addr bytes (off + 32) n mid doc k lo (omega arith) (omega arith) by
        good later
        (λ j lo hi.
          ap (λ (f : ℕ → ℕ). f j) left
          ∙ (let was = erased j (omega arith) (omega arith) in ground (arith, was))) in
    (
      here ++ ops,
      ap
            (λ o.
              program_round ask (add32 addr off) src o
                (program_rounds banks ask addr bytes (off + 32) n))
            e
          ∙ round-good ask (add32 addr off) src b (program_rounds banks ask addr bytes (off + 32) n)
              (good (add32 addr off))
          ∙ ap (λ p. then_program here p) r,
      ap hw.cell (run-append hw here ops s)
          ∙ m
          ∙ ap (λ (c : ℕ → ℕ). patched addr bytes (off + 32) (off + 32 + 32 * n) c) left
          ∙ ap
              (λ to.
                patched addr bytes (off + 32) to (patched addr bytes off (off + 32) (hw.cell s)))
              (omega arith)
          ∙ written_join addr bytes off (off + 32) (off + 32 * suc n) (hw.cell s) (omega arith)
              (omega arith),
    )

pub aligned :
    (banks : ℕ) (ask : ℕ → Answer) (addr : ℕ) (bytes : ℕ → ℕ) (len : ℕ)
    → addr % 32 ≡ 0
    → len % 32 ≡ 0
    → bflash_program banks ask addr bytes len ≡ program_rounds banks ask addr bytes 0 (len / 32)
aligned banks ask addr bytes len al ll = ground arith

-- An aligned range in the flash, `len` a multiple of 32, that is erased, the data being bytes, on a
-- controller as documented whose LOCK the driver reads as it stands, no round failing:
-- `bflash_program` is 1, and its writes leave the data in the range, and the cells elsewhere alone.
pub program_writes :
    {S : Type 0} (hw : Hw S) (banks : ℕ) (ask : ℕ → Answer) (addr : ℕ) (bytes : ℕ → ℕ) (len : ℕ)
    (s : S)
    → Documented banks hw
    → banks ≤ 2
    → bank1_addr ≤ addr
    → addr + len ≤ bank1_addr + banks * bank_size
    → addr % 32 ≡ 0
    → len % 32 ≡ 0
    → Bytes bytes
    → ((a : ℕ) → (ask a).errs ≡ 0)
    → Told hw banks ask addr bytes 0 (len / 32) s
    → ((a : ℕ) → addr ≤ a → a < addr + len → hw.cell s a ≡ 255)
    → Leaves hw (bflash_program banks ask addr bytes len) s (patched addr bytes 0 len (hw.cell s))
program_writes hw banks ask addr bytes len s doc k lo hi al ll by good told erased =
    let (ops, e, m) =
      rounds-Leaves hw banks ask addr bytes 0 (len / 32) s doc k lo (omega arith) (omega arith) by
        good told (λ a lo hi. erased a (omega arith) (omega arith)) in
    (
      ops,
      aligned banks ask addr bytes len al ll ∙ e,
      m ∙ ap (λ to. patched addr bytes 0 to (hw.cell s)) (omega arith),
    )
