-- ===== src/Xioc.antt =====
-- boards/common/xioc.h: the channel of the latest value between two cores, by plain stores only.
pub mod Wide
pub mod Pair
mod Tests
use blobly_emb.Prelude.{
  ℕ, ◌+◌, ◌-◌, ◌*◌, ◌/◌, ◌%◌, Bool, true, false, ◌&&◌, ◌||◌, not, if◌then◌else◌, ltb, leb, ◌==◌,
  add32, update, memcpy,
}

-- XIOC_SLOTS, XIOC_MAX_WORDS
abbrev pub xioc_slots : ℕ
xioc_slots = 4

abbrev pub xioc_max_words : ℕ
xioc_max_words = 16

-- `xioc_slot_t`, `xioc_t` and the reader's `xioc_rd_t`
pub record Slot : Type 0 where
  pub seq : ℕ
  pub a : ℕ
  pub b : ℕ

pub record Xioc : Type 0 where
  pub slot : ℕ → Slot
  pub latest : ℕ
  pub wseq : ℕ

pub record Rd : Type 0 where
  pub seq : ℕ
  pub a : ℕ
  pub b : ℕ

-- `n = ++c->wseq`, once more where that is 0.
unfoldable pub next_seq : ℕ → ℕ
next_seq wseq = if add32 wseq 1 == 0 then add32 0 1 else add32 wseq 1

-- `xioc_init`
unfoldable pub init : Xioc → Xioc
init c = record {
  slot = λ i. if ltb i xioc_slots then record { seq = 0; a = 0; b = 0 } else c.slot i;
  latest = 0;
  wseq = 0;
}

-- `xioc_write`: invalidate, payload, validate, publish
unfoldable pub write : Xioc → ℕ → ℕ → Xioc
write c a b =
    let n = next_seq c.wseq in
    let invalid = update c.slot (n % xioc_slots) (record (c.slot (n % xioc_slots)) { seq = 0 }) in
    let filled =
      update invalid (n % xioc_slots) (record (invalid (n % xioc_slots)) { a = a; b = b }) in
    let valid = update filled (n % xioc_slots) (record (filled (n % xioc_slots)) { seq = n }) in
    record { slot = valid; latest = n; wseq = n }

-- `xioc_read`: whether `rd` is newer, and `rd`
unfoldable pub read : Xioc → Rd → Bool × Rd
read c rd =
    let n = c.latest in
    if n == 0 || n == rd.seq
    then (false, rd)
    else let s = c.slot (n % xioc_slots) in
      if not (s.seq == n) then (false, rd) else (true, record { seq = n; a = s.a; b = s.b })

-- `xioc_n_t`: the slots are rows of one sequence word and `words` payload words in `cell`.
pub record XiocN : Type 0 where
  pub latest : ℕ
  pub wseq : ℕ
  pub words : ℕ
  pub cell : ℕ → ℕ

-- `xioc_n_slot`, as an index of `cell`
abbrev pub slot_at : ℕ → ℕ → ℕ
slot_at n words = n % xioc_slots * (1 + words)

-- `xioc_n_init`
unfoldable pub init_n : XiocN → ℕ → ℕ → XiocN
init_n c words seq_seed = record {
  latest = 0;
  wseq = seq_seed;
  words = words;
  cell = memcpy c.cell (λ i. 0) (xioc_slots * (1 + words));
}

-- A copy of `n` words to `cell + off`
abbrev pub store_words : (ℕ → ℕ) → ℕ → (ℕ → ℕ) → ℕ → ℕ → ℕ
store_words cell off src n j = if leb off j && ltb j (off + n) then src (j - off) else cell j

-- `xioc_n_write`
unfoldable pub write_n : XiocN → (ℕ → ℕ) → XiocN
write_n c src =
    let n = next_seq c.wseq in
    let at = slot_at n c.words in
    let invalid = update c.cell at 0 in
    let filled = store_words invalid (at + 1) src c.words in
    record c { latest = n; wseq = n; cell = update filled at n }

-- `xioc_n_read`: the result, `*rd_seq` and `dst`
unfoldable pub read_n : XiocN → ℕ → (ℕ → ℕ) → ℕ → Bool × ℕ × (ℕ → ℕ)
read_n c rd_seq dst dst_words =
    let n = c.latest in
    let w = c.words in
    if n == 0 || n == rd_seq
    then (false, rd_seq, dst)
    else if not (w == dst_words) || ltb xioc_max_words w
    then (false, rd_seq, dst)
    else if not (c.cell (slot_at n w) == n)
    then (false, rd_seq, dst)
    else (true, n, memcpy dst (λ i. c.cell (slot_at n w + 1 + i)) w)
