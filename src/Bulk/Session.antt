-- ===== src/Bulk/Session.antt =====
-- Which side holds each buffer of the pool, along every sequence of calls that keeps the rules of
-- ownership: a side publishes only what it was loaned, and releases only what it took.
use blobly_emb.Prelude.{
  ℕ, ◌+◌, ◌^◌, ◌<◌, ◌≡◌, length, count, sub32, ltb, if◌then◌else◌, List, ◌∷◌, ◌++◌, map, none, some,
}
use Prim.Native.Nat.{◌∣◌}
use blobly_emb.Bulk.{Bulk, loan, publish, take, release}
use blobly_emb.Bulk.Rings.{window}

-- The free ring and the ready ring, oldest entry first.
abbrev pub free_list : Bulk → List ℕ
free_list b = window b.free_ring b.nbuf b.f_tail (sub32 b.f_head b.f_tail)

abbrev pub ready_list : Bulk → List ℕ
ready_list b = window b.ready_ring b.nbuf b.r_tail (sub32 b.r_head b.r_tail)

-- What waits for the consumer: each index with its length.
abbrev pub with_len : (ℕ → ℕ) → ℕ → ℕ × ℕ
with_len lens i = (i, lens i)

abbrev pub queue : Bulk → List (ℕ × ℕ)
queue b = map (with_len b.len_arr) (ready_list b)

-- A pool with the indices that the producer and the consumer hold.
pub record Session : Type 0 where
  pub pool : Bulk
  pub loaned : List ℕ
  pub taken : List ℕ

-- In how many places the index `i` stands.
abbrev pub places : Session → ℕ → ℕ
places s i =
    count i (free_list s.pool) + count i (ready_list s.pool) + count i s.loaned + count i s.taken

pub record IsValid (s : Session) : Type 0 where
  pub nbuf_pos : 0 < s.pool.nbuf
  pub nbuf_small : s.pool.nbuf < 2 ^ 32
  pub divides : s.pool.nbuf ∣ 2 ^ 32
  pub r_head_word : s.pool.r_head < 2 ^ 32
  pub r_tail_word : s.pool.r_tail < 2 ^ 32
  pub f_head_word : s.pool.f_head < 2 ^ 32
  pub f_tail_word : s.pool.f_tail < 2 ^ 32
  pub total :
      sub32 s.pool.f_head s.pool.f_tail
        + sub32 s.pool.r_head s.pool.r_tail
        + length s.loaned
        + length s.taken
      ≡ s.pool.nbuf
  pub once : (i : ℕ) → places s i ≡ (if ltb i s.pool.nbuf then 1 else 0)

pub data Step (s : Session) : Session → Type 0 where
  loan_some :
      (i : ℕ)
      → (loan s.pool).0 ≡ some i
      → Step s (record s { pool = (loan s.pool).1; loaned = i ∷ s.loaned })
  loan_none : (loan s.pool).0 ≡ none → Step s (record s { pool = (loan s.pool).1 })
  publish_one :
      (xs : List ℕ) (i : ℕ) (ys : List ℕ) (len : ℕ)
      → s.loaned ≡ xs ++ i ∷ ys
      → Step s (record s { pool = publish s.pool i len; loaned = xs ++ ys })
  take_some :
      (i len : ℕ)
      → (take s.pool).0 ≡ some (i, len)
      → Step s (record s { pool = (take s.pool).1; taken = i ∷ s.taken })
  take_none : (take s.pool).0 ≡ none → Step s (record s { pool = (take s.pool).1 })
  release_one :
      (xs : List ℕ) (i : ℕ) (ys : List ℕ)
      → s.taken ≡ xs ++ i ∷ ys
      → Step s (record s { pool = release s.pool i; taken = xs ++ ys })

pub data Reach (s : Session) : Session → Type 0 where
  here : Reach s s
  next : {t u : Session} → Reach s t → Step t u → Reach s u
