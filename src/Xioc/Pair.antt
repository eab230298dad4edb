-- ===== src/Xioc/Pair.antt =====
-- boards/common/xioc.h, called by one side at a time.
use blobly_emb.Prelude.{ℕ, ◌≤◌, ◌<◌, ◌≡◌, ◌≢◌, true, false, arith}
use blobly_emb.Xioc.{Xioc, Rd, XiocN, next_seq, write, read, write_n, read_n, xioc_max_words}

next_seq_pos : (w : ℕ) → next_seq w ≢ 0
unfolding next_seq
next_seq_pos w = ground arith

-- A read after a write returns the values written, once: with the reader's own result it then
-- reports nothing new. The reader has to have seen another sequence number before.
pub read-write :
    (c : Xioc) (a b : ℕ) (rd : Rd)
    → rd.seq ≢ next_seq c.wseq
    → let (new, rd') = read (write c a b) rd in
      (new ≡ true) × (rd'.a ≡ a) × (rd'.b ≡ b) × ((read (write c a b) rd').0 ≡ false)
unfolding read write
read-write c a b rd ne =
    let pos = next_seq_pos c.wseq in (ground arith, ground arith, ground arith, ground arith)

-- The wide channel: a read after a write copies the words written, if the reader asks for the
-- channel's width; with another width it reports nothing and copies nothing.
pub read_n-write_n :
    (c : XiocN) (src : ℕ → ℕ) (rd_seq : ℕ) (dst : ℕ → ℕ) (dst_words : ℕ)
    → rd_seq ≢ next_seq c.wseq
    → c.words ≤ xioc_max_words
    → let (new, seq, out) = read_n (write_n c src) rd_seq dst dst_words in
      (c.words ≡ dst_words
        → (new ≡ true) × (seq ≡ next_seq c.wseq) × ((i : ℕ) → i < c.words → out i ≡ src i))
      × (c.words ≢ dst_words → (new ≡ false) × ((i : ℕ) → out i ≡ dst i))
unfolding read_n write_n
read_n-write_n c src rd_seq dst dst_words ne fit =
    let pos = next_seq_pos c.wseq in
    (
      λ e. (ground arith, ground arith, λ i lt. ground arith),
      λ e. (ground arith, λ i. ground arith),
    )
