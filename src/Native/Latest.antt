-- ===== src/Native/Latest.antt =====
-- osal/osal_native.c: over every sequence of calls, the triple buffer hands on the latest value.
use blobly_emb.Prelude.{
  ℕ, Bool, true, false, ◌&&◌, ◌≡◌, ◌<◌, if_both, if◌then◌else◌, ltb, update, update_self, low_bits,
  test_bit, bit_or, arith, refl, ap, ap₂, ◌∙◌, dec_lt, List, [], ◌∷◌,
}
use blobly_emb.Native.{
  TripleSlot, db_dirty, vcopy, at_most, init_indices, pub_slot, take_slot, acq_fresh_slot,
}
use blobly_emb.Native.Calls.{
  IsPermuted, init_indices-IsPermuted, pub_slot-IsPermuted, take_slot-IsPermuted, dirty,
}

-- What was published last, and whether it was acquired since
pub record Latest : Type 0 where
  pub bytes : ℕ → ℕ
  pub len : ℕ
  pub is_new : Bool

-- The buffer of the latest value
abbrev newest : TripleSlot → ℕ
newest s = if test_bit s.shared 2 then low_bits s.shared 2 else s.rf

record Holds (s : TripleSlot) (a : Latest) : Type 0 where
  permuted : IsPermuted s
  is_new : test_bit s.shared 2 ≡ a.is_new
  len : s.len (newest s) ≡ a.len
  bytes : (i : ℕ) → i < a.len → s.buf (newest s) i ≡ a.bytes i

abbrev published : (ℕ → ℕ) → ℕ → Latest
published src len = record { bytes = src; len = len; is_new = true }

pub_slot-Holds :
    (s : TripleSlot) (a : Latest) (src : ℕ → ℕ) (len : ℕ)
    → Holds s a
    → Holds (pub_slot s src len) (published src len)
pub_slot-Holds s a src len h =
    let (w, r, m, word, wr, wm, rm) = h.permuted in
    let d = dirty s.wb w in
    let new : test_bit (bit_or s.wb db_dirty) 2 ≡ true = ground (arith, d) in
    let at : newest (pub_slot s src len) ≡ s.wb = ground (arith, d) in
    let buf_at : update s.buf s.wb (vcopy (s.buf s.wb) src len) s.wb ≡ vcopy (s.buf s.wb) src len =
      update_self s.buf s.wb (vcopy (s.buf s.wb) src len) in
    record {
      permuted = pub_slot-IsPermuted s src len h.permuted;
      is_new = new;
      len = ap (update s.len s.wb len) at ∙ update_self s.len s.wb len;
      bytes = λ i lt.
          ap (λ k. update s.buf s.wb (vcopy (s.buf s.wb) src len) k i) at
          ∙ ap (λ (f : ℕ → ℕ). f i) buf_at
          ∙ ground arith;
    }

take_slot-Holds :
    (s : TripleSlot) (a : Latest)
    → Holds s a
    → Holds (take_slot s) (record a { is_new = false })
      × ((take_slot s).rf ≡ newest s)
      × ((take_slot s).len ≡ s.len)
      × ((take_slot s).buf ≡ s.buf)
take_slot-Holds s a h =
    let (w, r, m, word, wr, wm, rm) = h.permuted in
    let rf_at : (take_slot s).rf ≡ newest s = ground arith in
    let clean : test_bit (take_slot s).shared 2 ≡ false = ground arith in
    let at : newest (take_slot s) ≡ newest s = ground (arith, clean, rf_at) in
    let len_same : (take_slot s).len ≡ s.len =
      if_both (λ (t : TripleSlot). t.len ≡ s.len) (test_bit s.shared 2) refl refl in
    let buf_same : (take_slot s).buf ≡ s.buf =
      if_both (λ (t : TripleSlot). t.buf ≡ s.buf) (test_bit s.shared 2) refl refl in
    (
      record {
        permuted = take_slot-IsPermuted s h.permuted;
        is_new = clean;
        len = ap₂ (λ (f : ℕ → ℕ) k. f k) len_same at ∙ h.len;
        bytes = λ i lt. ap₂ (λ (f : ℕ → ℕ → ℕ) k. f k i) buf_same at ∙ h.bytes i lt;
      },
      rf_at,
      len_same,
      buf_same,
    )

-- A call of `blob_ioc_pub` with its bytes and length, or of one of the two readers
pub data Call : Type 0 where
  publish : (src : ℕ → ℕ) (len : ℕ) → Call
  acquire : Call

abbrev pub calls : TripleSlot → List Call → TripleSlot
calls s [] = s
calls s (publish src len ∷ cs) = calls (pub_slot s src len) cs
calls s (acquire ∷ cs) = calls (take_slot s) cs

-- The value that the calls leave, of the value before them
abbrev pub latest : Latest → List Call → Latest
latest a [] = a
latest a (publish src len ∷ cs) = latest (record { bytes = src; len = len; is_new = true }) cs
latest a (acquire ∷ cs) = latest (record a { is_new = false }) cs

calls-Holds :
    (s : TripleSlot) (a : Latest) (cs : List Call) → Holds s a → Holds (calls s cs) (latest a cs)
calls-Holds s a [] h = h
calls-Holds s a (publish src len ∷ cs) h =
    calls-Holds (pub_slot s src len) (published src len) cs (pub_slot-Holds s a src len h)
calls-Holds s a (acquire ∷ cs) h =
    calls-Holds (take_slot s) (record a { is_new = false }) cs (take_slot-Holds s a h).0

-- What the reader's buffer of a fresh channel holds
abbrev pub unpublished : TripleSlot → Latest
unpublished s = record { bytes = s.buf 2; len = s.len 2; is_new = false }

fresh-Holds : (s : TripleSlot) → Holds (init_indices s) (unpublished s)
fresh-Holds s = record {
  permuted = init_indices-IsPermuted s;
  is_new = refl;
  len = refl;
  bytes = λ i lt. refl;
}

-- On a channel after `init_db_indices` and any sequence of whole calls, `blob_ioc_acq_fresh` copies
-- the value published last, as much of it as the caller has room for, and leaves the rest of the
-- caller's buffer. It returns 1 exactly if what it copied is not empty and no reader has been called
-- since that value was published.
pub acq_fresh_latest :
    (s : TripleSlot) (cs : List Call) (dst : ℕ → ℕ) (max_len : ℕ)
    → let ((fresh, out), s') = acq_fresh_slot (calls (init_indices s) cs) dst max_len in
      let a = latest (unpublished s) cs in
      (fresh ≡ (a.is_new && ltb 0 (at_most a.len max_len)))
      × ((i : ℕ) → out i ≡ vcopy dst a.bytes (at_most a.len max_len) i)
acq_fresh_latest s cs dst max_len =
    let now = calls (init_indices s) cs in
    let a = latest (unpublished s) cs in
    let h = calls-Holds (init_indices s) (unpublished s) cs (fresh-Holds s) in
    let (h', rf_at, len_same, buf_same) = take_slot-Holds now a h in
    let len_at : (take_slot now).len (take_slot now).rf ≡ a.len =
      ap₂ (λ (f : ℕ → ℕ) k. f k) len_same rf_at ∙ h.len in
    (
      ap₂ (λ b n. b && ltb 0 (at_most n max_len)) h.is_new len_at,
      λ i.
          let byte_at : (take_slot now).buf (take_slot now).rf i ≡ now.buf (newest now) i =
            ap₂ (λ (f : ℕ → ℕ → ℕ) k. f k i) buf_same rf_at in
          ap (λ n. vcopy dst ((take_slot now).buf (take_slot now).rf) (at_most n max_len) i) len_at
          ∙ elim (dec_lt i (at_most a.len max_len)) [
            | yes lt ↦ let byte = h.bytes i ground arith in ground (arith, byte_at, byte)
            | no ge ↦ ground arith
          ],
    )
