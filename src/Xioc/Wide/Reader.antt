-- ===== src/Xioc/Wide/Reader.antt =====
-- Every interleaving of the writer and the reader of a wide channel.
use blobly_emb.Prelude.{
  ℕ, suc, ◌+◌, ◌<◌, refl, sym, ap, ◌∙◌, update, update_self, update_ne, memcpy_lt, arith, grown,
}
use blobly_emb.Xioc.{slot_at}
use blobly_emb.Xioc.Wide.Defs.{
  Mem, Writer, Reader, WStep, RStep, nothing, known, load_latest, refuse_width, refuse_max,
  load_words, load_word, lapped, recheck, commit, return, WriterOk, MemOk, ReaderOk,
}
use blobly_emb.Xioc.Wide.Writer.{
  WStep-Kept, words_kept, WStep-Known, begun_grows, history_kept, dst_kept, rd_seq_kept,
}

module _ {seed : ℕ} {m : Mem} (dst_words : ℕ) (ok : MemOk seed m) where
  -- A step of the writer leaves what the reader has copied, as long as its recheck can pass.
  pub WStep-ReaderOk :
      {w w' : Writer} {m' : Mem}
      → WStep m w m' w'
      → WriterOk m w
      → (r : Reader) → ReaderOk seed dst_words m r
      → ReaderOk seed dst_words m' r
  WStep-ReaderOk st l Reader.idle k = tt
  WStep-ReaderOk st l Reader.called k = tt
  WStep-ReaderOk st l (Reader.got_latest n p) k = WStep-Known ok n p st l k
  WStep-ReaderOk st l (Reader.copying n p w tmp i) k = (
    WStep-Known ok n p st l k.0,
    k.1 ∙ words_kept st,
    k.2,
    k.3,
    λ near stamp j lt.
        let c = WStep-Kept ok n p st l k.0.0 k.0.1 k.0.2 near (rw (words_kept st) stamp) in
        k.4 c.near c.stamp j lt ∙ sym (c.history j),
  )
  WStep-ReaderOk st l (Reader.checked n p w tmp) k =
      let g = begun_grows ok st in
      (
        k.0,
        k.1,
        omega arith,
        k.3,
        λ near j lt. k.4 (omega arith) j lt ∙ sym (history_kept ok st p (omega arith) j),
      )
  WStep-ReaderOk st l (Reader.newer p) k =
      let g = begun_grows ok st in
      (
        sym (rd_seq_kept st) ∙ k.0,
        k.1,
        omega arith,
        λ near j lt.
            ap (λ (f : ℕ → ℕ). f j) (sym (dst_kept st))
            ∙ k.3 (omega arith) j lt
            ∙ sym (history_kept ok st p (omega arith) j),
      )

  pub RStep-ReaderOk :
      {r r' : Reader} {m' : Mem}
      → RStep dst_words m r m' r'
      → ReaderOk seed dst_words m r
      → ReaderOk seed dst_words m' r'
  RStep-ReaderOk RStep.call k = tt
  RStep-ReaderOk (nothing e) k = tt
  RStep-ReaderOk (known e) k = tt
  RStep-ReaderOk (load_latest ne fresh) k =
      let pos : 0 < m.done = ground (arith, ok.none_yet) in
      (ok.at_latest pos, pos, omega arith, rw (ok.at_latest pos) (ok.guarded pos))
  RStep-ReaderOk (refuse_width ne) k = tt
  RStep-ReaderOk (refuse_max lt) k = tt
  RStep-ReaderOk (load_words e le tmp) k =
      (k, refl, e, omega arith, λ near stamp j lt. absurd (omega arith))
  RStep-ReaderOk (load_word {n} {k = p} {w} {i} {tmp} lt) k = (
    k.0,
    k.1,
    k.2,
    lt,
    λ near stamp.
        grown (update tmp i (m.chan.cell (slot_at n w + suc i))) (m.val p) i
          (λ j q.
            update_ne tmp i (m.chan.cell (slot_at n w + suc i)) j (omega arith)
            ∙ k.4 near stamp j q)
          (update_self tmp i (m.chan.cell (slot_at n w + suc i))
            ∙ ap (λ (x : ℕ). m.chan.cell (slot_at n x + suc i)) k.1
            ∙ k.0.3 near stamp i (rw (← k.1) lt)),
  )
  RStep-ReaderOk (lapped le ne) k = tt
  RStep-ReaderOk (recheck {n} {w} le e) k =
      (k.0.0, k.0.1, k.0.2, k.2, λ near j lt. k.4 near (rw (← k.1) e) j (omega arith))
  RStep-ReaderOk (commit {n} {k = p} {w} {tmp}) k = (
    k.0,
    k.1,
    k.2,
    λ near j lt. let lt' : j < w = rw k.3 lt in memcpy_lt m.dst tmp w j lt' ∙ k.4 near j lt',
  )
  RStep-ReaderOk return k = tt

  pub RStep-MemOk : {r r' : Reader} {m' : Mem} → RStep dst_words m r m' r' → MemOk seed m'
  RStep-MemOk RStep.call = ok
  RStep-MemOk (nothing e) = ok
  RStep-MemOk (known e) = ok
  RStep-MemOk (load_latest ne fresh) = ok
  RStep-MemOk (refuse_width ne) = ok
  RStep-MemOk (refuse_max lt) = ok
  RStep-MemOk (load_words e le tmp) = ok
  RStep-MemOk (load_word lt) = ok
  RStep-MemOk (lapped le ne) = ok
  RStep-MemOk (recheck le e) = ok
  RStep-MemOk commit = record {
    seed_word = ok.seed_word;
    numbers = ok.numbers;
    order = ok.order;
    at_latest = ok.at_latest;
    none_yet = ok.none_yet;
    guarded = ok.guarded;
  }
  RStep-MemOk return = ok

  pub RStep-WriterOk :
      {r r' : Reader} {m' : Mem}
      → RStep dst_words m r m' r'
      → (w : Writer) → WriterOk m w
      → WriterOk m' w
  RStep-WriterOk RStep.call w k = k
  RStep-WriterOk (nothing e) w k = k
  RStep-WriterOk (known e) w k = k
  RStep-WriterOk (load_latest ne fresh) w k = k
  RStep-WriterOk (refuse_width ne) w k = k
  RStep-WriterOk (refuse_max lt) w k = k
  RStep-WriterOk (load_words e le tmp) w k = k
  RStep-WriterOk (load_word lt) w k = k
  RStep-WriterOk (lapped le ne) w k = k
  RStep-WriterOk (recheck le e) w k = k
  RStep-WriterOk commit Writer.idle k = k
  RStep-WriterOk commit (Writer.numbered v) k = k
  RStep-WriterOk commit (Writer.filling v i) k = k
  RStep-WriterOk commit Writer.valid k = k
  RStep-WriterOk return w k = k
