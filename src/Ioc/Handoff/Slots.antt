-- ===== src/Ioc/Handoff/Slots.antt =====
-- What the exchanges and the copies do to the ownership of the three slots.
use blobly_emb.Prelude.{
  ℕ, zero, suc, ◌+◌, ◌*◌, ◌<◌, ◌≡◌, ◌≢◌, refl, sym, ap, ◌∙◌, true, update_self, update_ne, bit_or,
  low_bits, test_bit, arith, rows_apart,
}
use blobly_emb.Ioc.{ioc_fresh}
use blobly_emb.Ioc.Handoff.Defs.{Mem, with_byte, publish, exchange, Holds, Owned}

-- `wr | IOC_FRESH` is the index with the fresh flag.
pub bit_or-fresh : (w : ℕ) → w < 3 → bit_or w ioc_fresh ≡ w + 4
bit_or-fresh zero h = refl
bit_or-fresh (suc zero) h = refl
bit_or-fresh (suc (suc zero)) h = refl
bit_or-fresh (suc (suc (suc w))) h = absurd (omega arith)

module _ {m : Mem} {w r : ℕ} (own : Owned m w r) where
  open own use {w_lt, mid_lt, r_lt, w_mid, w_r, r_mid, held, latest, caught_up, behind, fresh_pos}

  -- A byte written into the writer's slot leaves the other slots as they are.
  Holds-with_byte :
      (s k i x : ℕ)
      → w ≢ s
      → i < m.ioc.size
      → Holds m s k
      → Holds (with_byte m (w * m.ioc.size + i) x) s k
  Holds-with_byte s k i x ne lt h j q =
      update_ne m.ioc.arena (w * m.ioc.size + i) x (s * m.ioc.size + j)
        (rows_apart w s m.ioc.size i j ne lt q)
      ∙ h j q

  pub with_byte-Owned : (i x : ℕ) → i < m.ioc.size → Owned (with_byte m (w * m.ioc.size + i) x) w r
  with_byte-Owned i x lt = record {
    w_lt = w_lt;
    mid_lt = mid_lt;
    r_lt = r_lt;
    w_mid = w_mid;
    w_r = w_r;
    r_mid = r_mid;
    held = Holds-with_byte r m.rd_k i x w_r lt held;
    latest = λ e. Holds-with_byte (low_bits m.ioc.shared 2) m.pub_n i x w_mid lt (latest e);
    caught_up = caught_up;
    behind = behind;
    fresh_pos = fresh_pos;
  }

  -- The private index of a side is no part of the shared slots.
  pub with_index-Owned :
      (x y : ℕ) → Owned (record m { ioc = record (m.ioc) { wr = x; rd = y } }) w r
  with_index-Owned x y = record {
    w_lt = w_lt;
    mid_lt = mid_lt;
    r_lt = r_lt;
    w_mid = w_mid;
    w_r = w_r;
    r_mid = r_mid;
    held = held;
    latest = latest;
    caught_up = caught_up;
    behind = behind;
    fresh_pos = fresh_pos;
  }

  -- The exchange of the writer: its slot goes to the middle, and the middle's becomes its own.
  pub publish-Owned :
      (v : ℕ → ℕ)
      → m.ioc.wr ≡ w
      → ((i : ℕ) → i < m.ioc.size → m.ioc.arena (w * m.ioc.size + i) ≡ v i)
      → Owned (publish m v) (low_bits m.ioc.shared 2) r
  publish-Owned v e full =
      let b : bit_or m.ioc.wr ioc_fresh ≡ w + 4 = rw e (bit_or-fresh w w_lt) in
      record {
        w_lt = mid_lt;
        mid_lt = rw b (omega arith);
        r_lt = r_lt;
        w_mid = rw b (omega arith);
        w_r = omega arith;
        r_mid = rw b (omega arith);
        held = λ i lt.
            held i lt
            ∙ sym (ap (λ (f : ℕ → ℕ). f i) (update_ne m.val (suc m.pub_n) v m.rd_k (omega arith)));
        latest = λ q i lt.
            let at : low_bits (bit_or m.ioc.wr ioc_fresh) 2 ≡ w = rw b (omega arith) in
            rw at (full i lt ∙ sym (ap (λ (f : ℕ → ℕ). f i) (update_self m.val (suc m.pub_n) v)));
        caught_up = λ q. ground arith;
        behind = omega arith;
        fresh_pos = λ q. omega arith;
      }

  -- The exchange of the reader: its slot goes to the middle, with the flag clear.
  pub exchange-Owned :
      m.ioc.rd ≡ r → test_bit m.ioc.shared 2 ≡ true → Owned (exchange m) w (low_bits m.ioc.shared 2)
  exchange-Owned e f = record {
    w_lt = w_lt;
    mid_lt = omega arith;
    r_lt = mid_lt;
    w_mid = omega arith;
    w_r = w_mid;
    r_mid = omega arith;
    held = latest f;
    latest = λ q i lt. absurd (ground arith);
    caught_up = λ q. refl;
    behind = omega arith;
    fresh_pos = λ q. fresh_pos f;
  }
