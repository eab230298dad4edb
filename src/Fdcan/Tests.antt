-- ===== src/Fdcan/Tests.antt =====
-- The driver at concrete inputs.
use blobly_emb.Prelude.{
  ℕ, ap, some, ◌-◌, ◌*◌, ◌+◌, ◌<◌, ◌≡◌, ◌%◌, ◌^◌, Bool, true, false, arith, refl, List, [], ◌∷◌,
  if◌then◌else◌, ◌==◌,
}
use blobly_emb.Fdcan.{Timing, Regs, Can, region_off, elmt_words}
use blobly_emb.Fdcan.Lengths.{dlc_to_len, len_to_dlc}
use blobly_emb.Fdcan.Io.{put_element, sendable, Received, recv_inst}
use blobly_emb.Fdcan.Frames.{frame_round_trip}
use blobly_emb.Fdcan.Recovery.{Seen, poll_all, recoveries, recoveries_counted}

abbrev zeroes : Timing
zeroes = record { sjw = 0; tseg1 = 0; tseg2 = 0; brp = 0 }

abbrev regs : Regs
regs = record {
  init = false;
  cce = false;
  fdoe = false;
  brse = false;
  nbtp = zeroes;
  dbtp = zeroes;
  rrfe = false;
  rrfs = false;
  sidfc = 0;
  f0sa = 0;
  f0s = 0;
  f0ds = 0;
  tbsa = 0;
  tfqs = 0;
  tbds = 0;
  rf0l = true;
  psr_bo = true;
  tfqf = false;
  tfqpi = 3;
  txbar = 0;
  txbrp = 0;
  f0fl = 1;
  f0gi = 2;
  rxf0a = 0;
}

abbrev can : Can
can = record {
  reg = λ i. regs;
  ram = λ j. j;
  port = λ i. record { rx_lost = 7; closed = false; recovering = false; busoff_rec = 0; fd = true };
}

-- A frame waits at the get index.
abbrev filled : Can
filled = record can {
  reg = λ i. record regs { f0fl = 1; f0gi = 2 };
  ram = λ j. put_element (λ w. 0) 0 false 1000 (λ i. i) 12 1 (j - (region_off 0 + 2 * elmt_words));
}

-- "1", with both waits over at once
abbrev one : ℕ → ℕ
one i = if i == 0 then 49 else 0

abbrev at_once : ℕ → Bool
at_once t = true

frame_round_trip_example :
    (m : Received) × ((recv_inst 0 (λ i. 0) filled).0 ≡ some m)
    × (((recv_inst 0 (λ i. 0) filled).1.reg 0).rxf0a ≡ (filled.reg 0).f0gi)
    × (m.id ≡ 1000)
    × (m.len ≡ 12)
    × (m.flags ≡ 1)
    × ((i : ℕ) → i < 12 → m.bytes i ≡ i % 2 ^ 8)
unfolding sendable dlc_to_len len_to_dlc
frame_round_trip_example =
    frame_round_trip filled 0 false true 1000 (λ i. i) 12 1 (λ i. 0) refl (omega arith)
      (omega arith) (omega arith) (omega arith)
      (λ i lt. ap (put_element (λ w. 0) 0 false 1000 (λ i. i) 12 1) (omega arith))

-- Off the bus for two polls, back, and off again.
abbrev session : List Seen
session =
    record { bo = true; init = true }
    ∷ record { bo = true; init = true }
    ∷ record { bo = false; init = false }
    ∷ record { bo = true; init = true }
    ∷ []

recoveries_counted_example :
    ((poll_all can 1 session).port 1).busoff_rec ≡ (0 + recoveries false session) % 2 ^ 32
recoveries_counted_example = recoveries_counted can 1 session refl (omega arith)
