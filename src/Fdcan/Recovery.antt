-- ===== src/Fdcan/Recovery.antt =====
-- driver/can/can_fdcan.c, the recovery from bus-off over the polls of a session.
use blobly_emb.Prelude.{
  ◌∙◌, ℕ, ◌+◌, ◌%◌, ◌^◌, ◌<◌, ◌≡◌, pos, Bool, true, false, not, ◌&&◌, if◌then◌else◌, some, update,
  arith, ap, add32, List, [], ◌∷◌,
}
use blobly_emb.Fdcan.{Config, Can, inst, busoff_poll}
use blobly_emb.Fdcan.Io.{close, recv_inst, note_overrun, after_overrun}

-- What a poll sees: PSR.BO, and CCCR.INIT as the core has left it.
pub record Seen : Type 0 where
  pub bo : Bool
  pub init : Bool

-- The core sets both by itself.
abbrev pub observe : Can → ℕ → Seen → Can
observe d h o = record d {
  reg = update d.reg h (record (d.reg h) { psr_bo = o.bo; init = o.init });
}

-- A session's polls
abbrev pub poll_all : Can → ℕ → List Seen → Can
poll_all d h [] = d
poll_all d h (o ∷ os) = poll_all (busoff_poll (observe d h o) h) h os

-- The polls at which PSR.BO is clear and was set at the poll before (`was`, for the first).
abbrev pub recoveries : Bool → List Seen → ℕ
recoveries was [] = 0
recoveries was (o ∷ os) = (if was && not o.bo then 1 else 0) + recoveries o.bo os

one_poll :
    (d : Can) (h : ℕ) (o : Seen)
    → (d.port h).closed ≡ false
    → let p = (busoff_poll (observe d h o) h).port h in
      (p.closed ≡ false)
      × (p.recovering ≡ o.bo)
      × (p.busoff_rec ≡ (
          if (d.port h).recovering && not o.bo
          then add32 (d.port h).busoff_rec 1
          else (d.port h).busoff_rec))
unfolding busoff_poll
one_poll d h o open_ = (ground arith, ground arith, ground arith)

-- On a bus that is open, the tally grows by one for each time the core comes back from bus-off,
-- however often it was polled and had INIT latched again in between.
pub recoveries_counted :
    (d : Can) (h : ℕ) (os : List Seen)
    → (d.port h).closed ≡ false
    → (d.port h).busoff_rec < 2 ^ 32
    → ((poll_all d h os).port h).busoff_rec
      ≡ ((d.port h).busoff_rec + recoveries (d.port h).recovering os) % 2 ^ 32
recoveries_counted d h [] open_ word = ground arith
recoveries_counted d h (o ∷ os) open_ word =
    let d' = busoff_poll (observe d h o) h in
    let (still, rec, tally) = one_poll d h o open_ in
    let rest = recoveries_counted d' h os still ground (arith, tally) in
    let same = ap (λ b. recoveries b os) rec in ground (arith, rest, same, tally)

-- A poll that finds an open bus off starts the recovery: INIT is clear after it. The poll after
-- `blob_can_close` leaves INIT set.
pub init_after_poll :
    (cfg : Config) (d : Can) (h : ℕ)
    → ((d.port h).closed ≡ false → (d.reg h).psr_bo ≡ true → ((busoff_poll d h).reg h).init ≡ false)
      × (inst cfg (pos h) ≡ some h → ((busoff_poll (close cfg (pos h) d) h).reg h).init ≡ true)
unfolding busoff_poll
init_after_poll cfg d h = (λ open_ off. ground arith, λ e. ground arith)

poll-overrun :
    (d : Can) (h : ℕ)
    → (((busoff_poll d h).reg h).rf0l ≡ (d.reg h).rf0l)
      × (((busoff_poll d h).port h).rx_lost ≡ (d.port h).rx_lost)
unfolding busoff_poll
poll-overrun d h = (ground arith, ground arith)

note_overrun_set :
    (d : Can) (h : ℕ)
    → (d.reg h).rf0l ≡ true
    → (((note_overrun d h).port h).rx_lost ≡ add32 (d.port h).rx_lost 1)
      × (((note_overrun d h).reg h).rf0l ≡ false)
note_overrun_set d h e = (ground arith, ground arith)

note_overrun_clear :
    (d : Can) (h : ℕ)
    → (d.reg h).rf0l ≡ false
    → ((note_overrun d h).port h).rx_lost ≡ (d.port h).rx_lost
note_overrun_clear d h e = ground arith

recv-noted :
    (h : ℕ) (buf : ℕ → ℕ) (d : Can)
    → let n = note_overrun (busoff_poll d h) h in
      (((recv_inst h buf d).1.port h).rx_lost ≡ (n.port h).rx_lost)
      × (((recv_inst h buf d).1.reg h).rf0l ≡ (n.reg h).rf0l)
unfolding recv_inst
recv-noted h buf d = read (note_overrun (busoff_poll d h) h)
  where
    read :
        (n : Can)
        → (((after_overrun h buf n).1.port h).rx_lost ≡ (n.port h).rx_lost)
          × (((after_overrun h buf n).1.reg h).rf0l ≡ (n.reg h).rf0l)
    read n = (ground arith, ground arith)

-- An overrun of the Rx FIFO that the core flags is counted once and acknowledged, whether or not a
-- frame is then read; without the flag the tally stays.
pub overrun_counted :
    (h : ℕ) (buf : ℕ → ℕ) (d : Can)
    → let d' = (recv_inst h buf d).1 in
      ((d.reg h).rf0l ≡ true
        → ((d'.port h).rx_lost ≡ add32 (d.port h).rx_lost 1) × ((d'.reg h).rf0l ≡ false))
      × ((d.reg h).rf0l ≡ false → (d'.port h).rx_lost ≡ (d.port h).rx_lost)
overrun_counted h buf d =
    let (flag, lost) = poll-overrun d h in
    let (kept, rf0l) = recv-noted h buf d in
    let q = busoff_poll d h in
    (
      λ e.
          let (tally, clear) = note_overrun_set q h (flag ∙ e) in
          (kept ∙ tally ∙ ap (λ n. add32 n 1) lost, rf0l ∙ clear),
      λ e. kept ∙ note_overrun_clear q h (flag ∙ e) ∙ lost,
    )
