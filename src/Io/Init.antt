-- ===== src/Io/Init.antt =====
-- driver/io/io_stm32.c: `blob_io_init` as a whole, and the start of the converter.
use blobly_emb.Prelude.{
  ℕ, zero, suc, Status, ok, fail, ◌≡◌, ◌⊎◌, inl, inr, ◌<◌, Bool, true, false, not, ◌&&◌,
  if◌then◌else◌, if_both, ltb, ◌==◌, Option, List, [], ◌∷◌, ◌++◌, arith, refl, subst, sym, ◌∙◌, ◌↔◌,
  ℕ_discrete, Bool-cases,
}
use blobly_emb.Io.Config.{Point, Table, io_max, io_pwm}
use blobly_emb.Io.Gpio.{Write, init_writes}
use blobly_emb.Io.Pwm.{PwmMap, Pwm, pwm_setup, note_fault, setup_one, setup_all}

-- `IO_WAIT(cond, iters)` where the poll `k` of the register gives `cond k`
unfoldable pub io_wait : (ℕ → Bool) → ℕ → ℕ → Bool
io_wait cond k zero = false
io_wait cond k (suc iters) = elim (cond k) [ true ↦ true | false ↦ io_wait cond (suc k) iters ]

-- What the hardware answers to the polls of the four waits of `adc_dma_start`
pub record Polls : Type 0 where
  pub calibrated : ℕ → Bool
  pub dma_off : ℕ → Bool
  pub adc_ready : ℕ → Bool
  pub scan_done : ℕ → Bool

-- The result of `adc_dma_start`, and `g_adc_first_ready` after it
abbrev pub adc_dma_start : Polls → Status × Bool
adc_dma_start h =
    if not (io_wait h.calibrated 0 1000000)
    then (ok, false)
    else if not (io_wait h.dma_off 0 100000)
    then (ok, false)
    else if not (io_wait h.adc_ready 0 1000000)
    then (ok, false)
    else (ok, io_wait h.scan_done 0 2000000)

-- The first loop of `blob_io_init`: the points in order, each with the writes to its pad
unfoldable pub pad_writes : (ℕ → Point) → ℕ → List (ℕ × List Write)
pad_writes pt zero = []
pad_writes pt (suc n) =
    let before = pad_writes pt n in
    if (pt n).configured then before ++ ((n, init_writes (pt n)) ∷ []) else before

-- What `blob_io_init` returns and leaves: the PWM tables, and `g_adc_first_ready`
abbrev pub with_pwm : Pwm → Status × Bool → Status × (Pwm × Bool)
with_pwm s (status, ready) = (status, (s, ready))

abbrev pub start_adc : ℕ → Polls → Bool → Bool × Pwm → Status × (Pwm × Bool)
start_adc adc_n h ready (true, s) = (fail, (s, ready))
start_adc adc_n h ready (false, s) =
    with_pwm s (if ltb 0 adc_n then adc_dma_start h else (ok, ready))

unfoldable pub io_init :
    (ℕ → ℕ → Option PwmMap) → Table → Pwm → Polls → Bool → Status × (Pwm × Bool)
io_init map t s h ready = start_adc t.adc_n h ready (setup_all map t.pt s io_max)

-- A PWM point below `n` whose setup fails, in the state that the points before it leave
abbrev pub FailsBelow : (ℕ → ℕ → Option PwmMap) → (ℕ → Point) → Pwm → ℕ → Type 0
FailsBelow map pt s n =
    (i : ℕ) × (i < n)
    × ((pt i).configured ≡ true)
    × ((pt i).kind ≡ io_pwm)
    × ((pwm_setup map (setup_all map pt s i).1 i (pt i)).0.0 ≡ fail)

note_fault_iff :
    (fault : Bool) (r : Status × Pwm)
    → ((note_fault fault r).0 ≡ true) ↔ ((fault ≡ true) ⊎ (r.0 ≡ fail))
note_fault_iff fault (ok, s) = (λ e. inl e, λ e. ground arith)
note_fault_iff fault (fail, s) = (λ e. inr refl, λ e. refl)

setup_one_iff :
    (map : ℕ → ℕ → Option PwmMap) (p : Point) (i : ℕ) (r : Bool × Pwm)
    → ((setup_one map p i r).0 ≡ true) ↔ (
        (r.0 ≡ true)
        ⊎ ((p.configured ≡ true) × (p.kind ≡ io_pwm) × ((pwm_setup map r.1 i p).0.0 ≡ fail)))
setup_one_iff map p i (fault, s) =
    let (only, enough) = note_fault_iff fault (pwm_setup map s i p).0 in
    elim (Bool-cases (p.configured && p.kind == io_pwm)) [
      | inl on ↦ (λ e. ground arith, λ e. ground arith)
      | inr off ↦ (λ e. ground arith, λ e. ground arith)
    ]

setup_all_iff :
    (map : ℕ → ℕ → Option PwmMap) (pt : ℕ → Point) (s : Pwm) (n : ℕ)
    → ((setup_all map pt s n).0 ≡ true) ↔ FailsBelow map pt s n
unfolding setup_all
setup_all_iff map pt s zero = (λ e. ground arith, λ (i, lt, on, pwm, failed). absurd (omega arith))
setup_all_iff map pt s (suc n) =
    let before = setup_all map pt s n in
    let (only, enough) = setup_one_iff map (pt n) n before in
    let (ih_only, ih_enough) = setup_all_iff map pt s n in
    (
      λ e. elim (only e) [
        | inl earlier ↦
            let (i, lt, on, pwm, failed) = ih_only earlier in (i, omega arith, on, pwm, failed)
        | inr (on, pwm, failed) ↦ (n, omega arith, on, pwm, failed)
      ],
      λ (i, lt, on, pwm, failed). elim (ℕ_discrete i n) [
        | yes last ↦ enough (
            inr (
              subst
                (λ k.
                  ((pt k).configured ≡ true)
                  × ((pt k).kind ≡ io_pwm)
                  × ((pwm_setup map (setup_all map pt s k).1 k (pt k)).0.0 ≡ fail))
                last (on, pwm, failed)))
        | no earlier ↦ enough (inl (ih_enough (i, omega arith, on, pwm, failed)))
      ],
    )

-- A converter that does not answer leaves `g_adc_first_ready` clear and is no failure.
adc_start_ok : (h : Polls) (ready on : Bool) → (if on then adc_dma_start h else (ok, ready)).0 ≡ ok
adc_start_ok h ready on =
    let Ok : Status × Bool → Type 0 = λ r. r.0 ≡ ok in
    if_both Ok on
      (if_both Ok (not (io_wait h.calibrated 0 1000000)) refl (
        if_both Ok (not (io_wait h.dma_off 0 100000)) refl
          (if_both Ok (not (io_wait h.adc_ready 0 1000000)) refl refl)))
      refl

with_pwm-status : (s : Pwm) (r : Status × Bool) → (with_pwm s r).0 ≡ r.0
with_pwm-status s (status, ready) = refl

start_adc_iff :
    (adc_n : ℕ) (h : Polls) (ready : Bool) (r : Bool × Pwm)
    → ((start_adc adc_n h ready r).0 ≡ fail) ↔ (r.0 ≡ true)
start_adc_iff adc_n h ready (true, s) = (λ e. refl, λ e. refl)
start_adc_iff adc_n h ready (false, s) = (
  λ e.
      let fine =
        with_pwm-status s (if ltb 0 adc_n then adc_dma_start h else (ok, ready))
        ∙ adc_start_ok h ready (ltb 0 adc_n) in
      let clash : ok ≡ fail = sym fine ∙ e in ground arith,
  λ e. ground arith,
)

-- `blob_io_init` fails exactly if the setup of a configured PWM point fails, in the state that the
-- setups of the points before it leave. All of them are tried, and a converter that does not answer
-- does not make it fail.
pub init_fails_iff :
    (map : ℕ → ℕ → Option PwmMap) (t : Table) (s : Pwm) (h : Polls) (ready : Bool)
    → ((io_init map t s h ready).0 ≡ fail) ↔ FailsBelow map t.pt s io_max
unfolding io_init
init_fails_iff map t s h ready =
    let (only, enough) = start_adc_iff t.adc_n h ready (setup_all map t.pt s io_max) in
    let (some_fails, fault) = setup_all_iff map t.pt s io_max in
    (λ e. some_fails (only e), λ e. enough (fault e))
