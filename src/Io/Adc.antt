-- ===== src/Io/Adc.antt =====
-- driver/io/io_stm32.c: the regular sequence of ADC1 and the reads of converted values.
use blobly_emb.Prelude.{
  ℕ, zero, suc, ◌+◌, ◌-◌, ◌/◌, ◌%◌, ℤ, pos, negsuc, Bool, true, not, ◌&&◌, ◌||◌, if◌then◌else◌, leb,
  ◌==◌, Option, none, some, bit_or, low_bits,
}
use blobly_emb.Io.Config.{Point, Table, io_max, io_adc}

-- SQR1 to SQR4 by their fields: the number in L, and six-bit field `f` of register `reg`, where the
-- first field of SQR1 is L's.
pub record Sqr : Type 0 where
  pub l : ℕ
  pub field : ℕ → ℕ → ℕ

-- The register and the field of the rank `r`
abbrev pub reg_of : ℕ → ℕ
reg_of r = if leb r 4 then 0 else 1 + (r - 5) / 5

abbrev pub field_of : ℕ → ℕ
field_of r = if leb r 4 then r else (r - 5) % 5

-- `sqr[reg] |= ch5 << pos`
abbrev pub or_field : Sqr → ℕ → ℕ → ℕ → Sqr
or_field q reg f c = record q {
  field = λ a b. if a == reg && b == f then bit_or (q.field a b) c else q.field a b;
}

-- One round of the loop over the points
abbrev pub put_rank : Sqr → Point → Option ℕ → Sqr
put_rank q p none = q
put_rank q p (some slot) =
    let r = slot + 1 in
    if leb (reg_of r) 3 then or_field q (reg_of r) (field_of r) (low_bits p.adc_ch 5) else q

abbrev pub put_point : Sqr → Point → Sqr
put_point q p = if p.configured && p.kind == io_adc then put_rank q p p.adc_slot else q

-- The loop over the first `n` points
unfoldable pub sequence : (ℕ → Point) → ℕ → ℕ → Sqr
sequence pt adc_n zero = record { l = adc_n - 1; field = λ a b. 0 }
sequence pt adc_n (suc n) = put_point (sequence pt adc_n n) (pt n)

-- What `blob_io_adc_read` returns, with the DMA's array
abbrev pub dma_at : (ℕ → ℕ) → Option ℕ → ℕ
dma_at dma none = 0
dma_at dma (some slot) = dma slot

unfoldable pub adc_read : Table → ℤ → (ℕ → ℕ) → ℕ
adc_read t (negsuc k) dma = 0
adc_read t (pos ch) dma =
    if leb io_max ch || not (t.pt ch).configured then 0 else dma_at dma (t.pt ch).adc_slot

-- `blob_io_adc_read_checked`: the value, and `g_adc_first_ready` after the call; `tcif` is the
-- DMA's flag of a complete scan.
abbrev pub checked_at : (ℕ → ℕ) → Bool → Bool → Option ℕ → Option ℕ × Bool
checked_at dma ready tcif none = (none, ready)
checked_at dma ready tcif (some slot) =
    if not ready && not tcif then (none, ready) else (some (dma slot), true)

unfoldable pub adc_read_checked : Table → ℤ → (ℕ → ℕ) → Bool → Bool → Option ℕ × Bool
adc_read_checked t (negsuc k) dma ready tcif = (none, ready)
adc_read_checked t (pos ch) dma ready tcif =
    if leb io_max ch || not (t.pt ch).configured
    then (none, ready)
    else checked_at dma ready tcif (t.pt ch).adc_slot
