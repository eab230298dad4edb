-- ===== src/Trace/Ring.antt =====
-- boards/common/trace_hooks.c: the ring of records.
use blobly_emb.Prelude.{
  ℕ, ◌+◌, ◌-◌, ◌*◌, ◌/◌, ◌%◌, ◌^◌, Bool, true, false, ◌&&◌, if◌then◌else◌, ltb, ◌==◌, update, add32,
  low_bits,
}

-- RING_CAP
abbrev pub ring_cap : ℕ
ring_cap = 256

-- The arguments of `push_rec`
pub record Event : Type 0 where
  pub kind : ℕ
  pub id : ℕ
  pub info : ℕ
  pub start_us : ℕ
  pub dur_us : ℕ

-- `g_ring`, `g_head`, `g_capturing`
pub record Recorder : Type 0 where
  pub ring : ℕ → ℕ → ℕ
  pub head : ℕ
  pub capturing : Bool

-- The eight bytes of a record; `|` of disjoint fields is `+`.
abbrev pub entity : Event → ℕ
entity e = low_bits e.kind 2 * 2 ^ 14 + low_bits e.id 14

abbrev pub encode : Event → ℕ → ℕ
encode e j =
    if j == 0
    then entity e % 2 ^ 8
    else if j == 1
    then entity e / 2 ^ 8 % 2 ^ 8
    else if j == 2
    then e.info
    else if j == 3
    then e.start_us % 2 ^ 8
    else if j == 4
    then e.start_us / 2 ^ 8 % 2 ^ 8
    else if j == 5
    then e.start_us / 2 ^ 16 % 2 ^ 8
    else if j == 6
    then e.dur_us % 2 ^ 8
    else e.dur_us / 2 ^ 8 % 2 ^ 8

-- `push_rec`
unfoldable pub push_rec : Recorder → Event → Recorder
push_rec r e =
    if r.capturing
    then record r { ring = update r.ring (r.head % ring_cap) (encode e); head = add32 r.head 1 }
    else r

-- `trace_arm`
unfoldable pub arm : Recorder → Recorder
arm r = record r { head = 0; capturing = true }

-- `trace_freeze`
unfoldable pub freeze : Recorder → Recorder
freeze r = record r { capturing = false }

-- `trace_snapshot` into `out`: the number of records, and `out`; the recorder is as before.
abbrev pub snapshot_count : Recorder → ℕ → ℕ
snapshot_count r max =
    let n = (if ltb ring_cap r.head then ring_cap else r.head) in if ltb max n then max else n

unfoldable pub snapshot : Recorder → (ℕ → ℕ → ℕ) → ℕ → ℕ × (ℕ → ℕ → ℕ)
snapshot r out max =
    let n = snapshot_count r max in
    (n, λ i j. if ltb i n && ltb j 8 then r.ring (add32 (r.head - n) i % ring_cap) j else out i j)
