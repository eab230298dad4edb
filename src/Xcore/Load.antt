-- ===== src/Xcore/Load.antt =====
-- The load that a satellite core reports, as the owner reads it.
use blobly_emb.Prelude.{
  ℕ, ◌+◌, ◌*◌, ◌/◌, ◌%◌, ◌^◌, ◌<◌, ◌≡◌, ◌≢◌, arith, ap, ◌∙◌, update, update_self, pos, negsuc,
}
use blobly_emb.Xcore.{Busy, busy_begin, busy_pub, busy_watch, busy_get, next_count, low_half}

count_pos : (n : ℕ) → n < 2 ^ 32 → next_count n % 2 ^ 16 ≢ 0
count_pos n lt = ground arith

halves :
    (pm n : ℕ)
    → pm < 2 ^ 16
    → ((pm + n % 2 ^ 16 * 2 ^ 16) % 2 ^ 16 ≡ pm)
      × ((pm + n % 2 ^ 16 * 2 ^ 16) / 2 ^ 16 ≡ n % 2 ^ 16)
halves pm n lt = (omega arith, omega arith)

-- What the owner reads of a slot that holds a share and a count
slot_reads :
    (b : Busy) (core pm n : ℕ)
    → core < 8
    → pm < 0xFFFF
    → b.slot core ≡ pm + n % 2 ^ 16 * 2 ^ 16
    → n % 2 ^ 16 ≢ 0
    → n % 2 ^ 16 ≢ b.seen core
    → (busy_get (busy_watch b) (pos core) ≡ pos pm)
      × (busy_get (busy_watch (busy_watch b)) (pos core) ≡ negsuc 0)
slot_reads b core pm n lt small e nz ne =
    let (low, high) = halves pm n (omega arith) in
    (
      ground (arith, ap (λ k. k % 2 ^ 16) e, ap (λ k. k / 2 ^ 16) e),
      ground (arith, ap (λ k. k % 2 ^ 16) e, ap (λ k. k / 2 ^ 16) e),
    )

unreported :
    (b : Busy) (core : ℕ)
    → (busy_get (busy_begin b) (pos core) ≡ negsuc 0)
      × (busy_get (busy_watch (busy_begin b)) (pos core) ≡ negsuc 0)
unreported b core = (ground arith, ground arith)

-- A share below 0xFFFF that one of the eight satellite cores publishes, the low half of its count not
-- the one that the owner saw last:
-- after the next window the owner reads that share, after a further window in which the core
-- publishes nothing, -1, and at an owner boot -1, its first window included.
pub busy_reported :
    (b : Busy) (core pm : ℕ)
    → core < 8
    → pm < 0xFFFF
    → b.published < 2 ^ 32
    → next_count b.published % 2 ^ 16 ≢ b.seen core
    → let p = busy_pub b core (pos pm) in
      (busy_get (busy_watch p) (pos core) ≡ pos pm)
      × (busy_get (busy_watch (busy_watch p)) (pos core) ≡ negsuc 0)
      × (busy_get (busy_begin (busy_watch p)) (pos core) ≡ negsuc 0)
      × (busy_get (busy_watch (busy_begin (busy_watch p))) (pos core) ≡ negsuc 0)
busy_reported b core pm lt small word ne =
    let next = record b {
      published = next_count b.published;
      slot = update b.slot core (low_half (pos pm) + next_count b.published % 2 ^ 16 * 2 ^ 16);
    } in
    let there : busy_pub b core (pos pm) ≡ next = ground arith in
    let whole : low_half (pos pm) + next_count b.published % 2 ^ 16 * 2 ^ 16
        ≡ pm + next_count b.published % 2 ^ 16 * 2 ^ 16 =
      omega arith in
    let (now, late) =
      slot_reads next core pm (next_count b.published) lt small
        (update_self b.slot core (low_half (pos pm) + next_count b.published % 2 ^ 16 * 2 ^ 16)
          ∙ whole)
        (count_pos b.published word) ne in
    let (none_yet, none_still) = unreported (busy_watch (busy_pub b core (pos pm))) core in
    (
      ap (λ (p : Busy). busy_get (busy_watch p) (pos core)) there ∙ now,
      ap (λ (p : Busy). busy_get (busy_watch (busy_watch p)) (pos core)) there ∙ late,
      none_yet,
      none_still,
    )
