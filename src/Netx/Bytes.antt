-- ===== src/Netx/Bytes.antt =====
-- The bytes of the byte pipe: what the receives hand over, against the packets that NetX hands out.
use blobly_emb.Prelude.{
  ℕ, zero, suc, ◌+◌, ◌-◌, ◌^◌, ◌<◌, ◌≡◌, refl, if◌then◌else◌, leb, Option, none, some, List, [],
  ◌∷◌, ◌++◌, slice, arith, ap, ap₂, sym, ◌∙◌,
}
use blobly_emb.Netx.Stream.{
  NxPacket, Received, packet, no_packet, failed, Op, listens, accepts, disconnects, unaccepts,
  relistens, wakes, receives, allocates, releases, sends, Result, Got, got, dropped, parked, before,
}

abbrev pub least : ℕ → ℕ → ℕ
least a b = if leb a b then a else b

-- nx_packet_data_extract_offset, at an offset inside the packet: as many bytes as there are and as the
-- buffer takes, and these at its front
abbrev pub Extracts : (NxPacket → ℕ → (ℕ → ℕ) → ℕ → (ℕ → ℕ) × ℕ) → Type 0
Extracts extract =
    (p : NxPacket) (off : ℕ) (buf : ℕ → ℕ) (max : ℕ)
    → off < p.length
    → ((extract p off buf max).1 ≡ least max (p.length - off))
      × ((i : ℕ) → i < (extract p off buf max).1 → (extract p off buf max).0 i ≡ p.bytes (off + i))

-- What is still to be handed over of the packet that is kept
abbrev pub rest_of : Option (NxPacket × ℕ) → List ℕ
rest_of none = []
rest_of (some (p, off)) = slice p.bytes off (p.length - off)

-- The bytes of the packets that the calls hand to the driver
abbrev pub contents : Op → List ℕ
contents (receives t (packet p)) = slice p.bytes 0 p.length
contents (receives t no_packet) = []
contents (receives t failed) = []
contents listens = []
contents accepts = []
contents disconnects = []
contents unaccepts = []
contents relistens = []
contents wakes = []
contents (allocates i) = []
contents (releases i) = []
contents (sends i) = []

abbrev pub arrived : List Op → List ℕ
arrived [] = []
arrived (op ∷ ops) = contents op ++ arrived ops

-- A packet is not empty, and shorter than 2 ^ 32.
abbrev pub PendingOk : Option (NxPacket × ℕ) → Type 0
PendingOk none = Unit
PendingOk (some (p, off)) = (off < p.length) × (p.length < 2 ^ 32)

abbrev pub ReceivedOk : Received → Type 0
ReceivedOk (packet p) = (0 < p.length) × (p.length < 2 ^ 32)
ReceivedOk no_packet = Unit
ReceivedOk failed = Unit

-- Of a call that returns a number of bytes: they and what is kept are what was kept and what arrived.
abbrev pub InOrder : List ℕ → Result → Got → Type 0
InOrder waiting r dropped = Unit
InOrder waiting r parked = Unit
InOrder waiting r (got n) =
    (slice r.buf 0 n ++ rest_of r.after.pending ≡ waiting ++ arrived r.ops)
    × PendingOk r.after.pending

pub early :
    (w : List ℕ) (x : Result) (op : Op) (v : Got)
    → contents op ≡ []
    → InOrder w x v
    → InOrder w (before (op ∷ []) x) v
early w x op dropped e h = tt
early w x op parked e h = tt
early w x op (got n) e (h, ok) = (h ∙ ap (λ (l : List ℕ). w ++ (l ++ arrived x.ops)) (sym e), ok)

pub slice_shift :
    (a b : ℕ → ℕ) (i j n : ℕ)
    → ((k : ℕ) → k < n → a (i + k) ≡ b (j + k))
    → slice a i n ≡ slice b j n
slice_shift a b i j zero h = refl
slice_shift a b i j (suc n) h =
    let e : a i ≡ b j = ap a (omega arith) ∙ h 0 (omega arith) ∙ ap b (omega arith) in
    ap₂ (λ (x : ℕ) (l : List ℕ). x ∷ l) e
      (slice_shift a b (suc i) (suc j) n
        (λ k lt. ap a (omega arith) ∙ h (suc k) (omega arith) ∙ ap b (omega arith)))

pub slice_split : (a : ℕ → ℕ) (i m n : ℕ) → slice a i m ++ slice a (i + m) n ≡ slice a i (m + n)
slice_split a i zero n =
    ap (λ k. slice a k n) {x = i + 0} {y = i} (omega arith)
    ∙ ap (λ k. slice a i k) {x = n} {y = 0 + n} (omega arith)
slice_split a i (suc m) n =
    ap (λ (l : List ℕ). a i ∷ l)
      (ap (λ k. slice a (suc i) m ++ slice a k n) (omega arith) ∙ slice_split a (suc i) m n)
    ∙ ap (λ k. slice a i k) {x = suc (m + n)} {y = suc m + n} (omega arith)
