-- ===== src/Doip/Idle.antt =====
-- driver/eth/doip_idle.h: the inactivity timers of a DoIP connection.
use blobly_emb.Prelude.{
  ℕ, ◌-◌, ◌^◌, ◌<◌, ◌≡◌, ◌≢◌, Bool, true, false, not, ◌&&◌, if◌then◌else◌, ◌==◌, leb, add32, sub32,
  arith,
}

-- `doip_idle_t`
pub record Idle : Type 0 where
  pub initial : ℕ
  pub general : ℕ
  pub conn_start : ℕ
  pub last_activity : ℕ
  pub activated : Bool

-- `doip_idle_accept`
unfoldable pub accept : Idle → ℕ → Idle
accept s now = record s { conn_start = now; last_activity = now; activated = false }

-- `doip_idle_rx`
unfoldable pub rx : Idle → ℕ → Idle
rx s now = record s { last_activity = now }

-- `doip_idle_left`
unfoldable pub left : Idle → ℕ → ℕ
left s now =
    let base = if s.activated then s.last_activity else s.conn_start in
    let lim = if s.activated then s.general else s.initial in
    let el = sub32 now base in if leb lim el then 0 else lim - el

-- `doip_idle_tx`
unfoldable pub tx : Idle → ℕ → Idle
tx s now = if s.activated && not (left s now == 0) then record s { last_activity = now } else s

-- `doip_idle_activated`
unfoldable pub activate : Idle → Bool → Idle
activate s on = record s { activated = on }

-- The events of a connection, each at its tick.
pub data Event : Type 0 where
  received : (now : ℕ) → Event
  sent : (now : ℕ) → Event

abbrev pub handle : Idle → Event → Idle
handle s (received now) = rx s now
handle s (sent now) = tx s now

-- Before routing activation the deadline runs from the accept: bytes received and answers sent
-- move it at no time, across the wrap of the tick counter included.
pub initial_is_absolute :
    (s : Idle) (start now : ℕ) (e : Event)
    → let a = accept s start in left (handle a e) now ≡ left a now
unfolding accept rx tx left
initial_is_absolute s start now (received t) = ground arith
initial_is_absolute s start now (sent t) = ground arith

-- `dt` ticks after the accept, `dt` less than a round of the counter, the connection has
-- `initial - dt` ticks left, and none from `initial` on.
pub left-accept :
    (s : Idle) (start dt : ℕ)
    → start < 2 ^ 32
    → dt < 2 ^ 32
    → left (accept s start) (add32 start dt) ≡ s.initial - dt
unfolding accept left
left-accept s start dt hs hd = ground arith

-- After the activation, bytes received give the whole general time again, whatever was left.
pub left-rx :
    (s : Idle) (now dt : ℕ)
    → s.activated ≡ true
    → now < 2 ^ 32
    → dt < 2 ^ 32
    → left (rx s now) (add32 now dt) ≡ s.general - dt
unfolding rx left
left-rx s now dt on hn hd = ground arith

-- An answer sent restarts the general time exactly if the deadline has not passed; a late answer
-- changes nothing.
pub left-tx :
    (s : Idle) (now dt : ℕ)
    → s.activated ≡ true
    → now < 2 ^ 32
    → dt < 2 ^ 32
    → (left s now ≢ 0 → left (tx s now) (add32 now dt) ≡ s.general - dt)
      × (left s now ≡ 0 → tx s now ≡ s)
unfolding tx left
left-tx s now dt on hn hd = (λ ne. ground arith, λ z. ground arith)

-- The activation is counted from the bytes that carried it: noticed `late` ticks after they came,
-- it leaves `general - late` ticks.
pub left-activate :
    (s : Idle) (now late : ℕ)
    → now < 2 ^ 32
    → late < 2 ^ 32
    → left (activate (rx s now) true) (add32 now late) ≡ s.general - late
unfolding activate rx left
left-activate s now late hn hl = ground arith
