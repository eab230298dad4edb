-- ===== src/Netx/Pipe.antt =====
-- Any number of receives of the byte pipe.
use mathlib.Core.List.{append-nil, append_assoc}
use blobly_emb.Prelude.{ℕ, ◌≡◌, Option, none, some, List, [], ◌∷◌, ◌++◌, slice, ap, sym, ◌∙◌, subst}
use blobly_emb.Netx.Stream.{NxPacket, Stream, Asked, Result, Got, got, dropped, parked, stream_recv}
use blobly_emb.Netx.Bytes.{Extracts, rest_of, arrived, PendingOk, ReceivedOk, InOrder}
use blobly_emb.Netx.Order.{recv-InOrder}

pub record Pull : Type 0 where
  pub asked : Asked
  pub buf : ℕ → ℕ
  pub max : ℕ
  pub timeout : ℕ

abbrev pub AllReceivedOk : List Pull → Type 0
AllReceivedOk [] = Unit
AllReceivedOk (x ∷ xs) = ReceivedOk x.asked.received × AllReceivedOk xs

-- The bytes that the calls return, those that arrive during them, and the state after; `none` where a call
-- drops the connection or does not return
abbrev pub then_pull :
    Result → Got → Option (List ℕ × List ℕ × Stream) → Option (List ℕ × List ℕ × Stream)
then_pull r (got n) none = none
then_pull r (got n) (some (d, a, s)) = some (slice r.buf 0 n ++ d, arrived r.ops ++ a, s)
then_pull r dropped rest = none
then_pull r parked rest = none

module _ (extract : NxPacket → ℕ → (ℕ → ℕ) → ℕ → (ℕ → ℕ) × ℕ) where
  abbrev pub pull : Pull → Stream → Result
  pull x s = stream_recv extract x.asked s x.buf x.max x.timeout

  unfoldable pub pipe : List Pull → Stream → Option (List ℕ × List ℕ × Stream)
  pipe [] s = some ([], [], s)
  pipe (x ∷ xs) s = then_pull (pull x s) (pull x s).value (pipe xs (pull x s).after)

abbrev Ordered : List ℕ → Option (List ℕ × List ℕ × Stream) → Type 0
Ordered waiting none = Unit
Ordered waiting (some (d, a, s)) = d ++ rest_of s.pending ≡ waiting ++ a

-- One call in front of the others
then-Ordered :
    (waiting : List ℕ) (r : Result) (v : Got) (rest : Option (List ℕ × List ℕ × Stream))
    → InOrder waiting r v
    → (PendingOk r.after.pending → Ordered (rest_of r.after.pending) rest)
    → Ordered waiting (then_pull r v rest)
then-Ordered waiting r dropped rest h k = tt
then-Ordered waiting r parked rest h k = tt
then-Ordered waiting r (got n) none h k = tt
then-Ordered waiting r (got n) (some (d, a, s)) (h, ok) k =
    append_assoc (slice r.buf 0 n) d (rest_of s.pending)
    ∙ ap (λ (l : List ℕ). slice r.buf 0 n ++ l) (k ok)
    ∙ sym (append_assoc (slice r.buf 0 n) (rest_of r.after.pending) a)
    ∙ ap (λ (l : List ℕ). l ++ a) h
    ∙ append_assoc waiting (arrived r.ops) a

module _ (extract : NxPacket → ℕ → (ℕ → ℕ) → ℕ → (ℕ → ℕ) × ℕ) (law : Extracts extract) where
  pipe-Ordered :
      (xs : List Pull) (s : Stream)
      → PendingOk s.pending
      → AllReceivedOk xs
      → Ordered (rest_of s.pending) (pipe extract xs s)
  unfolding pipe
  pipe-Ordered [] s ok all = sym (append-nil (rest_of s.pending))
  pipe-Ordered (x ∷ xs) s ok (r, all) =
      then-Ordered (rest_of s.pending) (pull extract x s) (pull extract x s).value
        (pipe extract xs (pull extract x s).after)
        (recv-InOrder extract law x.asked s x.buf x.max x.timeout ok r)
        (λ ok'. pipe-Ordered xs (pull extract x s).after ok' all)

  -- Over any number of receives, none of which drops the connection, with buffers of any size, where NetX
  -- extracts as documented and hands out no empty packet: the bytes returned, in the order of the calls, and
  -- then what is kept, are what was kept at first, and then the packets handed out, in their order.
  pub pipe_in_order :
      (xs : List Pull) (s s' : Stream) (delivered came : List ℕ)
      → PendingOk s.pending
      → AllReceivedOk xs
      → pipe extract xs s ≡ some (delivered, came, s')
      → delivered ++ rest_of s'.pending ≡ rest_of s.pending ++ came
  pipe_in_order xs s s' delivered came ok all e =
      subst (λ o. Ordered (rest_of s.pending) o) e (pipe-Ordered xs s ok all)
