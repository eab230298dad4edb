-- ===== src/Socket/Tests.antt =====
-- The port over SocketCAN at concrete inputs.
use blobly_emb.Prelude.{ℕ, ◌+◌, ◌^◌, if◌then◌else◌, ltb, ◌==◌, List, [], ◌∷◌}
use blobly_emb.Socket.{Slot, Packet, Answer, message, refusal, recv_socket}
use blobly_emb.Socket.Drain.{Drained, recv_refines}

-- Descriptor 0 stands in the first entry with 7 drops, and the rest is free.
abbrev table : ℕ → Slot
table i = record { fd = 0; ovfl = 7; in_use = i == 0 }

-- A remote frame with a drop count, and a data frame, and then the interface goes down.
abbrev queue : List Answer
queue =
    message (record {
      packet = record { size = 16; can_id = 2 ^ 30 + 5; len = 0; bytes = λ i. 0 };
      drops = 3 ∷ [];
    })
    ∷ message
        (record { packet = record { size = 16; can_id = 6; len = 2; bytes = λ i. 9 }; drops = [] })
    ∷ refusal
    ∷ []

recv_refines_example :
    let r = recv_socket table 0 (λ i. 1) queue in Drained (λ i. 1) queue r.0 r.1.0
recv_refines_example = recv_refines table 0 (λ i. 1) queue

abbrev payload : ℕ → ℕ
payload i = i + 4

-- The struct of an FD frame of three bytes with an extended identifier
abbrev sent : Packet
sent = record {
  size = 72;
  can_id = 2 ^ 31 + 77;
  len = 3;
  bytes = λ i. if ltb i 3 then payload i else 0;
}
