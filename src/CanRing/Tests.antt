-- ===== src/CanRing/Tests.antt =====
-- The ring at concrete inputs.
use blobly_emb.Prelude.{ℕ, ◌+◌, ◌≤◌, ◌<◌, ◌≡◌, refl, arith, [], ◌∷◌}
use mathlib.Core.Option
use blobly_emb.CanRing.{Msg, Ring, cap, push, pop}
use blobly_emb.CanRing.Queue.{
  frame_of, out_frame, contents, IsValid, enqueue, dequeue, push_refines, pop_refines,
}
use blobly_emb.CanRing.Spsc.{
  System, Reach, here, next, produce, consume, init, PStep, CStep, Call, fifo,
}

abbrev blank : Msg
blank = record { id = 0; len = 0; bytes = λ i. 0 }

-- Two frames that wait across the wrap of the indices.
abbrev wrapped : Ring
wrapped = record {
  slot = λ i. record { id = i; len = 1; bytes = λ j. i + j };
  head = 1;
  tail = 4294967295;
}

abbrev at_rest : Ring
at_rest = record { slot = λ i. blank; head = 4294967295; tail = 4294967295 }

wrapped-IsValid : IsValid wrapped
wrapped-IsValid = omega arith

contents-wrapped :
    contents wrapped
    ≡ record { id = 31; payload = 31 ∷ [] } ∷ record { id = 0; payload = 0 ∷ [] } ∷ []
contents-wrapped = refl

push_refines_example :
    let (s, r) = push wrapped 7 (λ i. 5) 2 in
    ((s, contents r) ≡ enqueue (contents wrapped) (frame_of 7 (λ i. 5) 2)) × IsValid r
push_refines_example = push_refines wrapped 7 (λ i. 5) 2 wrapped-IsValid

pop_refines_example :
    let (o, r) = pop wrapped (λ i. 9) in
    ((Option.map out_frame o, contents r) ≡ dequeue (contents wrapped)) × IsValid r
pop_refines_example = pop_refines wrapped (λ i. 9) wrapped-IsValid

abbrev one_byte : Call
one_byte = record { id = 0x123; bytes = λ i. 0xab; len = 1 }

-- One frame pushed and popped, with the consumer's first loads between the producer's.
abbrev one_frame : (s : System) × Reach (init at_rest) s
one_frame = (
  _,
  next
      (next
        (next
          (next
            (next
              (next
                (next
                  (next
                    (next
                      (next
                        (next
                          (next
                            (next
                              (next
                                (next
                                  (next
                                    (next (next here (produce (PStep.call one_byte)))
                                      (consume (CStep.call (λ i. 0))))
                                    (produce PStep.load_head))
                                  (consume CStep.load_tail))
                                (produce PStep.load_tail))
                              (produce (PStep.enter (omega arith))))
                            (produce PStep.store_id))
                          (produce PStep.store_len))
                        (produce (PStep.store_byte (omega arith))))
                      (produce (PStep.store_head (omega arith))))
                    (consume CStep.load_head))
                  (consume (CStep.enter (omega arith))))
                (consume CStep.load_id))
              (consume CStep.load_len))
            (consume CStep.load_size))
          (consume (CStep.load_byte (omega arith))))
        (consume (CStep.store_tail (omega arith))))
      (produce (PStep.call one_byte)),
)

fifo_example :
    ((k : ℕ) → k < one_frame.0.mem.got_n → one_frame.0.mem.got k ≡ one_frame.0.mem.sent k)
    × (one_frame.0.mem.got_n ≤ one_frame.0.mem.sent_n)
    × (one_frame.0.mem.sent_n ≤ one_frame.0.mem.got_n + cap)
fifo_example = fifo at_rest (omega arith) one_frame.1

one_frame_arrived :
    (one_frame.0.mem.got_n ≡ 1)
    × (one_frame.0.mem.got 0 ≡ record { id = 0x123; payload = 0xab ∷ [] })
one_frame_arrived = (refl, refl)
