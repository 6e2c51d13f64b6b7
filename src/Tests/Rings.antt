-- ===== src/Tests/Rings.antt =====
-- The token ring's theorems at small rings.
use xpu_kllm.Prelude.{◌<◌, ◌≡◌, ◌≢◌, refl, arith, [], ◌∷◌, ◌++◌, length}
use xpu_kllm.Ring.{Ring, mask, produce, available, consume_batch}
use xpu_kllm.Ring.Fifo.{push, pop_many}
use xpu_kllm.Ring.Inv.{IsValid}
use xpu_kllm.Ring.Refine.{contents, produce_refines}
use xpu_kllm.Ring.Batch.{consume_batch_refines}
use xpu_kllm.Ring.Spsc.{System, Step, Reach, Fresh, Producer, Consumer, Reach_fifo}
use xpu_kllm.Ring.Spsc.Window.{next_head, publish, store}
use xpu_kllm.Tests.Fixtures.{two_waiting, two_waiting-IsValid}

produce_refines_example :
    let (s, r') = produce two_waiting 6 in (s, contents r') ≡ push 3 (contents two_waiting) 6
produce_refines_example = produce_refines 6 two_waiting-IsValid

consume_batch_refines_example :
    let (out, count, r') = consume_batch two_waiting 5 in
    ((out, contents r') ≡ pop_many (contents two_waiting) 5) × (count ≡ length out)
consume_batch_refines_example = consume_batch_refines 5 two_waiting-IsValid

two_available : available two_waiting ≢ 0
unfolding available
two_available e = absurd (omega arith)

room_left : next_head two_waiting ≢ two_waiting.tail
unfolding next_head mask
room_left e = absurd (omega arith)

abbrev empty_ring : Ring
empty_ring = record two_waiting { tail = 3 }

empty_ring-IsValid : IsValid 2 empty_ring
empty_ring-IsValid = record {
  small = omega arith;
  power = refl;
  head_in = omega arith;
  tail_in = omega arith;
  storage = refl;
}

abbrev start : System
start = record {
  ring = empty_ring;
  producer = Producer.idle;
  consumer = Consumer.idle;
  produced = [];
  consumed = [];
}

start-Fresh : Fresh start
unfolding contents
start-Fresh = (refl, refl, refl, refl, refl)

empty_has_room : next_head empty_ring ≢ empty_ring.tail
unfolding next_head mask
empty_has_room e = absurd (omega arith)

-- The producer's three steps for the token 6.
abbrev one_in : System
one_in = record start { ring = publish (store 6 empty_ring); produced = 6 ∷ [] }

one_reached : Reach start one_in
one_reached =
    Reach.next
      (Reach.next (Reach.next Reach.here (Step.check start 6 refl empty_has_room))
        (Step.write _ 6 refl))
      (Step.publishes _ 6 refl)

Reach_fifo_example :
    (one_in.produced ≡ one_in.consumed ++ contents one_in.ring)
    × IsValid 2 one_in.ring
    × (length (contents one_in.ring) < one_in.ring.slot_count)
Reach_fifo_example = Reach_fifo empty_ring-IsValid start-Fresh one_reached
