-- ===== src/Tests/Portable.antt =====
-- The queue and the packets at concrete values.
use xbot_framework.Prelude.{◌≡◌, ◌≤◌, arith, [], ◌∷◌, length, replicate}
use xbot_framework.Portable.Queue.{BlockingQueue, push, pop, is_full, is_empty}
use xbot_framework.Portable.Queue.Inv.{IsValid, pop-IsValid}
use xbot_framework.Portable.Queue.Fifo.{fifo_push, fifo_pop, found, push_refines, pop_refines}
use xbot_framework.Portable.Queue.Contents.{contents}
use xbot_framework.Portable.Packet.{packet_append_data, packet_append_data_fits, max_packet_size}

-- Two pointers, the second one wrapped around.
abbrev full : BlockingQueue
full = record { buffer = 12 ∷ 11 ∷ []; front_idx = 1; queue_size = 2; item_count = 2 }

full-IsValid : IsValid full
full-IsValid = record {
  storage = omega arith;
  addressable = omega arith;
  front_in = omega arith;
  count_in = omega arith;
}

push_refines_example :
    let here = found (λ r. (pop (λ t. t) r 0).0) (is_full full) 50 full in
    let (q', done) = push (λ r. (pop (λ t. t) r 0).0) full 13 50 in
    (contents q', done) ≡ fifo_push here.queue_size (contents here) 13
push_refines_example =
    push_refines (λ r. (pop (λ t. t) r 0).0) full 13 50
      (λ r v. pop-IsValid (λ t. t) r 0 (λ t w. w) v) full-IsValid

pop_refines_example :
    let here = found (λ r. r) (is_empty full) 0 full in
    let (q', item) = pop (λ r. r) full 0 in (contents q', item) ≡ fifo_pop (contents here)
pop_refines_example = pop_refines (λ r. r) full 0 (λ r v. v) full-IsValid

packet_append_data_fits_example :
    length (packet_append_data (1 ∷ 2 ∷ []) (replicate 1471 0)).0 ≤ max_packet_size
packet_append_data_fits_example =
    packet_append_data_fits (1 ∷ 2 ∷ []) (replicate 1471 0) (omega arith)
