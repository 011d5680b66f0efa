-- ===== src/Tests/Routing.antt =====
-- A packet for the second of two services, whose queue has one place left.
use xbot_framework.Prelude.{ℕ, List, [], ◌∷◌, ◌++◌, true, false}
use xbot_framework.Wire.Header.{empty_header, encode_header}
use xbot_framework.Portable.Queue.{BlockingQueue}
use xbot_framework.Portable.Routing.{ServiceIo}

abbrev queue : BlockingQueue
queue = record { buffer = 11 ∷ 0 ∷ []; front_idx = 0; queue_size = 2; item_count = 1 }

abbrev services : List ServiceIo
services =
    record { service_id = 4; stopped = true; packet_queue = queue }
    ∷ record { service_id = 5; stopped = false; packet_queue = queue }
    ∷ []

abbrev packet : List ℕ
packet = encode_header (record empty_header { service_id = 5; payload_size = 1 }) ++ (42 ∷ [])
