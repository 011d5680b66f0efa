-- ===== src/Tests/Interface.antt =====
-- An interface that has discovered and claimed one service, with two callbacks.
use xbot_framework.Prelude.{ℕ, ◌≡◌, refl, arith, List, [], ◌∷◌, foldl, none, some, true, false}
use xbot_framework.Wire.Bytes.{le_bytes}
use xbot_framework.Wire.Header.{Header, empty_header, transaction}
use xbot_framework.Wire.Frames.{Frame, encode_frames, encode_frame, encode_descriptor}
use xbot_framework.Interface.Maps.{find}
use xbot_framework.Interface.Discovery.{ServiceInfo, Discovery, advertised, get_service_info}
use xbot_framework.Interface.Discovery.Laws.{Known, advertised-Matches}
use xbot_framework.Interface.Io.State.{Io}
use xbot_framework.Interface.Io.Claims.{run_checks}
use xbot_framework.Interface.Io.Timeouts.{Told, run_checks-Lost}
use xbot_framework.Interface.Io.Messages.{io_handle_transaction}
use xbot_framework.Interface.Io.Interest.{IsWanted}
use xbot_framework.Interface.Io.Interest.Rounds.{
  discover, register, unregister, run_round, act, act-IsWanted,
}
use xbot_framework.Interface.Io.Delivery.{transaction_events, io_handle_transaction-frames}

abbrev info : ServiceInfo ℕ
info = record {
  service_id = 5;
  ip = 9;
  port = 10;
  description = record { type_name = 65 ∷ []; version = 1; io = 0 };
}

abbrev discovery : Discovery ℕ
discovery = record { discovered_services = (5, info) ∷ []; registered_callbacks = 100 ∷ 101 ∷ [] }

abbrev io : Io ℕ
io = record {
  discovery = discovery;
  endpoint_map =
      (5, record { claimed_successfully = true; last_claim_sent = 7; last_heartbeat_received = 8 })
      ∷ [];
  registered_callbacks = (5, 200 ∷ 201 ∷ []) ∷ [];
  last_check = 0;
  events = [];
  sent = [];
  socket_sends = true;
  own_endpoint = some (3, 4);
  configures = λ c i. false;
}

advertised-Matches_example :
    Known (record info { port = 11 }) (advertised (record info { port = 11 }) discovery)
advertised-Matches_example =
    advertised-Matches (record info { port = 11 }) discovery (λ e. absurd (omega (arith, e)))
      (λ e. absurd (omega (arith, e)))

act-IsWanted_example : IsWanted (
    foldl act io (
      register 6 300
      ∷ discover 5
      ∷ run_round 2000000000 none
      ∷ unregister 200
      ∷ unregister 201
      ∷ []))
unfolding find
act-IsWanted_example =
    act-IsWanted
      (register 6 300
        ∷ discover 5
        ∷ run_round 2000000000 none
        ∷ unregister 200
        ∷ unregister 201
        ∷ [])
      io (refl, tt)

abbrev frames : List Frame
frames =
    record { target_id = 1; content = 10 ∷ [] }
    ∷ record { target_id = 2; content = 20 ∷ 21 ∷ [] }
    ∷ []

abbrev header : Header
header = record empty_header {
  service_id = 5;
  message_type = transaction;
  timestamp = 99;
  payload_size = 19;
}

io_handle_transaction-frames_example :
    io_handle_transaction header (encode_frames frames) io
    ≡ record io { events = transaction_events header frames (200 ∷ 201 ∷ []) [] }
unfolding encode_frames encode_frame encode_descriptor le_bytes find
io_handle_transaction-frames_example =
    io_handle_transaction-frames header frames io refl (omega arith) (ground arith) (
      (record { id_fits = omega arith; size_fits = omega arith }),
      ((record { id_fits = omega arith; size_fits = omega arith }), tt),
    )

run_checks-Lost_example :
    (find 5 (run_checks 3000000000 io).endpoint_map ≡ none)
    × ((get_service_info 5 (run_checks 3000000000 io).discovery ≡ none)
        × Told 5 (200 ∷ 201 ∷ []) (run_checks 3000000000 io).events)
unfolding find
run_checks-Lost_example =
    run_checks-Lost 3000000000 5
      (record { claimed_successfully = true; last_claim_sent = 7; last_heartbeat_received = 8 })
      (200 ∷ 201 ∷ []) io refl (tt, tt) refl refl refl refl
