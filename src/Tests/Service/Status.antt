-- ===== src/Tests/Service/Status.antt =====
-- A packet for a service whose schedules follow its status, and the first rounds of its thread.
use xbot_framework.Prelude.{ℕ, refl, List, [], ◌∷◌, ◌++◌, none, some}
use xbot_framework.Wire.Header.{empty_header, claim, encode_header}
use xbot_framework.Wire.Payloads.{encode_claim}
use xbot_framework.Scheduler.{Schedule, managed}
use xbot_framework.Service.State.{started}
use xbot_framework.Service.Loop.{begin_processing}
use xbot_framework.Service.Status.{IsConsistent}
use xbot_framework.Service.Status.Running.{run_rounds, run_rounds-IsConsistent}
use xbot_framework.Tests.Fixtures.{store_service, empty_store}

abbrev claim_packet : List ℕ
claim_packet =
    encode_header (record empty_header {
      protocol_version = 1;
      message_type = claim;
      service_id = 5;
      payload_size = 10;
    })
    ++ encode_claim
        (record { target_ip = 2130706433; target_port = 4242; heartbeat_micros = 1000000 })

-- A schedule that the user added.
abbrev extra : List Schedule
extra = record { last_tick = 0; interval = 500000; enabled = managed } ∷ []

run_rounds-IsConsistent_example :
    IsConsistent
      (run_rounds store_service
        (record { now = 1000; packet = none }
          ∷ record { now = 2000; packet = some claim_packet }
          ∷ [])
        (begin_processing store_service (started 5 extra empty_store))).service
run_rounds-IsConsistent_example =
    run_rounds-IsConsistent store_service (λ s. refl) 5 extra empty_store
      (record { now = 1000; packet = none }
        ∷ record { now = 2000; packet = some claim_packet }
        ∷ [])
