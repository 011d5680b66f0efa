-- ===== src/Interface/Io/Claims.antt =====
-- ServiceIO.cpp: claims, and the services that time out.
use xbot_framework.Prelude.{
  ℕ, ◌+◌, List, [], ◌∷◌, ◌++◌, foldl, none, some, Bool, false, not, ◌||◌, ◌==◌, ltb, if◌then◌else◌,
}
use xbot_framework.Wire.Header.{Header, empty_header, encode_header, claim}
use xbot_framework.Wire.Payloads.{encode_claim, claim_size}
use xbot_framework.Service.State.{heartbeat_jitter}
use xbot_framework.Interface.Maps.{Map, find, insert}
use xbot_framework.Interface.Discovery.{drop_service}
use xbot_framework.Interface.Io.State.{
  Io, ServiceState, default_heartbeat_micros, micros_since, service_disconnected, emit,
  io_send_data,
}

abbrev pub claim_header : ℕ → ℕ → Header
claim_header now service_id = record empty_header {
  message_type = claim;
  service_id = service_id;
  protocol_version = 1;
  timestamp = now;
  payload_size = claim_size;
}

abbrev pub timed_out : ℕ → ServiceState → Bool
timed_out now state =
    ltb (default_heartbeat_micros + heartbeat_jitter)
      (micros_since now state.last_heartbeat_received)

-- The loop over the endpoints: the services to claim, those that timed out, and the endpoints that stay.
unfoldable pub scan : ℕ → Map ServiceState → List ℕ × (List ℕ × Map ServiceState)
scan now [] = ([], ([], []))
scan now ((service_id, state) ∷ rest) =
    let (to_claim, (gone, kept)) = scan now rest in
    if not state.claimed_successfully
    then (service_id ∷ to_claim, (gone, (service_id, state) ∷ kept))
    else if timed_out now state
    then (to_claim, (service_id ∷ gone, kept))
    else (to_claim, (gone, (service_id, state) ∷ kept))

module _ {D : Type 0} where
  unfoldable pub send_claim : ℕ → ℕ → Io D → Io D
  send_claim now service_id s = elim s.own_endpoint [
    | none ↦ s
    | some (my_ip, my_port) ↦
        if my_ip == 0 || my_port == 0
        then s
        else (io_send_data service_id
            (encode_header (claim_header now service_id)
              ++ encode_claim (record {
                target_ip = my_ip;
                target_port = my_port;
                heartbeat_micros = default_heartbeat_micros;
              }))
            s).0
  ]

  -- `ClaimService`
  unfoldable pub claim_service : ℕ → Io D → ℕ → Io D
  claim_service now s service_id = elim (find service_id s.endpoint_map) [
    | none ↦ s
    | some state ↦
        if ltb (micros_since now state.last_claim_sent) 1000
        then s
        else send_claim now service_id (record s {
          endpoint_map =
              insert service_id
                (record state { last_claim_sent = now; claimed_successfully = false })
                s.endpoint_map;
        })
  ]

  -- A timed-out service that has registrations is dropped, and its callbacks are told.
  unfoldable pub disconnect : Map (List ℕ) → Io D → ℕ → Io D
  disconnect registered s service_id = elim (find service_id registered) [
    | none ↦ s
    | some callbacks ↦
        foldl (λ (t : Io D) (c : ℕ). emit (service_disconnected c service_id) t)
          (record s { discovery = (drop_service service_id s.discovery).0 }) callbacks
  ]

  -- The checks of `RunIo`, at most once a second.
  unfoldable pub run_checks : ℕ → Io D → Io D
  run_checks now s =
      if ltb 1000000 (micros_since now s.last_check)
      then (let (to_claim, (gone, kept)) = scan now s.endpoint_map in
          let scanned = record s { last_check = now; endpoint_map = kept } in
          foldl (disconnect s.registered_callbacks) (foldl (claim_service now) scanned to_claim)
            gone)
      else s
