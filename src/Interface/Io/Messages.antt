-- ===== src/Interface/Io/Messages.antt =====
-- ServiceIO.cpp: what the interface does with each message, and the rounds of `RunIo`.
use xbot_framework.Prelude.{
  ℕ, suc, ◌-◌, List, [], ◌∷◌, foldl, Option, none, some, Bool, true, false, not, ◌==◌, ltb,
  if◌then◌else◌, length, drop, size_mod,
}
use xbot_framework.Wire.Header.{
  Header, MessageType, header_size, decode_header, claim, data_message, configuration_request,
  heartbeat, transaction, rpc_response,
}
use xbot_framework.Wire.Frames.{walk}
use xbot_framework.Interface.Maps.{find, insert}
use xbot_framework.Interface.Io.State.{
  Io, ServiceState, service_connected, config_requested, transaction_start, transaction_end,
  data_received, rpc_response_received, emit, callbacks_of,
}
use xbot_framework.Interface.Io.Claims.{run_checks}

-- The service is known and claimed, as all messages but claims and heartbeats require.
abbrev pub is_claimed_state : Option ServiceState → Bool
is_claimed_state none = false
is_claimed_state (some state) = state.claimed_successfully

module _ {D : Type 0} where
  abbrev pub serves : ℕ → Io D → Bool
  serves service_id s = is_claimed_state (find service_id s.endpoint_map)

  -- `HandleClaimMessage`
  unfoldable pub handle_claim_ack : ℕ → Header → Io D → Io D
  handle_claim_ack now h s =
      if not (h.arg1 == 1) then s else elim (find h.service_id s.endpoint_map) [
        | none ↦ s
        | some state ↦
            let heard = record state { last_heartbeat_received = now } in
            if state.claimed_successfully
            then record s { endpoint_map = insert h.service_id heard s.endpoint_map }
            else foldl (λ (t : Io D) (c : ℕ). emit (service_connected c h.service_id) t)
                (record s {
                  endpoint_map =
                      insert h.service_id (record heard { claimed_successfully = true })
                        s.endpoint_map;
                })
                (callbacks_of h.service_id s)
      ]

  -- `HandleDataMessage`
  unfoldable pub io_handle_data : Header → List ℕ → Io D → Io D
  io_handle_data h payload s =
      if serves h.service_id s
      then foldl
          (λ (t : Io D) (c : ℕ). emit (data_received c h.service_id h.timestamp h.arg2 payload) t) s
          (callbacks_of h.service_id s)
      else s

  -- One callback's turn in `HandleDataTransaction`; the loop is that of the service.
  unfoldable pub deliver_transaction : Header → List ℕ → Io D → ℕ → Io D
  deliver_transaction h payload s c =
      let body : ℕ → List ℕ → Io D → Io D × Bool = λ target_id content t.
        (emit (data_received c h.service_id h.timestamp target_id content) t, true) in
      emit (transaction_end c)
        (walk size_mod body (suc (length payload)) payload 0
          (emit (transaction_start c h.timestamp) s)).0

  -- `HandleDataTransaction`
  unfoldable pub io_handle_transaction : Header → List ℕ → Io D → Io D
  io_handle_transaction h payload s =
      if serves h.service_id s
      then foldl (deliver_transaction h payload) s (callbacks_of h.service_id s)
      else s

  -- `HandleHeartbeatMessage`
  unfoldable pub handle_heartbeat : ℕ → Header → Io D → Io D
  handle_heartbeat now h s = elim (find h.service_id s.endpoint_map) [
    | none ↦ s
    | some state ↦ record s {
      endpoint_map =
          insert h.service_id (record state { last_heartbeat_received = now }) s.endpoint_map;
    }
  ]

  -- The callbacks are asked one after another, until one provides a configuration.
  unfoldable pub ask_for_configuration : ℕ → List ℕ → Io D → Io D
  ask_for_configuration service_id [] s = s
  ask_for_configuration service_id (c ∷ cs) s =
      let asked = emit (config_requested c service_id) s in
      let rest = ask_for_configuration service_id cs asked in
      if s.configures c service_id then asked else rest

  -- `HandleConfigurationRequest`
  unfoldable pub handle_configuration_request : Header → Io D → Io D
  handle_configuration_request h s =
      if serves h.service_id s
      then ask_for_configuration h.service_id (callbacks_of h.service_id s) s
      else s

  -- `HandleRpcResponseMessage`
  unfoldable pub handle_rpc_response : Header → List ℕ → Io D → Io D
  handle_rpc_response h payload s =
      if serves h.service_id s
      then foldl
          (λ (t : Io D) (c : ℕ).
            emit (rpc_response_received c h.service_id h.arg2 h.arg1 payload) t)
          s (callbacks_of h.service_id s)
      else s

  -- The switch of `RunIo`.
  unfoldable pub io_handle_message : ℕ → MessageType → Header → List ℕ → Io D → Io D
  io_handle_message now claim h payload s = handle_claim_ack now h s
  io_handle_message now data_message h payload s = io_handle_data h payload s
  io_handle_message now configuration_request h payload s = handle_configuration_request h s
  io_handle_message now heartbeat h payload s = handle_heartbeat now h s
  io_handle_message now transaction h payload s =
      if h.arg1 == 0 then io_handle_transaction h payload s else s
  io_handle_message now rpc_response h payload s = handle_rpc_response h payload s
  io_handle_message now _ h payload s = s

  -- What `RunIo` does with a packet.
  unfoldable pub io_receive : ℕ → List ℕ → Io D → Io D
  io_receive now packet s =
      if ltb (length packet) header_size
      then s
      else (let h = decode_header packet in
          if h.payload_size == length packet - header_size
          then io_handle_message now h.message_type h (drop header_size packet) s
          else s)

  abbrev pub io_receive_some : ℕ → Option (List ℕ) → Io D → Io D
  io_receive_some now none s = s
  io_receive_some now (some packet) s = io_receive now packet s

  -- One round of the loop of `RunIo`.
  unfoldable pub io_round : ℕ → Option (List ℕ) → Io D → Io D
  io_round now packet s = io_receive_some now packet (run_checks now s)
