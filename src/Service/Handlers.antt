-- ===== src/Service/Handlers.antt =====
-- Service.cpp: what a service does with each message.
use xbot_framework.Prelude.{
  ℕ, suc, ◌+◌, ◌-◌, ◌%◌, List, none, some, Bool, true, false, not, ◌&&◌, ◌||◌, ◌==◌, ltb, leb,
  if◌then◌else◌, length, take, drop, sub32, size_mod, u16_mod,
}
use xbot_framework.Wire.Bytes.{le_bytes}
use xbot_framework.Wire.Header.{
  Header, MessageType, claim, data_message, transaction, description_request, description_part,
  rpc_call, header_size, decode_header, encode_header,
}
use xbot_framework.Wire.Payloads.{
  claim_size, decode_claim, request_size, decode_request, ClaimPayload, DescriptionRequestPayload,
}
use xbot_framework.Wire.Frames.{Outcome, stopped, aborted, walk}
use xbot_framework.Portable.Packet.{max_packet_size, packet_append_data, allocate_packet}
use xbot_framework.Scheduler.{set_interval}
use xbot_framework.Service.State.{Service, heartbeat_schedule}
use xbot_framework.Service.Send.{fill_header, transmit, send_data_claim_ack}
use xbot_framework.Service.Rpc.{busy, transmit_rpc_response}
use xbot_framework.Service.User.{Impl, run_method}
use xbot_framework.Service.Lifecycle.{
  on_lifecycle_status_changed, calculate_heartbeat_interval, stop_if_running,
  load_configuration_defaults, start_if_unconfigured, start_service,
}

-- `kDescriptionPartIntervalMicros`
abbrev pub description_part_interval_micros : ℕ
description_part_interval_micros = 20000

-- `kMaxPayload - kWindowOffsetSize`
abbrev pub max_window : ℕ
max_window = max_packet_size - header_size - 2

-- The bytes that one DESCRIPTION_PART carries at most.
unfoldable pub window_length : ℕ → ℕ → ℕ → ℕ
window_length total offset limit =
    let rest = total - offset in
    let asked = if ltb limit rest then limit else rest in
    if ltb max_window asked then max_window else asked

module _ {U : Type 0} (impl : Impl U) where
  -- `HandleClaimMessage`
  unfoldable pub accept_claim : ClaimPayload → Service U → Service U
  accept_claim c s =
      let claimed = record s {
        target_ip = c.target_ip;
        target_port = c.target_port;
        sd_discovery_timed_out = false;
        scheduler =
            set_interval heartbeat_schedule (calculate_heartbeat_interval c.heartbeat_micros) true
              s.scheduler;
      } in
      start_if_unconfigured impl (
        load_configuration_defaults impl
          (on_lifecycle_status_changed (send_data_claim_ack claimed).0))

  unfoldable pub handle_claim_message : List ℕ → Service U → Service U
  handle_claim_message payload s =
      if length payload == claim_size
      then accept_claim (decode_claim payload) (stop_if_running impl s)
      else s

  -- `HandleDataMessage`
  unfoldable pub handle_data_message : Header → List ℕ → Service U → Service U
  handle_data_message h payload s = (run_method (impl.handle_data h.arg2 payload) s).0

  -- The body of the loop of `HandleDataTransaction` never returns early.
  unfoldable pub deliver : ℕ → List ℕ → Service U → Service U × Bool
  deliver target_id content s = ((run_method (impl.handle_data target_id content) s).0, true)

  -- `HandleDataTransaction`. Every round of the loop takes eight bytes or more, so as much fuel as there
  -- are bytes, and one round for the last test, is enough.
  unfoldable pub handle_data_transaction : Header → List ℕ → Service U → Service U
  handle_data_transaction h payload s =
      let begun = (run_method (impl.on_transaction_start h.timestamp) s).0 in
      let delivered = (walk size_mod deliver (suc (length payload)) payload 0 begun).0 in
      (run_method impl.on_transaction_end delivered).0

  unfoldable pub set_one_register : ℕ → List ℕ → Service U → Service U × Bool
  set_one_register target_id content = run_method (impl.set_register target_id content)

  abbrev pub whole : ℕ → Outcome → Bool
  whole len (stopped processed) = processed == len
  whole len aborted = false

  -- `SetRegistersFromConfigurationMessage`
  unfoldable pub set_registers : List ℕ → Service U → Service U × Bool
  set_registers payload s =
      let (s', outcome) = walk size_mod set_one_register (suc (length payload)) payload 0 s in
      (s', whole (length payload) outcome)

  abbrev pub configured : Service U × Bool → Service U
  configured (s, true) = on_lifecycle_status_changed (record s { config_required = false })
  configured (s, false) = s

  -- `HandleConfigurationTransaction`
  unfoldable pub handle_configuration_transaction : List ℕ → Service U → Service U
  handle_configuration_transaction payload s =
      let (s', applied) =
        set_registers payload (load_configuration_defaults impl (stop_if_running impl s)) in
      if applied && impl.all_registers_valid s'.user then configured (start_service impl s') else s'

  -- `HandleRpcCall`
  unfoldable pub handle_rpc_call : Header → List ℕ → Service U → Service U
  handle_rpc_call h payload s =
      if s.rpc_in_progress
      then (transmit_rpc_response h.arg2 busy none 0 s).0
      else (run_method (impl.dispatch_rpc_call h.arg1 h.arg2 payload)
          (record s { rpc_in_progress = true; rpc_pending_call_id = h.arg2 })).0

  -- The DESCRIPTION_PART with the window of `size` bytes at an offset.
  unfoldable pub send_window : DescriptionRequestPayload → List ℕ → ℕ → Service U → Service U
  send_window request omitted size s =
      let h = record ((fill_header s).header) {
        message_type = description_part;
        arg1 = 0;
        arg2 = length omitted % u16_mod;
        payload_size = 2 + size;
      } in
      let with_header = (packet_append_data allocate_packet (encode_header h)).0 in
      let with_offset = (packet_append_data with_header (le_bytes 2 request.offset)).0 in
      let packet = (packet_append_data with_offset (take size (drop request.offset omitted))).0 in
      record (transmit request.target_ip request.target_port packet (record s { header = h })) {
        last_description_part_micros = s.time_micros;
      }

  -- A reply went out less than the interval ago.
  abbrev pub too_soon : Service U → Bool
  too_soon s =
      not (s.last_description_part_micros == 0)
      && ltb (sub32 s.time_micros s.last_description_part_micros) description_part_interval_micros

  unfoldable pub answer_request : ℕ → DescriptionRequestPayload → List ℕ → Service U → Service U
  answer_request limit request omitted s =
      if leb (length omitted) request.offset || too_soon s
      then s
      else if window_length (length omitted) request.offset limit == 0
      then s
      else send_window request omitted (window_length (length omitted) request.offset limit) s

  -- `HandleDescriptionRequest`
  unfoldable pub handle_description_request : Header → List ℕ → Service U → Service U
  handle_description_request h payload s =
      if length payload == request_size && (decode_request payload).service_id == s.service_id
      then elim impl.omitted_description [
        | none ↦ s
        | some omitted ↦
            if length omitted == 0
            then s
            else answer_request h.arg2 (decode_request payload) omitted s
      ]
      else s

  abbrev pub handle_transaction : Header → List ℕ → Service U → Service U
  handle_transaction h payload s =
      if h.arg1 == 0 && s.is_running
      then handle_data_transaction h payload s
      else if h.arg1 == 1
      then handle_configuration_transaction payload s
      else s

  -- The switch of `runProcessing`; the default case only logs.
  unfoldable pub handle_message : MessageType → Header → List ℕ → Service U → Service U
  handle_message claim h payload s = handle_claim_message payload s
  handle_message data_message h payload s =
      if s.is_running then handle_data_message h payload s else s
  handle_message transaction h payload s = handle_transaction h payload s
  handle_message description_request h payload s = handle_description_request h payload s
  handle_message rpc_call h payload s = if s.is_running then handle_rpc_call h payload s else s
  handle_message _ h payload s = s

  -- What `runProcessing` does with a packet: one that is too short for a header, or for the payload that
  -- its header declares, is dropped.
  unfoldable pub process_packet : List ℕ → Service U → Service U
  process_packet packet s =
      if ltb (length packet) header_size
      then s
      else (let h = decode_header packet in
          if ltb (length packet) (header_size + h.payload_size)
          then s
          else handle_message h.message_type h (take h.payload_size (drop header_size packet)) s)
