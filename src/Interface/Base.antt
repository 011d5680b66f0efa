-- ===== src/Interface/Base.antt =====
-- libxbot-service-interface/src/ServiceInterfaceBase.cpp: what the generated interface of one service sends, and
-- its RPC calls. SendRpc has parts between which its thread waits on a condition variable: `begin_rpc` up to
-- the wait for the response, with the wait for a free `rpc_call_active_` in it, and `end_rpc` from the end of
-- the wait for the response. `others` is what the other threads do until the flag is clear.
pub mod Waiting
pub mod Rpc
pub mod Transactions
use xbot_framework.Prelude.{
  ℕ, ◌+◌, ◌-◌, List, [], ◌∷◌, ◌++◌, Option, none, some, Bool, true, false, not, ◌&&◌, ◌||◌, ◌==◌,
  ltb, if◌then◌else◌, length, add16,
}
use xbot_framework.Wire.Bytes.{le_bytes}
use xbot_framework.Wire.Header.{
  Header, transaction, data_message, rpc_call, header_size, encode_header,
}
use xbot_framework.Wire.Frames.{encode_descriptor}
use xbot_framework.Service.Send.{next_header}
use xbot_framework.Interface.Discovery.{ServiceInfo, same_string}

-- The members. `buffer_` is a header and the bytes behind it; `sent` is what goes to ServiceIO::SendData,
-- which answers `io_sends`. The clock gives `time_micros`.
pub record Base : Type 0 where
  pub service_id : ℕ
  pub header : Header
  pub buffer_header : Header
  pub buffer : List ℕ
  pub transaction_started : Bool
  pub is_configuration_transaction : Bool
  pub service_discovered : Bool
  pub io_callbacks_registered : Bool
  pub type_name : List ℕ
  pub version : ℕ
  pub rpc_call_counter : ℕ
  pub pending_call_id : ℕ
  pub rpc_call_active : Bool
  pub rpc_response_status : ℕ
  pub rpc_response : List ℕ
  pub rpc_response_payload_size : ℕ
  pub rpc_received_size : ℕ
  pub time_micros : ℕ
  pub io_sends : Bool
  pub sent : List (List ℕ)

-- `FillHeader`
unfoldable pub fill_base_header : Base → Base
fill_base_header s = record s { header = next_header s.service_id s.time_micros s.header }

-- `ctx.io->SendData(service_id_, buffer_)`
unfoldable pub send_buffer : Base → Base × Bool
send_buffer s =
    if s.io_sends
    then (record s { sent = (encode_header s.buffer_header ++ s.buffer) ∷ s.sent }, true)
    else (s, false)

-- `StartTransaction`
unfoldable pub base_start_transaction : Bool → Base → Base × Bool
base_start_transaction is_configuration s = if s.transaction_started then (s, false) else (
  let h = (fill_base_header s).header in
      record s {
        transaction_started = true;
        is_configuration_transaction = is_configuration;
        header = h;
        buffer_header = h;
        buffer = [];
      },
  true,
)

-- `CommitTransaction`
unfoldable pub base_commit_transaction : Base → Base × Bool
base_commit_transaction s =
    if not s.transaction_started
    then (s, false)
    else if not s.service_discovered
    then (record s { transaction_started = false }, false)
    else send_buffer (record s {
      transaction_started = false;
      buffer_header = record s.buffer_header {
        message_type = transaction;
        arg1 = if s.is_configuration_transaction then 1 else 0;
        payload_size = length s.buffer;
      };
    })

abbrev pub same_kind : Bool → Bool → Bool
same_kind true b = b
same_kind false b = not b

-- `SendData`
unfoldable pub base_send_data : ℕ → List ℕ → Bool → Base → Base × Bool
base_send_data target_id content is_configuration s =
    if not s.service_discovered
    then (s, false)
    else if s.transaction_started
    then (if same_kind is_configuration s.is_configuration_transaction
        then (
          record s {
            buffer = s.buffer ++ (encode_descriptor target_id (length content) ++ content);
          },
          true,
        )
        else (s, false))
    else if is_configuration
    then (s, false)
    else (let h = (fill_base_header s).header in
        send_buffer (record s {
          header = h;
          buffer_header = record h {
            payload_size = length content;
            arg2 = target_id;
            message_type = data_message;
          };
          buffer = content;
        }))

-- `SendRpc` between its waits, by a thread that has `rpc_mutex_` with no call active. The flag is false for a
-- call that fails at once.
unfoldable pub issue_rpc : ℕ → List ℕ → ℕ → Base → Base × Bool
issue_rpc function_id params response_max s =
    let call_id = add16 s.rpc_call_counter 1 in
    let h = (fill_base_header s).header in
    let (s', done) = send_buffer (record s {
      rpc_call_counter = call_id;
      pending_call_id = call_id;
      rpc_call_active = true;
      rpc_response_status = 0;
      header = h;
      buffer_header = record h {
        arg1 = function_id;
        payload_size = length params;
        arg2 = call_id;
        message_type = rpc_call;
      };
      buffer = params;
    }) in
    if done
    then (
      record s' {
        rpc_response = [];
        rpc_response_payload_size = response_max;
        rpc_received_size = 0;
      },
      true,
    )
    else (record s' { rpc_call_active = false }, false)

-- The wait for no call in flight.
abbrev pub await_free : (Base → Base) → Base → Base
await_free others s = if s.rpc_call_active then others s else s

-- `SendRpc` up to the wait for the response; `service_discovered_` is read once, before the first wait.
unfoldable pub begin_rpc : (Base → Base) → ℕ → List ℕ → ℕ → Base → Base × Bool
begin_rpc others function_id params response_max s =
    if not s.service_discovered
    then (s, false)
    else issue_rpc function_id params response_max (await_free others s)

-- `OnRpcResponse`, for the service's own ID.
unfoldable pub on_rpc_response : ℕ → ℕ → List ℕ → Base → Base
on_rpc_response call_id status payload s =
    if not s.rpc_call_active || not (call_id == s.pending_call_id) then s else record s {
      rpc_response_status = status;
      rpc_received_size = length payload;
      rpc_response =
          if ltb s.rpc_response_payload_size (length payload) then s.rpc_response else payload;
      rpc_response_payload_size =
          if ltb s.rpc_response_payload_size (length payload) then 0 else length payload;
      rpc_call_active = false;
    }

-- `OnRpcResponse`
unfoldable pub base_on_rpc_response : ℕ → ℕ → ℕ → List ℕ → Base → Base
base_on_rpc_response service_id call_id status payload s =
    if not (service_id == s.service_id) then s else on_rpc_response call_id status payload s

-- `MarkServiceDisconnected`, for the service's own ID.
unfoldable pub mark_service_disconnected : Base → Base
mark_service_disconnected s =
    let lost = record s { service_discovered = false } in
    if s.rpc_call_active
    then record lost {
      rpc_response_status = 255;
      rpc_received_size = 0;
      rpc_response_payload_size = 0;
      rpc_call_active = false;
    }
    else lost

-- What `OnServiceDiscovered` asks of ServiceIO.
pub data IoCall : Type 0 where
  register_io unregister_io : IoCall

abbrev pub is_compatible : {D : Type 0} → ServiceInfo D → Base → Bool
is_compatible info s =
    (info.service_id == s.service_id)
    && (same_string (info.description).type_name s.type_name
        && ((info.description).version == s.version))

abbrev pub accept_service : Base → Base × (Bool × List IoCall)
accept_service s = (
  record s { service_discovered = true; io_callbacks_registered = true },
  (true, if s.io_callbacks_registered then [] else register_io ∷ []),
)

unfoldable pub reject_service : Base → Base × (Bool × List IoCall)
reject_service s =
    let cleared = record s { service_discovered = false; io_callbacks_registered = false } in
    if s.io_callbacks_registered
    then (mark_service_disconnected cleared, (false, unregister_io ∷ []))
    else (cleared, (false, []))

-- `OnServiceDiscovered`, with what GetServiceInfo answers.
unfoldable pub base_on_service_discovered :
    {D : Type 0} → ℕ → Option (ServiceInfo D) → Base → Base × (Bool × List IoCall)
base_on_service_discovered service_id none s = (s, (false, []))
base_on_service_discovered service_id (some info) s =
    if not (s.service_id == service_id)
    then (s, (false, []))
    else if is_compatible info s
    then accept_service s
    else reject_service s

-- What SendRpc returns: for RPC_OK with `*response_buffer_size` and the bytes written to the caller's buffer.
pub data RpcResult : Type 0 where
  rpc_ok : ℕ → List ℕ → RpcResult
  rpc_error rpc_timeout : RpcResult

-- `SendRpc` from the end of its wait: the wait ends with no call active, or by the timeout.
unfoldable pub end_rpc : ℕ → Base → Base × RpcResult
end_rpc response_max s =
    if s.rpc_call_active then (record s { rpc_call_active = false }, rpc_timeout) else (
      s,
      if not (s.rpc_response_status == 0)
          then rpc_error
          else if ltb response_max s.rpc_received_size
          then rpc_error
          else rpc_ok s.rpc_response_payload_size s.rpc_response,
    )
