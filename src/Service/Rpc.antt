-- ===== src/Service/Rpc.antt =====
-- Service.cpp: the RPC of a service, one call at a time.
use xbot_framework.Prelude.{
  ℕ, ◌+◌, List, [], Option, none, some, Bool, true, false, not, ◌==◌, ◌&&◌, ◌||◌, ltb,
  if◌then◌else◌, take,
}
use xbot_framework.Wire.Header.{rpc_response, header_size}
use xbot_framework.Portable.Packet.{max_packet_size}
use xbot_framework.Service.State.{Service, is_claimed}
use xbot_framework.Service.Send.{fill_header, send_with}

pub data RpcStatus : Type 0 where
  success busy error : RpcStatus

abbrev pub status_code : RpcStatus → ℕ
status_code success = 0
status_code busy = 1
status_code error = 2

abbrev pub is_success : RpcStatus → Bool
is_success success = true
is_success _ = false

-- A pointer to return data, and the size that is passed with it; no data is the null pointer.
abbrev pub bytes_of : Option (List ℕ) → ℕ → List ℕ
bytes_of none size = []
bytes_of (some bytes) size = take size bytes

abbrev pub size_of : Option (List ℕ) → ℕ → ℕ
size_of none size = 0
size_of (some bytes) size = size

module _ {U : Type 0} where
  -- `TransmitRpcResponse`
  unfoldable pub transmit_rpc_response :
      ℕ → RpcStatus → Option (List ℕ) → ℕ → Service U → Service U × Bool
  transmit_rpc_response call_id status content size s =
      if not (is_claimed s)
      then (s, false)
      else if ltb max_packet_size (header_size + size_of content size)
      then (s, false)
      else (
        let h = (fill_header s).header in
            send_with
              (record h {
                message_type = rpc_response;
                arg1 = status_code status;
                arg2 = call_id;
                payload_size = size_of content size;
              })
              (bytes_of content size) s,
        true,
      )

  -- `SendRpcResponse`
  unfoldable pub send_rpc_response :
      ℕ → RpcStatus → Option (List ℕ) → ℕ → Service U → Service U × Bool
  send_rpc_response call_id status content size s =
      if not s.rpc_in_progress || not (call_id == s.rpc_pending_call_id)
      then (s, false)
      else (let s' = record s { rpc_in_progress = false } in
          if is_success status && ltb s.rpc_max_response_size size
          then ((transmit_rpc_response call_id error none 0 s').0, false)
          else if ltb max_packet_size (header_size + size)
          then ((transmit_rpc_response call_id error none 0 s').0, false)
          else transmit_rpc_response call_id status content size s')
