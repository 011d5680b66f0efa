-- ===== src/Service/Responses.antt =====
-- Service.cpp: the packet of a response, and the calls that a service does not expect to answer.
use xbot_framework.Prelude.{
  ℕ, ◌+◌, ◌≤◌, ◌≡◌, refl, ap, sym, ◌∙◌, List, [], ◌∷◌, ◌++◌, Option, none, some, Bool, true, false,
  not, ◌&&◌, ◌||◌, ◌==◌, ltb, arith, if◌then◌else◌, if-keeps, length, le→ltb, length-take,
}
use xbot_framework.Wire.Header.{Header, rpc_response, encode_header, header_size}
use xbot_framework.Portable.Packet.{Datagram, max_packet_size}
use xbot_framework.Service.State.{Service, is_claimed, scratch_size}
use xbot_framework.Service.Send.{next_header, fill_header, send_with, transmit}
use xbot_framework.Service.Rpc.{
  RpcStatus, error, status_code, is_success, bytes_of, size_of, transmit_rpc_response,
  send_rpc_response,
}
use xbot_framework.Service.Sending.{packet_of_fit}

-- A pointer to data and its size are passed together.
abbrev pub IsSized : Option (List ℕ) → ℕ → Type 0
IsSized none size = Unit
IsSized (some bytes) size = length bytes ≡ size

-- What a response to the expected call must carry: an error without data if the data is longer than the
-- call's return type or than a packet can hold, else what was passed.
abbrev pub carried : RpcStatus → Option (List ℕ) → ℕ → ℕ → RpcStatus × List ℕ
carried status content size max_response =
    if is_success status && ltb max_response size || ltb scratch_size size
    then (error, [])
    else (status, bytes_of content size)

pub size_of_le : (content : Option (List ℕ)) (size : ℕ) → size_of content size ≤ size
size_of_le none size = omega arith
size_of_le (some bytes) size = omega arith

length-bytes_of :
    (content : Option (List ℕ)) (size : ℕ)
    → IsSized content size
    → length (bytes_of content size) ≡ size_of content size
length-bytes_of none size sized = refl
length-bytes_of (some bytes) size sized = omega (arith, length-take size bytes)

module _ {U : Type 0} where
  -- The answer with a status and a payload to a call, as the claimer gets it.
  abbrev pub answer : ℕ → RpcStatus → List ℕ → Service U → Datagram
  answer call_id status payload s = record {
    ip = s.target_ip;
    port = s.target_port;
    bytes =
        encode_header (record (next_header s.service_id s.time_micros s.header) {
          message_type = rpc_response;
          arg1 = status_code status;
          arg2 = call_id;
          payload_size = length payload;
        })
        ++ payload;
  }

  pub transmit-keeps_rpc :
      (call_id : ℕ) (status : RpcStatus) (content : Option (List ℕ)) (size : ℕ) (s : Service U)
      → let s' = (transmit_rpc_response call_id status content size s).0 in
        (s'.rpc_in_progress ≡ s.rpc_in_progress) × (s'.rpc_pending_call_id ≡ s.rpc_pending_call_id)
  unfolding transmit_rpc_response send_with transmit fill_header
  transmit-keeps_rpc call_id status content size s =
      if-keeps P (not (is_claimed s)) (s, false) _ (λ _. (refl, refl))
        (λ _.
          if-keeps P (ltb max_packet_size (header_size + size_of content size)) (s, false) _
            (λ _. (refl, refl)) (λ _. (refl, refl)))
    where
      P : Service U × Bool → Type 0
      P r =
          (r.0.rpc_in_progress ≡ s.rpc_in_progress)
          × (r.0.rpc_pending_call_id ≡ s.rpc_pending_call_id)

  pub transmit-sent :
      (call_id : ℕ) (status : RpcStatus) (content : Option (List ℕ)) (size : ℕ) (s : Service U)
      → is_claimed s ≡ true
      → IsSized content size
      → size_of content size ≤ scratch_size
      → (transmit_rpc_response call_id status content size s).0.sent
        ≡ answer call_id status (bytes_of content size) s ∷ s.sent
  unfolding transmit_rpc_response send_with transmit fill_header
  transmit-sent call_id status content size s claimed sized fits =
      rw (claimed, le→ltb max_packet_size (header_size + size_of content size) (omega arith))
        (ap (λ (b : List ℕ). record { ip = s.target_ip; port = s.target_port; bytes = b } ∷ s.sent)
          (packet_of_fit (header (size_of content size)) (bytes_of content size)
              (omega (arith, length-bytes_of content size sized))
            ∙ ap (λ (n : ℕ). encode_header (header n) ++ bytes_of content size)
                (sym (length-bytes_of content size sized))))
    where
      header : ℕ → Header
      header n = record (next_header s.service_id s.time_micros s.header) {
        message_type = rpc_response;
        arg1 = status_code status;
        arg2 = call_id;
        payload_size = n;
      }

  -- The service does not expect a response to this call.
  abbrev pub unexpected : ℕ → Service U → Bool
  unexpected call_id s = not s.rpc_in_progress || not (call_id == s.rpc_pending_call_id)

  pub ignored :
      (call_id : ℕ) (status : RpcStatus) (content : Option (List ℕ)) (size : ℕ) (s : Service U)
      → unexpected call_id s ≡ true
      → send_rpc_response call_id status content size s ≡ (s, false)
  unfolding send_rpc_response
  ignored call_id status content size s e = rw e refl

  over-unexpected :
      (call_id : ℕ) (s : Service U) → s.rpc_in_progress ≡ false → unexpected call_id s ≡ true
  over-unexpected call_id s e = rw e refl

  pub answered :
      (call_id : ℕ) (status : RpcStatus) (content : Option (List ℕ)) (size : ℕ) (s : Service U)
      → unexpected call_id (send_rpc_response call_id status content size s).0 ≡ true
  unfolding send_rpc_response
  answered call_id status content size s =
      if-keeps P (unexpected call_id s) (s, false) _ (λ e. e)
        (λ _.
          if-keeps P (is_success status && ltb s.rpc_max_response_size size) ((refused).0, false) _
            (λ _. after error none 0)
            (λ _.
              if-keeps P (ltb max_packet_size (header_size + size)) ((refused).0, false) _
                (λ _. after error none 0) (λ _. after status content size)))
    where
      P : Service U × Bool → Type 0
      P r = unexpected call_id r.0 ≡ true

      cleared : Service U
      cleared = record s { rpc_in_progress = false }

      refused : Service U × Bool
      refused = transmit_rpc_response call_id error none 0 cleared

      after :
          (status' : RpcStatus) (content' : Option (List ℕ)) (size' : ℕ)
          → unexpected call_id (transmit_rpc_response call_id status' content' size' cleared).0
            ≡ true
      after status' content' size' =
          over-unexpected call_id (transmit_rpc_response call_id status' content' size' cleared).0
            (transmit-keeps_rpc call_id status' content' size' cleared).0
