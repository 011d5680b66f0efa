-- ===== src/Interface/Io/Keeps.antt =====
-- ServiceIO.cpp: what the scan of the endpoints and new values of old endpoints keep, the rounds of `RunIo` keep.
use xbot_framework.Prelude.{
  ℕ, suc, ◌-◌, size_mod, ◌≡◌, refl, ap, List, [], ◌∷◌, ◌++◌, foldl, Option, none, some, Bool, true,
  false, not, ◌||◌, ◌==◌, ltb, if◌then◌else◌, if-keeps, Option-cases, inl, inr, length, drop,
}
use xbot_framework.Wire.Header.{
  Header, MessageType, header_size, encode_header, decode_header, claim, data_message,
  configuration_request, heartbeat, transaction, rpc_response,
}
use xbot_framework.Wire.Payloads.{encode_claim}
use xbot_framework.Interface.Maps.{Map, find, insert, contains, is_some}
use xbot_framework.Interface.Discovery.{get_endpoint, drop_service}
use xbot_framework.Wire.Frames.Walk.{walk-keeps}
use xbot_framework.Interface.Io.Messages.{
  serves, handle_claim_ack, io_handle_data, deliver_transaction, io_handle_transaction,
  handle_heartbeat, ask_for_configuration, handle_configuration_request, handle_rpc_response,
  io_handle_message, io_receive, io_round,
}
use xbot_framework.Interface.Io.Claims.{
  claim_header, claim_service, send_claim, scan, disconnect, run_checks,
}
use xbot_framework.Interface.Io.State.{
  micros_since, service_disconnected, service_connected, config_requested, default_heartbeat_micros,
  Io, ServiceState, callbacks_of, emit, io_send_data, transmit_packet,
}

pub foldl-keeps {ℓ κ} :
    {S : Type ℓ} {A : Type κ} (P : S → Type 0) (f : S → A → S) (xs : List A) (s : S)
    → ((t : S) (x : A) → P t → P (f t x))
    → P s
    → P (foldl f s xs)
foldl-keeps P f [] s keep p = p
foldl-keeps P f (x ∷ xs) s keep p = foldl-keeps P f xs (f s x) keep (keep s x p)

module _ {D : Type 0} (P : Map ServiceState → Map (List ℕ) → Type 0)
    (replaced : (i : ℕ) (state : ServiceState) (m : Map ServiceState) (registered : Map (List ℕ))
      → contains i m ≡ true
      → P m registered
      → P (insert i state m) registered)
    (scanned : (now : ℕ) (m : Map ServiceState) (registered : Map (List ℕ))
      → P m registered
      → P (scan now m).1.1 registered) where
  abbrev Keeps : Io D → Type 0
  Keeps s = P s.endpoint_map s.registered_callbacks

  transmit-Keeps :
      (ip port : ℕ) (bytes : List ℕ) (s : Io D)
      → Keeps s
      → Keeps (transmit_packet ip port bytes s).0
  unfolding transmit_packet
  transmit-Keeps ip port bytes s v =
      if-keeps (λ (r : Io D × Bool). Keeps r.0) (ip == 0 || port == 0) (s, false) _ (λ _. v)
        (λ _.
          if-keeps (λ (r : Io D × Bool). Keeps r.0) s.socket_sends _ (s, false) (λ _. v) (λ _. v))

  io_send-Keeps : (i : ℕ) (bytes : List ℕ) (s : Io D) → Keeps s → Keeps (io_send_data i bytes s).0
  unfolding io_send_data
  io_send-Keeps i bytes s v = elim (Option-cases (get_endpoint i s.discovery)) [
    | inl e ↦ rw (e, io_send_data) v
    | inr ((ip, port), e) ↦ rw (e, io_send_data) (transmit-Keeps ip port bytes s v)
  ]

  send_claim-Keeps : (now i : ℕ) (s : Io D) → Keeps s → Keeps (send_claim now i s)
  unfolding send_claim
  send_claim-Keeps now i s v = by_own s.own_endpoint
    where
      by_own :
          (o : Option (ℕ × ℕ))
          → Keeps (elim o [
            | none ↦ s
            | some (my_ip, my_port) ↦
                if my_ip == 0 || my_port == 0
                then s
                else (io_send_data i
                    (encode_header (claim_header now i)
                      ++ encode_claim (record {
                        target_ip = my_ip;
                        target_port = my_port;
                        heartbeat_micros = default_heartbeat_micros;
                      }))
                    s).0
          ])
      by_own none = v
      by_own (some (my_ip, my_port)) =
          if-keeps Keeps (my_ip == 0 || my_port == 0) s _ (λ _. v) (λ _. io_send-Keeps i _ s v)

  pub claim-Keeps : (now : ℕ) (s : Io D) (i : ℕ) → Keeps s → Keeps (claim_service now s i)
  unfolding claim_service
  claim-Keeps now s i v = by_state (find i s.endpoint_map) refl
    where
      claimed : ServiceState → Io D
      claimed state = record s {
        endpoint_map =
            insert i (record state { last_claim_sent = now; claimed_successfully = false })
              s.endpoint_map;
      }

      by_state :
          (o : Option ServiceState)
          → find i s.endpoint_map ≡ o
          → Keeps (elim o [
            | none ↦ s
            | some state ↦
                if ltb (micros_since now state.last_claim_sent) 1000
                then s
                else send_claim now i (claimed state)
          ])
      by_state none e = v
      by_state (some state) e =
          if-keeps Keeps (ltb (micros_since now state.last_claim_sent) 1000) s _ (λ _. v)
            (λ _.
              send_claim-Keeps now i (claimed state)
                (replaced i _ s.endpoint_map s.registered_callbacks (ap is_some e) v))

  pub disconnect-Keeps :
      (registered : Map (List ℕ)) (s : Io D) (i : ℕ) → Keeps s → Keeps (disconnect registered s i)
  unfolding disconnect
  disconnect-Keeps registered s i v = by_registered (find i registered)
    where
      by_registered :
          (o : Option (List ℕ))
          → Keeps (elim o [
            | none ↦ s
            | some callbacks ↦
                foldl
                  (λ (t : Io D) (c : ℕ). emit (service_disconnected c i) t)
                  (record s { discovery = (drop_service i s.discovery).0 })
                  callbacks
          ])
      by_registered none = v
      by_registered (some callbacks) = foldl-keeps Keeps _ callbacks _ (λ t c w. w) v

  run_checks-Keeps : (now : ℕ) (s : Io D) → Keeps s → Keeps (run_checks now s)
  unfolding run_checks
  run_checks-Keeps now s v =
      if-keeps Keeps (ltb 1000000 (micros_since now s.last_check)) _ s
        (λ _.
          foldl-keeps Keeps (disconnect s.registered_callbacks) (scan now s.endpoint_map).1.0 _
            (λ t i w. disconnect-Keeps s.registered_callbacks t i w)
            (foldl-keeps Keeps (claim_service now) (scan now s.endpoint_map).0 _
              (λ t i w. claim-Keeps now t i w)
              (scanned now s.endpoint_map s.registered_callbacks v)))
        (λ _. v)

  ack-Keeps : (now : ℕ) (h : Header) (s : Io D) → Keeps s → Keeps (handle_claim_ack now h s)
  unfolding handle_claim_ack
  ack-Keeps now h s v =
      if-keeps Keeps (not (h.arg1 == 1)) s _ (λ _. v)
        (λ _. by_state (find h.service_id s.endpoint_map) refl)
    where
      heard : ServiceState → ServiceState
      heard state = record state { last_heartbeat_received = now }

      by_state :
          (o : Option ServiceState)
          → find h.service_id s.endpoint_map ≡ o
          → Keeps (elim o [
            | none ↦ s
            | some state ↦
                if state.claimed_successfully
                then record s { endpoint_map = insert h.service_id (heard state) s.endpoint_map }
                else foldl
                    (λ (t : Io D) (c : ℕ). emit (service_connected c h.service_id) t)
                    (record s {
                      endpoint_map =
                          insert h.service_id
                            (record (heard state) { claimed_successfully = true })
                            s.endpoint_map;
                    })
                    (callbacks_of h.service_id s)
          ])
      by_state none e = v
      by_state (some state) e =
          if-keeps Keeps state.claimed_successfully _ _
            (λ _. replaced h.service_id _ s.endpoint_map s.registered_callbacks (ap is_some e) v)
            (λ _.
              foldl-keeps Keeps _ (callbacks_of h.service_id s) _ (λ t c w. w)
                (replaced h.service_id _ s.endpoint_map s.registered_callbacks (ap is_some e) v))

  heartbeat-Keeps : (now : ℕ) (h : Header) (s : Io D) → Keeps s → Keeps (handle_heartbeat now h s)
  unfolding handle_heartbeat
  heartbeat-Keeps now h s v = by_state (find h.service_id s.endpoint_map) refl
    where
      by_state :
          (o : Option ServiceState)
          → find h.service_id s.endpoint_map ≡ o
          → Keeps (elim o [
            | none ↦ s
            | some state ↦ record s {
              endpoint_map =
                  insert h.service_id
                    (record state { last_heartbeat_received = now })
                    s.endpoint_map;
            }
          ])
      by_state none e = v
      by_state (some state) e =
          replaced h.service_id _ s.endpoint_map s.registered_callbacks (ap is_some e) v

  data-Keeps :
      (h : Header) (payload : List ℕ) (s : Io D) → Keeps s → Keeps (io_handle_data h payload s)
  unfolding io_handle_data
  data-Keeps h payload s v =
      if-keeps Keeps (serves h.service_id s) _ s
        (λ _. foldl-keeps Keeps _ (callbacks_of h.service_id s) s (λ t c w. w) v) (λ _. v)

  rpc-Keeps :
      (h : Header) (payload : List ℕ) (s : Io D) → Keeps s → Keeps (handle_rpc_response h payload s)
  unfolding handle_rpc_response
  rpc-Keeps h payload s v =
      if-keeps Keeps (serves h.service_id s) _ s
        (λ _. foldl-keeps Keeps _ (callbacks_of h.service_id s) s (λ t c w. w) v) (λ _. v)

  transaction-Keeps :
      (h : Header) (payload : List ℕ) (s : Io D)
      → Keeps s
      → Keeps (io_handle_transaction h payload s)
  unfolding io_handle_transaction deliver_transaction
  transaction-Keeps h payload s v =
      if-keeps Keeps (serves h.service_id s) _ s
        (λ _.
          foldl-keeps Keeps _ (callbacks_of h.service_id s) s
            (λ t c w.
              walk-keeps Keeps size_mod _ (λ i content u x. x) (suc (length payload)) payload 0 _ w)
            v)
        (λ _. v)

  ask-Keeps : (i : ℕ) (cs : List ℕ) (s : Io D) → Keeps s → Keeps (ask_for_configuration i cs s)
  unfolding ask_for_configuration
  ask-Keeps i [] s v = v
  ask-Keeps i (c ∷ cs) s v =
      if-keeps Keeps (s.configures c i) _ _ (λ _. v)
        (λ _. ask-Keeps i cs (emit (config_requested c i) s) v)

  request-Keeps : (h : Header) (s : Io D) → Keeps s → Keeps (handle_configuration_request h s)
  unfolding handle_configuration_request
  request-Keeps h s v =
      if-keeps Keeps (serves h.service_id s) _ s
        (λ _. ask-Keeps h.service_id (callbacks_of h.service_id s) s v) (λ _. v)

  message-Keeps :
      (now : ℕ) (m : MessageType) (h : Header) (payload : List ℕ) (s : Io D)
      → Keeps s
      → Keeps (io_handle_message now m h payload s)
  unfolding io_handle_message
  message-Keeps now claim h payload s v = ack-Keeps now h s v
  message-Keeps now data_message h payload s v = data-Keeps h payload s v
  message-Keeps now configuration_request h payload s v = request-Keeps h s v
  message-Keeps now heartbeat h payload s v = heartbeat-Keeps now h s v
  message-Keeps now transaction h payload s v =
      if-keeps Keeps (h.arg1 == 0) _ s (λ _. transaction-Keeps h payload s v) (λ _. v)
  message-Keeps now rpc_response h payload s v = rpc-Keeps h payload s v
  message-Keeps now _ h payload s v = v

  receive-Keeps : (now : ℕ) (packet : List ℕ) (s : Io D) → Keeps s → Keeps (io_receive now packet s)
  unfolding io_receive
  receive-Keeps now packet s v =
      let h = decode_header packet in
      if-keeps Keeps (ltb (length packet) header_size) s _ (λ _. v)
        (λ _.
          if-keeps Keeps (h.payload_size == length packet - header_size) _ s
            (λ _. message-Keeps now h.message_type h (drop header_size packet) s v) (λ _. v))

  pub round-Keeps :
      (now : ℕ) (packet : Option (List ℕ)) (s : Io D) → Keeps s → Keeps (io_round now packet s)
  unfolding io_round
  round-Keeps now none s v = run_checks-Keeps now s v
  round-Keeps now (some packet) s v =
      receive-Keeps now packet (run_checks now s) (run_checks-Keeps now s v)
