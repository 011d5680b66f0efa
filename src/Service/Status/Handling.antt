-- ===== src/Service/Status/Handling.antt =====
-- Every message that a service handles keeps its schedules in step with its status.
use mathlib.Core.Bool.{false≢true}
use xbot_framework.Prelude.{
  ℕ, suc, ◌+◌, ◌≡◌, refl, ◌∙◌, ap, sym, List, Option, none, some, Bool, true, false, ◌&&◌, ◌==◌,
  arith, if◌then◌else◌, if-keeps, length, ltb, size_mod,
}
use xbot_framework.Wire.Header.{
  Header, MessageType, claim, data_message, transaction, description_request, rpc_call,
  decode_header,
}
use xbot_framework.Wire.Payloads.{
  ClaimPayload, decode_claim, claim_size, DescriptionRequestPayload, decode_request,
}
use xbot_framework.Wire.Frames.Walk.{walk-keeps}
use xbot_framework.Scheduler.{set_interval}
use xbot_framework.Service.State.{Service, is_claimed, heartbeat_schedule}
use xbot_framework.Service.Send.{send_data_claim_ack, transmit}
use xbot_framework.Service.Rpc.{busy}
use xbot_framework.Service.User.{Impl, run_method}
use xbot_framework.Service.Lifecycle.{
  on_lifecycle_status_changed, start_service, stop_if_running, load_configuration_defaults,
  calculate_heartbeat_interval,
}
use xbot_framework.Service.Handlers.{
  accept_claim, handle_claim_message, handle_data_message, deliver, handle_data_transaction,
  set_one_register, set_registers, configured, handle_configuration_transaction, handle_rpc_call,
  send_window, answer_request, handle_description_request, handle_transaction, handle_message,
  process_packet,
}
use xbot_framework.Service.Status.{IsConsistent, Follows-IsShaped}
use xbot_framework.Service.Status.Core.{
  Core, core, core-run_method, core-send_data_claim_ack, core-transmit_rpc_response,
}
use xbot_framework.Service.Status.Changes.{
  lifecycle-Follows, lifecycle-IsConsistent, IsConsistent-IsShaped, core-IsConsistent,
  core-IsShaped, heartbeat-IsShaped,
}
use xbot_framework.Service.Status.Starting.{
  stop_if_running-IsConsistent, load-IsConsistent, start_if_unconfigured-IsConsistent, HasShape,
  run_method-IsConsistent,
}

module _ {U : Type 0} where
  module _ (impl : Impl U) where
    accept_claim-IsConsistent :
        (c : ClaimPayload) (s : Service U)
        → HasShape s
        → s.is_running ≡ false
        → IsConsistent (accept_claim impl c s)
    unfolding accept_claim set_interval
    accept_claim-IsConsistent c s h stands =
        start_if_unconfigured-IsConsistent impl (load_configuration_defaults impl told) (
          (load-IsConsistent impl told (IsConsistent-IsShaped told told-IsConsistent)
            told_stands).0)
      where
        claimed : Service U
        claimed = record s {
          target_ip = c.target_ip;
          target_port = c.target_port;
          sd_discovery_timed_out = false;
          scheduler =
              set_interval heartbeat_schedule (calculate_heartbeat_interval c.heartbeat_micros) true
                s.scheduler;
        }

        acked : Service U
        acked = (send_data_claim_ack claimed).0

        told : Service U
        told = on_lifecycle_status_changed acked

        stands' : acked.is_running ≡ false
        stands' = ap (λ (k : Core). k.is_running) (core-send_data_claim_ack claimed) ∙ stands

        told-IsConsistent : IsConsistent told
        told-IsConsistent =
            lifecycle-IsConsistent acked
              (core-IsShaped claimed acked (core-send_data_claim_ack claimed) (
                heartbeat-IsShaped (s.scheduler).now
                  (calculate_heartbeat_interval c.heartbeat_micros) (s.scheduler).schedules h))
              (λ runs. absurd (false≢true (sym stands' ∙ runs)))

        told_stands : told.is_running ≡ false
        told_stands = unfold on_lifecycle_status_changed in stands'

    claim-IsConsistent :
        (payload : List ℕ) (s : Service U)
        → IsConsistent s
        → IsConsistent (handle_claim_message impl payload s)
    unfolding handle_claim_message
    claim-IsConsistent payload s v =
        let stopped_service = stop_if_running-IsConsistent impl s v in
        if-keeps IsConsistent (length payload == claim_size)
          (accept_claim impl (decode_claim payload) (stop_if_running impl s)) s
          (λ _.
            accept_claim-IsConsistent (decode_claim payload) (stop_if_running impl s)
              (IsConsistent-IsShaped (stop_if_running impl s) stopped_service.0) stopped_service.1)
          (λ _. v)

    deliver-IsConsistent :
        (target_id : ℕ) (content : List ℕ) (s : Service U)
        → IsConsistent s
        → IsConsistent (deliver impl target_id content s).0
    unfolding deliver
    deliver-IsConsistent target_id content s v =
        run_method-IsConsistent (impl.handle_data target_id content) s v

    data_transaction-IsConsistent :
        (h : Header) (payload : List ℕ) (s : Service U)
        → IsConsistent s
        → IsConsistent (handle_data_transaction impl h payload s)
    unfolding handle_data_transaction
    data_transaction-IsConsistent h payload s v =
        run_method-IsConsistent impl.on_transaction_end _ (
          walk-keeps IsConsistent size_mod (deliver impl) deliver-IsConsistent
            (suc (length payload)) payload 0 _
            (run_method-IsConsistent (impl.on_transaction_start h.timestamp) s v))

    one_register-IsConsistent :
        (target_id : ℕ) (content : List ℕ) (s : Service U)
        → IsConsistent s × (s.is_running ≡ false)
        → IsConsistent (set_one_register impl target_id content s).0
          × ((set_one_register impl target_id content s).0.is_running ≡ false)
    unfolding set_one_register
    one_register-IsConsistent target_id content s v =
        let m = impl.set_register target_id content in
        (
          run_method-IsConsistent m s v.0,
          ap (λ (k : Core). k.is_running) (core-run_method m s) ∙ v.1,
        )

    registers-IsConsistent :
        (payload : List ℕ) (s : Service U)
        → IsConsistent s × (s.is_running ≡ false)
        → IsConsistent (set_registers impl payload s).0
          × ((set_registers impl payload s).0.is_running ≡ false)
    unfolding set_registers
    registers-IsConsistent payload s v =
        walk-keeps (λ t. IsConsistent t × (t.is_running ≡ false)) size_mod (set_one_register impl)
          one_register-IsConsistent (suc (length payload)) payload 0 s v

    -- The start and the mark that follows it, from a service that does not run.
    configured-IsConsistent :
        (s : Service U) → IsConsistent s → IsConsistent (configured impl (start_service impl s))
    unfolding start_service
    configured-IsConsistent s v = by_result (run_method impl.on_start s).1 refl
      where
        s' : Service U
        s' = (run_method impl.on_start s).0

        running : Service U
        running = on_lifecycle_status_changed (record s' { is_running = true })

        s'-HasShape : HasShape s'
        s'-HasShape =
            core-IsShaped s s' (core-run_method impl.on_start s) (IsConsistent-IsShaped s v)

        running-HasShape : HasShape running
        running-HasShape =
            Follows-IsShaped (running.scheduler).schedules (is_claimed s') s'.sd_discovery_timed_out
              s'.config_required (lifecycle-Follows (record s' { is_running = true }) s'-HasShape)

        by_result :
            (b : Bool)
            → (run_method impl.on_start s).1 ≡ b
            → IsConsistent (configured impl (if b then (running, true) else (s', false)))
        by_result true e =
            lifecycle-IsConsistent (record running { config_required = false }) running-HasShape
              (λ _. refl)
        by_result false e = run_method-IsConsistent impl.on_start s v

    config-IsConsistent :
        (payload : List ℕ) (s : Service U)
        → IsConsistent s
        → IsConsistent (handle_configuration_transaction impl payload s)
    unfolding handle_configuration_transaction
    config-IsConsistent payload s v =
        if-keeps IsConsistent _ (configured impl (start_service impl result.0)) result.0
          (λ _. configured-IsConsistent result.0 applied.0) (λ _. applied.0)
      where
        halted : Service U
        halted = stop_if_running impl s

        loaded : Service U
        loaded = load_configuration_defaults impl halted

        result : Service U × Bool
        result = set_registers impl payload loaded

        applied : IsConsistent result.0 × (result.0.is_running ≡ false)
        applied =
            let stands = stop_if_running-IsConsistent impl s v in
            registers-IsConsistent payload loaded
              (load-IsConsistent impl halted (IsConsistent-IsShaped halted stands.0) stands.1)

    rpc-IsConsistent :
        (h : Header) (payload : List ℕ) (s : Service U)
        → IsConsistent s
        → IsConsistent (handle_rpc_call impl h payload s)
    unfolding handle_rpc_call
    rpc-IsConsistent h payload s v =
        if-keeps IsConsistent s.rpc_in_progress _ _
          (λ _. core-IsConsistent s _ (core-transmit_rpc_response h.arg2 busy none 0 s) v)
          (λ _.
            run_method-IsConsistent (impl.dispatch_rpc_call h.arg1 h.arg2 payload)
              (record s { rpc_in_progress = true; rpc_pending_call_id = h.arg2 })
              (core-IsConsistent s _ refl v))

    answer-core :
        (limit : ℕ) (r : DescriptionRequestPayload) (omitted : List ℕ) (s : Service U)
        → core (answer_request impl limit r omitted s) ≡ core s
    unfolding answer_request send_window transmit
    answer-core limit r omitted s = ground arith

    description-IsConsistent :
        (h : Header) (payload : List ℕ) (s : Service U)
        → IsConsistent s
        → IsConsistent (handle_description_request impl h payload s)
    unfolding handle_description_request
    description-IsConsistent h payload s v =
        if-keeps IsConsistent _ _ s (λ _. with_omitted impl.omitted_description) (λ _. v)
      where
        with_omitted :
            (o : Option (List ℕ))
            → IsConsistent (elim o [
              | none ↦ s
              | some omitted ↦
                  if length omitted == 0
                  then s
                  else answer_request impl h.arg2 (decode_request payload) omitted s
            ])
        with_omitted none = v
        with_omitted (some omitted) =
            if-keeps IsConsistent (length omitted == 0) s _ (λ _. v)
              (λ _. core-IsConsistent s _ (answer-core h.arg2 (decode_request payload) omitted s) v)

    transaction-IsConsistent :
        (h : Header) (payload : List ℕ) (s : Service U)
        → IsConsistent s
        → IsConsistent (handle_transaction impl h payload s)
    transaction-IsConsistent h payload s v =
        if-keeps IsConsistent (h.arg1 == 0 && s.is_running) _ _
          (λ _. data_transaction-IsConsistent h payload s v)
          (λ _.
            if-keeps IsConsistent (h.arg1 == 1) _ s (λ _. config-IsConsistent payload s v) (λ _. v))

    message-IsConsistent :
        (t : MessageType) (h : Header) (payload : List ℕ) (s : Service U)
        → IsConsistent s
        → IsConsistent (handle_message impl t h payload s)
    unfolding handle_message handle_data_message
    message-IsConsistent claim h payload s v = claim-IsConsistent payload s v
    message-IsConsistent data_message h payload s v =
        if-keeps IsConsistent s.is_running _ s
          (λ _. run_method-IsConsistent (impl.handle_data h.arg2 payload) s v) (λ _. v)
    message-IsConsistent transaction h payload s v = transaction-IsConsistent h payload s v
    message-IsConsistent description_request h payload s v = description-IsConsistent h payload s v
    message-IsConsistent rpc_call h payload s v =
        if-keeps IsConsistent s.is_running _ s (λ _. rpc-IsConsistent h payload s v) (λ _. v)
    message-IsConsistent _ h payload s v = v

    -- Whatever packet arrives, the schedules of a service follow its status afterwards, and it does not run
    -- while it still requires configuration, if this held before.
    pub process_packet-IsConsistent :
        (packet : List ℕ) (s : Service U)
        → IsConsistent s
        → IsConsistent (process_packet impl packet s)
    unfolding process_packet
    process_packet-IsConsistent packet s v =
        let h = decode_header packet in
        if-keeps IsConsistent (ltb (length packet) 24) s _ (λ _. v)
          (λ _.
            if-keeps IsConsistent (ltb (length packet) (24 + h.payload_size)) s _ (λ _. v)
              (λ _. message-IsConsistent h.message_type h _ s v))
