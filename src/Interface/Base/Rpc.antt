-- ===== src/Interface/Base/Rpc.antt =====
-- ServiceInterfaceBase.cpp: the RPC calls of an interface, between what arrives for it.
use xbot_framework.Prelude.{
  ℕ, ◌≡◌, refl, ap, sym, subst, ◌∙◌, List, [], ◌∷◌, ◌++◌, foldl, Bool, true, false, true≢false, not,
  arith, if◌then◌else◌, if-keeps, le→ltb, length, add16,
}
use xbot_framework.Wire.Header.{rpc_call, encode_header}
use xbot_framework.Interface.Base.{
  Base, IoCall, unregister_io, reject_service, issue_rpc, await_free, begin_rpc, send_buffer,
  fill_base_header, mark_service_disconnected, rpc_ok, rpc_error, rpc_timeout, end_rpc,
}
use xbot_framework.Interface.Base.Waiting.{
  Incoming, take_in, first_answer, all-Ends, end-Ends, Waits-first_answer,
}

-- A service that turns out incompatible, or whose metadata changes so, ends a call in progress with an error,
-- whatever arrives afterwards: if the interface was registered for it.
pub reject_service-end_rpc :
    (response_max : ℕ) (es : List Incoming) (s : Base)
    → s.rpc_call_active ≡ true
    → s.io_callbacks_registered ≡ true
    → let s' = (reject_service s).0 in
      (s'.service_discovered ≡ false)
      × (s'.io_callbacks_registered ≡ false)
      × ((end_rpc response_max (foldl take_in s' es)).1 ≡ rpc_error)
unfolding reject_service mark_service_disconnected
reject_service-end_rpc response_max es s active registered =
    if-keeps P s.io_callbacks_registered _ _
      (λ _.
        if-keeps (λ (t : Base). P (t, (false, unregister_io ∷ []))) s.rpc_call_active _ _
          (λ _. (
            refl,
            refl,
            end-Ends response_max rpc_error _
                (all-Ends response_max rpc_error es _ (record { over = refl; result_is = refl })),
          ))
          (λ off. absurd (true≢false (sym active ∙ off))))
      (λ off. absurd (true≢false (sym registered ∙ off)))
  where
    P : Base × (Bool × List IoCall) → Type 0
    P r =
        (r.0.service_discovered ≡ false)
        × (r.0.io_callbacks_registered ≡ false)
        × ((end_rpc response_max (foldl take_in r.0 es)).1 ≡ rpc_error)

-- The state that `issue_rpc` hands to ServiceIO.
abbrev pub prepared : ℕ → List ℕ → Base → Base
prepared function_id params s =
    let call_id = add16 s.rpc_call_counter 1 in
    let h = (fill_base_header s).header in
    record s {
      rpc_call_counter = call_id;
      pending_call_id = call_id;
      rpc_call_active = true;
      rpc_response_status = 0;
      header = h;
      buffer_header = record h {
        arg1 = function_id;
        payload_size = length params;
        arg2 = call_id;
        message_type = rpc_call;
      };
      buffer = params;
    }

abbrev pub posted : Base → Base
posted s = record s { sent = (encode_header s.buffer_header ++ s.buffer) ∷ s.sent }

send_buffer-sent : (s : Base) → s.io_sends ≡ true → send_buffer s ≡ (posted s, true)
unfolding send_buffer
send_buffer-sent s sends =
    if-keeps (λ (r : Base × Bool). r ≡ (posted s, true)) s.io_sends _ _ (λ _. refl)
      (λ off. absurd (true≢false (sym sends ∙ off)))

abbrev pub waiting : ℕ → List ℕ → ℕ → Base → Base
waiting function_id params response_max s = record (posted (prepared function_id params s)) {
  rpc_response = [];
  rpc_response_payload_size = response_max;
  rpc_received_size = 0;
}

pub issue_rpc-sent :
    (function_id : ℕ) (params : List ℕ) (response_max : ℕ) (s : Base)
    → s.io_sends ≡ true
    → issue_rpc function_id params response_max s
      ≡ (waiting function_id params response_max s, true)
unfolding issue_rpc
issue_rpc-sent function_id params response_max s sends =
    ap
      (λ (r : Base × Bool).
        if r.1
        then (
          record (r.0) {
            rpc_response = [];
            rpc_response_payload_size = response_max;
            rpc_received_size = 0;
          },
          true,
        )
        else (record (r.0) { rpc_call_active = false }, false))
      (send_buffer-sent (prepared function_id params s) sends)

pub begin_rpc-sent :
    (others : Base → Base) (function_id : ℕ) (params : List ℕ) (response_max : ℕ) (s : Base)
    → s.service_discovered ≡ true
    → (await_free others s).io_sends ≡ true
    → begin_rpc others function_id params response_max s
      ≡ (waiting function_id params response_max (await_free others s), true)
unfolding begin_rpc
begin_rpc-sent others function_id params response_max s known sends =
    ap
      (λ (b : Bool).
        if not b
        then (s, false)
        else issue_rpc function_id params response_max (await_free others s))
      known
    ∙ issue_rpc-sent function_id params response_max (await_free others s) sends

-- A call of a discovered service, whose packet goes out once no other call is in flight, returns what the first
-- response with its ID means, or an error if the service is lost before one, or the timeout: whatever the
-- other threads do during the first wait, and whatever arrives during the second, in any order, responses
-- to other calls and further responses included.
pub begin_rpc-first_answer :
    (others : Base → Base) (function_id : ℕ) (params : List ℕ) (response_max : ℕ)
    (es : List Incoming) (s : Base)
    → s.service_discovered ≡ true
    → (await_free others s).io_sends ≡ true
    → let (s', begun) = begin_rpc others function_id params response_max s in
      (begun ≡ true)
      × ((end_rpc response_max (foldl take_in s' es)).1
          ≡ first_answer (add16 (await_free others s).rpc_call_counter 1) response_max es)
begin_rpc-first_answer others function_id params response_max es s known sends =
    let call_id = add16 (await_free others s).rpc_call_counter 1 in
    subst
      (λ (r : Base × Bool).
        (r.1 ≡ true)
        × ((end_rpc response_max (foldl take_in r.0 es)).1 ≡ first_answer call_id response_max es))
      (sym (begin_rpc-sent others function_id params response_max s known sends))
      (
        refl,
        Waits-first_answer call_id response_max es
            (waiting function_id params response_max (await_free others s))
            (record { active = refl; pending = refl; room = refl }),
      )

-- A call of a discovered service, whose packet goes out before the caller of an earlier call, answered or not,
-- has woken up: if the earlier one then runs into its timeout, it returns RPC_TIMEOUT even if its response had
-- come, and the later call ends with RPC_OK though no response to it has come, with the full size of its
-- buffer and nothing written there.
pub begin_rpc_overtaken :
    (others : Base → Base) (function_id : ℕ) (params : List ℕ) (response_max earlier_max : ℕ)
    (s : Base)
    → s.service_discovered ≡ true
    → (await_free others s).io_sends ≡ true
    → let (earlier, earlier_result) =
        end_rpc earlier_max (begin_rpc others function_id params response_max s).0 in
      (earlier_result ≡ rpc_timeout) × ((end_rpc response_max earlier).1 ≡ rpc_ok response_max [])
unfolding end_rpc
begin_rpc_overtaken others function_id params response_max earlier_max s known sends =
    subst
      (λ (r : Base × Bool).
        let (earlier, earlier_result) = end_rpc earlier_max r.0 in
        (earlier_result ≡ rpc_timeout)
        × ((end_rpc response_max earlier).1 ≡ rpc_ok response_max []))
      (sym (begin_rpc-sent others function_id params response_max s known sends))
      (
        refl,
        ap (λ (b : Bool). if b then rpc_error else rpc_ok response_max [])
            (le→ltb response_max 0 (omega arith)),
      )
