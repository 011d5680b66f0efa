-- ===== src/Interface/Base/Waiting.antt =====
-- ServiceInterfaceBase.cpp: a call that waits, and what arrives for it.
use xbot_framework.Prelude.{
  ℕ, ◌≡◌, refl, ap, ap₂, sym, subst, ◌∙◌, List, [], ◌∷◌, foldl, Bool, true, false, true≢false, not,
  ◌||◌, ◌==◌, ltb, if◌then◌else◌, if-keeps, Bool-cases, ==_refl, ==_iff, inl, inr, length,
}
use xbot_framework.Interface.Base.{
  Base, on_rpc_response, mark_service_disconnected, RpcResult, rpc_ok, rpc_error, rpc_timeout,
  end_rpc,
}

-- What the IO thread tells the interface of a service.
pub data Incoming : Type 0 where
  response : ℕ → ℕ → List ℕ → Incoming
  lost : Incoming

unfoldable pub take_in : Base → Incoming → Base
take_in s (response call_id status payload) = on_rpc_response call_id status payload s
take_in s lost = mark_service_disconnected s

-- What a response means to the caller.
abbrev meaning : ℕ → ℕ → List ℕ → RpcResult
meaning response_max status payload =
    if not (status == 0)
    then rpc_error
    else if ltb response_max (length payload)
    then rpc_error
    else rpc_ok (length payload) payload

-- The first response with the call's ID, or a loss of the service before it, decides.
unfoldable pub first_answer : ℕ → ℕ → List Incoming → RpcResult
first_answer call_id response_max [] = rpc_timeout
first_answer call_id response_max (lost ∷ rest) = rpc_error
first_answer call_id response_max (response id status payload ∷ rest) =
    let later = first_answer call_id response_max rest in
    if id == call_id then meaning response_max status payload else later

-- A call waits for its response.
pub record Waits (call_id response_max : ℕ) (s : Base) : Type 0 where
  pub active : s.rpc_call_active ≡ true
  pub pending : s.pending_call_id ≡ call_id
  pub room : s.rpc_response_payload_size ≡ response_max

-- The call is over, and its caller will see this result.
pub record Ends (response_max : ℕ) (result : RpcResult) (s : Base) : Type 0 where
  pub over : s.rpc_call_active ≡ false
  pub result_is :
      (if not (s.rpc_response_status == 0)
        then rpc_error
        else if ltb response_max s.rpc_received_size
        then rpc_error
        else rpc_ok s.rpc_response_payload_size s.rpc_response)
      ≡ result

take_in-Ends :
    (m : ℕ) (r : RpcResult) (s : Base) (e : Incoming) → Ends m r s → Ends m r (take_in s e)
unfolding take_in on_rpc_response mark_service_disconnected
take_in-Ends m r s (response id status payload) v =
    if-keeps (Ends m r) (not s.rpc_call_active || not (id == s.pending_call_id)) s _ (λ _. v)
      (λ e.
        absurd
          (true≢false (sym (ap (λ (b : Bool). not b || not (id == s.pending_call_id)) v.over) ∙ e)))
take_in-Ends m r s lost v =
    if-keeps (Ends m r) s.rpc_call_active _ _ (λ on. absurd (true≢false (sym on ∙ v.over)))
      (λ _. record { over = v.over; result_is = v.result_is })

pub all-Ends :
    (m : ℕ) (r : RpcResult) (es : List Incoming) (s : Base)
    → Ends m r s
    → Ends m r (foldl take_in s es)
all-Ends m r [] s v = v
all-Ends m r (e ∷ es) s v = all-Ends m r es (take_in s e) (take_in-Ends m r s e v)

pub end-Ends : (m : ℕ) (r : RpcResult) (s : Base) → Ends m r s → (end_rpc m s).1 ≡ r
unfolding end_rpc
end-Ends m r s v =
    if-keeps (λ (p : Base × RpcResult). p.1 ≡ r) s.rpc_call_active _ _
      (λ on. absurd (true≢false (sym on ∙ v.over))) (λ _. v.result_is)

-- The guard of `OnRpcResponse`.
abbrev unexpected : ℕ → Base → Bool
unexpected id s = not s.rpc_call_active || not (id == s.pending_call_id)

expects :
    (id call_id m : ℕ) (b : Bool) (s : Base)
    → Waits call_id m s
    → (id == call_id) ≡ b
    → unexpected id s ≡ not b
expects id call_id m b s v e =
    ap₂ (λ (a c : Bool). not a || not c) v.active
      (subst (λ (n : ℕ). (id == n) ≡ b) (sym v.pending) e)

pick :
    (b : Bool) (old payload : List ℕ)
    → (if b
        then rpc_error
        else rpc_ok (if b then 0 else length payload) (if b then old else payload))
      ≡ (if b then rpc_error else rpc_ok (length payload) payload)
pick true old payload = refl
pick false old payload = refl

answers-Ends :
    (call_id m status : ℕ) (payload : List ℕ) (s : Base)
    → Waits call_id m s
    → Ends m (meaning m status payload) (on_rpc_response call_id status payload s)
unfolding on_rpc_response
answers-Ends call_id m status payload s v =
    if-keeps (Ends m (meaning m status payload)) (unexpected call_id s) s _
      (λ e. absurd (true≢false (sym e ∙ expects call_id call_id m true s v (==_refl call_id))))
      (λ _. record {
        over = refl;
        result_is =
            ap (λ (r : RpcResult). if not (status == 0) then rpc_error else r)
              (subst
                (λ (n : ℕ).
                  (if ltb m (length payload)
                    then rpc_error
                    else rpc_ok (if ltb n (length payload) then 0 else length payload)
                        (if ltb n (length payload) then s.rpc_response else payload))
                  ≡ (if ltb m (length payload) then rpc_error else rpc_ok (length payload) payload))
                (sym v.room) (pick (ltb m (length payload)) s.rpc_response payload));
      })

skips-Waits :
    (call_id m id status : ℕ) (payload : List ℕ) (s : Base)
    → (id == call_id) ≡ false
    → Waits call_id m s
    → Waits call_id m (on_rpc_response id status payload s)
unfolding on_rpc_response
skips-Waits call_id m id status payload s other v =
    if-keeps (Waits call_id m) (unexpected id s) s _ (λ _. v)
      (λ e. absurd (true≢false (sym (expects id call_id m false s v other) ∙ e)))

lost-Ends :
    (call_id m : ℕ) (s : Base) → Waits call_id m s → Ends m rpc_error (mark_service_disconnected s)
unfolding mark_service_disconnected
lost-Ends call_id m s v =
    if-keeps (Ends m rpc_error) s.rpc_call_active _ _
      (λ _. record { over = refl; result_is = refl })
      (λ off. absurd (true≢false (sym v.active ∙ off)))

pub Waits-first_answer :
    (call_id m : ℕ) (es : List Incoming) (s : Base)
    → Waits call_id m s
    → (end_rpc m (foldl take_in s es)).1 ≡ first_answer call_id m es
unfolding first_answer take_in end_rpc
Waits-first_answer call_id m [] s v = rw (v.active, end_rpc) refl
Waits-first_answer call_id m (lost ∷ es) s v =
    end-Ends m rpc_error _ (all-Ends m rpc_error es _ (lost-Ends call_id m s v))
Waits-first_answer call_id m (response id status payload ∷ es) s v =
    elim (Bool-cases (id == call_id)) [
      | inl mine ↦
          end-Ends m (meaning m status payload) _ (
            all-Ends m (meaning m status payload) es _ (
              answers-Ends id m status payload s
                (subst (λ (n : ℕ). Waits n m s) (sym ((==_iff id call_id).0 mine)) v)))
          ∙ ap (λ (b : Bool). if b then meaning m status payload else first_answer call_id m es)
              (sym mine)
      | inr other ↦
          Waits-first_answer call_id m es (on_rpc_response id status payload s)
            (skips-Waits call_id m id status payload s other v)
          ∙ ap (λ (b : Bool). if b then meaning m status payload else first_answer call_id m es)
              (sym other)
    ]
