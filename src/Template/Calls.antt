-- ===== src/Template/Calls.antt =====
-- codegen/templates/ServiceTemplate.cpp: `dispatchRpcCall`.
pub mod Frames
pub mod Parsed
pub mod RoundTrip
pub mod Remote
pub mod Returns
pub mod Missing
use xbot_framework.Prelude.{
  ℕ, List, Option, none, Bool, true, false, not, ◌||◌, ◌==◌, if◌then◌else◌,
}
use xbot_framework.Service.Rpc.{error}
use xbot_framework.Service.User.{
  Prog, done, call, Method, send_rpc_response_call, set_rpc_max_response_size,
}
use xbot_framework.Template.Members.{Template, Callbacks, Chars, user_method}
use xbot_framework.Template.Params.{
  Parse, parse, ScalarParams, no_scalar_params, scalar_switch, no_chars, label_size, array_switch,
  MixedParams, no_mixed_params, mixed_switch,
}

module _ {V : Type 0} where
  -- `SendRpcResponse(call_id, ERROR, nullptr, 0)`
  unfoldable pub refuse_call : ℕ → Method (Template V) (Unit {0})
  refuse_call call_id t = call (send_rpc_response_call call_id error none 0) (λ _. done (t, tt))

  -- `rpc_max_response_size_ = n` and the call of the user's method.
  unfoldable pub call_user : ℕ → Method (Template V) (Unit {0}) → Method (Template V) (Unit {0})
  call_user max_response_size m t = call (set_rpc_max_response_size max_response_size) (λ _. m t)

  -- The end of a case with parameters: `!parse_ok || params_received != n`.
  unfoldable pub call_parsed :
      {P : Type 0}
      → ℕ
      → ℕ
      → ℕ
      → (P → Method (Template V) (Unit {0}))
      → Parse P
      → Method (Template V) (Unit {0})
  call_parsed expected call_id max_response_size m r =
      if not r.parse_ok || not (r.params_received == expected)
      then refuse_call call_id
      else call_user max_response_size (m r.params)

  module _ (c : Callbacks V) where
    unfoldable pub dispatch_no_params : ℕ → Method (Template V) (Unit {0})
    dispatch_no_params call_id = call_user 0 (user_method (c.rpc_no_params_no_return call_id))

    unfoldable pub dispatch_scalar_params : ℕ → List ℕ → Method (Template V) (Unit {0})
    dispatch_scalar_params call_id payload =
        call_parsed 3 call_id 4
          (λ (p : ScalarParams).
            user_method (c.rpc_scalar_params_with_return call_id p.speed p.count p.enable))
          (parse scalar_switch payload no_scalar_params)

    unfoldable pub dispatch_array_param : ℕ → List ℕ → Method (Template V) (Unit {0})
    dispatch_array_param call_id payload =
        call_parsed 1 call_id 0 (λ (p : Chars). user_method (c.rpc_array_param_no_return call_id p))
          (parse array_switch payload (no_chars label_size))

    unfoldable pub dispatch_mixed_params : ℕ → List ℕ → Method (Template V) (Unit {0})
    dispatch_mixed_params call_id payload =
        call_parsed 2 call_id 1
          (λ (p : MixedParams). user_method (c.rpc_mixed_params_with_return call_id p.name p.value))
          (parse mixed_switch payload no_mixed_params)

    unfoldable pub template_dispatch : ℕ → ℕ → List ℕ → Method (Template V) (Unit {0})
    template_dispatch function_id call_id payload =
        if function_id == 0
        then dispatch_no_params call_id
        else if function_id == 1
        then dispatch_scalar_params call_id payload
        else if function_id == 2
        then dispatch_array_param call_id payload
        else if function_id == 3
        then dispatch_mixed_params call_id payload
        else refuse_call call_id
