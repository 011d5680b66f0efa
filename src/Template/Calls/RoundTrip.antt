-- ===== src/Template/Calls/RoundTrip.antt =====
-- The parameters that the generated interface writes and those that the generated service reads.
use xbot_framework.Prelude.{
  ℕ, ◌<◌, ◌≡◌, refl, ap, ◌∙◌, List, [], some, Bool, true, false, if◌then◌else◌, ==_refl, length,
  u32_mod, leb,
}
use xbot_framework.Wire.Bytes.{IsBytes, le_bytes}
use xbot_framework.Wire.Frames.{encode_frame}
use xbot_framework.Service.User.{call, set_rpc_max_response_size, Method}
use xbot_framework.Template.Members.{Template, Callbacks, Chars, user_method}
use xbot_framework.Template.Params.{
  Parse, ScalarParams, no_chars, label_size, name_size, no_mixed_params, MixedParams,
}
use xbot_framework.Template.Calls.{
  template_dispatch, dispatch_scalar_params, dispatch_array_param, dispatch_mixed_params,
  call_parsed, call_user, refuse_call,
}
use xbot_framework.Template.Client.{scalar_params_buf, append_param, append_chars}
use xbot_framework.Template.Calls.Frames.{frame_of, scalar_parsed}
use xbot_framework.Template.Calls.Parsed.{filled, append_chars-frame, array_parsed, mixed_parsed}

module _ {V : Type 0} (c : Callbacks V) where
  pub dispatch-scalar_params_buf :
      (call_id speed count enable : ℕ) (t : Template V)
      → speed < u32_mod
      → count < u32_mod
      → enable < 256
      → template_dispatch c 1 call_id (scalar_params_buf speed count enable) t
        ≡ call
            (set_rpc_max_response_size 4)
            (λ _. user_method (c.rpc_scalar_params_with_return call_id speed count enable) t)
  unfolding template_dispatch dispatch_scalar_params call_parsed call_user
  dispatch-scalar_params_buf call_id speed count enable t s n e =
      ap
        (λ (r : Parse ScalarParams).
          call_parsed 3 call_id 4
            (λ (p : ScalarParams).
              user_method (c.rpc_scalar_params_with_return call_id p.speed p.count p.enable))
            r t)
        (scalar_parsed speed count enable s n e)

  -- The end of the case that a parse with two outcomes leads to.
  call_either :
      {P : Type 0} (expected call_id size : ℕ) (m : P → Method (Template V) (Unit {0})) (b : Bool)
      (p q : P) (k : ℕ)
      → call_parsed expected call_id size m (
          if b
          then record { params = p; parse_ok = true; params_received = expected }
          else record { params = q; parse_ok = false; params_received = k })
        ≡ (if b then call_user size (m p) else refuse_call call_id)
  unfolding call_parsed
  call_either expected call_id size m true p q k = rw (==_refl expected) refl
  call_either expected call_id size m false p q k = refl

  -- A label of any length and any bytes, written by the interface: a label of at most 64 characters is handed
  -- to the user's method, at the start of a buffer of 64 with its length, and a longer one is refused.
  pub dispatch-append_chars :
      (call_id : ℕ) (label : List ℕ)
      → length label < u32_mod
      → IsBytes label
      → (params : List ℕ) × (append_chars 0 (some label) (length label) [] ≡ some params)
        × (template_dispatch c 2 call_id params ≡ (
            if leb (length label) label_size
            then call_user 0
                (user_method (c.rpc_array_param_no_return call_id (filled label_size label)))
            else refuse_call call_id))
  unfolding template_dispatch dispatch_array_param
  dispatch-append_chars call_id label small bytes = (
    encode_frame (frame_of 0 label),
    append_chars-frame label small,
    ap
          (λ (r : Parse Chars).
            call_parsed 1 call_id 0
              (λ (p : Chars). user_method (c.rpc_array_param_no_return call_id p)) r)
          (array_parsed label (leb (length label) label_size) refl small bytes)
        ∙ call_either 1 call_id 0
            (λ (p : Chars). user_method (c.rpc_array_param_no_return call_id p))
            (leb (length label) label_size) (filled label_size label) (no_chars label_size) 0,
  )

  -- A name of any length and any 32-bit value, written by the interface: a name of at most 32 characters is
  -- handed to the user's method with the value, and a call with a longer name is refused.
  pub dispatch-mixed_params :
      (call_id : ℕ) (name : List ℕ) (value : ℕ)
      → length name < u32_mod
      → IsBytes name
      → value < u32_mod
      → (params : List ℕ) × (append_chars 0 (some name) (length name) [] ≡ some params)
        × (template_dispatch c 3 call_id (append_param 1 (le_bytes 4 value) params) ≡ (
            if leb (length name) name_size
            then call_user 1
                (user_method (c.rpc_mixed_params_with_return call_id (filled name_size name) value))
            else refuse_call call_id))
  unfolding template_dispatch dispatch_mixed_params
  dispatch-mixed_params call_id name value small bytes fits =
      let m =
        λ (p : MixedParams). user_method (c.rpc_mixed_params_with_return call_id p.name p.value) in
      (
        encode_frame (frame_of 0 name),
        append_chars-frame name small,
        ap (call_parsed 2 call_id 1 m)
              (mixed_parsed name value (leb (length name) name_size) refl small bytes fits)
            ∙ call_either 2 call_id 1 m (leb (length name) name_size)
                (record { name = filled name_size name; value = value })
                (record no_mixed_params { value = value }) 1,
      )
