-- ===== src/Template/Calls/Missing.antt =====
-- `dispatchRpcCall` counts the parameters that it stores, and not which ones they are.
use xbot_framework.Prelude.{ℕ, ◌<◌, ◌≡◌, refl, ap, List, [], ◌∷◌, true, arith, u32_mod}
use xbot_framework.Wire.Bytes.{le_bytes, le_value-le_bytes, le_bytes-IsBytes, length-le_bytes}
use xbot_framework.Wire.Frames.{Frame, IsEncodable, encode_frame, encode_frames, encode_descriptor}
use xbot_framework.Service.User.{call, set_rpc_max_response_size}
use xbot_framework.Template.Members.{Template, Callbacks, user_method}
use xbot_framework.Template.Params.{
  Parse, parse, note_param, scalar_switch, no_scalar_params, ScalarParams,
}
use xbot_framework.Template.Params.Laws.{note_frames}
use xbot_framework.Template.Calls.{
  template_dispatch, dispatch_scalar_params, call_parsed, call_user,
}
use xbot_framework.Template.Calls.Frames.{frame_of, parse_known}

-- The first parameter of ScalarParamsWithReturn, three times.
abbrev pub three_speeds : ℕ → ℕ → ℕ → List Frame
three_speeds x y z =
    frame_of 0 (le_bytes 4 x) ∷ frame_of 0 (le_bytes 4 y) ∷ frame_of 0 (le_bytes 4 z) ∷ []

fits : (x : ℕ) → IsEncodable (frame_of 0 (le_bytes 4 x))
fits x = record { id_fits = omega arith; size_fits = omega (arith, length-le_bytes 4 x) }

three_parsed :
    (x y z : ℕ)
    → z < u32_mod
    → parse scalar_switch (encode_frames (three_speeds x y z)) no_scalar_params ≡ record {
      params = record { speed = z; count = 0; enable = 0 };
      parse_ok = true;
      params_received = 3;
    }
unfolding note_frames note_param scalar_switch le_bytes encode_frames encode_frame encode_descriptor
three_parsed x y z h =
    parse_known scalar_switch no_scalar_params (three_speeds x y z)
      (encode_frames (three_speeds x y z)) _ refl (omega arith)
      (le_bytes-IsBytes 4 x, (le_bytes-IsBytes 4 y, (le_bytes-IsBytes 4 z, tt)))
      (fits x, (fits y, (fits z, tt)))
      λ i. record {
        params = record { speed = le_value-le_bytes 4 z h i; count = 0; enable = 0 };
        parse_ok = true;
        params_received = 3;
      }

-- A call of ScalarParamsWithReturn that carries Speed three times, and neither Count nor Enable, is not refused:
-- the user's method is called with the last Speed and with zero for the two that are missing.
pub dispatch-three_speeds :
    {V : Type 0} (c : Callbacks V) (call_id x y z : ℕ) (t : Template V)
    → z < u32_mod
    → template_dispatch c 1 call_id (encode_frames (three_speeds x y z)) t
      ≡ call
          (set_rpc_max_response_size 4)
          (λ _. user_method (c.rpc_scalar_params_with_return call_id z 0 0) t)
unfolding template_dispatch dispatch_scalar_params call_parsed call_user
dispatch-three_speeds c call_id x y z t h =
    ap
      (λ (r : Parse ScalarParams).
        call_parsed 3 call_id 4
          (λ (p : ScalarParams).
            user_method (c.rpc_scalar_params_with_return call_id p.speed p.count p.enable))
          r t)
      (three_parsed x y z h)
