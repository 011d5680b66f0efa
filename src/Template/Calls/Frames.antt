-- ===== src/Template/Calls/Frames.antt =====
-- The parameters of the generated interface as frames, and what the service reads from them.
use xbot_framework.Prelude.{
  ℕ, ◌<◌, ◌^◌, ◌≡◌, refl, ap, ◌∙◌, List, [], ◌∷◌, true, arith, length, u32_mod, All,
}
use xbot_framework.Wire.Bytes.{IsBytes, le_bytes, le_value-le_bytes, le_bytes-IsBytes}
use xbot_framework.Wire.Frames.{
  Frame, IsEncodable, encode_frame, encode_frames, encode_descriptor, encode_frames-IsBytes,
}
use xbot_framework.Template.Params.{
  Parse, parse, note_param, Taken, scalar_switch, no_scalar_params,
}
use xbot_framework.Template.Params.Laws.{parse_whole, note_frames}
use xbot_framework.Template.Client.{scalar_params_buf, append_param}

abbrev pub frame_of : ℕ → List ℕ → Frame
frame_of target_id content = record { target_id = target_id; content = content }

abbrev pub scalar_frames : ℕ → ℕ → ℕ → List Frame
scalar_frames speed count enable =
    frame_of 0 (le_bytes 4 speed)
    ∷ frame_of 1 (le_bytes 4 count)
    ∷ frame_of 2 (le_bytes 1 enable)
    ∷ []

scalar_params_buf-frames :
    (speed count enable : ℕ)
    → scalar_params_buf speed count enable ≡ encode_frames (scalar_frames speed count enable)
unfolding scalar_params_buf append_param encode_frames encode_frame encode_descriptor le_bytes
scalar_params_buf-frames speed count enable = refl

-- A payload of two frames, and of one.
abbrev pub mixed_frames : List ℕ → ℕ → List Frame
mixed_frames name value = frame_of 0 name ∷ frame_of 1 (le_bytes 4 value) ∷ []

module _ {P : Type 0} (switch : ℕ → List ℕ → P → Taken P) (initial : P) where
  -- The loop on a payload that is known to be the bytes of frames.
  pub parse_known :
      (fs : List Frame) (payload : List ℕ) (r : Parse P)
      → payload ≡ encode_frames fs
      → length (encode_frames fs) < 2 ^ 63
      → All (λ (f : Frame). IsBytes f.content) fs
      → All IsEncodable fs
      → note_frames switch fs (record { params = initial; parse_ok = true; params_received = 0 })
        ≡ r
      → parse switch payload initial ≡ r
  parse_known fs payload r e short bytes es noted =
      ap (λ (p : List ℕ). parse switch p initial) e
      ∙ (parse_whole switch fs initial (omega (arith, short)) (encode_frames-IsBytes fs bytes) es
          ∙ noted)

-- What the loop leaves for the parameters of the interface.
pub scalar_parsed :
    (speed count enable : ℕ)
    → speed < u32_mod
    → count < u32_mod
    → enable < 256
    → parse scalar_switch (scalar_params_buf speed count enable) no_scalar_params ≡ record {
      params = record { speed = speed; count = count; enable = enable };
      parse_ok = true;
      params_received = 3;
    }
unfolding note_frames note_param scalar_switch le_bytes encode_frames encode_frame encode_descriptor
scalar_parsed speed count enable s c e =
    parse_known scalar_switch no_scalar_params (scalar_frames speed count enable)
      (scalar_params_buf speed count enable) _ (scalar_params_buf-frames speed count enable)
      (omega arith)
      (le_bytes-IsBytes 4 speed, (le_bytes-IsBytes 4 count, (le_bytes-IsBytes 1 enable, tt)))
      (
        record { id_fits = omega arith; size_fits = omega arith },
        (
          record { id_fits = omega arith; size_fits = omega arith },
          (record { id_fits = omega arith; size_fits = omega arith }, tt),
        ),
      )
      λ i. record {
        params = record {
          speed = le_value-le_bytes 4 speed s i;
          count = le_value-le_bytes 4 count c i;
          enable = le_value-le_bytes 1 enable e i;
        };
        parse_ok = true;
        params_received = 3;
      }
