-- ===== src/Tests/Wire.antt =====
-- The wire formats at concrete bytes.
use xbot_framework.Prelude.{
  ℕ, ◌+◌, ◌-◌, ◌^◌, ◌≡◌, ◌≤◌, refl, arith, List, [], ◌∷◌, ◌++◌, Bool, true, length, size_mod,
}
use xbot_framework.Wire.Bytes.{IsBytes, read_le, le_value, le_bytes}
use xbot_framework.Wire.Header.{
  Header, empty_header, log, encode_header, decode_header, decode-encode_header,
}
use xbot_framework.Wire.Frames.{
  Frame, encode_descriptor, encode_frame, encode_frames, walk, feed, next_frame, frame,
  descriptor_size,
}
use xbot_framework.Wire.Frames.Walk.{next_frame_wraps32}
use xbot_framework.Wire.Frames.RoundTrip.{walk-encode_frames, ended_at}
use xbot_framework.Wire.Frames.Termination.{walk_fuel}

abbrev log_header : Header
log_header = record empty_header {
  protocol_version = 1;
  message_type = log;
  arg1 = 3;
  timestamp = 70000;
  payload_size = 2;
}

decode-encode_header_example :
    decode_header (encode_header log_header ++ (104 ∷ 105 ∷ [])) ≡ log_header
decode-encode_header_example = decode-encode_header log_header (104 ∷ 105 ∷ []) (record {
  version_fits = omega arith;
  type_fits = tt;
  flags_fit = omega arith;
  reserved1_fits = omega arith;
  id_fits = omega arith;
  arg1_fits = omega arith;
  reserved2_fits = omega arith;
  arg2_fits = omega arith;
  sequence_fits = omega arith;
  timestamp_fits = omega arith;
  payload_fits = omega arith;
})

-- A body that keeps what it is handed, and stops at target 9.
abbrev keep : ℕ → List ℕ → List Frame → List Frame × Bool
keep target_id content fs = (record { target_id = target_id; content = content } ∷ fs, true)

abbrev two_frames : List Frame
two_frames =
    record { target_id = 1; content = 10 ∷ [] }
    ∷ record { target_id = 2; content = 20 ∷ 21 ∷ [] }
    ∷ []

abbrev two_frames_payload : List ℕ
two_frames_payload =
    1 ∷ 0 ∷ 0 ∷ 0 ∷ 1 ∷ 0 ∷ 0 ∷ 0 ∷ 10 ∷ 2 ∷ 0 ∷ 0 ∷ 0 ∷ 2 ∷ 0 ∷ 0 ∷ 0 ∷ 20 ∷ 21 ∷ []

two_frames_payload-IsBytes : IsBytes two_frames_payload
two_frames_payload-IsBytes = ground arith

walk-encode_frames_example :
    walk size_mod keep 30 (encode_frames two_frames ++ []) 0 []
    ≡ ended_at (length (encode_frames two_frames)) (feed keep two_frames [])
unfolding encode_frames encode_frame encode_descriptor le_bytes
walk-encode_frames_example =
    walk-encode_frames size_mod keep two_frames [] 30 [] (omega arith) two_frames_payload-IsBytes
      (
        (record { id_fits = omega arith; size_fits = omega arith }),
        ((record { id_fits = omega arith; size_fits = omega arith }), tt),
      )
      (omega arith) (omega arith)

abbrev wrapping_payload : List ℕ
wrapping_payload = 1 ∷ 0 ∷ 0 ∷ 0 ∷ 0xF8 ∷ 0xFF ∷ 0xFF ∷ 0xFF ∷ []

next_frame_wraps32_example :
    (next_frame (2 ^ 32) wrapping_payload 0
      ≡ frame (read_le wrapping_payload 0 2) (2 ^ 32 - descriptor_size) 0)
    × ¬ (0 + descriptor_size + (2 ^ 32 - descriptor_size) ≤ length wrapping_payload)
unfolding read_le le_value
next_frame_wraps32_example = next_frame_wraps32 wrapping_payload 0 (omega arith) (omega arith) refl

walk_fuel_example :
    walk size_mod keep 20 two_frames_payload 0 [] ≡ walk size_mod keep 500 two_frames_payload 0 []
walk_fuel_example =
    walk_fuel size_mod keep two_frames_payload (omega arith) two_frames_payload-IsBytes 20 500 0 []
      (omega arith) (omega arith) (omega arith)
