-- ===== src/Wire/Frames.antt =====
-- DataDescriptor of XbotHeader.hpp, and the loop over a transaction's payload, which Service.cpp has
-- twice (data, configuration) and ServiceIO.cpp once.
pub mod Walk
pub mod RoundTrip
pub mod Termination
use xbot_framework.Prelude.{
  ℕ, zero, suc, ◌+◌, ◌%◌, ◌≤◌, ◌<◌, ◌≡◌, refl, ap, List, [], ◌∷◌, ◌++◌, Bool, true, false, arith,
  leb, if◌then◌else◌, length, take, drop, u16_mod, u32_mod, length-append, All,
}
use xbot_framework.Wire.Bytes.{le_bytes, read_le, IsBytes, append-IsBytes, le_bytes-IsBytes}

-- `sizeof(DataDescriptor)`
abbrev pub descriptor_size : ℕ
descriptor_size = 8

-- One piece of data in a transaction, by the ID of its input, output or register.
pub record Frame : Type 0 where
  pub target_id : ℕ
  pub content : List ℕ

-- The members fit those of a DataDescriptor.
pub record IsEncodable (f : Frame) : Type 0 where
  pub id_fits : f.target_id < u16_mod
  pub size_fits : length f.content < u32_mod

-- The descriptor of a piece of data: target_id, reserved, payload_size.
unfoldable pub encode_descriptor : ℕ → ℕ → List ℕ
encode_descriptor target_id size = le_bytes 2 target_id ++ (le_bytes 2 0 ++ le_bytes 4 size)

unfoldable pub encode_frame : Frame → List ℕ
encode_frame f = encode_descriptor f.target_id (length f.content) ++ f.content

unfoldable pub encode_frames : List Frame → List ℕ
encode_frames [] = []
encode_frames (f ∷ fs) = encode_frame f ++ encode_frames fs

-- What the loop finds at `processed_len`: no room for a descriptor, a descriptor whose data does not
-- fit, or a frame with the size of its data and the next `processed_len`.
pub data Step : Type 0 where
  ended broken : Step
  frame : ℕ → ℕ → ℕ → Step

-- `size_t` arithmetic wraps at `m`.
unfoldable pub next_frame : ℕ → List ℕ → ℕ → Step
next_frame m payload processed =
    let size = read_le payload (processed + 4) 4 in
    if leb ((processed + descriptor_size) % m) (length payload)
    then if leb (((processed + descriptor_size) % m + size) % m) (length payload)
      then frame (read_le payload processed 2) size ((processed + (size + descriptor_size) % m) % m)
      else broken
    else ended

-- How the loop ends: with its final `processed_len`, or by a return from its body.
pub data Outcome : Type 0 where
  stopped : ℕ → Outcome
  aborted : Outcome

-- The loop, on fuel; the body tells whether to go on.
module _ {ℓ} {S : Type ℓ} (m : ℕ) (body : ℕ → List ℕ → S → S × Bool) where
  unfoldable pub walk : ℕ → List ℕ → ℕ → S → S × Outcome
  walk zero payload processed s = (s, stopped processed)
  walk (suc fuel) payload processed s = elim (next_frame m payload processed) [
    | ended ↦ (s, stopped processed)
    | broken ↦ (s, stopped processed)
    | frame target_id size next ↦
        let (s', more) =
          body target_id (take size (drop (processed + descriptor_size) payload)) s in
        elim more [ true ↦ walk fuel payload next s' | false ↦ (s', aborted) ]
  ]

-- The frames given to the body one after another, without bytes.
module _ {ℓ} {S : Type ℓ} (body : ℕ → List ℕ → S → S × Bool) where
  unfoldable pub feed : List Frame → S → S × Bool
  feed [] s = (s, true)
  feed (f ∷ fs) s =
      let (s', more) = body f.target_id f.content s in
      elim more [ true ↦ feed fs s' | false ↦ (s', false) ]

pub feed_none {ℓ} :
    {S : Type ℓ} (body : ℕ → List ℕ → S → S × Bool) (s : S) → feed body [] s ≡ (s, true)
unfolding feed
feed_none body s = refl

pub feed_more {ℓ} :
    {S : Type ℓ} (body : ℕ → List ℕ → S → S × Bool) (f : Frame) (fs : List Frame) (s s' : S)
    → body f.target_id f.content s ≡ (s', true)
    → feed body (f ∷ fs) s ≡ feed body fs s'
unfolding feed
feed_more body f fs s s' e = rw (ap (λ (r : _). r.1) e, feed) (ap (λ (r : _). feed body fs r.0) e)

pub length-encode_frame : (f : Frame) → length (encode_frame f) ≡ descriptor_size + length f.content
unfolding encode_frame encode_descriptor le_bytes
length-encode_frame f = omega arith

pub encode_frame-IsBytes : (f : Frame) → IsBytes f.content → IsBytes (encode_frame f)
unfolding encode_frame encode_descriptor
encode_frame-IsBytes f h =
    append-IsBytes (encode_descriptor f.target_id (length f.content)) f.content
      (append-IsBytes (le_bytes 2 f.target_id) (le_bytes 2 0 ++ le_bytes 4 (length f.content))
        (le_bytes-IsBytes 2 f.target_id)
        (append-IsBytes (le_bytes 2 0) (le_bytes 4 (length f.content)) (le_bytes-IsBytes 2 0)
          (le_bytes-IsBytes 4 (length f.content))))
      h

pub length-le-encode_frames : (fs : List Frame) → length fs ≤ length (encode_frames fs)
unfolding encode_frames
length-le-encode_frames [] = omega arith
length-le-encode_frames (f ∷ fs) = omega (
  arith,
  length-append (encode_frame f) (encode_frames fs),
  length-encode_frame f,
  length-le-encode_frames fs,
)

pub encode_frames-IsBytes :
    (fs : List Frame) → All (λ (f : Frame). IsBytes f.content) fs → IsBytes (encode_frames fs)
unfolding encode_frames
encode_frames-IsBytes [] h = tt
encode_frames-IsBytes (f ∷ fs) h =
    append-IsBytes (encode_frame f) (encode_frames fs) (encode_frame-IsBytes f h.0)
      (encode_frames-IsBytes fs h.1)
