-- ===== src/Template/Params/Laws.antt =====
-- How `dispatchRpcCall` reads a payload that was written descriptor by descriptor.
use xbot_framework.Prelude.{
  ℕ, zero, suc, ◌+◌, ◌<◌, ◌≡◌, refl, ap, sym, subst, ◌∙◌, List, [], ◌∷◌, ◌++◌, Bool, true, false,
  arith, leb, if◌then◌else◌, length, take, drop, length-append, append_assoc, append-nil, All,
  size_mod,
}
use xbot_framework.Wire.Bytes.{IsBytes, read_le}
use xbot_framework.Wire.Frames.{
  Frame, IsEncodable, ended, broken, frame, descriptor_size, encode_frame, encode_frames,
  next_frame, length-encode_frame, length-le-encode_frames,
}
use xbot_framework.Wire.Frames.Walk.{IsWide, next_frame-eq-exact, read_le-append}
use xbot_framework.Wire.Frames.RoundTrip.{IsTail, next_frame_at, content_at}
use xbot_framework.Template.Params.{Taken, Parse, note_param, parse_params, parse}

-- The parameters taken one after another, without bytes.
module _ {P : Type 0} (switch : ℕ → List ℕ → P → Taken P) where
  unfoldable pub note_frames : List Frame → Parse P → Parse P
  note_frames [] r = r
  note_frames (f ∷ fs) r = note_frames fs (note_param (switch f.target_id f.content r.params) r)

  pub note_frames_none : (r : Parse P) → note_frames [] r ≡ r
  unfolding note_frames
  note_frames_none r = refl

-- What the bytes behind the last whole frame mean: too few for a descriptor are ignored, a descriptor without
-- its data makes the call fail.
abbrev pub after_tail : {P : Type 0} → List ℕ → Parse P → Parse P
after_tail rest r = if leb descriptor_size (length rest) then record r { parse_ok = false } else r

next_frame_last :
    (payload pre rest : List ℕ) (p : ℕ)
    → payload ≡ pre ++ rest
    → IsWide size_mod payload
    → IsBytes payload
    → IsTail rest
    → p ≡ length pre
    → next_frame size_mod payload p ≡ (if leb descriptor_size (length rest) then broken else ended)
next_frame_last payload pre rest p eq wide bytes tail at =
    let total : length payload ≡ p + length rest =
      omega (arith, ap (λ (t : List ℕ). length t) eq, length-append pre rest) in
    rw (next_frame-eq-exact size_mod payload p wide bytes (omega arith)) (
      ground (
        arith,
        total,
        ap (λ (t : List ℕ). read_le t (p + 4) 4) eq ∙ read_le-append pre rest p 4 (p + 4) 4 at refl,
      ))

module _ {P : Type 0} (switch : ℕ → List ℕ → P → Taken P) where
  parse_last :
      (b : Bool) (fuel p : ℕ) (payload : List ℕ) (r : Parse P)
      → next_frame size_mod payload p ≡ (if b then broken else ended)
      → parse_params switch (suc fuel) payload p r
        ≡ (if b then record r { parse_ok = false } else r)
  unfolding parse_params
  parse_last true fuel p payload r e = rw (e, parse_params)
  parse_last false fuel p payload r e = rw (e, parse_params)

  parse_more :
      (fuel p : ℕ) (payload : List ℕ) (r : Parse P) (target_id next size : ℕ) (content : List ℕ)
      → next_frame size_mod payload p ≡ frame target_id size next
      → take size (drop (p + descriptor_size) payload) ≡ content
      → parse_params switch (suc fuel) payload p r
        ≡ parse_params switch fuel payload next (note_param (switch target_id content r.params) r)
  unfolding parse_params
  parse_more fuel p payload r target_id next size content here slice =
      rw (here, parse_params)
        (ap
          (λ (c : List ℕ).
            parse_params switch fuel payload next (note_param (switch target_id c r.params) r))
          slice)

  parse_frames_from :
      (fs : List Frame) (payload pre rest : List ℕ) (fuel p : ℕ) (r : Parse P)
      → payload ≡ pre ++ (encode_frames fs ++ rest)
      → IsWide size_mod payload
      → IsBytes payload
      → All IsEncodable fs
      → IsTail rest
      → p ≡ length pre
      → length fs < fuel
      → parse_params switch fuel payload p r ≡ after_tail rest (note_frames switch fs r)
  unfolding encode_frames note_frames
  parse_frames_from fs payload pre rest zero p r e wide bytes es tail at h = absurd (omega arith)
  parse_frames_from [] payload pre rest (suc fuel) p r e wide bytes es tail at h =
      parse_last (leb descriptor_size (length rest)) fuel p payload r
        (next_frame_last payload pre rest p e wide bytes tail at)
  parse_frames_from (f ∷ fs) payload pre rest (suc fuel) p r e wide bytes es tail at h =
      let e' : payload ≡ pre ++ (encode_frame f ++ (encode_frames fs ++ rest)) =
        e ∙ ap (λ (t : List ℕ). pre ++ t) (append_assoc (encode_frame f) (encode_frames fs) rest) in
      parse_more fuel p payload r f.target_id (p + descriptor_size + length f.content)
        (length f.content) f.content
        (next_frame_at size_mod payload pre f (encode_frames fs ++ rest) p e' wide bytes es.0 at)
        (content_at payload pre f (encode_frames fs ++ rest) p e' at)
      ∙ parse_frames_from fs payload (pre ++ encode_frame f) rest fuel
          (p + descriptor_size + length f.content)
          (note_param (switch f.target_id f.content r.params) r)
          (e' ∙ sym (append_assoc pre (encode_frame f) (encode_frames fs ++ rest))) wide bytes es.1
          tail (omega (arith, length-append pre (encode_frame f), length-encode_frame f))
          (omega arith)

  -- A payload of frames that fit their descriptors, and of a tail that holds no further frame: the loop takes
  -- the parameters of exactly these frames in their order; a tail of fewer than eight bytes is ignored, and
  -- a longer one makes `parse_ok` false.
  pub parse-encode_frames :
      (fs : List Frame) (rest : List ℕ) (initial : P)
      → IsWide size_mod (encode_frames fs ++ rest)
      → IsBytes (encode_frames fs ++ rest)
      → All IsEncodable fs
      → IsTail rest
      → parse switch (encode_frames fs ++ rest) initial
        ≡ after_tail rest (
            note_frames switch fs
              (record { params = initial; parse_ok = true; params_received = 0 }))
  unfolding parse
  parse-encode_frames fs rest initial wide bytes es tail =
      parse_frames_from fs (encode_frames fs ++ rest) [] rest
        (suc (length (encode_frames fs ++ rest))) 0
        (record { params = initial; parse_ok = true; params_received = 0 }) refl wide bytes es tail
        refl (omega (arith, length-append (encode_frames fs) rest, length-le-encode_frames fs))

  pub parse_whole :
      (fs : List Frame) (initial : P)
      → IsWide size_mod (encode_frames fs)
      → IsBytes (encode_frames fs)
      → All IsEncodable fs
      → parse switch (encode_frames fs) initial
        ≡ note_frames switch fs (record { params = initial; parse_ok = true; params_received = 0 })
  parse_whole fs initial wide bytes es =
      subst
        (λ (p : List ℕ).
          parse switch p initial
          ≡ note_frames switch fs
              (record { params = initial; parse_ok = true; params_received = 0 }))
        (append-nil (encode_frames fs))
        (parse-encode_frames fs [] initial (omega (arith, length-append (encode_frames fs) []))
          (subst IsBytes (sym (append-nil (encode_frames fs))) bytes) es (omega arith))
