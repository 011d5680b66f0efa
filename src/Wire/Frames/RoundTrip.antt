-- ===== src/Wire/Frames/RoundTrip.antt =====
-- A payload that was written frame by frame is read back frame by frame.
use xbot_framework.Prelude.{
  ℕ, zero, suc, ◌+◌, ◌<◌, ◌≡◌, refl, ap, sym, subst, ◌∙◌, List, [], ◌∷◌, ◌++◌, Bool, true, false,
  arith, Bool-cases, inl, inr, ◌⊎◌, le→leb, length, take, drop, length-append, take-append,
  append_assoc, append-nil, All,
}
use xbot_framework.Wire.Bytes.{IsBytes, read_le}
use xbot_framework.Wire.Frames.{
  Frame, IsEncodable, ended, broken, frame, Outcome, stopped, aborted, descriptor_size,
  encode_frame, encode_frames, next_frame, walk, feed, length-encode_frame, length-le-encode_frames,
}
use xbot_framework.Wire.Frames.Walk.{
  IsWide, next_frame-eq-exact, read_id, read_size, drop_descriptor, read_le-append, drop-append_add,
}

-- Bytes behind the last frame that hold no further frame: too few for a descriptor, or for its data.
abbrev pub IsTail : List ℕ → Type 0
IsTail rest = length rest < descriptor_size + read_le rest 4 4

-- The result of feeding frames, with the `processed_len` that the loop ends with.
abbrev pub ended_at {ℓ} : {S : Type ℓ} → ℕ → S × Bool → S × Outcome
ended_at p (s, true) = (s, stopped p)
ended_at p (s, false) = (s, aborted)

pub next_frame_at :
    (m : ℕ) (payload pre : List ℕ) (f : Frame) (rest : List ℕ) (p : ℕ)
    → payload ≡ pre ++ (encode_frame f ++ rest)
    → IsWide m payload
    → IsBytes payload
    → IsEncodable f
    → p ≡ length pre
    → next_frame m payload p
      ≡ frame f.target_id (length f.content) (p + descriptor_size + length f.content)
next_frame_at m payload pre f rest p eq wide bytes e at =
    let total : length payload ≡ p + 8 + length f.content + length rest = omega (
      arith,
      ap (λ (t : List ℕ). length t) eq,
      length-append pre (encode_frame f ++ rest),
      length-append (encode_frame f) rest,
      length-encode_frame f,
    ) in
    next_frame-eq-exact m payload p wide bytes (omega (arith, total))
    ∙ rw (
      ap (λ (t : List ℕ). read_le t (p + 4) 4) eq
          ∙ read_le-append pre (encode_frame f ++ rest) p 4 (p + 4) 4 at refl,
      ap (λ (t : List ℕ). read_le t p 2) eq
          ∙ read_le-append pre (encode_frame f ++ rest) p 0 p 2 at (omega arith),
      read_size f rest e,
      read_id f rest e,
      le→leb (p + 8) (length payload) (omega (arith, total)),
      le→leb (p + 8 + length f.content) (length payload) (omega (arith, total)),
    )

pub content_at :
    (payload pre : List ℕ) (f : Frame) (rest : List ℕ) (p : ℕ)
    → payload ≡ pre ++ (encode_frame f ++ rest)
    → p ≡ length pre
    → take (length f.content) (drop (p + descriptor_size) payload) ≡ f.content
content_at payload pre f rest p eq at =
    rw
      (eq, drop-append_add pre (encode_frame f ++ rest) p 8 (p + 8) at refl, drop_descriptor f rest)
      (take-append f.content rest (length f.content) refl)

next_frame_tail :
    (m : ℕ) (payload pre rest : List ℕ) (p : ℕ)
    → payload ≡ pre ++ rest
    → IsWide m payload
    → IsBytes payload
    → IsTail rest
    → p ≡ length pre
    → (next_frame m payload p ≡ ended) ⊎ (next_frame m payload p ≡ broken)
next_frame_tail m payload pre rest p eq wide bytes tail at =
    let total : length payload ≡ p + length rest =
      omega (arith, ap (λ (t : List ℕ). length t) eq, length-append pre rest) in
    rw (next_frame-eq-exact m payload p wide bytes (omega arith)) (
      ground (
        arith,
        total,
        ap (λ (t : List ℕ). read_le t (p + 4) 4) eq ∙ read_le-append pre rest p 4 (p + 4) 4 at refl,
      ))

module _ {ℓ} {S : Type ℓ} (m : ℕ) (body : ℕ → List ℕ → S → S × Bool) where
  walk_tail :
      (fuel p : ℕ) (payload : List ℕ) (s : S)
      → (next_frame m payload p ≡ ended) ⊎ (next_frame m payload p ≡ broken)
      → walk m body fuel payload p s ≡ (s, stopped p)
  unfolding walk
  walk_tail zero p payload s h = refl
  walk_tail (suc fuel) p payload s (inl e) = rw (e, walk)
  walk_tail (suc fuel) p payload s (inr e) = rw (e, walk)

  -- One round of the loop, at a frame with its bytes.
  walk_more :
      (fuel p : ℕ) (payload : List ℕ) (s : S) (target_id next : ℕ) (size : ℕ) (content : List ℕ)
      → next_frame m payload p ≡ frame target_id size next
      → take size (drop (p + descriptor_size) payload) ≡ content
      → (body target_id content s).1 ≡ true
      → walk m body (suc fuel) payload p s
        ≡ walk m body fuel payload next (body target_id content s).0
  unfolding walk
  walk_more fuel p payload s target_id next size content here slice more =
      subst
        (λ (c : List ℕ).
          (body target_id c s).1 ≡ true
          → walk m body (suc fuel) payload p s
            ≡ walk m body fuel payload next (body target_id c s).0)
        slice (λ yes_more. rw (here, walk) (rw yes_more refl)) more

  walk_done :
      (fuel p : ℕ) (payload : List ℕ) (s : S) (target_id next : ℕ) (size : ℕ) (content : List ℕ)
      → next_frame m payload p ≡ frame target_id size next
      → take size (drop (p + descriptor_size) payload) ≡ content
      → (body target_id content s).1 ≡ false
      → walk m body (suc fuel) payload p s ≡ ((body target_id content s).0, aborted)
  unfolding walk
  walk_done fuel p payload s target_id next size content here slice done =
      subst
        (λ (c : List ℕ).
          (body target_id c s).1 ≡ false
          → walk m body (suc fuel) payload p s ≡ ((body target_id c s).0, aborted))
        slice (λ no_more. rw (here, walk) (rw no_more refl)) done

  walk_frames_from :
      (fs : List Frame) (payload pre rest : List ℕ) (fuel p : ℕ) (s : S)
      → payload ≡ pre ++ (encode_frames fs ++ rest)
      → IsWide m payload
      → IsBytes payload
      → All IsEncodable fs
      → IsTail rest
      → p ≡ length pre
      → length fs < fuel
      → walk m body fuel payload p s ≡ ended_at (p + length (encode_frames fs)) (feed body fs s)
  unfolding encode_frames feed
  walk_frames_from fs payload pre rest zero p s e wide bytes es tail at h = absurd (omega arith)
  walk_frames_from [] payload pre rest (suc fuel) p s e wide bytes es tail at h =
      walk_tail (suc fuel) p payload s (next_frame_tail m payload pre rest p e wide bytes tail at)
      ∙ ap (λ (n : ℕ). (s, stopped n)) (omega arith)
  walk_frames_from (f ∷ fs) payload pre rest (suc fuel) p s e wide bytes es tail at h =
      let e' : payload ≡ pre ++ (encode_frame f ++ (encode_frames fs ++ rest)) =
        e ∙ ap (λ (t : List ℕ). pre ++ t) (append_assoc (encode_frame f) (encode_frames fs) rest) in
      let here = next_frame_at m payload pre f (encode_frames fs ++ rest) p e' wide bytes es.0 at in
      let slice = content_at payload pre f (encode_frames fs ++ rest) p e' at in
      let sum : p + 8 + length f.content + length (encode_frames fs)
          ≡ p + length (encode_frame f ++ encode_frames fs) =
        omega (arith, length-append (encode_frame f) (encode_frames fs), length-encode_frame f) in
      let result = body f.target_id f.content s in
      elim (Bool-cases result.1) [
        | inl more ↦
            walk_more fuel p payload s f.target_id (p + 8 + length f.content) (length f.content)
              f.content here slice more
            ∙ (walk_frames_from fs payload (pre ++ encode_frame f) rest fuel
                  (p + 8 + length f.content) result.0
                  (e' ∙ sym (append_assoc pre (encode_frame f) (encode_frames fs ++ rest))) wide
                  bytes es.1 tail
                  (omega (arith, length-append pre (encode_frame f), length-encode_frame f))
                  (omega arith)
                ∙ (ap (λ (n : ℕ). ended_at n (feed body fs result.0)) sum ∙ rw (more, feed) refl))
        | inr done ↦
            walk_done fuel p payload s f.target_id (p + 8 + length f.content) (length f.content)
              f.content here slice done
            ∙ rw (done, feed) refl
      ]

  -- A payload of frames, each fitting its descriptor, and of a tail that holds no further frame: the loop
  -- hands exactly these frames to its body, in their order and with their bytes, until the body asks to
  -- stop; else it ends at the end of the frames, which is the payload's end when the tail is empty.
  pub walk-encode_frames :
      (fs : List Frame) (rest : List ℕ) (fuel : ℕ) (s : S)
      → IsWide m (encode_frames fs ++ rest)
      → IsBytes (encode_frames fs ++ rest)
      → All IsEncodable fs
      → IsTail rest
      → length (encode_frames fs ++ rest) < fuel
      → walk m body fuel (encode_frames fs ++ rest) 0 s
        ≡ ended_at (length (encode_frames fs)) (feed body fs s)
  walk-encode_frames fs rest fuel s wide bytes es tail h =
      walk_frames_from fs (encode_frames fs ++ rest) [] rest fuel 0 s refl wide bytes es tail refl
        (omega (arith, length-append (encode_frames fs) rest, length-le-encode_frames fs))
      ∙ ap (λ (n : ℕ). ended_at n (feed body fs s)) (omega arith)

  pub walk_whole :
      (fs : List Frame) (s : S)
      → IsWide m (encode_frames fs)
      → IsBytes (encode_frames fs)
      → All IsEncodable fs
      → walk m body (suc (length (encode_frames fs))) (encode_frames fs) 0 s
        ≡ ended_at (length (encode_frames fs)) (feed body fs s)
  walk_whole fs s wide bytes es =
      subst
        (λ (p : List ℕ).
          walk m body (suc (length p)) p 0 s
          ≡ ended_at (length (encode_frames fs)) (feed body fs s))
        (append-nil (encode_frames fs))
        (walk-encode_frames fs [] (suc (length (encode_frames fs ++ []))) s
          (omega (arith, length-append (encode_frames fs) []))
          (subst IsBytes (sym (append-nil (encode_frames fs))) bytes) es (omega arith)
          (omega arith))
