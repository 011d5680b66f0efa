-- ===== src/Wire/Frames/Walk.antt =====
-- What the loop over a transaction's payload hands to its body, for payloads that the sender wrote
-- and for any other.
use xbot_framework.Prelude.{
  ℕ, zero, suc, ◌⊎◌, ◌+◌, ◌-◌, ◌^◌, ◌≤◌, ◌<◌, ◌≡◌, refl, ap, sym, ◌∙◌, List, ◌++◌, Bool, arith, leb,
  Bool-cases, inl, inr, if◌then◌else◌, length, take, drop, drop-append, drop-drop,
}
use native.Mathlib.Nat.{mod-eq_of_lt}
use xbot_framework.Wire.Bytes.{le_bytes, le_value, read_le, le_value-le_bytes, IsBytes, read_le-lt}
use xbot_framework.Wire.Frames.{
  Frame, IsEncodable, Step, ended, broken, frame, descriptor_size, encode_descriptor, encode_frame,
  next_frame, walk,
}

pub drop-append_add :
    {A : Type 0} (pre xs : List A) (p k j : ℕ)
    → p ≡ length pre
    → j ≡ p + k
    → drop j (pre ++ xs) ≡ drop k xs
drop-append_add pre xs p k j e f =
    ap (λ n. drop n (pre ++ xs)) f
    ∙ (sym (drop-drop p k (pre ++ xs)) ∙ ap (drop k) (drop-append pre xs p e))

pub read_le-append :
    (pre xs : List ℕ) (p k j w : ℕ)
    → p ≡ length pre
    → j ≡ p + k
    → read_le (pre ++ xs) j w ≡ read_le xs k w
unfolding read_le
read_le-append pre xs p k j w e f =
    ap (λ (ys : List ℕ). le_value (take w ys)) (drop-append_add pre xs p k j e f)

pub read_id :
    (f : Frame) (rest : List ℕ) → IsEncodable f → read_le (encode_frame f ++ rest) 0 2 ≡ f.target_id
unfolding read_le encode_frame encode_descriptor le_bytes le_value
read_id f rest e = le_value-le_bytes 2 f.target_id e.id_fits

pub read_size :
    (f : Frame) (rest : List ℕ)
    → IsEncodable f
    → read_le (encode_frame f ++ rest) 4 4 ≡ length f.content
unfolding read_le encode_frame encode_descriptor le_bytes le_value
read_size f rest e = le_value-le_bytes 4 (length f.content) e.size_fits

pub drop_descriptor :
    (f : Frame) (rest : List ℕ) → drop 8 (encode_frame f ++ rest) ≡ f.content ++ rest
unfolding encode_frame encode_descriptor le_bytes
drop_descriptor f rest = refl

-- The step with unbounded arithmetic.
abbrev pub exact_frame : List ℕ → ℕ → Step
exact_frame payload p =
    let size = read_le payload (p + 4) 4 in
    if leb (p + descriptor_size) (length payload)
    then if leb (p + descriptor_size + size) (length payload)
      then frame (read_le payload p 2) size (p + descriptor_size + size)
      else broken
    else ended

-- `size_t` is wide enough that no sum over this payload wraps.
abbrev pub IsWide : ℕ → List ℕ → Type 0
IsWide m payload = length payload + 2 ^ 33 ≤ m

pub next_frame-eq-exact :
    (m : ℕ) (payload : List ℕ) (p : ℕ)
    → IsWide m payload
    → IsBytes payload
    → p ≤ length payload
    → next_frame m payload p ≡ exact_frame payload p
unfolding next_frame
next_frame-eq-exact m payload p wide bytes within =
    let small : read_le payload (p + 4) 4 < 2 ^ 32 = read_le-lt payload (p + 4) 4 bytes in
    rw
      (
        mod-eq_of_lt {n = p + 8} {m = m} (omega arith),
        mod-eq_of_lt {n = p + 8 + read_le payload (p + 4) 4} {m = m} (omega arith),
        mod-eq_of_lt {n = read_le payload (p + 4) 4 + 8} {m = m} (omega arith),
        mod-eq_of_lt {n = p + (read_le payload (p + 4) 4 + 8)} {m = m} (omega arith),
      )
      (ap
        (λ (n : ℕ).
          if leb (p + 8) (length payload)
          then (if leb (p + 8 + read_le payload (p + 4) 4) (length payload)
              then frame (read_le payload p 2) (read_le payload (p + 4) 4) n
              else broken)
          else ended)
        (omega arith))

-- Every frame that the loop accepts lies within the payload, with its descriptor, and the loop goes on
-- just behind it: for a payload of any bytes, with a wide enough `size_t`.
pub next_frame_within :
    (m : ℕ) (payload : List ℕ) (p : ℕ) {target_id size next : ℕ}
    → IsWide m payload
    → IsBytes payload
    → p ≤ length payload
    → next_frame m payload p ≡ frame target_id size next
    → (p + descriptor_size + size ≤ length payload) × (next ≡ p + descriptor_size + size)
next_frame_within m payload p wide bytes within e =
    let e' : exact_frame payload p ≡ frame _ _ _ =
      sym (next_frame-eq-exact m payload p wide bytes within) ∙ e in
    ground arith

-- Where `size_t` has 32 bits, a descriptor that declares 2^32 - 8 bytes is accepted at any place of any
-- payload that has room for the descriptor, though its data does not fit, and the loop stays where it is.
pub next_frame_wraps32 :
    (payload : List ℕ) (p : ℕ)
    → p + descriptor_size ≤ length payload
    → length payload < 2 ^ 32
    → read_le payload (p + 4) 4 ≡ 2 ^ 32 - descriptor_size
    → (next_frame (2 ^ 32) payload p ≡ frame (read_le payload p 2) (2 ^ 32 - descriptor_size) p)
      × ¬ (p + descriptor_size + (2 ^ 32 - descriptor_size) ≤ length payload)
unfolding next_frame
next_frame_wraps32 payload p room short declared = (rw declared (ground arith), λ fits. omega arith)

-- To split on what the loop finds.
pub Step-cases :
    (t : Step)
    → ((t ≡ ended) ⊎ (t ≡ broken))
      ⊎ ((target_id : ℕ) × (size : ℕ) × (next : ℕ) × (t ≡ frame target_id size next))
Step-cases ended = inl (inl refl)
Step-cases broken = inl (inr refl)
Step-cases (frame a b c) = inr (a, b, c, refl)

-- The loop keeps what its body keeps, for any payload.
pub walk-keeps {ℓ κ} :
    {S : Type ℓ} (P : S → Type κ) (m : ℕ) (body : ℕ → List ℕ → S → S × Bool)
    → ((target_id : ℕ) (content : List ℕ) (s : S) → P s → P (body target_id content s).0)
    → (fuel : ℕ) (payload : List ℕ) (p : ℕ) (s : S) → P s
    → P (walk m body fuel payload p s).0
unfolding walk
walk-keeps P m body keep zero payload p s h = h
walk-keeps P m body keep (suc fuel) payload p s h = elim (Step-cases (next_frame m payload p)) [
  | inl (inl e) ↦ rw (e, walk) h
  | inl (inr e) ↦ rw (e, walk) h
  | inr (target_id, size, next, e) ↦
      let content = take size (drop (p + descriptor_size) payload) in
      elim (Bool-cases (body target_id content s).1) [
        | inl more ↦
            rw (e, more, walk)
              (walk-keeps P m body keep fuel payload next (body target_id content s).0
                (keep target_id content s h))
        | inr done ↦ rw (e, done, walk) (keep target_id content s h)
      ]
]
