-- ===== src/Template/Calls/Parsed.antt =====
-- What the generated service makes of the parameters with arrays.
use xbot_framework.Prelude.{
  ℕ, ◌+◌, ◌*◌, ◌%◌, ◌==◌, ◌&&◌, ◌<◌, ◌≡◌, refl, ap, ap₂, sym, ◌∙◌, List, [], ◌∷◌, ◌++◌, some, Bool,
  true, false, arith, if◌then◌else◌, length, length-append, u32_mod, take_all, append-nil, leb,
  replicate,
}
use xbot_framework.Wire.Bytes.{
  IsBytes, le_bytes, le_value-le_bytes, length-le_bytes, le_bytes-IsBytes,
}
use xbot_framework.Wire.Frames.{encode_frame, encode_frames, encode_descriptor, length-encode_frame}
use xbot_framework.Service.Send.{write_at}
use xbot_framework.Template.Members.{Chars}
use xbot_framework.Template.Params.{
  Parse, parse, note_param, Taken, stored, wrong_size, chars, array_switch, mixed_switch, no_chars,
  label_size, name_size, no_mixed_params, MixedParams,
}
use xbot_framework.Template.Params.Laws.{note_frames}
use xbot_framework.Template.Client.{append_param, append_chars}
use xbot_framework.Template.Calls.Frames.{frame_of, mixed_frames, parse_known}

-- The buffer that a `char` array of a size is copied into.
abbrev pub filled : ℕ → List ℕ → Chars
filled size content = record {
  buffer = write_at (replicate size 0) 0 content;
  length = length content;
}

pub append_chars-frame :
    (content : List ℕ)
    → length content < u32_mod
    → append_chars 0 (some content) (length content) [] ≡ some (encode_frame (frame_of 0 content))
unfolding append_chars encode_frame
append_chars-frame content small =
    ap₂ (λ (n : ℕ) (b : List ℕ). some (encode_descriptor 0 n ++ b)) (omega arith)
      (take_all content (length content * 1) (omega arith))

-- A test of the size, as a choice between the two ends of a case.
chars_at :
    {P : Type 0} (size : ℕ) (old : Chars) (store : Chars → P) (content : List ℕ) (b : Bool)
    → leb (length content) size ≡ b
    → chars size old store content ≡ (
        if b
        then stored
            (store (record { buffer = write_at old.buffer 0 content; length = length content }))
        else wrong_size)
chars_at size old store content b e =
    let whole : length content % 1 ≡ 0 = omega arith in
    ap₂
      (λ (n : ℕ) (fits : Bool).
        if (n == 0) && fits
        then stored
            (store (record { buffer = write_at old.buffer 0 content; length = length content }))
        else wrong_size)
      whole e

note_taken :
    {P : Type 0} (r : Parse P) (t : Taken P) (b : Bool) (p : P)
    → t ≡ (if b then stored p else wrong_size)
    → note_param t r ≡ (
        if b
        then record r { params = p; params_received = (r.params_received + 1) % 256 }
        else record r { parse_ok = false })
unfolding note_param
note_taken r t true p e = rw e refl
note_taken r t false p e = rw e refl

pub array_parsed :
    (label : List ℕ) (b : Bool)
    → leb (length label) label_size ≡ b
    → length label < u32_mod
    → IsBytes label
    → parse array_switch (encode_frame (frame_of 0 label)) (no_chars label_size) ≡ (
        if b
        then record { params = filled label_size label; parse_ok = true; params_received = 1 }
        else record { params = no_chars label_size; parse_ok = false; params_received = 0 })
unfolding encode_frames note_frames array_switch
array_parsed label b e small bytes =
    parse_known array_switch (no_chars label_size) (frame_of 0 label ∷ [])
      (encode_frame (frame_of 0 label)) _ (sym (append-nil (encode_frame (frame_of 0 label))))
      (omega (
        arith,
        length-append (encode_frame (frame_of 0 label)) [],
        length-encode_frame (frame_of 0 label),
      ))
      (bytes, tt) (record { id_fits = omega arith; size_fits = small }, tt)
      (note_taken _ _ b (filled label_size label)
        (chars_at label_size (no_chars label_size) (λ (v : Chars). v) label b e))

mixed_noted :
    (name : List ℕ) (value : ℕ) (b : Bool)
    → leb (length name) name_size ≡ b
    → value < u32_mod
    → note_frames mixed_switch
        (mixed_frames name value)
        (record { params = no_mixed_params; parse_ok = true; params_received = 0 })
      ≡ (if b
          then record {
            params = record { name = filled name_size name; value = value };
            parse_ok = true;
            params_received = 2;
          }
          else record {
            params = record no_mixed_params { value = value };
            parse_ok = false;
            params_received = 1;
          })
unfolding note_frames mixed_switch note_param le_bytes
mixed_noted name value true e fits =
    ap (λ (r : Parse MixedParams). note_param (mixed_switch 1 (le_bytes 4 value) r.params) r)
      (note_taken _ _ true (record { name = filled name_size name; value = 0 })
        (chars_at name_size (no_chars name_size)
          (λ (v : Chars). record no_mixed_params { name = v }) name true e))
    ∙ λ i. record {
      params = record { name = filled name_size name; value = le_value-le_bytes 4 value fits i };
      parse_ok = true;
      params_received = 2;
    }
mixed_noted name value false e fits =
    ap (λ (r : Parse MixedParams). note_param (mixed_switch 1 (le_bytes 4 value) r.params) r)
      (note_taken _ _ false (record { name = filled name_size name; value = 0 })
        (chars_at name_size (no_chars name_size)
          (λ (v : Chars). record no_mixed_params { name = v }) name false e))
    ∙ λ i. record {
      params = record no_mixed_params { value = le_value-le_bytes 4 value fits i };
      parse_ok = false;
      params_received = 1;
    }

pub mixed_parsed :
    (name : List ℕ) (value : ℕ) (b : Bool)
    → leb (length name) name_size ≡ b
    → length name < u32_mod
    → IsBytes name
    → value < u32_mod
    → parse mixed_switch
        (append_param 1 (le_bytes 4 value) (encode_frame (frame_of 0 name)))
        no_mixed_params
      ≡ (if b
          then record {
            params = record { name = filled name_size name; value = value };
            parse_ok = true;
            params_received = 2;
          }
          else record {
            params = record no_mixed_params { value = value };
            parse_ok = false;
            params_received = 1;
          })
unfolding encode_frames append_param encode_descriptor encode_frame
mixed_parsed name value b e small bytes fits =
    parse_known mixed_switch no_mixed_params (mixed_frames name value)
      (append_param 1 (le_bytes 4 value) (encode_frame (frame_of 0 name))) _
      (ap (λ (t : List ℕ). encode_frame (frame_of 0 name) ++ t)
        (sym (append-nil (encode_frame (frame_of 1 (le_bytes 4 value))))))
      (omega (
        arith,
        length-append (encode_frame (frame_of 0 name))
            (encode_frame (frame_of 1 (le_bytes 4 value)) ++ []),
        length-append (encode_frame (frame_of 1 (le_bytes 4 value))) [],
        length-encode_frame (frame_of 0 name),
        length-encode_frame (frame_of 1 (le_bytes 4 value)),
        length-le_bytes 4 value,
      ))
      (bytes, (le_bytes-IsBytes 4 value, tt))
      (
        record { id_fits = omega arith; size_fits = small },
        (record { id_fits = omega arith; size_fits = omega (arith, length-le_bytes 4 value) }, tt),
      )
      (mixed_noted name value b e fits)
