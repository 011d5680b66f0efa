-- ===== src/Template/Cbor/RoundTrip.antt =====
-- Reading back what was written.
use xbot_framework.Prelude.{
  ℕ, zero, suc, ◌+◌, ◌/◌, ◌%◌, ◌^◌, ◌<◌, ◌≤◌, ◌≡◌, refl, ap, ◌∙◌, List, ◌∷◌, ◌++◌, some, le→leb,
  arith, length, take-append, drop-append, append_assoc, length-append,
}
use xbot_framework.Template.Cbor.{
  Cbor, Items, Fields, small, word, text, array, table, truth, nil, cons, end, field, count_items,
  count_fields, encode_cbor, encode_items, encode_fields, read_text, read_word, read_key, map_first,
  decode_cbor, decode_items, decode_fields,
}

-- The numbers and the lengths that the heads can carry.
unfoldable mutual
  unfolding count_items count_fields

  pub Fits : Cbor → Type 0
  Fits (small n) = n < 0x18
  Fits (word n) = n < 2 ^ 16
  Fits (text t) = length t < 0x18
  Fits (array xs) = (count_items xs < 0x18) × FitsItems xs
  Fits (table fs) = (count_fields fs < 0x18) × FitsFields fs
  Fits truth = Unit

  pub FitsItems : Items → Type 0
  FitsItems nil = Unit
  FitsItems (cons x xs) = Fits x × FitsItems xs

  pub FitsFields : Fields → Type 0
  FitsFields end = Unit
  FitsFields (field k v fs) = (length k < 0x18) × Fits v × FitsFields fs

-- The fuel that a value takes.
unfoldable mutual
  pub size : Cbor → ℕ
  size (array xs) = suc (size_items xs)
  size (table fs) = suc (size_fields fs)
  size _ = 1

  pub size_items : Items → ℕ
  size_items nil = 1
  size_items (cons x xs) = suc (size x + size_items xs)

  pub size_fields : Fields → ℕ
  size_fields end = 1
  size_fields (field k v fs) = suc (size v + size_fields fs)

read_text_append : (t rest : List ℕ) → read_text (length t) (t ++ rest) ≡ some (t, rest)
unfolding read_text
read_text_append t rest =
    rw
      (
        le→leb (length t) (length (t ++ rest)) (omega (arith, length-append t rest)),
        take-append t rest (length t) refl,
        drop-append t rest (length t) refl,
      )
      refl

-- Which branch a head takes.
head_text :
    (f n : ℕ) (bytes : List ℕ)
    → n < 0x18
    → decode_cbor (suc f) ((0x60 + n) ∷ bytes) ≡ map_first text (read_text n bytes)
unfolding decode_cbor
head_text f n bytes h = ground arith

head_array :
    (f n : ℕ) (bytes : List ℕ)
    → n < 0x18
    → decode_cbor (suc f) ((0x80 + n) ∷ bytes) ≡ map_first array (decode_items f n bytes)
unfolding decode_cbor
head_array f n bytes h = ground arith

head_table :
    (f n : ℕ) (bytes : List ℕ)
    → n < 0x18
    → decode_cbor (suc f) ((0xA0 + n) ∷ bytes) ≡ map_first table (decode_fields f n bytes)
unfolding decode_cbor
head_table f n bytes h = ground arith

head_small :
    (f n : ℕ) (bytes : List ℕ) → n < 0x18 → decode_cbor (suc f) (n ∷ bytes) ≡ some (small n, bytes)
unfolding decode_cbor
head_small f n bytes h = ground arith

read_key_append :
    (k rest : List ℕ)
    → length k < 0x18
    → read_key (((0x60 + length k) ∷ k) ++ rest) ≡ some (k, rest)
unfolding read_key
read_key_append k rest h = ground (arith, read_text_append k rest)

head_word :
    (f n : ℕ) (rest : List ℕ)
    → decode_cbor (suc f) (0x19 ∷ n / 256 ∷ n % 256 ∷ rest) ≡ some (word n, rest)
unfolding decode_cbor read_word
head_word f n rest = ap (λ (k : ℕ). some (word k, rest)) (omega arith)

head_truth : (f : ℕ) (rest : List ℕ) → decode_cbor (suc f) (0xF5 ∷ rest) ≡ some (truth, rest)
unfolding decode_cbor
head_truth f rest = refl

last_item : (f : ℕ) (rest : List ℕ) → decode_items (suc f) 0 rest ≡ some (nil, rest)
unfolding decode_items
last_item f rest = refl

last_field : (f : ℕ) (rest : List ℕ) → decode_fields (suc f) 0 rest ≡ some (end, rest)
unfolding decode_fields
last_field f rest = refl

size_pos : (v : Cbor) → 0 < size v
unfolding size
size_pos (array xs) = omega arith
size_pos (table fs) = omega arith
size_pos (small n) = omega arith
size_pos (word n) = omega arith
size_pos (text t) = omega arith
size_pos truth = omega arith

size_items_pos : (xs : Items) → 0 < size_items xs
unfolding size_items
size_items_pos nil = omega arith
size_items_pos (cons x xs) = omega arith

size_fields_pos : (fs : Fields) → 0 < size_fields fs
unfolding size_fields
size_fields_pos end = omega arith
size_fields_pos (field k v fs) = omega arith

-- One element more.
more_items :
    (f n : ℕ) (x : Cbor) (xs : Items) (bytes rest last : List ℕ)
    → decode_cbor f bytes ≡ some (x, rest)
    → decode_items f n rest ≡ some (xs, last)
    → decode_items (suc f) (suc n) bytes ≡ some (cons x xs, last)
unfolding decode_items
more_items f n x xs bytes rest last e es = rw (e, decode_items) (ap (map_first (cons x)) es)

more_fields :
    (f n : ℕ) (k : List ℕ) (v : Cbor) (fs : Fields) (bytes after_key rest last : List ℕ)
    → read_key bytes ≡ some (k, after_key)
    → decode_cbor f after_key ≡ some (v, rest)
    → decode_fields f n rest ≡ some (fs, last)
    → decode_fields (suc f) (suc n) bytes ≡ some (field k v fs, last)
unfolding decode_fields
more_fields f n k v fs bytes after_key rest last ek e es =
    rw (ek, decode_fields) (rw e (ap (map_first (field k v)) es))

mutual
  unfolding size encode_cbor count_items count_fields Fits

  -- Any value whose numbers and lengths fit their heads is read back from the bytes that it is written as, and
  -- the reading stops just behind it, whatever follows.
  pub decode-encode_cbor :
      (v : Cbor) (fuel : ℕ) (rest : List ℕ)
      → size v ≤ fuel
      → Fits v
      → decode_cbor fuel (encode_cbor v ++ rest) ≡ some (v, rest)
  decode-encode_cbor v zero rest h fits = absurd (omega (arith, size_pos v))
  decode-encode_cbor (small n) (suc f) rest h fits = head_small f n rest fits
  decode-encode_cbor (word n) (suc f) rest h fits = head_word f n rest
  decode-encode_cbor (text t) (suc f) rest h fits =
      head_text f (length t) (t ++ rest) fits ∙ ap (map_first text) (read_text_append t rest)
  decode-encode_cbor (array xs) (suc f) rest h fits =
      head_array f (count_items xs) (encode_items xs ++ rest) fits.0
      ∙ ap (map_first array) (decode-encode_items xs f rest (omega arith) fits.1)
  decode-encode_cbor (table fs) (suc f) rest h fits =
      head_table f (count_fields fs) (encode_fields fs ++ rest) fits.0
      ∙ ap (map_first table) (decode-encode_fields fs f rest (omega arith) fits.1)
  decode-encode_cbor truth (suc f) rest h fits = head_truth f rest

  decode-encode_items :
      (xs : Items) (fuel : ℕ) (rest : List ℕ)
      → size_items xs ≤ fuel
      → FitsItems xs
      → decode_items fuel (count_items xs) (encode_items xs ++ rest) ≡ some (xs, rest)
  decode-encode_items xs zero rest h fits = absurd (omega (arith, size_items_pos xs))
  decode-encode_items nil (suc f) rest h fits = last_item f rest
  decode-encode_items (cons x xs) (suc f) rest h fits =
      more_items f (count_items xs) x xs _ (encode_items xs ++ rest) rest
        (ap (decode_cbor f) (append_assoc (encode_cbor x) (encode_items xs) rest)
          ∙ decode-encode_cbor x f (encode_items xs ++ rest) (omega arith) fits.0)
        (decode-encode_items xs f rest (omega arith) fits.1)

  decode-encode_fields :
      (fs : Fields) (fuel : ℕ) (rest : List ℕ)
      → size_fields fs ≤ fuel
      → FitsFields fs
      → decode_fields fuel (count_fields fs) (encode_fields fs ++ rest) ≡ some (fs, rest)
  decode-encode_fields fs zero rest h fits = absurd (omega (arith, size_fields_pos fs))
  decode-encode_fields end (suc f) rest h fits = last_field f rest
  decode-encode_fields (field k v fs) (suc f) rest h fits =
      let tail = encode_fields fs ++ rest in
      more_fields f (count_fields fs) k v fs _ (encode_cbor v ++ tail) tail rest
        (ap read_key (
            append_assoc ((0x60 + length k) ∷ k) (encode_cbor v ++ encode_fields fs) rest
            ∙ ap (λ (t : List ℕ). ((0x60 + length k) ∷ k) ++ t)
                (append_assoc (encode_cbor v) (encode_fields fs) rest))
          ∙ read_key_append k (encode_cbor v ++ tail) fits.0)
        (decode-encode_cbor v f tail (omega arith) fits.1)
        (decode-encode_fields fs f rest (omega arith) fits.2)
