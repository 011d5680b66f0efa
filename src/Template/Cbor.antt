-- ===== src/Template/Cbor.antt =====
-- The part of CBOR (RFC 8949) that descriptions and advertisements use, independent of the generator: the
-- values, their bytes, and a reader of bytes.
pub mod RoundTrip
use xbot_framework.Prelude.{
  ℕ, zero, suc, ◌+◌, ◌-◌, ◌*◌, ◌/◌, ◌%◌, ◌<◌, ◌≡◌, List, [], ◌∷◌, ◌++◌, Option, none, some, Bool,
  ◌==◌, ltb, leb, if◌then◌else◌, length, take, drop,
}
use Prim.Native.Char.{code}
use Prim.Native.String.{String}

abbrev pub codes : String → List ℕ
codes String.[] = []
codes (String.◌∷◌ c s) = code c ∷ codes s

-- `small` is a number in the first byte, `word` one of two bytes behind it.
mutual
  pub data Cbor : Type 0 where
    small word : ℕ → Cbor
    text : List ℕ → Cbor
    array : Items → Cbor
    table : Fields → Cbor
    truth : Cbor

  pub data Items : Type 0 where
    nil : Items
    cons : Cbor → Items → Items

  pub data Fields : Type 0 where
    end : Fields
    field : List ℕ → Cbor → Fields → Fields

unfoldable pub count_items : Items → ℕ
count_items nil = 0
count_items (cons x xs) = suc (count_items xs)

unfoldable pub count_fields : Fields → ℕ
count_fields end = 0
count_fields (field k v fs) = suc (count_fields fs)

unfoldable mutual
  unfolding count_items count_fields

  pub encode_cbor : Cbor → List ℕ
  encode_cbor (small n) = n ∷ []
  encode_cbor (word n) = 0x19 ∷ n / 256 ∷ n % 256 ∷ []
  encode_cbor (text t) = (0x60 + length t) ∷ t
  encode_cbor (array xs) = (0x80 + count_items xs) ∷ encode_items xs
  encode_cbor (table fs) = (0xA0 + count_fields fs) ∷ encode_fields fs
  encode_cbor truth = 0xF5 ∷ []

  pub encode_items : Items → List ℕ
  encode_items nil = []
  encode_items (cons x xs) = encode_cbor x ++ encode_items xs

  pub encode_fields : Fields → List ℕ
  encode_fields end = []
  encode_fields (field k v fs) = ((0x60 + length k) ∷ k) ++ (encode_cbor v ++ encode_fields fs)

-- A text of a length, and the rest.
unfoldable pub read_text : ℕ → List ℕ → Option (List ℕ × List ℕ)
read_text n bytes = if leb n (length bytes) then some (take n bytes, drop n bytes) else none

abbrev pub in_head : ℕ → ℕ → Bool
in_head base b = if ltb b base then Bool.false else ltb b (base + 0x18)

unfoldable pub read_word : List ℕ → Option (Cbor × List ℕ)
read_word (a ∷ (b ∷ rest)) = some (word (a * 256 + b), rest)
read_word _ = none

abbrev pub map_first : {A B C : Type 0} → (A → B) → Option (A × C) → Option (B × C)
map_first f none = none
map_first f (some (a, c)) = some (f a, c)

-- The key of a table is a text.
unfoldable pub read_key : List ℕ → Option (List ℕ × List ℕ)
read_key [] = none
read_key (b ∷ bytes) = if in_head 0x60 b then read_text (b - 0x60) bytes else none

-- One value and the bytes behind it, on fuel.
unfoldable mutual
  pub decode_cbor : ℕ → List ℕ → Option (Cbor × List ℕ)
  decode_cbor zero bytes = none
  decode_cbor (suc fuel) [] = none
  decode_cbor (suc fuel) (b ∷ bytes) =
      let items = map_first array (decode_items fuel (b - 0x80) bytes) in
      let fields = map_first table (decode_fields fuel (b - 0xA0) bytes) in
      if ltb b 0x18
      then some (small b, bytes)
      else if b == 0x19
      then read_word bytes
      else if in_head 0x60 b
      then map_first text (read_text (b - 0x60) bytes)
      else if in_head 0x80 b
      then items
      else if in_head 0xA0 b
      then fields
      else if b == 0xF5
      then some (truth, bytes)
      else none

  pub decode_items : ℕ → ℕ → List ℕ → Option (Items × List ℕ)
  decode_items zero n bytes = none
  decode_items (suc fuel) zero bytes = some (nil, bytes)
  decode_items (suc fuel) (suc n) bytes = elim (decode_cbor fuel bytes) [
    | none ↦ none
    | some (x, rest) ↦ map_first (cons x) (decode_items fuel n rest)
  ]

  pub decode_fields : ℕ → ℕ → List ℕ → Option (Fields × List ℕ)
  decode_fields zero n bytes = none
  decode_fields (suc fuel) zero bytes = some (end, bytes)
  decode_fields (suc fuel) (suc n) bytes = elim (read_key bytes) [
    | none ↦ none
    | some (k, after_key) ↦ elim (decode_cbor fuel after_key) [
      | none ↦ none
      | some (v, rest) ↦ map_first (field k v) (decode_fields fuel n rest)
    ]
  ]
