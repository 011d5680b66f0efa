-- ===== src/Wire/Bytes.antt =====
-- Little-endian integers, as the packed structs hold them in memory.
use native.Mathlib.Nat.{pow-suc, le_trans}
use xbot_framework.Prelude.{
  ℕ, zero, suc, ◌+◌, ◌*◌, ◌/◌, ◌%◌, ◌^◌, ◌≤◌, ◌<◌, ◌≡◌, refl, ap, List, [], ◌∷◌, ◌++◌, arith,
  length, take, drop, length-take,
}

-- The `w` bytes of an integer, the lowest first.
unfoldable pub le_bytes : ℕ → ℕ → List ℕ
le_bytes zero n = []
le_bytes (suc w) n = (n % 256) ∷ le_bytes w (n / 256)

unfoldable pub le_value : List ℕ → ℕ
le_value [] = 0
le_value (b ∷ bs) = b + 256 * le_value bs

-- The field of `w` bytes at an offset of a buffer.
unfoldable pub read_le : List ℕ → ℕ → ℕ → ℕ
read_le buffer offset w = le_value (take w (drop offset buffer))

pub length-le_bytes : (w n : ℕ) → length (le_bytes w n) ≡ w
unfolding le_bytes
length-le_bytes zero n = refl
length-le_bytes (suc w) n = ap suc (length-le_bytes w (n / 256))

pub le_value-le_bytes : (w n : ℕ) → n < 256 ^ w → le_value (le_bytes w n) ≡ n
unfolding le_bytes le_value
le_value-le_bytes zero n h = omega arith
le_value-le_bytes (suc w) n h =
    omega (arith, le_value-le_bytes w (n / 256) (omega (arith, pow-suc 256 w)))

-- Every element is a byte.
abbrev pub IsBytes : List ℕ → Type 0
IsBytes [] = Unit
IsBytes (b ∷ bs) = (b < 256) × IsBytes bs

pub le_value-lt : (bs : List ℕ) → IsBytes bs → le_value bs < 256 ^ length bs
unfolding le_value
le_value-lt [] h = omega arith
le_value-lt (b ∷ bs) h = omega (arith, le_value-lt bs h.1, pow-suc 256 (length bs))

pub take-IsBytes : (n : ℕ) (bs : List ℕ) → IsBytes bs → IsBytes (take n bs)
take-IsBytes zero bs h = tt
take-IsBytes (suc n) [] h = tt
take-IsBytes (suc n) (b ∷ bs) h = (h.0, take-IsBytes n bs h.1)

pub drop-IsBytes : (n : ℕ) (bs : List ℕ) → IsBytes bs → IsBytes (drop n bs)
drop-IsBytes zero bs h = h
drop-IsBytes (suc n) [] h = tt
drop-IsBytes (suc n) (b ∷ bs) h = drop-IsBytes n bs h.1

pow_mono : (w k : ℕ) → w ≤ k → 256 ^ w ≤ 256 ^ k
pow_mono w zero h = let e : w ≡ 0 = omega arith in rw e (omega arith)
pow_mono zero (suc k) h = omega (arith, pow_mono zero k (omega arith), pow-suc 256 k)
pow_mono (suc w) (suc k) h = omega (arith, pow_mono w k (omega arith), pow-suc 256 k, pow-suc 256 w)

pub read_le-lt : (bs : List ℕ) (offset w : ℕ) → IsBytes bs → read_le bs offset w < 256 ^ w
unfolding read_le
read_le-lt bs offset w h =
    le_trans (le_value-lt (take w (drop offset bs)) (take-IsBytes w _ (drop-IsBytes offset bs h))) (
      pow_mono (length (take w (drop offset bs))) w (omega (arith, length-take w (drop offset bs))))

pub le_bytes-IsBytes : (w n : ℕ) → IsBytes (le_bytes w n)
unfolding le_bytes
le_bytes-IsBytes zero n = tt
le_bytes-IsBytes (suc w) n = (omega arith, le_bytes-IsBytes w (n / 256))

pub append-IsBytes : (xs ys : List ℕ) → IsBytes xs → IsBytes ys → IsBytes (xs ++ ys)
append-IsBytes [] ys h k = k
append-IsBytes (x ∷ xs) ys h k = (h.0, append-IsBytes xs ys h.1 k)
