-- ===== src/Wire/Frames/Termination.antt =====
-- The loop over a payload ends: fuel beyond the bytes that are left changes nothing.
use xbot_framework.Prelude.{
  ℕ, zero, suc, ◌+◌, ◌≤◌, ◌<◌, ◌≡◌, refl, List, Bool, arith, Bool-cases, inl, inr, length, take,
  drop,
}
use xbot_framework.Wire.Bytes.{IsBytes}
use xbot_framework.Wire.Frames.{descriptor_size, next_frame, walk}
use xbot_framework.Wire.Frames.Walk.{Step-cases, IsWide, next_frame_within}

module _ {ℓ} {S : Type ℓ} (m : ℕ) (body : ℕ → List ℕ → S → S × Bool) (payload : List ℕ)
    (wide : IsWide m payload) (bytes : IsBytes payload) where
  -- Any two amounts of fuel above the number of bytes that are left give the same result, whatever the
  -- body does: the loop ends by its test, its break or a return of its body, for any payload of bytes
  -- and a wide enough `size_t`.
  pub walk_fuel :
      (f g p : ℕ) (s : S)
      → p ≤ length payload
      → length payload < p + f
      → length payload < p + g
      → walk m body f payload p s ≡ walk m body g payload p s
  unfolding walk
  walk_fuel zero g p s within enough enough' = absurd (omega arith)
  walk_fuel (suc f) zero p s within enough enough' = absurd (omega arith)
  walk_fuel (suc f) (suc g) p s within enough enough' = elim (Step-cases (next_frame m payload p)) [
    | inl (inl e) ↦ rw (e, walk) refl
    | inl (inr e) ↦ rw (e, walk) refl
    | inr (target_id, size, next, e) ↦
        let ahead = next_frame_within m payload p wide bytes within e in
        let result = body target_id (take size (drop (p + descriptor_size) payload)) s in
        elim (Bool-cases result.1) [
          | inl more ↦
              rw (e, more, walk)
                (walk_fuel f g next result.0 (omega arith) (omega arith) (omega arith))
          | inr done ↦ rw (e, done, walk) refl
        ]
  ]
