-- ===== src/Interface/Maps.antt =====
-- `std::map` from 16-bit keys: an association list in the order of the keys.
use xbot_framework.Prelude.{
  ℕ, ◌≡◌, refl, List, [], ◌∷◌, Option, none, some, Bool, true, false, arith, ltb, ◌==◌,
  if◌then◌else◌, Bool-cases, if-keeps, subst, sym, true≢false, All, ==_iff, inl, inr,
}

abbrev pub Map : Type 0 → Type 0
Map V = List (ℕ × V)

module _ {V : Type 0} where
  unfoldable pub find : ℕ → Map V → Option V
  find k [] = none
  find k ((j, v) ∷ m) = if j == k then some v else find k m

  -- The key's value is set, be it new or not.
  unfoldable pub insert : ℕ → V → Map V → Map V
  insert k v [] = (k, v) ∷ []
  insert k v ((j, w) ∷ m) =
      let rest = insert k v m in
      if ltb k j then (k, v) ∷ ((j, w) ∷ m) else if j == k then (k, v) ∷ m else (j, w) ∷ rest

  unfoldable pub erase : ℕ → Map V → Map V
  erase k [] = []
  erase k ((j, v) ∷ m) = let rest = erase k m in if j == k then rest else (j, v) ∷ rest

  abbrev pub is_some : Option V → Bool
  is_some none = false
  is_some (some v) = true

  -- `contains`
  abbrev pub contains : ℕ → Map V → Bool
  contains k m = is_some (find k m)

  pub find-insert_self : (k : ℕ) (v : V) (m : Map V) → find k (insert k v m) ≡ some v
  unfolding find insert
  find-insert_self k v [] = ground arith
  find-insert_self k v ((j, w) ∷ m) = let ih = find-insert_self k v m in ground arith

  pub find-insert_other :
      (k : ℕ) (v : V) (m : Map V) (i : ℕ) → ¬ (i ≡ k) → find i (insert k v m) ≡ find i m
  unfolding find insert
  find-insert_other k v [] i other = ground arith
  find-insert_other k v ((j, w) ∷ m) i other =
      let ih = find-insert_other k v m i other in ground arith

  pub find-erase_self : (k : ℕ) (m : Map V) → find k (erase k m) ≡ none
  unfolding find erase
  find-erase_self k [] = refl
  find-erase_self k ((j, v) ∷ m) = let ih = find-erase_self k m in ground arith

  pub find-erase_other : (k : ℕ) (m : Map V) (i : ℕ) → ¬ (i ≡ k) → find i (erase k m) ≡ find i m
  unfolding find erase
  find-erase_other k [] i other = refl
  find-erase_other k ((j, v) ∷ m) i other = let ih = find-erase_other k m i other in ground arith

module _ {ℓ κ μ} {A : Type ℓ} where
  pub All-map :
      {P : A → Type κ} {Q : A → Type μ}
      → ((x : A) → P x → Q x)
      → (xs : List A) → All P xs
      → All Q xs
  All-map f [] h = tt
  All-map f (x ∷ xs) h = (f x h.0, All-map f xs h.1)

module _ {V : Type 0} (P : ℕ × V → Type 0) where
  pub All-insert : (k : ℕ) (v : V) (m : Map V) → P (k, v) → All P m → All P (insert k v m)
  unfolding insert
  All-insert k v [] p h = (p, tt)
  All-insert k v ((j, w) ∷ m) p h =
      if-keeps (All P) (ltb k j) _ _ (λ _. (p, h))
        (λ _. if-keeps (All P) (j == k) _ _ (λ _. (p, h.1)) (λ _. (h.0, All-insert k v m p h.1)))

  pub All-erase :
      (k : ℕ) (m : Map V) → All P m → All (λ (e : ℕ × V). P e × ((e.0 == k) ≡ false)) (erase k m)
  unfolding erase
  All-erase k [] h = tt
  All-erase k ((j, v) ∷ m) h =
      if-keeps (All (λ (e : ℕ × V). P e × ((e.0 == k) ≡ false))) (j == k) _ _
        (λ _. All-erase k m h.1) (λ other. ((h.0, other), All-erase k m h.1))

pub All-find :
    {V : Type 0} (Q : ℕ → Type 0) (k : ℕ) (m : Map V)
    → All (λ (e : ℕ × V). Q e.0) m
    → contains k m ≡ true
    → Q k
unfolding find
All-find Q k [] h there = absurd (true≢false (sym there))
All-find Q k ((j, v) ∷ m) h there = elim (Bool-cases (j == k)) [
  | inl here ↦ subst Q ((==_iff j k).0 here) h.0
  | inr other ↦
      All-find Q k m h.1
        (subst (λ (b : Bool). is_some (if b then some v else find k m) ≡ true) other there)
]
