-- ===== src/Interface/Io/Scans.antt =====
-- ServiceIO.cpp: which endpoints the scan removes.
use xbot_framework.Prelude.{
  ℕ, ◌≡◌, ap, sym, subst, ◌∙◌, List, [], ◌∷◌, Option, none, some, Bool, true, false, true≢false,
  not, ◌==◌, if◌then◌else◌, if-keeps, Bool-cases, ◌⊎◌, inl, inr, ==_iff,
}
use xbot_framework.Interface.Maps.{Map, contains, find, insert, is_some, find-insert_other}
use xbot_framework.Interface.Io.State.{ServiceState}
use xbot_framework.Interface.Io.Claims.{timed_out, scan}
use xbot_framework.Interface.Io.Ordered.{Below, IsOrdered, Below-absent, scan-Below}

abbrev pub Holds : {A : Type 0} → A → List A → Type 0
Holds a [] = ⊥
Holds a (x ∷ xs) = (x ≡ a) ⊎ Holds a xs

-- The scan of the endpoints removes a silent service and lists it.
abbrev Removed : ℕ → List ℕ × (List ℕ × Map ServiceState) → Type 0
Removed i r = (find i r.1.1 ≡ none) × Holds i r.1.0

absent_behind :
    {V : Type 0} (i j : ℕ) (v : V) (m : Map V)
    → (j == i) ≡ false
    → find i m ≡ none
    → find i ((j, v) ∷ m) ≡ none
unfolding find
absent_behind i j v m other h = rw other h

-- What a lookup finds behind another key, and under its own.
found_behind :
    {V : Type 0} (i j : ℕ) (v : V) (m : Map V) (o : Option V)
    → (j == i) ≡ false
    → find i ((j, v) ∷ m) ≡ o
    → find i m ≡ o
unfolding find
found_behind i j v m o other there =
    subst (λ (b : Bool). (if b then some v else find i m) ≡ o) other there

found_not :
    {V : Type 0} (i j : ℕ) (v : V) (m : Map V) → (j == i) ≡ true → find i ((j, v) ∷ m) ≡ none → ⊥
unfolding find
found_not i j v m here absent =
    true≢false
      (ap is_some (subst (λ (b : Bool). (if b then some v else find i m) ≡ none) here absent))

found_first :
    {V : Type 0} (i j : ℕ) (v w : V) (m : Map V)
    → (j == i) ≡ true
    → find i ((j, v) ∷ m) ≡ some w
    → v ≡ w
unfolding find
found_first i j v w m here there =
    let same : some v ≡ some w =
      subst (λ (b : Bool). (if b then some v else find i m) ≡ some w) here there in
    ap (λ (o : Option _). elim o [ none ↦ v | some x ↦ x ]) same

found_nothing : {V : Type 0} (i : ℕ) (v : V) → find i [] ≡ some v → ⊥
unfolding find
found_nothing i v there = cc

pub scan-Removed :
    (now i : ℕ) (m : Map ServiceState) (state : ServiceState)
    → IsOrdered m
    → find i m ≡ some state
    → state.claimed_successfully ≡ true
    → timed_out now state ≡ true
    → Removed i (scan now m)
unfolding scan
scan-Removed now i [] state ordered there claimed silent = absurd (found_nothing i state there)
scan-Removed now i ((j, st) ∷ m) state ordered there claimed silent = elim (Bool-cases (j == i)) [
  | inl here ↦
      let same = found_first i j st state m here there in
      if-keeps (Removed i) (not st.claimed_successfully) _ _
        (λ e. absurd (
          true≢false
            (sym e ∙ ap not (ap (λ (x : ServiceState). x.claimed_successfully) same ∙ claimed))))
        (λ _.
          if-keeps (Removed i) (timed_out now st) _ _
            (λ _. (
              Below-absent i _ (
                  scan-Below now i m
                    (subst (λ (k : ℕ). Below k m) ((==_iff j i).0 here) ordered.0)),
              inl ((==_iff j i).0 here),
            ))
            (λ e. absurd (true≢false (sym silent ∙ (ap (timed_out now) (sym same) ∙ e)))))
  | inr other ↦
      let behind = found_behind i j st m (some state) other there in
      let ih = scan-Removed now i m state ordered.1 behind claimed silent in
      if-keeps (Removed i) (not st.claimed_successfully) _ _
        (λ _. (absent_behind i j st _ other ih.0, ih.1))
        (λ _.
          if-keeps (Removed i) (timed_out now st) _ _ (λ _. (ih.0, inr ih.1))
            (λ _. (absent_behind i j st _ other ih.0, ih.1)))
]

-- A new value of another endpoint, and the scan, bring no endpoint back.
pub replace-absent :
    (i j : ℕ) (state : ServiceState) (m : Map ServiceState) (registered : Map (List ℕ))
    → contains j m ≡ true
    → find i m ≡ none
    → find i (insert j state m) ≡ none
replace-absent i j state m registered there absent =
    find-insert_other j state m i
      (λ same. true≢false (sym there ∙ ap is_some (sym (ap (λ (k : ℕ). find k m) same) ∙ absent)))
    ∙ absent

pub scan-absent :
    (i now : ℕ) (m : Map ServiceState) (registered : Map (List ℕ))
    → find i m ≡ none
    → find i (scan now m).1.1 ≡ none
unfolding scan
scan-absent i now [] registered absent = absent
scan-absent i now ((j, state) ∷ m) registered absent = elim (Bool-cases (j == i)) [
  | inl here ↦ absurd (found_not i j state m here absent)
  | inr other ↦
      let ih = scan-absent i now m registered (found_behind i j state m none other absent) in
      if-keeps P (not state.claimed_successfully) _ _ (λ _. absent_behind i j state _ other ih)
        (λ _.
          if-keeps P (timed_out now state) _ _ (λ _. ih) (λ _. absent_behind i j state _ other ih))
]
  where
    P : List ℕ × (List ℕ × Map ServiceState) → Type 0
    P r = find i r.1.1 ≡ none
