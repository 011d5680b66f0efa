-- ===== src/Interface/Io/Ordered.antt =====
-- ServiceIO.cpp: endpoint_map_ is a std::map, whose keys ascend.
use xbot_framework.Prelude.{
  ℕ, ◌<◌, ◌≡◌, refl, subst, List, [], ◌∷◌, foldl, none, not, ◌==◌, ltb, if-keeps, ==_iff, All,
  arith,
}
use xbot_framework.Interface.Maps.{
  All-insert, All-erase, insert, Map, erase, All-map, contains, find, erase,
}
use xbot_framework.Interface.Discovery.{is_listed, without, get_endpoint}
use xbot_framework.Interface.Io.State.{Io, ServiceState}
use xbot_framework.Interface.Io.Claims.{timed_out, scan}
use xbot_framework.Interface.Io.State.{
  on_service_discovered, register_callbacks, unregister_callbacks, unregister_from,
  ensure_service_state, has_interest, is_reachable, callbacks_of, new_state, is_nonempty,
}
use xbot_framework.Interface.Io.Interest.Rounds.{
  Action, discover, register, unregister, run_round, act,
}
use xbot_framework.Interface.Io.Keeps.{foldl-keeps, round-Keeps}

-- The keys of a std::map ascend.
abbrev pub Below : {V : Type 0} → ℕ → Map V → Type 0
Below k m = All (λ (e : ℕ × _). k < e.0) m

abbrev pub IsOrdered : {V : Type 0} → Map V → Type 0
IsOrdered [] = Unit
IsOrdered ((k, v) ∷ m) = Below k m × IsOrdered m

pub Below-absent : {V : Type 0} (i : ℕ) (m : Map V) → Below i m → find i m ≡ none
unfolding find
Below-absent i [] h = refl
Below-absent i ((j, v) ∷ m) h = let ih = Below-absent i m h.1 in ground arith

pub scan-Below : (now k : ℕ) (m : Map ServiceState) → Below k m → Below k (scan now m).1.1
unfolding scan
scan-Below now k [] h = tt
scan-Below now k ((j, state) ∷ m) h =
    let ih = scan-Below now k m h.1 in
    if-keeps P (not state.claimed_successfully) _ _ (λ _. (h.0, ih))
      (λ _. if-keeps P (timed_out now state) _ _ (λ _. ih) (λ _. (h.0, ih)))
  where
    P : List ℕ × (List ℕ × Map ServiceState) → Type 0
    P r = Below k r.1.1

pub scan-IsOrdered :
    (now : ℕ) (m : Map ServiceState) (registered : Map (List ℕ))
    → IsOrdered m
    → IsOrdered (scan now m).1.1
unfolding scan
scan-IsOrdered now [] registered h = tt
scan-IsOrdered now ((j, state) ∷ m) registered h =
    let ih = scan-IsOrdered now m registered h.1 in
    let below = scan-Below now j m h.0 in
    if-keeps P (not state.claimed_successfully) _ _ (λ _. (below, ih))
      (λ _. if-keeps P (timed_out now state) _ _ (λ _. ih) (λ _. (below, ih)))
  where
    P : List ℕ × (List ℕ × Map ServiceState) → Type 0
    P r = IsOrdered r.1.1

module _ {V : Type 0} where
  Below-trans : (i j : ℕ) (m : Map V) → i < j → Below j m → Below i m
  Below-trans i j m less h = All-map (λ (e : ℕ × V) (b : j < e.0). omega arith) m h

  insert-IsOrdered : (i : ℕ) (v : V) (m : Map V) → IsOrdered m → IsOrdered (insert i v m)
  unfolding insert
  insert-IsOrdered i v [] h = (tt, tt)
  insert-IsOrdered i v ((j, w) ∷ m) h =
      if-keeps IsOrdered (ltb i j) _ _
        (λ less. let under : i < j = ground arith in ((under, Below-trans i j m under h.0), h))
        (λ more.
          if-keeps IsOrdered (j == i) _ _
            (λ same. (subst (λ (k : ℕ). Below k m) ((==_iff j i).0 same) h.0, h.1))
            (λ other.
              let over : j < i = ground arith in
              (All-insert (λ (e : ℕ × V). j < e.0) i v m over h.0, insert-IsOrdered i v m h.1)))

  erase-IsOrdered : (i : ℕ) (m : Map V) → IsOrdered m → IsOrdered (erase i m)
  unfolding erase
  erase-IsOrdered i [] h = tt
  erase-IsOrdered i ((j, w) ∷ m) h =
      let ih = erase-IsOrdered i m h.1 in
      if-keeps IsOrdered (j == i) _ _ (λ _. ih)
        (λ _. (All-map (λ (e : ℕ × V) b. b.0) (erase i m) (All-erase _ i m h.0), ih))

unregister_from-IsOrdered :
    (c : ℕ) (registered : Map (List ℕ)) (m : Map ServiceState)
    → IsOrdered m
    → IsOrdered (unregister_from c registered m).1
unfolding unregister_from
unregister_from-IsOrdered c [] m h = h
unregister_from-IsOrdered c ((i, cs) ∷ rest) m h =
    if-keeps (λ (r : Map (List ℕ) × Map ServiceState). IsOrdered r.1) (is_nonempty (without c cs)) _
      _ (λ _. unregister_from-IsOrdered c rest m h)
      (λ _. unregister_from-IsOrdered c rest (erase i m) (erase-IsOrdered i m h))

module _ {D : Type 0} where
  abbrev InOrder : Io D → Type 0
  InOrder s = IsOrdered s.endpoint_map

  ensure-InOrder : (i : ℕ) (s : Io D) → InOrder s → InOrder (ensure_service_state i s)
  unfolding ensure_service_state
  ensure-InOrder i s v =
      if-keeps InOrder (not (has_interest i s)) s _ (λ _. v)
        (λ _.
          if-keeps InOrder (not (is_reachable (get_endpoint i s.discovery))) s _ (λ _. v)
            (λ _.
              if-keeps InOrder (contains i s.endpoint_map) s _ (λ _. v)
                (λ _. insert-IsOrdered i new_state s.endpoint_map v)))

  discovered-InOrder : (i : ℕ) (s : Io D) → InOrder s → InOrder (on_service_discovered i s)
  unfolding on_service_discovered
  discovered-InOrder i s v =
      if-keeps InOrder (not (has_interest i s)) s _ (λ _. v)
        (λ _. ensure-InOrder i _ (erase-IsOrdered i s.endpoint_map v))

  register-InOrder : (i c : ℕ) (s : Io D) → InOrder s → InOrder (register_callbacks i c s)
  unfolding register_callbacks
  register-InOrder i c s v =
      if-keeps InOrder (is_listed c (callbacks_of i s)) s _ (λ _. v) (λ _. ensure-InOrder i _ v)

  unregister-InOrder : (c : ℕ) (s : Io D) → InOrder s → InOrder (unregister_callbacks c s)
  unfolding unregister_callbacks
  unregister-InOrder c s v = unregister_from-IsOrdered c s.registered_callbacks s.endpoint_map v

  act-InOrder : (s : Io D) (a : Action) → InOrder s → InOrder (act s a)
  unfolding act
  act-InOrder s (discover i) v = discovered-InOrder i s v
  act-InOrder s (register i c) v = register-InOrder i c s v
  act-InOrder s (unregister c) v = unregister-InOrder c s v
  act-InOrder s (run_round now packet) v =
      round-Keeps (λ m r. IsOrdered m)
        (λ i state m registered there h. insert-IsOrdered i state m h) scan-IsOrdered now packet s v

  -- Whatever is discovered, registered, unregistered and received: the association list stays what a std::map
  -- is, if it is so at first.
  acts-InOrder :
      (actions : List Action) (s : Io D)
      → IsOrdered s.endpoint_map
      → IsOrdered (foldl act s actions).endpoint_map
  acts-InOrder actions s v = foldl-keeps InOrder act actions s act-InOrder v
