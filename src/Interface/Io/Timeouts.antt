-- ===== src/Interface/Io/Timeouts.antt =====
-- ServiceIO.cpp: a claimed service that falls silent, at the checks of `RunIo`.
use xbot_framework.Prelude.{
  ℕ, ◌≡◌, refl, ap, sym, subst, ◌∙◌, List, [], ◌∷◌, foldl, none, some, true, true≢false, ◌==◌, ltb,
  if-keeps, Bool-cases, Option-cases, inl, inr, ==_iff, All,
}
use xbot_framework.Interface.Maps.{Map, All-map, find, erase, find-erase_self, find-erase_other}
use xbot_framework.Interface.Discovery.{Discovery, get_service_info, drop_service}
use xbot_framework.Interface.Io.State.{
  Io, ServiceState, Event, service_disconnected, micros_since, emit,
}
use xbot_framework.Interface.Io.Claims.{timed_out, scan, claim_service, disconnect, run_checks}
use xbot_framework.Interface.Io.Keeps.{foldl-keeps, claim-Keeps, disconnect-Keeps}
use xbot_framework.Interface.Io.Ordered.{IsOrdered}
use xbot_framework.Interface.Io.Scans.{Holds, scan-Removed, replace-absent, scan-absent}

-- Every callback of a list was told of the service's loss.
abbrev pub Told : ℕ → List ℕ → List Event → Type 0
Told i cs events = All (λ (c : ℕ). Holds (service_disconnected c i) events) cs

foldl-reaches :
    {S : Type 0} {A : Type 0} (P : S → Type 0) (f : S → A → S) (a : A) (xs : List A) (s : S)
    → ((t : S) (x : A) → P t → P (f t x))
    → ((t : S) → P (f t a))
    → Holds a xs
    → P (foldl f s xs)
foldl-reaches P f a [] s keep reach there = absurd there
foldl-reaches P f a (x ∷ xs) s keep reach (inl here) =
    foldl-keeps P f xs (f s x) keep (subst (λ (y : _). P (f s y)) (sym here) (reach s))
foldl-reaches P f a (x ∷ xs) s keep reach (inr later) =
    foldl-reaches P f a xs (f s x) keep reach later

module _ {D : Type 0} where
  abbrev tell : ℕ → List ℕ → Io D → Io D
  tell i cs s = foldl (λ (t : Io D) (c : ℕ). emit (service_disconnected c i) t) s cs

  tell-Told : (i : ℕ) (cs : List ℕ) (s : Io D) → Told i cs (tell i cs s).events
  tell-Told i [] s = tt
  tell-Told i (c ∷ cs) s = (
    foldl-keeps (λ (t : Io D). Holds (service_disconnected c i) t.events) _ cs
        (emit (service_disconnected c i) s) (λ t d h. inr h) (inl refl),
    tell-Told i cs (emit (service_disconnected c i) s),
  )

  tell-keeps_Told :
      (i : ℕ) (cs : List ℕ) (j : ℕ) (ds : List ℕ) (s : Io D)
      → Told i cs s.events
      → Told i cs (tell j ds s).events
  tell-keeps_Told i cs j ds s h =
      foldl-keeps (λ (t : Io D). Told i cs t.events) _ ds s
        (λ t d told. All-map (λ c there. inr there) cs told) h

  tell-discovery : (i : ℕ) (cs : List ℕ) (s : Io D) → (tell i cs s).discovery ≡ s.discovery
  tell-discovery i cs s =
      foldl-keeps (λ (t : Io D). t.discovery ≡ s.discovery) _ cs s (λ t c same. same) refl

  abbrev Lost : ℕ → List ℕ → Io D → Type 0
  Lost i cs s = (get_service_info i s.discovery ≡ none) × Told i cs s.events

  drop-absent :
      (i j : ℕ) (d : Discovery D)
      → get_service_info i d ≡ none
      → get_service_info i (drop_service j d).0 ≡ none
  unfolding get_service_info drop_service
  drop-absent i j d absent = elim (Bool-cases (j == i)) [
    | inl here ↦
        subst (λ (k : ℕ). find i (erase k d.discovered_services) ≡ none) (sym ((==_iff j i).0 here))
          (find-erase_self i d.discovered_services)
    | inr other ↦
        find-erase_other j d.discovered_services i
          (λ e. true≢false (sym ((==_iff j i).1 (sym e)) ∙ other))
        ∙ absent
  ]

  drop-gone : (i : ℕ) (d : Discovery D) → get_service_info i (drop_service i d).0 ≡ none
  unfolding get_service_info drop_service
  drop-gone i d = find-erase_self i d.discovered_services

  -- Another service's loss keeps what was lost.
  disconnect-keeps_Lost :
      (registered : Map (List ℕ)) (i : ℕ) (cs : List ℕ) (s : Io D) (j : ℕ)
      → Lost i cs s
      → Lost i cs (disconnect registered s j)
  unfolding disconnect
  disconnect-keeps_Lost registered i cs s j lost = elim (Option-cases (find j registered)) [
    | inl e ↦ rw (e, disconnect) lost
    | inr (ds, e) ↦
        rw (e, disconnect)
          (
            ap (get_service_info i) (tell-discovery j ds _) ∙ drop-absent i j s.discovery lost.0,
            tell-keeps_Told i cs j ds _ lost.1,
          )
  ]

  disconnect-Lost :
      (registered : Map (List ℕ)) (i : ℕ) (cs : List ℕ) (s : Io D)
      → find i registered ≡ some cs
      → Lost i cs (disconnect registered s i)
  unfolding disconnect
  disconnect-Lost registered i cs s e =
      rw (e, disconnect)
        (
          ap (get_service_info i) (tell-discovery i cs _) ∙ drop-gone i s.discovery,
          tell-Told i cs _,
        )

  abbrev Gone : ℕ → Io D → Type 0
  Gone i s = find i s.endpoint_map ≡ none

  -- When more than a second has passed since the last check of `RunIo`, and the endpoints are in
  -- the order of their keys, then a claimed service whose last heartbeat is older than the interval
  -- and its jitter has no endpoint and no discovery entry after the check, and every callback that
  -- is registered for it was told of the loss.
  pub run_checks-Lost :
      (now i : ℕ) (state : ServiceState) (cs : List ℕ) (s : Io D)
      → ltb 1000000 (micros_since now s.last_check) ≡ true
      → IsOrdered s.endpoint_map
      → find i s.endpoint_map ≡ some state
      → state.claimed_successfully ≡ true
      → timed_out now state ≡ true
      → find i s.registered_callbacks ≡ some cs
      → (find i (run_checks now s).endpoint_map ≡ none)
        × ((get_service_info i (run_checks now s).discovery ≡ none)
            × Told i cs (run_checks now s).events)
  unfolding run_checks
  run_checks-Lost now i state cs s due ordered there claimed silent registered =
      if-keeps (λ (t : Io D). Gone i t × Lost i cs t) (ltb 1000000 (micros_since now s.last_check))
        _ s
        (λ _.
          let removed = scan-Removed now i s.endpoint_map state ordered there claimed silent in
          let drop = disconnect s.registered_callbacks in
          (
            foldl-keeps (Gone i) drop (scan now s.endpoint_map).1.0 _
                (λ t j w.
                  disconnect-Keeps (λ m r. find i m ≡ none) (replace-absent i) (scan-absent i)
                    s.registered_callbacks t j w)
                (foldl-keeps (Gone i) (claim_service now) (scan now s.endpoint_map).0 _
                  (λ t j w.
                    claim-Keeps (λ m r. find i m ≡ none) (replace-absent i) (scan-absent i) now t j
                      w)
                  removed.0),
            foldl-reaches (Lost i cs) drop i (scan now s.endpoint_map).1.0 _
                (λ t j w. disconnect-keeps_Lost s.registered_callbacks i cs t j w)
                (λ t. disconnect-Lost s.registered_callbacks i cs t registered) removed.1,
          ))
        (λ off. absurd (true≢false (sym due ∙ off)))
