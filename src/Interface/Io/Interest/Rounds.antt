-- ===== src/Interface/Io/Interest/Rounds.antt =====
-- ServiceIO.cpp: the checks and the messages of `RunIo` leave every managed service wanted.
use xbot_framework.Prelude.{ℕ, ◌≡◌, List, [], ◌∷◌, foldl, Option, true, not, if-keeps}
use xbot_framework.Interface.Maps.{Map, find, All-insert, All-find}
use xbot_framework.Interface.Io.State.{
  Io, ServiceState, listed, is_nonempty, on_service_discovered, register_callbacks,
  unregister_callbacks,
}
use xbot_framework.Interface.Io.Claims.{scan, timed_out}
use xbot_framework.Interface.Io.Messages.{io_round}
use xbot_framework.Interface.Io.Interest.{
  AllWanted, IsWanted, discovered-IsWanted, register-IsWanted, unregister-IsWanted,
}
use xbot_framework.Interface.Io.Keeps.{round-Keeps}

scan-AllWanted :
    (now : ℕ) (m : Map ServiceState) (registered : Map (List ℕ))
    → AllWanted m registered
    → AllWanted (scan now m).1.1 registered
unfolding scan
scan-AllWanted now [] registered v = tt
scan-AllWanted now ((i, state) ∷ rest) registered v =
    let ih = scan-AllWanted now rest registered v.1 in
    if-keeps (λ (r : List ℕ × (List ℕ × Map ServiceState)). AllWanted r.1.1 registered)
      (not state.claimed_successfully) _ _ (λ _. (v.0, ih))
      (λ _.
        if-keeps (λ (r : List ℕ × (List ℕ × Map ServiceState)). AllWanted r.1.1 registered)
          (timed_out now state) _ _ (λ _. ih) (λ _. (v.0, ih)))

-- What the threads of the interface do with its IO, one call after another: each holds the mutex.
pub data Action : Type 0 where
  discover : ℕ → Action
  register : ℕ → ℕ → Action
  unregister : ℕ → Action
  run_round : ℕ → Option (List ℕ) → Action

module _ {D : Type 0} where
  unfoldable pub act : Io D → Action → Io D
  act s (discover i) = on_service_discovered i s
  act s (register i c) = register_callbacks i c s
  act s (unregister c) = unregister_callbacks c s
  act s (run_round now packet) = io_round now packet s

  -- Whatever services are discovered, callbacks registered and unregistered, and rounds run, with any packets
  -- at any times and in any order: every service that the interface manages, and so claims, has a
  -- registered callback, if this holds at first, as it does of an interface without endpoints.
  pub act-IsWanted :
      (actions : List Action) (s : Io D) → IsWanted s → IsWanted (foldl act s actions)
  unfolding act
  act-IsWanted [] s v = v
  act-IsWanted (discover i ∷ rest) s v =
      act-IsWanted rest (on_service_discovered i s) (discovered-IsWanted i s v)
  act-IsWanted (register i c ∷ rest) s v =
      act-IsWanted rest (register_callbacks i c s) (register-IsWanted i c s v)
  act-IsWanted (unregister c ∷ rest) s v =
      act-IsWanted rest (unregister_callbacks c s) (unregister-IsWanted c s v)
  act-IsWanted (run_round now packet ∷ rest) s v = act-IsWanted rest (io_round now packet s) (
      round-Keeps AllWanted
        (λ i state m registered there w.
          All-insert _ i state m
            (All-find (λ (k : ℕ). is_nonempty (listed (find k registered)) ≡ true) i m w there) w)
        scan-AllWanted now packet s v)
