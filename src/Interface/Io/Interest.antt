-- ===== src/Interface/Io/Interest.antt =====
-- ServiceIO.cpp: the interface manages, and so claims, only services that somebody has registered for.
pub mod Rounds
use xbot_framework.Prelude.{
  ℕ, ◌≡◌, refl, ap, sym, subst, ◌∙◌, List, [], ◌∷◌, ◌++◌, foldl, Option, none, some, Bool, true,
  false, true≢false, not, ◌&&◌, ◌||◌, ◌==◌, ltb, arith, if◌then◌else◌, if-keeps, Bool-cases,
  Option-cases, inl, inr, ◌⊎◌, All, length, drop, ==_iff,
}
use xbot_framework.Wire.Header.{
  Header, MessageType, header_size, encode_header, decode_header, claim, data_message,
  configuration_request, heartbeat, transaction, rpc_response,
}
use xbot_framework.Wire.Payloads.{encode_claim}
use xbot_framework.Wire.Frames.{walk}
use xbot_framework.Interface.Maps.{
  Map, find, insert, erase, contains, is_some, All-map, All-insert, All-erase, All-find,
  find-insert_self, find-insert_other,
}
use xbot_framework.Interface.Discovery.{without, is_listed, get_endpoint, drop_service}
use xbot_framework.Interface.Io.Claims.{
  claim_header, claim_service, send_claim, scan, timed_out, disconnect, run_checks,
}
use xbot_framework.Interface.Io.State.{
  micros_since, service_disconnected, default_heartbeat_micros, Io, ServiceState, new_state, listed,
  is_nonempty, is_reachable, callbacks_of, has_interest, emit, ensure_service_state,
  on_service_discovered, register_callbacks, unregister_from, unregister_callbacks, io_send_data,
  transmit_packet,
}

nonempty-append : (cs : List ℕ) (c : ℕ) → is_nonempty (cs ++ (c ∷ [])) ≡ true
nonempty-append [] c = refl
nonempty-append (x ∷ cs) c = refl

-- Every managed service has a registered callback.
abbrev pub AllWanted : Map ServiceState → Map (List ℕ) → Type 0
AllWanted endpoints registered =
    All (λ (e : ℕ × ServiceState). is_nonempty (listed (find e.0 registered)) ≡ true) endpoints

module _ {D : Type 0} where
  abbrev pub IsWanted : Io D → Type 0
  IsWanted s = AllWanted s.endpoint_map s.registered_callbacks

  pub ensure-IsWanted : (i : ℕ) (s : Io D) → IsWanted s → IsWanted (ensure_service_state i s)
  unfolding ensure_service_state
  ensure-IsWanted i s v =
      if-keeps IsWanted (not (has_interest i s)) s _ (λ _. v)
        (λ interest.
          if-keeps IsWanted (not (is_reachable (get_endpoint i s.discovery))) s _ (λ _. v)
            (λ _.
              if-keeps IsWanted (contains i s.endpoint_map) s _ (λ _. v)
                (λ _. All-insert _ i new_state s.endpoint_map (not_false _ interest) v)))
    where
      not_false : (b : Bool) → not b ≡ false → b ≡ true
      not_false true e = refl
      not_false false e = absurd (true≢false e)

  pub discovered-IsWanted : (i : ℕ) (s : Io D) → IsWanted s → IsWanted (on_service_discovered i s)
  unfolding on_service_discovered
  discovered-IsWanted i s v =
      if-keeps IsWanted (not (has_interest i s)) s _ (λ _. v)
        (λ _.
          ensure-IsWanted i (record s { endpoint_map = erase i s.endpoint_map })
            (All-map (λ e h. h.0) (erase i s.endpoint_map) (All-erase _ i s.endpoint_map v)))

  pub register-IsWanted : (i c : ℕ) (s : Io D) → IsWanted s → IsWanted (register_callbacks i c s)
  unfolding register_callbacks
  register-IsWanted i c s v =
      if-keeps IsWanted (is_listed c (callbacks_of i s)) s _ (λ _. v)
        (λ _. ensure-IsWanted i _ (All-map grown s.endpoint_map v))
    where
      grown :
          (e : ℕ × ServiceState)
          → is_nonempty (listed (find e.0 s.registered_callbacks)) ≡ true
          → is_nonempty
              (listed (find e.0 (insert i (callbacks_of i s ++ (c ∷ [])) s.registered_callbacks)))
            ≡ true
      grown e h = elim (Bool-cases (e.0 == i)) [
        | inl here ↦
            subst
              (λ (k : ℕ).
                is_nonempty
                  (listed (find k (insert i (callbacks_of i s ++ (c ∷ [])) s.registered_callbacks)))
                ≡ true)
              (sym ((==_iff e.0 i).0 here))
              (ap (λ (o : Option (List ℕ)). is_nonempty (listed o))
                  (find-insert_self i (callbacks_of i s ++ (c ∷ [])) s.registered_callbacks)
                ∙ nonempty-append (callbacks_of i s) c)
        | inr other ↦
            ap (λ (o : Option (List ℕ)). is_nonempty (listed o))
              (find-insert_other i (callbacks_of i s ++ (c ∷ [])) s.registered_callbacks e.0
                (λ same. true≢false (sym ((==_iff e.0 i).1 same) ∙ other)))
            ∙ h
      ]

find-skip :
    {V : Type 0} (i k : ℕ) (v : V) (m : Map V) → (i == k) ≡ false → find k ((i, v) ∷ m) ≡ find k m
unfolding find
find-skip i k v m other = ap (λ (b : Bool). if b then some v else find k m) other

find-none : (k : ℕ) → find {V = List ℕ} k [] ≡ none
unfolding find
find-none k = refl

find-here :
    {V : Type 0} (i k : ℕ) (v : V) (m : Map V) → (i == k) ≡ true → find k ((i, v) ∷ m) ≡ some v
unfolding find
find-here i k v m here = ap (λ (b : Bool). if b then some v else find k m) here

-- A key of a map is that of its first entry, or is in the rest.
enter :
    (X : ℕ → Type 0) (i k : ℕ) (cs : List ℕ) (rest : Map (List ℕ))
    → (contains k ((i, cs) ∷ rest) ≡ true) ⊎ X k
    → (contains k rest ≡ true) ⊎ (X k ⊎ ((i == k) ≡ true))
enter X i k cs rest (inr x) = inr (inl x)
enter X i k cs rest (inl there) = elim (Bool-cases (i == k)) [
  | inl here ↦ inr (inr here)
  | inr other ↦ inl (ap is_some (sym (find-skip i k cs rest other)) ∙ there)
]

leave :
    (X : ℕ → Type 0) (i k : ℕ) (cs : List ℕ) (rest : Map (List ℕ))
    → is_nonempty cs ≡ true
    → (is_nonempty (listed (find k rest)) ≡ true) ⊎ (X k ⊎ ((i == k) ≡ true))
    → (is_nonempty (listed (find k ((i, cs) ∷ rest))) ≡ true) ⊎ X k
leave X i k cs rest full g = elim (Bool-cases (i == k)) [
  | inl here ↦
      inl (ap (λ (o : Option (List ℕ)). is_nonempty (listed o)) (find-here i k cs rest here) ∙ full)
  | inr other ↦ elim g [
    | inl y ↦
        inl (ap (λ (o : Option (List ℕ)). is_nonempty (listed o)) (find-skip i k cs rest other) ∙ y)
    | inr (inl x) ↦ inr x
    | inr (inr same) ↦ absurd (true≢false (sym same ∙ other))
  ]
]

-- An erased key is not that of the first entry.
miss :
    (X : ℕ → Type 0) (i k : ℕ) (cs : List ℕ) (rest : Map (List ℕ))
    → ((contains k ((i, cs) ∷ rest) ≡ true) ⊎ X k) × ((k == i) ≡ false)
    → (contains k rest ≡ true) ⊎ X k
miss X i k cs rest g = elim (enter X i k cs rest g.0) [
  | inl there ↦ inl there
  | inr (inl x) ↦ inr x
  | inr (inr same) ↦ absurd (true≢false (sym ((==_iff k i).1 (sym ((==_iff i k).0 same))) ∙ g.1))
]

unregister-keeps :
    (X : ℕ → Type 0) (c : ℕ) (registered : Map (List ℕ)) (endpoints : Map ServiceState)
    → All (λ (e : ℕ × ServiceState). (contains e.0 registered ≡ true) ⊎ X e.0) endpoints
    → let (registered', endpoints') = unregister_from c registered endpoints in
      All
        (λ (e : ℕ × ServiceState). (is_nonempty (listed (find e.0 registered')) ≡ true) ⊎ X e.0)
        endpoints'
unfolding unregister_from
unregister-keeps X c [] endpoints h =
    All-map
      (λ e g. elim g [
        | inl there ↦ absurd (true≢false (sym (ap is_some (sym (find-none e.0)) ∙ there)))
        | inr x ↦ inr x
      ])
      endpoints h
unregister-keeps X c ((i, cs) ∷ rest) endpoints h =
    if-keeps P (is_nonempty (without c cs)) _ _
      (λ full.
        All-map (λ e g. leave X i e.0 (without c cs) (unregister_from c rest endpoints).0 full g) _
          (unregister-keeps (λ k. X k ⊎ ((i == k) ≡ true)) c rest endpoints
            (All-map (λ e g. enter X i e.0 cs rest g) endpoints h)))
      (λ _.
        unregister-keeps X c rest (erase i endpoints)
          (All-map (λ e g. miss X i e.0 cs rest g) (erase i endpoints) (All-erase _ i endpoints h)))
  where
    P : Map (List ℕ) × Map ServiceState → Type 0
    P r = All (λ (e : ℕ × ServiceState). (is_nonempty (listed (find e.0 r.0)) ≡ true) ⊎ X e.0) r.1

module _ {D : Type 0} where
  pub unregister-IsWanted : (c : ℕ) (s : Io D) → IsWanted s → IsWanted (unregister_callbacks c s)
  unfolding unregister_callbacks
  unregister-IsWanted c s v =
      All-map (λ e g. elim g [ inl y ↦ y | inr x ↦ absurd x ]) _
        (unregister-keeps (λ k. ⊥) c s.registered_callbacks s.endpoint_map
          (All-map (λ e y. inl (known e.0 (find e.0 s.registered_callbacks) y)) s.endpoint_map v))
    where
      known : (k : ℕ) (o : Option (List ℕ)) → is_nonempty (listed o) ≡ true → is_some o ≡ true
      known k none y = absurd (true≢false (sym y))
      known k (some cs) y = refl
