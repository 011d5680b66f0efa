-- ===== src/Interface/Discovery/Laws.antt =====
-- What the services known to the discovery are after an advertisement.
use xbot_framework.Prelude.{
  ℕ, ◌≡◌, refl, ap₂, sym, ==_iff, List, [], ◌∷◌, Option, none, some, Bool, true, false, not, ◌&&◌,
  ◌||◌, ◌==◌, arith, if-keeps, true≢false,
}
use mathlib.Core.Option.{some-ne-none}
use xbot_framework.Interface.Maps.{
  find, insert, erase, find-insert_self, find-insert_other, find-erase_self,
}
use xbot_framework.Interface.Discovery.{
  ServiceInfo, Discovery, Notice, same_string, drop_service, notify_all, description_changed,
  endpoint_changed, update_service, advertised,
}

and_true : (a b : Bool) → (a && b) ≡ true → (a ≡ true) × (b ≡ true)
and_true true b e = (refl, e)
and_true false b e = absurd (true≢false (sym e))

same_string→≡ : (xs ys : List ℕ) → same_string xs ys ≡ true → xs ≡ ys
unfolding same_string
same_string→≡ [] [] e = refl
same_string→≡ [] (y ∷ ys) e = absurd (true≢false (sym e))
same_string→≡ (x ∷ xs) [] e = absurd (true≢false (sym e))
same_string→≡ (x ∷ xs) (y ∷ ys) e =
    let (heads, tails) = and_true (x == y) (same_string xs ys) e in
    ap₂ (λ (h : ℕ) (t : List ℕ). h ∷ t) ((==_iff x y).0 heads) (same_string→≡ xs ys tails)

nor_true : (a b : Bool) → (not a || not b) ≡ false → (a ≡ true) × (b ≡ true)
nor_true true true e = (refl, refl)
nor_true true false e = absurd (true≢false e)
nor_true false b e = absurd (true≢false e)

module _ {D : Type 0} where
  -- The stored information has the endpoint, type and version of the advertisement.
  pub record Matches (info stored : ServiceInfo D) : Type 0 where
    pub ip_matches : stored.ip ≡ info.ip
    pub port_matches : stored.port ≡ info.port
    pub type_matches : (stored.description).type_name ≡ (info.description).type_name
    pub version_matches : (stored.description).version ≡ (info.description).version

  -- What is stored for the service after a step.
  abbrev pub Known : ServiceInfo D → Discovery D × List Notice → Type 0
  Known info r =
      (stored : ServiceInfo D) × (find info.service_id r.0.discovered_services ≡ some stored)
      × Matches info stored

  update-Known :
      (old info : ServiceInfo D) (d : Discovery D)
      → find info.service_id d.discovered_services ≡ some old
      → Known info (update_service old info d)
  unfolding update_service
  update-Known old info d known =
      if-keeps (Known info) (description_changed old info) _ _
        (λ _. (
          info,
          find-insert_self info.service_id info d.discovered_services,
          record {
            ip_matches = refl;
            port_matches = refl;
            type_matches = refl;
            version_matches = refl;
          },
        ))
        (λ same.
          let (types, versions) = nor_true _ _ same in
          let type_same = same_string→≡ _ _ types in
          let version_same = (==_iff _ _).0 versions in
          if-keeps (Known info) (endpoint_changed old info) _ (d, [])
            (λ _. (
              record old { ip = info.ip; port = info.port },
              find-insert_self info.service_id _ d.discovered_services,
              record {
                ip_matches = refl;
                port_matches = refl;
                type_matches = type_same;
                version_matches = version_same;
              },
            ))
            (λ still.
              let (ips, ports) = nor_true _ _ still in
              (
                old,
                known,
                record {
                  ip_matches = (==_iff _ _).0 ips;
                  port_matches = (==_iff _ _).0 ports;
                  type_matches = type_same;
                  version_matches = version_same;
                },
              )))

  -- After an advertisement with a reachable endpoint the service is known with the endpoint, type and version
  -- that it advertises, whether it was new, known with another description, or known at another endpoint.
  pub advertised-Matches :
      (info : ServiceInfo D) (d : Discovery D)
      → ¬ (info.ip ≡ 0)
      → ¬ (info.port ≡ 0)
      → Known info (advertised info d)
  unfolding advertised
  advertised-Matches info d has_ip has_port =
      if-keeps (Known info) (info.ip == 0 || info.port == 0) (d, []) _
        (λ unreachable. absurd (ground (arith, has_ip, has_port, unreachable)))
        (λ _. by_old (find info.service_id d.discovered_services) refl)
    where
      by_old :
          (o : Option (ServiceInfo D))
          → find info.service_id d.discovered_services ≡ o
          → Known info (elim o [
            | some old ↦ update_service old info d
            | none ↦ (
              record d { discovered_services = insert info.service_id info d.discovered_services },
              notify_all info.service_id d,
            )
          ])
      by_old (some old) e = update-Known old info d e
      by_old none e = (
        info,
        find-insert_self info.service_id info d.discovered_services,
        record {
          ip_matches = refl;
          port_matches = refl;
          type_matches = refl;
          version_matches = refl;
        },
      )

  Elsewhere : ℕ → Discovery D → Discovery D × List Notice → Type 0
  Elsewhere i d r =
      (find i r.0.discovered_services ≡ find i d.discovered_services)
      × (r.0.registered_callbacks ≡ d.registered_callbacks)

  update-Elsewhere :
      (old info : ServiceInfo D) (d : Discovery D) (i : ℕ)
      → ¬ (i ≡ info.service_id)
      → Elsewhere i d (update_service old info d)
  unfolding update_service Elsewhere
  update-Elsewhere old info d i other =
      if-keeps (Elsewhere i d) (description_changed old info) _ _
        (λ _. (find-insert_other info.service_id info d.discovered_services i other, refl))
        (λ _.
          if-keeps (Elsewhere i d) (endpoint_changed old info) _ (d, [])
            (λ _. (find-insert_other info.service_id _ d.discovered_services i other, refl))
            (λ _. (refl, refl)))

  -- An advertisement leaves what is known of every other service, and the registered callbacks, alone.
  pub advertised-other :
      (info : ServiceInfo D) (d : Discovery D) (i : ℕ)
      → ¬ (i ≡ info.service_id)
      → let d' = (advertised info d).0 in
        (find i d'.discovered_services ≡ find i d.discovered_services)
        × (d'.registered_callbacks ≡ d.registered_callbacks)
  unfolding advertised Elsewhere
  advertised-other info d i other =
      if-keeps (Elsewhere i d) (info.ip == 0 || info.port == 0) (d, []) _ (λ _. (refl, refl))
        (λ _. by_old (find info.service_id d.discovered_services))
    where
      by_old :
          (o : Option (ServiceInfo D))
          → Elsewhere i d (elim o [
            | some old ↦ update_service old info d
            | none ↦ (
              record d { discovered_services = insert info.service_id info d.discovered_services },
              notify_all info.service_id d,
            )
          ])
      by_old (some old) = update-Elsewhere old info d i other
      by_old none = (find-insert_other info.service_id info d.discovered_services i other, refl)

  -- A service that was dropped is discovered anew by its next reachable advertisement: it is stored as it
  -- advertises itself, and every registered callback is told, in the order of registration.
  pub drop_service-advertised :
      (info : ServiceInfo D) (d : Discovery D)
      → ¬ (info.ip ≡ 0)
      → ¬ (info.port ≡ 0)
      → let (d', notices) = advertised info (drop_service info.service_id d).0 in
        (find info.service_id d'.discovered_services ≡ some info)
        × (notices ≡ notify_all info.service_id d)
  unfolding advertised drop_service notify_all
  drop_service-advertised info d has_ip has_port =
      if-keeps P (info.ip == 0 || info.port == 0) (dropped, []) _
        (λ unreachable. absurd (ground (arith, has_ip, has_port, unreachable)))
        (λ _.
          by_old (find info.service_id dropped.discovered_services)
            (find-erase_self info.service_id d.discovered_services))
    where
      dropped : Discovery D
      dropped = record d { discovered_services = erase info.service_id d.discovered_services }

      P : Discovery D × List Notice → Type 0
      P r =
          (find info.service_id r.0.discovered_services ≡ some info)
          × (r.1 ≡ notify_all info.service_id d)

      by_old :
          (o : Option (ServiceInfo D))
          → o ≡ none
          → P (elim o [
            | some old ↦ update_service old info dropped
            | none ↦ (
              record dropped {
                discovered_services = insert info.service_id info dropped.discovered_services;
              },
              notify_all info.service_id dropped,
            )
          ])
      by_old (some old) e = absurd (some-ne-none old e)
      by_old none e = (find-insert_self info.service_id info dropped.discovered_services, refl)
