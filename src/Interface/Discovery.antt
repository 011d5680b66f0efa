-- ===== src/Interface/Discovery.antt =====
-- libxbot-service-interface/src/ServiceDiscoveryImpl.cpp: the services that have advertised themselves.
-- Callbacks are pointers, as numbers; an operation gives back the calls of OnServiceDiscovered that it makes
-- once its mutex is released. What the CBOR and JSON code makes of a payload is a parameter, with `none` for
-- an exception.
pub mod Laws
use xbot_framework.Prelude.{
  ℕ, ◌+◌, List, [], ◌∷◌, ◌++◌, map, Option, none, some, Bool, true, false, not, ◌&&◌, ◌||◌, ◌==◌,
  ltb, if◌then◌else◌, length, drop,
}
use xbot_framework.Wire.Header.{service_advertisement, decode_header, header_size, to_byte}
use xbot_framework.Interface.Maps.{Map, find, insert, erase, contains}

-- ServiceDescription; `D` is what it says of the inputs and outputs.
pub record Description (D : Type 0) : Type 0 where
  pub type_name : List ℕ
  pub version : ℕ
  pub io : D

pub record ServiceInfo (D : Type 0) : Type 0 where
  pub service_id : ℕ
  pub ip : ℕ
  pub port : ℕ
  pub description : Description D

pub record Discovery (D : Type 0) : Type 0 where
  pub discovered_services : Map (ServiceInfo D)
  pub registered_callbacks : List ℕ

-- A call of OnServiceDiscovered: of which callbacks, and for which service.
pub record Notice : Type 0 where
  pub callbacks : ℕ
  pub service_id : ℕ

-- `==` of two strings.
unfoldable pub same_string : List ℕ → List ℕ → Bool
same_string [] [] = true
same_string (x ∷ xs) (y ∷ ys) = (x == y) && same_string xs ys
same_string _ _ = false

-- `std::find` among pointers.
unfoldable pub is_listed : ℕ → List ℕ → Bool
is_listed p [] = false
is_listed p (q ∷ ps) = (q == p) || is_listed p ps

-- All occurrences of a pointer erased.
unfoldable pub without : ℕ → List ℕ → List ℕ
without p [] = []
without p (q ∷ ps) = let rest = without p ps in if q == p then rest else q ∷ rest

module _ {D : Type 0} where
  -- `GetEndpoint`
  unfoldable pub get_endpoint : ℕ → Discovery D → Option (ℕ × ℕ)
  get_endpoint service_id d = elim (find service_id d.discovered_services) [
    | none ↦ none
    | some info ↦ some (info.ip, info.port)
  ]

  unfoldable pub get_service_info : ℕ → Discovery D → Option (ServiceInfo D)
  get_service_info service_id d = find service_id d.discovered_services

  unfoldable pub drop_service : ℕ → Discovery D → Discovery D × Bool
  drop_service service_id d = (
    record d { discovered_services = erase service_id d.discovered_services },
    contains service_id d.discovered_services,
  )

  -- `RegisterCallbacks`
  unfoldable pub register_discovery_callbacks : ℕ → Discovery D → Discovery D × List Notice
  register_discovery_callbacks callbacks d =
      if callbacks == 0 || is_listed callbacks d.registered_callbacks then (d, []) else (
        record d { registered_callbacks = d.registered_callbacks ++ (callbacks ∷ []) },
        map
            (λ (e : ℕ × ServiceInfo D). record {
              callbacks = callbacks;
              service_id = e.1.service_id;
            })
            d.discovered_services,
      )

  -- `UnregisterCallbacks`
  unfoldable pub unregister_discovery_callbacks : ℕ → Discovery D → Discovery D
  unregister_discovery_callbacks callbacks d =
      if callbacks == 0
      then d
      else record d { registered_callbacks = without callbacks d.registered_callbacks }

  -- Every registered callback is told of a service.
  unfoldable pub notify_all : ℕ → Discovery D → List Notice
  notify_all service_id d =
      map (λ (c : ℕ). record { callbacks = c; service_id = service_id }) d.registered_callbacks

  abbrev pub description_changed : ServiceInfo D → ServiceInfo D → Bool
  description_changed old info =
      not (same_string (old.description).type_name (info.description).type_name)
      || not ((old.description).version == (info.description).version)

  abbrev pub endpoint_changed : ServiceInfo D → ServiceInfo D → Bool
  endpoint_changed old info = not (old.ip == info.ip) || not (old.port == info.port)

  -- An advertisement of a service that is known already.
  unfoldable pub update_service :
      ServiceInfo D → ServiceInfo D → Discovery D → Discovery D × List Notice
  update_service old info d =
      if description_changed old info
      then (
        record d { discovered_services = insert info.service_id info d.discovered_services },
        notify_all info.service_id d,
      )
      else if endpoint_changed old info
      then (
        record d {
          discovered_services =
              insert info.service_id (record old { ip = info.ip; port = info.port })
                d.discovered_services;
        },
        [],
      )
      else (d, [])

  -- The body of `Run` for a parsed advertisement.
  unfoldable pub advertised : ServiceInfo D → Discovery D → Discovery D × List Notice
  advertised info d =
      if info.ip == 0 || info.port == 0
      then (d, [])
      else elim (find info.service_id d.discovered_services) [
        | some old ↦ update_service old info d
        | none ↦ (
          record d { discovered_services = insert info.service_id info d.discovered_services },
          notify_all info.service_id d,
        )
      ]

  -- A packet on the discovery socket.
  unfoldable pub receive_advertisement :
      (List ℕ → Option (ServiceInfo D)) → List ℕ → Discovery D → Discovery D × List Notice
  receive_advertisement parse packet d =
      if ltb (length packet) header_size
      then (d, [])
      else (let h = decode_header packet in
          if not (to_byte h.message_type == 0x80)
            || not (length packet == h.payload_size + header_size)
          then (d, [])
          else elim (parse (drop header_size packet)) [
            | none ↦ (d, [])
            | some info ↦ advertised info d
          ])
