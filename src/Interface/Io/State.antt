-- ===== src/Interface/Io/State.antt =====
-- ServiceIO.cpp: the state, the registration of callbacks, and sending.
use xbot_framework.Prelude.{
  ℕ, ◌-◌, ◌/◌, List, [], ◌∷◌, ◌++◌, Option, none, some, Bool, true, false, not, ◌||◌, ◌==◌,
  if◌then◌else◌,
}
use xbot_framework.Portable.Packet.{Datagram}
use xbot_framework.Interface.Maps.{Map, find, insert, erase, contains}
use xbot_framework.Interface.Discovery.{Discovery, get_endpoint, is_listed, without}

-- `config::default_heartbeat_micros`
abbrev pub default_heartbeat_micros : ℕ
default_heartbeat_micros = 1000000

pub record ServiceState : Type 0 where
  pub claimed_successfully : Bool
  pub last_claim_sent : ℕ
  pub last_heartbeat_received : ℕ

abbrev pub new_state : ServiceState
new_state = record {
  claimed_successfully = false;
  last_claim_sent = 0;
  last_heartbeat_received = 0;
}

-- A call of a method of ServiceIOCallbacks, with the callback first.
pub data Event : Type 0 where
  service_connected service_disconnected config_requested : ℕ → ℕ → Event
  transaction_start : ℕ → ℕ → Event
  transaction_end : ℕ → Event
  data_received : ℕ → ℕ → ℕ → ℕ → List ℕ → Event
  rpc_response_received : ℕ → ℕ → ℕ → ℕ → List ℕ → Event

pub record Io (D : Type 0) : Type 0 where
  pub discovery : Discovery D
  pub endpoint_map : Map ServiceState
  pub registered_callbacks : Map (List ℕ)
  pub last_check : ℕ
  pub events : List Event
  pub sent : List Datagram
  pub socket_sends : Bool
  pub own_endpoint : Option (ℕ × ℕ)
  pub configures : ℕ → ℕ → Bool

-- `duration_cast<microseconds>` of the time since then.
abbrev pub micros_since : ℕ → ℕ → ℕ
micros_since now since = (now - since) / 1000

abbrev pub listed : Option (List ℕ) → List ℕ
listed none = []
listed (some callbacks) = callbacks

abbrev pub is_nonempty : List ℕ → Bool
is_nonempty [] = false
is_nonempty (c ∷ cs) = true

abbrev pub is_reachable : Option (ℕ × ℕ) → Bool
is_reachable none = false
is_reachable (some (ip, port)) = not (ip == 0 || port == 0)

-- The loop of `UnregisterCallbacks`, over what is left of the registrations.
unfoldable pub unregister_from :
    ℕ → Map (List ℕ) → Map ServiceState → Map (List ℕ) × Map ServiceState
unregister_from callbacks [] endpoints = ([], endpoints)
unregister_from callbacks ((service_id, cs) ∷ rest) endpoints =
    let left = without callbacks cs in
    if is_nonempty left
    then (let (rest', endpoints') = unregister_from callbacks rest endpoints in
        ((service_id, left) ∷ rest', endpoints'))
    else unregister_from callbacks rest (erase service_id endpoints)

module _ {D : Type 0} where
  -- The callbacks of a service, in the order of registration.
  abbrev pub callbacks_of : ℕ → Io D → List ℕ
  callbacks_of service_id s = listed (find service_id s.registered_callbacks)

  abbrev pub emit : Event → Io D → Io D
  emit e s = record s { events = e ∷ s.events }

  -- `HasInterest`
  abbrev pub has_interest : ℕ → Io D → Bool
  has_interest service_id s = is_nonempty (callbacks_of service_id s)

  -- `EnsureServiceState`
  unfoldable pub ensure_service_state : ℕ → Io D → Io D
  ensure_service_state service_id s =
      if not (has_interest service_id s)
      then s
      else if not (is_reachable (get_endpoint service_id s.discovery))
      then s
      else if contains service_id s.endpoint_map
      then s
      else record s { endpoint_map = insert service_id new_state s.endpoint_map }

  -- `OnServiceDiscovered`, which always answers true; an erase of a missing key changes nothing.
  unfoldable pub on_service_discovered : ℕ → Io D → Io D
  on_service_discovered service_id s =
      if not (has_interest service_id s)
      then s
      else ensure_service_state service_id
          (record s { endpoint_map = erase service_id s.endpoint_map })

  -- `RegisterCallbacks`
  unfoldable pub register_callbacks : ℕ → ℕ → Io D → Io D
  register_callbacks service_id callbacks s =
      if is_listed callbacks (callbacks_of service_id s)
      then s
      else ensure_service_state service_id (record s {
        registered_callbacks =
            insert service_id (callbacks_of service_id s ++ (callbacks ∷ []))
              s.registered_callbacks;
      })

  -- `UnregisterCallbacks`
  unfoldable pub unregister_callbacks : ℕ → Io D → Io D
  unregister_callbacks callbacks s =
      let (registered, endpoints) =
        unregister_from callbacks s.registered_callbacks s.endpoint_map in
      record s { registered_callbacks = registered; endpoint_map = endpoints }

  -- `TransmitPacket`
  unfoldable pub transmit_packet : ℕ → ℕ → List ℕ → Io D → Io D × Bool
  transmit_packet ip port bytes s =
      if ip == 0 || port == 0
      then (s, false)
      else if s.socket_sends
      then (record s { sent = record { ip = ip; port = port; bytes = bytes } ∷ s.sent }, true)
      else (s, false)

  -- `SendData`
  unfoldable pub io_send_data : ℕ → List ℕ → Io D → Io D × Bool
  io_send_data service_id bytes s = elim (get_endpoint service_id s.discovery) [
    | none ↦ (s, false)
    | some (ip, port) ↦ transmit_packet ip port bytes s
  ]
