-- ===== src/Tests/Sockets.antt =====
-- Sockets, network interfaces and log lines at concrete inputs.
use xbot_framework.Prelude.{
  ℕ, ◌≡◌, ◌↔◌, ◌%◌, refl, List, [], ◌∷◌, ◌++◌, Option, none, some, true, false, arith, length,
  replicate,
}
use xbot_framework.Wire.Header.{empty_header, encode_header}
use xbot_framework.Portable.Nics.{
  Nic, codes_of, get_ip, get_ip_within, has_prefix, is_skipped, init_system, node_id_size,
}
use xbot_framework.Portable.Nics.Search.{Primary, get_ip-Primary, init_system-exits}
use xbot_framework.Portable.Sockets.{Endpoint, sock_get_endpoint}
use xbot_framework.Service.State.{started}
use xbot_framework.Service.Logging.{
  Log, remote_logger, log_text, decimal, remote_log_multicast_address, log_port,
}
use xbot_framework.Interface.LogReceiver.{receive_log, info}
use xbot_framework.Interface.LogReceiver.RoundTrip.{remote_logger-receive_log}
use xbot_framework.Interface.Socket.{
  Socket, new_socket, start_socket, join_multicast, destroy_socket,
}
use xbot_framework.Interface.Socket.Descriptors.{
  Lives, fresh, then_step, start_new, join, HoldsOne, Lives-closed, start_socket-leaks,
}
use xbot_framework.Template.Cbor.{decode_cbor}
use xbot_framework.Template.Advertise.{
  template_advertise, advertisement, advertisement_header, count_advertisement,
  sd_multicast_address, multicast_port,
}
use xbot_framework.Template.Advertise.Described.{advertised_object}
use xbot_framework.Template.Advertise.Sent.{template_advertise-sent}
use xbot_framework.Tests.Template.{running, empty-InRange}

-- The loopback, a bridge, a real interface without an address, and one with an address.
abbrev nics : List (Option Nic)
nics =
    some (record { name = codes_of "lo"; address = some (codes_of "127.0.0.1"); mac = none })
    ∷ some (record { name = codes_of "br-0"; address = some (codes_of "10.0.0.1"); mac = none })
    ∷ some (record { name = codes_of "eth0"; address = none; mac = none })
    ∷ some (record { name = codes_of "wlan0"; address = some (codes_of "10.1.2.3"); mac = none })
    ∷ none
    ∷ []

-- The search passes over three interfaces.
nics_ip : get_ip nics ≡ some (codes_of "10.1.2.3")
unfolding get_ip is_skipped has_prefix
nics_ip = refl

get_ip-Primary_example :
    (get_ip nics ≡ some (codes_of "10.1.2.3")) ↔ Primary (codes_of "10.1.2.3") nics
get_ip-Primary_example = get_ip-Primary nics (codes_of "10.1.2.3")

init_system-exits_example :
    (init_system 0x30000 nics (replicate node_id_size 0) ≡ none) ↔ (0x30000 % 65536 ≡ 0)
init_system-exits_example = init_system-exits 0x30000 nics (λ e. absurd (omega arith))

template_advertise-sent_example :
    let e : Endpoint = record { address = codes_of "10.1.2.3"; port = 4000 } in
    let s' = template_advertise (λ now. sock_get_endpoint 16 (some (none, 4000)) nics) running in
    let payload = advertisement 5 e in
    (s'.sent
      ≡ record {
        ip = sd_multicast_address;
        port = multicast_port;
        bytes = encode_header (advertisement_header (length payload) running) ++ payload;
      }
        ∷ [])
    × (decode_cbor 1000 payload ≡ some (advertised_object 5 e, []))
    × (s'.user ≡ count_advertisement running.user)
unfolding started sock_get_endpoint get_ip_within is_skipped has_prefix
template_advertise-sent_example =
    template_advertise-sent (some (none, 4000)) nics
      (λ now. sock_get_endpoint 16 (some (none, 4000)) nics)
      (record { address = codes_of "10.1.2.3"; port = 4000 }) running refl refl (omega arith)
      (omega arith)

abbrev idle : Socket
idle = record {
  fd = none;
  opened = [];
  bind_ip = [];
  bind_port = 4242;
  multicast_interface_address = [];
  sent = [];
}

not_started : (new_socket [] 4242).fd ≡ none
unfolding new_socket
not_started = refl

-- A start, and a JoinMulticast that the system refuses.
abbrev life :
    Lives
      (new_socket [] 4242)
      (join_multicast true false (start_socket (some 7) true true (new_socket [] 4242)).0).0
life = then_step (then_step fresh (start_new 7 true true not_started)) (join true false)

Lives-closed_example :
    let s =
      (join_multicast true false (start_socket (some 7) true true (new_socket [] 4242)).0).0 in
    HoldsOne s × ((destroy_socket s).opened ≡ [])
Lives-closed_example = Lives-closed [] 4242 life

start_socket-leaks_example :
    let (s', started) =
      start_socket (some 8) true true (record idle { fd = some 7; opened = 7 ∷ [] }) in
    (started ≡ true) × (s'.fd ≡ some 8) × ((destroy_socket s').opened ≡ 7 ∷ [])
start_socket-leaks_example =
    start_socket-leaks 7 8 (record idle { fd = some 7; opened = 7 ∷ [] }) refl refl
      (λ e. absurd (omega arith))

abbrev log_state : Log
log_state = record { header = empty_header; sequence_no = 41; level = 101; sent = [] }

remote_logger-receive_log_example :
    let s' = remote_logger 100 102 (some 5) (codes_of "hello") log_state in
    (s'.sequence_no ≡ 42)
    × ((packet : List ℕ) × (s'.sent
          ≡ record { ip = remote_log_multicast_address; port = log_port; bytes = packet } ∷ [])
        × (receive_log packet ≡ some (info, codes_of "[ID=5] hello")))
unfolding log_text decimal
remote_logger-receive_log_example =
    remote_logger-receive_log 100 2 (some 5) (codes_of "hello") log_state (omega arith)
      (omega arith) (omega arith) (omega arith) (omega arith) empty-InRange
