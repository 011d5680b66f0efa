-- ===== src/Interface/Socket.antt =====
-- libxbot-service-interface/src/Socket.cpp: a socket, with what the system calls answer as arguments. `opened` holds
-- the file descriptors that the socket got from the system and has not closed; `fd` is none for -1.
pub mod Descriptors
use xbot_framework.Prelude.{
  ℕ, ◌+◌, ◌/◌, ◌%◌, List, [], ◌∷◌, ◌++◌, Option, none, some, Bool, true, false, not, ◌&&◌, ◌==◌,
  if◌then◌else◌, length, replicate,
}
use xbot_framework.Portable.Packet.{Datagram, max_packet_size}
use xbot_framework.Portable.Nics.{Nic, get_ip}

pub record Socket : Type 0 where
  pub fd : Option ℕ
  pub opened : List ℕ
  pub bind_ip : List ℕ
  pub bind_port : ℕ
  pub multicast_interface_address : List ℕ
  pub sent : List Datagram

-- "0.0.0.0"
abbrev pub any_address : List ℕ
any_address = 48 ∷ 46 ∷ 48 ∷ 46 ∷ 48 ∷ 46 ∷ 48 ∷ []

unfoldable pub new_socket : List ℕ → ℕ → Socket
new_socket bind_address bind_port = record {
  fd = none;
  opened = [];
  bind_ip = bind_address;
  bind_port = bind_port;
  multicast_interface_address = any_address;
  sent = [];
}

unfoldable pub remove : ℕ → List ℕ → List ℕ
remove n [] = []
remove n (k ∷ ks) = if k == n then remove n ks else k ∷ remove n ks

-- `close(fd_); fd_ = -1;`
unfoldable pub close_fd : Socket → Socket
close_fd s = record s {
  fd = none;
  opened = elim s.fd [ none ↦ s.opened | some n ↦ remove n s.opened ];
}

abbrev pub is_started : Socket → Bool
is_started s = elim s.fd [ none ↦ false | some n ↦ true ]

-- A call that closes the socket when the system refuses it.
abbrev pub or_close : Bool → Socket → Socket × Bool
or_close true s = (s, true)
or_close false s = (close_fd s, false)

abbrev pub and_then : Socket × Bool → (Socket → Socket × Bool) → Socket × Bool
and_then (s, true) next = next s
and_then (s, false) next = (s, false)

abbrev pub opened_with : Option ℕ → List ℕ → List ℕ
opened_with none opened = opened
opened_with (some n) opened = n ∷ opened

-- `Start`, with the answers of socket, bind and setsockopt.
unfoldable pub start_socket : Option ℕ → Bool → Bool → Socket → Socket × Bool
start_socket socket_result binds timeout_set s =
    and_then
      (or_close binds
        (record s { fd = socket_result; opened = opened_with socket_result s.opened }))
      (or_close timeout_set)

-- `SetMulticastIfAddress` and `SetBindAddress`
unfoldable pub set_multicast_if_address : List ℕ → Socket → Socket × Bool
set_multicast_if_address address s =
    if is_started s then (s, false) else (record s { multicast_interface_address = address }, true)

unfoldable pub set_bind_address : List ℕ → Socket → Socket × Bool
set_bind_address address s =
    if is_started s then (s, false) else (record s { bind_ip = address }, true)

-- `JoinMulticast`, with the answers of two setsockopt calls.
unfoldable pub join_multicast : Bool → Bool → Socket → Socket × Bool
join_multicast interface_set member_added s =
    if not (is_started s)
    then (s, false)
    else and_then (or_close interface_set s) (or_close member_added)

-- `SetReceiveTimeoutMicros`, which does not test for a start; the call fails for the descriptor -1.
unfoldable pub set_receive_timeout_micros : Bool → Socket → Socket × Bool
set_receive_timeout_micros timeout_set s = or_close (is_started s && timeout_set) s

abbrev pub timeval : ℕ → ℕ × ℕ
timeval micros = (micros / 1000000, micros % 1000000)

-- `ReceivePacket`: `recvfrom` fails or fills a part of the buffer. The vector of the caller is changed in any
-- case but that of a socket that is not started.
unfoldable pub receive_packet : Option (ℕ × ℕ × List ℕ) → List ℕ → Socket → List ℕ × Option (ℕ × ℕ)
receive_packet received packet s = if not (is_started s) then (packet, none) else elim received [
  | none ↦ (replicate max_packet_size 0, none)
  | some (ip, port, bytes) ↦ (bytes, some (ip, port))
]

-- `TransmitPacket`; what `sendto` answers is not looked at.
unfoldable pub socket_transmit : ℕ → ℕ → List ℕ → Socket → Socket × Bool
socket_transmit ip port bytes s =
    if not (is_started s)
    then (s, false)
    else (record s { sent = record { ip = ip; port = port; bytes = bytes } ∷ s.sent }, true)

-- `GetEndpoint`, with what getsockname answers: an address, none for 0.0.0.0, and a port.
unfoldable pub socket_endpoint :
    Option (Option (List ℕ) × ℕ) → List (Option Nic) → Socket → Option (List ℕ × ℕ)
socket_endpoint sockname nics s = if not (is_started s) then none else elim sockname [
  | none ↦ none
  | some (none, port) ↦ elim (get_ip nics) [ none ↦ none | some ip ↦ some (ip, port) ]
  | some (some ip, port) ↦ some (ip, port)
]

-- The destructor.
unfoldable pub destroy_socket : Socket → Socket
destroy_socket s = if is_started s then close_fd s else s
