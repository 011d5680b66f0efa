-- ===== src/Portable/Packet.antt =====
-- libxbot-service/src/portable/linux/packet.cpp, and the datagrams that socket.cpp hands to the network.
use xbot_framework.Prelude.{
  ℕ, ◌+◌, ◌≤◌, ◌<◌, ◌≡◌, refl, List, [], ◌++◌, Bool, true, false, arith, leb, le→leb, lt→leb,
  if◌then◌else◌, length, length-append,
}

-- `config::max_packet_size`
abbrev pub max_packet_size : ℕ
max_packet_size = 1472

-- The used part of a packet's buffer; `used_data` is its length.
abbrev pub Packet : Type 0
Packet = List ℕ

abbrev pub allocate_packet : Packet
allocate_packet = []

-- Data that does not fit is left out. The data is an object in memory, so the sum does not wrap.
unfoldable pub packet_append_data : Packet → List ℕ → Packet × Bool
packet_append_data packet buffer =
    if leb (length buffer + length packet) max_packet_size
    then (packet ++ buffer, true)
    else (packet, false)

-- What `sendto` is given: address and port in host order, and the bytes of the packet.
pub record Datagram : Type 0 where
  pub ip : ℕ
  pub port : ℕ
  pub bytes : List ℕ

-- A packet grows only by appends, so none is longer than its buffer.
pub packet_append_data_fits :
    (packet : Packet) (buffer : List ℕ)
    → length packet ≤ max_packet_size
    → length (packet_append_data packet buffer).0 ≤ max_packet_size
unfolding packet_append_data
packet_append_data_fits packet buffer h = ground (arith, length-append packet buffer)

pub append_room :
    (packet : Packet) (buffer : List ℕ)
    → length buffer + length packet ≤ max_packet_size
    → packet_append_data packet buffer ≡ (packet ++ buffer, true)
unfolding packet_append_data
append_room packet buffer h = rw (le→leb (length buffer + length packet) max_packet_size h) refl

pub append_full :
    (packet : Packet) (buffer : List ℕ)
    → max_packet_size < length buffer + length packet
    → packet_append_data packet buffer ≡ (packet, false)
unfolding packet_append_data
append_full packet buffer h = rw (lt→leb (length buffer + length packet) max_packet_size h) refl
