-- ===== src/Template/Advertise.antt =====
-- codegen/templates/ServiceTemplate.cpp: `AdvertiseServiceImpl`. What Io::getEndpoint answers is a parameter.
pub mod Running
pub mod Sent
pub mod Described
use xbot_framework.Prelude.{
  ℕ, ◌+◌, ◌/◌, ◌%◌, List, [], ◌∷◌, ◌++◌, Option, none, some, Bool, true, false, not, ◌==◌, leb,
  if◌then◌else◌, length, take, u16_mod, add32,
}
use xbot_framework.Wire.Header.{Header, empty_header, encode_header, service_advertisement}
use xbot_framework.Portable.Packet.{allocate_packet, packet_append_data}
pub use xbot_framework.Portable.Sockets.{Endpoint}
use xbot_framework.Service.State.{Service}
use xbot_framework.Service.Send.{write_at, transmit}
use xbot_framework.Template.Members.{Template}
use xbot_framework.Template.Description.{service_description_cbor}

-- `config::sd_multicast_address`, "233.255.255.0", and `config::multicast_port`
abbrev pub sd_multicast_address : ℕ
sd_multicast_address = 3925868288

abbrev pub multicast_port : ℕ
multicast_port = 4242

-- `(n >> 8) & 0xFF` and `n & 0xFF`
abbrev pub be_bytes2 : ℕ → List ℕ
be_bytes2 n = (n / 256) % 256 ∷ n % 256 ∷ []

-- What is written before the endpoint is asked for: the service ID and the key "endpoint".
unfoldable pub advertisement_start : ℕ → List ℕ
advertisement_start service_id =
    (0xA3 ∷ 0x63 ∷ 0x73 ∷ 0x69 ∷ 0x64 ∷ 0x19 ∷ [])
    ++ (be_bytes2 service_id ++ (0x68 ∷ 0x65 ∷ 0x6E ∷ 0x64 ∷ 0x70 ∷ 0x6F ∷ 0x69 ∷ 0x6E ∷ 0x74 ∷ []))

unfoldable pub advertised_endpoint : Endpoint → List ℕ
advertised_endpoint e =
    (0xA2 ∷ 0x62 ∷ 0x69 ∷ 0x70 ∷ (0x60 + length e.address) ∷ [])
    ++ (e.address ++ ((0x64 ∷ 0x70 ∷ 0x6F ∷ 0x72 ∷ 0x74 ∷ 0x19 ∷ []) ++ be_bytes2 e.port))

unfoldable pub advertisement : ℕ → Endpoint → List ℕ
advertisement service_id e =
    advertisement_start service_id
    ++ (advertised_endpoint e
        ++ ((0x64 ∷ 0x64 ∷ 0x65 ∷ 0x73 ∷ 0x63 ∷ []) ++ service_description_cbor))

module _ {V : Type 0} where
  -- The header; the counter has 32 bits, the sequence number 16.
  unfoldable pub advertisement_header : ℕ → Service (Template V) → Header
  advertisement_header size s = record empty_header {
    flags = if (s.user).reboot then 1 else 0;
    message_type = service_advertisement;
    payload_size = size;
    protocol_version = 1;
    sequence_no = (s.user).sd_sequence % u16_mod;
    timestamp = s.time_micros;
  }

  -- `sd_sequence_++`, and the reset of the flag on a roll-over.
  unfoldable pub count_advertisement : Template V → Template V
  count_advertisement t = record t {
    sd_sequence = add32 t.sd_sequence 1;
    reboot = if add32 t.sd_sequence 1 == 0 then false else t.reboot;
  }

  unfoldable pub send_advertisement : Endpoint → Service (Template V) → Service (Template V)
  send_advertisement e s =
      let payload = advertisement s.service_id e in
      let buffer = write_at s.scratch_buffer 0 payload in
      let h = advertisement_header (length payload) s in
      let with_header = (packet_append_data allocate_packet (encode_header h)).0 in
      let packet = (packet_append_data with_header (take h.payload_size buffer)).0 in
      transmit sd_multicast_address multicast_port packet
        (record s { scratch_buffer = buffer; user = count_advertisement s.user })

  -- Without an endpoint, or with an address of sixteen characters or more, nothing is sent.
  unfoldable pub template_advertise :
      (ℕ → Option Endpoint) → Service (Template V) → Service (Template V)
  template_advertise get_endpoint s =
      let begun = record s {
        scratch_buffer = write_at s.scratch_buffer 0 (advertisement_start s.service_id);
      } in
      elim (get_endpoint s.time_micros) [
        | none ↦ begun
        | some e ↦ if leb 16 (length e.address) then begun else send_advertisement e s
      ]
