-- ===== src/Service/Sending.antt =====
-- What Service.cpp puts into the packets that it sends.
pub mod Steps
pub mod Transactions
pub mod Sequence
use xbot_framework.Prelude.{
  ℕ, ◌+◌, ◌≤◌, ◌<◌, ◌≡◌, refl, ap, sym, ◌∙◌, ◌%◌, ◌^◌, u16_mod, u32_mod, append-nil, List, [], ◌∷◌,
  ◌++◌, Bool, true, false, arith, length, length-append, leb, lt→leb, le→leb, if◌then◌else◌,
}
use xbot_framework.Wire.Header.{
  Header, InRange, header_size, encode_header, decode_header, decode-encode_header,
  length-encode_header, data_message,
}
use xbot_framework.Portable.Packet.{
  max_packet_size, allocate_packet, packet_append_data, Datagram, append_room, append_full,
}
use xbot_framework.Service.State.{Service, is_claimed, scratch_size}
use xbot_framework.Service.Packets.{next_header-InRange}
use xbot_framework.Interface.Io.State.{Io}
use xbot_framework.Interface.Io.Messages.{io_receive}
use xbot_framework.Interface.Io.Packets.{io_receive-cut}
use xbot_framework.Service.Send.{
  next_header, packet_of, fill_header, transmit, send_with, send_data, send_data_message,
}

-- A payload that fits follows the header; one that does not fit is left out.
pub packet_of_fit :
    (h : Header) (payload : List ℕ)
    → length payload ≤ scratch_size
    → packet_of h payload ≡ encode_header h ++ payload
unfolding packet_of
packet_of_fit h payload fits =
    ap (λ (t : List ℕ × Bool). (packet_append_data t.0 payload).0)
      (append_room allocate_packet (encode_header h) (omega (arith, length-encode_header h)))
    ∙ (ap (λ (t : List ℕ × Bool). t.0)
        (append_room (encode_header h) payload (omega (arith, length-encode_header h))))

pub packet_of_long :
    (h : Header) (payload : List ℕ)
    → scratch_size < length payload
    → packet_of h payload ≡ encode_header h
unfolding packet_of
packet_of_long h payload long =
    ap (λ (t : List ℕ × Bool). (packet_append_data t.0 payload).0)
      (append_room allocate_packet (encode_header h) (omega (arith, length-encode_header h)))
    ∙ (ap (λ (t : List ℕ × Bool). t.0)
        (append_full (encode_header h) payload (omega (arith, length-encode_header h))))

-- The header of a DATA message.
abbrev pub data_header : {U : Type 0} → ℕ → List ℕ → Service U → Header
data_header target_id content s = record (next_header s.service_id s.time_micros s.header) {
  message_type = data_message;
  payload_size = length content % u32_mod;
  arg2 = target_id;
}

-- A claimed service with no transaction sends data of at most 1448 bytes as one packet to its claimer: a
-- header with the data's target and size, and the data.
pub send_data-fit :
    {U : Type 0} (target_id : ℕ) (content : List ℕ) (s : Service U)
    → s.transaction_started ≡ false
    → is_claimed s ≡ true
    → length content ≤ scratch_size
    → let (s', done) = send_data target_id content s in
      (done ≡ true)
      × (s'.sent
          ≡ record {
            ip = s.target_ip;
            port = s.target_port;
            bytes = encode_header (data_header target_id content s) ++ content;
          }
            ∷ s.sent)
unfolding send_data send_data_message send_with transmit fill_header
send_data-fit target_id content s outside claimed fits =
    rw (outside, claimed)
      (
        refl,
        ap (λ (b : List ℕ). record { ip = s.target_ip; port = s.target_port; bytes = b } ∷ s.sent)
            (packet_of_fit (data_header target_id content s) content fits),
      )

data_header-InRange :
    {U : Type 0} (target_id : ℕ) (content : List ℕ) (s : Service U)
    → target_id < u16_mod
    → s.service_id < u16_mod
    → s.time_micros < 2 ^ 64
    → InRange s.header
    → InRange (data_header target_id content s)
data_header-InRange target_id content s target id time ok =
    let next = next_header-InRange s.service_id s.time_micros s.header id time ok in
    record {
      version_fits = next.version_fits;
      type_fits = tt;
      flags_fit = next.flags_fit;
      reserved1_fits = next.reserved1_fits;
      id_fits = next.id_fits;
      arg1_fits = next.arg1_fits;
      reserved2_fits = next.reserved2_fits;
      arg2_fits = target;
      sequence_fits = next.sequence_fits;
      timestamp_fits = next.timestamp_fits;
      payload_fits = omega arith;
    }

-- Data of more than 1448 and less than 2^32 bytes is reported as sent, but the packet that goes to the claimer
-- has 24 bytes, the header alone, in which a reader finds the size of the missing data; the interface drops
-- such a packet, at any time and in any state.
pub send_data-long :
    {U : Type 0} {D : Type 0} (target_id : ℕ) (content : List ℕ) (s : Service U) (now : ℕ)
    (io : Io D)
    → s.transaction_started ≡ false
    → is_claimed s ≡ true
    → scratch_size < length content
    → length content < u32_mod
    → target_id < u16_mod
    → s.service_id < u16_mod
    → s.time_micros < 2 ^ 64
    → InRange s.header
    → let (s', done) = send_data target_id content s in
      (done ≡ true)
      × ((packet : Datagram) × (s'.sent ≡ packet ∷ s.sent)
          × (packet.ip ≡ s.target_ip)
          × (packet.port ≡ s.target_port)
          × (length packet.bytes ≡ header_size)
          × ((decode_header packet.bytes).payload_size ≡ length content)
          × (io_receive now packet.bytes io ≡ io))
unfolding send_data send_data_message send_with transmit fill_header
send_data-long target_id content s now io outside claimed long short target id time ok =
    let h = data_header target_id content s in
    let fits = data_header-InRange target_id content s target id time ok in
    let size : length content % u32_mod ≡ length content = omega arith in
    rw (outside, claimed)
      (
        refl,
        (
          record { ip = s.target_ip; port = s.target_port; bytes = encode_header h },
          ap (λ (b : List ℕ). record { ip = s.target_ip; port = s.target_port; bytes = b } ∷ s.sent)
              (packet_of_long h content long),
          refl,
          refl,
          length-encode_header h,
          ap (λ (p : List ℕ). (decode_header p).payload_size) (sym (append-nil (encode_header h)))
              ∙ (ap (λ (k : Header). k.payload_size) (decode-encode_header h [] fits) ∙ size),
          io_receive-cut now h io fits (ground (arith, size, long)),
        ),
      )
