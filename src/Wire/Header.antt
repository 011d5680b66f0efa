-- ===== src/Wire/Header.antt =====
-- include/xbot/datatypes/XbotHeader.hpp: the message types and the header of every packet.
use xbot_framework.Prelude.{
  ℕ, ◌<◌, ◌^◌, ◌≡◌, refl, ap, ◌∙◌, List, ◌++◌, arith, ◌==◌, if◌then◌else◌, length, u8_mod, u16_mod,
  u32_mod,
}
use xbot_framework.Wire.Bytes.{le_bytes, le_value, read_le, le_value-le_bytes}

-- `enum class MessageType : uint8_t` can hold a byte that it does not name.
pub data MessageType : Type 0 where
  unknown data_message configuration_request claim heartbeat transaction : MessageType
  rpc_call rpc_response log : MessageType
  service_advertisement service_query description_request description_part : MessageType
  unlisted : ℕ → MessageType

unfoldable pub to_byte : MessageType → ℕ
to_byte unknown = 0x00
to_byte data_message = 0x01
to_byte configuration_request = 0x02
to_byte claim = 0x03
to_byte heartbeat = 0x04
to_byte transaction = 0x05
to_byte rpc_call = 0x06
to_byte rpc_response = 0x07
to_byte log = 0x7F
to_byte service_advertisement = 0x80
to_byte service_query = 0x81
to_byte description_request = 0x82
to_byte description_part = 0x83
to_byte (unlisted b) = b

of_byte_high : ℕ → MessageType
of_byte_high b =
    if b == 0x7F
    then log
    else if b == 0x80
    then service_advertisement
    else if b == 0x81
    then service_query
    else if b == 0x82
    then description_request
    else if b == 0x83
    then description_part
    else unlisted b

unfoldable pub of_byte : ℕ → MessageType
unfolding of_byte_high
of_byte b =
    if b == 0x00
    then unknown
    else if b == 0x01
    then data_message
    else if b == 0x02
    then configuration_request
    else if b == 0x03
    then claim
    else if b == 0x04
    then heartbeat
    else if b == 0x05
    then transaction
    else if b == 0x06
    then rpc_call
    else if b == 0x07
    then rpc_response
    else of_byte_high b

pub record Header : Type 0 where
  pub protocol_version : ℕ
  pub message_type : MessageType
  pub flags : ℕ
  pub reserved1 : ℕ
  pub service_id : ℕ
  pub arg1 : ℕ
  pub reserved2 : ℕ
  pub arg2 : ℕ
  pub sequence_no : ℕ
  pub timestamp : ℕ
  pub payload_size : ℕ

-- `XbotHeader{}`: every member is zero.
abbrev pub empty_header : Header
empty_header = record {
  protocol_version = 0;
  message_type = unknown;
  flags = 0;
  reserved1 = 0;
  service_id = 0;
  arg1 = 0;
  reserved2 = 0;
  arg2 = 0;
  sequence_no = 0;
  timestamp = 0;
  payload_size = 0;
}

-- `sizeof(XbotHeader)`
abbrev pub header_size : ℕ
header_size = 24

-- The packed struct, member by member.
unfoldable pub encode_header : Header → List ℕ
encode_header h =
    le_bytes 1 h.protocol_version
    ++ (le_bytes 1 (to_byte h.message_type)
        ++ (le_bytes 1 h.flags
            ++ (le_bytes 1 h.reserved1
                ++ (le_bytes 2 h.service_id
                    ++ (le_bytes 1 h.arg1
                        ++ (le_bytes 1 h.reserved2
                            ++ (le_bytes 2 h.arg2
                                ++ (le_bytes 2 h.sequence_no
                                    ++ (le_bytes 8 h.timestamp ++ le_bytes 4 h.payload_size)))))))))

-- `reinterpret_cast<XbotHeader *>(buffer)`
unfoldable pub decode_header : List ℕ → Header
decode_header b = record {
  protocol_version = read_le b 0 1;
  message_type = of_byte (read_le b 1 1);
  flags = read_le b 2 1;
  reserved1 = read_le b 3 1;
  service_id = read_le b 4 2;
  arg1 = read_le b 6 1;
  reserved2 = read_le b 7 1;
  arg2 = read_le b 8 2;
  sequence_no = read_le b 10 2;
  timestamp = read_le b 12 8;
  payload_size = read_le b 20 4;
}

-- A message type that a byte can hold, and that is not a name for another.
abbrev pub IsNamed : MessageType → Type 0
IsNamed (unlisted b) = ⊥
IsNamed _ = Unit

-- Every member fits its width.
pub record InRange (h : Header) : Type 0 where
  pub version_fits : h.protocol_version < u8_mod
  pub type_fits : IsNamed h.message_type
  pub flags_fit : h.flags < u8_mod
  pub reserved1_fits : h.reserved1 < u8_mod
  pub id_fits : h.service_id < u16_mod
  pub arg1_fits : h.arg1 < u8_mod
  pub reserved2_fits : h.reserved2 < u8_mod
  pub arg2_fits : h.arg2 < u16_mod
  pub sequence_fits : h.sequence_no < u16_mod
  pub timestamp_fits : h.timestamp < 2 ^ 64
  pub payload_fits : h.payload_size < u32_mod

pub length-encode_header : (h : Header) → length (encode_header h) ≡ header_size
unfolding encode_header le_bytes
length-encode_header h = refl

to_byte-lt : (t : MessageType) → IsNamed t → to_byte t < 256
unfolding to_byte
to_byte-lt unknown _ = omega arith
to_byte-lt (unlisted b) n = absurd n
to_byte-lt _ _ = omega arith

of_byte-to_byte : (t : MessageType) → IsNamed t → of_byte (to_byte t) ≡ t
unfolding of_byte to_byte
of_byte-to_byte unknown _ = refl
of_byte-to_byte (unlisted b) n = absurd n
of_byte-to_byte _ _ = refl

-- A received byte names one message type, and that type has this byte.
pub to_byte-of_byte : (b : ℕ) → to_byte (of_byte b) ≡ b
unfolding to_byte of_byte
to_byte-of_byte b = ground arith

-- A header whose members fit their widths, with a message type that the enumeration names, is read
-- back from the bytes that it is written as, whatever follows them in the packet.
pub decode-encode_header :
    (h : Header) (rest : List ℕ) → InRange h → decode_header (encode_header h ++ rest) ≡ h
unfolding encode_header decode_header read_le le_bytes le_value
decode-encode_header h rest r = λ i. record {
  protocol_version = le_value-le_bytes 1 h.protocol_version r.version_fits i;
  message_type = named i;
  flags = le_value-le_bytes 1 h.flags r.flags_fit i;
  reserved1 = le_value-le_bytes 1 h.reserved1 r.reserved1_fits i;
  service_id = le_value-le_bytes 2 h.service_id r.id_fits i;
  arg1 = le_value-le_bytes 1 h.arg1 r.arg1_fits i;
  reserved2 = le_value-le_bytes 1 h.reserved2 r.reserved2_fits i;
  arg2 = le_value-le_bytes 2 h.arg2 r.arg2_fits i;
  sequence_no = le_value-le_bytes 2 h.sequence_no r.sequence_fits i;
  timestamp = le_value-le_bytes 8 h.timestamp r.timestamp_fits i;
  payload_size = le_value-le_bytes 4 h.payload_size r.payload_fits i;
}
  where
    named : of_byte (le_value (le_bytes 1 (to_byte h.message_type))) ≡ h.message_type
    named =
        ap of_byte
          (le_value-le_bytes 1 (to_byte h.message_type) (to_byte-lt h.message_type r.type_fits))
        ∙ of_byte-to_byte h.message_type r.type_fits
