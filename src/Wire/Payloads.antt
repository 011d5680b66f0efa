-- ===== src/Wire/Payloads.antt =====
-- ClaimPayload.hpp and DescriptionRequestPayload.hpp: the payloads that carry an endpoint.
use xbot_framework.Prelude.{ℕ, ◌<◌, ◌≡◌, refl, List, ◌++◌, length, u16_mod, u32_mod}
use xbot_framework.Wire.Bytes.{le_bytes, le_value, read_le, le_value-le_bytes}

pub record ClaimPayload : Type 0 where
  pub target_ip : ℕ
  pub target_port : ℕ
  pub heartbeat_micros : ℕ

-- `sizeof(ClaimPayload)`
abbrev pub claim_size : ℕ
claim_size = 10

unfoldable pub encode_claim : ClaimPayload → List ℕ
encode_claim c =
    le_bytes 4 c.target_ip ++ (le_bytes 2 c.target_port ++ le_bytes 4 c.heartbeat_micros)

unfoldable pub decode_claim : List ℕ → ClaimPayload
decode_claim b = record {
  target_ip = read_le b 0 4;
  target_port = read_le b 4 2;
  heartbeat_micros = read_le b 6 4;
}

pub record DescriptionRequestPayload : Type 0 where
  pub service_id : ℕ
  pub target_ip : ℕ
  pub target_port : ℕ
  pub offset : ℕ

-- `sizeof(DescriptionRequestPayload)`
abbrev pub request_size : ℕ
request_size = 10

unfoldable pub encode_request : DescriptionRequestPayload → List ℕ
encode_request r =
    le_bytes 2 r.service_id
    ++ (le_bytes 4 r.target_ip ++ (le_bytes 2 r.target_port ++ le_bytes 2 r.offset))

unfoldable pub decode_request : List ℕ → DescriptionRequestPayload
decode_request b = record {
  service_id = read_le b 0 2;
  target_ip = read_le b 2 4;
  target_port = read_le b 6 2;
  offset = read_le b 8 2;
}

pub length-encode_claim : (c : ClaimPayload) → length (encode_claim c) ≡ claim_size
unfolding encode_claim le_bytes
length-encode_claim c = refl

pub length-encode_request :
    (r : DescriptionRequestPayload) → length (encode_request r) ≡ request_size
unfolding encode_request le_bytes
length-encode_request r = refl

-- A claim whose members fit their widths is read back from the bytes that it is written as.
pub decode-encode_claim :
    (c : ClaimPayload)
    → c.target_ip < u32_mod
    → c.target_port < u16_mod
    → c.heartbeat_micros < u32_mod
    → decode_claim (encode_claim c) ≡ c
unfolding encode_claim decode_claim read_le le_bytes le_value
decode-encode_claim c ip port micros = λ i. record {
  target_ip = le_value-le_bytes 4 c.target_ip ip i;
  target_port = le_value-le_bytes 2 c.target_port port i;
  heartbeat_micros = le_value-le_bytes 4 c.heartbeat_micros micros i;
}

-- A description request whose members fit their widths is read back from the bytes that it is
-- written as.
pub decode-encode_request :
    (r : DescriptionRequestPayload)
    → r.service_id < u16_mod
    → r.target_ip < u32_mod
    → r.target_port < u16_mod
    → r.offset < u16_mod
    → decode_request (encode_request r) ≡ r
unfolding encode_request decode_request read_le le_bytes le_value
decode-encode_request r sid ip port at = λ i. record {
  service_id = le_value-le_bytes 2 r.service_id sid i;
  target_ip = le_value-le_bytes 4 r.target_ip ip i;
  target_port = le_value-le_bytes 2 r.target_port port i;
  offset = le_value-le_bytes 2 r.offset at i;
}
