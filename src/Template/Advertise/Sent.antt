-- ===== src/Template/Advertise/Sent.antt =====
-- The packet of an advertisement, with the endpoint that the Linux port finds.
use xbot_framework.Prelude.{
  ℕ, ◌+◌, ◌<◌, ◌≡◌, refl, ap, sym, subst, ◌∙◌, List, [], ◌∷◌, ◌++◌, Option, none, some, Bool, arith,
  leb, lt→leb, if◌then◌else◌, length, take-append, length-append, u16_mod,
}
use xbot_framework.Wire.Header.{encode_header}
use xbot_framework.Portable.Nics.{Nic}
use xbot_framework.Portable.Sockets.{sock_get_endpoint, sock_get_endpoint-lt}
use xbot_framework.Service.State.{Service}
use xbot_framework.Service.Send.{write_at, transmit, packet_of}
use xbot_framework.Service.Sending.{packet_of_fit}
use xbot_framework.Template.Members.{Template}
use xbot_framework.Template.Description.{service_description_cbor}
use xbot_framework.Template.Cbor.{decode_cbor}
use xbot_framework.Template.Advertise.{
  Endpoint, template_advertise, send_advertisement, advertisement, advertisement_start,
  advertised_endpoint, be_bytes2, advertisement_header, count_advertisement, sd_multicast_address,
  multicast_port,
}
use xbot_framework.Template.Advertise.Described.{advertised_object, decode-advertisement}

length-description : length service_description_cbor ≡ 953
unfolding service_description_cbor
length-description = refl

-- The scratch buffer has room for every advertisement.
length-advertisement :
    (service_id : ℕ) (e : Endpoint) → length (advertisement service_id e) ≡ 988 + length e.address
unfolding advertisement advertisement_start advertised_endpoint
length-advertisement service_id e =
    let port_bytes = (0x64 ∷ 0x70 ∷ 0x6F ∷ 0x72 ∷ 0x74 ∷ 0x19 ∷ []) ++ be_bytes2 e.port in
    let desc = (0x64 ∷ 0x64 ∷ 0x65 ∷ 0x73 ∷ 0x63 ∷ []) ++ service_description_cbor in
    omega (
      arith,
      length-append (e.address ++ port_bytes) desc,
      length-append e.address port_bytes,
      length-description,
    )

module _ {V : Type 0} where
  send_advertisement-sent :
      (e : Endpoint) (s : Service (Template V))
      → length e.address < 16
      → (send_advertisement e s).sent
        ≡ record {
          ip = sd_multicast_address;
          port = multicast_port;
          bytes =
              encode_header (advertisement_header (length (advertisement s.service_id e)) s)
              ++ advertisement s.service_id e;
        }
          ∷ s.sent
  unfolding send_advertisement transmit write_at packet_of advertisement_header
  send_advertisement-sent e s short =
      let payload = advertisement s.service_id e in
      let h = advertisement_header (length payload) s in
      ap
        (λ (b : List ℕ).
          record { ip = sd_multicast_address; port = multicast_port; bytes = b } ∷ s.sent)
        (ap (λ (p : List ℕ). packet_of h p) (take-append payload _ (length payload) refl)
          ∙ packet_of_fit h payload (omega (arith, length-advertisement s.service_id e)))

  -- With the endpoint that the Linux port finds for the service's buffer of 16 bytes, every call of AdvertiseServiceImpl
  -- multicasts one packet, of a header that declares the payload's size and of the payload, which an independent
  -- reader of CBOR takes as the object with the service's ID, that endpoint and the description; and it counts
  -- the advertisement.
  pub template_advertise-sent :
      (sockname : Option (Option (List ℕ) × ℕ)) (nics : List (Option Nic))
      (get_endpoint : ℕ → Option Endpoint) (e : Endpoint) (s : Service (Template V))
      → get_endpoint s.time_micros ≡ sock_get_endpoint 16 sockname nics
      → sock_get_endpoint 16 sockname nics ≡ some e
      → e.port < u16_mod
      → s.service_id < u16_mod
      → let s' = template_advertise get_endpoint s in
        let payload = advertisement s.service_id e in
        (s'.sent
          ≡ record {
            ip = sd_multicast_address;
            port = multicast_port;
            bytes = encode_header (advertisement_header (length payload) s) ++ payload;
          }
            ∷ s.sent)
        × (decode_cbor 1000 payload ≡ some (advertised_object s.service_id e, []))
        × (s'.user ≡ count_advertisement s.user)
  unfolding template_advertise send_advertisement transmit
  template_advertise-sent sockname nics get_endpoint e s asked found port id =
      let short = sock_get_endpoint-lt 16 sockname nics e found in
      subst P (sym (asked ∙ found)) (
        subst Q (sym (lt→leb 16 (length e.address) short)) (
          send_advertisement-sent e s short,
          decode-advertisement s.service_id e 1000 id port short (omega arith),
          refl,
        ))
    where
      begun : Service (Template V)
      begun = record s {
        scratch_buffer = write_at s.scratch_buffer 0 (advertisement_start s.service_id);
      }

      R : Service (Template V) → Type 0
      R s' =
          let payload = advertisement s.service_id e in
          (s'.sent
            ≡ record {
              ip = sd_multicast_address;
              port = multicast_port;
              bytes = encode_header (advertisement_header (length payload) s) ++ payload;
            }
              ∷ s.sent)
          × (decode_cbor 1000 payload ≡ some (advertised_object s.service_id e, []))
          × (s'.user ≡ count_advertisement s.user)

      P : Option Endpoint → Type 0
      P o = R (elim o [
        | none ↦ begun
        | some e' ↦ if leb 16 (length e'.address) then begun else send_advertisement e' s
      ])

      Q : Bool → Type 0
      Q b = R (if b then begun else send_advertisement e s)
