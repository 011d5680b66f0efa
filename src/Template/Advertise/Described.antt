-- ===== src/Template/Advertise/Described.antt =====
-- What an advertisement of the generated service says, by an independent reading of CBOR. The description is that
-- of codegen/templates/service.json.
use Prim.Native.String.{String}
use xbot_framework.Prelude.{
  ℕ, ◌/◌, ◌%◌, ◌<◌, ◌≤◌, ◌≡◌, refl, ap, sym, ◌∙◌, [], ◌++◌, some, arith, length, append-nil,
  u16_mod,
}
use xbot_framework.Template.Cbor.{
  Cbor, Items, Fields, small, word, text, array, table, truth, nil, cons, end, field, codes,
  encode_cbor, count_items, count_fields, decode_cbor,
}
use xbot_framework.Template.Cbor.RoundTrip.{Fits, size, decode-encode_cbor}
use xbot_framework.Template.Description.{service_description_cbor}
use xbot_framework.Template.Advertise.{
  Endpoint, advertisement, advertisement_start, advertised_endpoint,
}

abbrev string : String → Cbor
string s = text (codes s)

-- An input, an output, a register or a parameter.
abbrev member_fields : ℕ → String → String → Fields → Fields
member_fields id name type rest =
    field (codes "id") (small id)
      (field (codes "name") (string name) (field (codes "type") (string type) rest))

abbrev member : ℕ → String → String → Cbor
member id name type = table (member_fields id name type end)

abbrev function : ℕ → String → Items → String → Cbor
function id name parameters return_type = table (
    field (codes "id") (small id) (
      field (codes "name") (string name) (
        field (codes "parameters") (array parameters)
          (field (codes "return_type") (string return_type) end))))

abbrev three_values : Cbor
three_values = table (
    field (codes "VALUE1") (small 0)
      (field (codes "VALUE2") (small 1) (field (codes "VALUE3") (small 2) end)))

abbrev enum : String → Fields → Cbor
enum id rest =
    table (field (codes "id") (string id) (field (codes "base_type") (string "uint8_t") rest))

abbrev functions : Items
functions = cons (function 0 "NoParamsNoReturn" nil "void") (
    cons
      (function 1 "ScalarParamsWithReturn"
        (cons (member 0 "Speed" "float")
          (cons (member 1 "Count" "uint32_t") (cons (member 2 "Enable" "uint8_t") nil)))
        "int32_t")
      (cons (function 2 "ArrayParamNoReturn" (cons (member 0 "Label" "char[64]") nil) "void") (
        cons
          (function 3 "MixedParamsWithReturn"
            (cons (member 0 "Name" "char[32]") (cons (member 1 "Value" "float") nil)) "uint8_t")
          nil)))

abbrev registers : Items
registers = cons (member 0 "Register1" "char[42]") (
    cons (member 1 "Register2" "uint32_t") (
      cons (member 2 "Register3" "blob") (
        cons
          (table
            (member_fields 3 "Register4 Optional" "uint32_t" (field (codes "optional") truth end)))
          nil)))

abbrev enums : Items
enums = cons (enum "ExampleEnumClass" (field (codes "values") three_values end)) (
    cons
      (enum "ExampleBitmaskEnum"
        (field (codes "bitmask") truth (field (codes "values") three_values end)))
      nil)

-- service.json
unfoldable pub description : Cbor
description = table (
    field (codes "type") (string "ServiceTemplate") (
      field (codes "version") (small 1) (
        field (codes "inputs")
          (array (
            cons (member 0 "ExampleInput1" "char[100]")
              (cons (member 1 "ExampleInput2" "uint32_t") nil)))
          (field (codes "outputs")
            (array (
              cons (member 0 "ExampleOutput1" "char[100]")
                (cons (member 1 "ExampleOutput2" "uint32_t") nil)))
            (field (codes "registers") (array registers) (
              field (codes "functions") (array functions)
                (field (codes "enums") (array enums) end)))))))

description_bytes : service_description_cbor ≡ encode_cbor description
unfolding service_description_cbor encode_cbor description count_items count_fields
description_bytes = refl

description-Fits : Fits description
unfolding Fits description count_items count_fields
description-Fits = omega arith

description_size : size description ≤ 900
unfolding size description
description_size = omega arith

-- The object that an advertisement is.
abbrev pub advertised_object : ℕ → Endpoint → Cbor
advertised_object service_id e = table (
    field (codes "sid") (word service_id) (
      field (codes "endpoint")
        (table (field (codes "ip") (text e.address) (field (codes "port") (word e.port) end)))
        (field (codes "desc") description end)))

advertisement_bytes :
    (service_id : ℕ) (e : Endpoint)
    → service_id < u16_mod
    → e.port < u16_mod
    → advertisement service_id e ≡ encode_cbor (advertised_object service_id e)
unfolding advertisement advertisement_start advertised_endpoint encode_cbor count_items count_fields
advertisement_bytes service_id e id port =
    let sid_high : (service_id / 256) % 256 ≡ service_id / 256 = omega arith in
    let port_high : (e.port / 256) % 256 ≡ e.port / 256 = omega arith in
    let desc : service_description_cbor ≡ encode_cbor description ++ [] =
      description_bytes ∙ sym (append-nil (encode_cbor description)) in
    rw (sid_high, port_high, desc) refl

-- The payload of an advertisement, for an address of at most 15 characters and numbers of 16 bits, is exactly
-- one CBOR item: an object with the service's ID, the endpoint's address and port, and the description of
-- service.json; any fuel of at least a thousand reads it.
pub decode-advertisement :
    (service_id : ℕ) (e : Endpoint) (fuel : ℕ)
    → service_id < u16_mod
    → e.port < u16_mod
    → length e.address < 16
    → 1000 ≤ fuel
    → decode_cbor fuel (advertisement service_id e) ≡ some (advertised_object service_id e, [])
unfolding Fits size count_items count_fields
decode-advertisement service_id e fuel id port short enough =
    ap (decode_cbor fuel) (
      advertisement_bytes service_id e id port
      ∙ sym (append-nil (encode_cbor (advertised_object service_id e))))
    ∙ decode-encode_cbor (advertised_object service_id e) fuel [] (omega (arith, description_size))
        (
          omega arith,
          (
            omega arith,
            id,
            (
              omega arith,
              (omega arith, (omega arith, omega arith, (omega arith, port, tt))),
              (omega arith, description-Fits, tt),
            ),
          ),
        )
