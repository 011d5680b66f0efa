-- ===== src/Template/Description.antt =====
-- codegen/templates/ServiceTemplate.hpp: the description of the service that the generator wrote, as CBOR.
use xbot_framework.Prelude.{ℕ, List, [], ◌∷◌}

unfoldable pub service_description_cbor : List ℕ
service_description_cbor =
    0xA7 ∷ 0x64 ∷ 0x74 ∷ 0x79 ∷ 0x70 ∷ 0x65 ∷ 0x6F ∷ 0x53 ∷ 0x65 ∷ 0x72 ∷ 0x76 ∷ 0x69 ∷ 0x63 ∷ 0x65
    ∷ 0x54 ∷ 0x65 ∷ 0x6D ∷ 0x70 ∷ 0x6C ∷ 0x61 ∷ 0x74 ∷ 0x65 ∷ 0x67 ∷ 0x76 ∷ 0x65 ∷ 0x72 ∷ 0x73
    ∷ 0x69 ∷ 0x6F ∷ 0x6E ∷ 0x01 ∷ 0x66 ∷ 0x69 ∷ 0x6E ∷ 0x70 ∷ 0x75 ∷ 0x74 ∷ 0x73 ∷ 0x82 ∷ 0xA3
    ∷ 0x62 ∷ 0x69 ∷ 0x64 ∷ 0x00 ∷ 0x64 ∷ 0x6E ∷ 0x61 ∷ 0x6D ∷ 0x65 ∷ 0x6D ∷ 0x45 ∷ 0x78 ∷ 0x61
    ∷ 0x6D ∷ 0x70 ∷ 0x6C ∷ 0x65 ∷ 0x49 ∷ 0x6E ∷ 0x70 ∷ 0x75 ∷ 0x74 ∷ 0x31 ∷ 0x64 ∷ 0x74 ∷ 0x79
    ∷ 0x70 ∷ 0x65 ∷ 0x69 ∷ 0x63 ∷ 0x68 ∷ 0x61 ∷ 0x72 ∷ 0x5B ∷ 0x31 ∷ 0x30 ∷ 0x30 ∷ 0x5D ∷ 0xA3
    ∷ 0x62 ∷ 0x69 ∷ 0x64 ∷ 0x01 ∷ 0x64 ∷ 0x6E ∷ 0x61 ∷ 0x6D ∷ 0x65 ∷ 0x6D ∷ 0x45 ∷ 0x78 ∷ 0x61
    ∷ 0x6D ∷ 0x70 ∷ 0x6C ∷ 0x65 ∷ 0x49 ∷ 0x6E ∷ 0x70 ∷ 0x75 ∷ 0x74 ∷ 0x32 ∷ 0x64 ∷ 0x74 ∷ 0x79
    ∷ 0x70 ∷ 0x65 ∷ 0x68 ∷ 0x75 ∷ 0x69 ∷ 0x6E ∷ 0x74 ∷ 0x33 ∷ 0x32 ∷ 0x5F ∷ 0x74 ∷ 0x67 ∷ 0x6F
    ∷ 0x75 ∷ 0x74 ∷ 0x70 ∷ 0x75 ∷ 0x74 ∷ 0x73 ∷ 0x82 ∷ 0xA3 ∷ 0x62 ∷ 0x69 ∷ 0x64 ∷ 0x00 ∷ 0x64
    ∷ 0x6E ∷ 0x61 ∷ 0x6D ∷ 0x65 ∷ 0x6E ∷ 0x45 ∷ 0x78 ∷ 0x61 ∷ 0x6D ∷ 0x70 ∷ 0x6C ∷ 0x65 ∷ 0x4F
    ∷ 0x75 ∷ 0x74 ∷ 0x70 ∷ 0x75 ∷ 0x74 ∷ 0x31 ∷ 0x64 ∷ 0x74 ∷ 0x79 ∷ 0x70 ∷ 0x65 ∷ 0x69 ∷ 0x63
    ∷ 0x68 ∷ 0x61 ∷ 0x72 ∷ 0x5B ∷ 0x31 ∷ 0x30 ∷ 0x30 ∷ 0x5D ∷ 0xA3 ∷ 0x62 ∷ 0x69 ∷ 0x64 ∷ 0x01
    ∷ 0x64 ∷ 0x6E ∷ 0x61 ∷ 0x6D ∷ 0x65 ∷ 0x6E ∷ 0x45 ∷ 0x78 ∷ 0x61 ∷ 0x6D ∷ 0x70 ∷ 0x6C ∷ 0x65
    ∷ 0x4F ∷ 0x75 ∷ 0x74 ∷ 0x70 ∷ 0x75 ∷ 0x74 ∷ 0x32 ∷ 0x64 ∷ 0x74 ∷ 0x79 ∷ 0x70 ∷ 0x65 ∷ 0x68
    ∷ 0x75 ∷ 0x69 ∷ 0x6E ∷ 0x74 ∷ 0x33 ∷ 0x32 ∷ 0x5F ∷ 0x74 ∷ 0x69 ∷ 0x72 ∷ 0x65 ∷ 0x67 ∷ 0x69
    ∷ 0x73 ∷ 0x74 ∷ 0x65 ∷ 0x72 ∷ 0x73 ∷ 0x84 ∷ 0xA3 ∷ 0x62 ∷ 0x69 ∷ 0x64 ∷ 0x00 ∷ 0x64 ∷ 0x6E
    ∷ 0x61 ∷ 0x6D ∷ 0x65 ∷ 0x69 ∷ 0x52 ∷ 0x65 ∷ 0x67 ∷ 0x69 ∷ 0x73 ∷ 0x74 ∷ 0x65 ∷ 0x72 ∷ 0x31
    ∷ 0x64 ∷ 0x74 ∷ 0x79 ∷ 0x70 ∷ 0x65 ∷ 0x68 ∷ 0x63 ∷ 0x68 ∷ 0x61 ∷ 0x72 ∷ 0x5B ∷ 0x34 ∷ 0x32
    ∷ 0x5D ∷ 0xA3 ∷ 0x62 ∷ 0x69 ∷ 0x64 ∷ 0x01 ∷ 0x64 ∷ 0x6E ∷ 0x61 ∷ 0x6D ∷ 0x65 ∷ 0x69 ∷ 0x52
    ∷ 0x65 ∷ 0x67 ∷ 0x69 ∷ 0x73 ∷ 0x74 ∷ 0x65 ∷ 0x72 ∷ 0x32 ∷ 0x64 ∷ 0x74 ∷ 0x79 ∷ 0x70 ∷ 0x65
    ∷ 0x68 ∷ 0x75 ∷ 0x69 ∷ 0x6E ∷ 0x74 ∷ 0x33 ∷ 0x32 ∷ 0x5F ∷ 0x74 ∷ 0xA3 ∷ 0x62 ∷ 0x69 ∷ 0x64
    ∷ 0x02 ∷ 0x64 ∷ 0x6E ∷ 0x61 ∷ 0x6D ∷ 0x65 ∷ 0x69 ∷ 0x52 ∷ 0x65 ∷ 0x67 ∷ 0x69 ∷ 0x73 ∷ 0x74
    ∷ 0x65 ∷ 0x72 ∷ 0x33 ∷ 0x64 ∷ 0x74 ∷ 0x79 ∷ 0x70 ∷ 0x65 ∷ 0x64 ∷ 0x62 ∷ 0x6C ∷ 0x6F ∷ 0x62
    ∷ 0xA4 ∷ 0x62 ∷ 0x69 ∷ 0x64 ∷ 0x03 ∷ 0x64 ∷ 0x6E ∷ 0x61 ∷ 0x6D ∷ 0x65 ∷ 0x72 ∷ 0x52 ∷ 0x65
    ∷ 0x67 ∷ 0x69 ∷ 0x73 ∷ 0x74 ∷ 0x65 ∷ 0x72 ∷ 0x34 ∷ 0x20 ∷ 0x4F ∷ 0x70 ∷ 0x74 ∷ 0x69 ∷ 0x6F
    ∷ 0x6E ∷ 0x61 ∷ 0x6C ∷ 0x64 ∷ 0x74 ∷ 0x79 ∷ 0x70 ∷ 0x65 ∷ 0x68 ∷ 0x75 ∷ 0x69 ∷ 0x6E ∷ 0x74
    ∷ 0x33 ∷ 0x32 ∷ 0x5F ∷ 0x74 ∷ 0x68 ∷ 0x6F ∷ 0x70 ∷ 0x74 ∷ 0x69 ∷ 0x6F ∷ 0x6E ∷ 0x61 ∷ 0x6C
    ∷ 0xF5 ∷ 0x69 ∷ 0x66 ∷ 0x75 ∷ 0x6E ∷ 0x63 ∷ 0x74 ∷ 0x69 ∷ 0x6F ∷ 0x6E ∷ 0x73 ∷ 0x84 ∷ 0xA4
    ∷ 0x62 ∷ 0x69 ∷ 0x64 ∷ 0x00 ∷ 0x64 ∷ 0x6E ∷ 0x61 ∷ 0x6D ∷ 0x65 ∷ 0x70 ∷ 0x4E ∷ 0x6F ∷ 0x50
    ∷ 0x61 ∷ 0x72 ∷ 0x61 ∷ 0x6D ∷ 0x73 ∷ 0x4E ∷ 0x6F ∷ 0x52 ∷ 0x65 ∷ 0x74 ∷ 0x75 ∷ 0x72 ∷ 0x6E
    ∷ 0x6A ∷ 0x70 ∷ 0x61 ∷ 0x72 ∷ 0x61 ∷ 0x6D ∷ 0x65 ∷ 0x74 ∷ 0x65 ∷ 0x72 ∷ 0x73 ∷ 0x80 ∷ 0x6B
    ∷ 0x72 ∷ 0x65 ∷ 0x74 ∷ 0x75 ∷ 0x72 ∷ 0x6E ∷ 0x5F ∷ 0x74 ∷ 0x79 ∷ 0x70 ∷ 0x65 ∷ 0x64 ∷ 0x76
    ∷ 0x6F ∷ 0x69 ∷ 0x64 ∷ 0xA4 ∷ 0x62 ∷ 0x69 ∷ 0x64 ∷ 0x01 ∷ 0x64 ∷ 0x6E ∷ 0x61 ∷ 0x6D ∷ 0x65
    ∷ 0x76 ∷ 0x53 ∷ 0x63 ∷ 0x61 ∷ 0x6C ∷ 0x61 ∷ 0x72 ∷ 0x50 ∷ 0x61 ∷ 0x72 ∷ 0x61 ∷ 0x6D ∷ 0x73
    ∷ 0x57 ∷ 0x69 ∷ 0x74 ∷ 0x68 ∷ 0x52 ∷ 0x65 ∷ 0x74 ∷ 0x75 ∷ 0x72 ∷ 0x6E ∷ 0x6A ∷ 0x70 ∷ 0x61
    ∷ 0x72 ∷ 0x61 ∷ 0x6D ∷ 0x65 ∷ 0x74 ∷ 0x65 ∷ 0x72 ∷ 0x73 ∷ 0x83 ∷ 0xA3 ∷ 0x62 ∷ 0x69 ∷ 0x64
    ∷ 0x00 ∷ 0x64 ∷ 0x6E ∷ 0x61 ∷ 0x6D ∷ 0x65 ∷ 0x65 ∷ 0x53 ∷ 0x70 ∷ 0x65 ∷ 0x65 ∷ 0x64 ∷ 0x64
    ∷ 0x74 ∷ 0x79 ∷ 0x70 ∷ 0x65 ∷ 0x65 ∷ 0x66 ∷ 0x6C ∷ 0x6F ∷ 0x61 ∷ 0x74 ∷ 0xA3 ∷ 0x62 ∷ 0x69
    ∷ 0x64 ∷ 0x01 ∷ 0x64 ∷ 0x6E ∷ 0x61 ∷ 0x6D ∷ 0x65 ∷ 0x65 ∷ 0x43 ∷ 0x6F ∷ 0x75 ∷ 0x6E ∷ 0x74
    ∷ 0x64 ∷ 0x74 ∷ 0x79 ∷ 0x70 ∷ 0x65 ∷ 0x68 ∷ 0x75 ∷ 0x69 ∷ 0x6E ∷ 0x74 ∷ 0x33 ∷ 0x32 ∷ 0x5F
    ∷ 0x74 ∷ 0xA3 ∷ 0x62 ∷ 0x69 ∷ 0x64 ∷ 0x02 ∷ 0x64 ∷ 0x6E ∷ 0x61 ∷ 0x6D ∷ 0x65 ∷ 0x66 ∷ 0x45
    ∷ 0x6E ∷ 0x61 ∷ 0x62 ∷ 0x6C ∷ 0x65 ∷ 0x64 ∷ 0x74 ∷ 0x79 ∷ 0x70 ∷ 0x65 ∷ 0x67 ∷ 0x75 ∷ 0x69
    ∷ 0x6E ∷ 0x74 ∷ 0x38 ∷ 0x5F ∷ 0x74 ∷ 0x6B ∷ 0x72 ∷ 0x65 ∷ 0x74 ∷ 0x75 ∷ 0x72 ∷ 0x6E ∷ 0x5F
    ∷ 0x74 ∷ 0x79 ∷ 0x70 ∷ 0x65 ∷ 0x67 ∷ 0x69 ∷ 0x6E ∷ 0x74 ∷ 0x33 ∷ 0x32 ∷ 0x5F ∷ 0x74 ∷ 0xA4
    ∷ 0x62 ∷ 0x69 ∷ 0x64 ∷ 0x02 ∷ 0x64 ∷ 0x6E ∷ 0x61 ∷ 0x6D ∷ 0x65 ∷ 0x72 ∷ 0x41 ∷ 0x72 ∷ 0x72
    ∷ 0x61 ∷ 0x79 ∷ 0x50 ∷ 0x61 ∷ 0x72 ∷ 0x61 ∷ 0x6D ∷ 0x4E ∷ 0x6F ∷ 0x52 ∷ 0x65 ∷ 0x74 ∷ 0x75
    ∷ 0x72 ∷ 0x6E ∷ 0x6A ∷ 0x70 ∷ 0x61 ∷ 0x72 ∷ 0x61 ∷ 0x6D ∷ 0x65 ∷ 0x74 ∷ 0x65 ∷ 0x72 ∷ 0x73
    ∷ 0x81 ∷ 0xA3 ∷ 0x62 ∷ 0x69 ∷ 0x64 ∷ 0x00 ∷ 0x64 ∷ 0x6E ∷ 0x61 ∷ 0x6D ∷ 0x65 ∷ 0x65 ∷ 0x4C
    ∷ 0x61 ∷ 0x62 ∷ 0x65 ∷ 0x6C ∷ 0x64 ∷ 0x74 ∷ 0x79 ∷ 0x70 ∷ 0x65 ∷ 0x68 ∷ 0x63 ∷ 0x68 ∷ 0x61
    ∷ 0x72 ∷ 0x5B ∷ 0x36 ∷ 0x34 ∷ 0x5D ∷ 0x6B ∷ 0x72 ∷ 0x65 ∷ 0x74 ∷ 0x75 ∷ 0x72 ∷ 0x6E ∷ 0x5F
    ∷ 0x74 ∷ 0x79 ∷ 0x70 ∷ 0x65 ∷ 0x64 ∷ 0x76 ∷ 0x6F ∷ 0x69 ∷ 0x64 ∷ 0xA4 ∷ 0x62 ∷ 0x69 ∷ 0x64
    ∷ 0x03 ∷ 0x64 ∷ 0x6E ∷ 0x61 ∷ 0x6D ∷ 0x65 ∷ 0x75 ∷ 0x4D ∷ 0x69 ∷ 0x78 ∷ 0x65 ∷ 0x64 ∷ 0x50
    ∷ 0x61 ∷ 0x72 ∷ 0x61 ∷ 0x6D ∷ 0x73 ∷ 0x57 ∷ 0x69 ∷ 0x74 ∷ 0x68 ∷ 0x52 ∷ 0x65 ∷ 0x74 ∷ 0x75
    ∷ 0x72 ∷ 0x6E ∷ 0x6A ∷ 0x70 ∷ 0x61 ∷ 0x72 ∷ 0x61 ∷ 0x6D ∷ 0x65 ∷ 0x74 ∷ 0x65 ∷ 0x72 ∷ 0x73
    ∷ 0x82 ∷ 0xA3 ∷ 0x62 ∷ 0x69 ∷ 0x64 ∷ 0x00 ∷ 0x64 ∷ 0x6E ∷ 0x61 ∷ 0x6D ∷ 0x65 ∷ 0x64 ∷ 0x4E
    ∷ 0x61 ∷ 0x6D ∷ 0x65 ∷ 0x64 ∷ 0x74 ∷ 0x79 ∷ 0x70 ∷ 0x65 ∷ 0x68 ∷ 0x63 ∷ 0x68 ∷ 0x61 ∷ 0x72
    ∷ 0x5B ∷ 0x33 ∷ 0x32 ∷ 0x5D ∷ 0xA3 ∷ 0x62 ∷ 0x69 ∷ 0x64 ∷ 0x01 ∷ 0x64 ∷ 0x6E ∷ 0x61 ∷ 0x6D
    ∷ 0x65 ∷ 0x65 ∷ 0x56 ∷ 0x61 ∷ 0x6C ∷ 0x75 ∷ 0x65 ∷ 0x64 ∷ 0x74 ∷ 0x79 ∷ 0x70 ∷ 0x65 ∷ 0x65
    ∷ 0x66 ∷ 0x6C ∷ 0x6F ∷ 0x61 ∷ 0x74 ∷ 0x6B ∷ 0x72 ∷ 0x65 ∷ 0x74 ∷ 0x75 ∷ 0x72 ∷ 0x6E ∷ 0x5F
    ∷ 0x74 ∷ 0x79 ∷ 0x70 ∷ 0x65 ∷ 0x67 ∷ 0x75 ∷ 0x69 ∷ 0x6E ∷ 0x74 ∷ 0x38 ∷ 0x5F ∷ 0x74 ∷ 0x65
    ∷ 0x65 ∷ 0x6E ∷ 0x75 ∷ 0x6D ∷ 0x73 ∷ 0x82 ∷ 0xA3 ∷ 0x62 ∷ 0x69 ∷ 0x64 ∷ 0x70 ∷ 0x45 ∷ 0x78
    ∷ 0x61 ∷ 0x6D ∷ 0x70 ∷ 0x6C ∷ 0x65 ∷ 0x45 ∷ 0x6E ∷ 0x75 ∷ 0x6D ∷ 0x43 ∷ 0x6C ∷ 0x61 ∷ 0x73
    ∷ 0x73 ∷ 0x69 ∷ 0x62 ∷ 0x61 ∷ 0x73 ∷ 0x65 ∷ 0x5F ∷ 0x74 ∷ 0x79 ∷ 0x70 ∷ 0x65 ∷ 0x67 ∷ 0x75
    ∷ 0x69 ∷ 0x6E ∷ 0x74 ∷ 0x38 ∷ 0x5F ∷ 0x74 ∷ 0x66 ∷ 0x76 ∷ 0x61 ∷ 0x6C ∷ 0x75 ∷ 0x65 ∷ 0x73
    ∷ 0xA3 ∷ 0x66 ∷ 0x56 ∷ 0x41 ∷ 0x4C ∷ 0x55 ∷ 0x45 ∷ 0x31 ∷ 0x00 ∷ 0x66 ∷ 0x56 ∷ 0x41 ∷ 0x4C
    ∷ 0x55 ∷ 0x45 ∷ 0x32 ∷ 0x01 ∷ 0x66 ∷ 0x56 ∷ 0x41 ∷ 0x4C ∷ 0x55 ∷ 0x45 ∷ 0x33 ∷ 0x02 ∷ 0xA4
    ∷ 0x62 ∷ 0x69 ∷ 0x64 ∷ 0x72 ∷ 0x45 ∷ 0x78 ∷ 0x61 ∷ 0x6D ∷ 0x70 ∷ 0x6C ∷ 0x65 ∷ 0x42 ∷ 0x69
    ∷ 0x74 ∷ 0x6D ∷ 0x61 ∷ 0x73 ∷ 0x6B ∷ 0x45 ∷ 0x6E ∷ 0x75 ∷ 0x6D ∷ 0x69 ∷ 0x62 ∷ 0x61 ∷ 0x73
    ∷ 0x65 ∷ 0x5F ∷ 0x74 ∷ 0x79 ∷ 0x70 ∷ 0x65 ∷ 0x67 ∷ 0x75 ∷ 0x69 ∷ 0x6E ∷ 0x74 ∷ 0x38 ∷ 0x5F
    ∷ 0x74 ∷ 0x67 ∷ 0x62 ∷ 0x69 ∷ 0x74 ∷ 0x6D ∷ 0x61 ∷ 0x73 ∷ 0x6B ∷ 0xF5 ∷ 0x66 ∷ 0x76 ∷ 0x61
    ∷ 0x6C ∷ 0x75 ∷ 0x65 ∷ 0x73 ∷ 0xA3 ∷ 0x66 ∷ 0x56 ∷ 0x41 ∷ 0x4C ∷ 0x55 ∷ 0x45 ∷ 0x31 ∷ 0x00
    ∷ 0x66 ∷ 0x56 ∷ 0x41 ∷ 0x4C ∷ 0x55 ∷ 0x45 ∷ 0x32 ∷ 0x01 ∷ 0x66 ∷ 0x56 ∷ 0x41 ∷ 0x4C ∷ 0x55
    ∷ 0x45 ∷ 0x33 ∷ 0x02 ∷ []
