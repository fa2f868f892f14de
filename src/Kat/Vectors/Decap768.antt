-- ===== src/Kat/Vectors/Decap768.antt =====
-- firmware/esp32s3-dut/main/acvp_vectors.h: the rows of 32 bytes of the ML-KEM-768 Decap vectors.
use pqc_esp32s3_benchmarks.Prelude.{ℕ, List, [], ◌∷◌}

abbrev pub kat768_decap_k : List (List ℕ)
kat768_decap_k =
    (0x34 ∷ 0xcf ∷ 0xae ∷ 0x7f ∷ 0x2c ∷ 0xa3 ∷ 0xb0 ∷ 0xb9 ∷ 0xc3 ∷ 0xe0 ∷ 0x6a ∷ 0xfe ∷ 0xed ∷ 0x55
      ∷ 0x4c ∷ 0x05 ∷ 0x3f ∷ 0x6e ∷ 0x51 ∷ 0xd8 ∷ 0x75 ∷ 0xd3 ∷ 0xbd ∷ 0x3f ∷ 0xf0 ∷ 0xed ∷ 0xa2
      ∷ 0x08 ∷ 0x6e ∷ 0xe7 ∷ 0x9f ∷ 0x3a ∷ [])
    ∷ (0x14 ∷ 0xab ∷ 0x42 ∷ 0x68 ∷ 0x43 ∷ 0x3f ∷ 0xf8 ∷ 0xd0 ∷ 0xff ∷ 0x60 ∷ 0x36 ∷ 0xeb ∷ 0x40
        ∷ 0x57 ∷ 0xf0 ∷ 0x4a ∷ 0xaa ∷ 0x3c ∷ 0x28 ∷ 0x2b ∷ 0x45 ∷ 0xed ∷ 0x65 ∷ 0xa3 ∷ 0xf2 ∷ 0x11
        ∷ 0xe7 ∷ 0x1f ∷ 0x79 ∷ 0xa9 ∷ 0x45 ∷ 0x7c ∷ [])
    ∷ (0x2c ∷ 0xfb ∷ 0x69 ∷ 0x57 ∷ 0x10 ∷ 0xa6 ∷ 0xc4 ∷ 0x37 ∷ 0x7f ∷ 0x46 ∷ 0xc2 ∷ 0x0c ∷ 0x13
        ∷ 0x48 ∷ 0x0a ∷ 0xef ∷ 0x7a ∷ 0xc5 ∷ 0x60 ∷ 0x30 ∷ 0xd4 ∷ 0x7a ∷ 0x0a ∷ 0xb5 ∷ 0xaf ∷ 0x07
        ∷ 0xdd ∷ 0xd6 ∷ 0x06 ∷ 0x2c ∷ 0x28 ∷ 0xf4 ∷ [])
    ∷ (0x6c ∷ 0x8c ∷ 0x7a ∷ 0xfc ∷ 0x5b ∷ 0x05 ∷ 0xf3 ∷ 0xaa ∷ 0x94 ∷ 0xd3 ∷ 0x0f ∷ 0xed ∷ 0x24
        ∷ 0xa6 ∷ 0xff ∷ 0x89 ∷ 0xc5 ∷ 0xc8 ∷ 0x46 ∷ 0x25 ∷ 0xb5 ∷ 0x79 ∷ 0x2c ∷ 0xad ∷ 0xe7 ∷ 0xe8
        ∷ 0x9a ∷ 0xf9 ∷ 0x88 ∷ 0xf4 ∷ 0x54 ∷ 0x47 ∷ [])
    ∷ (0xd3 ∷ 0xdf ∷ 0xd4 ∷ 0xf2 ∷ 0x74 ∷ 0x19 ∷ 0x5d ∷ 0x4b ∷ 0x54 ∷ 0xdf ∷ 0x61 ∷ 0xbf ∷ 0x61
        ∷ 0x55 ∷ 0xf7 ∷ 0xb2 ∷ 0xe1 ∷ 0xc9 ∷ 0xaa ∷ 0x47 ∷ 0x21 ∷ 0x20 ∷ 0x1c ∷ 0xc3 ∷ 0xf4 ∷ 0x4c
        ∷ 0x51 ∷ 0x67 ∷ 0xbe ∷ 0xf4 ∷ 0xdd ∷ 0xe2 ∷ [])
    ∷ (0xbb ∷ 0x3e ∷ 0x66 ∷ 0x08 ∷ 0x36 ∷ 0x4d ∷ 0xcf ∷ 0x41 ∷ 0x35 ∷ 0xde ∷ 0x42 ∷ 0x38 ∷ 0x94
        ∷ 0x67 ∷ 0xd4 ∷ 0xaf ∷ 0x58 ∷ 0x78 ∷ 0x51 ∷ 0x20 ∷ 0xa5 ∷ 0xb5 ∷ 0x8c ∷ 0xfa ∷ 0x67 ∷ 0x86
        ∷ 0x75 ∷ 0x70 ∷ 0xda ∷ 0x9a ∷ 0x6b ∷ 0x10 ∷ [])
    ∷ (0x8a ∷ 0x0c ∷ 0x2e ∷ 0xb0 ∷ 0x6e ∷ 0x3e ∷ 0x2c ∷ 0x07 ∷ 0xb8 ∷ 0xcd ∷ 0x39 ∷ 0xac ∷ 0xfc
        ∷ 0x3d ∷ 0x0c ∷ 0x56 ∷ 0xa1 ∷ 0xff ∷ 0x25 ∷ 0x57 ∷ 0x3e ∷ 0xf8 ∷ 0x53 ∷ 0xac ∷ 0xa4 ∷ 0x38
        ∷ 0xe5 ∷ 0x43 ∷ 0xd3 ∷ 0x92 ∷ 0x93 ∷ 0x52 ∷ [])
    ∷ (0x92 ∷ 0x81 ∷ 0x8a ∷ 0xf8 ∷ 0x63 ∷ 0x21 ∷ 0x3e ∷ 0x6c ∷ 0x5c ∷ 0xa6 ∷ 0xe0 ∷ 0x46 ∷ 0x3b
        ∷ 0x23 ∷ 0xd9 ∷ 0x7c ∷ 0x9b ∷ 0x5d ∷ 0x08 ∷ 0xeb ∷ 0xa8 ∷ 0x0b ∷ 0xd8 ∷ 0xb7 ∷ 0x47 ∷ 0x96
        ∷ 0x03 ∷ 0x24 ∷ 0xcd ∷ 0x08 ∷ 0x0d ∷ 0xdf ∷ [])
    ∷ (0x07 ∷ 0x22 ∷ 0x44 ∷ 0x54 ∷ 0xea ∷ 0xda ∷ 0x42 ∷ 0x65 ∷ 0x52 ∷ 0x47 ∷ 0x64 ∷ 0x4b ∷ 0x44
        ∷ 0xdb ∷ 0x66 ∷ 0xa0 ∷ 0xcf ∷ 0x73 ∷ 0xa1 ∷ 0xd3 ∷ 0x5b ∷ 0x39 ∷ 0x8f ∷ 0xab ∷ 0xe2 ∷ 0x49
        ∷ 0xb6 ∷ 0xbd ∷ 0xd0 ∷ 0xeb ∷ 0xdb ∷ 0xa0 ∷ [])
    ∷ (0x2d ∷ 0x1c ∷ 0x76 ∷ 0xa6 ∷ 0xaa ∷ 0x0d ∷ 0x1d ∷ 0x47 ∷ 0xe1 ∷ 0x3e ∷ 0x55 ∷ 0x70 ∷ 0xde
        ∷ 0xbf ∷ 0xc7 ∷ 0x8a ∷ 0x83 ∷ 0xeb ∷ 0x9a ∷ 0x86 ∷ 0x94 ∷ 0xc2 ∷ 0x04 ∷ 0xe6 ∷ 0xae ∷ 0xaa
        ∷ 0xcd ∷ 0x55 ∷ 0xbc ∷ 0x23 ∷ 0xe7 ∷ 0xbe ∷ [])
    ∷ []
