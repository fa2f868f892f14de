-- ===== src/Kat/Vectors/Keygen768.antt =====
-- firmware/esp32s3-dut/main/acvp_vectors.h: the rows of 32 bytes of the ML-KEM-768 Keygen vectors.
use pqc_esp32s3_benchmarks.Prelude.{ℕ, List, [], ◌∷◌}

abbrev pub kat768_keygen_d : List (List ℕ)
kat768_keygen_d =
    (0xe5 ∷ 0x82 ∷ 0xb7 ∷ 0xd7 ∷ 0x5e ∷ 0x6c ∷ 0x80 ∷ 0xb0 ∷ 0x5a ∷ 0xe3 ∷ 0x92 ∷ 0xa1 ∷ 0xfc ∷ 0x9f
      ∷ 0x71 ∷ 0x53 ∷ 0xb1 ∷ 0x23 ∷ 0x90 ∷ 0xfd ∷ 0x99 ∷ 0x93 ∷ 0x03 ∷ 0x68 ∷ 0xcc ∷ 0x67 ∷ 0xa7
      ∷ 0x68 ∷ 0xba ∷ 0xeb ∷ 0xc8 ∷ 0xa0 ∷ [])
    ∷ (0x3e ∷ 0x58 ∷ 0x48 ∷ 0xdb ∷ 0x62 ∷ 0x46 ∷ 0x13 ∷ 0xf7 ∷ 0xac ∷ 0x14 ∷ 0x44 ∷ 0x57 ∷ 0xcc
        ∷ 0x13 ∷ 0x75 ∷ 0xf0 ∷ 0x06 ∷ 0xfa ∷ 0x8c ∷ 0xb9 ∷ 0x53 ∷ 0xe7 ∷ 0x67 ∷ 0xdc ∷ 0x9e ∷ 0x74
        ∷ 0x28 ∷ 0xd0 ∷ 0x0f ∷ 0x5d ∷ 0xad ∷ 0x8b ∷ [])
    ∷ (0x88 ∷ 0x2f ∷ 0xde ∷ 0xa5 ∷ 0x5c ∷ 0x6b ∷ 0x49 ∷ 0x7a ∷ 0x6f ∷ 0x2a ∷ 0x13 ∷ 0x21 ∷ 0xfc
        ∷ 0x82 ∷ 0x16 ∷ 0x0c ∷ 0x63 ∷ 0x0d ∷ 0x9a ∷ 0x1f ∷ 0x2e ∷ 0x35 ∷ 0xbb ∷ 0xe0 ∷ 0xd3 ∷ 0x33
        ∷ 0x2e ∷ 0x3a ∷ 0x0c ∷ 0xfb ∷ 0xc8 ∷ 0xc9 ∷ [])
    ∷ (0xae ∷ 0xe0 ∷ 0x13 ∷ 0x31 ∷ 0x0d ∷ 0x04 ∷ 0x21 ∷ 0x5b ∷ 0x77 ∷ 0xf0 ∷ 0x73 ∷ 0xa7 ∷ 0xe2
        ∷ 0x2b ∷ 0x77 ∷ 0xbf ∷ 0x02 ∷ 0x21 ∷ 0x39 ∷ 0x4a ∷ 0x08 ∷ 0xe9 ∷ 0x6b ∷ 0xd0 ∷ 0x7e ∷ 0x3c
        ∷ 0x99 ∷ 0xa9 ∷ 0xaf ∷ 0x45 ∷ 0xf1 ∷ 0x6b ∷ [])
    ∷ (0xb5 ∷ 0xdc ∷ 0xc0 ∷ 0x9f ∷ 0x54 ∷ 0x02 ∷ 0xf5 ∷ 0xda ∷ 0x76 ∷ 0x95 ∷ 0xe1 ∷ 0xd6 ∷ 0x1b
        ∷ 0x4c ∷ 0x1c ∷ 0xe1 ∷ 0x13 ∷ 0x80 ∷ 0x34 ∷ 0x7d ∷ 0x4c ∷ 0x6b ∷ 0xef ∷ 0x40 ∷ 0xba ∷ 0x11
        ∷ 0xe9 ∷ 0x4e ∷ 0x75 ∷ 0x5b ∷ 0x1a ∷ 0xfc ∷ [])
    ∷ (0xa8 ∷ 0x64 ∷ 0xa3 ∷ 0xbc ∷ 0x04 ∷ 0x11 ∷ 0xc4 ∷ 0x95 ∷ 0xf2 ∷ 0x5e ∷ 0xcd ∷ 0xe6 ∷ 0xef
        ∷ 0xd2 ∷ 0x2f ∷ 0x49 ∷ 0x04 ∷ 0x1f ∷ 0xe1 ∷ 0x8b ∷ 0xe4 ∷ 0x94 ∷ 0x31 ∷ 0x0a ∷ 0x9e ∷ 0x43
        ∷ 0x91 ∷ 0x9b ∷ 0x65 ∷ 0xa8 ∷ 0x9c ∷ 0x5e ∷ [])
    ∷ (0x99 ∷ 0xe6 ∷ 0xbc ∷ 0x4b ∷ 0x54 ∷ 0xa5 ∷ 0x78 ∷ 0xd1 ∷ 0x31 ∷ 0x68 ∷ 0x3f ∷ 0xf1 ∷ 0x1e
        ∷ 0x53 ∷ 0xa3 ∷ 0xa4 ∷ 0xac ∷ 0xe6 ∷ 0xb1 ∷ 0x19 ∷ 0xc0 ∷ 0x24 ∷ 0xc7 ∷ 0x75 ∷ 0xb6 ∷ 0x7c
        ∷ 0x2e ∷ 0xa3 ∷ 0xf1 ∷ 0xa7 ∷ 0x35 ∷ 0xef ∷ [])
    ∷ (0x6f ∷ 0x9f ∷ 0x55 ∷ 0xaa ∷ 0x14 ∷ 0x7e ∷ 0xc9 ∷ 0xea ∷ 0xf2 ∷ 0x7e ∷ 0xee ∷ 0x24 ∷ 0x8a
        ∷ 0x6a ∷ 0x92 ∷ 0x89 ∷ 0x4f ∷ 0xff ∷ 0x90 ∷ 0x5c ∷ 0x99 ∷ 0x39 ∷ 0x3c ∷ 0xe9 ∷ 0x7b ∷ 0xc6
        ∷ 0xe4 ∷ 0xe0 ∷ 0x6b ∷ 0xad ∷ 0x14 ∷ 0x9d ∷ [])
    ∷ (0x1d ∷ 0xd3 ∷ 0xcc ∷ 0x2d ∷ 0x31 ∷ 0x06 ∷ 0x18 ∷ 0x2f ∷ 0xab ∷ 0x0f ∷ 0x3e ∷ 0xaf ∷ 0x6e
        ∷ 0xf1 ∷ 0x5f ∷ 0x31 ∷ 0x43 ∷ 0x5c ∷ 0xbe ∷ 0xdf ∷ 0xfd ∷ 0xba ∷ 0x31 ∷ 0xaf ∷ 0xda ∷ 0x62
        ∷ 0x62 ∷ 0xc9 ∷ 0x05 ∷ 0xa7 ∷ 0xca ∷ 0x9c ∷ [])
    ∷ (0xef ∷ 0x97 ∷ 0x9e ∷ 0xc7 ∷ 0xd4 ∷ 0xd7 ∷ 0xf3 ∷ 0x05 ∷ 0xe9 ∷ 0xad ∷ 0x08 ∷ 0xf2 ∷ 0xcf
        ∷ 0x64 ∷ 0x2e ∷ 0x34 ∷ 0x67 ∷ 0xf4 ∷ 0x13 ∷ 0x6b ∷ 0xae ∷ 0x09 ∷ 0x93 ∷ 0x49 ∷ 0x36 ∷ 0x83
        ∷ 0x6f ∷ 0x20 ∷ 0xdf ∷ 0xea ∷ 0xb5 ∷ 0xd7 ∷ [])
    ∷ (0xb9 ∷ 0xdc ∷ 0xce ∷ 0xb6 ∷ 0x49 ∷ 0x3c ∷ 0x8e ∷ 0xa8 ∷ 0xb5 ∷ 0xaf ∷ 0x6e ∷ 0xad ∷ 0xb7
        ∷ 0x0e ∷ 0xe5 ∷ 0x11 ∷ 0xd4 ∷ 0x14 ∷ 0x90 ∷ 0x84 ∷ 0x47 ∷ 0x6f ∷ 0xb3 ∷ 0xdc ∷ 0x63 ∷ 0x07
        ∷ 0x21 ∷ 0x8b ∷ 0xbc ∷ 0x32 ∷ 0x7d ∷ 0xeb ∷ [])
    ∷ (0x7b ∷ 0xe7 ∷ 0xc6 ∷ 0x1f ∷ 0x88 ∷ 0x56 ∷ 0xa4 ∷ 0xea ∷ 0xb1 ∷ 0xf4 ∷ 0x00 ∷ 0x5d ∷ 0x74
        ∷ 0xd1 ∷ 0x6f ∷ 0xb3 ∷ 0xfe ∷ 0x12 ∷ 0x9f ∷ 0x97 ∷ 0x6f ∷ 0x8f ∷ 0x84 ∷ 0x13 ∷ 0xf0 ∷ 0x53
        ∷ 0x4b ∷ 0xd4 ∷ 0x77 ∷ 0xd4 ∷ 0xa3 ∷ 0xf5 ∷ [])
    ∷ (0xc0 ∷ 0x1e ∷ 0x00 ∷ 0xb7 ∷ 0xc8 ∷ 0x39 ∷ 0xdb ∷ 0x65 ∷ 0x11 ∷ 0x96 ∷ 0x57 ∷ 0x2e ∷ 0x66
        ∷ 0x21 ∷ 0x9b ∷ 0xda ∷ 0x0a ∷ 0x94 ∷ 0x65 ∷ 0xc5 ∷ 0x10 ∷ 0xd9 ∷ 0x87 ∷ 0x6d ∷ 0x1b ∷ 0xa2
        ∷ 0x38 ∷ 0x65 ∷ 0x49 ∷ 0xb2 ∷ 0xe2 ∷ 0x8c ∷ [])
    ∷ (0x58 ∷ 0x84 ∷ 0x28 ∷ 0xb0 ∷ 0x06 ∷ 0x3c ∷ 0x4e ∷ 0xed ∷ 0x54 ∷ 0x9c ∷ 0xf2 ∷ 0x2a ∷ 0x44
        ∷ 0x0c ∷ 0x60 ∷ 0x64 ∷ 0x7e ∷ 0x91 ∷ 0x34 ∷ 0xa2 ∷ 0xdb ∷ 0x21 ∷ 0x25 ∷ 0x45 ∷ 0x8a ∷ 0xd2
        ∷ 0xc3 ∷ 0x8e ∷ 0xad ∷ 0x0c ∷ 0x19 ∷ 0x3c ∷ [])
    ∷ (0x37 ∷ 0x4f ∷ 0x04 ∷ 0x6f ∷ 0xa7 ∷ 0xce ∷ 0xfa ∷ 0xff ∷ 0x24 ∷ 0x07 ∷ 0xcc ∷ 0x37 ∷ 0xed
        ∷ 0x5b ∷ 0x1f ∷ 0xa4 ∷ 0xe0 ∷ 0x5c ∷ 0xed ∷ 0xc0 ∷ 0xa4 ∷ 0x6d ∷ 0x3e ∷ 0x11 ∷ 0x09 ∷ 0xd6
        ∷ 0x7c ∷ 0xe7 ∷ 0xa1 ∷ 0x33 ∷ 0x90 ∷ 0x9f ∷ [])
    ∷ (0xf1 ∷ 0xb0 ∷ 0x58 ∷ 0xcd ∷ 0x19 ∷ 0x72 ∷ 0xf6 ∷ 0x51 ∷ 0x3a ∷ 0xdd ∷ 0xe3 ∷ 0x4f ∷ 0x17
        ∷ 0x54 ∷ 0xce ∷ 0xa2 ∷ 0x7b ∷ 0x15 ∷ 0x47 ∷ 0xbe ∷ 0xd0 ∷ 0xe0 ∷ 0x87 ∷ 0xab ∷ 0x49 ∷ 0x6a
        ∷ 0x04 ∷ 0x22 ∷ 0x1f ∷ 0xaf ∷ 0x64 ∷ 0x0c ∷ [])
    ∷ (0xb2 ∷ 0x55 ∷ 0x55 ∷ 0x73 ∷ 0xfe ∷ 0xc7 ∷ 0x9b ∷ 0xc6 ∷ 0x1a ∷ 0x4b ∷ 0x59 ∷ 0xc6 ∷ 0x05
        ∷ 0xab ∷ 0x14 ∷ 0x3e ∷ 0x55 ∷ 0x46 ∷ 0x06 ∷ 0xa1 ∷ 0x5e ∷ 0x95 ∷ 0xe1 ∷ 0x83 ∷ 0x6e ∷ 0x6a
        ∷ 0xcd ∷ 0x42 ∷ 0x32 ∷ 0x05 ∷ 0x20 ∷ 0x1e ∷ [])
    ∷ (0x42 ∷ 0x83 ∷ 0x7a ∷ 0x37 ∷ 0xbe ∷ 0x82 ∷ 0x5c ∷ 0x5c ∷ 0xd9 ∷ 0xb9 ∷ 0x6c ∷ 0xc9 ∷ 0xc8
        ∷ 0xca ∷ 0x80 ∷ 0x34 ∷ 0x11 ∷ 0x58 ∷ 0x71 ∷ 0x09 ∷ 0xe6 ∷ 0xb0 ∷ 0xe0 ∷ 0x0e ∷ 0x12 ∷ 0x62
        ∷ 0xbb ∷ 0x26 ∷ 0x24 ∷ 0xe2 ∷ 0xae ∷ 0x81 ∷ [])
    ∷ (0x08 ∷ 0x9f ∷ 0xfc ∷ 0x60 ∷ 0xb2 ∷ 0x5e ∷ 0xdc ∷ 0xef ∷ 0x9a ∷ 0x04 ∷ 0xc8 ∷ 0xc6 ∷ 0x3f
        ∷ 0x86 ∷ 0x0e ∷ 0x58 ∷ 0xc7 ∷ 0xac ∷ 0x6d ∷ 0x65 ∷ 0xee ∷ 0x1c ∷ 0xf1 ∷ 0xba ∷ 0x0b ∷ 0x55
        ∷ 0x05 ∷ 0x80 ∷ 0x32 ∷ 0x20 ∷ 0x6d ∷ 0x5c ∷ [])
    ∷ (0x96 ∷ 0x2c ∷ 0xf4 ∷ 0x2b ∷ 0xd3 ∷ 0x40 ∷ 0x2a ∷ 0x69 ∷ 0x6c ∷ 0xa5 ∷ 0x07 ∷ 0x80 ∷ 0x5d
        ∷ 0x38 ∷ 0x42 ∷ 0x82 ∷ 0x75 ∷ 0x96 ∷ 0xf0 ∷ 0xff ∷ 0xb3 ∷ 0x9d ∷ 0x7c ∷ 0x72 ∷ 0xdc ∷ 0x5a
        ∷ 0x40 ∷ 0x0f ∷ 0x3e ∷ 0x3b ∷ 0x38 ∷ 0xb7 ∷ [])
    ∷ (0x5a ∷ 0x52 ∷ 0x78 ∷ 0xa9 ∷ 0x52 ∷ 0xfd ∷ 0xf1 ∷ 0x98 ∷ 0x57 ∷ 0x16 ∷ 0xf0 ∷ 0xa3 ∷ 0xb6
        ∷ 0x03 ∷ 0x8e ∷ 0x94 ∷ 0xf2 ∷ 0x12 ∷ 0x0c ∷ 0x32 ∷ 0x78 ∷ 0x7c ∷ 0xe5 ∷ 0xe4 ∷ 0x03 ∷ 0x53
        ∷ 0x06 ∷ 0x4e ∷ 0x57 ∷ 0x72 ∷ 0x06 ∷ 0x4f ∷ [])
    ∷ (0xea ∷ 0x63 ∷ 0x1e ∷ 0x1b ∷ 0x17 ∷ 0xa1 ∷ 0x6a ∷ 0x63 ∷ 0xc5 ∷ 0xa4 ∷ 0xd6 ∷ 0x0b ∷ 0x76
        ∷ 0x85 ∷ 0x92 ∷ 0x08 ∷ 0xc0 ∷ 0x2a ∷ 0x92 ∷ 0x68 ∷ 0xfe ∷ 0x69 ∷ 0xc9 ∷ 0x9a ∷ 0x64 ∷ 0x23
        ∷ 0x9f ∷ 0xf3 ∷ 0xba ∷ 0x62 ∷ 0x3a ∷ 0x37 ∷ [])
    ∷ (0xe0 ∷ 0x21 ∷ 0x34 ∷ 0xd7 ∷ 0x35 ∷ 0x22 ∷ 0x55 ∷ 0x66 ∷ 0x60 ∷ 0x24 ∷ 0xef ∷ 0x0f ∷ 0x5e
        ∷ 0xe8 ∷ 0x5a ∷ 0x20 ∷ 0x0b ∷ 0x97 ∷ 0xb1 ∷ 0xb7 ∷ 0x4e ∷ 0xb8 ∷ 0xee ∷ 0xf7 ∷ 0xd5 ∷ 0xd2
        ∷ 0xd9 ∷ 0x49 ∷ 0x01 ∷ 0x58 ∷ 0x4e ∷ 0x56 ∷ [])
    ∷ (0x83 ∷ 0x4c ∷ 0xc3 ∷ 0x44 ∷ 0xca ∷ 0x89 ∷ 0x85 ∷ 0x4e ∷ 0xba ∷ 0x2e ∷ 0x6b ∷ 0x21 ∷ 0xb4
        ∷ 0xec ∷ 0x51 ∷ 0xb4 ∷ 0xe4 ∷ 0x2c ∷ 0xfd ∷ 0x29 ∷ 0x16 ∷ 0x4c ∷ 0x16 ∷ 0xfd ∷ 0x66 ∷ 0xc1
        ∷ 0x8b ∷ 0x18 ∷ 0x8a ∷ 0x10 ∷ 0xc0 ∷ 0xe4 ∷ [])
    ∷ (0x96 ∷ 0x4b ∷ 0x59 ∷ 0xfe ∷ 0x0c ∷ 0x31 ∷ 0x96 ∷ 0x86 ∷ 0xa4 ∷ 0x26 ∷ 0x5c ∷ 0x61 ∷ 0x03
        ∷ 0xb7 ∷ 0x24 ∷ 0x50 ∷ 0x62 ∷ 0x24 ∷ 0x15 ∷ 0xa9 ∷ 0x53 ∷ 0xe4 ∷ 0xa2 ∷ 0xee ∷ 0xfe ∷ 0x77
        ∷ 0xd8 ∷ 0x8f ∷ 0x2a ∷ 0xff ∷ 0x4f ∷ 0xd2 ∷ [])
    ∷ []

abbrev pub kat768_keygen_z : List (List ℕ)
kat768_keygen_z =
    (0x1c ∷ 0xda ∷ 0xcb ∷ 0x87 ∷ 0x40 ∷ 0xc0 ∷ 0xb8 ∷ 0x7c ∷ 0x4a ∷ 0x37 ∷ 0x95 ∷ 0x75 ∷ 0xf1 ∷ 0x87
      ∷ 0xb3 ∷ 0x67 ∷ 0xcb ∷ 0xfa ∷ 0x3b ∷ 0x30 ∷ 0x0b ∷ 0xf5 ∷ 0x91 ∷ 0xb1 ∷ 0x09 ∷ 0xf7 ∷ 0x98
      ∷ 0x16 ∷ 0xe9 ∷ 0xcb ∷ 0xe8 ∷ 0xf0 ∷ [])
    ∷ (0x01 ∷ 0x2d ∷ 0xd6 ∷ 0xc2 ∷ 0xf0 ∷ 0x91 ∷ 0x8b ∷ 0x9e ∷ 0xb6 ∷ 0x18 ∷ 0x24 ∷ 0x74 ∷ 0xeb
        ∷ 0x86 ∷ 0xd8 ∷ 0x48 ∷ 0xf6 ∷ 0x59 ∷ 0x74 ∷ 0x75 ∷ 0x9d ∷ 0x59 ∷ 0xce ∷ 0x15 ∷ 0x1a ∷ 0x39
        ∷ 0x6d ∷ 0xee ∷ 0xe4 ∷ 0xca ∷ 0x10 ∷ 0xd1 ∷ [])
    ∷ (0x3a ∷ 0x21 ∷ 0xf6 ∷ 0x01 ∷ 0x92 ∷ 0x3c ∷ 0x55 ∷ 0x91 ∷ 0x79 ∷ 0xa3 ∷ 0xaa ∷ 0x58 ∷ 0x39
        ∷ 0xa1 ∷ 0x48 ∷ 0x48 ∷ 0x73 ∷ 0x79 ∷ 0xea ∷ 0xad ∷ 0x93 ∷ 0x4b ∷ 0xf2 ∷ 0x7f ∷ 0x30 ∷ 0x71
        ∷ 0xe1 ∷ 0xb1 ∷ 0xfd ∷ 0xc2 ∷ 0x1d ∷ 0x1a ∷ [])
    ∷ (0x7d ∷ 0xcb ∷ 0x9d ∷ 0x6a ∷ 0x2c ∷ 0x38 ∷ 0x32 ∷ 0xe5 ∷ 0xfe ∷ 0x92 ∷ 0x61 ∷ 0xe2 ∷ 0x91
        ∷ 0x72 ∷ 0x37 ∷ 0x5a ∷ 0x78 ∷ 0xcb ∷ 0xec ∷ 0xda ∷ 0x0e ∷ 0xf5 ∷ 0x48 ∷ 0x4c ∷ 0x4b ∷ 0x3f
        ∷ 0x69 ∷ 0x40 ∷ 0xea ∷ 0x20 ∷ 0xed ∷ 0xd9 ∷ [])
    ∷ (0xab ∷ 0x6e ∷ 0xae ∷ 0x98 ∷ 0x2d ∷ 0xda ∷ 0x00 ∷ 0x08 ∷ 0xcf ∷ 0x1b ∷ 0xdc ∷ 0x59 ∷ 0xb5
        ∷ 0xc8 ∷ 0xac ∷ 0x88 ∷ 0xba ∷ 0x11 ∷ 0xf1 ∷ 0x69 ∷ 0x79 ∷ 0x8a ∷ 0xa5 ∷ 0x63 ∷ 0x74 ∷ 0xed
        ∷ 0x7a ∷ 0x55 ∷ 0x0b ∷ 0xc4 ∷ 0xf5 ∷ 0x52 ∷ [])
    ∷ (0xe3 ∷ 0xad ∷ 0x31 ∷ 0x5b ∷ 0xb1 ∷ 0xd6 ∷ 0xfb ∷ 0xba ∷ 0x5e ∷ 0xe5 ∷ 0x62 ∷ 0xbf ∷ 0x05
        ∷ 0xe5 ∷ 0x3e ∷ 0x5e ∷ 0xd7 ∷ 0xce ∷ 0x2a ∷ 0x8c ∷ 0x2e ∷ 0xb2 ∷ 0xcb ∷ 0xd9 ∷ 0xc0 ∷ 0x55
        ∷ 0x92 ∷ 0xff ∷ 0xcb ∷ 0x23 ∷ 0x7a ∷ 0x55 ∷ [])
    ∷ (0x0d ∷ 0x9a ∷ 0x2f ∷ 0xae ∷ 0xed ∷ 0xa2 ∷ 0x0f ∷ 0x88 ∷ 0xd2 ∷ 0xfc ∷ 0xcb ∷ 0xcf ∷ 0x0f
        ∷ 0x12 ∷ 0x50 ∷ 0x53 ∷ 0x2b ∷ 0x55 ∷ 0x52 ∷ 0x3e ∷ 0x55 ∷ 0xb3 ∷ 0x76 ∷ 0xc9 ∷ 0x94 ∷ 0xa9
        ∷ 0xed ∷ 0x63 ∷ 0x2e ∷ 0x4a ∷ 0xce ∷ 0xfd ∷ [])
    ∷ (0x4c ∷ 0xd1 ∷ 0xca ∷ 0xf4 ∷ 0x2f ∷ 0x8c ∷ 0x22 ∷ 0xaf ∷ 0xf4 ∷ 0x40 ∷ 0xcf ∷ 0xfc ∷ 0xf8
        ∷ 0xa2 ∷ 0x95 ∷ 0x1d ∷ 0xc4 ∷ 0x1a ∷ 0x9a ∷ 0xb1 ∷ 0x64 ∷ 0xa4 ∷ 0xc3 ∷ 0x3a ∷ 0x94 ∷ 0x85
        ∷ 0x37 ∷ 0x37 ∷ 0x2e ∷ 0xbe ∷ 0x2b ∷ 0xc1 ∷ [])
    ∷ (0x94 ∷ 0xd1 ∷ 0xb1 ∷ 0x65 ∷ 0x17 ∷ 0x81 ∷ 0xbb ∷ 0x96 ∷ 0xae ∷ 0x28 ∷ 0x47 ∷ 0x5f ∷ 0x61
        ∷ 0xa6 ∷ 0x3c ∷ 0x23 ∷ 0x1e ∷ 0x97 ∷ 0xa7 ∷ 0x95 ∷ 0xbf ∷ 0x0e ∷ 0x26 ∷ 0xcf ∷ 0x39 ∷ 0xe3
        ∷ 0xae ∷ 0xec ∷ 0x9d ∷ 0xc6 ∷ 0x57 ∷ 0xf2 ∷ [])
    ∷ (0x0d ∷ 0xac ∷ 0xbe ∷ 0xe4 ∷ 0xfc ∷ 0x14 ∷ 0x7c ∷ 0xcd ∷ 0x7c ∷ 0x9f ∷ 0x73 ∷ 0x0c ∷ 0xd4
        ∷ 0xdc ∷ 0xe7 ∷ 0xe4 ∷ 0x0e ∷ 0x5a ∷ 0x40 ∷ 0xc1 ∷ 0x9c ∷ 0x03 ∷ 0xff ∷ 0xad ∷ 0x7b ∷ 0x9b
        ∷ 0xdb ∷ 0x51 ∷ 0xa4 ∷ 0x6f ∷ 0xa4 ∷ 0x5c ∷ [])
    ∷ (0x4c ∷ 0x2a ∷ 0x1a ∷ 0xba ∷ 0xed ∷ 0xbc ∷ 0xf8 ∷ 0x9e ∷ 0xde ∷ 0x87 ∷ 0x30 ∷ 0x50 ∷ 0xe0
        ∷ 0x62 ∷ 0xb5 ∷ 0x9c ∷ 0x27 ∷ 0x97 ∷ 0x84 ∷ 0x22 ∷ 0x5a ∷ 0xf1 ∷ 0x87 ∷ 0xd4 ∷ 0x96 ∷ 0xbc
        ∷ 0x72 ∷ 0x41 ∷ 0xdb ∷ 0x6d ∷ 0x2f ∷ 0xe6 ∷ [])
    ∷ (0x9e ∷ 0x43 ∷ 0xcd ∷ 0x67 ∷ 0x55 ∷ 0x93 ∷ 0x30 ∷ 0x63 ∷ 0xb1 ∷ 0x0a ∷ 0x41 ∷ 0xe8 ∷ 0xb7
        ∷ 0xb4 ∷ 0x8d ∷ 0xdf ∷ 0x5a ∷ 0xae ∷ 0x0c ∷ 0xd1 ∷ 0xb4 ∷ 0xca ∷ 0x05 ∷ 0x48 ∷ 0x4f ∷ 0x1c
        ∷ 0xb3 ∷ 0xb9 ∷ 0xba ∷ 0x56 ∷ 0xf5 ∷ 0xf3 ∷ [])
    ∷ (0x2d ∷ 0xfb ∷ 0x6b ∷ 0x05 ∷ 0xa6 ∷ 0x6b ∷ 0xeb ∷ 0xd4 ∷ 0xc4 ∷ 0xf2 ∷ 0x9a ∷ 0x1c ∷ 0xfe
        ∷ 0x27 ∷ 0x0d ∷ 0xdd ∷ 0x2b ∷ 0xc1 ∷ 0xbb ∷ 0x85 ∷ 0xe6 ∷ 0x93 ∷ 0xb6 ∷ 0x2c ∷ 0x24 ∷ 0xa6
        ∷ 0x23 ∷ 0xb3 ∷ 0x0e ∷ 0xa0 ∷ 0x57 ∷ 0xac ∷ [])
    ∷ (0x62 ∷ 0xda ∷ 0x81 ∷ 0x52 ∷ 0xec ∷ 0x31 ∷ 0xf8 ∷ 0xff ∷ 0x9d ∷ 0x16 ∷ 0x52 ∷ 0x31 ∷ 0x3a
        ∷ 0x1b ∷ 0x83 ∷ 0xcd ∷ 0x86 ∷ 0x46 ∷ 0x23 ∷ 0x02 ∷ 0x08 ∷ 0x4a ∷ 0xca ∷ 0xda ∷ 0xd7 ∷ 0x14
        ∷ 0xe1 ∷ 0xfe ∷ 0x3c ∷ 0xeb ∷ 0x04 ∷ 0xa6 ∷ [])
    ∷ (0x33 ∷ 0xb9 ∷ 0x2b ∷ 0x2f ∷ 0xb6 ∷ 0x31 ∷ 0xb0 ∷ 0x18 ∷ 0x15 ∷ 0xf7 ∷ 0xab ∷ 0x94 ∷ 0xc5
        ∷ 0x80 ∷ 0x9f ∷ 0x11 ∷ 0x90 ∷ 0x8f ∷ 0x97 ∷ 0xbe ∷ 0xe9 ∷ 0x02 ∷ 0xb6 ∷ 0x63 ∷ 0x7e ∷ 0xba
        ∷ 0xa1 ∷ 0x57 ∷ 0xe7 ∷ 0x0f ∷ 0xf7 ∷ 0xcf ∷ [])
    ∷ (0xeb ∷ 0x01 ∷ 0x6f ∷ 0xbc ∷ 0x9f ∷ 0x78 ∷ 0x72 ∷ 0xed ∷ 0x0a ∷ 0xf3 ∷ 0xb7 ∷ 0x6e ∷ 0xf5
        ∷ 0x95 ∷ 0x56 ∷ 0x28 ∷ 0x05 ∷ 0x7a ∷ 0x92 ∷ 0x9b ∷ 0x69 ∷ 0xff ∷ 0x06 ∷ 0x60 ∷ 0x6c ∷ 0xf7
        ∷ 0x45 ∷ 0x8b ∷ 0x60 ∷ 0x00 ∷ 0x44 ∷ 0xf1 ∷ [])
    ∷ (0xb8 ∷ 0xa0 ∷ 0xc7 ∷ 0x12 ∷ 0x66 ∷ 0x62 ∷ 0x23 ∷ 0x32 ∷ 0x62 ∷ 0x1a ∷ 0x1a ∷ 0xc8 ∷ 0x17
        ∷ 0x24 ∷ 0x96 ∷ 0xf1 ∷ 0xe9 ∷ 0x55 ∷ 0xb9 ∷ 0x2e ∷ 0xbf ∷ 0x0f ∷ 0x4c ∷ 0x7a ∷ 0x68 ∷ 0xbb
        ∷ 0xd6 ∷ 0x22 ∷ 0xf9 ∷ 0xfe ∷ 0xe0 ∷ 0x35 ∷ [])
    ∷ (0xb1 ∷ 0xf4 ∷ 0x09 ∷ 0x3b ∷ 0xe7 ∷ 0x09 ∷ 0x90 ∷ 0xe5 ∷ 0x0d ∷ 0x7b ∷ 0xdd ∷ 0x2c ∷ 0x15
        ∷ 0xed ∷ 0x0e ∷ 0x94 ∷ 0xeb ∷ 0x4c ∷ 0x9e ∷ 0x01 ∷ 0x71 ∷ 0x89 ∷ 0xba ∷ 0x4c ∷ 0xbf ∷ 0x62
        ∷ 0x40 ∷ 0x4f ∷ 0x67 ∷ 0x6a ∷ 0xd8 ∷ 0xb6 ∷ [])
    ∷ (0x94 ∷ 0xdb ∷ 0xa3 ∷ 0x39 ∷ 0xc9 ∷ 0xc7 ∷ 0x09 ∷ 0xf4 ∷ 0x14 ∷ 0xe8 ∷ 0x2b ∷ 0x3e ∷ 0xbb
        ∷ 0xb3 ∷ 0xf7 ∷ 0x38 ∷ 0x74 ∷ 0x04 ∷ 0x95 ∷ 0x2c ∷ 0x4b ∷ 0x06 ∷ 0xda ∷ 0xac ∷ 0xd8 ∷ 0xc5
        ∷ 0x28 ∷ 0xbc ∷ 0x53 ∷ 0xf0 ∷ 0xd7 ∷ 0xc5 ∷ [])
    ∷ (0x8f ∷ 0x46 ∷ 0xb8 ∷ 0x7e ∷ 0xd2 ∷ 0xea ∷ 0x66 ∷ 0xa2 ∷ 0x95 ∷ 0x2a ∷ 0xf7 ∷ 0x15 ∷ 0x46
        ∷ 0xe4 ∷ 0x3b ∷ 0x92 ∷ 0x6e ∷ 0xbd ∷ 0x5d ∷ 0xc9 ∷ 0x59 ∷ 0x38 ∷ 0x88 ∷ 0x4e ∷ 0xab ∷ 0xc6
        ∷ 0x15 ∷ 0x3a ∷ 0xe2 ∷ 0xc0 ∷ 0x94 ∷ 0x64 ∷ [])
    ∷ (0x7e ∷ 0xb1 ∷ 0x86 ∷ 0xff ∷ 0xe5 ∷ 0xd5 ∷ 0xce ∷ 0x92 ∷ 0xb0 ∷ 0x0f ∷ 0xe9 ∷ 0x7f ∷ 0x3c
        ∷ 0x50 ∷ 0x74 ∷ 0xd0 ∷ 0xb1 ∷ 0x95 ∷ 0x77 ∷ 0x5a ∷ 0x99 ∷ 0xd4 ∷ 0x07 ∷ 0xe1 ∷ 0x52 ∷ 0x5e
        ∷ 0x7e ∷ 0x21 ∷ 0x90 ∷ 0xa1 ∷ 0xa8 ∷ 0x41 ∷ [])
    ∷ (0x4b ∷ 0x1d ∷ 0x64 ∷ 0x1c ∷ 0x15 ∷ 0x2a ∷ 0xc9 ∷ 0xf0 ∷ 0xb1 ∷ 0xcd ∷ 0x44 ∷ 0x83 ∷ 0xd2
        ∷ 0xea ∷ 0xe5 ∷ 0x51 ∷ 0xbd ∷ 0x19 ∷ 0xda ∷ 0xb1 ∷ 0x1c ∷ 0x78 ∷ 0xf2 ∷ 0x4f ∷ 0x7f ∷ 0x34
        ∷ 0x46 ∷ 0xe0 ∷ 0x91 ∷ 0x1b ∷ 0x31 ∷ 0x09 ∷ [])
    ∷ (0x94 ∷ 0xff ∷ 0x6a ∷ 0xa7 ∷ 0xf8 ∷ 0xa3 ∷ 0x5a ∷ 0x28 ∷ 0x76 ∷ 0x42 ∷ 0x99 ∷ 0x72 ∷ 0x5c
        ∷ 0x49 ∷ 0xa0 ∷ 0x24 ∷ 0xd6 ∷ 0x75 ∷ 0x7b ∷ 0x0d ∷ 0x74 ∷ 0xa4 ∷ 0x13 ∷ 0x4b ∷ 0xc9 ∷ 0x2d
        ∷ 0x7a ∷ 0x90 ∷ 0x4b ∷ 0xcb ∷ 0xa8 ∷ 0xfa ∷ [])
    ∷ (0xc4 ∷ 0x5f ∷ 0x45 ∷ 0x8b ∷ 0x56 ∷ 0x2d ∷ 0x74 ∷ 0x71 ∷ 0xa3 ∷ 0x01 ∷ 0xf9 ∷ 0xaa ∷ 0x48
        ∷ 0x59 ∷ 0x40 ∷ 0xbc ∷ 0x89 ∷ 0x6b ∷ 0xc2 ∷ 0xbe ∷ 0xa6 ∷ 0xe2 ∷ 0x7a ∷ 0xc8 ∷ 0xd7 ∷ 0x19
        ∷ 0x71 ∷ 0x3f ∷ 0xfa ∷ 0x28 ∷ 0x4f ∷ 0xb4 ∷ [])
    ∷ (0xa4 ∷ 0x9c ∷ 0x29 ∷ 0x80 ∷ 0x9a ∷ 0x03 ∷ 0x49 ∷ 0xec ∷ 0x1f ∷ 0xcf ∷ 0xf1 ∷ 0x16 ∷ 0x93
        ∷ 0x11 ∷ 0xc2 ∷ 0xa1 ∷ 0xbc ∷ 0xa4 ∷ 0x8f ∷ 0x9a ∷ 0x9e ∷ 0x4d ∷ 0x97 ∷ 0xbf ∷ 0xcc ∷ 0xf3
        ∷ 0x02 ∷ 0x56 ∷ 0x1d ∷ 0xb6 ∷ 0x56 ∷ 0x96 ∷ [])
    ∷ []
