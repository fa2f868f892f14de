-- ===== src/Kat/Vectors/Keygen512.antt =====
-- firmware/esp32s3-dut/main/acvp_vectors.h: the rows of 32 bytes of the ML-KEM-512 Keygen vectors.
use pqc_esp32s3_benchmarks.Prelude.{ℕ, List, [], ◌∷◌}

abbrev pub kat512_keygen_d : List (List ℕ)
kat512_keygen_d =
    (0x47 ∷ 0xb8 ∷ 0x93 ∷ 0x47 ∷ 0x46 ∷ 0x72 ∷ 0xba ∷ 0x92 ∷ 0xe4 ∷ 0xb1 ∷ 0x2e ∷ 0xe4 ∷ 0x4f ∷ 0xb3
      ∷ 0x29 ∷ 0x53 ∷ 0xaf ∷ 0x8e ∷ 0x85 ∷ 0x03 ∷ 0xb5 ∷ 0xfb ∷ 0x47 ∷ 0x1d ∷ 0x16 ∷ 0x14 ∷ 0xfb
      ∷ 0x8a ∷ 0x02 ∷ 0x1a ∷ 0x66 ∷ 0x0a ∷ [])
    ∷ (0x3d ∷ 0xef ∷ 0x73 ∷ 0xc5 ∷ 0x58 ∷ 0xe1 ∷ 0xf5 ∷ 0xf2 ∷ 0xbf ∷ 0xb4 ∷ 0xf6 ∷ 0xea ∷ 0xa3
        ∷ 0x6e ∷ 0xe2 ∷ 0x00 ∷ 0xcd ∷ 0xf5 ∷ 0x45 ∷ 0x80 ∷ 0x95 ∷ 0x8c ∷ 0xc2 ∷ 0x17 ∷ 0x62 ∷ 0x82
        ∷ 0x62 ∷ 0x8f ∷ 0xf5 ∷ 0x08 ∷ 0xa0 ∷ 0x16 ∷ [])
    ∷ (0x30 ∷ 0x93 ∷ 0x98 ∷ 0xd9 ∷ 0x2b ∷ 0x95 ∷ 0xb6 ∷ 0x8a ∷ 0x72 ∷ 0x5e ∷ 0xd5 ∷ 0x5d ∷ 0x3e
        ∷ 0x72 ∷ 0xaa ∷ 0x96 ∷ 0x71 ∷ 0x7f ∷ 0xa0 ∷ 0x8a ∷ 0x9b ∷ 0x91 ∷ 0x9d ∷ 0xcd ∷ 0xab ∷ 0xe7
        ∷ 0xd8 ∷ 0x93 ∷ 0xa7 ∷ 0x3a ∷ 0xd7 ∷ 0xcc ∷ [])
    ∷ (0xfa ∷ 0x58 ∷ 0xca ∷ 0xe8 ∷ 0x9e ∷ 0x66 ∷ 0x48 ∷ 0x53 ∷ 0x03 ∷ 0x5b ∷ 0xa4 ∷ 0xea ∷ 0x87
        ∷ 0x23 ∷ 0xc8 ∷ 0x32 ∷ 0x25 ∷ 0xb8 ∷ 0x9c ∷ 0x83 ∷ 0x65 ∷ 0x02 ∷ 0x4f ∷ 0xe7 ∷ 0x3a ∷ 0x3e
        ∷ 0x1b ∷ 0x7a ∷ 0xe0 ∷ 0x1e ∷ 0x66 ∷ 0x48 ∷ [])
    ∷ (0xff ∷ 0x46 ∷ 0x6b ∷ 0xc2 ∷ 0x23 ∷ 0xee ∷ 0x9e ∷ 0xbf ∷ 0x1d ∷ 0xf0 ∷ 0x64 ∷ 0x32 ∷ 0x87
        ∷ 0x3a ∷ 0x68 ∷ 0x16 ∷ 0xbe ∷ 0x86 ∷ 0x4c ∷ 0xfe ∷ 0x40 ∷ 0x8b ∷ 0x2d ∷ 0x67 ∷ 0x69 ∷ 0x45
        ∷ 0x31 ∷ 0x1e ∷ 0x31 ∷ 0xb7 ∷ 0xbf ∷ 0x84 ∷ [])
    ∷ (0x93 ∷ 0x3e ∷ 0x27 ∷ 0xf5 ∷ 0x2f ∷ 0x84 ∷ 0x29 ∷ 0x4a ∷ 0xf9 ∷ 0xe9 ∷ 0x19 ∷ 0x91 ∷ 0x1e
        ∷ 0xcf ∷ 0x58 ∷ 0xda ∷ 0x3b ∷ 0x6d ∷ 0x8a ∷ 0xe6 ∷ 0xca ∷ 0x6d ∷ 0x35 ∷ 0x3c ∷ 0xac ∷ 0xc5
        ∷ 0x77 ∷ 0x4d ∷ 0xf0 ∷ 0x49 ∷ 0x03 ∷ 0xae ∷ [])
    ∷ (0xde ∷ 0x57 ∷ 0x14 ∷ 0x59 ∷ 0x68 ∷ 0x42 ∷ 0x27 ∷ 0x80 ∷ 0xdd ∷ 0x13 ∷ 0x09 ∷ 0x0b ∷ 0xc3
        ∷ 0x86 ∷ 0xaf ∷ 0xa2 ∷ 0x49 ∷ 0xeb ∷ 0x42 ∷ 0xe3 ∷ 0x25 ∷ 0x5c ∷ 0x78 ∷ 0xa3 ∷ 0x19 ∷ 0x0d
        ∷ 0xec ∷ 0xab ∷ 0x1a ∷ 0x8e ∷ 0xbf ∷ 0xc8 ∷ [])
    ∷ (0xd0 ∷ 0xf9 ∷ 0xcc ∷ 0x2c ∷ 0x05 ∷ 0xae ∷ 0x15 ∷ 0x77 ∷ 0xba ∷ 0x4f ∷ 0x98 ∷ 0x02 ∷ 0xa1
        ∷ 0xac ∷ 0x55 ∷ 0x91 ∷ 0x0e ∷ 0x86 ∷ 0x86 ∷ 0xb4 ∷ 0x8c ∷ 0x3e ∷ 0x0e ∷ 0x43 ∷ 0xab ∷ 0x8e
        ∷ 0xb6 ∷ 0x0a ∷ 0x42 ∷ 0x84 ∷ 0x3d ∷ 0x35 ∷ [])
    ∷ (0x82 ∷ 0xc4 ∷ 0xe6 ∷ 0xae ∷ 0x03 ∷ 0x28 ∷ 0x31 ∷ 0x8c ∷ 0x60 ∷ 0x48 ∷ 0x3d ∷ 0xb1 ∷ 0x2a
        ∷ 0xc8 ∷ 0x50 ∷ 0x33 ∷ 0x6d ∷ 0x56 ∷ 0xae ∷ 0x82 ∷ 0x34 ∷ 0x65 ∷ 0xa9 ∷ 0xb0 ∷ 0xf7 ∷ 0x06
        ∷ 0x85 ∷ 0xc6 ∷ 0x36 ∷ 0x96 ∷ 0x07 ∷ 0xf6 ∷ [])
    ∷ (0x9b ∷ 0x91 ∷ 0xb7 ∷ 0x8d ∷ 0x6d ∷ 0xaf ∷ 0x34 ∷ 0x78 ∷ 0x1b ∷ 0xd6 ∷ 0xc2 ∷ 0x5b ∷ 0xd0
        ∷ 0xbc ∷ 0xcc ∷ 0xaa ∷ 0x2e ∷ 0x63 ∷ 0xf6 ∷ 0x99 ∷ 0x03 ∷ 0x2b ∷ 0x31 ∷ 0xeb ∷ 0x46 ∷ 0x98
        ∷ 0xde ∷ 0xea ∷ 0xaa ∷ 0xcb ∷ 0xef ∷ 0xd7 ∷ [])
    ∷ (0x59 ∷ 0xad ∷ 0xda ∷ 0xe8 ∷ 0xb8 ∷ 0x5a ∷ 0x4e ∷ 0x62 ∷ 0x52 ∷ 0xbb ∷ 0x7b ∷ 0x2a ∷ 0xd0
        ∷ 0x8b ∷ 0xfd ∷ 0x05 ∷ 0x6a ∷ 0x34 ∷ 0x5a ∷ 0x81 ∷ 0xd0 ∷ 0xbf ∷ 0xf6 ∷ 0x85 ∷ 0xde ∷ 0x8c
        ∷ 0x3e ∷ 0x9a ∷ 0x44 ∷ 0xe0 ∷ 0x6d ∷ 0x14 ∷ [])
    ∷ (0x20 ∷ 0xc0 ∷ 0x05 ∷ 0x7f ∷ 0xe9 ∷ 0x62 ∷ 0xea ∷ 0x7a ∷ 0x5a ∷ 0xd7 ∷ 0xe2 ∷ 0x28 ∷ 0xc6
        ∷ 0x96 ∷ 0x77 ∷ 0x73 ∷ 0x01 ∷ 0xea ∷ 0x7c ∷ 0x99 ∷ 0x57 ∷ 0x95 ∷ 0x39 ∷ 0x2b ∷ 0x56 ∷ 0xed
        ∷ 0xbe ∷ 0xc3 ∷ 0xdd ∷ 0x22 ∷ 0x21 ∷ 0x93 ∷ [])
    ∷ (0x91 ∷ 0xa5 ∷ 0x3c ∷ 0x92 ∷ 0x68 ∷ 0x57 ∷ 0x25 ∷ 0x66 ∷ 0x25 ∷ 0x77 ∷ 0xb5 ∷ 0x33 ∷ 0x56
        ∷ 0x70 ∷ 0xc9 ∷ 0xdc ∷ 0x82 ∷ 0x50 ∷ 0x01 ∷ 0xc5 ∷ 0x21 ∷ 0xfa ∷ 0x7d ∷ 0xd5 ∷ 0x62 ∷ 0x00
        ∷ 0xf1 ∷ 0x0a ∷ 0x5f ∷ 0x55 ∷ 0x18 ∷ 0x68 ∷ [])
    ∷ (0x7f ∷ 0xc3 ∷ 0xee ∷ 0xdf ∷ 0xa8 ∷ 0xed ∷ 0x5e ∷ 0xb9 ∷ 0x61 ∷ 0xba ∷ 0x72 ∷ 0x76 ∷ 0x17
        ∷ 0x01 ∷ 0xa5 ∷ 0x04 ∷ 0x0a ∷ 0xf2 ∷ 0xc5 ∷ 0x0c ∷ 0x04 ∷ 0x09 ∷ 0x18 ∷ 0x45 ∷ 0x54 ∷ 0x43
        ∷ 0x66 ∷ 0x96 ∷ 0xb8 ∷ 0xfa ∷ 0xda ∷ 0xf6 ∷ [])
    ∷ (0xb3 ∷ 0xf4 ∷ 0xb9 ∷ 0x32 ∷ 0x19 ∷ 0xe5 ∷ 0xfd ∷ 0x99 ∷ 0x3b ∷ 0xab ∷ 0x60 ∷ 0xe8 ∷ 0x8e
        ∷ 0x3f ∷ 0xcc ∷ 0x0e ∷ 0x00 ∷ 0x57 ∷ 0x41 ∷ 0xd2 ∷ 0x8f ∷ 0x73 ∷ 0x78 ∷ 0x02 ∷ 0x56 ∷ 0x1d
        ∷ 0xb1 ∷ 0xf7 ∷ 0x7d ∷ 0xd1 ∷ 0xe3 ∷ 0xe4 ∷ [])
    ∷ (0x4c ∷ 0xd8 ∷ 0xe4 ∷ 0x6e ∷ 0x7d ∷ 0xd3 ∷ 0x1c ∷ 0x0e ∷ 0xb0 ∷ 0xb0 ∷ 0xbd ∷ 0xd7 ∷ 0x41
        ∷ 0xf3 ∷ 0xa2 ∷ 0x8e ∷ 0xf6 ∷ 0x64 ∷ 0x23 ∷ 0x63 ∷ 0xa1 ∷ 0xb0 ∷ 0xe4 ∷ 0xcf ∷ 0x70 ∷ 0xec
        ∷ 0x8f ∷ 0xbb ∷ 0x86 ∷ 0x22 ∷ 0x9e ∷ 0xc7 ∷ [])
    ∷ (0x52 ∷ 0x3d ∷ 0x68 ∷ 0x32 ∷ 0x67 ∷ 0x2f ∷ 0xc9 ∷ 0xad ∷ 0x3f ∷ 0x7a ∷ 0x0b ∷ 0x47 ∷ 0x50
        ∷ 0xd1 ∷ 0x34 ∷ 0x16 ∷ 0x33 ∷ 0x6f ∷ 0x07 ∷ 0x35 ∷ 0x6f ∷ 0x68 ∷ 0xf3 ∷ 0x4f ∷ 0xa6 ∷ 0xee
        ∷ 0x32 ∷ 0x7b ∷ 0x62 ∷ 0xb3 ∷ 0xa9 ∷ 0x0f ∷ [])
    ∷ (0x13 ∷ 0x64 ∷ 0x33 ∷ 0xef ∷ 0xc2 ∷ 0xf4 ∷ 0x8d ∷ 0x49 ∷ 0xb8 ∷ 0x53 ∷ 0xb8 ∷ 0x9a ∷ 0x5c
        ∷ 0x56 ∷ 0xf7 ∷ 0xfb ∷ 0xba ∷ 0x37 ∷ 0xf6 ∷ 0x76 ∷ 0x72 ∷ 0x0b ∷ 0x78 ∷ 0xf8 ∷ 0x19 ∷ 0xd5
        ∷ 0x4a ∷ 0xf6 ∷ 0x6c ∷ 0x70 ∷ 0x7e ∷ 0x21 ∷ [])
    ∷ (0x9b ∷ 0xf2 ∷ 0x5a ∷ 0x93 ∷ 0x16 ∷ 0x7e ∷ 0xf4 ∷ 0xd2 ∷ 0x75 ∷ 0x0c ∷ 0x3b ∷ 0xa9 ∷ 0x8c
        ∷ 0x72 ∷ 0x01 ∷ 0x55 ∷ 0xcb ∷ 0x1e ∷ 0xda ∷ 0x15 ∷ 0xbc ∷ 0x9b ∷ 0xa8 ∷ 0xd9 ∷ 0xfc ∷ 0xe8
        ∷ 0xf3 ∷ 0xa3 ∷ 0x4e ∷ 0xfa ∷ 0x64 ∷ 0x0b ∷ [])
    ∷ (0xdd ∷ 0x1d ∷ 0x09 ∷ 0x8f ∷ 0xda ∷ 0x7e ∷ 0x61 ∷ 0x73 ∷ 0xe9 ∷ 0xdf ∷ 0xc8 ∷ 0x43 ∷ 0x79
        ∷ 0xa9 ∷ 0x8e ∷ 0xef ∷ 0x3a ∷ 0x7b ∷ 0xe5 ∷ 0x0e ∷ 0xdd ∷ 0x73 ∷ 0x44 ∷ 0x39 ∷ 0xae ∷ 0xcc
        ∷ 0xb6 ∷ 0x56 ∷ 0xe1 ∷ 0x7d ∷ 0xc3 ∷ 0x82 ∷ [])
    ∷ (0x09 ∷ 0x2f ∷ 0x46 ∷ 0x37 ∷ 0xdb ∷ 0xfd ∷ 0x73 ∷ 0x96 ∷ 0x86 ∷ 0xf5 ∷ 0x71 ∷ 0xe2 ∷ 0x5a
        ∷ 0x64 ∷ 0xd0 ∷ 0x24 ∷ 0x48 ∷ 0x5b ∷ 0x9f ∷ 0x24 ∷ 0x19 ∷ 0xf1 ∷ 0xa5 ∷ 0x74 ∷ 0xda ∷ 0x71
        ∷ 0xd1 ∷ 0x0b ∷ 0xfc ∷ 0x81 ∷ 0x76 ∷ 0xcd ∷ [])
    ∷ (0x42 ∷ 0x61 ∷ 0xca ∷ 0xfa ∷ 0xfe ∷ 0xb9 ∷ 0x50 ∷ 0x7d ∷ 0x78 ∷ 0x2c ∷ 0x1a ∷ 0x26 ∷ 0xaa
        ∷ 0x98 ∷ 0xef ∷ 0xbb ∷ 0x92 ∷ 0x65 ∷ 0x83 ∷ 0x44 ∷ 0xb6 ∷ 0x45 ∷ 0x0f ∷ 0xcf ∷ 0x87 ∷ 0xa7
        ∷ 0xde ∷ 0xdb ∷ 0x97 ∷ 0x14 ∷ 0x95 ∷ 0x26 ∷ [])
    ∷ (0x10 ∷ 0x57 ∷ 0x1c ∷ 0xd5 ∷ 0xbb ∷ 0xe5 ∷ 0x50 ∷ 0xc7 ∷ 0x56 ∷ 0x6c ∷ 0xcb ∷ 0x6f ∷ 0xac
        ∷ 0x63 ∷ 0x60 ∷ 0x14 ∷ 0xad ∷ 0x55 ∷ 0x90 ∷ 0xa2 ∷ 0xdf ∷ 0xe0 ∷ 0xd6 ∷ 0x2e ∷ 0x8a ∷ 0xae
        ∷ 0xed ∷ 0xa2 ∷ 0xba ∷ 0xff ∷ 0x95 ∷ 0x90 ∷ [])
    ∷ (0xe3 ∷ 0x2e ∷ 0x61 ∷ 0xca ∷ 0x2b ∷ 0xa6 ∷ 0x1e ∷ 0xa0 ∷ 0x96 ∷ 0x19 ∷ 0xbc ∷ 0x88 ∷ 0x0b
        ∷ 0xac ∷ 0xeb ∷ 0x8c ∷ 0xd8 ∷ 0x0c ∷ 0xdd ∷ 0x04 ∷ 0xa2 ∷ 0xf8 ∷ 0xdd ∷ 0xf4 ∷ 0xd9 ∷ 0xc3
        ∷ 0x06 ∷ 0x4f ∷ 0xe2 ∷ 0xd8 ∷ 0xe3 ∷ 0x02 ∷ [])
    ∷ (0xcd ∷ 0x2d ∷ 0x46 ∷ 0xc8 ∷ 0xd9 ∷ 0xe7 ∷ 0xaa ∷ 0xa1 ∷ 0x93 ∷ 0x3c ∷ 0xed ∷ 0xa6 ∷ 0xfb
        ∷ 0xfc ∷ 0x59 ∷ 0x6c ∷ 0xd0 ∷ 0x00 ∷ 0x7a ∷ 0xb2 ∷ 0xb3 ∷ 0xe6 ∷ 0x6a ∷ 0xa8 ∷ 0xa2 ∷ 0x5b
        ∷ 0x39 ∷ 0x96 ∷ 0xd2 ∷ 0x8b ∷ 0x3b ∷ 0x8a ∷ [])
    ∷ []

abbrev pub kat512_keygen_z : List (List ℕ)
kat512_keygen_z =
    (0x1f ∷ 0x8c ∷ 0xb3 ∷ 0x9e ∷ 0x9e ∷ 0x30 ∷ 0xbc ∷ 0x45 ∷ 0x8a ∷ 0x0d ∷ 0xc5 ∷ 0x40 ∷ 0x88 ∷ 0x84
      ∷ 0xb1 ∷ 0x18 ∷ 0x7f ∷ 0xb2 ∷ 0x17 ∷ 0x01 ∷ 0x8d ∷ 0xf7 ∷ 0x60 ∷ 0xfa ∷ 0x57 ∷ 0x31 ∷ 0x77
      ∷ 0x03 ∷ 0xb8 ∷ 0x44 ∷ 0xa0 ∷ 0xa9 ∷ [])
    ∷ (0xb9 ∷ 0x95 ∷ 0x85 ∷ 0x75 ∷ 0x12 ∷ 0x8f ∷ 0x97 ∷ 0x02 ∷ 0x25 ∷ 0x25 ∷ 0x26 ∷ 0x60 ∷ 0x64
        ∷ 0xf9 ∷ 0x42 ∷ 0x2e ∷ 0x83 ∷ 0xf7 ∷ 0x5f ∷ 0xbd ∷ 0xcd ∷ 0x0f ∷ 0x2b ∷ 0xc2 ∷ 0x64 ∷ 0x86
        ∷ 0x55 ∷ 0xf0 ∷ 0xe3 ∷ 0x1a ∷ 0x17 ∷ 0xe5 ∷ [])
    ∷ (0xc2 ∷ 0xfe ∷ 0x9c ∷ 0xb7 ∷ 0xf4 ∷ 0x9b ∷ 0xf7 ∷ 0x29 ∷ 0x67 ∷ 0x85 ∷ 0xa1 ∷ 0x82 ∷ 0x4c
        ∷ 0xd7 ∷ 0x98 ∷ 0xc3 ∷ 0x77 ∷ 0xbf ∷ 0xf4 ∷ 0xe1 ∷ 0x83 ∷ 0x64 ∷ 0x73 ∷ 0xcd ∷ 0x4a ∷ 0x8c
        ∷ 0x74 ∷ 0x23 ∷ 0xbf ∷ 0x1d ∷ 0x0f ∷ 0x13 ∷ [])
    ∷ (0xab ∷ 0xf5 ∷ 0xd4 ∷ 0xe3 ∷ 0x4b ∷ 0xe2 ∷ 0x8d ∷ 0xb2 ∷ 0x98 ∷ 0x4c ∷ 0xae ∷ 0xfd ∷ 0x09
        ∷ 0xf0 ∷ 0x60 ∷ 0x95 ∷ 0x92 ∷ 0x1b ∷ 0x3c ∷ 0x99 ∷ 0x1e ∷ 0xf8 ∷ 0xc4 ∷ 0xce ∷ 0x3b ∷ 0x16
        ∷ 0xca ∷ 0x2c ∷ 0x18 ∷ 0xe0 ∷ 0xa0 ∷ 0xb2 ∷ [])
    ∷ (0x48 ∷ 0x23 ∷ 0x03 ∷ 0xcb ∷ 0xf9 ∷ 0xe3 ∷ 0x96 ∷ 0x37 ∷ 0x84 ∷ 0xe1 ∷ 0xba ∷ 0xc3 ∷ 0x90
        ∷ 0x86 ∷ 0xaa ∷ 0xdf ∷ 0x7d ∷ 0xe6 ∷ 0xdb ∷ 0xb4 ∷ 0x5e ∷ 0x61 ∷ 0xa8 ∷ 0x02 ∷ 0x12 ∷ 0x65
        ∷ 0xa5 ∷ 0xba ∷ 0x25 ∷ 0x22 ∷ 0xa1 ∷ 0xd8 ∷ [])
    ∷ (0x05 ∷ 0x8c ∷ 0xa9 ∷ 0x24 ∷ 0x8b ∷ 0x19 ∷ 0x9c ∷ 0x69 ∷ 0x0c ∷ 0x09 ∷ 0x74 ∷ 0x59 ∷ 0x48
        ∷ 0x39 ∷ 0xdb ∷ 0x2e ∷ 0x60 ∷ 0x75 ∷ 0x42 ∷ 0x0a ∷ 0xa1 ∷ 0x33 ∷ 0x5c ∷ 0x3c ∷ 0x63 ∷ 0xb3
        ∷ 0x0e ∷ 0xcc ∷ 0xed ∷ 0x35 ∷ 0x54 ∷ 0x6d ∷ [])
    ∷ (0x39 ∷ 0xc0 ∷ 0x11 ∷ 0x4d ∷ 0x1b ∷ 0x46 ∷ 0xfd ∷ 0x8d ∷ 0x0f ∷ 0xeb ∷ 0x02 ∷ 0x95 ∷ 0x37
        ∷ 0xb2 ∷ 0xc6 ∷ 0xfb ∷ 0x62 ∷ 0xa2 ∷ 0x01 ∷ 0x60 ∷ 0x14 ∷ 0xb0 ∷ 0x74 ∷ 0xf0 ∷ 0xa4 ∷ 0x30
        ∷ 0x9f ∷ 0x65 ∷ 0xcf ∷ 0x36 ∷ 0x6c ∷ 0xe0 ∷ [])
    ∷ (0x0f ∷ 0xfb ∷ 0xc1 ∷ 0xd3 ∷ 0x34 ∷ 0x69 ∷ 0x00 ∷ 0x36 ∷ 0xc4 ∷ 0x98 ∷ 0xc5 ∷ 0x03 ∷ 0x5a
        ∷ 0xdd ∷ 0x70 ∷ 0x6b ∷ 0xdb ∷ 0xf6 ∷ 0x06 ∷ 0x85 ∷ 0x21 ∷ 0x7e ∷ 0xa7 ∷ 0x92 ∷ 0xcd ∷ 0x00
        ∷ 0x96 ∷ 0x06 ∷ 0xe5 ∷ 0xd9 ∷ 0x10 ∷ 0x80 ∷ [])
    ∷ (0x1c ∷ 0x52 ∷ 0x9f ∷ 0xb4 ∷ 0x31 ∷ 0x8c ∷ 0x1a ∷ 0x0a ∷ 0xa4 ∷ 0xc0 ∷ 0x6e ∷ 0xb1 ∷ 0x1a
        ∷ 0x19 ∷ 0xbd ∷ 0xd5 ∷ 0x15 ∷ 0x14 ∷ 0xe6 ∷ 0xac ∷ 0xad ∷ 0x22 ∷ 0xb5 ∷ 0x22 ∷ 0x79 ∷ 0x18
        ∷ 0x3b ∷ 0x1e ∷ 0x33 ∷ 0xd5 ∷ 0x4c ∷ 0xce ∷ [])
    ∷ (0x52 ∷ 0x7b ∷ 0x50 ∷ 0x91 ∷ 0x2b ∷ 0xce ∷ 0x75 ∷ 0x86 ∷ 0x28 ∷ 0x9b ∷ 0xe9 ∷ 0x1a ∷ 0xed
        ∷ 0xfd ∷ 0xfc ∷ 0x5c ∷ 0xa5 ∷ 0x4b ∷ 0x22 ∷ 0xd6 ∷ 0xe7 ∷ 0x4a ∷ 0x4b ∷ 0xec ∷ 0x23 ∷ 0xe2
        ∷ 0x5b ∷ 0xe2 ∷ 0x36 ∷ 0x5c ∷ 0x14 ∷ 0x05 ∷ [])
    ∷ (0x76 ∷ 0x7f ∷ 0x88 ∷ 0x07 ∷ 0xf5 ∷ 0xcb ∷ 0xc9 ∷ 0xed ∷ 0x9d ∷ 0x0d ∷ 0x59 ∷ 0x15 ∷ 0x7d
        ∷ 0xa2 ∷ 0x5b ∷ 0x7a ∷ 0xb0 ∷ 0x0f ∷ 0x0c ∷ 0x86 ∷ 0xf4 ∷ 0x17 ∷ 0x31 ∷ 0xe1 ∷ 0xb5 ∷ 0xd0
        ∷ 0xb3 ∷ 0x81 ∷ 0x48 ∷ 0xeb ∷ 0x6f ∷ 0xac ∷ [])
    ∷ (0x6b ∷ 0x5a ∷ 0x00 ∷ 0x08 ∷ 0x5d ∷ 0xbe ∷ 0x1a ∷ 0xf0 ∷ 0x5e ∷ 0xda ∷ 0xfb ∷ 0x83 ∷ 0x70
        ∷ 0x50 ∷ 0xe3 ∷ 0xbc ∷ 0x86 ∷ 0x7d ∷ 0x97 ∷ 0x6d ∷ 0x99 ∷ 0x57 ∷ 0x4c ∷ 0x21 ∷ 0xc9 ∷ 0x63
        ∷ 0x3e ∷ 0x04 ∷ 0x53 ∷ 0x49 ∷ 0x55 ∷ 0x56 ∷ [])
    ∷ (0x6c ∷ 0x63 ∷ 0xd9 ∷ 0xff ∷ 0x8a ∷ 0xe4 ∷ 0xa0 ∷ 0x4b ∷ 0x35 ∷ 0xff ∷ 0x95 ∷ 0x49 ∷ 0x69
        ∷ 0xcc ∷ 0x61 ∷ 0x57 ∷ 0x6f ∷ 0xff ∷ 0xe2 ∷ 0xc0 ∷ 0x95 ∷ 0x91 ∷ 0x0c ∷ 0x6b ∷ 0xa4 ∷ 0xc6
        ∷ 0x77 ∷ 0x09 ∷ 0xa3 ∷ 0x5a ∷ 0x66 ∷ 0xba ∷ [])
    ∷ (0x14 ∷ 0xb7 ∷ 0x96 ∷ 0xf3 ∷ 0x24 ∷ 0xa5 ∷ 0x50 ∷ 0x19 ∷ 0x95 ∷ 0x74 ∷ 0x6d ∷ 0xd9 ∷ 0xcc
        ∷ 0xb1 ∷ 0xdd ∷ 0x2e ∷ 0xdf ∷ 0x25 ∷ 0x3f ∷ 0x06 ∷ 0x24 ∷ 0x0c ∷ 0x8c ∷ 0x15 ∷ 0xb7 ∷ 0x13
        ∷ 0x85 ∷ 0xf8 ∷ 0x07 ∷ 0xf3 ∷ 0x2e ∷ 0xcf ∷ [])
    ∷ (0xc9 ∷ 0x49 ∷ 0x02 ∷ 0x5c ∷ 0x95 ∷ 0xaa ∷ 0x36 ∷ 0xbe ∷ 0xb9 ∷ 0x6b ∷ 0x27 ∷ 0xd7 ∷ 0x64
        ∷ 0xfe ∷ 0x1f ∷ 0xc4 ∷ 0x5c ∷ 0x22 ∷ 0x8c ∷ 0x08 ∷ 0x07 ∷ 0x6a ∷ 0x21 ∷ 0xb6 ∷ 0x50 ∷ 0x4e
        ∷ 0xdd ∷ 0x50 ∷ 0xa4 ∷ 0xb6 ∷ 0x05 ∷ 0x63 ∷ [])
    ∷ (0xcb ∷ 0xf8 ∷ 0x62 ∷ 0x97 ∷ 0x23 ∷ 0x4d ∷ 0x8c ∷ 0x28 ∷ 0xde ∷ 0x33 ∷ 0x4b ∷ 0x4d ∷ 0xce
        ∷ 0x77 ∷ 0x4d ∷ 0xfb ∷ 0xb3 ∷ 0xcc ∷ 0xae ∷ 0xfe ∷ 0xc8 ∷ 0x10 ∷ 0xe9 ∷ 0xae ∷ 0x70 ∷ 0x08
        ∷ 0xbc ∷ 0x09 ∷ 0xfb ∷ 0xfa ∷ 0x41 ∷ 0xfc ∷ [])
    ∷ (0x94 ∷ 0xc2 ∷ 0x11 ∷ 0xe2 ∷ 0xbd ∷ 0x17 ∷ 0xb0 ∷ 0x98 ∷ 0x47 ∷ 0xaa ∷ 0x61 ∷ 0xc3 ∷ 0x4d
        ∷ 0x00 ∷ 0x8b ∷ 0x91 ∷ 0x11 ∷ 0xfd ∷ 0xc4 ∷ 0x3d ∷ 0x0c ∷ 0x0e ∷ 0xe8 ∷ 0x64 ∷ 0x20 ∷ 0x26
        ∷ 0x49 ∷ 0x17 ∷ 0xc8 ∷ 0x11 ∷ 0x57 ∷ 0xa0 ∷ [])
    ∷ (0x8f ∷ 0xbf ∷ 0xa5 ∷ 0xaa ∷ 0x83 ∷ 0x99 ∷ 0xb0 ∷ 0xab ∷ 0xbe ∷ 0x2e ∷ 0xfc ∷ 0x8a ∷ 0x9e
        ∷ 0x79 ∷ 0xfd ∷ 0x11 ∷ 0x4a ∷ 0x2b ∷ 0xc6 ∷ 0xa5 ∷ 0x1d ∷ 0x93 ∷ 0x98 ∷ 0xb8 ∷ 0x0e ∷ 0xb7
        ∷ 0x88 ∷ 0x73 ∷ 0xa0 ∷ 0x4c ∷ 0x77 ∷ 0xb4 ∷ [])
    ∷ (0xa6 ∷ 0xbd ∷ 0x0e ∷ 0x7c ∷ 0x84 ∷ 0x0a ∷ 0xc4 ∷ 0xe6 ∷ 0x10 ∷ 0x2c ∷ 0xf9 ∷ 0xa5 ∷ 0xfb
        ∷ 0x57 ∷ 0x8d ∷ 0xb0 ∷ 0x3b ∷ 0x63 ∷ 0xae ∷ 0x46 ∷ 0x6f ∷ 0x17 ∷ 0x83 ∷ 0xa9 ∷ 0x6e ∷ 0xde
        ∷ 0x9e ∷ 0xdb ∷ 0x65 ∷ 0x05 ∷ 0xff ∷ 0x6f ∷ [])
    ∷ (0x3c ∷ 0xc9 ∷ 0x5a ∷ 0x92 ∷ 0xd2 ∷ 0x1e ∷ 0xbd ∷ 0x75 ∷ 0xb3 ∷ 0xbe ∷ 0xf7 ∷ 0xa0 ∷ 0xbe
        ∷ 0x3a ∷ 0x00 ∷ 0x50 ∷ 0x15 ∷ 0x49 ∷ 0x10 ∷ 0x60 ∷ 0x8d ∷ 0xb3 ∷ 0x92 ∷ 0x38 ∷ 0xb0 ∷ 0xdc
        ∷ 0xad ∷ 0x98 ∷ 0xf3 ∷ 0x15 ∷ 0x31 ∷ 0xe0 ∷ [])
    ∷ (0x51 ∷ 0xfe ∷ 0xfb ∷ 0x3e ∷ 0xfb ∷ 0xd4 ∷ 0x42 ∷ 0x86 ∷ 0x3b ∷ 0x4b ∷ 0xcd ∷ 0x2f ∷ 0xd3
        ∷ 0x5d ∷ 0x88 ∷ 0x2c ∷ 0x20 ∷ 0xdc ∷ 0x75 ∷ 0x9b ∷ 0x61 ∷ 0x0b ∷ 0x7e ∷ 0x05 ∷ 0x6e ∷ 0x42
        ∷ 0x0b ∷ 0x1e ∷ 0x83 ∷ 0xaf ∷ 0xe2 ∷ 0x53 ∷ [])
    ∷ (0x30 ∷ 0x1f ∷ 0xf1 ∷ 0x38 ∷ 0xf4 ∷ 0x6d ∷ 0x94 ∷ 0xe3 ∷ 0xba ∷ 0xf9 ∷ 0x50 ∷ 0xb1 ∷ 0x03
        ∷ 0xe3 ∷ 0xe4 ∷ 0x42 ∷ 0x8f ∷ 0xa5 ∷ 0xe1 ∷ 0x83 ∷ 0x5c ∷ 0x84 ∷ 0x8c ∷ 0x34 ∷ 0x99 ∷ 0xbf
        ∷ 0x68 ∷ 0x92 ∷ 0x9d ∷ 0x0a ∷ 0x76 ∷ 0xc8 ∷ [])
    ∷ (0xf1 ∷ 0x96 ∷ 0x8c ∷ 0x5c ∷ 0x46 ∷ 0xbe ∷ 0x9f ∷ 0xb0 ∷ 0x71 ∷ 0xbe ∷ 0x05 ∷ 0x3c ∷ 0x53
        ∷ 0x09 ∷ 0x9f ∷ 0xed ∷ 0xf5 ∷ 0x43 ∷ 0xa0 ∷ 0xe2 ∷ 0x5a ∷ 0xcd ∷ 0x22 ∷ 0x9d ∷ 0xb3 ∷ 0x62
        ∷ 0x94 ∷ 0x5b ∷ 0x96 ∷ 0xc1 ∷ 0x86 ∷ 0x5b ∷ [])
    ∷ (0x10 ∷ 0x63 ∷ 0xeb ∷ 0x0c ∷ 0x5c ∷ 0x8f ∷ 0x4a ∷ 0x6d ∷ 0x4a ∷ 0x41 ∷ 0x08 ∷ 0xb5 ∷ 0xd7
        ∷ 0x9c ∷ 0x35 ∷ 0x1a ∷ 0xfb ∷ 0x19 ∷ 0xc3 ∷ 0x8a ∷ 0x69 ∷ 0x3f ∷ 0xa6 ∷ 0xce ∷ 0x3a ∷ 0xbd
        ∷ 0x5a ∷ 0x76 ∷ 0x14 ∷ 0x69 ∷ 0xe1 ∷ 0x9e ∷ [])
    ∷ (0xbd ∷ 0x4d ∷ 0x2e ∷ 0x94 ∷ 0x88 ∷ 0x54 ∷ 0xcd ∷ 0x01 ∷ 0xf8 ∷ 0xd6 ∷ 0xe9 ∷ 0x72 ∷ 0xf3
        ∷ 0x6d ∷ 0x35 ∷ 0x10 ∷ 0xab ∷ 0xb4 ∷ 0x8a ∷ 0x77 ∷ 0x76 ∷ 0xc1 ∷ 0xf4 ∷ 0xfb ∷ 0xc1 ∷ 0xce
        ∷ 0x1c ∷ 0xa7 ∷ 0xe8 ∷ 0xa2 ∷ 0x77 ∷ 0x7c ∷ [])
    ∷ []
