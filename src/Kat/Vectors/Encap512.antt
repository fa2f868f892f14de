-- ===== src/Kat/Vectors/Encap512.antt =====
-- firmware/esp32s3-dut/main/acvp_vectors.h: the rows of 32 bytes of the ML-KEM-512 Encap vectors.
use pqc_esp32s3_benchmarks.Prelude.{ℕ, List, [], ◌∷◌}

abbrev pub kat512_encap_m : List (List ℕ)
kat512_encap_m =
    (0xdc ∷ 0xac ∷ 0xfe ∷ 0x4d ∷ 0xe1 ∷ 0xc1 ∷ 0x15 ∷ 0xda ∷ 0x10 ∷ 0x6a ∷ 0xcd ∷ 0x1e ∷ 0xef ∷ 0xea
      ∷ 0xfd ∷ 0xc7 ∷ 0xf0 ∷ 0xf4 ∷ 0xe5 ∷ 0x70 ∷ 0x74 ∷ 0x53 ∷ 0xee ∷ 0x2d ∷ 0x6b ∷ 0x0d ∷ 0x69
      ∷ 0xd3 ∷ 0x4c ∷ 0xc0 ∷ 0xef ∷ 0x4a ∷ [])
    ∷ (0xae ∷ 0x20 ∷ 0xc9 ∷ 0xec ∷ 0x43 ∷ 0x38 ∷ 0xea ∷ 0x98 ∷ 0x10 ∷ 0x44 ∷ 0xef ∷ 0x1a ∷ 0x50
        ∷ 0xbe ∷ 0x66 ∷ 0x91 ∷ 0x05 ∷ 0x59 ∷ 0x52 ∷ 0x5a ∷ 0x02 ∷ 0x0e ∷ 0x87 ∷ 0x02 ∷ 0x6b ∷ 0xda
        ∷ 0xa7 ∷ 0x8d ∷ 0x3b ∷ 0x1a ∷ 0xea ∷ 0x5d ∷ [])
    ∷ (0xd3 ∷ 0x44 ∷ 0x38 ∷ 0x60 ∷ 0x42 ∷ 0x07 ∷ 0xe7 ∷ 0x23 ∷ 0x0a ∷ 0x81 ∷ 0x91 ∷ 0x73 ∷ 0xc4
        ∷ 0xcb ∷ 0x6f ∷ 0x41 ∷ 0x1e ∷ 0xbc ∷ 0xe6 ∷ 0xe6 ∷ 0x53 ∷ 0x88 ∷ 0xca ∷ 0xf2 ∷ 0xf6 ∷ 0xf9
        ∷ 0xa8 ∷ 0xf7 ∷ 0x73 ∷ 0x89 ∷ 0x15 ∷ 0x9a ∷ [])
    ∷ (0x6d ∷ 0x90 ∷ 0xf3 ∷ 0x03 ∷ 0x11 ∷ 0x1b ∷ 0x01 ∷ 0x0a ∷ 0x95 ∷ 0x95 ∷ 0x3a ∷ 0x22 ∷ 0x2b
        ∷ 0xd9 ∷ 0xf2 ∷ 0x59 ∷ 0x33 ∷ 0x1e ∷ 0x37 ∷ 0xe7 ∷ 0xfb ∷ 0x8d ∷ 0x41 ∷ 0xfa ∷ 0xfd ∷ 0x6d
        ∷ 0xdf ∷ 0x13 ∷ 0x54 ∷ 0xdd ∷ 0x87 ∷ 0x0f ∷ [])
    ∷ (0x27 ∷ 0xcc ∷ 0xf7 ∷ 0xe3 ∷ 0x3d ∷ 0x87 ∷ 0x88 ∷ 0xe3 ∷ 0xd3 ∷ 0x17 ∷ 0xba ∷ 0xc9 ∷ 0x92
        ∷ 0xca ∷ 0x8b ∷ 0xe9 ∷ 0xc2 ∷ 0x96 ∷ 0x21 ∷ 0xf6 ∷ 0xb3 ∷ 0x60 ∷ 0x58 ∷ 0x4c ∷ 0x3d ∷ 0xeb
        ∷ 0xaa ∷ 0x6e ∷ 0xc9 ∷ 0xf0 ∷ 0x91 ∷ 0x3d ∷ [])
    ∷ (0xbd ∷ 0xc6 ∷ 0x64 ∷ 0xa0 ∷ 0xa0 ∷ 0x68 ∷ 0x53 ∷ 0x26 ∷ 0x98 ∷ 0xda ∷ 0x06 ∷ 0x1e ∷ 0xbe
        ∷ 0x65 ∷ 0xb6 ∷ 0x98 ∷ 0x93 ∷ 0xd7 ∷ 0x32 ∷ 0x83 ∷ 0xb5 ∷ 0xde ∷ 0xdd ∷ 0x0d ∷ 0x15 ∷ 0x47
        ∷ 0x3f ∷ 0xd3 ∷ 0x62 ∷ 0x95 ∷ 0xd3 ∷ 0x35 ∷ [])
    ∷ (0xfa ∷ 0xbe ∷ 0xc4 ∷ 0xd1 ∷ 0xdf ∷ 0x36 ∷ 0xb2 ∷ 0x61 ∷ 0x67 ∷ 0x3a ∷ 0x99 ∷ 0xcd ∷ 0x6e
        ∷ 0x20 ∷ 0x31 ∷ 0x53 ∷ 0xc0 ∷ 0xef ∷ 0x72 ∷ 0xcd ∷ 0xa4 ∷ 0xea ∷ 0xe8 ∷ 0xe0 ∷ 0x31 ∷ 0xc5
        ∷ 0xe6 ∷ 0xeb ∷ 0x7a ∷ 0xbf ∷ 0x38 ∷ 0x8c ∷ [])
    ∷ (0x23 ∷ 0xd8 ∷ 0x4a ∷ 0xe7 ∷ 0x33 ∷ 0xa7 ∷ 0xcb ∷ 0x70 ∷ 0xd9 ∷ 0x01 ∷ 0xe9 ∷ 0x33 ∷ 0xe4
        ∷ 0x77 ∷ 0xe2 ∷ 0xf4 ∷ 0x75 ∷ 0x2a ∷ 0xea ∷ 0xdb ∷ 0xea ∷ 0xd6 ∷ 0x1b ∷ 0xbd ∷ 0x37 ∷ 0xc4
        ∷ 0x3a ∷ 0x00 ∷ 0xcb ∷ 0xdd ∷ 0xf9 ∷ 0x64 ∷ [])
    ∷ (0x65 ∷ 0xb5 ∷ 0xbd ∷ 0x67 ∷ 0x3d ∷ 0x78 ∷ 0xa7 ∷ 0x96 ∷ 0x92 ∷ 0x53 ∷ 0xa9 ∷ 0xa4 ∷ 0x3e
        ∷ 0xa5 ∷ 0xe0 ∷ 0xe2 ∷ 0xfe ∷ 0xc7 ∷ 0x73 ∷ 0xfd ∷ 0x7d ∷ 0x7b ∷ 0x9e ∷ 0x56 ∷ 0x15 ∷ 0xcf
        ∷ 0xa2 ∷ 0xb3 ∷ 0xed ∷ 0x83 ∷ 0x62 ∷ 0xc6 ∷ [])
    ∷ (0x05 ∷ 0x18 ∷ 0x9a ∷ 0x9d ∷ 0xb8 ∷ 0x9b ∷ 0x37 ∷ 0x9e ∷ 0x16 ∷ 0xf1 ∷ 0x2e ∷ 0x7c ∷ 0xb1
        ∷ 0xd3 ∷ 0x94 ∷ 0x92 ∷ 0x89 ∷ 0x8a ∷ 0xc3 ∷ 0x6e ∷ 0xd4 ∷ 0xbb ∷ 0x9f ∷ 0x39 ∷ 0x14 ∷ 0x23
        ∷ 0xb1 ∷ 0x23 ∷ 0x15 ∷ 0x90 ∷ 0x5e ∷ 0x57 ∷ [])
    ∷ (0x73 ∷ 0x50 ∷ 0x90 ∷ 0x93 ∷ 0x34 ∷ 0x5a ∷ 0x03 ∷ 0xf8 ∷ 0x7a ∷ 0xff ∷ 0xa3 ∷ 0x26 ∷ 0xa9
        ∷ 0xb6 ∷ 0x2b ∷ 0x2b ∷ 0x82 ∷ 0x0e ∷ 0x5a ∷ 0xd5 ∷ 0x9c ∷ 0xef ∷ 0x4b ∷ 0xf7 ∷ 0x5d ∷ 0x6d
        ∷ 0xbf ∷ 0x41 ∷ 0xe4 ∷ 0x15 ∷ 0xa6 ∷ 0x1a ∷ [])
    ∷ (0x54 ∷ 0x80 ∷ 0x34 ∷ 0x80 ∷ 0xb0 ∷ 0xd4 ∷ 0xa4 ∷ 0x52 ∷ 0x80 ∷ 0xc3 ∷ 0xdc ∷ 0x36 ∷ 0x32
        ∷ 0x5c ∷ 0x3f ∷ 0x75 ∷ 0x80 ∷ 0xb2 ∷ 0x03 ∷ 0x9a ∷ 0xed ∷ 0xb7 ∷ 0x02 ∷ 0xcf ∷ 0xf8 ∷ 0xc3
        ∷ 0x65 ∷ 0x51 ∷ 0x12 ∷ 0xb5 ∷ 0x24 ∷ 0x80 ∷ [])
    ∷ (0x98 ∷ 0xec ∷ 0x60 ∷ 0x41 ∷ 0xe0 ∷ 0x51 ∷ 0x96 ∷ 0x9f ∷ 0xe0 ∷ 0x78 ∷ 0x10 ∷ 0x82 ∷ 0x8e
        ∷ 0x82 ∷ 0x4b ∷ 0xa0 ∷ 0x27 ∷ 0x23 ∷ 0x1d ∷ 0xc2 ∷ 0x5b ∷ 0x82 ∷ 0x49 ∷ 0x12 ∷ 0x01 ∷ 0xb1
        ∷ 0x2c ∷ 0x16 ∷ 0xe6 ∷ 0xea ∷ 0xbb ∷ 0xb5 ∷ [])
    ∷ (0x06 ∷ 0xf9 ∷ 0x5c ∷ 0xc3 ∷ 0x11 ∷ 0x4a ∷ 0x47 ∷ 0xf2 ∷ 0xd5 ∷ 0x65 ∷ 0xd7 ∷ 0x37 ∷ 0x2a
        ∷ 0x75 ∷ 0xeb ∷ 0xb2 ∷ 0xee ∷ 0xfc ∷ 0xe0 ∷ 0xcc ∷ 0x74 ∷ 0x1a ∷ 0x83 ∷ 0xc9 ∷ 0x48 ∷ 0xac
        ∷ 0x07 ∷ 0x1d ∷ 0xef ∷ 0x5f ∷ 0xdc ∷ 0x9d ∷ [])
    ∷ (0x4b ∷ 0x4f ∷ 0xa2 ∷ 0x62 ∷ 0x01 ∷ 0xb2 ∷ 0xb5 ∷ 0x2e ∷ 0x95 ∷ 0xa6 ∷ 0x4b ∷ 0x9b ∷ 0x0c
        ∷ 0xee ∷ 0xbd ∷ 0x1f ∷ 0x4f ∷ 0x20 ∷ 0xf8 ∷ 0x3a ∷ 0xcd ∷ 0xd3 ∷ 0x5f ∷ 0x2a ∷ 0x65 ∷ 0x13
        ∷ 0xcf ∷ 0x85 ∷ 0x4d ∷ 0x66 ∷ 0xcb ∷ 0x2f ∷ [])
    ∷ (0x55 ∷ 0x59 ∷ 0xae ∷ 0x22 ∷ 0xe6 ∷ 0xe5 ∷ 0x1d ∷ 0x79 ∷ 0x83 ∷ 0x1a ∷ 0x8d ∷ 0xed ∷ 0x32
        ∷ 0x29 ∷ 0x74 ∷ 0x1d ∷ 0x56 ∷ 0x34 ∷ 0x23 ∷ 0xe4 ∷ 0xa4 ∷ 0xec ∷ 0x25 ∷ 0xa8 ∷ 0xe1 ∷ 0xab
        ∷ 0xb7 ∷ 0xfc ∷ 0xb0 ∷ 0x36 ∷ 0x7c ∷ 0xf4 ∷ [])
    ∷ (0x26 ∷ 0x82 ∷ 0x1b ∷ 0xfb ∷ 0x99 ∷ 0xb1 ∷ 0x46 ∷ 0xc6 ∷ 0x28 ∷ 0xf1 ∷ 0xc0 ∷ 0x05 ∷ 0xd2
        ∷ 0x32 ∷ 0x04 ∷ 0x78 ∷ 0x11 ∷ 0x1c ∷ 0x58 ∷ 0xab ∷ 0xbd ∷ 0x86 ∷ 0xf8 ∷ 0xb9 ∷ 0x8f ∷ 0x73
        ∷ 0x05 ∷ 0x10 ∷ 0xa9 ∷ 0x6e ∷ 0x16 ∷ 0xe9 ∷ [])
    ∷ (0x70 ∷ 0x07 ∷ 0xa6 ∷ 0xf8 ∷ 0x19 ∷ 0x70 ∷ 0x0f ∷ 0x34 ∷ 0x3e ∷ 0x6e ∷ 0x68 ∷ 0xf2 ∷ 0xb2
        ∷ 0x4a ∷ 0xa7 ∷ 0xd2 ∷ 0xa8 ∷ 0xf7 ∷ 0xc6 ∷ 0x75 ∷ 0x10 ∷ 0xf3 ∷ 0xe5 ∷ 0x4c ∷ 0x6b ∷ 0x70
        ∷ 0x97 ∷ 0x79 ∷ 0x2b ∷ 0x39 ∷ 0xe5 ∷ 0x90 ∷ [])
    ∷ (0xde ∷ 0xd4 ∷ 0x9c ∷ 0x07 ∷ 0xfc ∷ 0x9f ∷ 0x00 ∷ 0xa4 ∷ 0xdc ∷ 0x80 ∷ 0x7b ∷ 0x5f ∷ 0xc8
        ∷ 0x59 ∷ 0x12 ∷ 0xe6 ∷ 0x71 ∷ 0x67 ∷ 0x4f ∷ 0x70 ∷ 0x68 ∷ 0x3e ∷ 0x79 ∷ 0x0f ∷ 0xde ∷ 0x70
        ∷ 0x4a ∷ 0x2c ∷ 0x6d ∷ 0xe5 ∷ 0x50 ∷ 0x4f ∷ [])
    ∷ (0xc9 ∷ 0x86 ∷ 0x31 ∷ 0xa0 ∷ 0x0c ∷ 0xae ∷ 0x24 ∷ 0x10 ∷ 0xe0 ∷ 0x6c ∷ 0xcd ∷ 0x31 ∷ 0xac
        ∷ 0xb0 ∷ 0x2f ∷ 0xfb ∷ 0xec ∷ 0xc4 ∷ 0x35 ∷ 0x46 ∷ 0xd6 ∷ 0xbf ∷ 0xe9 ∷ 0xc6 ∷ 0x9a ∷ 0x5c
        ∷ 0x43 ∷ 0x5a ∷ 0x35 ∷ 0xd8 ∷ 0xf0 ∷ 0x29 ∷ [])
    ∷ (0x4d ∷ 0xad ∷ 0x9e ∷ 0x2b ∷ 0xed ∷ 0x51 ∷ 0x5c ∷ 0x84 ∷ 0x6c ∷ 0x2e ∷ 0xe9 ∷ 0xa5 ∷ 0xcc
        ∷ 0xcf ∷ 0x7a ∷ 0x73 ∷ 0x86 ∷ 0x38 ∷ 0x82 ∷ 0x76 ∷ 0x9b ∷ 0xc1 ∷ 0x30 ∷ 0x3c ∷ 0x59 ∷ 0xc7
        ∷ 0x97 ∷ 0x8d ∷ 0x5c ∷ 0xb8 ∷ 0x7a ∷ 0xaf ∷ [])
    ∷ (0x31 ∷ 0x25 ∷ 0x18 ∷ 0xd5 ∷ 0x9a ∷ 0x94 ∷ 0xd1 ∷ 0xe7 ∷ 0x2c ∷ 0x02 ∷ 0xf1 ∷ 0x99 ∷ 0x54
        ∷ 0xfc ∷ 0x87 ∷ 0x4f ∷ 0xd9 ∷ 0x3f ∷ 0x0e ∷ 0x24 ∷ 0x2a ∷ 0x85 ∷ 0x35 ∷ 0x7e ∷ 0x8a ∷ 0x58
        ∷ 0xfb ∷ 0x0e ∷ 0x5f ∷ 0xd4 ∷ 0x98 ∷ 0x84 ∷ [])
    ∷ (0x4c ∷ 0x07 ∷ 0x67 ∷ 0xd3 ∷ 0x14 ∷ 0x43 ∷ 0x30 ∷ 0x75 ∷ 0xfe ∷ 0xea ∷ 0x3b ∷ 0x5b ∷ 0xc0
        ∷ 0x1d ∷ 0xd2 ∷ 0x59 ∷ 0xe7 ∷ 0x40 ∷ 0x88 ∷ 0xe7 ∷ 0x81 ∷ 0xae ∷ 0xb7 ∷ 0x51 ∷ 0xc7 ∷ 0x70
        ∷ 0xac ∷ 0x9d ∷ 0xea ∷ 0x01 ∷ 0xf4 ∷ 0x1a ∷ [])
    ∷ (0xd0 ∷ 0x86 ∷ 0x1b ∷ 0x5d ∷ 0x4d ∷ 0xdc ∷ 0xde ∷ 0x78 ∷ 0xa9 ∷ 0x2c ∷ 0x09 ∷ 0x1d ∷ 0xc7
        ∷ 0xe9 ∷ 0xc2 ∷ 0xfb ∷ 0x1c ∷ 0x85 ∷ 0xe1 ∷ 0xfe ∷ 0x4f ∷ 0xdd ∷ 0x36 ∷ 0x7a ∷ 0x52 ∷ 0x65
        ∷ 0xca ∷ 0xb5 ∷ 0x1f ∷ 0x11 ∷ 0x54 ∷ 0x3f ∷ [])
    ∷ (0x33 ∷ 0x88 ∷ 0x9d ∷ 0x8c ∷ 0xaa ∷ 0xa0 ∷ 0x55 ∷ 0x6d ∷ 0xe9 ∷ 0x45 ∷ 0xac ∷ 0xb8 ∷ 0xad
        ∷ 0x83 ∷ 0xbb ∷ 0x98 ∷ 0x6d ∷ 0x8a ∷ 0x1e ∷ 0xde ∷ 0x79 ∷ 0xd9 ∷ 0xa3 ∷ 0xc1 ∷ 0x64 ∷ 0xf4
        ∷ 0x87 ∷ 0x88 ∷ 0x15 ∷ 0xb5 ∷ 0xb5 ∷ 0x85 ∷ [])
    ∷ []

abbrev pub kat512_encap_k : List (List ℕ)
kat512_encap_k =
    (0x2d ∷ 0x74 ∷ 0x37 ∷ 0x4b ∷ 0x55 ∷ 0xd2 ∷ 0x9a ∷ 0xa5 ∷ 0x85 ∷ 0xe1 ∷ 0x44 ∷ 0xa2 ∷ 0x9b ∷ 0xa4
      ∷ 0xf0 ∷ 0xa9 ∷ 0x65 ∷ 0x37 ∷ 0xa7 ∷ 0x3b ∷ 0x4f ∷ 0x17 ∷ 0x6c ∷ 0x55 ∷ 0x27 ∷ 0x07 ∷ 0x5f
      ∷ 0x66 ∷ 0xe3 ∷ 0x8e ∷ 0x88 ∷ 0x58 ∷ [])
    ∷ (0x00 ∷ 0xba ∷ 0x55 ∷ 0xe7 ∷ 0x69 ∷ 0xf2 ∷ 0x6c ∷ 0xe2 ∷ 0x9f ∷ 0xfa ∷ 0x7e ∷ 0x08 ∷ 0xa9
        ∷ 0x28 ∷ 0x45 ∷ 0xb1 ∷ 0x85 ∷ 0x9e ∷ 0xca ∷ 0x3b ∷ 0xb4 ∷ 0xa1 ∷ 0x42 ∷ 0x54 ∷ 0x17 ∷ 0xc4
        ∷ 0x2a ∷ 0x45 ∷ 0x2f ∷ 0x33 ∷ 0x4e ∷ 0xd4 ∷ [])
    ∷ (0x54 ∷ 0x1b ∷ 0x27 ∷ 0x14 ∷ 0xc6 ∷ 0x43 ∷ 0xfd ∷ 0x30 ∷ 0x7a ∷ 0xb0 ∷ 0x77 ∷ 0x7d ∷ 0x2c
        ∷ 0x00 ∷ 0xd5 ∷ 0xac ∷ 0x67 ∷ 0xaa ∷ 0xf7 ∷ 0x64 ∷ 0xf4 ∷ 0x3a ∷ 0x79 ∷ 0x03 ∷ 0x98 ∷ 0x3a
        ∷ 0xbd ∷ 0x9f ∷ 0xf6 ∷ 0xf7 ∷ 0x09 ∷ 0x34 ∷ [])
    ∷ (0xad ∷ 0xb1 ∷ 0xc8 ∷ 0xb3 ∷ 0x7e ∷ 0x3d ∷ 0xfc ∷ 0xe1 ∷ 0x48 ∷ 0x1c ∷ 0x16 ∷ 0x9e ∷ 0x36
        ∷ 0x9c ∷ 0x9c ∷ 0x61 ∷ 0xe3 ∷ 0xcc ∷ 0x35 ∷ 0x8c ∷ 0xb5 ∷ 0x15 ∷ 0x0f ∷ 0xc6 ∷ 0x70 ∷ 0xce
        ∷ 0x07 ∷ 0x45 ∷ 0x8c ∷ 0x9b ∷ 0xbd ∷ 0xe0 ∷ [])
    ∷ (0xf3 ∷ 0x6f ∷ 0x55 ∷ 0x26 ∷ 0x6e ∷ 0xe8 ∷ 0xab ∷ 0xfe ∷ 0x00 ∷ 0x63 ∷ 0x45 ∷ 0x93 ∷ 0xea
        ∷ 0x8c ∷ 0xd8 ∷ 0x7f ∷ 0x17 ∷ 0x61 ∷ 0x28 ∷ 0x75 ∷ 0x3a ∷ 0x71 ∷ 0xd9 ∷ 0x76 ∷ 0xe0 ∷ 0x70
        ∷ 0x0d ∷ 0xc5 ∷ 0xb9 ∷ 0xa2 ∷ 0xa1 ∷ 0x59 ∷ [])
    ∷ (0xa4 ∷ 0x79 ∷ 0x43 ∷ 0xe7 ∷ 0xe3 ∷ 0x81 ∷ 0x00 ∷ 0xb0 ∷ 0x2b ∷ 0xa5 ∷ 0x5a ∷ 0xe2 ∷ 0x8e
        ∷ 0xbb ∷ 0xb0 ∷ 0x38 ∷ 0x94 ∷ 0xc1 ∷ 0x5f ∷ 0x01 ∷ 0xa0 ∷ 0x45 ∷ 0xca ∷ 0x92 ∷ 0x31 ∷ 0x57
        ∷ 0x67 ∷ 0x62 ∷ 0x79 ∷ 0x5a ∷ 0xc4 ∷ 0xcd ∷ [])
    ∷ (0x11 ∷ 0xcc ∷ 0x3e ∷ 0x5a ∷ 0x83 ∷ 0x6b ∷ 0xa9 ∷ 0x5d ∷ 0xe7 ∷ 0x8b ∷ 0x42 ∷ 0x9e ∷ 0xe4
        ∷ 0x44 ∷ 0xfd ∷ 0x9a ∷ 0x83 ∷ 0x3b ∷ 0xf1 ∷ 0xa6 ∷ 0x2a ∷ 0x24 ∷ 0xd5 ∷ 0xc2 ∷ 0xf7 ∷ 0x0d
        ∷ 0x37 ∷ 0x24 ∷ 0x86 ∷ 0xa0 ∷ 0x0e ∷ 0x8e ∷ [])
    ∷ (0xe2 ∷ 0x90 ∷ 0xcd ∷ 0x84 ∷ 0x27 ∷ 0xfd ∷ 0xff ∷ 0x72 ∷ 0x16 ∷ 0x0d ∷ 0x98 ∷ 0x67 ∷ 0x17
        ∷ 0x30 ∷ 0xfe ∷ 0x6d ∷ 0xfa ∷ 0xd2 ∷ 0x8f ∷ 0x21 ∷ 0x3e ∷ 0x5c ∷ 0xe2 ∷ 0xc3 ∷ 0xce ∷ 0x17
        ∷ 0x67 ∷ 0x6d ∷ 0x3a ∷ 0x3b ∷ 0x63 ∷ 0xa3 ∷ [])
    ∷ (0x88 ∷ 0x91 ∷ 0xc3 ∷ 0x77 ∷ 0x66 ∷ 0x4a ∷ 0x99 ∷ 0xc6 ∷ 0xee ∷ 0x30 ∷ 0x3d ∷ 0xa8 ∷ 0x42
        ∷ 0x78 ∷ 0x6d ∷ 0x9a ∷ 0xd5 ∷ 0xb6 ∷ 0x40 ∷ 0xbe ∷ 0xed ∷ 0x47 ∷ 0x5b ∷ 0xb5 ∷ 0xdc ∷ 0x7d
        ∷ 0x41 ∷ 0x8e ∷ 0xc6 ∷ 0x9a ∷ 0x4e ∷ 0x4c ∷ [])
    ∷ (0xd3 ∷ 0xcb ∷ 0x0f ∷ 0x72 ∷ 0x70 ∷ 0x5c ∷ 0x89 ∷ 0x76 ∷ 0xe8 ∷ 0x68 ∷ 0xd5 ∷ 0xc2 ∷ 0xa1
        ∷ 0xc0 ∷ 0xba ∷ 0x09 ∷ 0xfd ∷ 0x0c ∷ 0x3c ∷ 0x90 ∷ 0xa0 ∷ 0xae ∷ 0xda ∷ 0xd2 ∷ 0x94 ∷ 0x59
        ∷ 0x5a ∷ 0x94 ∷ 0xb6 ∷ 0x55 ∷ 0x34 ∷ 0xe5 ∷ [])
    ∷ (0x4d ∷ 0x3d ∷ 0x3c ∷ 0xc8 ∷ 0x87 ∷ 0x7c ∷ 0x02 ∷ 0x0d ∷ 0x0c ∷ 0xe5 ∷ 0x8d ∷ 0xe3 ∷ 0xce
        ∷ 0xad ∷ 0xde ∷ 0x4e ∷ 0x09 ∷ 0xe0 ∷ 0x7d ∷ 0xd4 ∷ 0x96 ∷ 0xaa ∷ 0xb0 ∷ 0xa9 ∷ 0x74 ∷ 0x38
        ∷ 0x9d ∷ 0x68 ∷ 0xe7 ∷ 0x7d ∷ 0x70 ∷ 0xae ∷ [])
    ∷ (0xd5 ∷ 0x38 ∷ 0x5c ∷ 0xcc ∷ 0xf0 ∷ 0x03 ∷ 0xf6 ∷ 0xbd ∷ 0x60 ∷ 0x56 ∷ 0x6a ∷ 0x45 ∷ 0x75
        ∷ 0x5a ∷ 0x94 ∷ 0x53 ∷ 0xaf ∷ 0x7b ∷ 0x57 ∷ 0x5b ∷ 0xaf ∷ 0xea ∷ 0x67 ∷ 0x85 ∷ 0x5f ∷ 0x18
        ∷ 0x42 ∷ 0xe4 ∷ 0xd6 ∷ 0x4d ∷ 0x40 ∷ 0x8a ∷ [])
    ∷ (0xf4 ∷ 0x74 ∷ 0x3f ∷ 0x7f ∷ 0x28 ∷ 0xda ∷ 0x2b ∷ 0x76 ∷ 0xd0 ∷ 0xf7 ∷ 0xd0 ∷ 0x87 ∷ 0x75
        ∷ 0x1b ∷ 0x40 ∷ 0x3c ∷ 0x70 ∷ 0x86 ∷ 0x71 ∷ 0x13 ∷ 0x5a ∷ 0xfe ∷ 0xa9 ∷ 0xfa ∷ 0x4f ∷ 0xe0
        ∷ 0x16 ∷ 0xfa ∷ 0x18 ∷ 0x86 ∷ 0xe0 ∷ 0xf6 ∷ [])
    ∷ (0x5c ∷ 0x09 ∷ 0x13 ∷ 0xeb ∷ 0xec ∷ 0xd8 ∷ 0x80 ∷ 0x2a ∷ 0x8d ∷ 0xbf ∷ 0x4e ∷ 0x8d ∷ 0x41
        ∷ 0x8f ∷ 0x2e ∷ 0x18 ∷ 0x15 ∷ 0x76 ∷ 0xb8 ∷ 0xab ∷ 0x24 ∷ 0x7c ∷ 0xd8 ∷ 0xa7 ∷ 0x9e ∷ 0x7b
        ∷ 0xdf ∷ 0x44 ∷ 0x35 ∷ 0x69 ∷ 0x56 ∷ 0x38 ∷ [])
    ∷ (0x8e ∷ 0xd8 ∷ 0xaa ∷ 0x10 ∷ 0xc5 ∷ 0xd1 ∷ 0x35 ∷ 0x58 ∷ 0xe4 ∷ 0x51 ∷ 0x83 ∷ 0x8a ∷ 0x2f
        ∷ 0x55 ∷ 0x81 ∷ 0x03 ∷ 0x27 ∷ 0x4e ∷ 0x3c ∷ 0xd4 ∷ 0xe8 ∷ 0xd4 ∷ 0x82 ∷ 0x41 ∷ 0x8e ∷ 0x67
        ∷ 0xa4 ∷ 0xcf ∷ 0xc4 ∷ 0x63 ∷ 0xe0 ∷ 0x95 ∷ [])
    ∷ (0xb1 ∷ 0x60 ∷ 0xd3 ∷ 0xc5 ∷ 0xbf ∷ 0x65 ∷ 0xf1 ∷ 0x02 ∷ 0xf8 ∷ 0xa2 ∷ 0xa7 ∷ 0xb8 ∷ 0x9e
        ∷ 0x2b ∷ 0x02 ∷ 0x53 ∷ 0xa6 ∷ 0xf2 ∷ 0x6e ∷ 0x09 ∷ 0x9d ∷ 0x06 ∷ 0xe6 ∷ 0xad ∷ 0x6f ∷ 0x13
        ∷ 0x3a ∷ 0xd2 ∷ 0x52 ∷ 0x2d ∷ 0x12 ∷ 0x51 ∷ [])
    ∷ (0xc8 ∷ 0x7e ∷ 0xba ∷ 0x21 ∷ 0x86 ∷ 0xeb ∷ 0xda ∷ 0xb3 ∷ 0xe6 ∷ 0xd1 ∷ 0xe0 ∷ 0x83 ∷ 0x2d
        ∷ 0x68 ∷ 0xe3 ∷ 0x68 ∷ 0x09 ∷ 0x65 ∷ 0xa6 ∷ 0x15 ∷ 0x9e ∷ 0xba ∷ 0x24 ∷ 0x81 ∷ 0x1e ∷ 0x5c
        ∷ 0xa1 ∷ 0xaf ∷ 0x78 ∷ 0x19 ∷ 0x68 ∷ 0xf0 ∷ [])
    ∷ (0x88 ∷ 0x17 ∷ 0xe6 ∷ 0x1c ∷ 0xa3 ∷ 0xa1 ∷ 0xc7 ∷ 0x27 ∷ 0xe7 ∷ 0xf7 ∷ 0x93 ∷ 0x9b ∷ 0x00
        ∷ 0x50 ∷ 0x32 ∷ 0x26 ∷ 0x8c ∷ 0x58 ∷ 0x86 ∷ 0xba ∷ 0xe8 ∷ 0xbd ∷ 0xf0 ∷ 0x5b ∷ 0x80 ∷ 0x41
        ∷ 0xc5 ∷ 0xe6 ∷ 0x85 ∷ 0x4f ∷ 0xe1 ∷ 0x45 ∷ [])
    ∷ (0x3f ∷ 0xa5 ∷ 0xc0 ∷ 0xd6 ∷ 0xc2 ∷ 0x1b ∷ 0xbe ∷ 0xca ∷ 0xf0 ∷ 0xba ∷ 0xb1 ∷ 0xe8 ∷ 0x22
        ∷ 0xf1 ∷ 0x24 ∷ 0x45 ∷ 0x41 ∷ 0x73 ∷ 0x16 ∷ 0xa5 ∷ 0x0b ∷ 0x5d ∷ 0x3d ∷ 0x8a ∷ 0x57 ∷ 0x2a
        ∷ 0xf5 ∷ 0x3e ∷ 0xee ∷ 0xe5 ∷ 0x35 ∷ 0xc9 ∷ [])
    ∷ (0xaa ∷ 0xf3 ∷ 0xdf ∷ 0xc1 ∷ 0xf0 ∷ 0x53 ∷ 0x9c ∷ 0xf7 ∷ 0x01 ∷ 0x39 ∷ 0x8d ∷ 0xf0 ∷ 0x5b
        ∷ 0xb5 ∷ 0x74 ∷ 0x31 ∷ 0x02 ∷ 0xab ∷ 0xc5 ∷ 0x36 ∷ 0x42 ∷ 0x06 ∷ 0x64 ∷ 0xf1 ∷ 0x19 ∷ 0xed
        ∷ 0x7e ∷ 0xa3 ∷ 0x2b ∷ 0x06 ∷ 0x90 ∷ 0xa5 ∷ [])
    ∷ (0xae ∷ 0x43 ∷ 0x55 ∷ 0x95 ∷ 0xbb ∷ 0x9e ∷ 0x9e ∷ 0xfc ∷ 0xc7 ∷ 0xc3 ∷ 0x81 ∷ 0x59 ∷ 0x6f
        ∷ 0x8b ∷ 0x48 ∷ 0x3f ∷ 0x2c ∷ 0x9c ∷ 0x7f ∷ 0x8b ∷ 0x75 ∷ 0xb1 ∷ 0x15 ∷ 0xfc ∷ 0x92 ∷ 0x72
        ∷ 0x34 ∷ 0xc8 ∷ 0xab ∷ 0xa9 ∷ 0x34 ∷ 0xa9 ∷ [])
    ∷ (0xb6 ∷ 0x00 ∷ 0xd5 ∷ 0xac ∷ 0x9e ∷ 0xdf ∷ 0x03 ∷ 0x7d ∷ 0x72 ∷ 0xbb ∷ 0x3b ∷ 0x4a ∷ 0xb6
        ∷ 0x9c ∷ 0x8e ∷ 0x5c ∷ 0xa0 ∷ 0xea ∷ 0x08 ∷ 0x67 ∷ 0x6d ∷ 0x06 ∷ 0x85 ∷ 0xda ∷ 0x2c ∷ 0xd0
        ∷ 0x51 ∷ 0xb5 ∷ 0xaf ∷ 0x6f ∷ 0xe1 ∷ 0xed ∷ [])
    ∷ (0x61 ∷ 0x13 ∷ 0x4a ∷ 0x92 ∷ 0xfc ∷ 0x75 ∷ 0x91 ∷ 0x5a ∷ 0xc3 ∷ 0x5d ∷ 0x2a ∷ 0x5c ∷ 0xdd
        ∷ 0x24 ∷ 0x37 ∷ 0xe3 ∷ 0xe7 ∷ 0x26 ∷ 0xa3 ∷ 0x24 ∷ 0x5a ∷ 0x44 ∷ 0x27 ∷ 0x7e ∷ 0x9f ∷ 0x70
        ∷ 0x77 ∷ 0xca ∷ 0x73 ∷ 0x35 ∷ 0x21 ∷ 0xb2 ∷ [])
    ∷ (0x6a ∷ 0xb9 ∷ 0x6e ∷ 0x38 ∷ 0x0d ∷ 0x78 ∷ 0x9b ∷ 0x10 ∷ 0x2e ∷ 0x17 ∷ 0x34 ∷ 0x88 ∷ 0x15
        ∷ 0xba ∷ 0x70 ∷ 0xbb ∷ 0x54 ∷ 0xea ∷ 0x0b ∷ 0x5e ∷ 0x8d ∷ 0xc4 ∷ 0x9a ∷ 0xe5 ∷ 0x4c ∷ 0xee
        ∷ 0x0e ∷ 0x97 ∷ 0x27 ∷ 0x0a ∷ 0x2e ∷ 0x86 ∷ [])
    ∷ (0x09 ∷ 0x92 ∷ 0xd6 ∷ 0xe4 ∷ 0x15 ∷ 0x1f ∷ 0xc5 ∷ 0x39 ∷ 0x6c ∷ 0xef ∷ 0x72 ∷ 0x72 ∷ 0xbe
        ∷ 0xe8 ∷ 0x6c ∷ 0x79 ∷ 0x89 ∷ 0x26 ∷ 0xf7 ∷ 0x0d ∷ 0xd7 ∷ 0xcb ∷ 0xd2 ∷ 0x45 ∷ 0x28 ∷ 0xfa
        ∷ 0x65 ∷ 0x08 ∷ 0xbb ∷ 0x88 ∷ 0x1f ∷ 0x7e ∷ [])
    ∷ []
