-- ===== src/Kat/Vectors/Encap768.antt =====
-- firmware/esp32s3-dut/main/acvp_vectors.h: the rows of 32 bytes of the ML-KEM-768 Encap vectors.
use pqc_esp32s3_benchmarks.Prelude.{ℕ, List, [], ◌∷◌}

abbrev pub kat768_encap_m : List (List ℕ)
kat768_encap_m =
    (0x4e ∷ 0x77 ∷ 0x59 ∷ 0x61 ∷ 0x68 ∷ 0x71 ∷ 0x1e ∷ 0x91 ∷ 0x39 ∷ 0x65 ∷ 0xd8 ∷ 0x17 ∷ 0x5a ∷ 0xc3
      ∷ 0xbd ∷ 0x76 ∷ 0xaa ∷ 0xb0 ∷ 0x8b ∷ 0x7f ∷ 0x93 ∷ 0x85 ∷ 0xa0 ∷ 0x2a ∷ 0xe8 ∷ 0x83 ∷ 0xcf
      ∷ 0x6c ∷ 0x6e ∷ 0x17 ∷ 0xdd ∷ 0x81 ∷ [])
    ∷ (0xc4 ∷ 0x65 ∷ 0x03 ∷ 0x1f ∷ 0x74 ∷ 0x64 ∷ 0x61 ∷ 0x41 ∷ 0x09 ∷ 0xc7 ∷ 0xdd ∷ 0xb2 ∷ 0x8a
        ∷ 0xb2 ∷ 0x16 ∷ 0x18 ∷ 0x1d ∷ 0xb5 ∷ 0x00 ∷ 0x2a ∷ 0xe5 ∷ 0x4e ∷ 0xaf ∷ 0x6c ∷ 0x5d ∷ 0x6a
        ∷ 0x6e ∷ 0xef ∷ 0xc4 ∷ 0xf7 ∷ 0x2b ∷ 0x9e ∷ [])
    ∷ (0x53 ∷ 0x6a ∷ 0x7b ∷ 0xb3 ∷ 0x51 ∷ 0x92 ∷ 0x5c ∷ 0x3f ∷ 0xd1 ∷ 0x16 ∷ 0x46 ∷ 0xfa ∷ 0x4b
        ∷ 0xf6 ∷ 0x20 ∷ 0xf5 ∷ 0x77 ∷ 0x55 ∷ 0x48 ∷ 0x2f ∷ 0x3f ∷ 0x89 ∷ 0x1e ∷ 0x96 ∷ 0xe2 ∷ 0xfe
        ∷ 0xd5 ∷ 0xc8 ∷ 0x47 ∷ 0xe7 ∷ 0xf0 ∷ 0xbd ∷ [])
    ∷ (0xde ∷ 0x79 ∷ 0x78 ∷ 0xdd ∷ 0xe1 ∷ 0x47 ∷ 0xbd ∷ 0x26 ∷ 0x15 ∷ 0x3b ∷ 0x14 ∷ 0x5d ∷ 0x32
        ∷ 0x8f ∷ 0xdf ∷ 0x79 ∷ 0xca ∷ 0x7f ∷ 0xfa ∷ 0xdd ∷ 0xaf ∷ 0x07 ∷ 0x70 ∷ 0x3d ∷ 0x30 ∷ 0x3b
        ∷ 0x08 ∷ 0x8b ∷ 0xe8 ∷ 0xaa ∷ 0x16 ∷ 0xcd ∷ [])
    ∷ (0xab ∷ 0x2e ∷ 0xdb ∷ 0xc8 ∷ 0xb3 ∷ 0x6e ∷ 0x25 ∷ 0xca ∷ 0x03 ∷ 0x5e ∷ 0xb0 ∷ 0x43 ∷ 0x06
        ∷ 0xc4 ∷ 0xd1 ∷ 0x79 ∷ 0xcc ∷ 0x4a ∷ 0xb9 ∷ 0x3d ∷ 0x2c ∷ 0x25 ∷ 0xde ∷ 0x3f ∷ 0x86 ∷ 0xab
        ∷ 0x55 ∷ 0x1c ∷ 0xbf ∷ 0x1b ∷ 0xc0 ∷ 0x7f ∷ [])
    ∷ (0x94 ∷ 0xf9 ∷ 0x4f ∷ 0x95 ∷ 0x36 ∷ 0x25 ∷ 0xf7 ∷ 0x84 ∷ 0x5c ∷ 0xea ∷ 0xb3 ∷ 0x35 ∷ 0x80
        ∷ 0x3d ∷ 0x2c ∷ 0x93 ∷ 0xc8 ∷ 0xac ∷ 0xb1 ∷ 0x2c ∷ 0xa4 ∷ 0x2b ∷ 0xf8 ∷ 0xc8 ∷ 0xeb ∷ 0xac
        ∷ 0x80 ∷ 0x9d ∷ 0xb2 ∷ 0xdb ∷ 0x36 ∷ 0x97 ∷ [])
    ∷ (0xc8 ∷ 0x28 ∷ 0x1a ∷ 0xfe ∷ 0x52 ∷ 0x23 ∷ 0x1a ∷ 0xe4 ∷ 0xb1 ∷ 0x3e ∷ 0xe1 ∷ 0x57 ∷ 0x63
        ∷ 0x44 ∷ 0x89 ∷ 0x17 ∷ 0x37 ∷ 0xa7 ∷ 0xc8 ∷ 0x88 ∷ 0x5f ∷ 0xad ∷ 0xb8 ∷ 0x56 ∷ 0xb3 ∷ 0x51
        ∷ 0x7b ∷ 0xb1 ∷ 0x98 ∷ 0x5f ∷ 0xde ∷ 0x20 ∷ [])
    ∷ (0xc5 ∷ 0x52 ∷ 0x59 ∷ 0xc1 ∷ 0xce ∷ 0xc2 ∷ 0x95 ∷ 0xdb ∷ 0xb8 ∷ 0x9a ∷ 0x68 ∷ 0x89 ∷ 0x17
        ∷ 0xbe ∷ 0x65 ∷ 0x5b ∷ 0xf1 ∷ 0x71 ∷ 0x50 ∷ 0xa6 ∷ 0x48 ∷ 0x30 ∷ 0x88 ∷ 0x90 ∷ 0xe7 ∷ 0xad
        ∷ 0xa0 ∷ 0x39 ∷ 0x1c ∷ 0xea ∷ 0x37 ∷ 0xb4 ∷ [])
    ∷ (0x36 ∷ 0x9f ∷ 0x93 ∷ 0xd9 ∷ 0x18 ∷ 0xd3 ∷ 0xe6 ∷ 0xf7 ∷ 0x7a ∷ 0xa2 ∷ 0xa6 ∷ 0xb8 ∷ 0x94
        ∷ 0x63 ∷ 0x71 ∷ 0xc4 ∷ 0x9b ∷ 0x15 ∷ 0x23 ∷ 0x07 ∷ 0x32 ∷ 0x95 ∷ 0xf7 ∷ 0x77 ∷ 0xda ∷ 0xec
        ∷ 0x7e ∷ 0x84 ∷ 0x0a ∷ 0x39 ∷ 0x6b ∷ 0x6f ∷ [])
    ∷ (0xfb ∷ 0x95 ∷ 0xac ∷ 0x9b ∷ 0x86 ∷ 0x27 ∷ 0x84 ∷ 0x14 ∷ 0x4a ∷ 0x25 ∷ 0xfa ∷ 0x9f ∷ 0xed
        ∷ 0x57 ∷ 0x51 ∷ 0xaf ∷ 0xe9 ∷ 0xa4 ∷ 0xdc ∷ 0x27 ∷ 0x75 ∷ 0xe1 ∷ 0x67 ∷ 0x7f ∷ 0x04 ∷ 0xbd
        ∷ 0x17 ∷ 0x50 ∷ 0x78 ∷ 0xec ∷ 0x13 ∷ 0x9f ∷ [])
    ∷ (0x06 ∷ 0x3a ∷ 0x3f ∷ 0xd6 ∷ 0x6c ∷ 0x1b ∷ 0xe1 ∷ 0x08 ∷ 0x8a ∷ 0x0f ∷ 0xbd ∷ 0x3a ∷ 0x79
        ∷ 0x9c ∷ 0x31 ∷ 0x78 ∷ 0x65 ∷ 0xf9 ∷ 0x16 ∷ 0x8e ∷ 0x3f ∷ 0xbd ∷ 0x08 ∷ 0x01 ∷ 0x7e ∷ 0xd5
        ∷ 0x53 ∷ 0x87 ∷ 0xbb ∷ 0xb0 ∷ 0x76 ∷ 0x41 ∷ [])
    ∷ (0x14 ∷ 0xc2 ∷ 0x97 ∷ 0x06 ∷ 0x2f ∷ 0xbe ∷ 0x9c ∷ 0xe4 ∷ 0x6d ∷ 0x60 ∷ 0x56 ∷ 0x82 ∷ 0x3a
        ∷ 0x8c ∷ 0xe6 ∷ 0x34 ∷ 0x92 ∷ 0x25 ∷ 0x5d ∷ 0x4c ∷ 0x8b ∷ 0x67 ∷ 0xcf ∷ 0x35 ∷ 0x0c ∷ 0x93
        ∷ 0xdd ∷ 0x24 ∷ 0xc7 ∷ 0x1c ∷ 0x28 ∷ 0x83 ∷ [])
    ∷ (0x4c ∷ 0x79 ∷ 0x1e ∷ 0xc6 ∷ 0x63 ∷ 0x3e ∷ 0x95 ∷ 0x02 ∷ 0xc3 ∷ 0x14 ∷ 0x4b ∷ 0x7d ∷ 0x02
        ∷ 0x9a ∷ 0x49 ∷ 0x6f ∷ 0xb0 ∷ 0x94 ∷ 0x7c ∷ 0x80 ∷ 0x5a ∷ 0x47 ∷ 0x2e ∷ 0x6b ∷ 0xce ∷ 0xcb
        ∷ 0x12 ∷ 0xaa ∷ 0x45 ∷ 0xf3 ∷ 0x8a ∷ 0x49 ∷ [])
    ∷ (0xa0 ∷ 0x0e ∷ 0x40 ∷ 0x16 ∷ 0xaf ∷ 0xc8 ∷ 0x2d ∷ 0xad ∷ 0xef ∷ 0x70 ∷ 0xf1 ∷ 0xba ∷ 0x79
        ∷ 0x2e ∷ 0xf0 ∷ 0xe8 ∷ 0xb1 ∷ 0xde ∷ 0x20 ∷ 0x73 ∷ 0xaa ∷ 0x82 ∷ 0x81 ∷ 0xeb ∷ 0x45 ∷ 0x8b
        ∷ 0x91 ∷ 0xe0 ∷ 0x1b ∷ 0x15 ∷ 0x3b ∷ 0xf5 ∷ [])
    ∷ (0x63 ∷ 0xbd ∷ 0xf8 ∷ 0xe6 ∷ 0xf6 ∷ 0xf4 ∷ 0x17 ∷ 0x61 ∷ 0xce ∷ 0x5d ∷ 0x07 ∷ 0x7c ∷ 0x45
        ∷ 0x36 ∷ 0xfb ∷ 0xe3 ∷ 0xf4 ∷ 0xb2 ∷ 0x44 ∷ 0xcb ∷ 0xdc ∷ 0x39 ∷ 0xa7 ∷ 0x45 ∷ 0x93 ∷ 0x94
        ∷ 0x1f ∷ 0x05 ∷ 0xb3 ∷ 0x2b ∷ 0xe1 ∷ 0x73 ∷ [])
    ∷ (0x24 ∷ 0xe5 ∷ 0xb4 ∷ 0xb0 ∷ 0x40 ∷ 0x40 ∷ 0x69 ∷ 0xd1 ∷ 0x8d ∷ 0xdc ∷ 0xfe ∷ 0xea ∷ 0xa5
        ∷ 0x58 ∷ 0x25 ∷ 0x11 ∷ 0x82 ∷ 0x37 ∷ 0x2c ∷ 0x15 ∷ 0xac ∷ 0x53 ∷ 0x76 ∷ 0x09 ∷ 0x30 ∷ 0x74
        ∷ 0xc1 ∷ 0x19 ∷ 0xa6 ∷ 0x31 ∷ 0x2e ∷ 0x7e ∷ [])
    ∷ (0x8d ∷ 0xda ∷ 0xd4 ∷ 0x85 ∷ 0x43 ∷ 0xc3 ∷ 0xad ∷ 0xaa ∷ 0xe6 ∷ 0x0c ∷ 0xd3 ∷ 0x77 ∷ 0x00
        ∷ 0xc6 ∷ 0x80 ∷ 0x17 ∷ 0x54 ∷ 0xa9 ∷ 0xa4 ∷ 0xc2 ∷ 0x1c ∷ 0x12 ∷ 0x8a ∷ 0x89 ∷ 0x71 ∷ 0x07
        ∷ 0xc7 ∷ 0xba ∷ 0x10 ∷ 0x38 ∷ 0x6d ∷ 0x98 ∷ [])
    ∷ (0x8b ∷ 0x75 ∷ 0xfe ∷ 0x37 ∷ 0xb4 ∷ 0x47 ∷ 0x55 ∷ 0x6d ∷ 0x12 ∷ 0xb8 ∷ 0x4c ∷ 0xb2 ∷ 0x8f
        ∷ 0x9d ∷ 0xa1 ∷ 0x4a ∷ 0xad ∷ 0xda ∷ 0x4f ∷ 0x44 ∷ 0x28 ∷ 0x4e ∷ 0xb1 ∷ 0xdc ∷ 0x0b ∷ 0x51
        ∷ 0x4e ∷ 0x51 ∷ 0x0d ∷ 0x13 ∷ 0x5c ∷ 0x28 ∷ [])
    ∷ (0xb1 ∷ 0xbf ∷ 0xd1 ∷ 0xda ∷ 0x7f ∷ 0x47 ∷ 0x09 ∷ 0x43 ∷ 0xa5 ∷ 0xee ∷ 0x31 ∷ 0x53 ∷ 0xfc
        ∷ 0x46 ∷ 0xf1 ∷ 0x22 ∷ 0xeb ∷ 0x05 ∷ 0x99 ∷ 0x87 ∷ 0x25 ∷ 0xb5 ∷ 0x7f ∷ 0x80 ∷ 0xfa ∷ 0x48
        ∷ 0x34 ∷ 0x4d ∷ 0x7b ∷ 0x90 ∷ 0x87 ∷ 0x41 ∷ [])
    ∷ (0xe7 ∷ 0xd7 ∷ 0x03 ∷ 0xc1 ∷ 0xa9 ∷ 0xa9 ∷ 0xbb ∷ 0x5f ∷ 0x5a ∷ 0x62 ∷ 0xba ∷ 0x5c ∷ 0xf0
        ∷ 0x7d ∷ 0x59 ∷ 0x5d ∷ 0xd7 ∷ 0x86 ∷ 0x74 ∷ 0x7b ∷ 0xd4 ∷ 0xa3 ∷ 0x8d ∷ 0x74 ∷ 0x81 ∷ 0x7e
        ∷ 0xf1 ∷ 0xa1 ∷ 0x78 ∷ 0x9f ∷ 0x6b ∷ 0x82 ∷ [])
    ∷ (0xfd ∷ 0xb6 ∷ 0xdb ∷ 0x28 ∷ 0x41 ∷ 0x68 ∷ 0xa6 ∷ 0xa3 ∷ 0x7e ∷ 0xc8 ∷ 0xd4 ∷ 0x4c ∷ 0xae
        ∷ 0x95 ∷ 0x27 ∷ 0x13 ∷ 0x19 ∷ 0x46 ∷ 0x32 ∷ 0xc0 ∷ 0x05 ∷ 0x1c ∷ 0x2a ∷ 0xd7 ∷ 0xbe ∷ 0xed
        ∷ 0x04 ∷ 0x2d ∷ 0xca ∷ 0x03 ∷ 0xdd ∷ 0x1f ∷ [])
    ∷ (0x75 ∷ 0xbd ∷ 0x43 ∷ 0x92 ∷ 0x19 ∷ 0x9b ∷ 0xb3 ∷ 0xba ∷ 0xf0 ∷ 0x4f ∷ 0x0f ∷ 0xc9 ∷ 0xe5
        ∷ 0x3a ∷ 0x22 ∷ 0x68 ∷ 0x4f ∷ 0xd4 ∷ 0x41 ∷ 0x4c ∷ 0xe3 ∷ 0xa1 ∷ 0xd0 ∷ 0xf2 ∷ 0xc9 ∷ 0x7e
        ∷ 0x43 ∷ 0x4f ∷ 0xcf ∷ 0x82 ∷ 0x21 ∷ 0x16 ∷ [])
    ∷ (0x9e ∷ 0x2e ∷ 0xd9 ∷ 0x45 ∷ 0x31 ∷ 0xd7 ∷ 0x4c ∷ 0x4b ∷ 0xc6 ∷ 0xbd ∷ 0xf0 ∷ 0x28 ∷ 0x6b
        ∷ 0x83 ∷ 0x6d ∷ 0xdf ∷ 0xdf ∷ 0x57 ∷ 0xc1 ∷ 0x46 ∷ 0x4b ∷ 0x08 ∷ 0xdc ∷ 0x34 ∷ 0x4b ∷ 0x66
        ∷ 0x56 ∷ 0x8b ∷ 0x51 ∷ 0x2d ∷ 0xd5 ∷ 0xea ∷ [])
    ∷ (0xc4 ∷ 0x52 ∷ 0x02 ∷ 0x82 ∷ 0xed ∷ 0x36 ∷ 0xf5 ∷ 0xe6 ∷ 0x50 ∷ 0xaf ∷ 0x23 ∷ 0xbc ∷ 0x4b
        ∷ 0xc3 ∷ 0x90 ∷ 0xb5 ∷ 0xa2 ∷ 0x9a ∷ 0x48 ∷ 0x8c ∷ 0x1b ∷ 0xea ∷ 0xcd ∷ 0x2e ∷ 0x91 ∷ 0x6b
        ∷ 0xfc ∷ 0x71 ∷ 0xc7 ∷ 0xa9 ∷ 0xcd ∷ 0x8f ∷ [])
    ∷ (0x79 ∷ 0x55 ∷ 0x76 ∷ 0x5b ∷ 0xa6 ∷ 0x2e ∷ 0x7f ∷ 0x4c ∷ 0xe4 ∷ 0x93 ∷ 0x06 ∷ 0xf4 ∷ 0x73
        ∷ 0x79 ∷ 0xe5 ∷ 0x77 ∷ 0x5f ∷ 0xb4 ∷ 0xc7 ∷ 0xa1 ∷ 0x38 ∷ 0xe4 ∷ 0xc5 ∷ 0x82 ∷ 0x7b ∷ 0x4e
        ∷ 0x11 ∷ 0x5a ∷ 0x10 ∷ 0x3e ∷ 0xf6 ∷ 0x62 ∷ [])
    ∷ []

abbrev pub kat768_encap_k : List (List ℕ)
kat768_encap_k =
    (0x79 ∷ 0xd7 ∷ 0x4f ∷ 0x6c ∷ 0x6c ∷ 0x2d ∷ 0x91 ∷ 0x6b ∷ 0xec ∷ 0x47 ∷ 0xbd ∷ 0x82 ∷ 0x8f ∷ 0xd9
      ∷ 0xb6 ∷ 0x72 ∷ 0x95 ∷ 0xa3 ∷ 0x7f ∷ 0x54 ∷ 0x92 ∷ 0x7f ∷ 0xab ∷ 0x12 ∷ 0x63 ∷ 0xc0 ∷ 0xd1
      ∷ 0x22 ∷ 0xf1 ∷ 0xc6 ∷ 0xf1 ∷ 0xed ∷ [])
    ∷ (0x3d ∷ 0x58 ∷ 0xd9 ∷ 0x5a ∷ 0x35 ∷ 0x56 ∷ 0xfc ∷ 0x5f ∷ 0x57 ∷ 0x84 ∷ 0xb5 ∷ 0xb5 ∷ 0x37
        ∷ 0xf4 ∷ 0xa9 ∷ 0x9c ∷ 0x3d ∷ 0x83 ∷ 0xcb ∷ 0x0c ∷ 0x9d ∷ 0x80 ∷ 0xb1 ∷ 0xe4 ∷ 0xfa ∷ 0x96
        ∷ 0xf8 ∷ 0xd1 ∷ 0xab ∷ 0x08 ∷ 0x55 ∷ 0x4e ∷ [])
    ∷ (0xed ∷ 0xea ∷ 0xcb ∷ 0xd5 ∷ 0x25 ∷ 0x4d ∷ 0x20 ∷ 0x11 ∷ 0x3d ∷ 0xa8 ∷ 0xf7 ∷ 0xd9 ∷ 0x39
        ∷ 0x1e ∷ 0x30 ∷ 0x06 ∷ 0x34 ∷ 0xea ∷ 0x57 ∷ 0x4f ∷ 0xa1 ∷ 0xa3 ∷ 0x30 ∷ 0x3a ∷ 0x65 ∷ 0xc8
        ∷ 0xe3 ∷ 0xfc ∷ 0x91 ∷ 0x91 ∷ 0x52 ∷ 0xf9 ∷ [])
    ∷ (0x63 ∷ 0x7b ∷ 0x52 ∷ 0x51 ∷ 0xfb ∷ 0x36 ∷ 0x43 ∷ 0xd1 ∷ 0xeb ∷ 0xe9 ∷ 0x44 ∷ 0x15 ∷ 0x19
        ∷ 0xf9 ∷ 0xf0 ∷ 0xdd ∷ 0x4c ∷ 0x02 ∷ 0x9d ∷ 0x6d ∷ 0xd7 ∷ 0xd2 ∷ 0x10 ∷ 0x45 ∷ 0x86 ∷ 0x6e
        ∷ 0x15 ∷ 0x1e ∷ 0xf4 ∷ 0x97 ∷ 0xd5 ∷ 0x84 ∷ [])
    ∷ (0xfc ∷ 0x00 ∷ 0x3f ∷ 0x15 ∷ 0xfc ∷ 0xd1 ∷ 0xa4 ∷ 0xaa ∷ 0x8d ∷ 0x15 ∷ 0x69 ∷ 0xf1 ∷ 0xf7
        ∷ 0x91 ∷ 0xc2 ∷ 0x99 ∷ 0x2b ∷ 0xb5 ∷ 0x34 ∷ 0x90 ∷ 0xb3 ∷ 0x35 ∷ 0x9c ∷ 0x9e ∷ 0x35 ∷ 0x18
        ∷ 0xc1 ∷ 0x40 ∷ 0x70 ∷ 0x62 ∷ 0xda ∷ 0xdc ∷ [])
    ∷ (0xe7 ∷ 0x5f ∷ 0xb2 ∷ 0x84 ∷ 0x63 ∷ 0x07 ∷ 0x18 ∷ 0x79 ∷ 0x42 ∷ 0x39 ∷ 0x47 ∷ 0xc6 ∷ 0x21
        ∷ 0xaf ∷ 0x37 ∷ 0xc9 ∷ 0xa1 ∷ 0xd9 ∷ 0x9e ∷ 0x86 ∷ 0x03 ∷ 0x67 ∷ 0x6a ∷ 0xdc ∷ 0x48 ∷ 0x7a
        ∷ 0xf3 ∷ 0x94 ∷ 0xd9 ∷ 0x46 ∷ 0xe6 ∷ 0x55 ∷ [])
    ∷ (0x77 ∷ 0x4e ∷ 0xcf ∷ 0xc1 ∷ 0x9a ∷ 0x0c ∷ 0x37 ∷ 0xde ∷ 0x2e ∷ 0x9d ∷ 0xfe ∷ 0xc0 ∷ 0x79
        ∷ 0x80 ∷ 0x3b ∷ 0x5a ∷ 0xe8 ∷ 0x32 ∷ 0xf3 ∷ 0xaf ∷ 0x45 ∷ 0xfb ∷ 0x74 ∷ 0x91 ∷ 0x58 ∷ 0x13
        ∷ 0x98 ∷ 0x7a ∷ 0x60 ∷ 0x8b ∷ 0x66 ∷ 0x9b ∷ [])
    ∷ (0xdc ∷ 0xf3 ∷ 0xa2 ∷ 0x0a ∷ 0x21 ∷ 0x70 ∷ 0x55 ∷ 0x13 ∷ 0x7f ∷ 0x85 ∷ 0x61 ∷ 0xa7 ∷ 0x5b
        ∷ 0xbe ∷ 0xa9 ∷ 0x01 ∷ 0xdc ∷ 0x85 ∷ 0xc2 ∷ 0x2f ∷ 0x08 ∷ 0x57 ∷ 0x76 ∷ 0x26 ∷ 0xb9 ∷ 0x76
        ∷ 0x00 ∷ 0xe2 ∷ 0x3e ∷ 0xb1 ∷ 0x0e ∷ 0x48 ∷ [])
    ∷ (0xa5 ∷ 0x72 ∷ 0x3e ∷ 0x6c ∷ 0x55 ∷ 0x2e ∷ 0x9c ∷ 0x9b ∷ 0x76 ∷ 0xc1 ∷ 0xdc ∷ 0x8d ∷ 0x31
        ∷ 0xcc ∷ 0x53 ∷ 0xf0 ∷ 0x44 ∷ 0x4a ∷ 0x38 ∷ 0x0b ∷ 0x35 ∷ 0x3c ∷ 0xfb ∷ 0xa1 ∷ 0x55 ∷ 0x8f
        ∷ 0x31 ∷ 0xab ∷ 0x0f ∷ 0xfb ∷ 0x00 ∷ 0xfa ∷ [])
    ∷ (0x2a ∷ 0x81 ∷ 0x33 ∷ 0xbb ∷ 0x73 ∷ 0xa5 ∷ 0x04 ∷ 0x66 ∷ 0xf1 ∷ 0x7a ∷ 0x27 ∷ 0xd6 ∷ 0xed
        ∷ 0x5c ∷ 0x5e ∷ 0xb8 ∷ 0xb3 ∷ 0xfa ∷ 0x4c ∷ 0x4a ∷ 0x21 ∷ 0x01 ∷ 0x95 ∷ 0x24 ∷ 0xe3 ∷ 0x1c
        ∷ 0xc8 ∷ 0xcc ∷ 0x63 ∷ 0x64 ∷ 0x95 ∷ 0x9d ∷ [])
    ∷ (0xf9 ∷ 0xd0 ∷ 0xe7 ∷ 0xdb ∷ 0xf3 ∷ 0x02 ∷ 0x8a ∷ 0x56 ∷ 0xfb ∷ 0x58 ∷ 0x8c ∷ 0x1a ∷ 0xa0
        ∷ 0x0c ∷ 0xfb ∷ 0x84 ∷ 0x7f ∷ 0xdf ∷ 0xaf ∷ 0xe5 ∷ 0x32 ∷ 0xae ∷ 0x3f ∷ 0xbb ∷ 0xc0 ∷ 0x1a
        ∷ 0x47 ∷ 0x1d ∷ 0x8d ∷ 0x34 ∷ 0xef ∷ 0xa6 ∷ [])
    ∷ (0x03 ∷ 0x8b ∷ 0x9b ∷ 0x18 ∷ 0xd1 ∷ 0xa1 ∷ 0xa2 ∷ 0x4a ∷ 0x7b ∷ 0x22 ∷ 0xc6 ∷ 0x89 ∷ 0x30
        ∷ 0xf5 ∷ 0x30 ∷ 0x79 ∷ 0xb5 ∷ 0x87 ∷ 0xdd ∷ 0x74 ∷ 0x92 ∷ 0x77 ∷ 0x03 ∷ 0xae ∷ 0x31 ∷ 0xd4
        ∷ 0x25 ∷ 0x6c ∷ 0x9c ∷ 0x79 ∷ 0x48 ∷ 0x34 ∷ [])
    ∷ (0xfb ∷ 0xcb ∷ 0x43 ∷ 0x6a ∷ 0xd7 ∷ 0xd1 ∷ 0xee ∷ 0x73 ∷ 0xce ∷ 0x25 ∷ 0xb2 ∷ 0xde ∷ 0x92
        ∷ 0x13 ∷ 0x59 ∷ 0xed ∷ 0x09 ∷ 0xed ∷ 0xe9 ∷ 0xf9 ∷ 0x76 ∷ 0x95 ∷ 0x89 ∷ 0x44 ∷ 0x61 ∷ 0xfd
        ∷ 0xab ∷ 0x7a ∷ 0x08 ∷ 0xc3 ∷ 0x2e ∷ 0x72 ∷ [])
    ∷ (0xb0 ∷ 0xaa ∷ 0x4a ∷ 0x15 ∷ 0xe1 ∷ 0x9b ∷ 0xeb ∷ 0xcd ∷ 0x89 ∷ 0x5d ∷ 0xd7 ∷ 0x1f ∷ 0x8b
        ∷ 0x28 ∷ 0x0c ∷ 0x30 ∷ 0xeb ∷ 0xe8 ∷ 0xce ∷ 0xa4 ∷ 0x9f ∷ 0xc3 ∷ 0x6b ∷ 0x2c ∷ 0xa4 ∷ 0x1d
        ∷ 0x24 ∷ 0x75 ∷ 0x61 ∷ 0xd2 ∷ 0x25 ∷ 0x6f ∷ [])
    ∷ (0xe4 ∷ 0x3f ∷ 0x47 ∷ 0x7b ∷ 0x78 ∷ 0xe7 ∷ 0x43 ∷ 0x17 ∷ 0xc3 ∷ 0xd4 ∷ 0x19 ∷ 0x57 ∷ 0x6e
        ∷ 0x89 ∷ 0x51 ∷ 0x9b ∷ 0x7a ∷ 0xa6 ∷ 0x47 ∷ 0x08 ∷ 0x7b ∷ 0xb5 ∷ 0x51 ∷ 0x42 ∷ 0x60 ∷ 0x4f
        ∷ 0xcd ∷ 0xb0 ∷ 0xc5 ∷ 0xf3 ∷ 0x2f ∷ 0x5f ∷ [])
    ∷ (0xa0 ∷ 0x76 ∷ 0xf0 ∷ 0x2c ∷ 0x2a ∷ 0xfb ∷ 0xea ∷ 0x9c ∷ 0xbc ∷ 0x44 ∷ 0xfb ∷ 0xb7 ∷ 0x37
        ∷ 0x69 ∷ 0x1b ∷ 0x5a ∷ 0x0b ∷ 0xe4 ∷ 0xc2 ∷ 0x91 ∷ 0xd2 ∷ 0xf8 ∷ 0xad ∷ 0x32 ∷ 0x90 ∷ 0x9e
        ∷ 0x68 ∷ 0x6a ∷ 0xbb ∷ 0x91 ∷ 0xc5 ∷ 0x2c ∷ [])
    ∷ (0xcf ∷ 0xf2 ∷ 0x95 ∷ 0xa9 ∷ 0x39 ∷ 0xc2 ∷ 0x47 ∷ 0x87 ∷ 0xbe ∷ 0xfd ∷ 0xdc ∷ 0x67 ∷ 0xb5
        ∷ 0x1a ∷ 0xf5 ∷ 0x4e ∷ 0x30 ∷ 0x69 ∷ 0xe3 ∷ 0xec ∷ 0x0a ∷ 0xa6 ∷ 0x02 ∷ 0x78 ∷ 0x21 ∷ 0x47
        ∷ 0xba ∷ 0x65 ∷ 0x0b ∷ 0xd4 ∷ 0xbd ∷ 0x04 ∷ [])
    ∷ (0xdb ∷ 0x8c ∷ 0x93 ∷ 0x86 ∷ 0x42 ∷ 0xd4 ∷ 0xe8 ∷ 0xa4 ∷ 0xd0 ∷ 0x01 ∷ 0x67 ∷ 0x70 ∷ 0xff
        ∷ 0x39 ∷ 0xf9 ∷ 0x98 ∷ 0x42 ∷ 0x96 ∷ 0x26 ∷ 0x84 ∷ 0x0c ∷ 0x76 ∷ 0x29 ∷ 0x35 ∷ 0x95 ∷ 0x7b
        ∷ 0xa0 ∷ 0x34 ∷ 0xff ∷ 0xfa ∷ 0xf6 ∷ 0x10 ∷ [])
    ∷ (0xdc ∷ 0x88 ∷ 0x13 ∷ 0x39 ∷ 0x91 ∷ 0xb1 ∷ 0x35 ∷ 0x93 ∷ 0x5a ∷ 0x28 ∷ 0x4d ∷ 0xb1 ∷ 0x92
        ∷ 0x4f ∷ 0xef ∷ 0x72 ∷ 0x3b ∷ 0xe5 ∷ 0xea ∷ 0x1e ∷ 0x2e ∷ 0xe2 ∷ 0x45 ∷ 0x92 ∷ 0x6e ∷ 0xbc
        ∷ 0xdb ∷ 0xa2 ∷ 0x74 ∷ 0xa5 ∷ 0xa6 ∷ 0x62 ∷ [])
    ∷ (0xf5 ∷ 0x59 ∷ 0xe4 ∷ 0x21 ∷ 0xd4 ∷ 0x31 ∷ 0xd2 ∷ 0x73 ∷ 0x89 ∷ 0x2e ∷ 0x91 ∷ 0xf0 ∷ 0x6c
        ∷ 0x12 ∷ 0x3f ∷ 0x0b ∷ 0xac ∷ 0x7b ∷ 0xa1 ∷ 0x1b ∷ 0x48 ∷ 0x69 ∷ 0xc7 ∷ 0xc1 ∷ 0x86 ∷ 0xa5
        ∷ 0x5a ∷ 0xcc ∷ 0xeb ∷ 0xe1 ∷ 0x02 ∷ 0xde ∷ [])
    ∷ (0x64 ∷ 0xc2 ∷ 0x40 ∷ 0x19 ∷ 0x02 ∷ 0xd9 ∷ 0xcf ∷ 0x13 ∷ 0x6c ∷ 0x7c ∷ 0x3a ∷ 0x06 ∷ 0x8e
        ∷ 0x04 ∷ 0xc4 ∷ 0x40 ∷ 0x22 ∷ 0x5a ∷ 0xd8 ∷ 0x90 ∷ 0xaf ∷ 0xfd ∷ 0xf2 ∷ 0x34 ∷ 0xc7 ∷ 0xc3
        ∷ 0x6c ∷ 0xed ∷ 0xde ∷ 0x55 ∷ 0x5d ∷ 0x04 ∷ [])
    ∷ (0x8f ∷ 0x2a ∷ 0x9e ∷ 0x9a ∷ 0x7c ∷ 0xa3 ∷ 0x5c ∷ 0x3c ∷ 0x31 ∷ 0x6e ∷ 0x49 ∷ 0x5e ∷ 0xdf
        ∷ 0xce ∷ 0x66 ∷ 0x4c ∷ 0x58 ∷ 0x40 ∷ 0xf6 ∷ 0xb9 ∷ 0x8e ∷ 0x53 ∷ 0xa0 ∷ 0x50 ∷ 0x29 ∷ 0x8f
        ∷ 0xb3 ∷ 0x84 ∷ 0x50 ∷ 0xc0 ∷ 0xf3 ∷ 0x8f ∷ [])
    ∷ (0xfd ∷ 0xd2 ∷ 0x10 ∷ 0xd1 ∷ 0xd9 ∷ 0x5a ∷ 0x36 ∷ 0x1e ∷ 0x0c ∷ 0x2b ∷ 0xb5 ∷ 0x38 ∷ 0x8e
        ∷ 0x36 ∷ 0x5a ∷ 0xf3 ∷ 0xd7 ∷ 0x9c ∷ 0x24 ∷ 0x0b ∷ 0xf8 ∷ 0xc1 ∷ 0xb7 ∷ 0x43 ∷ 0xd3 ∷ 0x9d
        ∷ 0x46 ∷ 0x80 ∷ 0x78 ∷ 0x1a ∷ 0xf9 ∷ 0x60 ∷ [])
    ∷ (0xcb ∷ 0x8e ∷ 0x1e ∷ 0x8a ∷ 0x19 ∷ 0x5c ∷ 0x3d ∷ 0x74 ∷ 0xda ∷ 0x8c ∷ 0x7e ∷ 0x1b ∷ 0x15
        ∷ 0x68 ∷ 0x4b ∷ 0xf4 ∷ 0xbf ∷ 0x98 ∷ 0x9e ∷ 0x61 ∷ 0x41 ∷ 0xef ∷ 0xea ∷ 0x84 ∷ 0x30 ∷ 0xfd
        ∷ 0x88 ∷ 0xb1 ∷ 0x34 ∷ 0xac ∷ 0x9f ∷ 0xbf ∷ [])
    ∷ (0xe2 ∷ 0xcf ∷ 0x9d ∷ 0xfb ∷ 0xb2 ∷ 0x7b ∷ 0xb1 ∷ 0xf6 ∷ 0xb3 ∷ 0x36 ∷ 0xd3 ∷ 0xbb ∷ 0x66
        ∷ 0xbf ∷ 0x0d ∷ 0xf0 ∷ 0x60 ∷ 0xcd ∷ 0xf1 ∷ 0xb2 ∷ 0x1a ∷ 0x90 ∷ 0xfd ∷ 0xee ∷ 0x35 ∷ 0x0c
        ∷ 0x45 ∷ 0x88 ∷ 0x52 ∷ 0x07 ∷ 0xb5 ∷ 0x8d ∷ [])
    ∷ []
