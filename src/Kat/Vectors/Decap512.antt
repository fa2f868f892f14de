-- ===== src/Kat/Vectors/Decap512.antt =====
-- firmware/esp32s3-dut/main/acvp_vectors.h: the rows of 32 bytes of the ML-KEM-512 Decap vectors.
use pqc_esp32s3_benchmarks.Prelude.{ℕ, List, [], ◌∷◌}

abbrev pub kat512_decap_k : List (List ℕ)
kat512_decap_k =
    (0x1e ∷ 0xb6 ∷ 0x44 ∷ 0xeb ∷ 0xfd ∷ 0x75 ∷ 0x87 ∷ 0x7d ∷ 0x0c ∷ 0xa4 ∷ 0x81 ∷ 0xe1 ∷ 0xa3 ∷ 0xb9
      ∷ 0x5e ∷ 0x7c ∷ 0x46 ∷ 0x1b ∷ 0x81 ∷ 0xe0 ∷ 0xe3 ∷ 0xdf ∷ 0x5a ∷ 0x42 ∷ 0x69 ∷ 0x97 ∷ 0x75
      ∷ 0xc7 ∷ 0xbd ∷ 0xa3 ∷ 0xb0 ∷ 0x04 ∷ [])
    ∷ (0x44 ∷ 0xba ∷ 0x09 ∷ 0x78 ∷ 0xbd ∷ 0x22 ∷ 0xa3 ∷ 0x93 ∷ 0xef ∷ 0xb1 ∷ 0xc4 ∷ 0xc8 ∷ 0x27
        ∷ 0x4d ∷ 0xaa ∷ 0xf3 ∷ 0x17 ∷ 0x09 ∷ 0xd2 ∷ 0xa4 ∷ 0xda ∷ 0xbb ∷ 0x02 ∷ 0x56 ∷ 0xc0 ∷ 0xb5
        ∷ 0x33 ∷ 0xed ∷ 0x50 ∷ 0xeb ∷ 0xc3 ∷ 0xe5 ∷ [])
    ∷ (0x6e ∷ 0xa0 ∷ 0xd4 ∷ 0x95 ∷ 0xa7 ∷ 0xff ∷ 0x8a ∷ 0xe6 ∷ 0x95 ∷ 0xe4 ∷ 0xa3 ∷ 0xb9 ∷ 0x9d
        ∷ 0xcc ∷ 0x16 ∷ 0xd5 ∷ 0x3a ∷ 0x74 ∷ 0xb9 ∷ 0x94 ∷ 0x93 ∷ 0xc5 ∷ 0xeb ∷ 0xdf ∷ 0x24 ∷ 0xa5
        ∷ 0xf9 ∷ 0x3a ∷ 0x11 ∷ 0x2b ∷ 0x75 ∷ 0x47 ∷ [])
    ∷ (0xea ∷ 0x80 ∷ 0x67 ∷ 0xe6 ∷ 0x93 ∷ 0xb3 ∷ 0x68 ∷ 0xf1 ∷ 0xe0 ∷ 0x80 ∷ 0x0d ∷ 0xeb ∷ 0x84
        ∷ 0xdc ∷ 0xf2 ∷ 0xe7 ∷ 0x30 ∷ 0x4d ∷ 0xb4 ∷ 0xea ∷ 0x43 ∷ 0x9e ∷ 0x05 ∷ 0xdd ∷ 0xac ∷ 0x64
        ∷ 0xaa ∷ 0x23 ∷ 0x58 ∷ 0x37 ∷ 0x68 ∷ 0x73 ∷ [])
    ∷ (0xbe ∷ 0x38 ∷ 0xde ∷ 0x64 ∷ 0xbd ∷ 0x93 ∷ 0xe9 ∷ 0xf2 ∷ 0x70 ∷ 0x87 ∷ 0xa1 ∷ 0x61 ∷ 0x45
        ∷ 0xdc ∷ 0xd8 ∷ 0x08 ∷ 0x9a ∷ 0xb9 ∷ 0x3b ∷ 0x9f ∷ 0xe5 ∷ 0x09 ∷ 0x1d ∷ 0x69 ∷ 0x6a ∷ 0xfd
        ∷ 0xd8 ∷ 0x12 ∷ 0x68 ∷ 0x1a ∷ 0xe2 ∷ 0xc2 ∷ [])
    ∷ (0xc4 ∷ 0x36 ∷ 0xd0 ∷ 0xfa ∷ 0x77 ∷ 0xff ∷ 0xd3 ∷ 0xfb ∷ 0x92 ∷ 0x7c ∷ 0x7f ∷ 0xfe ∷ 0xdd
        ∷ 0x88 ∷ 0x41 ∷ 0xf1 ∷ 0xed ∷ 0x85 ∷ 0xcf ∷ 0x0f ∷ 0xe7 ∷ 0xbf ∷ 0x79 ∷ 0xad ∷ 0x27 ∷ 0x04
        ∷ 0xca ∷ 0xff ∷ 0x8d ∷ 0xd0 ∷ 0x64 ∷ 0xe4 ∷ [])
    ∷ (0xb1 ∷ 0x3e ∷ 0x73 ∷ 0xf6 ∷ 0x2d ∷ 0x5b ∷ 0x11 ∷ 0x83 ∷ 0x18 ∷ 0x70 ∷ 0x61 ∷ 0x17 ∷ 0xe6
        ∷ 0xdf ∷ 0x1f ∷ 0x37 ∷ 0x56 ∷ 0x75 ∷ 0x57 ∷ 0xdc ∷ 0xcd ∷ 0xc1 ∷ 0x39 ∷ 0x46 ∷ 0x62 ∷ 0xc0
        ∷ 0x5f ∷ 0xa4 ∷ 0x1a ∷ 0x47 ∷ 0xe0 ∷ 0x18 ∷ [])
    ∷ (0xc2 ∷ 0xf8 ∷ 0xc6 ∷ 0x50 ∷ 0x7e ∷ 0x23 ∷ 0x7b ∷ 0xa5 ∷ 0xf8 ∷ 0xdb ∷ 0xc6 ∷ 0xa0 ∷ 0xe1
        ∷ 0x9b ∷ 0x8c ∷ 0x6d ∷ 0xd8 ∷ 0x30 ∷ 0x2f ∷ 0x82 ∷ 0xcb ∷ 0x84 ∷ 0x7c ∷ 0xf8 ∷ 0x06 ∷ 0x22
        ∷ 0xb4 ∷ 0x87 ∷ 0x21 ∷ 0x0d ∷ 0x97 ∷ 0x5c ∷ [])
    ∷ (0x16 ∷ 0x83 ∷ 0x17 ∷ 0x0c ∷ 0x84 ∷ 0x8b ∷ 0x37 ∷ 0xf9 ∷ 0x91 ∷ 0xea ∷ 0x80 ∷ 0xa1 ∷ 0x21
        ∷ 0xe8 ∷ 0x66 ∷ 0x56 ∷ 0xd8 ∷ 0x66 ∷ 0x6b ∷ 0xde ∷ 0xf6 ∷ 0x50 ∷ 0x06 ∷ 0x13 ∷ 0xbb ∷ 0x86
        ∷ 0x2b ∷ 0xf6 ∷ 0xf4 ∷ 0xe2 ∷ 0xbc ∷ 0x99 ∷ [])
    ∷ (0xb8 ∷ 0xf6 ∷ 0x11 ∷ 0xb3 ∷ 0x24 ∷ 0xc1 ∷ 0x84 ∷ 0x26 ∷ 0xfb ∷ 0xd2 ∷ 0xa5 ∷ 0xb6 ∷ 0x32
        ∷ 0x3e ∷ 0x70 ∷ 0x61 ∷ 0x5f ∷ 0xaf ∷ 0xca ∷ 0x94 ∷ 0x93 ∷ 0x26 ∷ 0x51 ∷ 0x8c ∷ 0x23 ∷ 0xd5
        ∷ 0xfb ∷ 0x0e ∷ 0x0d ∷ 0x1d ∷ 0x4b ∷ 0x94 ∷ [])
    ∷ []
