-- ===== src/Selftest.antt =====
-- firmware/esp32s3-dut/main/mlkem_selftest.c: round trips and implicit rejection on fixed coins. The
-- two round trips differ in the parameter set and the seeds alone, and are one function here.
pub mod Verdict
use pqc_esp32s3_benchmarks.Prelude.{
  ℕ, zero, suc, ◌+◌, ◌*◌, ◌%◌, ◌^◌, Bool, true, false, ◌&&◌, not, List, [], ◌∷◌, ℤ, is_zero,
  if◌then◌else◌, bit_xor, take, drop, ◌||◌,
}
use pqc_esp32s3_benchmarks.Kem.{Kem, same_bytes}

-- The loop of `fill_pattern` from index `i` on, on the bytes left.
unfoldable pub pattern_from : ℕ → ℕ → ℕ → List ℕ
pattern_from zero i seed = []
pattern_from (suc left) i seed = ((seed + i * 7) % 2 ^ 8) ∷ pattern_from left (suc i) seed

abbrev pub fill_pattern : ℕ → ℕ → List ℕ
fill_pattern len seed = pattern_from len 0 seed

-- `roundtrip_512` and `roundtrip_768`
unfoldable pub roundtrip : Kem → ℕ → ℕ → Bool
roundtrip kem keygen_seed enc_seed =
    let (made, pk, sk) = kem.keypair_derand (fill_pattern 64 keygen_seed) in
    let (sent, ct, ss_enc) = kem.enc_derand pk (fill_pattern 32 enc_seed) in
    let (got, ss_dec) = kem.dec ct sk in
    if not (is_zero made)
    then false
    else (if not (is_zero sent)
        then false
        else (if not (is_zero got) then false else same_bytes 32 ss_enc ss_dec))

-- `ct[0] ^= 0x01`
abbrev pub flip_first : List ℕ → List ℕ
flip_first [] = []
flip_first (x ∷ ct) = (bit_xor x 1 % 2 ^ 8) ∷ ct

unfoldable pub implicit_rejection_768 : Kem → Bool
implicit_rejection_768 kem =
    let (made, pk, sk) = kem.keypair_derand (fill_pattern 64 0x55) in
    let (sent, ct, ss_enc) = kem.enc_derand pk (fill_pattern 32 0x66) in
    let (got, ss_dec) = kem.dec (flip_first ct) sk in
    if not (is_zero made) || not (is_zero sent)
    then false
    else (if not (is_zero got) then false else not (same_bytes 32 ss_enc ss_dec))

unfoldable pub mlkem_selftest_run : Kem → Kem → Bool
mlkem_selftest_run kem512 kem768 =
    true
    && roundtrip kem512 0x11 0x22
    && roundtrip kem768 0x33 0x44
    && implicit_rejection_768 kem768
