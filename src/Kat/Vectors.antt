-- ===== src/Kat/Vectors.antt =====
-- firmware/esp32s3-dut/main/acvp_vectors.h: the counts, the verdicts of the key checks, and the
-- tables whose rows are seeds and secrets of 32 bytes.
pub mod Keygen512
pub mod Encap512
pub mod Decap512
pub mod Keygen768
pub mod Encap768
pub mod Decap768
use pqc_esp32s3_benchmarks.Prelude.{ℕ, List, [], ◌∷◌}

abbrev pub keygen_count : ℕ
keygen_count = 25

abbrev pub encap_count : ℕ
encap_count = 25

abbrev pub decap_count : ℕ
decap_count = 10

abbrev pub ekcheck_count : ℕ
ekcheck_count = 10

abbrev pub dkcheck_count : ℕ
dkcheck_count = 10

abbrev pub kat512_ekcheck_valid : List ℕ
kat512_ekcheck_valid = 1 ∷ 0 ∷ 0 ∷ 0 ∷ 1 ∷ 1 ∷ 1 ∷ 0 ∷ 1 ∷ 0 ∷ []

abbrev pub kat512_dkcheck_valid : List ℕ
kat512_dkcheck_valid = 0 ∷ 0 ∷ 1 ∷ 0 ∷ 0 ∷ 1 ∷ 1 ∷ 0 ∷ 1 ∷ 1 ∷ []

abbrev pub kat768_ekcheck_valid : List ℕ
kat768_ekcheck_valid = 1 ∷ 0 ∷ 0 ∷ 1 ∷ 1 ∷ 0 ∷ 0 ∷ 1 ∷ 1 ∷ 0 ∷ []

abbrev pub kat768_dkcheck_valid : List ℕ
kat768_dkcheck_valid = 1 ∷ 1 ∷ 0 ∷ 1 ∷ 1 ∷ 1 ∷ 0 ∷ 0 ∷ 0 ∷ 0 ∷ []
