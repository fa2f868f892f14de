-- ===== src/Kat.antt =====
-- firmware/esp32s3-dut/main/mlkem_kat.c: the conformance test against the NIST ACVP vectors. The macro
-- DEFINE_KAT_LEVEL is a parameter set and its tables as arguments. The tables of whole keys and cipher
-- texts in acvp_vectors.h are arguments of `tables512` and `tables768`; Kat/Vectors has the others.
pub mod Vectors
pub mod Verdict
pub mod Blind
use pqc_esp32s3_benchmarks.Prelude.{
  ℕ, zero, suc, ◌+◌, Bool, true, false, ◌||◌, ◌==◌, not, List, [], ◌∷◌, ◌++◌, ℤ, is_zero,
  if◌then◌else◌, get_or, take,
}
use pqc_esp32s3_benchmarks.Kem.{Kem, same_bytes}
use pqc_esp32s3_benchmarks.Kat.Vectors.{
  keygen_count, encap_count, decap_count, ekcheck_count, dkcheck_count, kat512_ekcheck_valid,
  kat512_dkcheck_valid, kat768_ekcheck_valid, kat768_dkcheck_valid,
}
use pqc_esp32s3_benchmarks.Kat.Vectors.Keygen512.{kat512_keygen_d, kat512_keygen_z}
use pqc_esp32s3_benchmarks.Kat.Vectors.Encap512.{kat512_encap_m, kat512_encap_k}
use pqc_esp32s3_benchmarks.Kat.Vectors.Decap512.{kat512_decap_k}
use pqc_esp32s3_benchmarks.Kat.Vectors.Keygen768.{kat768_keygen_d, kat768_keygen_z}
use pqc_esp32s3_benchmarks.Kat.Vectors.Encap768.{kat768_encap_m, kat768_encap_k}
use pqc_esp32s3_benchmarks.Kat.Vectors.Decap768.{kat768_decap_k}

-- `kat_result_t`
pub record KatResult : Type 0 where
  pub run : ℕ
  pub failed : ℕ

-- The tables of one parameter set.
pub record Tables : Type 0 where
  pub keygen_d : List (List ℕ)
  pub keygen_z : List (List ℕ)
  pub keygen_ek : List (List ℕ)
  pub keygen_dk : List (List ℕ)
  pub encap_ek : List (List ℕ)
  pub encap_m : List (List ℕ)
  pub encap_c : List (List ℕ)
  pub encap_k : List (List ℕ)
  pub decap_dk : List (List ℕ)
  pub decap_c : List (List ℕ)
  pub decap_k : List (List ℕ)
  pub ekcheck_key : List (List ℕ)
  pub ekcheck_valid : List ℕ
  pub dkcheck_key : List (List ℕ)
  pub dkcheck_valid : List ℕ

-- The tables of keys and cipher texts of one parameter set.
pub record KeyTables : Type 0 where
  pub keygen_ek : List (List ℕ)
  pub keygen_dk : List (List ℕ)
  pub encap_ek : List (List ℕ)
  pub encap_c : List (List ℕ)
  pub decap_dk : List (List ℕ)
  pub decap_c : List (List ℕ)
  pub ekcheck_key : List (List ℕ)
  pub dkcheck_key : List (List ℕ)

abbrev pub tables512 : KeyTables → Tables
tables512 k = record {
  keygen_d = kat512_keygen_d;
  keygen_z = kat512_keygen_z;
  keygen_ek = k.keygen_ek;
  keygen_dk = k.keygen_dk;
  encap_ek = k.encap_ek;
  encap_m = kat512_encap_m;
  encap_c = k.encap_c;
  encap_k = kat512_encap_k;
  decap_dk = k.decap_dk;
  decap_c = k.decap_c;
  decap_k = kat512_decap_k;
  ekcheck_key = k.ekcheck_key;
  ekcheck_valid = kat512_ekcheck_valid;
  dkcheck_key = k.dkcheck_key;
  dkcheck_valid = kat512_dkcheck_valid;
}

abbrev pub tables768 : KeyTables → Tables
tables768 k = record {
  keygen_d = kat768_keygen_d;
  keygen_z = kat768_keygen_z;
  keygen_ek = k.keygen_ek;
  keygen_dk = k.keygen_dk;
  encap_ek = k.encap_ek;
  encap_m = kat768_encap_m;
  encap_c = k.encap_c;
  encap_k = kat768_encap_k;
  decap_dk = k.decap_dk;
  decap_c = k.decap_c;
  decap_k = kat768_decap_k;
  ekcheck_key = k.ekcheck_key;
  ekcheck_valid = kat768_ekcheck_valid;
  dkcheck_key = k.dkcheck_key;
  dkcheck_valid = kat768_dkcheck_valid;
}

-- The loop over the vectors from index `i` on, on the rounds left, with the failures so far.
unfoldable pub count_failures : (ℕ → Bool) → ℕ → ℕ → ℕ → ℕ
count_failures fails zero i failed = failed
count_failures fails (suc left) i failed =
    count_failures fails left (suc i) (if fails i then suc failed else failed)

unfoldable pub test_group : ℕ → (ℕ → Bool) → KatResult
test_group count fails = record { run = count; failed = count_failures fails count 0 0 }

abbrev pub row : List (List ℕ) → ℕ → List ℕ
row table i = get_or table i []

-- `accepted != (valid != 0)`
abbrev pub verdict_fails : Bool → ℕ → Bool
verdict_fails accepted valid = if accepted then valid == 0 else not (valid == 0)

module _ (kem : Kem) (t : Tables) where
  -- The tests in the loops: whether vector `i` fails.
  unfoldable pub keygen_fails : ℕ → Bool
  keygen_fails i =
      let coins = take 32 (row t.keygen_d i) ++ take 32 (row t.keygen_z i) in
      let (rc, pk, sk) = kem.keypair_derand coins in
      not (is_zero rc)
      || not (same_bytes kem.public_key_bytes pk (row t.keygen_ek i))
      || not (same_bytes kem.secret_key_bytes sk (row t.keygen_dk i))

  unfoldable pub encap_fails : ℕ → Bool
  encap_fails i =
      let (rc, ct, ss) = kem.enc_derand (row t.encap_ek i) (row t.encap_m i) in
      not (is_zero rc)
      || not (same_bytes kem.ciphertext_bytes ct (row t.encap_c i))
      || not (same_bytes 32 ss (row t.encap_k i))

  unfoldable pub decap_fails : ℕ → Bool
  decap_fails i =
      let (rc, ss) = kem.dec (row t.decap_c i) (row t.decap_dk i) in
      not (is_zero rc) || not (same_bytes 32 ss (row t.decap_k i))

  unfoldable pub ekcheck_fails : ℕ → Bool
  ekcheck_fails i =
      verdict_fails (is_zero (kem.check_pk (row t.ekcheck_key i))) (get_or t.ekcheck_valid i 0)

  unfoldable pub dkcheck_fails : ℕ → Bool
  dkcheck_fails i =
      verdict_fails (is_zero (kem.check_sk (row t.dkcheck_key i))) (get_or t.dkcheck_valid i 0)

  -- `kat_keygen_*`, `kat_encap_*`, `kat_decap_*`, `kat_ekcheck_*` and `kat_dkcheck_*`
  abbrev pub kat_keygen : KatResult
  kat_keygen = test_group keygen_count keygen_fails

  abbrev pub kat_encap : KatResult
  kat_encap = test_group encap_count encap_fails

  abbrev pub kat_decap : KatResult
  kat_decap = test_group decap_count decap_fails

  abbrev pub kat_ekcheck : KatResult
  kat_ekcheck = test_group ekcheck_count ekcheck_fails

  abbrev pub kat_dkcheck : KatResult
  kat_dkcheck = test_group dkcheck_count dkcheck_fails

-- The loop over the cases: the sums so far, vectors and failures.
unfoldable pub sum_cases : List KatResult → ℕ → ℕ → ℕ × ℕ
sum_cases [] total failed = (total, failed)
sum_cases (r ∷ cases) total failed = sum_cases cases (total + r.run) (failed + r.failed)

abbrev pub cases_of : Kem → Tables → Kem → Tables → List KatResult
cases_of kem512 t512 kem768 t768 =
    kat_keygen kem512 t512
    ∷ kat_encap kem512 t512
    ∷ kat_decap kem512 t512
    ∷ kat_ekcheck kem512 t512
    ∷ kat_dkcheck kem512 t512
    ∷ kat_keygen kem768 t768
    ∷ kat_encap kem768 t768
    ∷ kat_decap kem768 t768
    ∷ kat_ekcheck kem768 t768
    ∷ kat_dkcheck kem768 t768
    ∷ []

unfoldable pub mlkem_kat_run : Kem → Tables → Kem → Tables → Bool
mlkem_kat_run kem512 t512 kem768 t768 =
    let (total, failed) = sum_cases (cases_of kem512 t512 kem768 t768) 0 0 in failed == 0
