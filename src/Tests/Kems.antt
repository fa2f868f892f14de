-- ===== src/Tests/Kems.antt =====
-- The self-test and the conformance test on small stand-ins for ML-KEM.
use pqc_esp32s3_benchmarks.Prelude.{
  ℕ, ◌≡◌, ◌≢◌, ◌↔◌, refl, ap, true, false, [], ◌∷◌, arith, pos, inl, inr, get_or,
}
use pqc_esp32s3_benchmarks.Kem.{Kem}
use pqc_esp32s3_benchmarks.Selftest.{mlkem_selftest_run}
use pqc_esp32s3_benchmarks.Selftest.Verdict.{Agrees, Rejects, selftest-Rejects, selftest-blind}
use pqc_esp32s3_benchmarks.Kat.{KeyTables, tables512, tables768, mlkem_kat_run}
use pqc_esp32s3_benchmarks.Kat.Verdict.{Conforms, kat_run-Conforms}
use pqc_esp32s3_benchmarks.Kat.Blind.{kat-IsBlind, kat-IsConstant}

-- The secret is the cipher text, which is a zero and the coins.
abbrev echo : Kem
echo = record {
  public_key_bytes = 64;
  secret_key_bytes = 64;
  ciphertext_bytes = 33;
  keypair_derand = λ d. (pos 0, d, d);
  enc_derand = λ pk m. (pos 0, 0 ∷ m, 0 ∷ m);
  dec = λ ct sk. (pos 0, ct);
  check_pk = λ k. pos (get_or k 0 0);
  check_sk = λ k. pos (get_or k 0 0);
}

echo-Agrees : Agrees echo
echo-Agrees = record {
  keygen_ok = λ d size. refl;
  enc_ok = λ d m size msg_size. refl;
  dec_ok = λ d m size msg_size. (refl, refl);
  agree = λ d m size msg_size. refl;
}

one_ne : ◌≢◌ {A = ℕ} 1 0
one_ne e = omega arith

echo-Rejects : Rejects echo
echo-Rejects = record { rejects = λ d m size msg_size e. one_ne (ap (λ l. get_or l 0 0) e) }

selftest-Rejects_example : mlkem_selftest_run echo echo ≡ true
selftest-Rejects_example = selftest-Rejects echo echo echo-Agrees echo-Agrees echo-Rejects

-- The secret is the key, whatever the cipher text, and every key is accepted.
abbrev deaf : Kem
deaf = record {
  public_key_bytes = 64;
  secret_key_bytes = 64;
  ciphertext_bytes = 32;
  keypair_derand = λ d. (pos 0, d, d);
  enc_derand = λ pk m. (pos 0, m, pk);
  dec = λ ct sk. (pos 0, sk);
  check_pk = λ k. pos 0;
  check_sk = λ k. pos 0;
}

deaf-Agrees : Agrees deaf
deaf-Agrees = record {
  keygen_ok = λ d size. refl;
  enc_ok = λ d m size msg_size. refl;
  dec_ok = λ d m size msg_size. (refl, refl);
  agree = λ d m size msg_size. refl;
}

selftest-blind_example : mlkem_selftest_run echo deaf ≡ false
selftest-blind_example = selftest-blind echo deaf deaf-Agrees (λ ct ct' sk. refl)

abbrev no_keys : KeyTables
no_keys = record {
  keygen_ek = [];
  keygen_dk = [];
  encap_ek = [];
  encap_c = [];
  decap_dk = [];
  decap_c = [];
  ekcheck_key = [];
  dkcheck_key = [];
}

kat_run-Conforms_example :
    (mlkem_kat_run echo (tables512 no_keys) deaf (tables768 no_keys) ≡ true)
    ↔ (Conforms echo (tables512 no_keys) × Conforms deaf (tables768 no_keys))
kat_run-Conforms_example = kat_run-Conforms echo (tables512 no_keys) deaf (tables768 no_keys)

kat-IsBlind_example : mlkem_kat_run echo (tables512 no_keys) deaf (tables768 no_keys) ≡ false
kat-IsBlind_example = kat-IsBlind echo deaf no_keys no_keys (inr (inl (λ a b. refl)))

-- Every secret is empty.
abbrev mute : Kem
mute = record echo { enc_derand = λ pk m. (pos 0, m, []) }

kat-IsConstant_example : mlkem_kat_run mute (tables512 no_keys) deaf (tables768 no_keys) ≡ false
kat-IsConstant_example = kat-IsConstant mute deaf no_keys no_keys (inl (inl (λ a b c d. refl)))
