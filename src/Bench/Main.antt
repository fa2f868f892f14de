-- ===== src/Bench/Main.antt =====
-- `app_main` of firmware/esp32s3-bench/main/main.c: the inputs, the X25519 set-up, and the rows.
use pqc_esp32s3_benchmarks.Prelude.{
  ℕ, Bool, true, false, not, List, [], ◌∷◌, ◌++◌, ℤ, is_zero, if◌then◌else◌, Option, none, some,
  string_bytes,
}
use pqc_esp32s3_benchmarks.Platform.{Double}
use pqc_esp32s3_benchmarks.Kem.{Kem}
use pqc_esp32s3_benchmarks.Selftest.{fill_pattern}
use pqc_esp32s3_benchmarks.Bench.{
  Bench, Tasks, Printout, run_one, op_kem512_keygen, op_kem512_encaps, op_kem512_decaps,
  op_kem768_keygen, op_kem768_encaps, op_kem768_decaps,
}
use pqc_esp32s3_benchmarks.Bench.Classical.{
  Ecdh, Ecp, op_x25519_keygen, op_x25519_derive, op_x25519_full_exchange, classical_setup,
}

-- A measured operation with the name of its row.
abbrev pub Row : Type 0 → Type 0
Row Ctx = List ℕ × (Bench Ctx → Bench Ctx)

-- What the program calls.
pub record Parts (Ctx D : Type 0) : Type 0 where
  pub read : Bench Ctx → ℕ × Bench Ctx
  pub qsort : (ℕ → ℕ → ℤ) → List ℕ → List ℕ
  pub double : Double D
  pub tasks : Tasks (Bench Ctx)
  pub kem512 : Kem
  pub kem768 : Kem
  pub ecp : Ecp Ctx
  pub ecdh : Ecdh Ctx

module _ {Ctx D : Type 0} (d : Parts Ctx D) where
  -- One operand of `||` in the condition: it is called if those before it returned 0.
  unfoldable pub and_then : Bool × Bench Ctx → (Bench Ctx → ℤ × Bench Ctx) → Bool × Bench Ctx
  and_then (ok, s) next = let (rc, s') = next s in if ok then (is_zero rc, s') else (false, s)

  -- The four calls, as in the operations measured but with their results kept.
  abbrev pub keygen512 : Bench Ctx → ℤ × Bench Ctx
  keygen512 s =
      let (rc, pk, sk) = d.kem512.keypair_derand s.coins in
      (rc, record s { kem512 = record s.kem512 { pk = pk; sk = sk } })

  abbrev pub encaps512 : Bench Ctx → ℤ × Bench Ctx
  encaps512 s =
      let (rc, ct, ss) = d.kem512.enc_derand s.kem512.pk s.msg in
      (rc, record s { kem512 = record s.kem512 { ct = ct }; ss = ss })

  abbrev pub keygen768 : Bench Ctx → ℤ × Bench Ctx
  keygen768 s =
      let (rc, pk, sk) = d.kem768.keypair_derand s.coins in
      (rc, record s { kem768 = record s.kem768 { pk = pk; sk = sk } })

  abbrev pub encaps768 : Bench Ctx → ℤ × Bench Ctx
  encaps768 s =
      let (rc, ct, ss) = d.kem768.enc_derand s.kem768.pk s.msg in
      (rc, record s { kem768 = record s.kem768 { ct = ct }; ss = ss })

  abbrev pub patterned : Bench Ctx → Bench Ctx
  patterned s = record s { coins = fill_pattern 64 0xa1; msg = fill_pattern 32 0xb2 }

  -- The inputs that each operation needs, and whether all of them were made.
  unfoldable pub prepare_inputs : Bench Ctx → Bool × Bench Ctx
  prepare_inputs s =
      and_then (and_then (and_then (and_then (true, patterned s) keygen512) encaps512) keygen768)
        encaps768

  abbrev pub kem_rows : List (Row Ctx)
  kem_rows =
      (string_bytes "ML-KEM-512 keygen", op_kem512_keygen d.kem512 d.kem768)
      ∷ (string_bytes "ML-KEM-512 encaps", op_kem512_encaps d.kem512 d.kem768)
      ∷ (string_bytes "ML-KEM-512 decaps", op_kem512_decaps d.kem512 d.kem768)
      ∷ (string_bytes "ML-KEM-768 keygen", op_kem768_keygen d.kem512 d.kem768)
      ∷ (string_bytes "ML-KEM-768 encaps", op_kem768_encaps d.kem512 d.kem768)
      ∷ (string_bytes "ML-KEM-768 decaps", op_kem768_decaps d.kem512 d.kem768)
      ∷ []

  abbrev pub x25519_rows : List (Row Ctx)
  x25519_rows =
      (string_bytes "X25519 keygen (ecp)", op_x25519_keygen d.ecp)
      ∷ (string_bytes "X25519 derive (ecp)", op_x25519_derive d.ecp)
      ∷ (string_bytes "X25519 exchange (ecdh)", op_x25519_full_exchange d.ecdh)
      ∷ []

  -- One `run_one` after the other.
  unfoldable pub run_rows : List (Row Ctx) → Bench Ctx → List (Printout D) × Bench Ctx
  run_rows [] s = ([], s)
  run_rows ((name, op) ∷ rows) s =
      let (p, s1) = run_one d.read d.qsort d.double d.tasks name op s in
      let (ps, s2) = run_rows rows s1 in (p ∷ ps, s2)

  -- The rows, or `none` where the inputs could not be made.
  unfoldable pub app_main : Bench Ctx → Option (List (Printout D)) × Bench Ctx
  app_main s =
      let (prepared, s1) = prepare_inputs s in
      let (classical, s2) = classical_setup d.ecp s1 in
      let (ps, s3) = run_rows (kem_rows ++ (if classical then x25519_rows else [])) s2 in
      if not prepared then (none, s1) else (some ps, s3)
