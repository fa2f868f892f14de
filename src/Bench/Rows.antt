-- ===== src/Bench/Rows.antt =====
-- Which rows the benchmark prints.
use pqc_esp32s3_benchmarks.Prelude.{
  ℕ, ◌+◌, ◌≡◌, refl, ◌∙◌, ap, subst, sym, Bool, true, false, List, [], ◌∷◌, ◌++◌, ℤ, is_zero,
  if◌then◌else◌, some, Bool-cases, inl, inr, get_or, length, take, string_bytes, arith, false≢true,
}
use pqc_esp32s3_benchmarks.Bench.{
  Bench, Printout, harness_error, not_reporting, run_one, op_kem512_keygen, op_kem512_encaps,
  op_kem512_decaps, op_kem768_keygen, op_kem768_encaps, op_kem768_decaps,
}
use pqc_esp32s3_benchmarks.Bench.Classical.{
  classical_setup, exchange_calls, op_x25519_keygen, op_x25519_derive, op_x25519_full_exchange,
}
use pqc_esp32s3_benchmarks.Bench.Report.{IsFailing, run_one-IsFailing}
use pqc_esp32s3_benchmarks.Bench.Main.{
  Row, Parts, and_then, keygen512, encaps512, keygen768, encaps768, patterned, prepare_inputs,
  kem_rows, x25519_rows, run_rows, app_main,
}

module _ {Ctx D : Type 0} (d : Parts Ctx D) where
  -- The result of the library call that a row of this name is to measure.
  abbrev pub Measured : Type 0
  Measured = List ℕ × (Bench Ctx → ℤ)

  abbrev pub kem_calls : List Measured
  kem_calls =
      (string_bytes "ML-KEM-512 keygen", λ s. (d.kem512.keypair_derand s.coins).0)
      ∷ (string_bytes "ML-KEM-512 encaps", λ s. (d.kem512.enc_derand s.kem512.pk s.msg).0)
      ∷ (string_bytes "ML-KEM-512 decaps", λ s. (d.kem512.dec s.kem512.ct s.kem512.sk).0)
      ∷ (string_bytes "ML-KEM-768 keygen", λ s. (d.kem768.keypair_derand s.coins).0)
      ∷ (string_bytes "ML-KEM-768 encaps", λ s. (d.kem768.enc_derand s.kem768.pk s.msg).0)
      ∷ (string_bytes "ML-KEM-768 decaps", λ s. (d.kem768.dec s.kem768.ct s.kem768.sk).0)
      ∷ []

  abbrev pub x25519_calls : List Measured
  x25519_calls =
      (string_bytes "X25519 keygen (ecp)", λ s. (d.ecp.gen_public s.clock).0)
      ∷ (string_bytes "X25519 derive (ecp)", λ s. (d.ecp.compute_shared s.clock).0)
      ∷ (string_bytes "X25519 exchange (ecdh)", λ s. (exchange_calls d.ecdh s.clock).0)
      ∷ []

  -- `op` makes the call: it counts a failure exactly if the call fails.
  abbrev pub Makes : (Bench Ctx → Bench Ctx) → (Bench Ctx → ℤ) → Type 0
  Makes op call =
      (s : Bench Ctx) → (op s).op_failures ≡ s.op_failures + (if is_zero (call s) then 0 else 1)

  -- One row for each of the calls, in their order, from the state `s` on: under its name, `run_one` of an
  -- operation that makes it.
  abbrev pub Reported : List Measured → Bench Ctx → List (Printout D) → Type 0
  Reported [] s ps = ps ≡ []
  Reported ((name, call) ∷ calls) s ps =
      (op : Bench Ctx → Bench Ctx) × Makes op call
      × (rest : List (Printout D)) × (ps
          ≡ (run_one d.read d.qsort d.double d.tasks name op s).0 ∷ rest)
      × Reported calls (run_one d.read d.qsort d.double d.tasks name op s).1 rest

  -- Rows with the names of the calls, in their order, on operations that make them.
  abbrev Matches : List (Row Ctx) → List Measured → Type 0
  Matches [] [] = Unit {0}
  Matches ((name, op) ∷ rows) ((title, call) ∷ calls) =
      (name ≡ title) × Makes op call × Matches rows calls
  Matches _ _ = ⊥

  Matches-append :
      (rows rows' : List (Row Ctx)) (calls calls' : List Measured)
      → Matches rows calls
      → Matches rows' calls'
      → Matches (rows ++ rows') (calls ++ calls')
  Matches-append [] rows' [] calls' m m' = m'
  Matches-append [] rows' (c ∷ calls) calls' m m' = absurd m
  Matches-append (r ∷ rows) rows' [] calls' m m' = absurd m
  Matches-append ((name, op) ∷ rows) rows' ((title, call) ∷ calls) calls' (same, makes, m) m' =
      (same, makes, Matches-append rows rows' calls calls' m m')

  run_rows-Reported :
      (rows : List (Row Ctx)) (calls : List Measured) (s : Bench Ctx)
      → Matches rows calls
      → Reported calls s (run_rows d rows s).0
  unfolding run_rows
  run_rows-Reported [] [] s m = refl
  run_rows-Reported [] (c ∷ calls) s m = absurd m
  run_rows-Reported (r ∷ rows) [] s m = absurd m
  run_rows-Reported ((name, op) ∷ rows) ((title, call) ∷ calls) s (same, makes, m) =
      let s1 = (run_one d.read d.qsort d.double d.tasks name op s).1 in
      subst (λ t. Reported ((t, call) ∷ calls) s (run_rows d ((name, op) ∷ rows) s).0) same
        (op, makes, (run_rows d rows s1).0, refl, run_rows-Reported rows calls s1 m)

  kem-Matches : Matches (kem_rows d) kem_calls
  unfolding op_kem512_keygen op_kem512_encaps op_kem512_decaps op_kem768_keygen op_kem768_encaps
      op_kem768_decaps
  kem-Matches = (
    refl,
    λ s. ground arith,
    (
      refl,
      λ s. ground arith,
      (
        refl,
        λ s. ground arith,
        (refl, λ s. ground arith, (refl, λ s. ground arith, (refl, λ s. ground arith, tt))),
      ),
    ),
  )

  -- The X25519 rows, or none.
  classical-Matches :
      (b : Bool) → Matches (if b then x25519_rows d else []) (if b then x25519_calls else [])
  unfolding op_x25519_keygen op_x25519_derive op_x25519_full_exchange
  classical-Matches true =
      (refl, λ s. ground arith, (refl, λ s. ground arith, (refl, λ s. ground arith, tt)))
  classical-Matches false = tt

  and_then-true :
      (r : Bool × Bench Ctx) (next : Bench Ctx → ℤ × Bench Ctx)
      → (and_then d r next).0 ≡ true
      → (r.0 ≡ true) × (is_zero (next r.1).0 ≡ true) × ((and_then d r next).1 ≡ (next r.1).1)
  unfolding and_then
  and_then-true (true, s) next e = (refl, e, refl)
  and_then-true (false, s) next e = absurd (false≢true e)

  -- The four calls that make the inputs succeed, each on what the one before it left.
  pub record Prepared (s : Bench Ctx) : Type 0 where
    pub keygen512_ok : is_zero (keygen512 d (patterned d s)).0 ≡ true
    pub encaps512_ok : is_zero (encaps512 d (keygen512 d (patterned d s)).1).0 ≡ true
    pub keygen768_ok :
        is_zero (keygen768 d (encaps512 d (keygen512 d (patterned d s)).1).1).0 ≡ true
    pub encaps768_ok :
        is_zero (encaps768 d (keygen768 d (encaps512 d (keygen512 d (patterned d s)).1).1).1).0
        ≡ true

  prepare_inputs-Prepared : (s : Bench Ctx) → (prepare_inputs d s).0 ≡ true → Prepared s
  unfolding prepare_inputs and_then
  prepare_inputs-Prepared s e =
      let (e3, p4, q4) = and_then-true r3 (encaps768 d) e in
      let (e2, p3, q3) = and_then-true r2 (keygen768 d) e3 in
      let (e1, p2, q2) = and_then-true r1 (encaps512 d) e2 in
      record {
        keygen512_ok = e1;
        encaps512_ok = p2;
        keygen768_ok = rw q2 at p3;
        encaps768_ok = rw q2 at (rw q3 at p4);
      }
    where
      r1 : Bool × Bench Ctx
      r1 = and_then d (true, patterned d s) (keygen512 d)

      r2 : Bool × Bench Ctx
      r2 = and_then d r1 (encaps512 d)

      r3 : Bool × Bench Ctx
      r3 = and_then d r2 (keygen768 d)

  -- If the benchmark reports at all, all four calls that make its inputs succeeded, and from there on it
  -- printed one row for each of the six calls of ML-KEM in order, and then for the three of X25519
  -- exactly if their set-up succeeded: each row under the name of its call, measured on an operation that
  -- counts a failure exactly if that call fails.
  pub app_main-Prepared :
      (s : Bench Ctx) {ps : List (Printout D)} {s' : Bench Ctx}
      → app_main d s ≡ (some ps, s')
      → Prepared s
        × Reported
            (kem_calls
              ++ (if (classical_setup d.ecp (prepare_inputs d s).1).0 then x25519_calls else []))
            (classical_setup d.ecp (prepare_inputs d s).1).1
            ps
  unfolding app_main
  app_main-Prepared s {ps} e = elim (Bool-cases (prepare_inputs d s).0) [
    | inr f ↦ cc (ap (λ r. r.0) (rw f at e))
    | inl f ↦
        let same : (run_rows d rows (classical_setup d.ecp (prepare_inputs d s).1).1).0 ≡ ps =
          cc (ap (λ r. r.0) (rw f at e)) in
        (
          prepare_inputs-Prepared s f,
          subst
              (Reported
                (kem_calls
                  ++ (if (classical_setup d.ecp (prepare_inputs d s).1).0
                      then x25519_calls
                      else []))
                (classical_setup d.ecp (prepare_inputs d s).1).1)
              same
              (run_rows-Reported rows
                (kem_calls
                  ++ (if (classical_setup d.ecp (prepare_inputs d s).1).0
                      then x25519_calls
                      else []))
                (classical_setup d.ecp (prepare_inputs d s).1).1
                (Matches-append (kem_rows d)
                  (if (classical_setup d.ecp (prepare_inputs d s).1).0 then x25519_rows d else [])
                  kem_calls
                  (if (classical_setup d.ecp (prepare_inputs d s).1).0 then x25519_calls else [])
                  kem-Matches
                  (classical-Matches (classical_setup d.ecp (prepare_inputs d s).1).0))),
        )
  ]
    where
      rows : List (Row Ctx)
      rows =
          kem_rows d
          ++ (if (classical_setup d.ecp (prepare_inputs d s).1).0 then x25519_rows d else [])

  module _ (quiet : (s : Bench Ctx) → (d.read s).1.op_failures ≡ s.op_failures)
      (prompt : (s : Bench Ctx) → d.tasks.in_time s ≡ true) where
    -- The failed calls of an operation that always fails.
    abbrev pub calls_made : ℕ
    calls_made = if d.tasks.created then 53 else 52

    run_rows-IsFailing :
        (before after : List (Row Ctx)) (name : List ℕ) (op : Bench Ctx → Bench Ctx) (s : Bench Ctx)
        → IsFailing d.read d.qsort d.double d.tasks name op quiet
        → get_or (run_rows d (before ++ (name, op) ∷ after) s).0 (length before) (harness_error [])
          ≡ not_reporting name calls_made
    unfolding run_rows
    run_rows-IsFailing [] after name op s bad =
        run_one-IsFailing d.read d.qsort d.double d.tasks name op quiet bad prompt s
    run_rows-IsFailing ((n, o) ∷ before) after name op s bad =
        run_rows-IsFailing before after name op (run_one d.read d.qsort d.double d.tasks n o s).1
          bad

    -- With a cycle counter that leaves the failures alone, and a stack probe that, where its task can be
    -- created, always gives its notification in time: if the library's ML-KEM-768 decapsulation fails at
    -- every call, the benchmark prints no figure in its row, but that all 53 calls of it failed, or 52
    -- where the stack probe's task cannot be created.
    pub app_main-IsFailing :
        ((ct sk : List ℕ) → is_zero (d.kem768.dec ct sk).0 ≡ false)
        → (s : Bench Ctx) {ps : List (Printout D)} {s' : Bench Ctx} → app_main d s ≡ (some ps, s')
        → get_or ps 5 (harness_error [])
          ≡ not_reporting (string_bytes "ML-KEM-768 decaps") calls_made
    unfolding app_main op_kem768_decaps
    app_main-IsFailing bad s {ps} e = elim (Bool-cases (prepare_inputs d s).0) [
      | inr f ↦ cc (ap (λ r. r.0) (rw f at e))
      | inl f ↦
          let same : (run_rows d rows (classical_setup d.ecp (prepare_inputs d s).1).1).0 ≡ ps =
            cc (ap (λ r. r.0) (rw f at e)) in
          ap (λ l. get_or l 5 (harness_error [])) (sym same)
          ∙ run_rows-IsFailing (take 5 (kem_rows d)) more (string_bytes "ML-KEM-768 decaps")
              (op_kem768_decaps d.kem512 d.kem768) (classical_setup d.ecp (prepare_inputs d s).1).1
              (λ v. rw (bad v.kem768.ct v.kem768.sk))
    ]
      where
        more : List (Row Ctx)
        more = if (classical_setup d.ecp (prepare_inputs d s).1).0 then x25519_rows d else []

        rows : List (Row Ctx)
        rows = kem_rows d ++ more
