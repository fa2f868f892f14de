-- ===== src/Bench/Classical.antt =====
-- The X25519 baseline of firmware/esp32s3-bench/main/main.c: its deterministic random bytes, and the
-- exchange that must not be reported if any of its calls failed.
use pqc_esp32s3_benchmarks.Prelude.{
  ℕ, zero, suc, ◌+◌, ◌%◌, ◌^◌, ◌≡◌, refl, ◌∙◌, ap, sym, Bool, true, false, not, List, [], ◌∷◌,
  arith, ℤ, is_zero, if◌then◌else◌, Bool-cases, inl, inr, false≢true,
}
use pqc_esp32s3_benchmarks.Bench.{Bench, checked}

-- `det_rng`: the bytes and the counter afterwards.
unfoldable pub det_rng : ℕ → ℕ → List ℕ × ℕ
det_rng zero counter = ([], counter)
det_rng (suc len) counter =
    let next = (counter + 0x61) % 2 ^ 8 in let (out, last) = det_rng len next in (next ∷ out, last)

-- The calls of the exchange, on the two contexts, the buffers and the counter of `det_rng` together.
pub record Ecdh (Ctx : Type 0) : Type 0 where
  pub setup : Ctx → ℤ × Ctx
  pub make_params : Ctx → ℤ × Ctx
  pub read_params : Ctx → ℤ × Ctx
  pub make_public : Ctx → ℤ × Ctx
  pub read_public : Ctx → ℤ × Ctx
  pub calc_secret_a : Ctx → ℤ × Ctx
  pub calc_secret_b : Ctx → ℤ × Ctx
  pub free : Ctx → Ctx

-- The calls on the raw ECP functions' statics: `init` stands for the five initialisers, `gen_peer` for the
-- key generation of `classical_setup`, with its private key's `init_peer` and `free_peer` around it, and
-- `gen_public` and `compute_shared` for the calls on `s_d`.
pub record Ecp (Ctx : Type 0) : Type 0 where
  pub init : Ctx → Ctx
  pub group_load : Ctx → ℤ × Ctx
  pub init_peer : Ctx → Ctx
  pub gen_peer : Ctx → ℤ × Ctx
  pub free_peer : Ctx → Ctx
  pub gen_public : Ctx → ℤ × Ctx
  pub compute_shared : Ctx → ℤ × Ctx

module _ {Ctx : Type 0} (e : Ecp Ctx) where
  unfoldable pub op_x25519_keygen : Bench Ctx → Bench Ctx
  op_x25519_keygen s = let (rc, ctx) = e.gen_public s.clock in checked rc (record s { clock = ctx })

  unfoldable pub op_x25519_derive : Bench Ctx → Bench Ctx
  op_x25519_derive s =
      let (rc, ctx) = e.compute_shared s.clock in checked rc (record s { clock = ctx })

  unfoldable pub classical_setup : Bench Ctx → Bool × Bench Ctx
  classical_setup s =
      let (loaded, c1) = e.group_load (e.init s.clock) in
      let (made, c2) = e.gen_peer (e.init_peer c1) in
      let c3 = e.free_peer c2 in
      let (own, c4) = e.gen_public c3 in
      if not (is_zero loaded)
      then (false, record s { clock = c1 })
      else (if not (is_zero made)
          then (false, record s { clock = c3 })
          else (is_zero own, record s { clock = c4 }))

-- `if (rc == 0) rc = call(...)`
unfoldable pub if_ok : {Ctx : Type 0} → ℤ × Ctx → (Ctx → ℤ × Ctx) → ℤ × Ctx
if_ok (rc, ctx) call = if is_zero rc then call ctx else (rc, ctx)

module _ {Ctx : Type 0} (e : Ecdh Ctx) where
  unfoldable pub exchange_calls : Ctx → ℤ × Ctx
  exchange_calls ctx =
      if_ok
        (if_ok
          (if_ok (if_ok (if_ok (if_ok (e.setup ctx) e.make_params) e.read_params) e.make_public)
            e.read_public)
          e.calc_secret_a)
        e.calc_secret_b

  unfoldable pub op_x25519_full_exchange : Bench Ctx → Bench Ctx
  op_x25519_full_exchange s =
      let (rc, ctx) = exchange_calls s.clock in checked rc (record s { clock = e.free ctx })

  if_ok-zero :
      (r : ℤ × Ctx) (call : Ctx → ℤ × Ctx)
      → is_zero (if_ok r call).0 ≡ true
      → (is_zero r.0 ≡ true) × (if_ok r call ≡ call r.1)
  unfolding if_ok
  if_ok-zero (rc, ctx) call z = elim (Bool-cases (is_zero rc)) [
    | inl p ↦ (p, rw p refl)
    | inr p ↦ absurd (false≢true (sym (sym z ∙ (rw p p))))
  ]

  -- The results of the calls, each on what the one before it left.
  abbrev pub first_result : Ctx → ℤ × Ctx
  first_result ctx = e.setup ctx

  abbrev pub second_result : Ctx → ℤ × Ctx
  second_result ctx = e.make_params (first_result ctx).1

  abbrev pub third_result : Ctx → ℤ × Ctx
  third_result ctx = e.read_params (second_result ctx).1

  abbrev pub fourth_result : Ctx → ℤ × Ctx
  fourth_result ctx = e.make_public (third_result ctx).1

  abbrev pub fifth_result : Ctx → ℤ × Ctx
  fifth_result ctx = e.read_public (fourth_result ctx).1

  abbrev pub sixth_result : Ctx → ℤ × Ctx
  sixth_result ctx = e.calc_secret_a (fifth_result ctx).1

  abbrev pub seventh_result : Ctx → ℤ × Ctx
  seventh_result ctx = e.calc_secret_b (sixth_result ctx).1

  -- All seven calls succeed.
  pub record Completes (ctx : Ctx) : Type 0 where
    pub setup : is_zero (first_result ctx).0 ≡ true
    pub make_params : is_zero (second_result ctx).0 ≡ true
    pub read_params : is_zero (third_result ctx).0 ≡ true
    pub make_public : is_zero (fourth_result ctx).0 ≡ true
    pub read_public : is_zero (fifth_result ctx).0 ≡ true
    pub calc_secret_a : is_zero (sixth_result ctx).0 ≡ true
    pub calc_secret_b : is_zero (seventh_result ctx).0 ≡ true

  exchange_calls-Completes : (ctx : Ctx) → is_zero (exchange_calls ctx).0 ≡ true → Completes ctx
  unfolding exchange_calls
  exchange_calls-Completes ctx z =
      let (p6, q6) = if_ok-zero r6 e.calc_secret_b z in
      let (p5, q5) = if_ok-zero r5 e.calc_secret_a p6 in
      let (p4, q4) = if_ok-zero r4 e.read_public p5 in
      let (p3, q3) = if_ok-zero r3 e.make_public p4 in
      let (p2, q2) = if_ok-zero r2 e.read_params p3 in
      let (p1, q1) = if_ok-zero r1 e.make_params p2 in
      let e1 : if_ok r1 e.make_params ≡ second_result ctx = q1 in
      let e2 : if_ok r2 e.read_params ≡ third_result ctx = q2 ∙ ap (λ r. e.read_params r.1) e1 in
      let e3 : if_ok r3 e.make_public ≡ fourth_result ctx = q3 ∙ ap (λ r. e.make_public r.1) e2 in
      let e4 : if_ok r4 e.read_public ≡ fifth_result ctx = q4 ∙ ap (λ r. e.read_public r.1) e3 in
      let e5 : if_ok r5 e.calc_secret_a ≡ sixth_result ctx =
        q5 ∙ ap (λ r. e.calc_secret_a r.1) e4 in
      let e6 : if_ok r6 e.calc_secret_b ≡ seventh_result ctx =
        q6 ∙ ap (λ r. e.calc_secret_b r.1) e5 in
      record {
        setup = p1;
        make_params = ap (λ r. is_zero r.0) (sym e1) ∙ p2;
        read_params = ap (λ r. is_zero r.0) (sym e2) ∙ p3;
        make_public = ap (λ r. is_zero r.0) (sym e3) ∙ p4;
        read_public = ap (λ r. is_zero r.0) (sym e4) ∙ p5;
        calc_secret_a = ap (λ r. is_zero r.0) (sym e5) ∙ p6;
        calc_secret_b = ap (λ r. is_zero r.0) (sym e6) ∙ z;
      }
    where
      r1 : ℤ × Ctx
      r1 = e.setup ctx

      r2 : ℤ × Ctx
      r2 = if_ok r1 e.make_params

      r3 : ℤ × Ctx
      r3 = if_ok r2 e.read_params

      r4 : ℤ × Ctx
      r4 = if_ok r3 e.make_public

      r5 : ℤ × Ctx
      r5 = if_ok r4 e.read_public

      r6 : ℤ × Ctx
      r6 = if_ok r5 e.calc_secret_a

  -- An exchange that is not counted as a failure made all seven calls, each on what the one before it
  -- left, and all of them succeeded.
  pub op_x25519_full_exchange-Completes :
      (s : Bench Ctx) → (op_x25519_full_exchange s).op_failures ≡ s.op_failures → Completes s.clock
  unfolding op_x25519_full_exchange
  op_x25519_full_exchange-Completes s same =
      elim (Bool-cases (is_zero (exchange_calls s.clock).0)) [
        | inl p ↦ exchange_calls-Completes s.clock p
        | inr p ↦ absurd (omega (arith, rw p at same))
      ]
