-- ===== src/Kat/Blind.antt =====
-- Libraries that the conformance test must not let through.
use pqc_esp32s3_benchmarks.Prelude.{
  ℕ, ◌≡◌, refl, ◌∙◌, ap, sym, Bool, true, false, not, ◌||◌, List, arith, Bool-cases, inl, inr, ℤ,
  is_zero, take, false≢true, ◌⊎◌, get_or, ◌==◌,
}
use pqc_esp32s3_benchmarks.Kem.{Kem, same_bytes_eq}
use pqc_esp32s3_benchmarks.Kat.{
  row, verdict_fails, Tables, KeyTables, tables512, tables768, encap_fails, decap_fails,
  ekcheck_fails, dkcheck_fails, mlkem_kat_run,
}
use pqc_esp32s3_benchmarks.Kat.Verdict.{Conforms, kat_run-Conforms}

-- A check that gives all keys the same verdict.
abbrev pub IsBlind : (List ℕ → ℤ) → Type 0
IsBlind check = (a b : List ℕ) → is_zero (check a) ≡ is_zero (check b)

-- A verdict that is right on a valid key and on an invalid one is not always the same.
verdicts :
    (b : Bool) (valid invalid : ℕ)
    → verdict_fails b valid ≡ false
    → verdict_fails b invalid ≡ false
    → (valid == 0) ≡ false
    → (invalid == 0) ≡ true
    → false ≡ true
verdicts true valid invalid p q v i = sym q ∙ i
verdicts false valid invalid p q v i = sym (sym (ap not v) ∙ p)

IsBlind-wrong :
    (check : List ℕ → ℤ)
    → IsBlind check
    → (a b : List ℕ) (valid invalid : ℕ) → verdict_fails (is_zero (check a)) valid ≡ false
    → verdict_fails (is_zero (check b)) invalid ≡ false
    → (valid == 0) ≡ false
    → (invalid == 0) ≡ true
    → false ≡ true
IsBlind-wrong check blind a b valid invalid p q v i =
    verdicts (is_zero (check a)) valid invalid p (ap (λ c. verdict_fails c invalid) (blind a b) ∙ q)
      v i

first : List ℕ → ℕ
first l = get_or l 0 0

-- A secret that is the same whatever it is made from.
abbrev pub IsConstant : (List ℕ → List ℕ → List ℕ) → Type 0
IsConstant secret = (a b c d : List ℕ) → secret a b ≡ secret c d

last_of_two : (a b : Bool) → (not a || not b) ≡ false → b ≡ true
last_of_two true true e = refl
last_of_two true false e = cc e
last_of_two false true e = refl
last_of_two false false e = sym e

last_of_three : (a b c : Bool) → (not a || not b || not c) ≡ false → c ≡ true
last_of_three true true c e = last_of_two true c e
last_of_three true false c e = cc e
last_of_three false b c e = cc e

module _ (kem : Kem) (t : Tables) where
  encap_secret :
      (i : ℕ)
      → encap_fails kem t i ≡ false
      → take 32 (kem.enc_derand (row t.encap_ek i) (row t.encap_m i)).2 ≡ take 32 (row t.encap_k i)
  unfolding encap_fails
  encap_secret i e = same_bytes_eq 32 _ _ (last_of_three _ _ _ e)

  decap_secret :
      (i : ℕ)
      → decap_fails kem t i ≡ false
      → take 32 (kem.dec (row t.decap_c i) (row t.decap_dk i)).1 ≡ take 32 (row t.decap_k i)
  unfolding decap_fails
  decap_secret i e = same_bytes_eq 32 _ _ (last_of_two _ _ e)

  -- Constant secrets make the first two secrets of a conforming set equal.
  constant_encap :
      Conforms kem t
      → IsConstant (λ ek m. (kem.enc_derand ek m).2)
      → take 32 (row t.encap_k 0) ≡ take 32 (row t.encap_k 1)
  constant_encap c h =
      sym (encap_secret 0 (c.encap 0 (omega arith)))
      ∙ (ap (take 32) (h (row t.encap_ek 0) (row t.encap_m 0) (row t.encap_ek 1) (row t.encap_m 1))
          ∙ encap_secret 1 (c.encap 1 (omega arith)))

  constant_decap :
      Conforms kem t
      → IsConstant (λ ct dk. (kem.dec ct dk).1)
      → take 32 (row t.decap_k 0) ≡ take 32 (row t.decap_k 1)
  constant_decap c h =
      sym (decap_secret 0 (c.decap 0 (omega arith)))
      ∙ (ap (take 32) (h (row t.decap_c 0) (row t.decap_dk 0) (row t.decap_c 1) (row t.decap_dk 1))
          ∙ decap_secret 1 (c.decap 1 (omega arith)))

module _ (kem512 kem768 : Kem) (k512 k768 : KeyTables) where
  abbrev pub passes_kat : Bool
  passes_kat = mlkem_kat_run kem512 (tables512 k512) kem768 (tables768 k768)

  refuted :
      (Conforms kem512 (tables512 k512) → Conforms kem768 (tables768 k768) → false ≡ true)
      → passes_kat ≡ false
  refuted wrong = elim (Bool-cases passes_kat) [
    | inr e ↦ e
    | inl e ↦
        let (c, d) = (kat_run-Conforms kem512 (tables512 k512) kem768 (tables768 k768)).0 e in
        absurd (false≢true (wrong c d))
  ]

  -- With the verdicts of acvp_vectors.h, whatever its keys are: a library with a public-key check or a
  -- secret-key check, of either parameter set, that gives all keys the same verdict fails.
  pub kat-IsBlind :
      (IsBlind kem512.check_pk ⊎ IsBlind kem512.check_sk)
        ⊎ (IsBlind kem768.check_pk ⊎ IsBlind kem768.check_sk)
      → passes_kat ≡ false
  unfolding ekcheck_fails dkcheck_fails
  kat-IsBlind (inl (inl h)) = refuted (λ c d.
      IsBlind-wrong kem512.check_pk h _ _ 1 0 (c.ekcheck 0 (omega arith))
        (c.ekcheck 1 (omega arith)) refl refl)
  kat-IsBlind (inl (inr h)) = refuted (λ c d.
      IsBlind-wrong kem512.check_sk h _ _ 1 0 (c.dkcheck 2 (omega arith))
        (c.dkcheck 0 (omega arith)) refl refl)
  kat-IsBlind (inr (inl h)) = refuted (λ c d.
      IsBlind-wrong kem768.check_pk h _ _ 1 0 (d.ekcheck 0 (omega arith))
        (d.ekcheck 1 (omega arith)) refl refl)
  kat-IsBlind (inr (inr h)) = refuted (λ c d.
      IsBlind-wrong kem768.check_sk h _ _ 1 0 (d.dkcheck 0 (omega arith))
        (d.dkcheck 2 (omega arith)) refl refl)

  -- With the secrets of acvp_vectors.h: a library whose encapsulation or decapsulation, in either
  -- parameter set, always yields the same secret fails.
  pub kat-IsConstant :
      (IsConstant (λ ek m. (kem512.enc_derand ek m).2) ⊎ IsConstant (λ ct dk. (kem512.dec ct dk).1))
        ⊎ (IsConstant (λ ek m. (kem768.enc_derand ek m).2)
            ⊎ IsConstant (λ ct dk. (kem768.dec ct dk).1))
      → passes_kat ≡ false
  unfolding first
  kat-IsConstant (inl (inl h)) =
      refuted (λ c d. absurd (omega (arith, ap first (constant_encap kem512 (tables512 k512) c h))))
  kat-IsConstant (inl (inr h)) =
      refuted (λ c d. absurd (omega (arith, ap first (constant_decap kem512 (tables512 k512) c h))))
  kat-IsConstant (inr (inl h)) =
      refuted (λ c d. absurd (omega (arith, ap first (constant_encap kem768 (tables768 k768) d h))))
  kat-IsConstant (inr (inr h)) =
      refuted (λ c d. absurd (omega (arith, ap first (constant_decap kem768 (tables768 k768) d h))))
