-- ===== src/Kat/Verdict.antt =====
-- The conformance test passes exactly when every vector of every group does.
use pqc_esp32s3_benchmarks.Prelude.{
  ℕ, zero, suc, ◌+◌, ◌≤◌, ◌<◌, ◌≡◌, ◌↔◌, refl, Bool, true, false, arith, ◌==◌, ==_iff, Bool-cases,
  inl, inr,
}
use pqc_esp32s3_benchmarks.Kem.{Kem}
use pqc_esp32s3_benchmarks.Kat.Vectors.{
  keygen_count, encap_count, decap_count, ekcheck_count, dkcheck_count,
}
use pqc_esp32s3_benchmarks.Kat.{
  Tables, count_failures, test_group, keygen_fails, encap_fails, decap_fails, ekcheck_fails,
  dkcheck_fails, sum_cases, cases_of, mlkem_kat_run,
}

count_failures-ge :
    (fails : ℕ → Bool) (left i failed : ℕ) → failed ≤ count_failures fails left i failed
unfolding count_failures
count_failures-ge fails zero i failed = omega arith
count_failures-ge fails (suc left) i failed = elim (Bool-cases (fails i)) [
  | inl e ↦ rw e (omega (arith, count_failures-ge fails left (suc i) (suc failed)))
  | inr e ↦ rw e (count_failures-ge fails left (suc i) failed)
]

count_failures-none :
    (fails : ℕ → Bool) (left i j : ℕ)
    → count_failures fails left i 0 ≡ 0
    → i ≤ j
    → j < i + left
    → fails j ≡ false
unfolding count_failures
count_failures-none fails zero i j e low high = absurd (omega arith)
count_failures-none fails (suc left) i j e low high = elim (Bool-cases (fails i)) [
  | inl p ↦ absurd (omega (arith, rw p at e, count_failures-ge fails left (suc i) 1))
  | inr p ↦ elim (Bool-cases (j == i)) [
    | inl q ↦ rw ((==_iff j i).0 q) p
    | inr q ↦ count_failures-none fails left (suc i) j (rw p at e) (ground arith) (omega arith)
  ]
]

count_failures-all :
    (fails : ℕ → Bool) (left i : ℕ)
    → ((j : ℕ) → i ≤ j → j < i + left → fails j ≡ false)
    → count_failures fails left i 0 ≡ 0
unfolding count_failures
count_failures-all fails zero i h = refl
count_failures-all fails (suc left) i h =
    rw (h i (omega arith) (omega arith))
      (count_failures-all fails left (suc i) (λ j low high. h j (omega arith) (omega arith)))

-- No vector of a group fails.
abbrev pub Passes : ℕ → (ℕ → Bool) → Type 0
Passes count fails = (i : ℕ) → i < count → fails i ≡ false

test_group-Passes :
    (count : ℕ) (fails : ℕ → Bool) → ((test_group count fails).failed ≡ 0) ↔ Passes count fails
unfolding test_group
test_group-Passes count fails = (
  λ e i h. count_failures-none fails count 0 i e (omega arith) (omega arith),
  λ h. count_failures-all fails count 0 (λ j low high. h j (omega arith)),
)

-- Every vector of a parameter set passes, in all five groups.
pub record Conforms (kem : Kem) (t : Tables) : Type 0 where
  pub keygen : Passes keygen_count (keygen_fails kem t)
  pub encap : Passes encap_count (encap_fails kem t)
  pub decap : Passes decap_count (decap_fails kem t)
  pub ekcheck : Passes ekcheck_count (ekcheck_fails kem t)
  pub dkcheck : Passes dkcheck_count (dkcheck_fails kem t)

-- `mlkem_kat_run` returns true exactly when every vector of both parameter sets passes, in each of
-- the five groups.
pub kat_run-Conforms :
    (kem512 : Kem) (t512 : Tables) (kem768 : Kem) (t768 : Tables)
    → (mlkem_kat_run kem512 t512 kem768 t768 ≡ true) ↔ (Conforms kem512 t512 × Conforms kem768 t768)
unfolding mlkem_kat_run sum_cases
kat_run-Conforms kem512 t512 kem768 t768 = (
  λ e. (
    record {
      keygen =
          (test_group-Passes keygen_count (keygen_fails kem512 t512)).0
            (omega (arith, none_failed e));
      encap =
          (test_group-Passes encap_count (encap_fails kem512 t512)).0
            (omega (arith, none_failed e));
      decap =
          (test_group-Passes decap_count (decap_fails kem512 t512)).0
            (omega (arith, none_failed e));
      ekcheck =
          (test_group-Passes ekcheck_count (ekcheck_fails kem512 t512)).0
            (omega (arith, none_failed e));
      dkcheck =
          (test_group-Passes dkcheck_count (dkcheck_fails kem512 t512)).0
            (omega (arith, none_failed e));
    },
    record {
      keygen =
          (test_group-Passes keygen_count (keygen_fails kem768 t768)).0
            (omega (arith, none_failed e));
      encap =
          (test_group-Passes encap_count (encap_fails kem768 t768)).0
            (omega (arith, none_failed e));
      decap =
          (test_group-Passes decap_count (decap_fails kem768 t768)).0
            (omega (arith, none_failed e));
      ekcheck =
          (test_group-Passes ekcheck_count (ekcheck_fails kem768 t768)).0
            (omega (arith, none_failed e));
      dkcheck =
          (test_group-Passes dkcheck_count (dkcheck_fails kem768 t768)).0
            (omega (arith, none_failed e));
    },
  ),
  λ both.
      let (c, d) = both in
      (==_iff sum 0).1 (
        omega (
          arith,
          (test_group-Passes keygen_count (keygen_fails kem512 t512)).1 c.keygen,
          (test_group-Passes encap_count (encap_fails kem512 t512)).1 c.encap,
          (test_group-Passes decap_count (decap_fails kem512 t512)).1 c.decap,
          (test_group-Passes ekcheck_count (ekcheck_fails kem512 t512)).1 c.ekcheck,
          (test_group-Passes dkcheck_count (dkcheck_fails kem512 t512)).1 c.dkcheck,
          (test_group-Passes keygen_count (keygen_fails kem768 t768)).1 d.keygen,
          (test_group-Passes encap_count (encap_fails kem768 t768)).1 d.encap,
          (test_group-Passes decap_count (decap_fails kem768 t768)).1 d.decap,
          (test_group-Passes ekcheck_count (ekcheck_fails kem768 t768)).1 d.ekcheck,
          (test_group-Passes dkcheck_count (dkcheck_fails kem768 t768)).1 d.dkcheck,
        )),
)
  where
    sum : ℕ
    sum = (sum_cases (cases_of kem512 t512 kem768 t768) 0 0).1

    none_failed : (sum == 0) ≡ true → sum ≡ 0
    none_failed e = (==_iff sum 0).0 e
