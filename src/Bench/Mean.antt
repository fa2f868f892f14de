-- ===== src/Bench/Mean.antt =====
-- What the harness's floating point loses: nothing before the division.
use pqc_esp32s3_benchmarks.Prelude.{
  ℤ, ℕ, zero, suc, ◌+◌, ◌*◌, ◌^◌, ◌≤◌, ◌<◌, ◌≡◌, ◌∙◌, ap, List, [], ◌∷◌, arith,
}
use pqc_esp32s3_benchmarks.Platform.{Double, IsExact}
use pqc_esp32s3_benchmarks.Bench.{sum_loop, sample, measure}

-- The sum of the samples, exactly.
abbrev pub total : List ℕ → ℕ
total [] = 0
total (x ∷ samples) = x + total samples

-- Samples of 32 bits.
abbrev pub IsU32 : List ℕ → Type 0
IsU32 [] = Unit {0}
IsU32 (x ∷ samples) = (x < 2 ^ 32) × IsU32 samples

module _ {D : Type 0} (double : Double D) (ex : IsExact double) where
  sum_loop-whole :
      (samples : List ℕ) (sum : ℕ)
      → IsU32 samples
      → sum + total samples ≤ 2 ^ 53
      → sum_loop double samples (ex.whole sum) ≡ ex.whole (sum + total samples)
  unfolding sum_loop
  sum_loop-whole [] sum small h = ap (λ n. ex.whole n) (omega arith)
  sum_loop-whole (x ∷ samples) sum small h =
      rw (ex.exact_u32 x small.0, ex.exact_add sum x (omega arith))
        (sum_loop-whole samples (sum + x) small.1 (omega arith)
          ∙ ap (λ n. ex.whole n) (omega arith))

  module _ {S : Type 0} (read : S → ℕ × S) (qsort : (ℕ → ℕ → ℤ) → List ℕ → List ℕ) (name : List ℕ)
      (op : S → S) where
    sample-IsU32 : (n : ℕ) (s : S) → IsU32 (sample read qsort double op n s).0
    unfolding sample
    sample-IsU32 zero s = tt
    sample-IsU32 (suc n) s = (omega arith, sample-IsU32 n (read (op (read s).1)).1)

    total-sample : (n : ℕ) (s : S) → total (sample read qsort double op n s).0 ≤ n * 2 ^ 32
    unfolding sample
    total-sample zero s = omega arith
    total-sample (suc n) s = omega (arith, total-sample n (read (op (read s).1)).1)

    -- With doubles that are exact on whole numbers up to 2^53 and in their sums: for up to 200
    -- iterations the loop over the samples rounds nothing, whatever the 32-bit samples, and the mean is
    -- the exact sum divided once by the number of iterations.
    pub measure-mean :
        (n : ℕ) (s : S)
        → n ≤ 200
        → (measure read qsort double name op n s).0.mean
          ≡ double.div (ex.whole (total (sample read qsort double op n (op (op s))).0)) (ex.whole n)
    unfolding measure
    measure-mean n s few =
        rw (ex.exact_u32 0 (omega arith), ex.exact_int n (omega arith))
          (ap (λ x. double.div x (ex.whole n))
            (sum_loop-whole (sample read qsort double op n (op (op s))).0 0
                (sample-IsU32 n (op (op s))) (omega (arith, total-sample n (op (op s))))
              ∙ ap (λ m. ex.whole m) (omega arith)))
