-- ===== src/Bench/Measure.antt =====
-- What the harness reports of its samples.
use pqc_esp32s3_benchmarks.Prelude.{
  ℤ, ℕ, zero, suc, ◌+◌, ◌-◌, ◌/◌, ◌≤◌, ◌<◌, ◌≡◌, refl, ap, true, false, ◌||◌, List, arith, length,
  ltb, pos, get_or, none, some, ◌⊎◌, inl, inr,
}
use pqc_esp32s3_benchmarks.Platform.{Double}
use pqc_esp32s3_benchmarks.Bench.{
  BenchResult, sample, measure, bench_measure, stack_probe_task, stack_probe_bytes,
}
use pqc_esp32s3_benchmarks.Bench.Order.{Sorts, Sorts-below, Sorts-ends}

module _ {S D : Type 0} (read : S → ℕ × S) (qsort : (ℕ → ℕ → ℤ) → List ℕ → List ℕ)
    (double : Double D) (name : List ℕ) (op : S → S) where
  pub length-sample : (n : ℕ) (s : S) → length (sample read qsort double op n s).0 ≡ n
  unfolding sample
  length-sample zero s = refl
  length-sample (suc n) s = ap suc (length-sample n (read (op (read s).1)).1)

  -- Outside 3 to 200 iterations nothing is run and nothing reported.
  pub bench_measure-range :
      (n : ℕ) (s : S)
      → (n < 3) ⊎ (200 < n)
      → bench_measure read qsort double name op (pos n) s ≡ (none, s)
  unfolding bench_measure
  bench_measure-range n s (inl h) = let e : ltb n 3 ≡ true = ground arith in rw e
  bench_measure-range n s (inr h) = let e : (ltb n 3 || ltb 200 n) ≡ true = ground arith in rw e

  -- For 3 to 200 iterations, and a `qsort` that sorts by whatever consistent comparator it is given: the
  -- operation is warmed up twice and sampled `n` times, the minimum and the maximum reported bound every
  -- sample and the median, and the result carries `n`.
  pub bench_measure-bounds :
      (n : ℕ) (s : S)
      → 3 ≤ n
      → n ≤ 200
      → Sorts qsort
      → (r : BenchResult D) × (bench_measure read qsort double name op (pos n) s
          ≡ (some r, (sample read qsort double op n (op (op s))).1))
        × (r.iterations ≡ n)
        × (r.min ≤ r.median)
        × (r.median ≤ r.max)
        × ((i : ℕ)
            → i < n
            → (r.min ≤ get_or (sample read qsort double op n (op (op s))).0 i 0)
              × (get_or (sample read qsort double op n (op (op s))).0 i 0 ≤ r.max))
  unfolding bench_measure measure
  bench_measure-bounds n s low high sorts =
      let e : (ltb n 3 || ltb 200 n) ≡ false = ground arith in
      let size = length-sample n (op (op s)) in
      let below = Sorts-below qsort sorts (sample read qsort double op n (op (op s))).0 in
      let (least, greatest) =
        Sorts-ends qsort sorts (sample read qsort double op n (op (op s))).0 in
      (
        (measure read qsort double name op n s).0,
        rw e refl,
        refl,
        below 0 (n / 2) (omega arith) (omega (arith, size)),
        below (n / 2) (n - 1) (omega arith) (omega (arith, size)),
        λ i h. (least i (omega (arith, size)), rw size at (greatest i (omega (arith, size)))),
      )

-- A stack usage that is not zero is exact: with at most 64 KB left, it is 64 KB less what was left, and
-- at least 2 KB were left.
pub stack_probe_task-exact :
    (remaining : ℕ)
    → remaining ≤ stack_probe_bytes
    → 0 < stack_probe_task remaining
    → (2048 ≤ remaining) × (stack_probe_task remaining + remaining ≡ 65536)
unfolding stack_probe_task
stack_probe_task-exact remaining h used = ground arith
