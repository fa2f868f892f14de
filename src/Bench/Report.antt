-- ===== src/Bench/Report.antt =====
-- When a measurement is printed.
use pqc_esp32s3_benchmarks.Prelude.{
  ℤ, ℕ, true, zero, suc, ◌+◌, ◌≡◌, refl, List, arith, ◌==◌, ==_iff, pos, if◌then◌else◌, Bool-cases,
  inl, inr,
}
use pqc_esp32s3_benchmarks.Platform.{Double}
use pqc_esp32s3_benchmarks.Bench.{
  Bench, BenchResult, Tasks, not_reporting, printed, sample, measure, bench_measure,
  bench_stack_usage, run_one, iterations,
}

module _ {Clock D : Type 0} (read : Bench Clock → ℕ × Bench Clock)
    (qsort : (ℕ → ℕ → ℤ) → List ℕ → List ℕ) (double : Double D) (tasks : Tasks (Bench Clock))
    (name : List ℕ) (op : Bench Clock → Bench Clock)
    (quiet : (s : Bench Clock) → (read s).1.op_failures ≡ s.op_failures) where
  -- An operation of which every call fails.
  abbrev pub IsFailing : Type 0
  IsFailing = (s : Bench Clock) → (op s).op_failures ≡ s.op_failures + 1

  sample-failures :
      IsFailing
      → (n : ℕ) (s : Bench Clock)
      → (sample read qsort double op n s).1.op_failures ≡ s.op_failures + n
  unfolding sample
  sample-failures bad zero s = omega arith
  sample-failures bad (suc n) s = omega (
    arith,
    sample-failures bad n (read (op (read s).1)).1,
    quiet (op (read s).1),
    bad (read s).1,
    quiet s,
  )

  -- With a cycle counter that leaves the failures alone: an operation that fails at every call is never
  -- reported as a result. `run_one` says so with the number of failed calls, which is 53: two to warm
  -- up, fifty samples, and one in the stack probe, if its task can be created, and then gives its
  -- notification in time.
  pub run_one-IsFailing :
      IsFailing
      → ((s : Bench Clock) → tasks.in_time s ≡ true)
      → (s : Bench Clock)
      → (run_one read qsort double tasks name op s).0
        ≡ not_reporting name (if tasks.created then 53 else 52)
  unfolding run_one bench_measure measure bench_stack_usage
  run_one-IsFailing bad prompt s = elim (Bool-cases tasks.created) [
    | inl e ↦
        rw (e, prompt (sample read qsort double op 50 (op (op s0))).1)
          (rw (bad (sample read qsort double op 50 (op (op s0))).1) (rw count refl))
    | inr e ↦ rw e (rw count refl)
  ]
    where
      s0 : Bench Clock
      s0 = record s { op_failures = 0 }

      count : (sample read qsort double op 50 (op (op s0))).1.op_failures ≡ 52
      count = omega (arith, sample-failures bad 50 (op (op s0)), bad (op s0), bad s0)

-- If `run_one` prints a result, no failed call of the operation was counted, from the first to warm up to
-- the end of the stack probe.
pub run_one-printed :
    {Clock D : Type 0} (read : Bench Clock → ℕ × Bench Clock)
    (qsort : (ℕ → ℕ → ℤ) → List ℕ → List ℕ) (double : Double D) (tasks : Tasks (Bench Clock))
    (name : List ℕ) (op : Bench Clock → Bench Clock) (s : Bench Clock) {r : BenchResult D}
    → (run_one read qsort double tasks name op s).0 ≡ printed r
    → (run_one read qsort double tasks name op s).1.op_failures ≡ 0
unfolding run_one bench_measure
run_one-printed {Clock} {D} read qsort double tasks name op s e =
    elim (Bool-cases (failures == 0)) [ inl p ↦ (==_iff failures 0).0 p | inr p ↦ cc (rw p at e) ]
  where
    failures : ℕ
    failures =
        (bench_stack_usage tasks op
          (bench_measure read qsort double name op (pos iterations)
            (record s { op_failures = 0 })).1).1.op_failures
