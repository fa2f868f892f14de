-- ===== src/Tests/Benches.antt =====
-- The benchmark program and its stack probe on the small board.
use pqc_esp32s3_benchmarks.Prelude.{
  ℕ, suc, ◌≡◌, refl, true, List, [], ◌∷◌, ◌++◌, arith, pos, negsuc, get_or, string_bytes,
  if◌then◌else◌,
}
use pqc_esp32s3_benchmarks.Kem.{Kem}
use pqc_esp32s3_benchmarks.Bench.{Printout, harness_error, not_reporting, measure, sample}
use pqc_esp32s3_benchmarks.Bench.Classical.{Ecp, classical_setup}
use pqc_esp32s3_benchmarks.Bench.Mean.{total, measure-mean}
use pqc_esp32s3_benchmarks.Bench.Main.{
  Parts, and_then, prepare_inputs, kem_rows, x25519_rows, run_rows, app_main,
}
use pqc_esp32s3_benchmarks.Bench.Rows.{
  Prepared, Reported, kem_calls, x25519_calls, app_main-Prepared, app_main-IsFailing,
}
use pqc_esp32s3_benchmarks.Bench.Probe.{
  Probe, call, work, work_on, task_step, give_back, Reach, here, later, calls, works, notified,
}
use pqc_esp32s3_benchmarks.Bench.Probe.Figures.{IsOwn, figure, rested, Reach-IsOwn, Reach-stale}
use pqc_esp32s3_benchmarks.Tests.Crypto.{whole, whole-IsExact}
use pqc_esp32s3_benchmarks.Tests.Sorting.{insertion_sort}
use pqc_esp32s3_benchmarks.Tests.Boards.{bench, clock_of, tasks, ecdh, ticks, ten, row}

measure-mean_example :
    (measure ticks (λ cmp l. l) whole row ten 3 0).0.mean
    ≡ whole.div (total (sample ticks (λ cmp l. l) whole ten 3 20).0) 3
measure-mean_example = measure-mean whole whole-IsExact ticks (λ cmp l. l) row ten 3 0 (omega arith)

-- The decapsulation always fails.
abbrev refusing : Kem
refusing = record {
  public_key_bytes = 64;
  secret_key_bytes = 64;
  ciphertext_bytes = 32;
  keypair_derand = λ d. (pos 0, d, d);
  enc_derand = λ pk m. (pos 0, m, m);
  dec = λ ct sk. (negsuc 0, []);
  check_pk = λ k. pos 0;
  check_sk = λ k. pos 0;
}

abbrev ecp : Ecp ℕ
ecp = record {
  init = λ n. n;
  group_load = λ n. (pos 0, suc n);
  init_peer = λ n. n;
  gen_peer = λ n. (pos 0, suc n);
  free_peer = λ n. n;
  gen_public = λ n. (pos 0, suc n);
  compute_shared = λ n. (pos 0, suc n);
}

abbrev parts : Parts ℕ ℕ
parts = record {
  read = clock_of;
  qsort = insertion_sort;
  double = whole;
  tasks = tasks;
  kem512 = refusing;
  kem768 = refusing;
  ecp = ecp;
  ecdh = ecdh;
}

abbrev rows : List (Printout ℕ)
rows =
    (run_rows parts
      (kem_rows parts
        ++ (if (classical_setup ecp (prepare_inputs parts bench).1).0
            then x25519_rows parts
            else []))
      (classical_setup ecp (prepare_inputs parts bench).1).1).0

app_main-Prepared_example :
    Prepared parts bench
    × Reported parts
        (kem_calls parts
          ++ (if (classical_setup ecp (prepare_inputs parts bench).1).0
              then x25519_calls parts
              else []))
        (classical_setup ecp (prepare_inputs parts bench).1).1
        rows
unfolding app_main prepare_inputs and_then
app_main-Prepared_example = app_main-Prepared parts bench {s' = (app_main parts bench).1} refl

app_main-IsFailing_example :
    get_or rows 5 (harness_error []) ≡ not_reporting (string_bytes "ML-KEM-768 decaps") 53
unfolding app_main prepare_inputs and_then
app_main-IsFailing_example =
    app_main-IsFailing parts (λ s. refl) (λ s. refl) (λ ct sk. refl) bench
      {s' = (app_main parts bench).1} refl

-- An operation is what it leaves of the stack.
abbrev told : Probe ℕ
told =
    work (λ n. n) 0 (work (λ n. n) 0 (work (λ n. n) 0 (call (λ n. n) 60000 (rested (λ n. n) 0 0))))

Reach-IsOwn_example : IsOwn (λ n. n) (give_back (λ n. n) 60000 told).returned
unfolding work_on task_step
Reach-IsOwn_example =
    Reach-IsOwn (λ n. n) {s = rested (λ n. n) 0 0} refl refl refl refl
      (later (later (later (later (later here (calls 60000 refl)) (works 0)) (works 0)) (works 0))
        (notified 60000 refl (omega arith)))

Reach-stale_example :
    (t : Probe ℕ) × Reach (λ n. n) true (rested (λ n. n) 0 0) t
    × (t.returned ≡ (50000, figure (λ n. n) 60000) ∷ (60000, 0) ∷ [])
Reach-stale_example = Reach-stale (λ n. n) 0 0 60000 50000
