-- ===== src/Bench.antt =====
-- firmware/esp32s3-bench/main: bench.c, the measurement harness, and main.c, the operations that it
-- measures.
pub mod Order
pub mod Measure
pub mod Report
pub mod Classical
pub mod Probe
pub mod Mean
pub mod Main
pub mod Rows
use pqc_esp32s3_benchmarks.Prelude.{
  ℕ, zero, suc, ◌+◌, ◌-◌, ◌*◌, ◌/◌, ◌%◌, ◌^◌, Bool, true, false, ◌||◌, not, List, [], ◌∷◌, ltb,
  ◌==◌, ℤ, pos, negsuc, is_zero, sub_ℕ, if◌then◌else◌, get_or, Option, none, some,
}
use pqc_esp32s3_benchmarks.Platform.{Double}
use pqc_esp32s3_benchmarks.Kem.{Kem}
use pqc_esp32s3_benchmarks.Device.{elapsed_cycles}

abbrev pub max_iterations : ℕ
max_iterations = 200

abbrev pub stack_probe_bytes : ℕ
stack_probe_bytes = 64 * 1024

abbrev pub stack_probe_min_headroom : ℕ
stack_probe_min_headroom = 2048

unfoldable pub compare_u32 : ℕ → ℕ → ℤ
compare_u32 x y = sub_ℕ (if ltb y x then 1 else 0) (if ltb x y then 1 else 0)

-- `bench_result_t`
pub record BenchResult (D : Type 0) : Type 0 where
  pub name : List ℕ
  pub iterations : ℕ
  pub min : ℕ
  pub median : ℕ
  pub max : ℕ
  pub mean : D
  pub stddev : D
  pub stack_bytes : ℕ

-- The two loops over the samples, on those left, with the sum so far.
module _ {D : Type 0} (double : Double D) where
  unfoldable pub sum_loop : List ℕ → D → D
  sum_loop [] sum = sum
  sum_loop (x ∷ samples) sum = sum_loop samples (double.add sum (double.of_u32 x))

  unfoldable pub var_loop : D → List ℕ → D → D
  var_loop mean [] var = var
  var_loop mean (x ∷ samples) var =
      let d = double.sub (double.of_u32 x) mean in
      var_loop mean samples (double.add var (double.mul d d))

-- `S` is the state that operations change, `read` the cycle counter, `qsort` that of the C library,
-- with its comparator.
module _ {S D : Type 0} (read : S → ℕ × S) (qsort : (ℕ → ℕ → ℤ) → List ℕ → List ℕ)
    (double : Double D) where
  -- The measuring loop, on the rounds left.
  unfoldable pub sample : (S → S) → ℕ → S → List ℕ × S
  sample op zero s = ([], s)
  sample op (suc rounds) s =
      let (start, s1) = read s in
      let (end, s2) = read (op s1) in
      let (rest, s3) = sample op rounds s2 in (elapsed_cycles start end ∷ rest, s3)

  unfoldable pub measure : List ℕ → (S → S) → ℕ → S → BenchResult D × S
  measure name op n s =
      let (samples, s') = sample op n (op (op s)) in
      let mean = double.div (sum_loop double samples (double.of_u32 0)) (double.of_int (pos n)) in
      let var = var_loop double mean samples (double.of_u32 0) in
      let sorted = qsort compare_u32 samples in
      (
        record {
          name = name;
          iterations = n;
          min = get_or sorted 0 0;
          max = get_or sorted (n - 1) 0;
          median = get_or sorted (n / 2) 0;
          mean = mean;
          stddev = double.sqrt (double.div var (double.of_int (pos n)));
          stack_bytes = 0;
        },
        s',
      )

  unfoldable pub bench_measure : List ℕ → (S → S) → ℤ → S → Option (BenchResult D) × S
  bench_measure name op (negsuc n) s = (none, s)
  bench_measure name op (pos n) s =
      let (r, s') = measure name op n s in
      if ltb n 3 || ltb max_iterations n then (none, s) else (some r, s')

-- What the probe task leaves in `s_probe_result`.
unfoldable pub stack_probe_task : ℕ → ℕ
stack_probe_task remaining =
    if ltb remaining stack_probe_min_headroom then 0 else stack_probe_bytes - remaining

-- Whether the task can be created, the high-water mark after the operation ran in it, whether it gives
-- its notification within the 20 seconds of `ulTaskNotifyTake`, and, where it does not, what is in
-- `s_probe_result` when the time is up and the state that the task has then left.
pub record Tasks (S : Type 0) : Type 0 where
  pub created : Bool
  pub high_water_mark : S → ℕ
  pub in_time : S → Bool
  pub late : S → ℕ × S

unfoldable pub bench_stack_usage : {S : Type 0} → Tasks S → (S → S) → S → ℕ × S
bench_stack_usage tasks op s =
    if tasks.created
    then (if tasks.in_time s
        then (stack_probe_task (tasks.high_water_mark (op s)), op s)
        else tasks.late s)
    else (0, s)

-- The buffers of one parameter set, and the whole static state of main.c with the clock.
pub record Slots : Type 0 where
  pub pk : List ℕ
  pub sk : List ℕ
  pub ct : List ℕ

pub record Bench (Clock : Type 0) : Type 0 where
  pub coins : List ℕ
  pub msg : List ℕ
  pub kem512 : Slots
  pub kem768 : Slots
  pub ss : List ℕ
  pub op_failures : ℕ
  pub clock : Clock

-- CHECKED
abbrev pub checked : {Clock : Type 0} → ℤ → Bench Clock → Bench Clock
checked rc s = if not (is_zero rc) then record s { op_failures = s.op_failures + 1 } else s

module _ {Clock : Type 0} (k512 k768 : Kem) where
  unfoldable pub op_kem512_keygen : Bench Clock → Bench Clock
  op_kem512_keygen s =
      let (rc, pk, sk) = k512.keypair_derand s.coins in
      checked rc (record s { kem512 = record s.kem512 { pk = pk; sk = sk } })

  unfoldable pub op_kem512_encaps : Bench Clock → Bench Clock
  op_kem512_encaps s =
      let (rc, ct, ss) = k512.enc_derand s.kem512.pk s.msg in
      checked rc (record s { kem512 = record s.kem512 { ct = ct }; ss = ss })

  unfoldable pub op_kem512_decaps : Bench Clock → Bench Clock
  op_kem512_decaps s =
      let (rc, ss) = k512.dec s.kem512.ct s.kem512.sk in checked rc (record s { ss = ss })

  unfoldable pub op_kem768_keygen : Bench Clock → Bench Clock
  op_kem768_keygen s =
      let (rc, pk, sk) = k768.keypair_derand s.coins in
      checked rc (record s { kem768 = record s.kem768 { pk = pk; sk = sk } })

  unfoldable pub op_kem768_encaps : Bench Clock → Bench Clock
  op_kem768_encaps s =
      let (rc, ct, ss) = k768.enc_derand s.kem768.pk s.msg in
      checked rc (record s { kem768 = record s.kem768 { ct = ct }; ss = ss })

  unfoldable pub op_kem768_decaps : Bench Clock → Bench Clock
  op_kem768_decaps s =
      let (rc, ss) = k768.dec s.kem768.ct s.kem768.sk in checked rc (record s { ss = ss })

-- What `run_one` prints, with the name.
pub data Printout (D : Type 0) : Type 0 where
  harness_error : List ℕ → Printout D
  not_reporting : List ℕ → ℕ → Printout D
  printed : BenchResult D → Printout D

abbrev pub iterations : ℕ
iterations = 50

module _ {Clock D : Type 0} (read : Bench Clock → ℕ × Bench Clock)
    (qsort : (ℕ → ℕ → ℤ) → List ℕ → List ℕ) (double : Double D) (tasks : Tasks (Bench Clock)) where
  unfoldable pub run_one :
      List ℕ → (Bench Clock → Bench Clock) → Bench Clock → Printout D × Bench Clock
  run_one name op s =
      let (measured, s1) =
        bench_measure read qsort double name op (pos iterations) (record s { op_failures = 0 }) in
      let (stack, s2) = bench_stack_usage tasks op s1 in
      elim measured [
        | none ↦ (harness_error name, s1)
        | some r ↦ (
          if not (s2.op_failures == 0)
              then not_reporting name s2.op_failures
              else printed (record r { stack_bytes = stack }),
          s2,
        )
      ]
