-- ===== src/Tests/Boards.antt =====
-- The station, the bring-up and the benchmark on concrete states.
use pqc_esp32s3_benchmarks.Prelude.{
  string_bytes, ℕ, suc, ◌+◌, ◌-◌, ◌%◌, ◌^◌, ◌≤◌, ◌<◌, ◌≡◌, refl, true, false, List, [], ◌∷◌, arith,
  pos, get_or, some, min, ltb, if◌then◌else◌, not,
}
use pqc_esp32s3_benchmarks.Wifi.{
  Station, wifi_event, got_ip, sta_start, sta_disconnected, set_failed, wifi_sta_is_connected,
  Bringup,
}
use pqc_esp32s3_benchmarks.Wifi.Retry.{dispatch_all, losses, losses-retries}
use pqc_esp32s3_benchmarks.Wifi.Start.{connected-dispatch_all}
use pqc_esp32s3_benchmarks.Device.{Heap, elapsed_cycles}
use pqc_esp32s3_benchmarks.Device.Gate.{elapsed_cycles-wrap}
use pqc_esp32s3_benchmarks.Bench.{Bench, BenchResult, Slots, Tasks, sample, bench_measure}
use pqc_esp32s3_benchmarks.Bench.Measure.{bench_measure-bounds}
use pqc_esp32s3_benchmarks.Bench.Classical.{
  Ecdh, Completes, op_x25519_full_exchange, exchange_calls, if_ok,
  op_x25519_full_exchange-Completes,
}
use pqc_esp32s3_benchmarks.Tests.Crypto.{whole}
use pqc_esp32s3_benchmarks.Tests.Sorting.{insertion_sort, insertion_sort-Sorts}

abbrev joined : Station
joined = record {
  events = some (record { connected = true; failed = false });
  attempts = 3;
  ip = 9;
  connects = 4;
}

losses-retries_example :
    let s' = dispatch_all (losses 6) joined in
    (s'.attempts ≡ min 9 8)
    × (s'.connects + 3 ≡ 4 + min 9 8)
    × (s'.events ≡ (if ltb 8 9 then set_failed joined.events else joined.events))
losses-retries_example = losses-retries 6 joined (omega arith)

connected-dispatch_all_example : wifi_sta_is_connected (dispatch_all (losses 20) joined) ≡ true
unfolding wifi_sta_is_connected
connected-dispatch_all_example = connected-dispatch_all (losses 20) joined refl

abbrev pub bringup : Bringup
bringup = record {
  nvs_init = pos 0;
  nvs_needs_erase = false;
  nvs_erase = pos 0;
  nvs_again = pos 0;
  group_created = true;
  netif_init = pos 0;
  event_loop = pos 0;
  wifi_init = pos 0;
  register_wifi = pos 0;
  register_ip = pos 0;
  set_mode = pos 0;
  set_config = pos 0;
  wifi_start = pos 0;
  arriving = wifi_event sta_start ∷ wifi_event sta_disconnected ∷ got_ip 5 ∷ [];
}

elapsed_cycles-wrap_example :
    elapsed_cycles ((2 ^ 32 - 5) % 2 ^ 32) ((2 ^ 32 - 5 + 12) % 2 ^ 32) ≡ 12
elapsed_cycles-wrap_example = elapsed_cycles-wrap (2 ^ 32 - 5) 12 (omega arith)

-- Addresses below 100 are internal RAM.
abbrev pub heap : Heap ℕ
heap = record {
  malloc = λ n ram. (some 7, suc ram);
  malloc_spiram = λ n ram. (some 700, suc ram);
  free = λ at ram. ram - 1;
  ptr_internal = λ at. ltb at 100;
  ptr_external_ram = λ at. not (ltb at 100);
}

abbrev pub row : List ℕ
row = string_bytes "row"

-- A clock that is the state itself, and an operation of ten cycles.
abbrev pub ticks : ℕ → ℕ × ℕ
ticks s = (s % 2 ^ 32, s)

abbrev pub ten : ℕ → ℕ
ten s = s + 10

abbrev tens : List ℕ
tens = 10 ∷ 10 ∷ 10 ∷ []

bench_measure-bounds_example :
    (r : BenchResult ℕ) × (bench_measure ticks insertion_sort whole row ten (pos 3) 0
      ≡ (some r, (sample ticks insertion_sort whole ten 3 20).1))
    × (r.iterations ≡ 3)
    × (r.min ≤ r.median)
    × (r.median ≤ r.max)
    × ((i : ℕ)
        → i < 3
        → (r.min ≤ get_or (sample ticks insertion_sort whole ten 3 20).0 i 0)
          × (get_or (sample ticks insertion_sort whole ten 3 20).0 i 0 ≤ r.max))
bench_measure-bounds_example =
    bench_measure-bounds ticks insertion_sort whole row ten 3 0 (omega arith) (omega arith)
      insertion_sort-Sorts

abbrev slots : Slots
slots = record { pk = []; sk = []; ct = [] }

abbrev pub bench : Bench ℕ
bench = record {
  coins = [];
  msg = [];
  kem512 = slots;
  kem768 = slots;
  ss = [];
  op_failures = 4;
  clock = 0;
}

abbrev pub clock_of : Bench ℕ → ℕ × Bench ℕ
clock_of s = (s.clock % 2 ^ 32, record s { clock = s.clock + 1 })

abbrev pub tasks : Tasks (Bench ℕ)
tasks = record {
  created = true;
  high_water_mark = λ s. 60000;
  in_time = λ s. true;
  late = λ s. (0, s);
}

-- The context counts its calls.
abbrev pub ecdh : Ecdh ℕ
ecdh = record {
  setup = λ n. (pos 0, suc n);
  make_params = λ n. (pos 0, suc n);
  read_params = λ n. (pos 0, suc n);
  make_public = λ n. (pos 0, suc n);
  read_public = λ n. (pos 0, suc n);
  calc_secret_a = λ n. (pos 0, suc n);
  calc_secret_b = λ n. (pos 0, suc n);
  free = λ n. n;
}

op_x25519_full_exchange-Completes_example : Completes ecdh 0
unfolding op_x25519_full_exchange exchange_calls if_ok
op_x25519_full_exchange-Completes_example = op_x25519_full_exchange-Completes ecdh bench refl
