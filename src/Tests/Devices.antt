-- ===== src/Tests/Devices.antt =====
-- The whole device on the small platform.
use pqc_esp32s3_benchmarks.Prelude.{
  ℕ, suc, ◌*◌, ◌%◌, ◌^◌, ◌≤◌, ◌≡◌, refl, ap, ap₂, true, [], arith, pos, negsuc, some, none,
}
use pqc_esp32s3_benchmarks.Kem.{Kem, same_bytes}
use pqc_esp32s3_benchmarks.Kat.{
  Tables, mlkem_kat_run, count_failures, test_group, keygen_fails, encap_fails, decap_fails,
  ekcheck_fails, dkcheck_fails, sum_cases,
}
use pqc_esp32s3_benchmarks.Selftest.{
  mlkem_selftest_run, roundtrip, implicit_rejection_768, pattern_from,
}
use pqc_esp32s3_benchmarks.Wifi.{
  Station, wifi_sta_start, wait_bits, dispatch, on_wifi_event, on_ip_event, wifi_sta_is_connected,
  all_ok,
}
use pqc_esp32s3_benchmarks.Session.Layout.{World, IsWorld, Mode, mode_a, mode_b_forward_secrecy}
use pqc_esp32s3_benchmarks.Session.Client.{pqc_session_run}
use pqc_esp32s3_benchmarks.Session.Client.Keeps.{moved, pqc_session_run-Keeps}
use pqc_esp32s3_benchmarks.Session.Client.Live.{pqc_session_run-true}
use pqc_esp32s3_benchmarks.Session.Client.Whole
use pqc_esp32s3_benchmarks.Session.Client.Whole.{pqc_session_run-Ran}
use pqc_esp32s3_benchmarks.Device.{verify_buffer_placement, check_external}
use pqc_esp32s3_benchmarks.Device.Clock.{verify_cycle_counter, measure_clock, busy_wait, window_us}
use pqc_esp32s3_benchmarks.Device.Window.{Advances, measure_clock-window}
use pqc_esp32s3_benchmarks.Device.Main.{
  Machine, Parts, End, sessions, clock_of, protocol_client, run_sessions, app_main,
}
use pqc_esp32s3_benchmarks.Device.Cleared.{Ended, app_main-Ended}
use pqc_esp32s3_benchmarks.Device.Completed.{Completed, app_main-result, app_main-Completed}
use pqc_esp32s3_benchmarks.Tests.Crypto.{
  whole, config, config-IsConfig, mbedtls-HasSizes, board-HasRandom, mlkem-HasEnc,
}
use pqc_esp32s3_benchmarks.Tests.Toy.{
  Link, platform, stream, stream-IsLive, start, start-IsWorld, has_seen,
}
use pqc_esp32s3_benchmarks.Tests.Answers.{served, fs_of}
use pqc_esp32s3_benchmarks.Tests.Server.{server_hello}
use pqc_esp32s3_benchmarks.Tests.Runs.{stream-IsQuiet, mbedtls-Encrypts}
use pqc_esp32s3_benchmarks.Tests.Boards.{heap, bringup}

-- The cipher text and the secret are the coins, and every key is refused.
abbrev strict : Kem
strict = record {
  public_key_bytes = 64;
  secret_key_bytes = 64;
  ciphertext_bytes = 32;
  keypair_derand = λ d. (pos 0, d, d);
  enc_derand = λ pk m. (pos 0, m, m);
  dec = λ ct sk. (pos 0, ct);
  check_pk = λ k. negsuc 0;
  check_sk = λ k. negsuc 0;
}

abbrev empty_tables : Tables
empty_tables = record {
  keygen_d = [];
  keygen_z = [];
  keygen_ek = [];
  keygen_dk = [];
  encap_ek = [];
  encap_m = [];
  encap_c = [];
  encap_k = [];
  decap_dk = [];
  decap_c = [];
  decap_k = [];
  ekcheck_key = [];
  ekcheck_valid = [];
  dkcheck_key = [];
  dkcheck_valid = [];
}

abbrev parts : Parts ℕ Link ℕ ℕ
parts = record {
  heap = heap;
  get_cycle_count = λ h. (h * 48000000 % 2 ^ 32, suc h);
  double = whole;
  kem512 = strict;
  tables512 = empty_tables;
  kem768 = strict;
  tables768 = empty_tables;
  bringup = bringup;
  join_net = λ net. net;
  join_host = λ h. h;
  platform = platform 1;
  config = config;
}

abbrev off : Station
off = record { events = none; attempts = 0; ip = 0; connects = 0 }

abbrev switched_on : Machine ℕ Link ℕ
switched_on = record { ram = 0; station = off; world = start [] tt }

-- Each reading takes the timer on by a tenth of a second.
parts-Advances : Advances (clock_of parts) 1
parts-Advances = record {
  keeps_time = λ h. omega arith;
  keeps_cycles = λ h. omega arith;
  progress = λ h. omega arith;
}

measure_clock-window_example :
    (cycles : ℕ) × (elapsed : ℕ) × (h' : ℕ) × (measure_clock (clock_of parts) 200001 7
      ≡ some (cycles, pos elapsed, h'))
    × (window_us ≤ elapsed)
measure_clock-window_example =
    measure_clock-window (clock_of parts) 1 parts-Advances 200001 7 (omega arith)

ended : (r : End × Machine ℕ Link ℕ) × (app_main parts 200001 switched_on ≡ some r)
ended = app_main-result parts 1 200001 switched_on parts-Advances (omega arith)

app_main-Ended_example : Ended parts 200001 switched_on ended.0
app_main-Ended_example = app_main-Ended parts 200001 switched_on ended.1

-- The first session begins after five calls of the two clocks.
abbrev before_a : World Link ℕ
before_a = record (start [] tt) { host = 12 }

before_a-IsWorld : IsWorld before_a
before_a-IsWorld = moved (start [] tt) _ _ (start-IsWorld [] tt)

abbrev after : Mode → World Link ℕ → World Link ℕ
after mode w = (pqc_session_run (platform 1) config mode 3 w).1

runs :
    (mode : Mode) (w : World Link ℕ)
    → IsWorld w
    → has_seen w.net.sent ≡ fs_of mode
    → pqc_session_run (platform 1) config mode 3 w ≡ (true, after mode w)
runs mode w sized e =
    ap (λ b. (b, after mode w))
      (pqc_session_run-true (platform 1) config mode w stream stream-IsLive config-IsConfig
        mbedtls-HasSizes mbedtls-Encrypts (board-HasRandom 1) mlkem-HasEnc sized 3
        (server_hello (fs_of mode)) [] (omega arith) (served mode w e))

run_a : pqc_session_run (platform 1) config mode_a 3 before_a ≡ (true, after mode_a before_a)
run_a = runs mode_a before_a before_a-IsWorld refl

between-IsWorld : IsWorld (after mode_a before_a)
between-IsWorld =
    pqc_session_run-Keeps (platform 1) config mbedtls-HasSizes stream config-IsConfig
      (board-HasRandom 1) mlkem-HasEnc mode_a 3 before_a before_a-IsWorld

ran_a : Whole.Ran (platform 1) config mode_a before_a stream 3 (after mode_a before_a)
ran_a =
    pqc_session_run-Ran (platform 1) config mode_a before_a stream stream-IsQuiet config-IsConfig
      mbedtls-HasSizes (board-HasRandom 1) mlkem-HasEnc before_a-IsWorld 3 (omega arith) run_a

run_b :
    pqc_session_run (platform 1) config mode_b_forward_secrecy 3 (after mode_a before_a)
    ≡ (true, after mode_b_forward_secrecy (after mode_a before_a))
run_b = runs mode_b_forward_secrecy (after mode_a before_a) between-IsWorld (ap has_seen ran_a.wire)

abbrev finished : Machine ℕ Link ℕ
finished = record {
  ram = (verify_buffer_placement heap 0).1;
  station = (wifi_sta_start bringup off).1;
  world = after mode_b_forward_secrecy (after mode_a before_a);
}

both_ran : app_main parts 200001 switched_on ≡ some (sessions true true, finished)
unfolding app_main verify_buffer_placement check_external verify_cycle_counter measure_clock
    busy_wait mlkem_selftest_run roundtrip implicit_rejection_768 pattern_from same_bytes
    mlkem_kat_run count_failures test_group keygen_fails encap_fails decap_fails ekcheck_fails
    dkcheck_fails sum_cases protocol_client run_sessions wifi_sta_start wait_bits dispatch
    on_wifi_event on_ip_event wifi_sta_is_connected all_ok
both_ran = ap₂ (λ a b. some (sessions a b, finished)) (ap (λ r. r.0) run_a) (ap (λ r. r.0) run_b)

app_main-Completed_example : Completed parts stream 200001 switched_on finished
app_main-Completed_example =
    app_main-Completed parts stream 200001 switched_on stream-IsQuiet config-IsConfig
      mbedtls-HasSizes (board-HasRandom 1) mlkem-HasEnc (start-IsWorld [] tt) both_ran
