-- ===== src/Device/Main.antt =====
-- `app_main` of firmware/esp32s3-dut/main/main.c, over the checks, the Wi-Fi station and the client.
-- What it only prints has no part here.
use pqc_esp32s3_benchmarks.Prelude.{ℕ, Bool, ◌&&◌, not, if◌then◌else◌, Option, none, some}
use pqc_esp32s3_benchmarks.Platform.{Platform, Double}
use pqc_esp32s3_benchmarks.Kem.{Kem}
use pqc_esp32s3_benchmarks.Kat.{Tables, mlkem_kat_run}
use pqc_esp32s3_benchmarks.Selftest.{mlkem_selftest_run}
use pqc_esp32s3_benchmarks.Wifi.{Station, Bringup, wifi_sta_start, aborted, no_mem, ok, fail}
use pqc_esp32s3_benchmarks.Session.Layout.{Config, World, mode_a, mode_b_forward_secrecy}
use pqc_esp32s3_benchmarks.Session.Client.{pqc_session_run}
use pqc_esp32s3_benchmarks.Device.{Heap, verify_buffer_placement}
use pqc_esp32s3_benchmarks.Device.Clock.{Clock, verify_cycle_counter}

-- The state of the program: the heap, the statics of wifi_sta.c, and those of pqc_session.c with the
-- network stack and the board.
pub record Machine (Ram Net Host : Type 0) : Type 0 where
  pub ram : Ram
  pub station : Station
  pub world : World Net Host

-- What the program calls. `join_net` and `join_host` are what the calls that bring the Wi-Fi up do to the
-- network stack and the board.
pub record Parts (Ram Net Host D : Type 0) : Type 0 where
  pub heap : Heap Ram
  pub get_cycle_count : Host → ℕ × Host
  pub double : Double D
  pub kem512 : Kem
  pub tables512 : Tables
  pub kem768 : Kem
  pub tables768 : Tables
  pub bringup : Bringup
  pub join_net : Net → Net
  pub join_host : Host → Host
  pub platform : Platform Net Host
  pub config : Config

-- How `app_main` ends. An ESP_ERROR_CHECK that fails in `wifi_sta_start` restarts the chip.
pub data End : Type 0 where
  bring_up_failed : End
  restarted : End
  no_network : End
  sessions : Bool → Bool → End

module _ {Ram Net Host D : Type 0} (d : Parts Ram Net Host D) where
  abbrev pub clock_of : Clock Host
  clock_of = record { get_time = d.platform.board.get_time; get_cycle_count = d.get_cycle_count }

  -- Both modes, one after the other whatever the first returns.
  unfoldable pub run_sessions : Machine Ram Net Host → End × Machine Ram Net Host
  run_sessions m =
      let (a, w1) = pqc_session_run d.platform d.config mode_a 3 m.world in
      let (b, w2) = pqc_session_run d.platform d.config mode_b_forward_secrecy 3 w1 in
      (sessions a b, record m { world = w2 })

  abbrev pub on_network : World Net Host → World Net Host
  on_network w = record w { net = d.join_net w.net; host = d.join_host w.host }

  -- Behind the checks.
  unfoldable pub protocol_client : Machine Ram Net Host → End × Machine Ram Net Host
  protocol_client m =
      let (started, station) = wifi_sta_start d.bringup m.station in
      let m1 = record m { station = station; world = on_network m.world } in
      elim started [
        | aborted ↦ (restarted, m1)
        | no_mem ↦ (no_network, m1)
        | fail ↦ (no_network, m1)
        | ok ↦ run_sessions m1
      ]

  -- The fuel is that of the busy loop in `verify_cycle_counter`; `none` where it runs out.
  unfoldable pub app_main : ℕ → Machine Ram Net Host → Option (End × Machine Ram Net Host)
  app_main fuel m =
      let (placement_ok, ram) = verify_buffer_placement d.heap m.ram in
      let selftest_ok = mlkem_selftest_run d.kem512 d.kem768 in
      let kat_ok = mlkem_kat_run d.kem512 d.tables512 d.kem768 d.tables768 in
      elim (verify_cycle_counter clock_of d.double fuel m.world.host) [
        | none ↦ none
        | some (counter_ok, host) ↦
            let m1 = record m { ram = ram; world = record m.world { host = host } } in
            some (
              if not (placement_ok && counter_ok && selftest_ok && kat_ok)
              then (bring_up_failed, m1)
              else protocol_client m1)
      ]
