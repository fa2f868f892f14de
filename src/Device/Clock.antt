-- ===== src/Device/Clock.antt =====
-- `verify_cycle_counter` of main.c: the CPU's cycle counter against `esp_timer`.
use pqc_esp32s3_benchmarks.Prelude.{
  ℕ, zero, suc, ◌+◌, Bool, ltb, ℤ, sub_ℕ, if◌then◌else◌, Option, none, some,
}
use pqc_esp32s3_benchmarks.Platform.{Double}
use pqc_esp32s3_benchmarks.Device.{elapsed_cycles}

-- What the check calls: `esp_timer_get_time`, in microseconds, and `esp_cpu_get_cycle_count`.
pub record Clock (Host : Type 0) : Type 0 where
  pub get_time : Host → ℕ × Host
  pub get_cycle_count : Host → ℕ × Host

abbrev pub window_us : ℕ
window_us = 200000

-- CONFIG_ESP_DEFAULT_CPU_FREQ_MHZ
abbrev pub cpu_freq_mhz : ℕ
cpu_freq_mhz = 240

module _ {Host : Type 0} (clock : Clock Host) where
  -- The busy loop, on fuel: `none` where that runs out. `t - t0 < window` on signed numbers is
  -- `t < t0 + window`.
  unfoldable pub busy_wait : ℕ → ℕ → Host → Option Host
  busy_wait zero t0 h = none
  busy_wait (suc fuel) t0 h =
      let (t, h') = clock.get_time h in
      let rest = busy_wait fuel t0 h' in if ltb t (t0 + window_us) then rest else some h'

  -- The elapsed cycles and microseconds.
  unfoldable pub measure_clock : ℕ → Host → Option (ℕ × ℤ × Host)
  measure_clock fuel h =
      let (t0, h0) = clock.get_time h in
      let (c0, h1) = clock.get_cycle_count h0 in
      elim (busy_wait fuel t0 h1) [
        | none ↦ none
        | some h2 ↦
            let (c1, h3) = clock.get_cycle_count h2 in
            let (t1, h4) = clock.get_time h3 in some (elapsed_cycles c0 c1, sub_ℕ t1 t0, h4)
      ]

  module _ {D : Type 0} (double : Double D) where
    -- The verdict on the two figures.
    abbrev pub within_tolerance : ℕ → ℤ → Bool
    within_tolerance cycles elapsed =
        let measured_mhz = double.div (double.of_u32 cycles) (double.of_int elapsed) in
        let deviation = double.sub measured_mhz (double.of_u32 cpu_freq_mhz) in
        let size =
          if double.is_less deviation (double.of_u32 0) then double.neg deviation else deviation in
        double.is_less size (double.of_u32 2)

    unfoldable pub verify_cycle_counter : ℕ → Host → Option (Bool × Host)
    verify_cycle_counter fuel h = elim (measure_clock fuel h) [
      | none ↦ none
      | some (cycles, elapsed, h') ↦ some (within_tolerance cycles elapsed, h')
    ]
