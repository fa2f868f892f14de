-- ===== src/Device.antt =====
-- firmware/esp32s3-dut/main/main.c: the placement check and the cycle counter's difference. Device/Clock
-- has the check of the counter, and Device/Main the whole of `app_main`.
pub mod Gate
pub mod Clock
pub mod Window
pub mod Main
pub mod Cleared
pub mod Completed
use pqc_esp32s3_benchmarks.Prelude.{
  ℕ, zero, suc, ◌+◌, ◌-◌, ◌%◌, ◌^◌, ◌≡◌, Bool, true, false, ◌&&◌, not, List, [], ◌∷◌, if◌then◌else◌,
  Option, none, some, ltb,
}

abbrev pub crypto_scratch_bytes : ℕ
crypto_scratch_bytes = 8192

-- The heap that the placement check asks: an allocation is an address, or NULL.
pub record Heap (Ram : Type 0) : Type 0 where
  pub malloc : ℕ → Ram → Option ℕ × Ram
  pub malloc_spiram : ℕ → Ram → Option ℕ × Ram
  pub free : ℕ → Ram → Ram
  pub ptr_internal : ℕ → Bool
  pub ptr_external_ram : ℕ → Bool

module _ {Ram : Type 0} (heap : Heap Ram) where
  -- From the request for PSRAM on; `ok` is the verdict on plain `malloc`.
  unfoldable pub check_external : Bool → Ram → Bool × Ram
  check_external ok ram =
      let (external, ram') = heap.malloc_spiram crypto_scratch_bytes ram in
      elim external [
        | none ↦ (false, ram')
        | some at ↦ (ok && heap.ptr_external_ram at, heap.free at ram')
      ]

  unfoldable pub verify_buffer_placement : Ram → Bool × Ram
  verify_buffer_placement ram =
      let (scratch, ram') = heap.malloc crypto_scratch_bytes ram in
      elim scratch [
        | none ↦ (false, ram')
        | some at ↦ check_external (true && heap.ptr_internal at) (heap.free at ram')
      ]

-- `c1 - c0` on `uint32_t`.
abbrev pub elapsed_cycles : ℕ → ℕ → ℕ
elapsed_cycles c0 c1 = (c1 + 2 ^ 32 - c0) % 2 ^ 32
