-- ===== src/Device/Gate.antt =====
-- What the placement check and the cycle counter's difference establish.
use pqc_esp32s3_benchmarks.Prelude.{
  ℕ, ◌+◌, ◌%◌, ◌^◌, ◌<◌, ◌≡◌, refl, Bool, true, false, ◌&&◌, arith, some, inl, inr, Option-cases,
  false≢true,
}
use pqc_esp32s3_benchmarks.Device.{
  Heap, verify_buffer_placement, check_external, crypto_scratch_bytes, elapsed_cycles,
}

-- The elapsed cycles are right over one wrap of the 32-bit counter, if the interval is shorter than it.
pub elapsed_cycles-wrap :
    (start cycles : ℕ)
    → cycles < 2 ^ 32
    → elapsed_cycles (start % 2 ^ 32) ((start + cycles) % 2 ^ 32) ≡ cycles
elapsed_cycles-wrap start cycles h = omega arith

both_of : (a b : Bool) → ((true && a) && b) ≡ true → (a ≡ true) × (b ≡ true)
both_of true true e = (refl, refl)
both_of true false e = cc e
both_of false b e = cc e

module _ {Ram : Type 0} (heap : Heap Ram) where
  -- If the placement check passes, both allocations succeeded, plain `malloc` gave internal RAM
  -- and the explicit request PSRAM.
  pub verify_buffer_placement-internal :
      (ram : Ram)
      → (verify_buffer_placement heap ram).0 ≡ true
      → (a : ℕ) × (b : ℕ) × ((heap.malloc crypto_scratch_bytes ram).0 ≡ some a)
        × (heap.ptr_internal a ≡ true)
        × ((heap.malloc_spiram crypto_scratch_bytes
              (heap.free a (heap.malloc crypto_scratch_bytes ram).1)).0
            ≡ some b)
        × (heap.ptr_external_ram b ≡ true)
  unfolding verify_buffer_placement check_external
  verify_buffer_placement-internal ram e =
      elim (Option-cases (heap.malloc crypto_scratch_bytes ram).0) [
        | inl p ↦ absurd (false≢true (rw (verify_buffer_placement, p) at e))
        | inr (a, p) ↦
            elim (Option-cases
              (heap.malloc_spiram crypto_scratch_bytes
                (heap.free a (heap.malloc crypto_scratch_bytes ram).1)).0) [
                  | inl q ↦ absurd (
                      false≢true (rw (check_external, q) at (rw (verify_buffer_placement, p) at e)))
                  | inr (b, q) ↦
                      let (x, y) =
                        both_of (heap.ptr_internal a) (heap.ptr_external_ram b)
                          (rw (check_external, q) at (rw (verify_buffer_placement, p) at e)) in
                      (a, b, p, x, q, y)
                ]
      ]
