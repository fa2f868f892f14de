-- ===== src/Rng/Gate.antt =====
-- When `randombytes` serves, and what it returns.
use pqc_esp32s3_benchmarks.Prelude.{
  ℕ, ◌≡◌, ◌≢◌, Bool, true, false, [], pos, negsuc, is_zero, arith, ◌⊎◌,
}
use pqc_esp32s3_benchmarks.Platform.{Board}
use pqc_esp32s3_benchmarks.Rng.{rf_entropy_available, randombytes, wifi_mode_null}

module _ {Host : Type 0} (b : Board Host) where
  -- `randombytes` succeeds exactly when it is given a buffer while the Wi-Fi driver reports a mode
  -- other than WIFI_MODE_NULL. Otherwise it writes no byte, and does not touch the random source.
  pub randombytes_gate :
      (present : Bool) (n : ℕ) (h : Host)
      → ((present ≡ true)
          × (is_zero (b.wifi_get_mode h).0 ≡ true)
          × ((b.wifi_get_mode h).1 ≢ wifi_mode_null)
          × (randombytes b present n h ≡ (pos 0, (b.fill_random n h).0, (b.fill_random n h).1)))
        ⊎ (((present ≡ false)
              ⊎ (is_zero (b.wifi_get_mode h).0 ≡ false)
              ⊎ ((b.wifi_get_mode h).1 ≡ wifi_mode_null))
            × (randombytes b present n h ≡ (negsuc 0, [], h)))
  unfolding randombytes rf_entropy_available
  randombytes_gate present n h = ground arith
