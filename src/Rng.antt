-- ===== src/Rng.antt =====
-- firmware/esp32s3-dut/components/mlkem/esp_randombytes.c: the random source that mlkem-native
-- gets, which refuses while the radio is not running. The build has Wi-Fi and no Bluetooth
-- (CONFIG_ESP_WIFI_ENABLED set, CONFIG_BT_ENABLED not).
pub mod Gate
use pqc_esp32s3_benchmarks.Prelude.{
  ℕ, zero, suc, Bool, true, false, ◌&&◌, not, List, [], ◌∷◌, ℤ, pos, negsuc, is_zero, ◌==◌,
  if◌then◌else◌,
}
use pqc_esp32s3_benchmarks.Platform.{Board}

-- WIFI_MODE_NULL
abbrev pub wifi_mode_null : ℕ
wifi_mode_null = 0

module _ {Host : Type 0} (b : Board Host) where
  unfoldable pub rf_entropy_available : Host → Bool
  rf_entropy_available h =
      let (rc, mode) = b.wifi_get_mode h in is_zero rc && not (mode == wifi_mode_null)

  -- `out` is NULL where `present` is false. The result is the return code, the bytes written and
  -- the board afterwards.
  unfoldable pub randombytes : Bool → ℕ → Host → ℤ × List ℕ × Host
  randombytes present outlen h =
      if not present
      then (negsuc 0, [], h)
      else (if not (rf_entropy_available h)
          then (negsuc 0, [], h)
          else (let (out, h') = b.fill_random outlen h in (pos 0, out, h')))
