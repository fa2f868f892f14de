-- ===== src/Tests/Crypto.antt =====
-- Checksums in place of the cryptography, a board whose random bytes are all sevens, and the client's
-- configuration.
use pqc_esp32s3_benchmarks.Prelude.{
  ltb, count_of, ◌-◌, ◌/◌, ◌*◌, ℕ, zero, suc, ◌+◌, ◌*◌, ◌%◌, ◌<◌, refl, List, [], ◌∷◌, ◌++◌, arith,
  replicate, length-replicate, length-map, map, pos, IsBytes,
}
use pqc_esp32s3_benchmarks.Platform.{
  Double, IsExact, Board, Mbedtls, MlkemEnc, HasSizes, HasRandom, HasEnc,
}
use pqc_esp32s3_benchmarks.Session.Layout.{Config, IsConfig}

abbrev pub checksum : List ℕ → ℕ
checksum [] = 0
checksum (x ∷ xs) = (x + checksum xs) % 256

abbrev pub byte : ℕ → ℕ
byte x = x % 256

pub IsBytes-byte : (b : List ℕ) → IsBytes (map byte b)
IsBytes-byte [] = tt
IsBytes-byte (x ∷ b) = (omega arith, IsBytes-byte b)

abbrev pub mbedtls : Mbedtls
mbedtls = record {
  hmac = λ k b. replicate 32 (suc (checksum (k ++ b) % 255));
  sha256 = λ b. replicate 32 (checksum b);
  hkdf_extract = λ s k. s ++ k;
  hkdf_expand = λ k b n. replicate n (checksum (k ++ b));
  gcm_setkey = λ k bits. pos 0;
  gcm_encrypt = λ k n a b. (pos 0, map byte b, replicate 16 (checksum (n ++ a) % 256));
}

pub IsBytes-replicate : (n x : ℕ) → x < 256 → IsBytes (replicate n x)
IsBytes-replicate zero x h = tt
IsBytes-replicate (suc n) x h = (h, IsBytes-replicate n x h)

abbrev pub mbedtls-HasSizes : HasSizes mbedtls
mbedtls-HasSizes = record {
  length-hmac = λ k b. length-replicate 32 (suc (checksum (k ++ b) % 255));
  hmac-IsBytes = λ k b. IsBytes-replicate 32 (suc (checksum (k ++ b) % 255)) (omega arith);
  length-sha256 = λ b. length-replicate 32 (checksum b);
  length-hkdf_expand = λ k b n. length-replicate n (checksum (k ++ b));
  length-ciphertext = λ k n a b. length-map b byte;
  gcm-IsBytes =
      λ k n a b. (IsBytes-byte b, IsBytes-replicate 16 (checksum (n ++ a) % 256) (omega arith));
  length-tag = λ k n a b. length-replicate 16 (checksum (n ++ a) % 256);
}

-- The board counts its calls, and each takes it a tenth of a second; the Wi-Fi driver reports `mode`.
abbrev pub board : ℕ → Board ℕ
board mode = record {
  fill_random = λ n h. (replicate n 7, suc h);
  get_time = λ h. (h * 100000, suc h);
  wifi_get_mode = λ h. (pos 0, mode);
}

abbrev pub board-HasRandom : (mode : ℕ) → HasRandom (board mode)
board-HasRandom mode = record { length-fill_random = λ n h. length-replicate n 7 }

-- The cipher text depends on the coins drawn.
abbrev pub mlkem : MlkemEnc ℕ
mlkem = record {
  enc = λ r ek h.
      let (rc, coins, h') = r 32 h in
      (rc, replicate 1088 (checksum coins), replicate 32 (checksum (coins ++ ek)), h');
}

abbrev pub mlkem-HasEnc : HasEnc mlkem
mlkem-HasEnc = record {
  length-ct = λ r ek h. length-replicate 1088 (checksum (r 32 h).1);
  length-ss = λ r ek h. length-replicate 32 (checksum ((r 32 h).1 ++ ek));
  refuses = λ r ek h refused. refused 32 h;
}

abbrev pub config : Config
config = record {
  device_id = replicate 8 11;
  device_psk = replicate 32 12;
  server_host = [];
  server_port = 8443;
  connect_timeout_ms = 5000;
  server_key_id = replicate 4 13;
  server_public_key = replicate 1184 14;
}

abbrev pub config-IsConfig : IsConfig config
config-IsConfig = record {
  device_id_size = refl;
  device_psk_size = refl;
  server_key_id_size = refl;
  server_public_key_size = refl;
}

-- Whole numbers in place of `double`.
abbrev pub whole : Double ℕ
whole = record {
  of_u32 = λ n. n;
  of_int = count_of;
  add = λ a b. a + b;
  sub = λ a b. a - b;
  mul = λ a b. a * b;
  div = λ a b. a / b;
  neg = λ a. a;
  sqrt = λ a. a;
  is_less = ltb;
}

abbrev pub whole-IsExact : IsExact whole
whole-IsExact = record {
  whole = λ n. n;
  exact_u32 = λ n h. refl;
  exact_int = λ n h. refl;
  exact_add = λ a b h. refl;
}
