-- ===== src/Session/Handshake/Hello.antt =====
-- The ClientHello that `handshake` builds in `s_hello` is the specification's.
use pqc_esp32s3_benchmarks.Prelude.{
  ℕ, ◌≡◌, refl, ◌∙◌, ap, sym, List, [], ◌∷◌, ◌++◌, append_assoc, length,
}
use pqc_esp32s3_benchmarks.Platform.{Mbedtls, HasSizes}
use pqc_esp32s3_benchmarks.Session.Layout.{
  Config, IsConfig, client_hello_len, ciphertext_bytes, nonce_len, label_hello, device_id_len,
  key_id_len, mac_len,
}
use pqc_esp32s3_benchmarks.Session.Spec
use pqc_esp32s3_benchmarks.Session.Cursor.{Cursor, put, Filled, put-Filled, text-of, full-of}
use pqc_esp32s3_benchmarks.Session.Handshake.{fill_hello, hmac_sha256_2}

module _ (m : Mbedtls) (c : Config) (conf : IsConfig c) (suite : ℕ) (nonce ct hello : List ℕ)
    (nonce_size : length nonce ≡ nonce_len) (ct_size : length ct ≡ ciphertext_bytes)
    (hello_size : length hello ≡ client_hello_len) where
  abbrev start : Cursor
  start = record { buf = hello; at = 0 }

  start-Filled : Filled [] client_hello_len start
  start-Filled = record { rest = hello; buffer = refl; index = refl; left = hello_size }

  abbrev device : Cursor
  device = put c.device_id device_id_len (put (suite ∷ []) 1 (put (0x01 ∷ []) 1 start))

  abbrev fields : Cursor
  fields = put ct ciphertext_bytes (put nonce nonce_len (put c.server_key_id key_id_len device))

  device-Filled : Filled (0x01 ∷ suite ∷ c.device_id) 1156 device
  device-Filled = put-Filled c.device_id 8 1156 conf.device_id_size refl (
      put-Filled (suite ∷ []) 1 1164 refl refl
        (put-Filled (0x01 ∷ []) 1 1165 refl refl start-Filled))

  fields-Filled : Filled (Spec.hello_fields m c suite nonce ct) mac_len fields
  fields-Filled = rw (sym (append_assoc c.device_id c.server_key_id (nonce ++ ct))) (
      rw (sym (append_assoc (c.device_id ++ c.server_key_id) nonce ct)) (
        put-Filled ct 1088 32 ct_size refl (
          put-Filled nonce 32 1120 nonce_size refl
            (put-Filled c.server_key_id 4 1152 conf.server_key_id_size refl device-Filled))))

  hello_mac :
      HasSizes m
      → Filled
          (Spec.client_hello m c suite nonce ct)
          0
          (put (hmac_sha256_2 m c.device_psk label_hello fields.buf fields.at) mac_len fields)
  hello_mac sz = rw covered (
      put-Filled (m.hmac c.device_psk (label_hello ++ text)) 32 0
        (sz.length-hmac c.device_psk (label_hello ++ text)) refl fields-Filled)
    where
      text : List ℕ
      text = Spec.hello_fields m c suite nonce ct

      covered :
          hmac_sha256_2 m c.device_psk label_hello fields.buf fields.at
          ≡ m.hmac c.device_psk (label_hello ++ text)
      covered = ap (λ l. m.hmac c.device_psk (label_hello ++ l)) (text-of fields-Filled)

  -- With arrays of their declared sizes, the ClientHello in `s_hello` is exactly the specification's
  -- message, MAC over the label and all fields included; the index ends at CLIENT_HELLO_LEN and the
  -- message fills the buffer, so that no byte is written outside it.
  pub fill_hello-client_hello :
      HasSizes m
      → let filled = fill_hello m c suite nonce ct hello in
        (filled.buf ≡ Spec.client_hello m c suite nonce ct)
        × (filled.at ≡ client_hello_len)
        × (length filled.buf ≡ client_hello_len)
  unfolding fill_hello
  fill_hello-client_hello sz =
      let f = hello_mac sz in let e = full-of f in (e, refl, ap length e ∙ sym f.index)
