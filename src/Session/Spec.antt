-- ===== src/Session/Spec.antt =====
-- The messages and the key schedule of docs/protocol.md, as functions of their fields.
use pqc_esp32s3_benchmarks.Prelude.{
  ℕ, Bool, List, [], ◌∷◌, ◌++◌, if◌then◌else◌, length, ◌/◌, ◌%◌, ◌^◌, ℤ,
}
use pqc_esp32s3_benchmarks.Platform.{Mbedtls}
use pqc_esp32s3_benchmarks.Session.Layout.{
  Config, label_hello, label_srv_confirm, label_cli_confirm, label_c2s,
}

-- Everything that both sides know of a session once the ServerHello is there. `ek_eph`, `ct_eph`
-- and `ss_eph` belong to mode B.
pub record Transcript : Type 0 where
  pub forward_secrecy : Bool
  pub client_hello : List ℕ
  pub client_nonce : List ℕ
  pub server_nonce : List ℕ
  pub session_id : List ℕ
  pub ss : List ℕ
  pub psk : List ℕ
  pub ek_eph : List ℕ
  pub ct_eph : List ℕ
  pub ss_eph : List ℕ

module _ (m : Mbedtls) where
  abbrev pub hello_fields : Config → ℕ → List ℕ → List ℕ → List ℕ
  hello_fields c suite nonce ct = 0x01 ∷ suite ∷ (c.device_id ++ (c.server_key_id ++ (nonce ++ ct)))

  abbrev pub client_hello : Config → ℕ → List ℕ → List ℕ → List ℕ
  client_hello c suite nonce ct =
      hello_fields c suite nonce ct
      ++ m.hmac c.device_psk (label_hello ++ hello_fields c suite nonce ct)

  abbrev pub salt : Transcript → List ℕ
  salt t = t.client_nonce ++ t.server_nonce

  abbrev pub th2 : Transcript → List ℕ
  th2 t = m.sha256 (
      t.client_hello
      ++ (t.server_nonce ++ (t.session_id ++ (if t.forward_secrecy then t.ek_eph else []))))

  abbrev pub expand : List ℕ → List ℕ → List ℕ → List ℕ
  expand prk label th = m.hkdf_expand prk (label ++ th) 32

  abbrev pub prk1 : Transcript → List ℕ
  prk1 t = m.hkdf_extract (salt t) (t.ss ++ t.psk)

  abbrev pub server_mac : Transcript → List ℕ
  server_mac t = m.hmac (expand (prk1 t) label_srv_confirm (th2 t)) (th2 t)

  -- TH3 in mode B.
  abbrev pub final_hash : Transcript → List ℕ
  final_hash t = if t.forward_secrecy then m.sha256 (th2 t ++ t.ct_eph) else th2 t

  -- PRK2 in mode B.
  abbrev pub final_prk : Transcript → List ℕ
  final_prk t =
      if t.forward_secrecy then m.hkdf_extract (salt t) (t.ss ++ (t.ss_eph ++ t.psk)) else prk1 t

  abbrev pub c2s : Transcript → List ℕ
  c2s t = expand (final_prk t) label_c2s (final_hash t)

  abbrev pub client_mac : Transcript → List ℕ
  client_mac t =
      m.hmac (expand (final_prk t) label_cli_confirm (final_hash t)) (final_hash t ++ server_mac t)

  abbrev pub server_hello : Transcript → List ℕ
  server_hello t =
      t.server_nonce
      ++ (t.session_id ++ ((if t.forward_secrecy then t.ek_eph else []) ++ server_mac t))

  -- ClientFinished, or ClientKeyExchange in mode B.
  abbrev pub client_finished : Transcript → List ℕ
  client_finished t = (if t.forward_secrecy then t.ct_eph else []) ++ client_mac t

  -- A 64-bit and a 16-bit number, most significant byte first.
  abbrev pub be64 : ℕ → List ℕ
  be64 n =
      (n / 2 ^ 56 % 256)
      ∷ (n / 2 ^ 48 % 256)
      ∷ (n / 2 ^ 40 % 256)
      ∷ (n / 2 ^ 32 % 256)
      ∷ (n / 2 ^ 24 % 256)
      ∷ (n / 2 ^ 16 % 256)
      ∷ (n / 2 ^ 8 % 256)
      ∷ (n % 256)
      ∷ []

  abbrev pub be16 : ℕ → List ℕ
  be16 n = (n / 256) ∷ (n % 256) ∷ []

  -- The encryption of record `seq`: key, nonce and additional data as specified.
  abbrev pub protect : List ℕ → List ℕ → ℕ → List ℕ → ℤ × List ℕ × List ℕ
  protect session_id key seq plain =
      m.gcm_encrypt key (0 ∷ 0 ∷ 0 ∷ 0 ∷ be64 seq) (session_id ++ (be64 seq ++ be16 (length plain)))
        plain

  abbrev pub data_record : List ℕ → List ℕ → ℕ → List ℕ → List ℕ
  data_record session_id key seq plain =
      let (rc, ct, tag) = protect session_id key seq plain in
      be64 seq ++ (be16 (length plain) ++ (ct ++ tag))
