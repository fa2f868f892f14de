-- ===== src/Session/Handshake/Established.antt =====
-- The session of a handshake, from what its two sides agreed on.
use pqc_esp32s3_benchmarks.Prelude.{
  ℕ, ◌+◌, ◌≤◌, ◌≡◌, refl, ◌∙◌, ap, ap₂, Bool, true, false, List, [], ◌++◌, arith, length, take, ℤ,
  if◌then◌else◌, some, slice, take-all, blit,
}
use pqc_esp32s3_benchmarks.Platform.{IsStream, Platform, HasSizes}
use pqc_esp32s3_benchmarks.Session.Layout.{
  Config, IsConfig, Session, World, IsWorld, client_hello_len, server_hello_len_fs,
  server_hello_len, nonce_len, session_id_len, mac_len, ciphertext_bytes, client_key_exchange_len,
  frame_client_finished, label_srv_confirm, label_c2s,
}
use pqc_esp32s3_benchmarks.Session.Spec
use pqc_esp32s3_benchmarks.Session.Spec.{Transcript}
use pqc_esp32s3_benchmarks.Session.Frames.Wire.{encode_frame}
use pqc_esp32s3_benchmarks.Session.Handshake.{Agreed, finish, new_session, hmac_sha256_2}
use pqc_esp32s3_benchmarks.Session.Handshake.Steps.{finish-FinishSent, FinishSent}
use pqc_esp32s3_benchmarks.Session.Handshake.Transcript.{transcript_of, mac_offset}
use pqc_esp32s3_benchmarks.Session.Handshake.Schedule.{AgreedOn}

module _ {Net Host : Type 0} (p : Platform Net Host) (st : IsStream p.sockets) where
  open st use {sent, pending}

  -- A session that was set up in `w`, whose `s_frame` holds the ServerHello, up to `w'`.
  pub record Established (sock : ℤ) (t : Transcript) (s : Session) (w w' : World Net Host)
      : Type 0 where
    pub server_mac :
        slice (mac_offset p t.forward_secrecy) mac_len w.frame ≡ Spec.server_mac p.mbedtls t
    pub wire :
        sent sock w'.net
        ≡ sent sock w.net ++ encode_frame frame_client_finished (Spec.client_finished p.mbedtls t)
    pub key : s.c2s ≡ Spec.c2s p.mbedtls t
    pub session_id : s.session_id ≡ t.session_id
    pub first : s.send_seq ≡ 0
    pub mode : s.forward_secrecy ≡ t.forward_secrecy
    pub size : s.handshake_bytes ≡ (if t.forward_secrecy then 3551 else 1279)

  module _ (c : Config) (conf : IsConfig c) (sz : HasSizes p.mbedtls) (sock : ℤ) (nonce ss : List ℕ)
      (nonce_size : length nonce ≡ 32) (ss_size : length ss ≡ 32) (us : ℤ) (w : World Net Host)
      (sized : IsWorld w) where
    module _ (fs : Bool) (a : Agreed) (v : World Net Host)
        (ag : AgreedOn p (transcript_of p fs c nonce ss w) w a v)
        (mac : slice (mac_offset p fs) mac_len w.frame
          ≡ Spec.server_mac p.mbedtls (transcript_of p fs c nonce ss w)) where
      client_mac : List ℕ
      client_mac =
          hmac_sha256_2 p.mbedtls a.keys.cli_confirm (take 32 a.transcript)
            (slice (mac_offset p fs) mac_len w.frame) 32

      t : Transcript
      t = transcript_of p fs c nonce ss w

      server_mac_all :
          take 32 (slice (mac_offset p fs) mac_len w.frame) ≡ Spec.server_mac p.mbedtls t
      unfolding t
      server_mac_all =
          ap (take 32) mac
          ∙ take-all 32 (Spec.server_mac p.mbedtls t) (
              omega (
                arith,
                sz.length-hmac
                    (Spec.expand p.mbedtls (Spec.prk1 p.mbedtls t) label_srv_confirm
                      (Spec.th2 p.mbedtls t))
                    (Spec.th2 p.mbedtls t),
              ))

      -- What is in `s_out` when the last message goes out.
      pub finished-text :
          take a.finished_len (
            blit v.out (if fs then ciphertext_bytes else 0) (
              hmac_sha256_2 p.mbedtls a.keys.cli_confirm
                (take 32 a.transcript)
                (slice (mac_offset p fs) mac_len w.frame)
                32))
          ≡ Spec.client_finished p.mbedtls (transcript_of p fs c nonce ss w)
      unfolding client_mac t
      finished-text =
          ag.message client_mac (sz.length-hmac a.keys.cli_confirm _)
          ∙ ap (λ l. (if fs then t.ct_eph else []) ++ l)
              (ap₂ p.mbedtls.hmac ag.confirm (ap₂ ◌++◌ ag.hash server_mac_all))

      pub finished-small : a.finished_len ≤ client_key_exchange_len
      finished-small = small fs ag.len
        where
          small :
              (b : Bool)
              → a.finished_len ≡ (if b then client_key_exchange_len else mac_len)
              → a.finished_len ≤ client_key_exchange_len
          small true h = omega arith
          small false h = omega arith

    -- The last message and the session, from what was agreed on.
    pub conclude :
        (fs : Bool) (a : Agreed) (v : World Net Host) {u : Unit {0}} {w' : World Net Host}
        → AgreedOn p (transcript_of p fs c nonce ss w) w a v
        → slice (mac_offset p fs) mac_len w.frame
          ≡ Spec.server_mac p.mbedtls (transcript_of p fs c nonce ss w)
        → finish p sock fs a (slice (mac_offset p fs) mac_len w.frame) v ≡ (some u, w')
        → Established sock
            (transcript_of p fs c nonce ss w)
            (new_session p fs
              (if fs then server_hello_len_fs else server_hello_len)
              (slice nonce_len session_id_len w.frame)
              us
              a)
            w
            w'
    conclude fs a v {u} {w'} ag mac e = record {
      server_mac = mac;
      wire =
          f.wire
          ∙ ap₂ (λ x y. sent sock x ++ encode_frame frame_client_finished y) ag.net
              (ap (take a.finished_len) f.in_buffer ∙ finished-text fs a v ag mac);
      key =
          take-all 32 a.keys.c2s (
            omega (
              arith,
              ap length ag.c2s,
              sz.length-hkdf_expand (Spec.final_prk p.mbedtls t)
                  (label_c2s ++ Spec.final_hash p.mbedtls t) 32,
            ))
          ∙ ag.c2s;
      session_id = refl;
      first = refl;
      mode = refl;
      size = size fs ag.len;
    }
      where
        t : Transcript
        t = transcript_of p fs c nonce ss w

        size :
            (b : Bool)
            → a.finished_len ≡ (if b then client_key_exchange_len else mac_len)
            → 3
                + client_hello_len
                + 3
                + (if b then server_hello_len_fs else server_hello_len)
                + 3
                + a.finished_len
              ≡ (if b then 3551 else 1279)
        size true h = omega arith
        size false h = omega arith

        f :
            FinishSent p st sock
              (if fs then ciphertext_bytes else 0)
              a.finished_len
              (hmac_sha256_2 p.mbedtls a.keys.cli_confirm
                (take 32 a.transcript)
                (slice (mac_offset p fs) mac_len w.frame)
                32)
              v
              w'
        f =
            finish-FinishSent p st sock fs a (slice (mac_offset p fs) mac_len w.frame) v
              (finished-small fs a v ag mac) ag.size (sz.length-hmac a.keys.cli_confirm _) e
