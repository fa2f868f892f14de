-- ===== src/Session/Handshake/Refusal.antt =====
-- What `handshake` does not do: go on without randomness, and use a key that is not authenticated.
use pqc_esp32s3_benchmarks.Prelude.{
  ℕ, ◌≡◌, ◌≢◌, ◌∙◌, Bool, true, false, ◌⊎◌, inl, inr, length, ℤ, none, some, is_zero, arith, slice,
  Bool-cases,
}
use pqc_esp32s3_benchmarks.Platform.{Platform, HasSizes, HasEnc, HasRandom, IsStream}
use pqc_esp32s3_benchmarks.Rng.{randombytes, rf_entropy_available, wifi_mode_null}
use pqc_esp32s3_benchmarks.Session.Layout.{
  Config, IsConfig, World, IsWorld, Session, Run, ◌>>◌, guard, u16, mac_len,
}
use pqc_esp32s3_benchmarks.Session.Spec
use pqc_esp32s3_benchmarks.Session.Handshake.{
  handshake, encapsulate, send_hello, receive_hello, authenticate, random_source,
}
use pqc_esp32s3_benchmarks.Session.Handshake.Transcript.{
  transcript_of, mac_offset, encapsulate_time,
}
use pqc_esp32s3_benchmarks.Session.Handshake.Sound.{server_mac-eq, test_of, authenticate-refused}
use pqc_esp32s3_benchmarks.Session.Handshake.Steps.{>>=-some, >>=-step}
use pqc_esp32s3_benchmarks.Session.Handshake.Whole.{is_fs, drawn, pinned, before_hello, expected_of}

-- The radio is not running, whatever the board does.
abbrev pub IsRadioOff : {Net Host : Type 0} → Platform Net Host → Type 0
IsRadioOff {Net} {Host} p =
    (h : Host)
    → (is_zero (p.board.wifi_get_mode h).0 ≡ false) ⊎ ((p.board.wifi_get_mode h).1 ≡ wifi_mode_null)

-- While the radio is not running, and if the encapsulation fails when its random source does,
-- `handshake` fails with nothing sent, nothing received and the
-- static buffers as they were, although the client nonce is drawn without the check.
pub handshake-radio_off :
    {Net Host : Type 0} (p : Platform Net Host) (c : Config) (sock : ℤ) (suite : ℕ)
    (w : World Net Host)
    → HasEnc p.mlkem
    → IsRadioOff p
    → handshake p c sock suite w ≡ (none, before_hello p c suite w)
unfolding handshake encapsulate
handshake-radio_off {Net} {Host} p c sock suite w ke off = rw refused
  where
    no_bytes : (n : ℕ) (h : Host) → is_zero (random_source p n h).0 ≡ false
    no_bytes n h = unfold randombytes rf_entropy_available in ground (arith, off h)

    refused : is_zero (pinned p c suite w).0 ≡ false
    refused = ke.refuses (random_source p) c.server_public_key _ no_bytes

module _ {Net Host : Type 0} (p : Platform Net Host) (st : IsStream p.sockets) (c : Config)
    (sock : ℤ) (suite : ℕ) (w : World Net Host) where
  -- The two messages up to the check of the MAC.
  abbrev pub hello_exchange : Run Net Host (Unit {0})
  hello_exchange =
      send_hello p c sock suite (drawn p c suite w).0 (pinned p c suite w).1
      >> receive_hello p sock (u16 (expected_of p c suite w))

  -- With configuration, buffers and library outputs of their declared sizes: if the ServerHello that
  -- the hello exchange left in `v` carries any MAC but the specification's, `handshake` fails in that
  -- very state: no encapsulation to the ephemeral key, no further message, no session.
  pub handshake-wrong_mac :
      {a : Unit {0}} {v : World Net Host}
      → IsConfig c
      → HasSizes p.mbedtls
      → HasRandom p.board
      → HasEnc p.mlkem
      → IsWorld v
      → is_zero (pinned p c suite w).0 ≡ true
      → hello_exchange (before_hello p c suite w) ≡ (some a, v)
      → slice (mac_offset p (is_fs p c suite w)) mac_len v.frame
        ≢ Spec.server_mac p.mbedtls
            (transcript_of p (is_fs p c suite w) c (drawn p c suite w).0 (pinned p c suite w).2 v)
      → handshake p c sock suite w ≡ (none, v)
  unfolding handshake encapsulate
  handshake-wrong_mac {a} {v} conf sz rnd ke sized ok reached wrong =
      let (_, w2, said, heard) =
        >>=-some say (λ _. listen) {w = before_hello p c suite w} reached in
      >>=-step (guard (is_zero (pinned p c suite w).0)) (λ _. say >> (listen >> check)) (rw ok)
      ∙ (>>=-step say (λ _. listen >> check) said
          ∙ (>>=-step listen (λ _. check) heard
              ∙ authenticate-refused p st c conf sz sock (drawn p c suite w).0
                  (pinned p c suite w).2 nonce_size ss_size us v sized fs refused))
    where
      fs : Bool
      fs = is_fs p c suite w

      us : ℤ
      us = encapsulate_time p c.server_public_key (drawn p c suite w).1

      say : Run Net Host (Unit {0})
      say = send_hello p c sock suite (drawn p c suite w).0 (pinned p c suite w).1

      listen : Run Net Host (Unit {0})
      listen = receive_hello p sock (u16 (expected_of p c suite w))

      check : Run Net Host Session
      check = authenticate p c sock fs (drawn p c suite w).0 (pinned p c suite w).2 us

      nonce_size : length (drawn p c suite w).0 ≡ 32
      nonce_size = rnd.length-fill_random 32 w.host

      ss_size : length (pinned p c suite w).2 ≡ 32
      ss_size = ke.length-ss (random_source p) c.server_public_key _

      refused :
          test_of p st c conf sz sock
            (drawn p c suite w).0
            (pinned p c suite w).2
            nonce_size
            ss_size
            us
            v
            sized
            fs
          ≡ false
      refused =
          elim (Bool-cases (
            test_of p st c conf sz sock (drawn p c suite w).0 (pinned p c suite w).2 nonce_size
              ss_size us v sized fs)) [
                | inl e ↦ absurd (
                    wrong (
                      server_mac-eq p st c conf sz sock (drawn p c suite w).0 (pinned p c suite w).2
                        nonce_size ss_size us v sized fs e))
                | inr e ↦ e
              ]
