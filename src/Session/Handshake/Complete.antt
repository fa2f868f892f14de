-- ===== src/Session/Handshake/Complete.antt =====
-- On a live connection to a server that follows the specification, `handshake` succeeds.
use pqc_esp32s3_benchmarks.Prelude.{
  ℕ, ◌+◌, ◌≡◌, ◌∙◌, ap, sym, Bool, true, false, List, ◌++◌, arith, length, drop, ℤ, if◌then◌else◌,
  some, is_zero, slice, slice-append_front,
}
use pqc_esp32s3_benchmarks.Platform.{IsStream, IsLive, Platform, HasSizes, HasRandom, HasEnc}
use pqc_esp32s3_benchmarks.Session.Layout.{
  Config, IsConfig, Session, World, IsWorld, Run, ◌>>◌, guard, server_hello_len_fs,
  server_hello_len, nonce_len, session_id_len, mac_len, public_key_bytes, u16,
}
use pqc_esp32s3_benchmarks.Session.Spec
use pqc_esp32s3_benchmarks.Session.Spec.{Transcript}
use pqc_esp32s3_benchmarks.Session.Handshake.{
  encapsulate, authenticate, random_source, handshake, send_hello, receive_hello,
}
use pqc_esp32s3_benchmarks.Session.Handshake.Steps.{>>=-step}
use pqc_esp32s3_benchmarks.Session.Handshake.Transcript.{
  transcript_from, transcript_of, mac_offset, ephemeral, encapsulate_time,
}
use pqc_esp32s3_benchmarks.Session.Handshake.Accept.{authenticate-true}
use pqc_esp32s3_benchmarks.Session.Handshake.Reach.{
  Offered, heard, heard-IsWorld, heard_eq, said_eq, said-HelloSent,
}
use pqc_esp32s3_benchmarks.Session.Handshake.Whole.{is_fs, drawn, pinned, before_hello, expected_of}

module _ {Net Host : Type 0} (p : Platform Net Host) where
  -- What follows the ServerHello in `s_frame` has no part in its MAC.
  server_mac-front :
      (fs : Bool) (c : Config) (nonce ss hello payload rest : List ℕ) (h : Host)
      → length payload ≡ (if fs then server_hello_len_fs else server_hello_len)
      → Spec.server_mac p.mbedtls (transcript_from p fs c nonce ss hello (payload ++ rest) h)
        ≡ Spec.server_mac p.mbedtls (transcript_from p fs c nonce ss hello payload h)
  server_mac-front true c nonce ss hello payload rest h size = rw (
    slice-append_front 0 32 payload rest (omega arith),
    slice-append_front 32 8 payload rest (omega arith),
    slice-append_front 40 1184 payload rest (omega arith),
  )
  server_mac-front false c nonce ss hello payload rest h size = rw (
    slice-append_front 0 32 payload rest (omega arith),
    slice-append_front 32 8 payload rest (omega arith),
  )

  mac-front :
      (fs : Bool) (payload rest : List ℕ)
      → length payload ≡ (if fs then server_hello_len_fs else server_hello_len)
      → slice (mac_offset p fs) mac_len (payload ++ rest) ≡ slice (mac_offset p fs) mac_len payload
  mac-front true payload rest size = slice-append_front 1224 32 payload rest (omega arith)
  mac-front false payload rest size = slice-append_front 40 32 payload rest (omega arith)

  module _ (st : IsStream p.sockets) (lv : IsLive p.sockets st) (c : Config) (sock : ℤ) (suite : ℕ)
      (w : World Net Host) where
    -- What a server that follows the specification answers: a ServerHello with the specification's
    -- MAC over this transcript.
    pub record Answered (payload rest : List ℕ) : Type 0 where
      pub offer : Offered p st lv c sock suite w payload rest
      pub mac :
          slice (mac_offset p (is_fs p c suite w)) mac_len payload
          ≡ Spec.server_mac p.mbedtls (
              transcript_from p
                (is_fs p c suite w)
                c
                (drawn p c suite w).0
                (pinned p c suite w).2
                (Spec.client_hello p.mbedtls c suite (drawn p c suite w).0 (pinned p c suite w).1)
                payload
                (before_hello p c suite w).host)

    module _ (conf : IsConfig c) (sz : HasSizes p.mbedtls) (rnd : HasRandom p.board)
        (ke : HasEnc p.mlkem) (sized : IsWorld w) where
      module _ (payload rest : List ℕ) (ans : Answered payload rest) where
        abbrev got : World Net Host
        got = heard p st lv c sock suite w conf sz rnd ke sized payload rest ans.offer

        heard_mac :
            slice (mac_offset p (is_fs p c suite w)) mac_len got.frame
            ≡ Spec.server_mac p.mbedtls (
                transcript_of p
                  (is_fs p c suite w)
                  c
                  (drawn p c suite w).0
                  (pinned p c suite w).2
                  got)
        heard_mac =
            mac-front (is_fs p c suite w) payload _ ans.offer.size
            ∙ (ans.mac
                ∙ (sym (
                      server_mac-front (is_fs p c suite w) c _ _
                        (Spec.client_hello p.mbedtls c suite (drawn p c suite w).0
                          (pinned p c suite w).1)
                        payload _ got.host ans.offer.size)
                    ∙ ap
                        (λ h. Spec.server_mac p.mbedtls (
                          transcript_from p (is_fs p c suite w) c (drawn p c suite w).0
                            (pinned p c suite w).2 h got.frame got.host))
                        (sym
                          (said-HelloSent p st lv c sock suite w conf sz rnd ke sized).in_buffer)))

        -- With configuration, buffers and library outputs of their declared sizes, on a live connection
        -- to a server that answers by the specification, `handshake` returns true, if the encapsulation to the pinned key succeeds, and in mode B also that to the
        -- ephemeral key received.
        pub handshake-true :
            is_zero (pinned p c suite w).0 ≡ true
            → (is_fs p c suite w ≡ true
                → is_zero
                    (ephemeral p
                      (slice (nonce_len + session_id_len) public_key_bytes payload)
                      (before_hello p c suite w).host).0
                  ≡ true)
            → (s : Session) × (w' : World Net Host) × (handshake p c sock suite w ≡ (some s, w'))
        unfolding handshake encapsulate
        handshake-true ok ok_eph =
            let (s, w', done) =
              authenticate-true p st lv c conf sz sock (drawn p c suite w).0 (pinned p c suite w).2
                (rnd.length-fill_random 32 w.host)
                (ke.length-ss (random_source p) c.server_public_key
                  (p.board.get_time (drawn p c suite w).1).1)
                (encapsulate_time p c.server_public_key (drawn p c suite w).1) got
                (heard-IsWorld p st lv c sock suite w conf sz rnd ke sized payload rest ans.offer)
                (is_fs p c suite w) ke heard_mac eph in
            (
              s,
              w',
              >>=-step (guard (is_zero (pinned p c suite w).0)) (λ _. say >> (listen >> check))
                    (rw ok)
                  ∙ (>>=-step say (λ _. listen >> check)
                        (said_eq p st lv c sock suite w conf sz rnd ke sized)
                      ∙ (>>=-step listen (λ _. check)
                            (heard_eq p st lv c sock suite w conf sz rnd ke sized payload rest
                              ans.offer)
                          ∙ done)),
            )
          where
            say : Run Net Host (Unit {0})
            say = send_hello p c sock suite (drawn p c suite w).0 (pinned p c suite w).1

            listen : Run Net Host (Unit {0})
            listen = receive_hello p sock (u16 (expected_of p c suite w))

            check : Run Net Host Session
            check =
                authenticate p c sock (is_fs p c suite w) (drawn p c suite w).0
                  (pinned p c suite w).2
                  (encapsulate_time p c.server_public_key (drawn p c suite w).1)

            long : is_fs p c suite w ≡ true → length payload ≡ server_hello_len_fs
            long q =
                ans.offer.size ∙ ap (λ b. if b then server_hello_len_fs else server_hello_len) q

            eph :
                is_fs p c suite w ≡ true
                → is_zero
                    (ephemeral p
                      (slice (nonce_len + session_id_len) public_key_bytes got.frame)
                      got.host).0
                  ≡ true
            eph q =
                ap (λ l. is_zero (ephemeral p l got.host).0)
                  (slice-append_front 40 1184 payload (drop (length payload) w.frame)
                    (omega (arith, long q)))
                ∙ ok_eph q
