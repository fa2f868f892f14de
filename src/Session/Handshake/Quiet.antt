-- ===== src/Session/Handshake/Quiet.antt =====
-- The whole of `handshake`: what it sends on every path.
use pqc_esp32s3_benchmarks.Prelude.{
  ℕ, ◌≡◌, refl, ◌∙◌, ap, sym, List, ◌++◌, arith, length, take, ℤ, subst, is_zero, inl, inr,
  append-nil, append_assoc, take-all, some,
}
use pqc_esp32s3_benchmarks.Platform.{IsStream, Platform, HasSizes, HasRandom, HasEnc}
use pqc_esp32s3_benchmarks.Session.Layout.{
  Config, IsConfig, Session, World, IsWorld, Run, ◌>>◌, guard, client_hello_len, u16,
  frame_client_hello, frame_client_finished,
}
use pqc_esp32s3_benchmarks.Session.Spec
use pqc_esp32s3_benchmarks.Session.Frames.{frame_head}
use pqc_esp32s3_benchmarks.Session.Frames.Wire.{encode_frame, frame_head_lem}
use pqc_esp32s3_benchmarks.Session.Frames.Partial.{write_frame-part}
use pqc_esp32s3_benchmarks.Session.Handshake.{
  fill_hello, receive_hello, send_hello, authenticate, handshake, encapsulate, random_source,
}
use pqc_esp32s3_benchmarks.Session.Handshake.Hello.{fill_hello-client_hello}
use pqc_esp32s3_benchmarks.Session.Handshake.Steps.{
  send_hello-eq, send_hello-HelloSent, receive_hello-HelloReceived, HelloSent, HelloReceived,
}
use pqc_esp32s3_benchmarks.Session.Handshake.Transcript.{transcript_of, encapsulate_time}
use pqc_esp32s3_benchmarks.Session.Handshake.Spoken.{
  >>=-cases, receive_hello-quiet, authenticate-Spoken,
}
use pqc_esp32s3_benchmarks.Session.Handshake.Whole.{
  is_fs, drawn, pinned, before_hello, hello_of, expected_of, u16_expected,
}
use pqc_esp32s3_benchmarks.Session.Handshake.Said.{Said}

module _ {Net Host : Type 0} (p : Platform Net Host) (st : IsStream p.sockets) (c : Config)
    (sock : ℤ) (suite : ℕ) (w : World Net Host) where
  open st use {sent}

  abbrev IsSaid : World Net Host → Type 0
  IsSaid = Said p st c sock suite w

  module _ (conf : IsConfig c) (sz : HasSizes p.mbedtls) (rnd : HasRandom p.board)
      (ke : HasEnc p.mlkem) (sized : IsWorld w) where
    abbrev nonce : List ℕ
    nonce = (drawn p c suite w).0

    abbrev nonce_size : length nonce ≡ 32
    nonce_size = rnd.length-fill_random 32 w.host

    abbrev ct_size : length (pinned p c suite w).1 ≡ 1088
    ct_size =
        ke.length-ct (random_source p) c.server_public_key
          (p.board.get_time (drawn p c suite w).1).1

    abbrev ss_size : length (pinned p c suite w).2 ≡ 32
    ss_size =
        ke.length-ss (random_source p) c.server_public_key
          (p.board.get_time (drawn p c suite w).1).1

    abbrev us : ℤ
    us = encapsulate_time p c.server_public_key (drawn p c suite w).1

    abbrev say : Run Net Host (Unit {0})
    say = send_hello p c sock suite nonce (pinned p c suite w).1

    abbrev listen : Run Net Host (Unit {0})
    listen = receive_hello p sock (u16 (expected_of p c suite w))

    abbrev check : Run Net Host Session
    check = authenticate p c sock (is_fs p c suite w) nonce (pinned p c suite w).2 us

    -- A first part of the ClientHello goes out, and all of it where `send_hello` returns true.
    say-part :
        (n : ℕ) × (sent sock (say (before_hello p c suite w)).1.net
          ≡ sent sock w.net ++ take n (encode_frame frame_client_hello (hello_of p c suite w)))
    say-part =
        let (text, _, size) =
          fill_hello-client_hello p.mbedtls c conf suite nonce (pinned p c suite w).1 w.hello
            nonce_size ct_size sized.hello_size sz in
        let (n, e) =
          write_frame-part p.sockets st sock frame_client_hello
            (fill_hello p.mbedtls c suite nonce (pinned p c suite w).1 w.hello).buf client_hello_len
            w.net in
        (
          n,
          ap (λ r. sent sock r.1.net)
                (send_hello-eq p st c conf sz sock suite nonce (pinned p c suite w).1 nonce_size
                  ct_size (before_hello p c suite w) sized.hello_size)
              ∙ (e
                  ∙ ap (λ l. sent sock w.net ++ take n l)
                      (ap (λ l. frame_head frame_client_hello client_hello_len ++ l)
                          (take-all client_hello_len _ (omega (arith, size)) ∙ text)
                        ∙ (ap (λ k. frame_head frame_client_hello k ++ hello_of p c suite w)
                              (sym (ap length (sym text) ∙ size))
                            ∙ frame_head_lem frame_client_hello (hello_of p c suite w)
                                (omega (arith, ap length text, size))))),
        )

    abbrev start : World Net Host
    start = before_hello p c suite w

    handshake_eq :
        handshake p c sock suite w
        ≡ (guard (is_zero (pinned p c suite w).0) >> (say >> (listen >> check))) start
    unfolding handshake encapsulate
    handshake_eq = refl

    -- Behind a ClientHello that was sent.
    listen-Said : (x : World Net Host) → say start ≡ (some tt, x) → IsSaid ((listen >> check) x).1
    listen-Said x done = elim (>>=-cases listen (λ _. check) x) [
      | inl stop ↦ inl (record {
        count = length frame;
        wire =
            ap (λ r. sent sock r.1.net) stop
            ∙ (receive_hello-quiet p st sock (u16 (expected_of p c suite w)) x ∙ all_of_it);
      })
      | inr (_, heard, go) ↦ answer (listen x).1 heard (ap (λ r. r.1) go)
    ]
      where
        frame : List ℕ
        frame = encode_frame frame_client_hello (hello_of p c suite w)

        hs : HelloSent p st sock (hello_of p c suite w) start x
        hs =
            send_hello-HelloSent p st c conf sz sock suite nonce (pinned p c suite w).1 nonce_size
              ct_size start sized.hello_size done

        all_of_it : sent sock x.net ≡ sent sock w.net ++ take (length frame) frame
        all_of_it =
            hs.wire
            ∙ ap (λ l. sent sock w.net ++ l) (sym (take-all (length frame) frame (omega arith)))

        answer :
            (v : World Net Host) {w' : World Net Host}
            → listen x ≡ (some tt, v)
            → w' ≡ (check v).1
            → IsSaid w'
        answer v {w'} heard go =
            elim (authenticate-Spoken p st sock c conf sz nonce (pinned p c suite w).2 nonce_size
              ss_size us v v_sized ke (is_fs p c suite w)) [
                | inl quiet ↦ inl (record {
                  count = length frame;
                  wire = ap (λ r. sent sock r.net) go ∙ (quiet ∙ (hr.wire ∙ all_of_it));
                })
                | inr (mac, n, out) ↦ inr (record {
                  waiting = x;
                  v = v;
                  said = done;
                  heard = heard;
                  hello = hr.hello ∙ hs.in_buffer;
                  answered = hr.stream;
                  server_mac = mac;
                  count = n;
                  wire =
                      ap (λ r. sent sock r.net) go
                      ∙ (out
                          ∙ (ap
                                (λ l.
                                  l
                                  ++ take n (
                                      encode_frame frame_client_finished (
                                        Spec.client_finished p.mbedtls (
                                          transcript_of p (is_fs p c suite w) c nonce
                                            (pinned p c suite w).2 v))))
                                (hr.wire ∙ hs.wire)
                              ∙ append_assoc (sent sock w.net) frame _));
                })
              ]
          where
            hr : HelloReceived p st sock (expected_of p c suite w) x v
            hr =
                receive_hello-HelloReceived p st sock (expected_of p c suite w) x
                  (rw hs.frame sized.frame_bytes) (rw hs.frame sized.frame_size)
                  (ap (λ n. receive_hello p sock n x)
                      (sym (u16_expected p c suite w (is_fs p c suite w)))
                    ∙ heard)

            v_sized : IsWorld v
            v_sized = record {
              hello_size = ap length (hr.hello ∙ hs.in_buffer) ∙ hs.size;
              frame_bytes = hr.bytes;
              frame_size = hr.size;
              out_size = ap length (hr.out ∙ hs.out) ∙ sized.out_size;
            }

    say-Said : Said p st c sock suite w ((say >> (listen >> check)) start).1
    say-Said = elim (>>=-cases say (λ _. listen >> check) start) [
      | inl stop ↦
          inl (record { count = say-part.0; wire = ap (λ r. sent sock r.1.net) stop ∙ say-part.1 })
      | inr (_, done, go) ↦ subst (λ r. IsSaid r.1) (sym go) (listen-Said (say start).1 done)
    ]

    -- With data of the declared sizes, on a byte stream: whether `handshake` succeeds or fails, and
    -- wherever, it sends a first part of the specification's ClientHello and nothing else; or all of it
    -- and a first part of the specification's last message, and then the next frame on the stream behind
    -- the ClientHello was a ServerHello of the mode's length with the specification's MAC.
    pub handshake-Said : Said p st c sock suite w (handshake p c sock suite w).1
    handshake-Said =
        elim (>>=-cases (guard (is_zero (pinned p c suite w).0)) (λ _. say >> (listen >> check))
          start) [
            | inl stop ↦ inl (record {
              count = 0;
              wire =
                  ap (λ r. sent sock r.1.net) (handshake_eq ∙ stop)
                  ∙ sym (append-nil (sent sock w.net));
            })
            | inr (_, _, go) ↦ subst (λ r. IsSaid r.1) (sym (handshake_eq ∙ go)) say-Said
          ]
