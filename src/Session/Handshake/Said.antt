-- ===== src/Session/Handshake/Said.antt =====
-- What `handshake` may have sent when it ends.
use pqc_esp32s3_benchmarks.Prelude.{ℕ, ◌≡◌, ◌∙◌, ◌++◌, take, ℤ, inl, inr, ◌⊎◌, slice, some}
use pqc_esp32s3_benchmarks.Platform.{IsStream, Platform}
use pqc_esp32s3_benchmarks.Session.Layout.{
  Config, World, mac_len, u16, frame_client_hello, frame_client_finished, frame_server_hello,
}
use pqc_esp32s3_benchmarks.Session.Spec
use pqc_esp32s3_benchmarks.Session.Frames.Wire.{encode_frame}
use pqc_esp32s3_benchmarks.Session.Handshake.{receive_hello, send_hello}
use pqc_esp32s3_benchmarks.Session.Handshake.Transcript.{transcript_of, mac_offset}
use pqc_esp32s3_benchmarks.Session.Handshake.Whole.{
  is_fs, drawn, pinned, before_hello, hello_of, expected_of,
}

module _ {Net Host : Type 0} (p : Platform Net Host) (st : IsStream p.sockets) (c : Config)
    (sock : ℤ) (suite : ℕ) (w : World Net Host) where
  open st use {sent, pending}

  -- All that was sent between `w` and `w'`, where the handshake did not get to its last message: a first
  -- part of the ClientHello.
  pub record Unanswered (w' : World Net Host) : Type 0 where
    pub count : ℕ
    pub wire :
        sent sock w'.net
        ≡ sent sock w.net ++ take count (encode_frame frame_client_hello (hello_of p c suite w))

  -- All that was sent, where it did: `send_hello` returned true and left `waiting`, `receive_hello`
  -- returned true and left `v`, so the next frame on the stream was a ServerHello of the mode's length;
  -- its MAC is the specification's for this transcript; and behind the ClientHello a first part of the
  -- specification's last message was sent, and nothing else.
  pub record Answered (w' : World Net Host) : Type 0 where
    pub waiting : World Net Host
    pub v : World Net Host
    pub said :
        send_hello p c sock suite
          (drawn p c suite w).0
          (pinned p c suite w).1
          (before_hello p c suite w)
        ≡ (some tt, waiting)
    pub heard : receive_hello p sock (u16 (expected_of p c suite w)) waiting ≡ (some tt, v)
    pub hello : v.hello ≡ hello_of p c suite w
    pub answered :
        pending sock waiting.net
        ≡ encode_frame frame_server_hello (take (expected_of p c suite w) v.frame)
          ++ pending sock v.net
    pub server_mac :
        slice (mac_offset p (is_fs p c suite w)) mac_len v.frame
        ≡ Spec.server_mac p.mbedtls
            (transcript_of p (is_fs p c suite w) c (drawn p c suite w).0 (pinned p c suite w).2 v)
    pub count : ℕ
    pub wire :
        sent sock w'.net
        ≡ sent sock w.net
          ++ (encode_frame frame_client_hello (hello_of p c suite w)
              ++ take count (
                  encode_frame frame_client_finished (
                    Spec.client_finished p.mbedtls (
                      transcript_of p
                        (is_fs p c suite w)
                        c
                        (drawn p c suite w).0
                        (pinned p c suite w).2
                        v))))

  abbrev pub Said : World Net Host → Type 0
  Said w' = Unanswered w' ⊎ Answered w'

  -- What was sent is told by the wire alone.
  pub Said-after :
      {w' w'' : World Net Host} → sent sock w''.net ≡ sent sock w'.net → Said w' → Said w''
  Said-after e (inl u) = inl (record { count = u.count; wire = e ∙ u.wire })
  Said-after e (inr a) = inr (record {
    waiting = a.waiting;
    v = a.v;
    said = a.said;
    heard = a.heard;
    hello = a.hello;
    answered = a.answered;
    server_mac = a.server_mac;
    count = a.count;
    wire = e ∙ a.wire;
  })
