-- ===== src/Session/Handshake/Whole.antt =====
-- The whole of `handshake`: what a success means.
use pqc_esp32s3_benchmarks.Prelude.{
  ℕ, ◌≡◌, refl, ◌∙◌, ap, sym, Bool, true, false, List, ◌++◌, length, take, ℤ, if◌then◌else◌, ◌==◌,
  some, is_zero, append_assoc,
}
use pqc_esp32s3_benchmarks.Platform.{IsStream, Platform, HasSizes, HasRandom, HasEnc}
use pqc_esp32s3_benchmarks.Session.Layout.{
  Config, IsConfig, Session, World, IsWorld, Run, ◌>>◌, guard, server_hello_len_fs,
  server_hello_len, nonce_len, suite_mlkem768_fs, u16, frame_client_finished, frame_client_hello,
  frame_server_hello,
}
use pqc_esp32s3_benchmarks.Session.Spec
use pqc_esp32s3_benchmarks.Session.Spec.{Transcript}
use pqc_esp32s3_benchmarks.Session.Frames.Wire.{encode_frame}
use pqc_esp32s3_benchmarks.Session.Handshake.{
  encapsulate, authenticate, random_source, handshake, send_hello, receive_hello,
}
use pqc_esp32s3_benchmarks.Session.Handshake.Steps.{
  >>=-some, guard-some, send_hello-HelloSent, receive_hello-HelloReceived,
}
use pqc_esp32s3_benchmarks.Session.Handshake.Transcript.{
  transcript_of, ephemeral, encapsulated, encapsulate_time,
}
use pqc_esp32s3_benchmarks.Session.Handshake.Established.{Established}
use pqc_esp32s3_benchmarks.Session.Handshake.Sound.{authenticate-Established}

module _ {Net Host : Type 0} (p : Platform Net Host) (c : Config) (suite : ℕ)
    (w : World Net Host) where
  -- Mode B, by the suite.
  abbrev pub is_fs : Bool
  is_fs = suite == suite_mlkem768_fs

  -- The nonce that the board draws, and the board behind it.
  abbrev pub drawn : List ℕ × Host
  drawn = p.board.fill_random nonce_len w.host

  -- The encapsulation to the pinned key.
  abbrev pub pinned : ℤ × List ℕ × List ℕ × Host
  pinned = ephemeral p c.server_public_key drawn.1

  -- Where the first message goes out.
  abbrev pub before_hello : World Net Host
  before_hello = record w { host = encapsulated p c.server_public_key drawn.1 }

  abbrev pub hello_of : List ℕ
  hello_of = Spec.client_hello p.mbedtls c suite drawn.0 pinned.1

  abbrev pub expected_of : ℕ
  expected_of = if is_fs then server_hello_len_fs else server_hello_len

  -- A handshake that ended in `w'` with session `s`: `v` is the world with the ServerHello in it.
  pub record Completed (st : IsStream p.sockets) (sock : ℤ) (s : Session) (w' : World Net Host)
      : Type 0 where
    pub v : World Net Host
    pub waiting : Net
    pub sized : IsWorld v
    pub encapsulated_ok : is_zero pinned.0 ≡ true
    pub hello : v.hello ≡ hello_of
    pub host : v.host ≡ encapsulated p c.server_public_key drawn.1
    pub asked :
        st.sent sock waiting ≡ st.sent sock w.net ++ encode_frame frame_client_hello hello_of
    pub answered :
        st.pending sock waiting
        ≡ encode_frame frame_server_hello (take expected_of v.frame) ++ st.pending sock v.net
    pub established : Established p st sock (transcript_of p is_fs c drawn.0 pinned.2 v) s v w'
    pub wire :
        st.sent sock w'.net
        ≡ st.sent sock w.net
          ++ (encode_frame frame_client_hello hello_of
              ++ encode_frame frame_client_finished
                  (Spec.client_finished p.mbedtls (transcript_of p is_fs c drawn.0 pinned.2 v)))

  pub u16_expected :
      (b : Bool)
      → u16 (if b then server_hello_len_fs else server_hello_len)
        ≡ (if b then server_hello_len_fs else server_hello_len)
  u16_expected true = refl
  u16_expected false = refl

  -- With configuration and buffers of their declared sizes, and a random source, mbedtls functions and
  -- an encapsulation that write theirs: if `handshake` returns true on a byte stream, then the encapsulation to the pinned key succeeded; the client sent
  -- the specification's ClientHello with it; the next frame on the stream was a ServerHello of the
  -- mode's length whose MAC is the specification's server MAC over this transcript; the client
  -- answered with the specification's last message; and nothing else was sent. The session carries
  -- the specification's client-to-server key and the server's session id, starts at record 0, and
  -- counts 1279 bytes in mode A and 3551 in mode B.
  pub handshake-Completed :
      (st : IsStream p.sockets) (sock : ℤ) {s : Session} {w' : World Net Host}
      → IsConfig c
      → HasSizes p.mbedtls
      → HasRandom p.board
      → HasEnc p.mlkem
      → IsWorld w
      → handshake p c sock suite w ≡ (some s, w')
      → Completed st sock s w'
  unfolding handshake encapsulate
  handshake-Completed st sock {s} {w'} conf sz rnd ke sized e =
      let (_, w1, g, e1) =
        >>=-some (guard (is_zero pinned.0)) (λ _. say >> (listen >> check)) {w = before_hello} e in
      let (ok, same) = guard-some (is_zero pinned.0) g in
      let (_, w2, said, e2) = >>=-some say (λ _. listen >> check) {w = w1} e1 in
      let hs =
        send_hello-HelloSent p st c conf sz sock suite nonce ct nonce_size ct_size before_hello
          sized.hello_size (ap say same ∙ said) in
      let (_, v, heard, e3) = >>=-some listen (λ _. check) {w = w2} e2 in
      let hr =
        receive_hello-HelloReceived p st sock expected_of w2 (rw hs.frame sized.frame_bytes)
          (rw hs.frame sized.frame_size)
          (ap (λ n. receive_hello p sock n w2) (sym (u16_expected is_fs)) ∙ heard) in
      let v_sized : IsWorld v = record {
        hello_size = ap length (hr.hello ∙ hs.in_buffer) ∙ hs.size;
        frame_bytes = hr.bytes;
        frame_size = hr.size;
        out_size = ap length (hr.out ∙ hs.out) ∙ sized.out_size;
      } in
      let est =
        authenticate-Established p st c conf sz sock nonce pinned.2 nonce_size ss_size us v v_sized
          is_fs ke e3 in
      record {
        v = v;
        waiting = w2.net;
        sized = v_sized;
        encapsulated_ok = ok;
        hello = hr.hello ∙ hs.in_buffer;
        host = hr.host ∙ hs.host;
        asked = hs.wire;
        answered = hr.stream;
        established = est;
        wire =
            est.wire
            ∙ (ap
                  (λ l.
                    l
                    ++ encode_frame frame_client_finished
                        (Spec.client_finished p.mbedtls (transcript_of p is_fs c nonce pinned.2 v)))
                  (hr.wire ∙ hs.wire)
                ∙ append_assoc (st.sent sock w.net) _ _);
      }
    where
      nonce : List ℕ
      nonce = drawn.0

      ct : List ℕ
      ct = pinned.1

      us : ℤ
      us = encapsulate_time p c.server_public_key drawn.1

      say : Run Net Host (Unit {0})
      say = send_hello p c sock suite nonce ct

      listen : Run Net Host (Unit {0})
      listen = receive_hello p sock (u16 expected_of)

      check : Run Net Host Session
      check = authenticate p c sock is_fs nonce pinned.2 us

      nonce_size : length nonce ≡ 32
      nonce_size = rnd.length-fill_random 32 w.host

      ct_size : length ct ≡ 1088
      ct_size = ke.length-ct (random_source p) c.server_public_key (p.board.get_time drawn.1).1

      ss_size : length pinned.2 ≡ 32
      ss_size = ke.length-ss (random_source p) c.server_public_key (p.board.get_time drawn.1).1
