-- ===== src/Session/Handshake/Steps.antt =====
-- What each part of `handshake` has done when it returns true.
use pqc_esp32s3_benchmarks.Prelude.{
  ℕ, ◌≤◌, ◌≡◌, refl, ◌∙◌, ap, sym, Bool, true, false, ◌&&◌, List, ◌++◌, arith, length, take, ℤ,
  if◌then◌else◌, ◌==◌, ==_iff, Option, none, some, Bool-cases, inl, inr, IsBytes, blit, length-blit,
  take-append_of_eq, overwrite-append, take-all, IsBytes-blit, IsBytes-append,
}
use pqc_esp32s3_benchmarks.Platform.{IsStream, Platform, HasSizes}
use pqc_esp32s3_benchmarks.Session.Layout.{
  Config, IsConfig, World, Run, ◌>>=◌, guard, client_hello_len, server_hello_len_fs,
  frame_client_hello, frame_server_hello, nonce_len, ciphertext_bytes, frame_client_finished,
  client_key_exchange_len,
}
use pqc_esp32s3_benchmarks.Session.Spec
use pqc_esp32s3_benchmarks.Session.Frames.{write_frame, read_frame, Received}
use pqc_esp32s3_benchmarks.Session.Frames.Wire.{encode_frame, write_frame-sent, read_frame-Accepted}
use pqc_esp32s3_benchmarks.Session.Handshake.{
  fill_hello, send_hello, receive_hello, finish, Agreed, hmac_sha256_2,
}
use pqc_esp32s3_benchmarks.Session.Handshake.Hello.{fill_hello-client_hello}

-- Inversion of a step that succeeded, followed by another.
pub >>=-some :
    {Net Host A B : Type 0} (m : Run Net Host A) (f : A → Run Net Host B) {b : B}
    {w w'' : World Net Host}
    → (m >>= f) w ≡ (some b, w'')
    → (a : A) × (w' : World Net Host) × (m w ≡ (some a, w')) × (f a w' ≡ (some b, w''))
>>=-some {Net} {Host} {A} {B} m f {b} {w} {w''} e = go (m w).0 refl
  where
    go :
        (r : Option A)
        → (m w).0 ≡ r
        → (a : A) × (w' : World Net Host) × (m w ≡ (some a, w')) × (f a w' ≡ (some b, w''))
    go none q = cc (ap (λ r. r.0) (rw (q, ◌>>=◌) at e))
    go (some a) q = (a, (m w).1, (λ i. (q i, (m w).1)), rw (q, ◌>>=◌) at e)

-- The step that succeeded, run.
pub >>=-step :
    {Net Host A B : Type 0} (m : Run Net Host A) (f : A → Run Net Host B) {a : A}
    {w w' : World Net Host}
    → m w ≡ (some a, w')
    → (m >>= f) w ≡ f a w'
>>=-step m f e = ap (λ r. elim r.0 [ none ↦ (none, r.1) | some a ↦ f a r.1 ]) e

pub if-some {ℓ} :
    {A : Type ℓ} (t : Bool) {x y : A} → (if t then some x else none) ≡ some y → (t ≡ true) × (x ≡ y)
if-some true e = (refl, cc)
if-some false e = cc

pub guard-some :
    {Net Host : Type 0} (t : Bool) {w w' : World Net Host} {a : Unit {0}}
    → guard t w ≡ (some a, w')
    → (t ≡ true) × (w ≡ w')
guard-some t e = ((if-some t (ap (λ r. r.0) e)).0, ap (λ r. r.1) e)

module _ {Net Host : Type 0} (p : Platform Net Host) (st : IsStream p.sockets) where
  open st use {sent, pending}

  -- The message that `send_hello` leaves in `s_hello` and puts on the wire.
  pub record HelloSent (sock : ℤ) (hello : List ℕ) (w w' : World Net Host) : Type 0 where
    pub in_buffer : w'.hello ≡ hello
    pub size : length hello ≡ client_hello_len
    pub wire : sent sock w'.net ≡ sent sock w.net ++ encode_frame frame_client_hello hello
    pub host : w'.host ≡ w.host
    pub frame : w'.frame ≡ w.frame
    pub out : w'.out ≡ w.out

  module _ (c : Config) (conf : IsConfig c) (sz : HasSizes p.mbedtls) (sock : ℤ) (suite : ℕ)
      (nonce ct : List ℕ) (nonce_size : length nonce ≡ nonce_len)
      (ct_size : length ct ≡ ciphertext_bytes) (w : World Net Host)
      (hello_size : length w.hello ≡ client_hello_len) where
    abbrev pub hello_sent : World Net Host
    hello_sent = record w {
      hello = (fill_hello p.mbedtls c suite nonce ct w.hello).buf;
      net =
          (write_frame p.sockets sock frame_client_hello
            (fill_hello p.mbedtls c suite nonce ct w.hello).buf client_hello_len w.net).1;
    }

    -- The check of the index never fails: only the transfer decides.
    pub send_hello-eq : send_hello p c sock suite nonce ct w ≡ (
        let (ok, net') =
          write_frame p.sockets sock frame_client_hello
            (fill_hello p.mbedtls c suite nonce ct w.hello).buf
            client_hello_len
            w.net in
        (if ok then some tt else none, hello_sent))
    unfolding send_hello
    send_hello-eq =
        let (_, at_end, _) =
          fill_hello-client_hello p.mbedtls c conf suite nonce ct w.hello nonce_size ct_size
            hello_size sz in
        let checked : ((fill_hello p.mbedtls c suite nonce ct w.hello).at == client_hello_len)
            ≡ true =
          (==_iff _ _).1 at_end in
        elim (Bool-cases
          (write_frame p.sockets sock frame_client_hello
            (fill_hello p.mbedtls c suite nonce ct w.hello).buf client_hello_len w.net).0) [
              | inl e ↦ rw checked (rw e)
              | inr e ↦ rw checked (rw e)
            ]

    -- `send_hello` returns true only with the specification's ClientHello in `s_hello` and its frame
    -- on the wire, and with the board and the other buffers as they were.
    pub send_hello-HelloSent :
        {a : Unit {0}} {w' : World Net Host}
        → send_hello p c sock suite nonce ct w ≡ (some a, w')
        → HelloSent sock (Spec.client_hello p.mbedtls c suite nonce ct) w w'
    send_hello-HelloSent {a} {w'} e =
        let (text, _, size) =
          fill_hello-client_hello p.mbedtls c conf suite nonce ct w.hello nonce_size ct_size
            hello_size sz in
        let q = sym send_hello-eq ∙ e in
        let sent_all = (if-some _ (ap (λ r. r.0) q)).0 in
        let wire =
          write_frame-sent p.sockets st sock frame_client_hello
            (fill_hello p.mbedtls c suite nonce ct w.hello).buf client_hello_len w.net (omega arith)
            (omega (arith, size)) sent_all in
        rw (← ap (λ r. r.1) q) (record {
          in_buffer = text;
          size = ap length (sym text) ∙ size;
          wire =
              wire
              ∙ ap (λ l. sent sock w.net ++ encode_frame frame_client_hello l)
                  (take-all client_hello_len _ (omega (arith, size)) ∙ text);
          host = refl;
          frame = refl;
          out = refl;
        })

  -- A ServerHello of `expected_len` bytes taken off the stream and put at the front of `s_frame`.
  pub record HelloReceived (sock : ℤ) (expected_len : ℕ) (w w' : World Net Host) : Type 0 where
    pub stream :
        pending sock w.net
        ≡ encode_frame frame_server_hello (take expected_len w'.frame) ++ pending sock w'.net
    pub wire : sent sock w'.net ≡ sent sock w.net
    pub hello : w'.hello ≡ w.hello
    pub host : w'.host ≡ w.host
    pub out : w'.out ≡ w.out
    pub size : length w'.frame ≡ server_hello_len_fs
    pub bytes : IsBytes w'.frame

  -- `receive_hello` returns true only if the next frame of the stream is a ServerHello of the length
  -- that the mode expects, and then `s_frame` begins with its payload.
  pub receive_hello-HelloReceived :
      (sock : ℤ) (expected_len : ℕ) (w : World Net Host) {a : Unit {0}} {w' : World Net Host}
      → IsBytes w.frame
      → length w.frame ≡ server_hello_len_fs
      → receive_hello p sock expected_len w ≡ (some a, w')
      → HelloReceived sock expected_len w w'
  unfolding receive_hello
  receive_hello-HelloReceived sock expected_len w {a} {w'} frame_bytes size e =
      let (ok, type_ok, len_ok) = three_tests r.ok _ _ (if-some _ (ap (λ x. x.0) e)).0 in
      let type : r.type ≡ frame_server_hello = (==_iff _ _).0 type_ok in
      let len : r.len ≡ expected_len = (==_iff _ _).0 len_ok in
      let acc =
        read_frame-Accepted p.sockets st sock server_hello_len_fs w.net
          (st.pending-IsBytes sock w.net) ok in
      let payload =
        (IsBytes-append r.bytes (pending sock r.after)
          (rw acc.stream at (st.pending-IsBytes sock w.net)).1.1.1).0 in
      let stored : take expected_len (blit w.frame 0 r.bytes) ≡ r.bytes =
        ap (take expected_len)
          (overwrite-append r.bytes w.frame (omega (arith, acc.size, acc.fits)))
        ∙ take-append_of_eq expected_len r.bytes _ (acc.size ∙ len) in
      rw (← ap (λ x. x.1) e) (record {
        stream =
            acc.stream
            ∙ ap (λ l. l ++ pending sock r.after)
                (ap (λ t. encode_frame t r.bytes) type
                  ∙ ap (encode_frame frame_server_hello) (sym stored));
        wire = acc.quiet;
        hello = refl;
        host = refl;
        out = refl;
        size = length-blit w.frame 0 r.bytes (omega (arith, size, acc.size, acc.fits)) ∙ size;
        bytes = IsBytes-blit w.frame 0 r.bytes frame_bytes payload;
      })
    where
      r : Received Net
      r = read_frame p.sockets sock server_hello_len_fs w.net

      three_tests : (a b c : Bool) → (a && b && c) ≡ true → (a ≡ true) × (b ≡ true) × (c ≡ true)
      three_tests a b c h = ground arith

  -- The confirmation at its place in `s_out`, and the last message on the wire.
  pub record FinishSent (sock : ℤ) (at len : ℕ) (mac : List ℕ) (w w' : World Net Host)
      : Type 0 where
    pub in_buffer : w'.out ≡ blit w.out at mac
    pub wire :
        sent sock w'.net ≡ sent sock w.net ++ encode_frame frame_client_finished (take len w'.out)
    pub hello : w'.hello ≡ w.hello
    pub host : w'.host ≡ w.host
    pub frame : w'.frame ≡ w.frame

  -- `finish` returns true only with the client's MAC in `s_out` and its message on the wire.
  pub finish-FinishSent :
      (sock : ℤ) (fs : Bool) (a : Agreed) (server_mac : List ℕ) (w : World Net Host) {u : Unit {0}}
      {w' : World Net Host}
      → a.finished_len ≤ client_key_exchange_len
      → length w.out ≡ client_key_exchange_len
      → length (hmac_sha256_2 p.mbedtls a.keys.cli_confirm (take 32 a.transcript) server_mac 32)
        ≡ 32
      → finish p sock fs a server_mac w ≡ (some u, w')
      → FinishSent sock
          (if fs then ciphertext_bytes else 0)
          a.finished_len
          (hmac_sha256_2 p.mbedtls a.keys.cli_confirm (take 32 a.transcript) server_mac 32)
          w
          w'
  unfolding finish
  finish-FinishSent sock fs a server_mac w {u} {w'} small size mac_size e =
      rw (← ap (λ x. x.1) e) (record {
        in_buffer = refl;
        wire =
            write_frame-sent p.sockets st sock frame_client_finished _ a.finished_len w.net
              (omega arith)
              (omega (
                arith,
                length-blit w.out (if fs then ciphertext_bytes else 0)
                    (hmac_sha256_2 p.mbedtls a.keys.cli_confirm (take 32 a.transcript) server_mac
                      32)
                    (omega (arith, size, mac_size, offset fs)),
              ))
              (if-some _ (ap (λ x. x.0) e)).0;
        hello = refl;
        host = refl;
        frame = refl;
      })
    where
      offset : (b : Bool) → (if b then ciphertext_bytes else 0) ≤ 1088
      offset true = omega arith
      offset false = omega arith
