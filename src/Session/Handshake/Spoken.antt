-- ===== src/Session/Handshake/Spoken.antt =====
-- What `handshake` sends, on every path.
use pqc_esp32s3_benchmarks.Prelude.{
  ℕ, ◌+◌, ◌≡◌, refl, ◌∙◌, ap, sym, Bool, true, false, List, ◌++◌, length, take, ℤ, if◌then◌else◌,
  Option, none, some, Bool-cases, Option-cases, inl, inr, ◌⊎◌, slice, blit, arith, ◌≤◌, length-take,
  length-blit,
}
use pqc_esp32s3_benchmarks.Platform.{IsStream, Platform, HasSizes, HasEnc}
use pqc_esp32s3_benchmarks.Session.Layout.{
  Config, IsConfig, Session, World, IsWorld, Run, ◌>>=◌, server_hello_len_fs, server_hello_len,
  nonce_len, session_id_len, mac_len, frame_client_finished, ciphertext_bytes,
  client_key_exchange_len,
}
use pqc_esp32s3_benchmarks.Session.Spec
use pqc_esp32s3_benchmarks.Session.Frames.{frame_head}
use pqc_esp32s3_benchmarks.Session.Frames.Partial.{write_frame-part, read_frame-quiet}
use pqc_esp32s3_benchmarks.Session.Handshake.{
  Agreed, new_session, finish, receive_hello, authenticate, hmac_sha256_2,
}
use pqc_esp32s3_benchmarks.Session.Handshake.Transcript.{transcript_of, mac_offset}
use pqc_esp32s3_benchmarks.Session.Handshake.Schedule.{exchange-eq, AgreedOn}
use pqc_esp32s3_benchmarks.Session.Handshake.Established.{finished-text, finished-small}
use pqc_esp32s3_benchmarks.Session.Frames.Wire.{encode_frame, frame_head_lem}
use pqc_esp32s3_benchmarks.Session.Handshake.Sound.{
  server_mac-eq, server_mac_of, test_of, agree, last_part, authenticate-refused,
  authenticate-passed, agree-AgreedOn,
}

-- A step that fails ends the chain, and one that does not goes on.
pub >>=-cases :
    {Net Host A B : Type 0} (m : Run Net Host A) (f : A → Run Net Host B) (w : World Net Host)
    → ((m >>= f) w ≡ (none, (m w).1))
      ⊎ ((a : A) × (m w ≡ (some a, (m w).1)) × ((m >>= f) w ≡ f a (m w).1))
>>=-cases m f w = elim (Option-cases (m w).0) [
  | inl e ↦ inl (rw (◌>>=◌, e) refl)
  | inr (a, e) ↦ inr (a, ap (λ o. (o, (m w).1)) e, rw (◌>>=◌, e) refl)
]

-- A step behind which nothing moves leaves the world as it was.
>>=-world :
    {Net Host A B : Type 0} (m : Run Net Host A) (g : A → Option B) (w : World Net Host)
    → ((m >>= λ a x. (g a, x)) w).1 ≡ (m w).1
>>=-world m g w = elim (>>=-cases m (λ a x. (g a, x)) w) [
  | inl e ↦ ap (λ r. r.1) e
  | inr (a, _, e) ↦ ap (λ r. r.1) e
]

module _ {Net Host : Type 0} (p : Platform Net Host) (st : IsStream p.sockets) (sock : ℤ) where
  open st use {sent}

  pub receive_hello-quiet :
      (expected : ℕ) (w : World Net Host)
      → sent sock (receive_hello p sock expected w).1.net ≡ sent sock w.net
  unfolding receive_hello
  receive_hello-quiet expected w = read_frame-quiet p.sockets st sock server_hello_len_fs w.net

  -- Nothing is sent; or the server's MAC is the specification's, and what is sent is a first part of the
  -- specification's last message.
  abbrev pub Spoken : Config → Bool → List ℕ → List ℕ → World Net Host → World Net Host → Type 0
  Spoken c fs nonce ss v w' =
      (sent sock w'.net ≡ sent sock v.net)
      ⊎ ((slice (mac_offset p fs) mac_len v.frame
            ≡ Spec.server_mac p.mbedtls (transcript_of p fs c nonce ss v))
          × (n : ℕ) × (sent sock w'.net
              ≡ sent sock v.net
                ++ take n (
                    encode_frame frame_client_finished
                      (Spec.client_finished p.mbedtls (transcript_of p fs c nonce ss v)))))

  module _ (c : Config) (conf : IsConfig c) (sz : HasSizes p.mbedtls) (nonce ss : List ℕ)
      (nonce_size : length nonce ≡ 32) (ss_size : length ss ≡ 32) (us : ℤ) (v : World Net Host)
      (sized : IsWorld v) (ke : HasEnc p.mlkem) where
    finish-part :
        (fs : Bool) (a : Agreed) (x : World Net Host)
        → AgreedOn p (transcript_of p fs c nonce ss v) v a x
        → slice (mac_offset p fs) mac_len v.frame
          ≡ Spec.server_mac p.mbedtls (transcript_of p fs c nonce ss v)
        → (n : ℕ) × (sent sock
              (finish p sock fs a
                (server_mac_of p st c conf sz sock nonce ss nonce_size ss_size us v sized fs)
                x).1.net
            ≡ sent sock x.net
              ++ take n (
                  encode_frame frame_client_finished
                    (Spec.client_finished p.mbedtls (transcript_of p fs c nonce ss v))))
    unfolding finish
    finish-part fs a x ag mac =
        let (n, e) =
          write_frame-part p.sockets st sock frame_client_finished buf a.finished_len x.net in
        (n, e ∙ ap (λ l. sent sock x.net ++ take n l) whole)
      where
        buf : List ℕ
        buf = blit x.out (if fs then ciphertext_bytes else 0) (
            hmac_sha256_2 p.mbedtls a.keys.cli_confirm (take 32 a.transcript)
              (slice (mac_offset p fs) mac_len v.frame) 32)

        text :
            take a.finished_len buf
            ≡ Spec.client_finished p.mbedtls (transcript_of p fs c nonce ss v)
        text =
            finished-text p st c conf sz sock nonce ss nonce_size ss_size us v sized fs a x ag mac

        small : a.finished_len ≤ client_key_exchange_len
        small =
            finished-small p st c conf sz sock nonce ss nonce_size ss_size us v sized fs a x ag mac

        mac_size :
            length (
              hmac_sha256_2 p.mbedtls a.keys.cli_confirm
                (take 32 a.transcript)
                (slice (mac_offset p fs) mac_len v.frame)
                32)
            ≡ 32
        mac_size = sz.length-hmac a.keys.cli_confirm _

        room :
            (b : Bool)
            → (if b then ciphertext_bytes else 0)
                + length (
                    hmac_sha256_2 p.mbedtls a.keys.cli_confirm
                      (take 32 a.transcript)
                      (slice (mac_offset p fs) mac_len v.frame)
                      32)
              ≤ length x.out
        room true = omega (arith, mac_size, ag.size)
        room false = omega (arith, mac_size, ag.size)

        size : length (take a.finished_len buf) ≡ a.finished_len
        size = omega (
          arith,
          length-take a.finished_len buf,
          length-blit x.out (if fs then ciphertext_bytes else 0)
              (hmac_sha256_2 p.mbedtls a.keys.cli_confirm (take 32 a.transcript)
                (slice (mac_offset p fs) mac_len v.frame) 32)
              (room fs),
          ag.size,
          small,
        )

        whole :
            frame_head frame_client_finished a.finished_len ++ take a.finished_len buf
            ≡ encode_frame frame_client_finished
                (Spec.client_finished p.mbedtls (transcript_of p fs c nonce ss v))
        whole =
            ap (λ k. frame_head frame_client_finished k ++ take a.finished_len buf) (sym size)
            ∙ (frame_head_lem frame_client_finished (take a.finished_len buf)
                  (omega (arith, size, small))
                ∙ ap (encode_frame frame_client_finished) text)

    agree-quiet :
        (fs : Bool)
        → (agree p st c conf sz sock nonce ss nonce_size ss_size us v sized fs v).1.net ≡ v.net
    agree-quiet true =
        ap (λ r. r.1.net) (exchange-eq p c conf sz nonce ss nonce_size ss_size v sized ke)
    agree-quiet false = refl

    last_part-wire :
        (fs : Bool) (a : Agreed) (w : World Net Host)
        → sent sock
            (last_part p st c conf sz sock nonce ss nonce_size ss_size us v sized fs a w).1.net
          ≡ sent sock
              (finish p sock fs a
                (server_mac_of p st c conf sz sock nonce ss nonce_size ss_size us v sized fs)
                w).1.net
    last_part-wire fs a w =
        ap (λ x. sent sock x.net)
          (>>=-world
            (finish p sock fs a
              (server_mac_of p st c conf sz sock nonce ss nonce_size ss_size us v sized fs))
            (λ _. some (
              new_session p fs (if fs then server_hello_len_fs else server_hello_len)
                (slice nonce_len session_id_len v.frame) us a))
            w)

    -- From the ServerHello in `s_frame` on, `handshake` sends at most one message, the specification's,
    -- and none unless the server's MAC is the specification's.
    pub authenticate-Spoken :
        (fs : Bool) → Spoken c fs nonce ss v (authenticate p c sock fs nonce ss us v).1
    authenticate-Spoken fs =
        elim (Bool-cases (test_of p st c conf sz sock nonce ss nonce_size ss_size us v sized fs)) [
          | inr e ↦ inl (
              ap (λ r. sent sock r.1.net)
                (authenticate-refused p st c conf sz sock nonce ss nonce_size ss_size us v sized fs
                  e))
          | inl e ↦
              let passed =
                authenticate-passed p st c conf sz sock nonce ss nonce_size ss_size us v sized fs
                  e in
              elim (>>=-cases agreeing ending v) [
                | inl stop ↦
                    inl (
                      ap (λ r. sent sock r.1.net) (passed ∙ stop) ∙ ap (sent sock) (agree-quiet fs))
                | inr (a, made, go) ↦
                    let mac =
                      server_mac-eq p st c conf sz sock nonce ss nonce_size ss_size us v sized fs
                        e in
                    let (n, out) =
                      finish-part fs a (agreeing v).1
                        (agree-AgreedOn p st c conf sz sock nonce ss nonce_size ss_size us v sized
                          fs ke made)
                        mac in
                    inr (
                      mac,
                      n,
                      ap (λ r. sent sock r.1.net) (passed ∙ go)
                          ∙ (last_part-wire fs a (agreeing v).1
                              ∙ (out
                                  ∙ ap
                                      (λ x.
                                        sent sock x
                                        ++ take n (
                                            encode_frame frame_client_finished (
                                              Spec.client_finished p.mbedtls
                                                (transcript_of p fs c nonce ss v))))
                                      (agree-quiet fs))),
                    )
              ]
        ]
      where
        agreeing : Run Net Host Agreed
        agreeing = agree p st c conf sz sock nonce ss nonce_size ss_size us v sized fs

        ending : Agreed → Run Net Host Session
        ending = last_part p st c conf sz sock nonce ss nonce_size ss_size us v sized fs
