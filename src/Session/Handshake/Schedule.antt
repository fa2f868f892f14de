-- ===== src/Session/Handshake/Schedule.antt =====
-- What the client derives and where it stands in the buffers, against the key schedule of the
-- specification, in both modes.
use pqc_esp32s3_benchmarks.Prelude.{
  ℕ, ◌+◌, ◌≡◌, refl, ◌∙◌, ap, ap₂, sym, Bool, true, false, List, [], ◌++◌, arith, length, take,
  drop, if◌then◌else◌, none, some, blit, slice, is_zero, take-all, take-append_of_eq, blit-append,
  overwrite-append, length-append, length-drop, overwrite, append_assoc, length-blit, Bool-cases,
  inl, inr,
}
use pqc_esp32s3_benchmarks.Platform.{Platform, HasSizes, HasEnc}
use pqc_esp32s3_benchmarks.Session.Layout.{
  Config, IsConfig, Keys, World, IsWorld, client_hello_len, nonce_len, session_id_len, mac_len,
  public_key_bytes, ciphertext_bytes, client_key_exchange_len, label_srv_confirm, label_cli_confirm,
  label_c2s,
}
use pqc_esp32s3_benchmarks.Session.Spec
use pqc_esp32s3_benchmarks.Session.Spec.{Transcript}
use pqc_esp32s3_benchmarks.Session.Handshake.{
  Agreed, transcript_hash, stage1, stage2, exchange, no_exchange, encapsulate, random_source,
}
use pqc_esp32s3_benchmarks.Session.Handshake.Transcript.{
  ephemeral, encapsulated, encapsulate_time, transcript_of,
}

-- A cipher text at the front of `s_out` and a MAC behind it.
two_parts :
    (ct mac out : List ℕ)
    → length ct ≡ 1088
    → length mac ≡ 32
    → length out ≡ 1120
    → take 1120 (blit (blit out 0 ct) 1088 mac) ≡ ct ++ mac
two_parts ct mac out h k l =
    let rest = drop (length ct) out in
    let size : length rest ≡ 32 = omega (arith, length-drop (length ct) out) in
    let first : overwrite out ct ≡ ct ++ rest = overwrite-append ct out (omega arith) in
    let second : blit (ct ++ rest) 1088 mac ≡ (ct ++ mac) ++ drop (length mac) rest =
      ap (λ n. blit (ct ++ rest) n mac) (sym h)
      ∙ (blit-append ct mac rest (omega arith)
          ∙ sym (append_assoc ct mac (drop (length mac) rest))) in
    ap (λ b. take 1120 (blit b 1088 mac)) first
    ∙ (ap (take 1120) second
        ∙ take-append_of_eq 1120 (ct ++ mac) (drop (length mac) rest)
            (omega (arith, length-append ct mac)))

module _ {Net Host : Type 0} (p : Platform Net Host) where
  module _ (c : Config) (conf : IsConfig c) (sz : HasSizes p.mbedtls) (fs : Bool)
      (nonce ss : List ℕ) (nonce_size : length nonce ≡ 32) (ss_size : length ss ≡ 32)
      (w : World Net Host) (sized : IsWorld w) where
    abbrev pub t : Transcript
    t = transcript_of p fs c nonce ss w

    abbrev pub salt : List ℕ
    salt = take nonce_len nonce ++ slice 0 nonce_len w.frame

    abbrev pub th2 : List ℕ
    th2 = transcript_hash p.mbedtls fs w.hello w.frame

    hello_all : take client_hello_len w.hello ≡ w.hello
    hello_all = take-all client_hello_len w.hello (omega (arith, sized.hello_size))

    hash_all : (b : List ℕ) → take 32 (p.mbedtls.sha256 b) ≡ p.mbedtls.sha256 b
    hash_all b = take-all 32 (p.mbedtls.sha256 b) (omega (arith, sz.length-sha256 b))

    psk_all : take 32 c.device_psk ≡ c.device_psk
    psk_all = take-all 32 c.device_psk (omega (arith, conf.device_psk_size))

    ss_all : take 32 ss ≡ ss
    ss_all = take-all 32 ss (omega arith)

    salt_eq : salt ≡ Spec.salt p.mbedtls t
    salt_eq = ap (λ l. l ++ slice 0 nonce_len w.frame) (take-all 32 nonce (omega arith))

    th2_eq : th2 ≡ Spec.th2 p.mbedtls t
    th2_eq =
        ap
          (λ l. p.mbedtls.sha256 (
            l
            ++ (slice 0 nonce_len w.frame
                ++ (slice nonce_len session_id_len w.frame
                    ++ (if fs
                        then slice (nonce_len + session_id_len) public_key_bytes w.frame
                        else [])))))
          hello_all

    th2_all : take 32 th2 ≡ Spec.th2 p.mbedtls t
    th2_all = hash_all _ ∙ th2_eq

    prk1_eq :
        p.mbedtls.hkdf_extract salt (take 32 ss ++ take 32 c.device_psk) ≡ Spec.prk1 p.mbedtls t
    prk1_eq = rw (salt_eq, ss_all, psk_all)

    expand_eq :
        (prk prk' label : List ℕ)
        → prk ≡ prk'
        → p.mbedtls.hkdf_expand prk (label ++ take 32 th2) 32
          ≡ Spec.expand p.mbedtls prk' label (Spec.th2 p.mbedtls t)
    expand_eq prk prk' label e = rw (e, th2_all)

    -- The confirmation that the client computes is the specification's server MAC.
    pub expected_mac-eq :
        p.mbedtls.hmac (stage1 p.mbedtls c fs salt ss th2).srv_confirm (take 32 th2)
        ≡ Spec.server_mac p.mbedtls t
    expected_mac-eq = ap₂ p.mbedtls.hmac (expand_eq _ _ label_srv_confirm prk1_eq) th2_all

  -- What both modes have reached before the last message: the data key, the confirmation key and
  -- hash, and the buffer behind which the confirmation goes.
  pub record AgreedOn (t : Transcript) (w : World Net Host) (a : Agreed) (v : World Net Host)
      : Type 0 where
    pub c2s : a.keys.c2s ≡ Spec.c2s p.mbedtls t
    pub confirm :
        a.keys.cli_confirm
        ≡ Spec.expand p.mbedtls
            (Spec.final_prk p.mbedtls t)
            label_cli_confirm
            (Spec.final_hash p.mbedtls t)
    pub hash : take 32 a.transcript ≡ Spec.final_hash p.mbedtls t
    pub len : a.finished_len ≡ (if t.forward_secrecy then client_key_exchange_len else mac_len)
    pub net : v.net ≡ w.net
    pub size : length v.out ≡ client_key_exchange_len
    pub message :
        (mac : List ℕ)
        → length mac ≡ 32
        → take a.finished_len (blit v.out (if t.forward_secrecy then ciphertext_bytes else 0) mac)
          ≡ (if t.forward_secrecy then t.ct_eph else []) ++ mac

  module _ (c : Config) (conf : IsConfig c) (sz : HasSizes p.mbedtls) (nonce ss : List ℕ)
      (nonce_size : length nonce ≡ 32) (ss_size : length ss ≡ 32) (w : World Net Host)
      (sized : IsWorld w) where
    abbrev pub keys_of : Bool → Keys
    keys_of fs =
        stage1 p.mbedtls c fs (take nonce_len nonce ++ slice 0 nonce_len w.frame) ss
          (transcript_hash p.mbedtls fs w.hello w.frame)

    pub mode_a-AgreedOn :
        AgreedOn
          (transcript_of p false c nonce ss w)
          w
          (no_exchange p (keys_of false) (transcript_hash p.mbedtls false w.hello w.frame))
          w
    mode_a-AgreedOn = record {
      c2s = expand_eq c conf sz false nonce ss nonce_size ss_size w sized _ _ label_c2s prk;
      confirm =
          expand_eq c conf sz false nonce ss nonce_size ss_size w sized _ _ label_cli_confirm prk;
      hash = th2_all c conf sz false nonce ss nonce_size ss_size w sized;
      len = refl;
      net = refl;
      size = sized.out_size;
      message = λ mac h.
          ap (take 32) (overwrite-append mac w.out (omega (arith, sized.out_size)))
          ∙ take-append_of_eq 32 mac _ h;
    }
      where
        prk :
            p.mbedtls.hkdf_extract
              (take nonce_len nonce ++ slice 0 nonce_len w.frame)
              (take 32 ss ++ take 32 c.device_psk)
            ≡ Spec.prk1 p.mbedtls (transcript_of p false c nonce ss w)
        prk = prk1_eq c conf sz false nonce ss nonce_size ss_size w sized

    module _ (ke : HasEnc p.mlkem) where
      abbrev pub ek : List ℕ
      ek = slice (nonce_len + session_id_len) public_key_bytes w.frame

      abbrev pub mode_b_salt : List ℕ
      mode_b_salt = take nonce_len nonce ++ slice 0 nonce_len w.frame

      abbrev pub mode_b_th2 : List ℕ
      mode_b_th2 = transcript_hash p.mbedtls true w.hello w.frame

      abbrev pub mode_b_hash : List ℕ
      mode_b_hash =
          p.mbedtls.sha256 (take 32 mode_b_th2 ++ take ciphertext_bytes (ephemeral p ek w.host).1)

      abbrev pub mode_b_agreed : Agreed
      mode_b_agreed = record {
        keys =
            stage2 p.mbedtls c (keys_of true) mode_b_salt ss (ephemeral p ek w.host).2 mode_b_hash;
        transcript = mode_b_hash;
        finished_len = client_key_exchange_len;
        eph_encap_us = (encapsulate_time p ek w.host);
      }

      abbrev pub mode_b_world : World Net Host
      mode_b_world = record w {
        host = encapsulated p ek w.host;
        out = blit w.out 0 (take ciphertext_bytes (ephemeral p ek w.host).1);
      }

      pub exchange-eq :
          exchange p c (keys_of true) mode_b_salt ss mode_b_th2 ek w
          ≡ (if is_zero (ephemeral p ek w.host).0 then some mode_b_agreed else none, mode_b_world)
      unfolding exchange encapsulate
      exchange-eq = elim (Bool-cases (is_zero (ephemeral p ek w.host).0)) [
        | inl e ↦ rw e
        | inr e ↦ rw e
      ]

      pub mode_b-AgreedOn :
          AgreedOn (transcript_of p true c nonce ss w) w mode_b_agreed mode_b_world
      mode_b-AgreedOn = record {
        c2s = ap₂ (λ a b. p.mbedtls.hkdf_expand a (label_c2s ++ b) 32) prk2 hash32;
        confirm = ap₂ (λ a b. p.mbedtls.hkdf_expand a (label_cli_confirm ++ b) 32) prk2 hash32;
        hash = hash32;
        len = refl;
        net = refl;
        size =
            length-blit w.out 0 ct (
              omega (
                arith,
                sized.out_size,
                ap length ct_all,
                ke.length-ct (random_source p) ek (p.board.get_time w.host).1,
              ))
            ∙ sized.out_size;
        message = λ mac h. message mac h;
      }
        where
          ct : List ℕ
          ct = take ciphertext_bytes (ephemeral p ek w.host).1

          ct_all : ct ≡ (ephemeral p ek w.host).1
          ct_all =
              take-all 1088 (ephemeral p ek w.host).1
                (omega (arith, ke.length-ct (random_source p) ek (p.board.get_time w.host).1))

          hash32 :
              take 32 mode_b_hash ≡ Spec.final_hash p.mbedtls (transcript_of p true c nonce ss w)
          hash32 =
              hash_all c conf sz true nonce ss nonce_size ss_size w sized _
              ∙ ap₂ (λ a b. p.mbedtls.sha256 (a ++ b))
                  (th2_all c conf sz true nonce ss nonce_size ss_size w sized) ct_all

          prk2 :
              p.mbedtls.hkdf_extract mode_b_salt
                (take 32 ss ++ (take 32 (ephemeral p ek w.host).2 ++ take 32 c.device_psk))
              ≡ Spec.final_prk p.mbedtls (transcript_of p true c nonce ss w)
          prk2 =
              rw
                (
                  salt_eq c conf sz true nonce ss nonce_size ss_size w sized,
                  ss_all c conf sz true nonce ss nonce_size ss_size w sized,
                  psk_all c conf sz true nonce ss nonce_size ss_size w sized,
                )
                (ap
                  (λ l.
                    p.mbedtls.hkdf_extract (Spec.salt p.mbedtls (transcript_of p true c nonce ss w))
                      (ss ++ (l ++ c.device_psk)))
                  (take-all 32 (ephemeral p ek w.host).2
                    (omega (arith, ke.length-ss (random_source p) ek (p.board.get_time w.host).1))))

          message :
              (mac : List ℕ)
              → length mac ≡ 32
              → take 1120 (blit (blit w.out 0 ct) 1088 mac) ≡ (ephemeral p ek w.host).1 ++ mac
          message mac h = rw ct_all (
              two_parts (ephemeral p ek w.host).1 mac w.out
                (ke.length-ct (random_source p) ek (p.board.get_time w.host).1) h sized.out_size)
