-- ===== src/Session/Handshake/Sound.antt =====
-- What a handshake that succeeded has established, against the specification's messages and keys.
use pqc_esp32s3_benchmarks.Prelude.{
  ℕ, ◌+◌, ◌≤◌, ◌≡◌, ◌∙◌, ap, sym, Bool, true, false, List, ◌++◌, arith, length, take, drop, ℤ,
  if◌then◌else◌, none, some, slice, IsBytes-take, IsBytes-drop, length-take, length-drop, subst₂,
}
use pqc_esp32s3_benchmarks.Platform.{IsStream, Platform, HasSizes, HasEnc}
use pqc_esp32s3_benchmarks.Session.Layout.{
  Config, IsConfig, Session, World, IsWorld, Run, ◌>>=◌, ◌>>◌, guard, server_hello_len_fs,
  server_hello_len, nonce_len, session_id_len, mac_len, public_key_bytes,
}
use pqc_esp32s3_benchmarks.Session.Spec
use pqc_esp32s3_benchmarks.Session.Spec.{Transcript}
use pqc_esp32s3_benchmarks.Session.Compare.{ct_equal, ct_equal_iff}
use pqc_esp32s3_benchmarks.Session.Handshake.{
  Agreed, transcript_hash, stage1, exchange, no_exchange, finish, new_session, authenticate,
}
use pqc_esp32s3_benchmarks.Session.Handshake.Steps.{>>=-some, guard-some, if-some}
use pqc_esp32s3_benchmarks.Session.Handshake.Transcript.{transcript_of, mac_offset}
use pqc_esp32s3_benchmarks.Session.Handshake.Schedule.{
  expected_mac-eq, AgreedOn, mode_a-AgreedOn, mode_b-AgreedOn, exchange-eq, keys_of,
}
use pqc_esp32s3_benchmarks.Session.Handshake.Established.{Established, conclude}

module _ {Net Host : Type 0} (p : Platform Net Host) (st : IsStream p.sockets) where
  module _ (c : Config) (conf : IsConfig c) (sz : HasSizes p.mbedtls) (sock : ℤ) (nonce ss : List ℕ)
      (nonce_size : length nonce ≡ 32) (ss_size : length ss ≡ 32) (us : ℤ) (w : World Net Host)
      (sized : IsWorld w) where
    abbrev pub server_mac_of : Bool → List ℕ
    server_mac_of fs = slice (mac_offset p fs) mac_len w.frame

    abbrev pub th2_of : Bool → List ℕ
    th2_of fs = transcript_hash p.mbedtls fs w.hello w.frame

    abbrev pub salt_of : List ℕ
    salt_of = take nonce_len nonce ++ slice 0 nonce_len w.frame

    abbrev pub test_of : Bool → Bool
    test_of fs =
        ct_equal
          (p.mbedtls.hmac (stage1 p.mbedtls c fs salt_of ss (th2_of fs)).srv_confirm
            (take 32 (th2_of fs)))
          (server_mac_of fs) mac_len

    abbrev pub last_part : Bool → Agreed → Run Net Host Session
    last_part fs a = finish p sock fs a (server_mac_of fs) >> λ v. (
      some (
          new_session p fs (if fs then server_hello_len_fs else server_hello_len)
            (slice nonce_len session_id_len w.frame) us a),
      v,
    )

    abbrev pub agree : Bool → Run Net Host Agreed
    agree fs =
        if fs
        then exchange p c (keys_of p c conf sz nonce ss nonce_size ss_size w sized fs) salt_of ss
            (th2_of fs) (slice (nonce_len + session_id_len) public_key_bytes w.frame)
        else λ v. (
          some (
              no_exchange p (keys_of p c conf sz nonce ss nonce_size ss_size w sized fs)
                (th2_of fs)),
          v,
        )

    -- The comparison, the exchange and the last message, taken apart.
    authenticate-parts :
        (fs : Bool) {s : Session} {w' : World Net Host}
        → authenticate p c sock fs nonce ss us w ≡ (some s, w')
        → (test_of fs ≡ true)
          × (a : Agreed) × (v : World Net Host) × (u : Unit {0}) × (agree fs w ≡ (some a, v))
          × (finish p sock fs a (server_mac_of fs) v ≡ (some u, w'))
          × (new_session p fs
                (if fs then server_hello_len_fs else server_hello_len)
                (slice nonce_len session_id_len w.frame)
                us
                a
              ≡ s)
    unfolding authenticate
    authenticate-parts fs {s} {w'} e =
        let (_, w0, g, e1) =
          >>=-some (guard (test_of fs)) (λ _. agree fs >>= last_part fs) {w = w} e in
        let (test, same) = guard-some (test_of fs) g in
        let (a, v, ag, e2) = >>=-some (agree fs) (last_part fs) {w = w0} e1 in
        let (u, w1, fin, e3) =
          >>=-some (finish p sock fs a (server_mac_of fs))
            (λ _ x. (
              some (
                  new_session p fs (if fs then server_hello_len_fs else server_hello_len)
                    (slice nonce_len session_id_len w.frame) us a),
              x,
            ))
            {w = v} e2 in
        (
          test,
          a,
          v,
          u,
          ap (agree fs) same ∙ ag,
          fin ∙ ap (λ x. (some u, x.1)) e3,
          (if-some true (ap (λ x. x.0) e3)).1,
        )

    -- The comparison is that of the received MAC with the specification's.
    pub server_mac-eq :
        (fs : Bool)
        → test_of fs ≡ true
        → server_mac_of fs ≡ Spec.server_mac p.mbedtls (transcript_of p fs c nonce ss w)
    server_mac-eq fs e =
        sym (
          (ct_equal_iff 32 _ (server_mac_of fs) (sz.hmac-IsBytes _ _)
              (IsBytes-take 32 _ (IsBytes-drop (mac_offset p fs) w.frame sized.frame_bytes))
              (sz.length-hmac _ _) (inside fs)).0
            e)
        ∙ expected_mac-eq p c conf sz fs nonce ss nonce_size ss_size w sized
      where
        inside : (b : Bool) → length (server_mac_of b) ≡ 32
        inside b = omega (
          arith,
          length-take 32 (drop (mac_offset p b) w.frame),
          length-drop (mac_offset p b) w.frame,
          sized.frame_size,
          offset b,
        )
          where
            offset : (b : Bool) → mac_offset p b ≤ 1224
            offset true = omega arith
            offset false = omega arith

    -- With the comparison refused, nothing is encapsulated, sent or stored.
    pub authenticate-refused :
        (fs : Bool) → test_of fs ≡ false → authenticate p c sock fs nonce ss us w ≡ (none, w)
    unfolding authenticate
    authenticate-refused fs e = rw e

    -- With the comparison passed, the exchange and the last message follow.
    pub authenticate-passed :
        (fs : Bool)
        → test_of fs ≡ true
        → authenticate p c sock fs nonce ss us w ≡ (agree fs >>= last_part fs) w
    unfolding authenticate
    authenticate-passed fs e = rw e

    -- What the two sides agree on is what the specification says.
    pub agree-AgreedOn :
        (fs : Bool) {a : Agreed} {v : World Net Host}
        → HasEnc p.mlkem
        → agree fs w ≡ (some a, v)
        → AgreedOn p (transcript_of p fs c nonce ss w) w a v
    agree-AgreedOn false {a} {v} ke ag =
        subst₂ (AgreedOn p (transcript_of p false c nonce ss w) w)
          (if-some true (ap (λ x. x.0) ag)).1 (ap (λ x. x.1) ag)
          (mode_a-AgreedOn p c conf sz nonce ss nonce_size ss_size w sized)
    agree-AgreedOn true {a} {v} ke ag =
        let q = sym (exchange-eq p c conf sz nonce ss nonce_size ss_size w sized ke) ∙ ag in
        subst₂ (AgreedOn p (transcript_of p true c nonce ss w) w) (if-some _ (ap (λ x. x.0) q)).1
          (ap (λ x. x.1) q) (mode_b-AgreedOn p c conf sz nonce ss nonce_size ss_size w sized ke)

    -- If `handshake` returns true from the checked ServerHello on, the session is that of the
    -- specification.
    pub authenticate-Established :
        (fs : Bool) {s : Session} {w' : World Net Host}
        → HasEnc p.mlkem
        → authenticate p c sock fs nonce ss us w ≡ (some s, w')
        → Established p st sock (transcript_of p fs c nonce ss w) s w w'
    authenticate-Established fs {s} {w'} ke e =
        let (test, a, v, u, ag, fin, made) = authenticate-parts fs e in
        rw (← made) (
          conclude p st c conf sz sock nonce ss nonce_size ss_size us w sized fs a v
            (agree-AgreedOn fs ke ag) (server_mac-eq fs test) fin)
