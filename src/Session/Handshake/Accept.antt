-- ===== src/Session/Handshake/Accept.antt =====
-- From a ServerHello with the right MAC on, a live connection lets `handshake` finish.
use pqc_esp32s3_benchmarks.Prelude.{
  ℕ, ◌+◌, ◌≡◌, refl, ◌∙◌, ap, sym, Bool, true, false, List, length, ℤ, if◌then◌else◌, some, is_zero,
  slice,
}
use pqc_esp32s3_benchmarks.Platform.{IsStream, IsLive, Platform, HasSizes, HasEnc}
use pqc_esp32s3_benchmarks.Session.Layout.{
  Config, IsConfig, Session, World, IsWorld, server_hello_len_fs, server_hello_len, nonce_len,
  session_id_len, mac_len, public_key_bytes, frame_client_finished,
}
use pqc_esp32s3_benchmarks.Session.Spec
use pqc_esp32s3_benchmarks.Session.Spec.{Transcript}
use pqc_esp32s3_benchmarks.Session.Compare.{ct_equal, ct_equal_self}
use pqc_esp32s3_benchmarks.Session.Frames.Wire.{write_frame-true}
use pqc_esp32s3_benchmarks.Session.Handshake.{authenticate, finish, Agreed, new_session}
use pqc_esp32s3_benchmarks.Session.Handshake.Steps.{>>=-step}
use pqc_esp32s3_benchmarks.Session.Handshake.Transcript.{transcript_of, ephemeral}
use pqc_esp32s3_benchmarks.Session.Handshake.Schedule.{expected_mac-eq, exchange-eq}
use pqc_esp32s3_benchmarks.Session.Handshake.Sound.{
  test_of, agree, last_part, authenticate-passed, server_mac_of,
}
use pqc_esp32s3_benchmarks.Session.Handshake.Reach.{passes}

module _ {Net Host : Type 0} (p : Platform Net Host) where
  module _ (st : IsStream p.sockets) (lv : IsLive p.sockets st) (c : Config) (conf : IsConfig c)
      (sz : HasSizes p.mbedtls) (sock : ℤ) (nonce ss : List ℕ) (nonce_size : length nonce ≡ 32)
      (ss_size : length ss ≡ 32) (us : ℤ) (w : World Net Host) (sized : IsWorld w) where
    finish-true :
        (fs : Bool) (a : Agreed) (mac : List ℕ) (v : World Net Host)
        → (w' : World Net Host) × (finish p sock fs a mac v ≡ (some tt, w'))
    unfolding finish
    finish-true fs a mac v = (
      (finish p sock fs a mac v).1,
      passes _ tt _
          (write_frame-true p.sockets st lv sock frame_client_finished _ a.finished_len v.net),
    )

    agree-true :
        (fs : Bool)
        → HasEnc p.mlkem
        → (fs ≡ true
            → is_zero
                (ephemeral p (slice (nonce_len + session_id_len) public_key_bytes w.frame) w.host).0
              ≡ true)
        → (a : Agreed) × (v : World Net Host) × (agree p st c conf sz sock nonce ss nonce_size
              ss_size us w sized fs w
            ≡ (some a, v))
    agree-true false ke ok = (_, w, refl)
    agree-true true ke ok = (
      _,
      _,
      exchange-eq p c conf sz nonce ss nonce_size ss_size w sized ke ∙ passes _ _ _ (ok refl),
    )

    abbrev ended : Bool → Agreed → Session
    ended fs a =
        new_session p fs (if fs then server_hello_len_fs else server_hello_len)
          (slice nonce_len session_id_len w.frame) us a

    -- From a ServerHello with the right MAC on, `handshake` returns true.
    pub authenticate-true :
        (fs : Bool)
        → HasEnc p.mlkem
        → server_mac_of p st c conf sz sock nonce ss nonce_size ss_size us w sized fs
          ≡ Spec.server_mac p.mbedtls (transcript_of p fs c nonce ss w)
        → (fs ≡ true
            → is_zero
                (ephemeral p (slice (nonce_len + session_id_len) public_key_bytes w.frame) w.host).0
              ≡ true)
        → (s : Session) × (w' : World Net Host) × (authenticate p c sock fs nonce ss us w
            ≡ (some s, w'))
    authenticate-true fs ke mac ok =
        let (a, v, agreed) = agree-true fs ke ok in
        let (w', fin) =
          finish-true fs a
            (server_mac_of p st c conf sz sock nonce ss nonce_size ss_size us w sized fs) v in
        (
          ended fs a,
          w',
          authenticate-passed p st c conf sz sock nonce ss nonce_size ss_size us w sized fs test
              ∙ (>>=-step (agree p st c conf sz sock nonce ss nonce_size ss_size us w sized fs)
                    (last_part p st c conf sz sock nonce ss nonce_size ss_size us w sized fs) agreed
                  ∙ >>=-step
                      (finish p sock fs a (
                        server_mac_of p st c conf sz sock nonce ss nonce_size ss_size us w sized
                          fs))
                      (λ _ x. (some (ended fs a), x)) fin),
        )
      where
        test : test_of p st c conf sz sock nonce ss nonce_size ss_size us w sized fs ≡ true
        test =
            ap
              (λ l.
                ct_equal l
                  (server_mac_of p st c conf sz sock nonce ss nonce_size ss_size us w sized fs)
                  mac_len)
              (expected_mac-eq p c conf sz fs nonce ss nonce_size ss_size w sized ∙ sym mac)
            ∙ ct_equal_self 32 _
