-- ===== src/Session/Handshake/Handles.antt =====
-- The handshake opens and closes no socket, on every path.
use pqc_esp32s3_benchmarks.Prelude.{
  ℕ, ◌+◌, ◌≡◌, refl, ◌∙◌, Bool, true, false, List, ◌++◌, take, ℤ, if◌then◌else◌, ◌==◌, some,
  Bool-cases, Option-cases, inl, inr, is_zero, slice,
}
use pqc_esp32s3_benchmarks.Platform.{Platform, Tracks}
use pqc_esp32s3_benchmarks.Session.Layout.{
  Config, Keys, Session, World, Run, ◌>>=◌, ◌>>◌, guard, server_hello_len_fs, server_hello_len, u16,
  client_hello_len, frame_client_hello, nonce_len, session_id_len, public_key_bytes, mac_len,
  suite_mlkem768_fs, server_hello_len_fs, frame_client_finished,
}
use pqc_esp32s3_benchmarks.Session.Frames.{write_frame}
use pqc_esp32s3_benchmarks.Session.Frames.Handles.{write_frame-keeps, read_frame-keeps}
use pqc_esp32s3_benchmarks.Session.Handshake.{
  fill_hello, send_hello, receive_hello, finish, Agreed, encapsulate, exchange, authenticate,
  handshake, transcript_hash, stage1, no_exchange, new_session,
}
use pqc_esp32s3_benchmarks.Session.Compare.{ct_equal}
use pqc_esp32s3_benchmarks.Session.Handshake.Transcript.{ephemeral, encapsulated, encapsulate_time}

module _ {Net Host : Type 0} (p : Platform Net Host) (tr : Tracks p.sockets) (c : Config) where
  open tr use {in_use}

  -- A run that leaves the open sockets as they are, whether it succeeds or not.
  abbrev pub Holds : {A : Type 0} → Run Net Host A → Type 0
  Holds m = (w : World Net Host) → in_use (m w).1.net ≡ in_use w.net

  >>=-Holds :
      {A B : Type 0} (m : Run Net Host A) (f : A → Run Net Host B)
      → Holds m
      → ((a : A) → Holds (f a))
      → Holds (m >>= f)
  >>=-Holds m f km kf w = elim (Option-cases (m w).0) [
    | inl e ↦ rw (e, ◌>>=◌) (km w)
    | inr (a, e) ↦ rw (e, ◌>>=◌) (kf a (m w).1 ∙ km w)
  ]

  send_hello-Holds :
      (sock : ℤ) (suite : ℕ) (nonce ct : List ℕ) → Holds (send_hello p c sock suite nonce ct)
  unfolding send_hello
  send_hello-Holds sock suite nonce ct w =
      elim (Bool-cases ((fill_hello p.mbedtls c suite nonce ct w.hello).at == client_hello_len)) [
        | inr e ↦ rw e refl
        | inl e ↦ elim (Bool-cases wrote.0) [ inl f ↦ rw e (rw f kept) | inr f ↦ rw e (rw f kept) ]
      ]
    where
      wrote : Bool × Net
      wrote =
          write_frame p.sockets sock frame_client_hello
            (fill_hello p.mbedtls c suite nonce ct w.hello).buf client_hello_len w.net

      kept : in_use wrote.1 ≡ in_use w.net
      kept =
          write_frame-keeps p.sockets tr sock frame_client_hello
            (fill_hello p.mbedtls c suite nonce ct w.hello).buf client_hello_len w.net

  receive_hello-Holds : (sock : ℤ) (expected : ℕ) → Holds (receive_hello p sock expected)
  unfolding receive_hello
  receive_hello-Holds sock expected w = read_frame-keeps p.sockets tr sock server_hello_len_fs w.net

  finish-Holds : (sock : ℤ) (fs : Bool) (a : Agreed) (mac : List ℕ) → Holds (finish p sock fs a mac)
  unfolding finish
  finish-Holds sock fs a mac w =
      write_frame-keeps p.sockets tr sock frame_client_finished _ a.finished_len w.net

  exchange-Holds :
      (keys : Keys) (salt ss th2 ek : List ℕ) → Holds (exchange p c keys salt ss th2 ek)
  unfolding exchange encapsulate
  exchange-Holds keys salt ss th2 ek w = elim (Bool-cases (is_zero (ephemeral p ek w.host).0)) [
    | inl e ↦ rw e refl
    | inr e ↦ rw e refl
  ]

  module _ (sock : ℤ) (fs : Bool) (nonce ss : List ℕ) (us : ℤ) where
    authenticate-Holds : Holds (authenticate p c sock fs nonce ss us)
    unfolding authenticate
    authenticate-Holds w =
        >>=-Holds (guard test) (λ _. agree fs >>= last) (λ v. refl)
          (λ _. >>=-Holds (agree fs) last (agree-Holds fs) (λ a.
            >>=-Holds (finish p sock fs a mac) (λ _ v. (some (made a), v))
              (finish-Holds sock fs a mac) (λ _ v. refl)))
          w
      where
        mac : List ℕ
        mac =
            slice (nonce_len + session_id_len + (if fs then public_key_bytes else 0)) mac_len
              w.frame

        th2 : List ℕ
        th2 = transcript_hash p.mbedtls fs w.hello w.frame

        salt : List ℕ
        salt = take nonce_len nonce ++ slice 0 nonce_len w.frame

        keys : Keys
        keys = stage1 p.mbedtls c fs salt ss th2

        test : Bool
        test = ct_equal (p.mbedtls.hmac keys.srv_confirm (take 32 th2)) mac mac_len

        agree : Bool → Run Net Host Agreed
        agree b =
            if b
            then exchange p c keys salt ss th2
                (slice (nonce_len + session_id_len) public_key_bytes w.frame)
            else λ v. (some (no_exchange p keys th2), v)

        agree-Holds : (b : Bool) → Holds (agree b)
        agree-Holds true = exchange-Holds keys salt ss th2 _
        agree-Holds false = λ v. refl

        made : Agreed → Session
        made a =
            new_session p fs (if fs then server_hello_len_fs else server_hello_len)
              (slice nonce_len session_id_len w.frame) us a

        last : Agreed → Run Net Host Session
        last a = finish p sock fs a mac >> λ v. (some (made a), v)

  pub handshake-Holds : (sock : ℤ) (suite : ℕ) → Holds (handshake p c sock suite)
  unfolding handshake encapsulate
  handshake-Holds sock suite w =
      >>=-Holds (guard (is_zero made.0)) (λ _. say >> (listen >> check)) (λ v. refl)
        (λ _.
          >>=-Holds say (λ _. listen >> check) (send_hello-Holds sock suite drawn.0 made.1)
            (λ _.
              >>=-Holds listen (λ _. check) (receive_hello-Holds sock _)
                (λ _. authenticate-Holds sock (suite == suite_mlkem768_fs) drawn.0 made.2 us)))
        (record w { host = encapsulated p c.server_public_key drawn.1 })
    where
      drawn : List ℕ × Host
      drawn = p.board.fill_random nonce_len w.host

      made : ℤ × List ℕ × List ℕ × Host
      made = ephemeral p c.server_public_key drawn.1

      us : ℤ
      us = encapsulate_time p c.server_public_key drawn.1

      say : Run Net Host (Unit {0})
      say = send_hello p c sock suite drawn.0 made.1

      listen : Run Net Host (Unit {0})
      listen =
          receive_hello p sock
            (u16 (if suite == suite_mlkem768_fs then server_hello_len_fs else server_hello_len))

      check : Run Net Host Session
      check = authenticate p c sock (suite == suite_mlkem768_fs) drawn.0 made.2 us
