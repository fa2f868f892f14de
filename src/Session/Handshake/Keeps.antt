-- ===== src/Session/Handshake/Keeps.antt =====
-- Every part of `handshake` keeps the static buffers well formed, on every path.
use pqc_esp32s3_benchmarks.Prelude.{
  ℕ, ◌+◌, ◌≡◌, ◌∙◌, Bool, true, false, not, List, ◌++◌, length, take, ℤ, if◌then◌else◌, ◌==◌, none,
  some, Bool-cases, inl, inr, blit, length-blit, length-take, arith, ◌≤◌, [], ◌∷◌, IsBytes-blit,
  is_zero, slice,
}
use pqc_esp32s3_benchmarks.Platform.{IsStream, Platform, HasSizes}
use pqc_esp32s3_benchmarks.Session.Layout.{
  Config, Keys, Session, World, IsWorld, Run, ◌>>=◌, ◌>>◌, guard, server_hello_len_fs,
  server_hello_len, u16, client_hello_len, frame_client_hello, nonce_len, session_id_len,
  public_key_bytes, mac_len, suite_mlkem768_fs, ciphertext_bytes, client_key_exchange_len,
  protocol_version, label_hello,
}
use pqc_esp32s3_benchmarks.Session.Cursor.{Cursor, put}
use pqc_esp32s3_benchmarks.Session.Frames.{write_frame}
use pqc_esp32s3_benchmarks.Session.Frames.Partial.{length-read_frame}
use pqc_esp32s3_benchmarks.Session.Handshake.{
  fill_hello, send_hello, receive_hello, finish, Agreed, encapsulate, exchange, authenticate,
  handshake, write_out, hmac_sha256_2, transcript_hash, stage1, no_exchange, new_session,
}
use pqc_esp32s3_benchmarks.Session.Compare.{ct_equal}
use pqc_esp32s3_benchmarks.Session.Handshake.Transcript.{ephemeral, encapsulated, encapsulate_time}
use pqc_esp32s3_benchmarks.Session.Keeps.{Keeps, >>=-Keeps, IsWorld-if, read_frame-IsBytes}

module _ {Net Host : Type 0} (p : Platform Net Host) (st : IsStream p.sockets) (c : Config)
    (sz : HasSizes p.mbedtls) where
  length-put :
      (size : ℕ) (src : List ℕ) (n : ℕ) (cur : Cursor)
      → cur.at + n ≤ size
      → length cur.buf ≡ size
      → length (put src n cur).buf ≡ size
  length-put size src n cur room full =
      length-blit cur.buf cur.at (take n src) (omega (arith, room, full, length-take n src)) ∙ full

  length-fill_hello :
      (suite : ℕ) (nonce ct hello : List ℕ)
      → length hello ≡ client_hello_len
      → length (fill_hello p.mbedtls c suite nonce ct hello).buf ≡ client_hello_len
  unfolding fill_hello
  length-fill_hello suite nonce ct hello full =
      let start : Cursor = record { buf = hello; at = 0 } in
      let version = put (protocol_version ∷ []) 1 start in
      let with_suite = put (suite ∷ []) 1 version in
      let device = put c.device_id 8 with_suite in
      let key_id = put c.server_key_id 4 device in
      let with_nonce = put nonce 32 key_id in
      let fields = put ct 1088 with_nonce in
      let f1 = length-put client_hello_len (protocol_version ∷ []) 1 start (omega arith) full in
      let f2 = length-put client_hello_len (suite ∷ []) 1 version (omega arith) f1 in
      let f3 = length-put client_hello_len c.device_id 8 with_suite (omega arith) f2 in
      let f4 = length-put client_hello_len c.server_key_id 4 device (omega arith) f3 in
      let f5 = length-put client_hello_len nonce 32 key_id (omega arith) f4 in
      let f6 = length-put client_hello_len ct 1088 with_nonce (omega arith) f5 in
      length-put client_hello_len
        (hmac_sha256_2 p.mbedtls c.device_psk label_hello fields.buf fields.at) 32 fields
        (omega arith) f6

  pub send_hello-Keeps :
      (sock : ℤ) (suite : ℕ) (nonce ct : List ℕ) → Keeps (send_hello p c sock suite nonce ct)
  unfolding send_hello
  send_hello-Keeps sock suite nonce ct w sized =
      elim (Bool-cases ((fill_hello p.mbedtls c suite nonce ct w.hello).at == client_hello_len)) [
        | inr e ↦ rw e (filled w.net)
        | inl e ↦ rw e (
            IsWorld-if (not wrote.0) (none, record w1 { net = wrote.1 })
              (some tt, record w1 { net = wrote.1 }) (filled wrote.1) (filled wrote.1))
      ]
    where
      w1 : World Net Host
      w1 = record w { hello = (fill_hello p.mbedtls c suite nonce ct w.hello).buf }

      wrote : Bool × Net
      wrote =
          write_frame p.sockets sock frame_client_hello
            (fill_hello p.mbedtls c suite nonce ct w.hello).buf client_hello_len w.net

      filled :
          (net : Net)
          → IsWorld
              (record w { net = net; hello = (fill_hello p.mbedtls c suite nonce ct w.hello).buf })
      filled net = record {
        hello_size = length-fill_hello suite nonce ct w.hello sized.hello_size;
        frame_bytes = sized.frame_bytes;
        frame_size = sized.frame_size;
        out_size = sized.out_size;
      }

  pub receive_hello-Keeps : (sock : ℤ) (expected : ℕ) → Keeps (receive_hello p sock expected)
  unfolding receive_hello
  receive_hello-Keeps sock expected w sized = record {
    hello_size = sized.hello_size;
    frame_bytes =
        IsBytes-blit w.frame 0 _ sized.frame_bytes
          (read_frame-IsBytes p.sockets st sock server_hello_len_fs w.net);
    frame_size =
        length-blit w.frame 0 _ (
          omega (
            arith,
            sized.frame_size,
            length-read_frame p.sockets st sock server_hello_len_fs w.net,
          ))
        ∙ sized.frame_size;
    out_size = sized.out_size;
  }

  abbrev client_mac : Agreed → List ℕ → List ℕ
  client_mac a mac = hmac_sha256_2 p.mbedtls a.keys.cli_confirm (take 32 a.transcript) mac 32

  client_mac-size : (a : Agreed) (mac : List ℕ) → length (client_mac a mac) ≡ 32
  client_mac-size a mac = sz.length-hmac a.keys.cli_confirm _

  offset : (fs : Bool) → (if fs then ciphertext_bytes else 0) ≤ 1088
  offset true = omega arith
  offset false = omega arith

  finish-Keeps : (sock : ℤ) (fs : Bool) (a : Agreed) (mac : List ℕ) → Keeps (finish p sock fs a mac)
  unfolding finish
  finish-Keeps sock fs a mac w sized = record {
    hello_size = sized.hello_size;
    frame_bytes = sized.frame_bytes;
    frame_size = sized.frame_size;
    out_size =
        length-blit w.out (if fs then ciphertext_bytes else 0) (client_mac a mac)
          (omega (arith, offset fs, sized.out_size, client_mac-size a mac))
        ∙ sized.out_size;
  }

  write_out-Keeps :
      (at : ℕ) (bytes : List ℕ)
      → at + length bytes ≤ client_key_exchange_len
      → Keeps (write_out p at bytes)
  write_out-Keeps at bytes room w sized = record {
    hello_size = sized.hello_size;
    frame_bytes = sized.frame_bytes;
    frame_size = sized.frame_size;
    out_size = length-blit w.out at bytes (omega (arith, room, sized.out_size)) ∙ sized.out_size;
  }

  pub with_host : (w : World Net Host) (h : Host) → IsWorld w → IsWorld (record w { host = h })
  with_host w h sized = record {
    hello_size = sized.hello_size;
    frame_bytes = sized.frame_bytes;
    frame_size = sized.frame_size;
    out_size = sized.out_size;
  }

  encapsulate-Keeps : (ek : List ℕ) → Keeps (encapsulate p ek)
  unfolding encapsulate
  encapsulate-Keeps ek w sized = with_host w _ sized

  exchange-Keeps :
      (keys : Keys) (salt ss th2 ek : List ℕ) → Keeps (exchange p c keys salt ss th2 ek)
  unfolding exchange encapsulate
  exchange-Keeps keys salt ss th2 ek w sized =
      elim (Bool-cases (is_zero (ephemeral p ek w.host).0)) [
        | inl e ↦ rw e (sealed (p.board.get_time (ephemeral p ek w.host).3).1)
        | inr e ↦ rw e (sealed (ephemeral p ek w.host).3)
      ]
    where
      sealed :
          (h : Host)
          → IsWorld
              (record w { host = h; out = blit w.out 0 (take 1088 (ephemeral p ek w.host).1) })
      sealed h =
          with_host (record w { out = blit w.out 0 (take 1088 (ephemeral p ek w.host).1) }) h
            (write_out-Keeps 0 (take 1088 (ephemeral p ek w.host).1)
              (omega (arith, length-take 1088 (ephemeral p ek w.host).1)) w sized)

  module _ (sock : ℤ) (fs : Bool) (nonce ss : List ℕ) (us : ℤ) where
    authenticate-Keeps : Keeps (authenticate p c sock fs nonce ss us)
    unfolding authenticate
    authenticate-Keeps w sized =
        >>=-Keeps (guard test) (λ _. agree fs >>= last) (λ v h. h)
          (λ _. >>=-Keeps (agree fs) last (agree-Keeps fs) (λ a.
            >>=-Keeps (finish p sock fs a mac) (λ _ v. (some (made a), v))
              (finish-Keeps sock fs a mac) (λ _ v h. h)))
          w sized
      where
        mac : List ℕ
        mac =
            slice (nonce_len + session_id_len + (if fs then public_key_bytes else 0)) mac_len
              w.frame

        th2 : List ℕ
        th2 = transcript_hash p.mbedtls fs w.hello w.frame

        salt : List ℕ
        salt = take nonce_len nonce ++ slice 0 nonce_len w.frame

        keys : Keys
        keys = stage1 p.mbedtls c fs salt ss th2

        test : Bool
        test = ct_equal (p.mbedtls.hmac keys.srv_confirm (take 32 th2)) mac mac_len

        agree : Bool → Run Net Host Agreed
        agree b =
            if b
            then exchange p c keys salt ss th2
                (slice (nonce_len + session_id_len) public_key_bytes w.frame)
            else λ v. (some (no_exchange p keys th2), v)

        agree-Keeps : (b : Bool) → Keeps (agree b)
        agree-Keeps true = exchange-Keeps keys salt ss th2 _
        agree-Keeps false = λ v h. h

        made : Agreed → Session
        made a =
            new_session p fs (if fs then server_hello_len_fs else server_hello_len)
              (slice nonce_len session_id_len w.frame) us a

        last : Agreed → Run Net Host Session
        last a = finish p sock fs a mac >> λ v. (some (made a), v)

  module _ (sock : ℤ) (suite : ℕ) where
    -- Whether `handshake` succeeds or fails at whatever point, the static buffers keep their sizes and
    -- `s_frame` holds bytes.
    pub handshake-Keeps : Keeps (handshake p c sock suite)
    unfolding handshake encapsulate
    handshake-Keeps w sized =
        >>=-Keeps (guard (is_zero made.0)) (λ _. say >> (listen >> check)) (λ v h. h)
          (λ _.
            >>=-Keeps say (λ _. listen >> check) (send_hello-Keeps sock suite drawn.0 made.1)
              (λ _.
                >>=-Keeps listen (λ _. check) (receive_hello-Keeps sock _)
                  (λ _. authenticate-Keeps sock (suite == suite_mlkem768_fs) drawn.0 made.2 us)))
          (record w { host = encapsulated p c.server_public_key drawn.1 }) (with_host w _ sized)
      where
        drawn : List ℕ × Host
        drawn = p.board.fill_random nonce_len w.host

        made : ℤ × List ℕ × List ℕ × Host
        made = ephemeral p c.server_public_key drawn.1

        us : ℤ
        us = encapsulate_time p c.server_public_key drawn.1

        say : Run Net Host (Unit {0})
        say = send_hello p c sock suite drawn.0 made.1

        listen : Run Net Host (Unit {0})
        listen =
            receive_hello p sock
              (u16 (if suite == suite_mlkem768_fs then server_hello_len_fs else server_hello_len))

        check : Run Net Host Session
        check = authenticate p c sock (suite == suite_mlkem768_fs) drawn.0 made.2 us
