-- ===== src/Session/Handshake.antt =====
-- `handshake` of pqc_session.c, in the parts that the C function goes through in order, and the key
-- derivation under it.
pub mod Hello
pub mod Steps
pub mod Transcript
pub mod Schedule
pub mod Established
pub mod Sound
pub mod Whole
pub mod Reach
pub mod Accept
pub mod Complete
pub mod Refusal
pub mod Keeps
pub mod Handles
pub mod Spoken
pub mod Said
pub mod Quiet
use pqc_esp32s3_benchmarks.Prelude.{
  ℕ, zero, suc, ◌+◌, ◌*◌, Bool, true, false, not, ◌&&◌, List, [], ◌∷◌, ◌++◌, ◌==◌, if◌then◌else◌, ℤ,
  pos, is_zero, length, take, slice, blit, sub_ℕ, Option, none, some,
}
use pqc_esp32s3_benchmarks.Platform.{Sockets, Board, Mbedtls, MlkemEnc, Platform}
use pqc_esp32s3_benchmarks.Rng.{randombytes}
use pqc_esp32s3_benchmarks.Session.Layout.{
  Config, Keys, Session, World, Run, ◌>>=◌, ◌>>◌, guard, protocol_version, suite_mlkem768_fs,
  frame_client_hello, frame_server_hello, frame_client_finished, nonce_len, session_id_len,
  device_id_len, key_id_len, mac_len, psk_len, ss_len, ciphertext_bytes, public_key_bytes,
  client_hello_len, server_hello_len, server_hello_len_fs, client_key_exchange_len, label_hello,
  label_srv_confirm, label_cli_confirm, label_c2s, label_s2c, u16,
}
use pqc_esp32s3_benchmarks.Session.Compare.{ct_equal}
use pqc_esp32s3_benchmarks.Session.Cursor.{Cursor, put}
use pqc_esp32s3_benchmarks.Session.Frames.{write_frame, read_frame}

module _ (m : Mbedtls) where
  abbrev pub hmac_sha256 : List ℕ → List ℕ → List ℕ
  hmac_sha256 key msg = m.hmac key msg

  -- The update with the second piece is skipped where that is empty.
  abbrev pub hmac_sha256_2 : List ℕ → List ℕ → List ℕ → ℕ → List ℕ
  hmac_sha256_2 key a b b_len = m.hmac key (a ++ (if b_len == 0 then [] else take b_len b))

  abbrev pub derive_key : List ℕ → List ℕ → List ℕ → List ℕ
  derive_key prk label th2 = m.hkdf_expand prk (label ++ take 32 th2) 32

  -- TH2 over ClientHello, server nonce, session id, and in mode B the ephemeral key.
  abbrev pub transcript_hash : Bool → List ℕ → List ℕ → List ℕ
  transcript_hash fs hello frame =
      let server_nonce = slice 0 nonce_len frame in
      let session_id = slice nonce_len session_id_len frame in
      let ek_eph = slice (nonce_len + session_id_len) public_key_bytes frame in
      m.sha256 (
        take client_hello_len hello
        ++ (server_nonce ++ (session_id ++ (if fs then ek_eph else []))))

  module _ (c : Config) where
    -- `s_hello` filled up: the fields, then the MAC over the label and all of them.
    unfoldable pub fill_hello : ℕ → List ℕ → List ℕ → List ℕ → Cursor
    fill_hello suite nonce kem_ct hello =
        let start : Cursor = record { buf = hello; at = 0 } in
        let version = put (protocol_version ∷ []) 1 start in
        let with_suite = put (suite ∷ []) 1 version in
        let device = put c.device_id device_id_len with_suite in
        let key_id = put c.server_key_id key_id_len device in
        let with_nonce = put nonce nonce_len key_id in
        let fields = put kem_ct ciphertext_bytes with_nonce in
        put (hmac_sha256_2 c.device_psk label_hello fields.buf fields.at) mac_len fields

    -- Stage 1. What mode B leaves unset is empty here; stage 2 sets it.
    abbrev pub stage1 : Bool → List ℕ → List ℕ → List ℕ → Keys
    stage1 fs salt ss th2 =
        let prk1 = m.hkdf_extract salt (take ss_len ss ++ take psk_len c.device_psk) in
        record {
          srv_confirm = derive_key prk1 label_srv_confirm th2;
          cli_confirm = if fs then [] else derive_key prk1 label_cli_confirm th2;
          c2s = if fs then [] else derive_key prk1 label_c2s th2;
          s2c = if fs then [] else derive_key prk1 label_s2c th2;
        }

    -- Stage 2: every key that protects data derives from the ephemeral secret as well.
    abbrev pub stage2 : Keys → List ℕ → List ℕ → List ℕ → List ℕ → Keys
    stage2 keys salt ss ss_eph transcript =
        let prk2 =
          m.hkdf_extract salt
            (take ss_len ss ++ (take ss_len ss_eph ++ take psk_len c.device_psk)) in
        record keys {
          cli_confirm = derive_key prk2 label_cli_confirm transcript;
          c2s = derive_key prk2 label_c2s transcript;
          s2c = derive_key prk2 label_s2c transcript;
        }

-- The keys, the hash that they are bound to, how long the last message is, and how long the
-- ephemeral encapsulation took.
pub record Agreed : Type 0 where
  pub keys : Keys
  pub transcript : List ℕ
  pub finished_len : ℕ
  pub eph_encap_us : ℤ

module _ {Net Host : Type 0} (p : Platform Net Host) where
  abbrev pub random_source : ℕ → Host → ℤ × List ℕ × Host
  random_source = randombytes p.board true

  -- The client nonce.
  abbrev pub draw_nonce : Run Net Host (List ℕ)
  draw_nonce w =
      let (nonce, h) = p.board.fill_random nonce_len w.host in (some nonce, record w { host = h })

  -- An encapsulation and its time: whether it succeeded, cipher text, secret, microseconds. The
  -- clock is not read again after a failure.
  unfoldable pub encapsulate : List ℕ → Run Net Host (Bool × List ℕ × List ℕ × ℤ)
  encapsulate ek w =
      let (t0, h0) = p.board.get_time w.host in
      let (rc, ct, ss, h1) = p.mlkem.enc random_source ek h0 in
      let (t1, h2) = p.board.get_time h1 in
      let ok = is_zero rc in
      (
        some (ok, ct, ss, if ok then sub_ℕ t1 t0 else pos 0),
        record w { host = if ok then h2 else h1 },
      )

  -- The ServerHello, read into `s_frame` and checked for its type and length.
  unfoldable pub receive_hello : ℤ → ℕ → Run Net Host (Unit {0})
  receive_hello sock expected_len w =
      let r = read_frame p.sockets sock server_hello_len_fs w.net in
      let w1 = record w { net = r.after; frame = blit w.frame 0 r.bytes } in
      (
        if r.ok && (r.type == frame_server_hello) && (r.len == expected_len) then some tt else none,
        w1,
      )

  -- `s_out` from index `at` on.
  abbrev pub write_out : ℕ → List ℕ → Run Net Host (Unit {0})
  write_out at bytes w = (some tt, record w { out = blit w.out at bytes })

  -- What mode A goes on with.
  abbrev pub no_exchange : Keys → List ℕ → Agreed
  no_exchange keys th2 = record {
    keys = keys;
    transcript = th2;
    finished_len = mac_len;
    eph_encap_us = pos 0;
  }

  -- The client's confirmation, behind the cipher text in mode B, and the last message.
  unfoldable pub finish : ℤ → Bool → Agreed → List ℕ → Run Net Host (Unit {0})
  finish sock fs a server_mac w =
      let mac =
        hmac_sha256_2 p.mbedtls a.keys.cli_confirm (take 32 a.transcript) server_mac mac_len in
      let out = blit w.out (if fs then ciphertext_bytes else 0) mac in
      let (ok, net') = write_frame p.sockets sock frame_client_finished out a.finished_len w.net in
      (if ok then some tt else none, record w { out = out; net = net' })

  abbrev pub new_session : Bool → ℕ → List ℕ → ℤ → Agreed → Session
  new_session fs expected_len session_id encap_us a = record {
    session_id = session_id;
    c2s = take 32 a.keys.c2s;
    send_seq = 0;
    encap_us = encap_us;
    eph_encap_us = a.eph_encap_us;
    forward_secrecy = fs;
    handshake_bytes = 3 + client_hello_len + 3 + expected_len + 3 + a.finished_len;
  }

  module _ (c : Config) where
    -- The ClientHello, built in `s_hello` and sent.
    unfoldable pub send_hello : ℤ → ℕ → List ℕ → List ℕ → Run Net Host (Unit {0})
    send_hello sock suite nonce kem_ct w =
        let filled = fill_hello p.mbedtls c suite nonce kem_ct w.hello in
        let w1 = record w { hello = filled.buf } in
        let (ok, net') =
          write_frame p.sockets sock frame_client_hello filled.buf client_hello_len w.net in
        if not (filled.at == client_hello_len)
        then (none, w1)
        else (if not ok
            then (none, record w1 { net = net' })
            else (some tt, record w1 { net = net' }))

    -- Mode B after the server's MAC: encapsulate to the ephemeral key, into `s_out`, and derive the
    -- keys that protect data.
    unfoldable pub exchange : Keys → List ℕ → List ℕ → List ℕ → List ℕ → Run Net Host Agreed
    exchange keys salt ss th2 ek_eph = do
      (ok, ct_eph, ss_eph, us) ← encapsulate ek_eph
      write_out 0 (take ciphertext_bytes ct_eph)
      guard ok
      let transcript = p.mbedtls.sha256 (take 32 th2 ++ take ciphertext_bytes ct_eph)
      λ w. (
        some (record {
          keys = stage2 p.mbedtls c keys salt ss ss_eph transcript;
          transcript = transcript;
          finished_len = client_key_exchange_len;
          eph_encap_us = us;
        }),
        w,
      )

    -- From the checked ServerHello in `s_frame` on.
    unfoldable pub authenticate : ℤ → Bool → List ℕ → List ℕ → ℤ → Run Net Host Session
    authenticate sock fs client_nonce ss encap_us w =
        let frame = w.frame in
        let expected_len = if fs then server_hello_len_fs else server_hello_len in
        let session_id = slice nonce_len session_id_len frame in
        let ek_eph = slice (nonce_len + session_id_len) public_key_bytes frame in
        let server_mac =
          slice (nonce_len + session_id_len + (if fs then public_key_bytes else 0)) mac_len frame in
        let th2 = transcript_hash p.mbedtls fs w.hello frame in
        let salt = take nonce_len client_nonce ++ slice 0 nonce_len frame in
        let keys = stage1 p.mbedtls c fs salt ss th2 in
        let expected_mac = hmac_sha256 p.mbedtls keys.srv_confirm (take 32 th2) in
        let steps : Run Net Host Session = (do
          guard (ct_equal expected_mac server_mac mac_len)
          a ←
              (if fs then exchange keys salt ss th2 ek_eph else λ v.
              (some (no_exchange keys th2), v))
          finish sock fs a server_mac
          λ v. (some (new_session fs expected_len session_id encap_us a), v)) in
        steps w

    -- The whole of `handshake`: the session on success.
    unfoldable pub handshake : ℤ → ℕ → Run Net Host Session
    handshake sock suite = do
      let fs = suite == suite_mlkem768_fs
      client_nonce ← draw_nonce
      (ok, kem_ct, ss, encap_us) ← encapsulate c.server_public_key
      guard ok
      send_hello sock suite client_nonce kem_ct
      receive_hello sock (u16 (if fs then server_hello_len_fs else server_hello_len))
      authenticate sock fs client_nonce ss encap_us
