-- ===== src/Session/Client/Live.antt =====
-- `pqc_session_run` against a server that follows the specification.
use pqc_esp32s3_benchmarks.Prelude.{
  ℕ, zero, suc, ◌+◌, ◌^◌, ◌≤◌, ◌≡◌, refl, ap, true, false, List, arith, ℤ, is_zero, is_negative,
  ltb, some, slice,
}
use pqc_esp32s3_benchmarks.Platform.{
  Platform, HasSizes, HasRandom, HasEnc, Encrypts, IsStream, IsLive,
}
use pqc_esp32s3_benchmarks.Session.Layout.{
  Config, IsConfig, Session, World, IsWorld, Mode, u16, u64, tag_len, server_hello_len_fs,
  nonce_len, session_id_len, public_key_bytes,
}
use pqc_esp32s3_benchmarks.Session.Connection.{connect_to_server}
use pqc_esp32s3_benchmarks.Session.Frames.Wire.{write_frame-true}
use pqc_esp32s3_benchmarks.Session.Handshake.{handshake}
use pqc_esp32s3_benchmarks.Session.Handshake.Transcript.{ephemeral}
use pqc_esp32s3_benchmarks.Session.Handshake.Whole.{is_fs, pinned, before_hello}
use pqc_esp32s3_benchmarks.Session.Handshake.Complete.{Answered, handshake-true}
use pqc_esp32s3_benchmarks.Session.Records.{seal, send_record}
use pqc_esp32s3_benchmarks.Session.Client.{
  format_reading, suite_of, send_records, run_connected, pqc_session_run,
}
use pqc_esp32s3_benchmarks.Session.Client.Reading.{length-reading}
use pqc_esp32s3_benchmarks.Session.Client.Keeps.{moved}

module _ {Net Host : Type 0} (p : Platform Net Host) (c : Config) (st : IsStream p.sockets)
    (lv : IsLive p.sockets st) (enc : Encrypts p.mbedtls) (sock : ℤ) where
  -- On a live connection a record that fits the buffer is sent.
  pub send_record-true :
      (session : Session) (plain : List ℕ) (plain_len : ℕ) (w : World Net Host)
      → plain_len + 26 ≤ 1256
      → (send_record p sock session plain plain_len w).0
        ≡ some (record session { send_seq = u64 (session.send_seq + 1) })
  unfolding send_record seal
  send_record-true session plain plain_len w fits =
      let over : ltb server_hello_len_fs (plain_len + 10 + tag_len) ≡ false = ground arith in
      rw (over, enc.accepts_key session.c2s, enc.encrypts, write_frame-true p.sockets st lv sock)

  pub send_records-true :
      (rounds n : ℕ) (session : Session) (total : ℕ) (w : World Net Host)
      → n + rounds + 810 ≤ 2 ^ 31
      → (s : Session) × (t : ℕ) × ((send_records p c sock rounds n session total w).0 ≡ some (s, t))
  unfolding send_records
  send_records-true zero n session total w small = (session, total, refl)
  send_records-true (suc rounds) n session total w small =
      let size = length-reading n (omega arith) in
      let go =
        send_record-true session (format_reading n).0 (u16 (format_reading n).1) w
          (omega (arith, size)) in
      let (s, t, done) =
        send_records-true rounds (n + 1) (record session { send_seq = u64 (session.send_seq + 1) })
          (total + (format_reading n).1)
          (send_record p sock session (format_reading n).0 (u16 (format_reading n).1) w).1
          (omega arith) in
      (s, t, rw (send_records, go) done)

module _ {Net Host : Type 0} (p : Platform Net Host) (c : Config) (mode : Mode)
    (w : World Net Host) where
  -- Where the handshake of a run begins: connected, and with the clock read.
  abbrev pub connected : World Net Host
  connected = record w {
    net = (connect_to_server p.sockets c w.net).1;
    host = (p.board.get_time w.host).1;
  }

  abbrev pub socket_of : ℤ
  socket_of = (connect_to_server p.sockets c w.net).0

  -- What the run needs of the world: a connection to a server whose next message is the
  -- specification's answer to the ClientHello, and encapsulations that succeed.
  pub record Served (st : IsStream p.sockets) (lv : IsLive p.sockets st) (payload rest : List ℕ)
      : Type 0 where
    pub is_connected : is_negative socket_of ≡ false
    pub answer : Answered p st lv c socket_of (suite_of mode) connected payload rest
    pub encapsulates : is_zero (pinned p c (suite_of mode) connected).0 ≡ true
    pub encapsulates_again :
        is_fs p c (suite_of mode) connected ≡ true
        → is_zero
            (ephemeral p
              (slice (nonce_len + session_id_len) public_key_bytes payload)
              (before_hello p c (suite_of mode) connected).host).0
          ≡ true

  -- On a live connection, with data of the declared sizes, an AES-GCM that takes its key and encrypts,
  -- and record numbers that the format's `810 + n` does not overflow: against a server whose
  -- ServerHello is the specification's, and with encapsulations that succeed, `pqc_session_run` ends
  -- and returns true.
  pub pqc_session_run-true :
      (st : IsStream p.sockets) (lv : IsLive p.sockets st) (conf : IsConfig c)
      (sz : HasSizes p.mbedtls) (enc : Encrypts p.mbedtls) (rnd : HasRandom p.board)
      (ke : HasEnc p.mlkem) (sized : IsWorld w) (n : ℕ) (payload rest : List ℕ)
      → n + 810 ≤ 2 ^ 31
      → Served st lv payload rest
      → (pqc_session_run p c mode n w).0 ≡ true
  unfolding pqc_session_run run_connected
  pqc_session_run-true st lv conf sz enc rnd ke sized n payload rest small served =
      let (session, w1, done) =
        handshake-true p st lv c socket_of (suite_of mode) connected conf sz rnd ke
          (moved w _ _ sized) payload rest served.answer served.encapsulates
          served.encapsulates_again in
      let v = (handshake p c socket_of (suite_of mode) connected).1 in
      let (s, t, sent) =
        send_records-true p c st lv enc socket_of n 0 session 0
          (record v { host = (p.board.get_time v.host).1 }) (omega arith) in
      rw served.is_connected (rw (run_connected, ap (λ r. r.0) done) (rw sent))
