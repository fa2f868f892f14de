-- ===== src/Session/Client.antt =====
-- `pqc_session_run` of pqc_session.c: connect, handshake, the records, Close.
pub mod Reading
pub mod Sequence
pub mod Closing
pub mod Keeps
pub mod Live
pub mod Through
pub mod Quiet
pub mod Guarded
pub mod Whole
use pqc_esp32s3_benchmarks.Prelude.{
  ℕ, zero, suc, ◌+◌, Bool, true, false, List, [], ◌∷◌, ◌++◌, ℤ, is_negative, length, take, Option,
  none, some, string_bytes, decimal, if◌then◌else◌,
}
use pqc_esp32s3_benchmarks.Platform.{Platform}
use pqc_esp32s3_benchmarks.Session.Layout.{
  Config, Session, World, Run, Mode, mode_a, mode_b_forward_secrecy, ◌>>=◌, ◌>>◌, u16,
  suite_mlkem768, suite_mlkem768_fs, frame_close,
}
use pqc_esp32s3_benchmarks.Session.Frames.{write_frame}
use pqc_esp32s3_benchmarks.Session.Connection.{connect_to_server}
use pqc_esp32s3_benchmarks.Session.Handshake.{handshake}
use pqc_esp32s3_benchmarks.Session.Records.{send_record}

-- What the format string of record `n` stands for.
unfoldable pub reading : ℕ → List ℕ
reading n =
    string_bytes "{\"seq\":"
    ++ (decimal n
        ++ (string_bytes ",\"co2\":"
            ++ (decimal (810 + n) ++ string_bytes ",\"t\":22.4,\"rh\":47}")))

-- `snprintf` into `char json[80]`: the characters stored, without the zero behind them, and the
-- length of the whole text.
abbrev pub format_reading : ℕ → List ℕ × ℕ
format_reading n = (take 79 (reading n), length (reading n))

unfoldable pub suite_of : Mode → ℕ
suite_of mode_a = suite_mlkem768
suite_of mode_b_forward_secrecy = suite_mlkem768_fs

module _ {Net Host : Type 0} (p : Platform Net Host) (c : Config) where
  -- The loop over the records, on the rounds left, with the record's number and the payload so far.
  unfoldable pub send_records : ℤ → ℕ → ℕ → Session → ℕ → Run Net Host (Session × ℕ)
  send_records sock zero n session total w = (some (session, total), w)
  send_records sock (suc rounds) n session total w =
      let (json, len) = format_reading n in
      let (r, w') = send_record p sock session json (u16 len) w in
      elim r [
        | none ↦ (none, w')
        | some session' ↦ send_records sock rounds (n + 1) session' (total + len) w'
      ]

  abbrev pub close_socket : ℤ → World Net Host → World Net Host
  close_socket sock w = record w { net = p.sockets.close sock w.net }

  -- After the connection; the clock is read before and after the handshake.
  unfoldable pub run_connected : ℤ → Mode → ℕ → World Net Host → Bool × World Net Host
  run_connected sock mode record_count w =
      let w0 = record w { host = (p.board.get_time w.host).1 } in
      let (r, w1) = handshake p c sock (suite_of mode) w0 in
      let w2 = record w1 { host = (p.board.get_time w1.host).1 } in
      elim r [
        | none ↦ (false, close_socket sock w2)
        | some session ↦
            let (done, w3) = send_records sock record_count 0 session 0 w2 in
            elim done [
              | none ↦ (false, close_socket sock w3)
              | some _ ↦
                  let (_, net') = write_frame p.sockets sock frame_close [] 0 w3.net in
                  (true, close_socket sock (record w3 { net = net' }))
            ]
      ]

  unfoldable pub pqc_session_run : Mode → ℕ → World Net Host → Bool × World Net Host
  pqc_session_run mode record_count w =
      let (sock, net') = connect_to_server p.sockets c w.net in
      let w1 = record w { net = net' } in
      if is_negative sock then (false, w1) else run_connected sock mode record_count w1
