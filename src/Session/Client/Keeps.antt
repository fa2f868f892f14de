-- ===== src/Session/Client/Keeps.antt =====
-- `pqc_session_run` leaves the static buffers fit for the next run, on every path.
use pqc_esp32s3_benchmarks.Prelude.{
  ℕ, zero, suc, ◌+◌, ◌≡◌, ap, sym, ℤ, is_negative, Option, some, Option-cases, Bool-cases, inl, inr,
  IsBytes, IsBytes-take, IsBytes-drop, drop, subst,
}
use pqc_esp32s3_benchmarks.Platform.{Platform, HasSizes, HasRandom, HasEnc, IsStream}
use pqc_esp32s3_benchmarks.Session.Layout.{Config, IsConfig, Session, World, IsWorld, Mode, u16}
use pqc_esp32s3_benchmarks.Session.Connection.{connect_to_server}
use pqc_esp32s3_benchmarks.Session.Handshake.{handshake}
use pqc_esp32s3_benchmarks.Session.Handshake.Whole.{handshake-Completed}
use pqc_esp32s3_benchmarks.Session.Handshake.Keeps.{handshake-Keeps}
use pqc_esp32s3_benchmarks.Session.Records.{send_record}
use pqc_esp32s3_benchmarks.Session.Records.Keeps.{send_record-Keeps, send_record-session_id}
use pqc_esp32s3_benchmarks.Session.Client.{
  format_reading, suite_of, run_connected, send_records, pqc_session_run,
}

-- The network and the board have no part in it.
pub moved :
    {Net Host : Type 0} (w : World Net Host) (net : Net) (host : Host)
    → IsWorld w
    → IsWorld (record w { net = net; host = host })
moved w net host sized = record {
  hello_size = sized.hello_size;
  frame_bytes = sized.frame_bytes;
  frame_size = sized.frame_size;
  out_size = sized.out_size;
}

module _ {Net Host : Type 0} (p : Platform Net Host) (c : Config) (sz : HasSizes p.mbedtls) where
  send_records-Keeps :
      (sock : ℤ) (rounds n : ℕ) (session : Session) (total : ℕ) (w : World Net Host)
      → IsBytes session.session_id
      → IsWorld w
      → IsWorld (send_records p c sock rounds n session total w).1
  unfolding send_records
  send_records-Keeps sock zero n session total w id sized = sized
  send_records-Keeps sock (suc rounds) n session total w id sized = elim (Option-cases r.0) [
    | inl e ↦ rw (send_records, e) kept
    | inr (s, e) ↦
        rw (send_records, e)
          (send_records-Keeps sock rounds (n + 1) s (total + (format_reading n).1) r.1
            (subst IsBytes (sym (same s e)) id) kept)
  ]
    where
      r : Option Session × World Net Host
      r = send_record p sock session (format_reading n).0 (u16 (format_reading n).1) w

      kept : IsWorld r.1
      kept =
          send_record-Keeps p sz sock session (format_reading n).0 (u16 (format_reading n).1) id w
            sized

      same : (s : Session) → r.0 ≡ some s → s.session_id ≡ session.session_id
      same s e =
          send_record-session_id p sz sock session (format_reading n).0 (u16 (format_reading n).1) w
            (ap (λ o. (o, r.1)) e)

  module _ (st : IsStream p.sockets) (conf : IsConfig c) (rnd : HasRandom p.board)
      (ke : HasEnc p.mlkem) where
    session_id-IsBytes :
        (sock : ℤ) (suite : ℕ) (w : World Net Host) {s : Session} {w' : World Net Host}
        → IsWorld w
        → handshake p c sock suite w ≡ (some s, w')
        → IsBytes s.session_id
    session_id-IsBytes sock suite w sized e =
        let done = handshake-Completed p c suite w st sock conf sz rnd ke sized e in
        subst IsBytes (sym done.established.session_id) (
          IsBytes-take 8 (drop 32 done.v.frame)
            (IsBytes-drop 32 done.v.frame done.sized.frame_bytes))

    run_connected-Keeps :
        (sock : ℤ) (mode : Mode) (n : ℕ) (w : World Net Host)
        → IsWorld w
        → IsWorld (run_connected p c sock mode n w).1
    unfolding run_connected
    run_connected-Keeps sock mode n w sized = elim (Option-cases shaken.0) [
      | inl e ↦ rw (run_connected, e) (moved ready _ _ ready_sized)
      | inr (s, e) ↦
          let done =
            send_records-Keeps sock n 0 s 0 ready
              (session_id-IsBytes sock (suite_of mode) timed timed_sized
                (ap (λ o. (o, shaken.1)) e))
              ready_sized in
          elim (Option-cases (send_records p c sock n 0 s 0 ready).0) [
            | inl f ↦ rw (run_connected, e) (rw f (moved _ _ _ done))
            | inr (r, f) ↦ rw (run_connected, e) (rw f (moved _ _ _ done))
          ]
    ]
      where
        timed : World Net Host
        timed = record w { host = (p.board.get_time w.host).1 }

        timed_sized : IsWorld timed
        timed_sized = moved w _ _ sized

        shaken : Option Session × World Net Host
        shaken = handshake p c sock (suite_of mode) timed

        ready : World Net Host
        ready = record shaken.1 { host = (p.board.get_time shaken.1.host).1 }

        ready_sized : IsWorld ready
        ready_sized =
            moved shaken.1 _ _ (handshake-Keeps p st c sz sock (suite_of mode) timed timed_sized)

    -- With the configuration of its declared sizes and library outputs of theirs: whatever the server
    -- does and wherever the run fails, `pqc_session_run` leaves the static buffers with their sizes, so no
    -- copy went past the end of one, and bytes in `s_frame`, if it found them so.
    pub pqc_session_run-Keeps :
        (mode : Mode) (n : ℕ) (w : World Net Host)
        → IsWorld w
        → IsWorld (pqc_session_run p c mode n w).1
    unfolding pqc_session_run
    pqc_session_run-Keeps mode n w sized =
        elim (Bool-cases (is_negative (connect_to_server p.sockets c w.net).0)) [
          | inl e ↦ rw e (moved w _ _ sized)
          | inr e ↦ rw e (
              run_connected-Keeps _ mode n
                (record w { net = (connect_to_server p.sockets c w.net).1 }) (moved w _ _ sized))
        ]
