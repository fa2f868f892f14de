-- ===== src/Session/Client/Through.antt =====
-- What a run that returned true went through.
use pqc_esp32s3_benchmarks.Prelude.{
  ℕ, ◌≡◌, refl, ◌∙◌, ap, sym, Bool, true, false, [], ℤ, is_negative, Option, none, some, Bool-cases,
  Option-cases, inl, inr,
}
use pqc_esp32s3_benchmarks.Platform.{Platform}
use pqc_esp32s3_benchmarks.Session.Layout.{Config, Session, World, Mode, frame_close}
use pqc_esp32s3_benchmarks.Session.Connection.{connect_to_server}
use pqc_esp32s3_benchmarks.Session.Frames.{write_frame}
use pqc_esp32s3_benchmarks.Session.Handshake.{handshake}
use pqc_esp32s3_benchmarks.Session.Client.{
  close_socket, suite_of, send_records, run_connected, pqc_session_run,
}

module _ {Net Host : Type 0} (p : Platform Net Host) (c : Config) where
  -- The clock read after the handshake.
  abbrev pub timed : World Net Host → World Net Host
  timed w = record w { host = (p.board.get_time w.host).1 }

  -- The Close frame, and the end of the connection.
  abbrev pub ended : ℤ → World Net Host → World Net Host
  ended sock w =
      close_socket p c sock
        (record w { net = (write_frame p.sockets sock frame_close [] 0 w.net).1 })

  -- The handshake gave a session, and the loop sent all records.
  pub record Through (sock : ℤ) (mode : Mode) (n : ℕ) (w w' : World Net Host) : Type 0 where
    pub session : Session
    pub shaken : World Net Host
    pub agreed : handshake p c sock (suite_of mode) (timed w) ≡ (some session, shaken)
    pub last : Session
    pub total : ℕ
    pub records : World Net Host
    pub sent : send_records p c sock n 0 session 0 (timed shaken) ≡ (some (last, total), records)
    pub closed : ended sock records ≡ w'

  -- How `run_connected` goes on with what the loop, and with what the handshake returned.
  after_records : ℤ → Option (Session × ℕ) × World Net Host → Bool × World Net Host
  after_records sock (none, w) = (false, close_socket p c sock w)
  after_records sock (some r, w) = (true, ended sock w)

  after_handshake : ℤ → ℕ → Option Session × World Net Host → Bool × World Net Host
  after_handshake sock n (none, w) = (false, close_socket p c sock (timed w))
  after_handshake sock n (some s, w) = after_records sock (send_records p c sock n 0 s 0 (timed w))

  run_connected_eq :
      (sock : ℤ) (mode : Mode) (n : ℕ) (w : World Net Host)
      → run_connected p c sock mode n w
        ≡ after_handshake sock n (handshake p c sock (suite_of mode) (timed w))
  unfolding run_connected after_handshake after_records
  run_connected_eq sock mode n w = elim (Option-cases shaken.0) [
    | inl g ↦ rw (run_connected, after_handshake, g)
    | inr (s, g) ↦ elim (Option-cases (sent s).0) [
      | inl h ↦ rw (run_connected, after_handshake, g) (rw (after_records, h))
      | inr (r, h) ↦ rw (run_connected, after_handshake, g) (rw (after_records, h))
    ]
  ]
    where
      shaken : Option Session × World Net Host
      shaken = handshake p c sock (suite_of mode) (timed w)

      sent : Session → Option (Session × ℕ) × World Net Host
      sent s = send_records p c sock n 0 s 0 (timed shaken.1)

  after_records-true :
      (sock : ℤ) (r : Option (Session × ℕ) × World Net Host) {w' : World Net Host}
      → after_records sock r ≡ (true, w')
      → (s : Session) × (t : ℕ) × (v : World Net Host) × (r ≡ (some (s, t), v))
        × (ended sock v ≡ w')
  unfolding after_records
  after_records-true sock (none, w) e = cc (ap (λ r. r.0) e)
  after_records-true sock (some r, w) e = (r.0, r.1, w, refl, ap (λ r. r.1) e)

  after_handshake-true :
      (sock : ℤ) (n : ℕ) (r : Option Session × World Net Host) {w' : World Net Host}
      → after_handshake sock n r ≡ (true, w')
      → (s : Session) × (v : World Net Host) × (r ≡ (some s, v))
        × (after_records sock (send_records p c sock n 0 s 0 (timed v)) ≡ (true, w'))
  unfolding after_handshake
  after_handshake-true sock n (none, w) e = cc (ap (λ r. r.0) e)
  after_handshake-true sock n (some s, w) e = (s, w, refl, e)

  pub run_connected-Through :
      (sock : ℤ) (mode : Mode) (n : ℕ) (w : World Net Host) {w' : World Net Host}
      → run_connected p c sock mode n w ≡ (true, w')
      → Through sock mode n w w'
  run_connected-Through sock mode n w e =
      let (s, v, agreed, e1) =
        after_handshake-true sock n (handshake p c sock (suite_of mode) (timed w))
          (sym (run_connected_eq sock mode n w) ∙ e) in
      let (last, total, u, sent, closed) =
        after_records-true sock (send_records p c sock n 0 s 0 (timed v)) e1 in
      record {
        session = s;
        shaken = v;
        agreed = agreed;
        last = last;
        total = total;
        records = u;
        sent = sent;
        closed = closed;
      }

  pub pqc_session_run-Through :
      (mode : Mode) (n : ℕ) (w : World Net Host) {w' : World Net Host}
      → pqc_session_run p c mode n w ≡ (true, w')
      → let (sock, net') = connect_to_server p.sockets c w.net in
        Through sock mode n (record w { net = net' }) w'
  unfolding pqc_session_run
  pqc_session_run-Through mode n w e =
      let (sock, net') = connect_to_server p.sockets c w.net in
      elim (Bool-cases (is_negative sock)) [
        | inl f ↦ cc (ap (λ r. r.0) (rw f at e))
        | inr f ↦ run_connected-Through sock mode n (record w { net = net' }) (rw f at e)
      ]
