-- ===== src/Session/Client/Closing.antt =====
-- The socket of `pqc_session_run`: where it comes from, and that none is left open.
use pqc_esp32s3_benchmarks.Prelude.{
  ℕ, zero, suc, ◌+◌, ◌≡◌, refl, ◌∙◌, sym, Bool, true, false, not, ◌||◌, List, [], ◌∷◌, ℤ, is_zero,
  is_negative, ltb, Bool-cases, Option-cases, inl, inr, Option, decimal, ◌⊎◌, ◌/◌, ◌%◌, ◌*◌,
  false≢true, ap,
}
use pqc_esp32s3_benchmarks.Platform.{Platform, Sockets, Tracks}
use pqc_esp32s3_benchmarks.Session.Layout.{
  Config, Session, World, Mode, frame_close, frame_data, u16, server_hello_len_fs, tag_len,
}
use pqc_esp32s3_benchmarks.Session.Connection.{connect_to_server, open_socket}
use pqc_esp32s3_benchmarks.Session.Handshake.{handshake}
use pqc_esp32s3_benchmarks.Session.Handshake.Handles.{handshake-Holds}
use pqc_esp32s3_benchmarks.Session.Frames.{write_frame}
use pqc_esp32s3_benchmarks.Session.Frames.Handles.{write_frame-keeps}
use pqc_esp32s3_benchmarks.Session.Records.{seal, send_record}
use pqc_esp32s3_benchmarks.Session.Client.{
  suite_of, run_connected, send_records, pqc_session_run, format_reading,
}

module _ {Net : Type 0} (s : Sockets Net) (tr : Tracks s) (c : Config) where
  open tr use {in_use}

  -- A socket and no other was opened; or none is left open.
  abbrev Connected : Net → ℤ × Net → Type 0
  Connected net r =
      ((is_negative r.0 ≡ true) × (in_use r.1 ≡ in_use net))
      ⊎ ((is_negative r.0 ≡ false) × (in_use r.1 ≡ r.0 ∷ in_use net))

  open_socket-Connected : (net : Net) → Connected net (open_socket s c net)
  unfolding open_socket
  open_socket-Connected net = elim (Bool-cases (is_negative made.0)) [
    | inl e ↦ rw e (inl (refl, tr.freeaddrinfo-keeps made.1 ∙ tr.socket-fails net e))
    | inr e ↦ elim (Bool-cases (is_zero joined.0)) [
      | inl f ↦ rw e (rw f (inr (e, tr.freeaddrinfo-keeps joined.1 ∙ opened e)))
      | inr f ↦ rw e (
          rw f (
            inl (
              refl,
              tr.freeaddrinfo-keeps (s.close made.0 joined.1)
                  ∙ tr.close-closes made.0 (in_use net) joined.1 (opened e),
            )))
    ]
  ]
    where
      made : ℤ × Net
      made = s.socket net

      received : Net
      received =
          s.setsockopt made.0 true (c.connect_timeout_ms / 1000)
            (c.connect_timeout_ms % 1000 * 1000) made.1

      timed : Net
      timed =
          s.setsockopt made.0 false (c.connect_timeout_ms / 1000)
            (c.connect_timeout_ms % 1000 * 1000) received

      joined : ℤ × Net
      joined = s.connect made.0 timed

      opened : is_negative made.0 ≡ false → in_use joined.1 ≡ made.0 ∷ in_use net
      opened e =
          tr.connect-keeps made.0 timed
          ∙ (tr.setsockopt-keeps made.0 false _ _ received
              ∙ (tr.setsockopt-keeps made.0 true _ _ made.1 ∙ tr.socket-opens net e))

  connect_to_server-Connected : (net : Net) → Connected net (connect_to_server s c net)
  unfolding connect_to_server
  connect_to_server-Connected net = elim (Bool-cases (not (is_zero looked.0) || not looked.1)) [
    | inl e ↦ rw e (inl (refl, kept))
    | inr e ↦ rw e (elim (open_socket-Connected looked.2) [
      | inl (n, same) ↦ inl (n, same ∙ kept)
      | inr (n, more) ↦ inr (n, more ∙ ap (λ l. (open_socket s c looked.2).0 ∷ l) kept)
    ])
  ]
    where
      looked : ℤ × Bool × Net
      looked = s.getaddrinfo c.server_host (decimal (u16 c.server_port)) net

      kept : in_use looked.2 ≡ in_use net
      kept = tr.getaddrinfo-keeps c.server_host (decimal (u16 c.server_port)) net

module _ {Net Host : Type 0} (p : Platform Net Host) (tr : Tracks p.sockets) (c : Config) where
  open tr use {in_use}

  send_record-Holds :
      (sock : ℤ) (session : Session) (plain : List ℕ) (len : ℕ) (w : World Net Host)
      → in_use (send_record p sock session plain len w).1.net ≡ in_use w.net
  unfolding send_record
  send_record-Holds sock session plain len w =
      elim (Bool-cases (ltb server_hello_len_fs (len + 10 + tag_len))) [
        | inl e ↦ rw e refl
        | inr e ↦ elim (Bool-cases sealed.0) [
          | inr f ↦ rw e (rw f refl)
          | inl f ↦ elim (Bool-cases wrote.0) [
            | inl g ↦ rw e (rw f (rw g kept))
            | inr g ↦ rw e (rw f (rw g kept))
          ]
        ]
      ]
    where
      sealed : Bool × List ℕ
      sealed = seal p.mbedtls session plain len w.frame

      wrote : Bool × Net
      wrote = write_frame p.sockets sock frame_data sealed.1 (u16 (10 + len + tag_len)) w.net

      kept : in_use wrote.1 ≡ in_use w.net
      kept =
          write_frame-keeps p.sockets tr sock frame_data sealed.1 (u16 (10 + len + tag_len)) w.net

  send_records-Holds :
      (sock : ℤ) (rounds n : ℕ) (session : Session) (total : ℕ) (w : World Net Host)
      → in_use (send_records p c sock rounds n session total w).1.net ≡ in_use w.net
  unfolding send_records
  send_records-Holds sock zero n session total w = refl
  send_records-Holds sock (suc rounds) n session total w = elim (Option-cases r.0) [
    | inl e ↦ rw (send_records, e) kept
    | inr (s, e) ↦
        rw (send_records, e)
          (send_records-Holds sock rounds (n + 1) s (total + (format_reading n).1) r.1 ∙ kept)
  ]
    where
      r : Option Session × World Net Host
      r = send_record p sock session (format_reading n).0 (u16 (format_reading n).1) w

      kept : in_use r.1.net ≡ in_use w.net
      kept = send_record-Holds sock session (format_reading n).0 (u16 (format_reading n).1) w

  run_connected-closes :
      (sock : ℤ) (others : List ℤ) (mode : Mode) (n : ℕ) (w : World Net Host)
      → in_use w.net ≡ sock ∷ others
      → in_use (run_connected p c sock mode n w).1.net ≡ others
  unfolding run_connected
  run_connected-closes sock others mode n w holding = elim (Option-cases shaken.0) [
    | inl e ↦ rw (run_connected, e) (tr.close-closes sock others shaken.1.net held)
    | inr (session, e) ↦ elim (Option-cases (sent session).0) [
      | inl f ↦
          rw (run_connected, e)
            (rw f (tr.close-closes sock others (sent session).1.net (after session)))
      | inr (done, f) ↦
          rw (run_connected, e)
            (rw f (
              tr.close-closes sock others
                (write_frame p.sockets sock frame_close [] 0 (sent session).1.net).1
                (write_frame-keeps p.sockets tr sock frame_close [] 0 (sent session).1.net
                  ∙ after session)))
    ]
  ]
    where
      timed : World Net Host
      timed = record w { host = (p.board.get_time w.host).1 }

      shaken : Option Session × World Net Host
      shaken = handshake p c sock (suite_of mode) timed

      held : in_use shaken.1.net ≡ sock ∷ others
      held = handshake-Holds p tr c sock (suite_of mode) timed ∙ holding

      ready : World Net Host
      ready = record shaken.1 { host = (p.board.get_time shaken.1.host).1 }

      sent : Session → Option (Session × ℕ) × World Net Host
      sent session = send_records p c sock n 0 session 0 ready

      after : (session : Session) → in_use (sent session).1.net ≡ sock ∷ others
      after session = send_records-Holds sock n 0 session 0 ready ∙ held

  -- With calls of which only `socket` opens sockets and `close` closes them: however `pqc_session_run` ends,
  -- in the look-up, at the socket, at the connection, in the handshake, at a record or after Close, the
  -- sockets that are open are those that were.
  pub pqc_session_run-closes :
      (mode : Mode) (n : ℕ) (w : World Net Host)
      → in_use (pqc_session_run p c mode n w).1.net ≡ in_use w.net
  unfolding pqc_session_run
  pqc_session_run-closes mode n w =
      let (sock, net') = connect_to_server p.sockets c w.net in
      elim (connect_to_server-Connected p.sockets tr c w.net) [
        | inl (e, same) ↦ rw e same
        | inr (e, more) ↦
            rw e (run_connected-closes sock (in_use w.net) mode n (record w { net = net' }) more)
      ]

module _ {Net : Type 0} (s : Sockets Net) (c : Config) (net : Net) where
  -- The network once both time-outs are set on a new socket.
  abbrev pub prepared : ℤ × Net
  prepared =
      let (rc, found, net0) = s.getaddrinfo c.server_host (decimal (u16 c.server_port)) net in
      let (sock, net1) = s.socket net0 in
      let sec = c.connect_timeout_ms / 1000 in
      let usec = c.connect_timeout_ms % 1000 * 1000 in
      (sock, s.setsockopt sock false sec usec (s.setsockopt sock true sec usec net1))

  -- If `connect_to_server` returns a socket, the address was found, the socket was made and given both
  -- time-outs, the connection succeeded, and the addresses were freed last.
  pub connect_to_server-prepared :
      is_negative (connect_to_server s c net).0 ≡ false
      → (is_zero (s.connect prepared.0 prepared.1).0 ≡ true)
        × (connect_to_server s c net
            ≡ (prepared.0, s.freeaddrinfo (s.connect prepared.0 prepared.1).1))
  unfolding connect_to_server open_socket
  connect_to_server-prepared e = elim (Bool-cases (not (is_zero looked.0) || not looked.1)) [
    | inl f ↦ absurd (false≢true (sym (rw f at e)))
    | inr f ↦ elim (Bool-cases (is_negative prepared.0)) [
      | inl g ↦ absurd (false≢true (sym (rw g at (rw f at e))))
      | inr g ↦ elim (Bool-cases (is_zero (s.connect prepared.0 prepared.1).0)) [
        | inr h ↦ absurd (false≢true (sym (rw h at (rw g at (rw f at e)))))
        | inl h ↦ (h, rw f (rw g (rw h refl)))
      ]
    ]
  ]
    where
      looked : ℤ × Bool × Net
      looked = s.getaddrinfo c.server_host (decimal (u16 c.server_port)) net
