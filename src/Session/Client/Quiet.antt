-- ===== src/Session/Client/Quiet.antt =====
-- What `connect_to_server` and the Close frame of `pqc_session_run` send.
use pqc_esp32s3_benchmarks.Prelude.{
  ℕ, ◌*◌, ◌/◌, ◌%◌, ◌≡◌, ◌∙◌, Bool, true, false, not, ◌||◌, [], ◌++◌, take, ℤ, is_zero, is_negative,
  Bool-cases, inl, inr, decimal,
}
use pqc_esp32s3_benchmarks.Platform.{Sockets, IsStream, IsQuiet}
use pqc_esp32s3_benchmarks.Session.Layout.{Config, frame_close, u16}
use pqc_esp32s3_benchmarks.Session.Connection.{connect_to_server, open_socket}
use pqc_esp32s3_benchmarks.Session.Frames.{send_from, send_all, frame_head, write_frame}
use pqc_esp32s3_benchmarks.Session.Frames.Loops.{send_all-Sends}
use pqc_esp32s3_benchmarks.Session.Frames.Wire.{encode_frame}

module _ {Net : Type 0} (s : Sockets Net) (st : IsStream s) (q : IsQuiet s st) (c : Config)
    (k : ℤ) where
  open_socket-sent : (net : Net) → st.sent k (open_socket s c net).1 ≡ st.sent k net
  unfolding open_socket
  open_socket-sent net = elim (Bool-cases (is_negative made.0)) [
    | inl e ↦ rw e (q.freeaddrinfo-sent k made.1 ∙ q.socket-sent k net)
    | inr e ↦ elim (Bool-cases (is_zero joined.0)) [
      | inl f ↦ rw e (rw f (q.freeaddrinfo-sent k joined.1 ∙ opened))
      | inr f ↦ rw e (
          rw f (
            q.freeaddrinfo-sent k (s.close made.0 joined.1)
            ∙ (q.close-sent k made.0 joined.1 ∙ opened)))
    ]
  ]
    where
      made : ℤ × Net
      made = s.socket net

      joined : ℤ × Net
      joined =
          let sec = c.connect_timeout_ms / 1000 in
          let usec = c.connect_timeout_ms % 1000 * 1000 in
          s.connect made.0
            (s.setsockopt made.0 false sec usec (s.setsockopt made.0 true sec usec made.1))

      opened : st.sent k joined.1 ≡ st.sent k net
      opened =
          let sec = c.connect_timeout_ms / 1000 in
          let usec = c.connect_timeout_ms % 1000 * 1000 in
          let first = s.setsockopt made.0 true sec usec made.1 in
          q.connect-sent k made.0 (s.setsockopt made.0 false sec usec first)
          ∙ (q.setsockopt-sent k made.0 false sec usec first
              ∙ (q.setsockopt-sent k made.0 true sec usec made.1 ∙ q.socket-sent k net))

  pub connect_to_server-sent : (net : Net) → st.sent k (connect_to_server s c net).1 ≡ st.sent k net
  unfolding connect_to_server
  connect_to_server-sent net = elim (Bool-cases (not (is_zero looked.0) || not looked.1)) [
    | inl e ↦ rw e (q.getaddrinfo-sent k c.server_host (decimal (u16 c.server_port)) net)
    | inr e ↦ rw e (
        open_socket-sent looked.2
        ∙ q.getaddrinfo-sent k c.server_host (decimal (u16 c.server_port)) net)
  ]
    where
      looked : ℤ × Bool × Net
      looked = s.getaddrinfo c.server_host (decimal (u16 c.server_port)) net

  -- The Close frame, as far as it goes out: `write_frame`'s result is not looked at.
  pub close-sent_lem :
      (net : Net)
      → (count : ℕ) × (st.sent k (write_frame s k frame_close [] 0 net).1
          ≡ st.sent k net ++ take count (encode_frame frame_close []))
  unfolding write_frame send_all send_from
  close-sent_lem net =
      let head = send_all-Sends s st k (frame_head frame_close 0) net in
      elim (Bool-cases (send_all s k (frame_head frame_close 0) net).0) [
        | inl e ↦ (head.count, rw e head.moved)
        | inr e ↦ (head.count, rw e head.moved)
      ]
