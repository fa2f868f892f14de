-- ===== src/Session/Connection.antt =====
-- `connect_to_server` of pqc_session.c.
use pqc_esp32s3_benchmarks.Prelude.{
  ◌*◌, ◌/◌, ◌%◌, true, false, not, ◌||◌, if◌then◌else◌, ℤ, negsuc, is_zero, is_negative, decimal,
}
use pqc_esp32s3_benchmarks.Platform.{Sockets}
use pqc_esp32s3_benchmarks.Session.Layout.{Config, u16}

module _ {Net : Type 0} (s : Sockets Net) (c : Config) where
  -- From the call of `socket` on, with the address resolved.
  unfoldable pub open_socket : Net → ℤ × Net
  open_socket net =
      let (sock, net1) = s.socket net in
      let sec = c.connect_timeout_ms / 1000 in
      let usec = c.connect_timeout_ms % 1000 * 1000 in
      let net2 = s.setsockopt sock true sec usec net1 in
      let net3 = s.setsockopt sock false sec usec net2 in
      let (rc, net4) = s.connect sock net3 in
      if is_negative sock
      then (negsuc 0, s.freeaddrinfo net1)
      else (if not (is_zero rc)
          then (negsuc 0, s.freeaddrinfo (s.close sock net4))
          else (sock, s.freeaddrinfo net4))

  -- The socket, or -1.
  unfoldable pub connect_to_server : Net → ℤ × Net
  unfolding open_socket
  connect_to_server net =
      let (rc, found, net') = s.getaddrinfo c.server_host (decimal (u16 c.server_port)) net in
      if not (is_zero rc) || not found then (negsuc 0, net') else open_socket net'
