-- ===== src/Tests/Runs.antt =====
-- Whole runs of the client over the small platform.
use pqc_esp32s3_benchmarks.Prelude.{ℕ, ◌≡◌, refl, true, [], ◌∷◌, arith, ap}
use pqc_esp32s3_benchmarks.Platform.{IsQuiet, Encrypts}
use pqc_esp32s3_benchmarks.Session.Layout.{Session, World, IsWorld, mode_a, mode_b_forward_secrecy}
use pqc_esp32s3_benchmarks.Session.Client.{pqc_session_run}
use pqc_esp32s3_benchmarks.Session.Handshake.Said.{Said}
use pqc_esp32s3_benchmarks.Session.Client.Keeps.{moved, pqc_session_run-Keeps}
use pqc_esp32s3_benchmarks.Session.Client.Live.{pqc_session_run-true}
use pqc_esp32s3_benchmarks.Session.Client.Whole.{Ran, pqc_session_run-Ran}
use pqc_esp32s3_benchmarks.Tests.Crypto.{
  mbedtls, mbedtls-HasSizes, board-HasRandom, mlkem-HasEnc, config, config-IsConfig,
}
use pqc_esp32s3_benchmarks.Tests.Server.{server_hello}
use pqc_esp32s3_benchmarks.Tests.Toy.{
  link, Link, sockets, stream, stream-IsLive, platform, start, start-IsWorld,
}
use pqc_esp32s3_benchmarks.Tests.Answers.{served}

pub stream-IsQuiet : IsQuiet sockets stream
stream-IsQuiet = record {
  getaddrinfo-sent = λ k host port net. refl;
  freeaddrinfo-sent = λ k net. refl;
  socket-sent = λ k net. refl;
  setsockopt-sent = λ k j rcv sec usec net. refl;
  connect-sent = λ k j net. refl;
  close-sent = λ k j net. refl;
}

pub mbedtls-Encrypts : Encrypts mbedtls
mbedtls-Encrypts = record { accepts_key = λ k. refl; encrypts = λ k n a b. refl }

-- A client that has sent a byte before.
abbrev fresh : World Link ℕ
fresh = record (start [] tt) { net = record (link [] tt) { sent = 0 ∷ [] } }

fresh-IsWorld : IsWorld fresh
fresh-IsWorld = moved (start [] tt) _ _ (start-IsWorld [] tt)

pqc_session_run-true_example :
    (pqc_session_run (platform 1) config mode_b_forward_secrecy 3 fresh).0 ≡ true
pqc_session_run-true_example =
    pqc_session_run-true (platform 1) config mode_b_forward_secrecy fresh stream stream-IsLive
      config-IsConfig mbedtls-HasSizes mbedtls-Encrypts (board-HasRandom 1) mlkem-HasEnc
      fresh-IsWorld 3 (server_hello true) [] (omega arith)
      (served mode_b_forward_secrecy fresh refl)

pqc_session_run-Ran_example :
    Ran
      (platform 1)
      config
      mode_b_forward_secrecy
      fresh
      stream
      3
      (pqc_session_run (platform 1) config mode_b_forward_secrecy 3 fresh).1
pqc_session_run-Ran_example =
    pqc_session_run-Ran (platform 1) config mode_b_forward_secrecy fresh stream stream-IsQuiet
      config-IsConfig mbedtls-HasSizes (board-HasRandom 1) mlkem-HasEnc fresh-IsWorld 3
      (omega arith)
      (ap (λ b. (b, (pqc_session_run (platform 1) config mode_b_forward_secrecy 3 fresh).1))
        pqc_session_run-true_example)

-- This client, on a new link, runs in mode A.
pqc_session_run-Keeps_example :
    IsWorld (pqc_session_run (platform 1) config mode_a 3 (start [] tt)).1
pqc_session_run-Keeps_example =
    pqc_session_run-Keeps (platform 1) config mbedtls-HasSizes stream config-IsConfig
      (board-HasRandom 1) mlkem-HasEnc mode_a 3 (start [] tt) (start-IsWorld [] tt)
