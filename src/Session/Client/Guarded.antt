-- ===== src/Session/Client/Guarded.antt =====
-- What a run sends where the handshake does not complete.
use pqc_esp32s3_benchmarks.Prelude.{Option}
use pqc_esp32s3_benchmarks.Platform.{Platform, HasSizes, HasRandom, HasEnc, IsStream, IsQuiet}
use pqc_esp32s3_benchmarks.Session.Layout.{Config, IsConfig, Session, World, IsWorld, Mode}
use pqc_esp32s3_benchmarks.Session.Handshake.{handshake}
use pqc_esp32s3_benchmarks.Session.Handshake.Said.{Said}
use pqc_esp32s3_benchmarks.Session.Client.{suite_of}
use pqc_esp32s3_benchmarks.Session.Client.Live.{connected, socket_of}

module _ {Net Host : Type 0} (p : Platform Net Host) (c : Config) (mode : Mode) (w : World Net Host)
    (st : IsStream p.sockets) (q : IsQuiet p.sockets st) (conf : IsConfig c)
    (sz : HasSizes p.mbedtls) (rnd : HasRandom p.board) (ke : HasEnc p.mlkem)
    (sized : IsWorld w) where
  abbrev shaken : Option Session × World Net Host
  shaken = handshake p c (socket_of p c mode w) (suite_of mode) (connected p c mode w)
