-- ===== src/Tests/Handshakes.antt =====
-- Handshakes over the small platform with a server that answers by the specification.
use pqc_esp32s3_benchmarks.Prelude.{ℕ, suc, slice, ◌≡◌, refl, true, [], pos, inr, none, some}
use pqc_esp32s3_benchmarks.Session.Layout.{Session, World, IsWorld, suite_mlkem768_fs}
use pqc_esp32s3_benchmarks.Session.Handshake.{handshake}
use pqc_esp32s3_benchmarks.Session.Handshake.Whole.{before_hello, Completed, handshake-Completed}
use pqc_esp32s3_benchmarks.Session.Handshake.Refusal.{handshake-radio_off}
use pqc_esp32s3_benchmarks.Session.Handshake.Complete.{handshake-true}
use pqc_esp32s3_benchmarks.Tests.Crypto.{
  mbedtls-HasSizes, board-HasRandom, mlkem-HasEnc, config, config-IsConfig,
}
use pqc_esp32s3_benchmarks.Tests.Server.{server_hello, answer, answer-IsBytes}
use pqc_esp32s3_benchmarks.Tests.Toy.{
  Link, stream, stream-IsLive, platform, start, start-IsWorld, enc_ok,
}
use pqc_esp32s3_benchmarks.Tests.Answers.{answered}

abbrev client : World Link ℕ
client = start (answer true) (answer-IsBytes true)

client-IsWorld : IsWorld client
client-IsWorld = start-IsWorld (answer true) (answer-IsBytes true)

-- The whole handshake in mode B.
handshake-true_example :
    (s : Session) × (w' : World Link ℕ) × (handshake
        (platform 1)
        config
        (pos 3)
        suite_mlkem768_fs
        client
      ≡ (some s, w'))
handshake-true_example =
    handshake-true (platform 1) stream stream-IsLive config (pos 3) suite_mlkem768_fs client
      config-IsConfig mbedtls-HasSizes (board-HasRandom 1) mlkem-HasEnc client-IsWorld
      (server_hello true) [] (answered true (pos 3) client refl) (enc_ok config.server_public_key 9)
      (λ _.
        enc_ok (slice 40 1184 (server_hello true))
          (suc (before_hello (platform 1) config suite_mlkem768_fs client).host))

handshake-Completed_example :
    Completed
      (platform 1)
      config
      suite_mlkem768_fs
      client
      stream
      (pos 3)
      handshake-true_example.0
      handshake-true_example.1
handshake-Completed_example =
    handshake-Completed (platform 1) config suite_mlkem768_fs client stream (pos 3) config-IsConfig
      mbedtls-HasSizes (board-HasRandom 1) mlkem-HasEnc client-IsWorld handshake-true_example.2

handshake-radio_off_example :
    handshake (platform 0) config (pos 3) suite_mlkem768_fs client
    ≡ (none, before_hello (platform 0) config suite_mlkem768_fs client)
handshake-radio_off_example =
    handshake-radio_off (platform 0) config (pos 3) suite_mlkem768_fs client mlkem-HasEnc
      (λ h. inr refl)
