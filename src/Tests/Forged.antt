-- ===== src/Tests/Forged.antt =====
-- Handshakes over the small platform with a server that does not know the keys.
use pqc_esp32s3_benchmarks.Prelude.{
  ℕ, suc, get_or, ◌≡◌, ◌≢◌, refl, true, List, [], ◌++◌, arith, replicate, pos, IsBytes,
  IsBytes-join, none, ◌∙◌, ap, sym, append-nil,
}
use pqc_esp32s3_benchmarks.Session.Layout.{World, suite_mlkem768_fs, frame_server_hello}
use pqc_esp32s3_benchmarks.Session.Frames.Wire.{encode_frame}
use pqc_esp32s3_benchmarks.Session.Handshake.{handshake}
use pqc_esp32s3_benchmarks.Session.Handshake.Whole.{before_hello}
use pqc_esp32s3_benchmarks.Session.Handshake.Refusal.{handshake-wrong_mac}
use pqc_esp32s3_benchmarks.Session.Handshake.Reach.{
  Offered, heard, heard-IsWorld, hello_exchange-heard,
}
use pqc_esp32s3_benchmarks.Tests.Crypto.{
  mbedtls-HasSizes, IsBytes-replicate, board-HasRandom, mlkem-HasEnc, config, config-IsConfig,
}
use pqc_esp32s3_benchmarks.Tests.Server.{server_part, server_part-IsBytes}
use pqc_esp32s3_benchmarks.Tests.Toy.{
  Link, stream, stream-IsLive, platform, start, start-IsWorld, send_hello-inbox, enc_ok,
}

-- A server that does not know the secret, and says that its MAC is all zeros.
abbrev forged_hello : List ℕ
forged_hello = server_part true ++ replicate 32 0

forged_hello-IsBytes : IsBytes (encode_frame frame_server_hello forged_hello)
forged_hello-IsBytes = (
  omega arith,
  (
    omega arith,
    (
      omega arith,
      IsBytes-join (server_part true) (replicate 32 0) (server_part-IsBytes true)
          (IsBytes-replicate 32 0 (omega arith)),
    ),
  ),
)

abbrev victim : World Link ℕ
victim = start (encode_frame frame_server_hello forged_hello) forged_hello-IsBytes

victim-Offered :
    Offered
      (platform 1)
      stream
      stream-IsLive
      config
      (pos 3)
      suite_mlkem768_fs
      victim
      forged_hello
      []
victim-Offered = record {
  next =
      send_hello-inbox 1 config (pos 3) suite_mlkem768_fs _ _
        (before_hello (platform 1) config suite_mlkem768_fs victim)
      ∙ sym (append-nil (encode_frame frame_server_hello forged_hello));
  size = refl;
}

abbrev fooled : World Link ℕ
fooled =
    heard (platform 1) stream stream-IsLive config (pos 3) suite_mlkem768_fs victim config-IsConfig
      mbedtls-HasSizes (board-HasRandom 1) mlkem-HasEnc (start-IsWorld _ forged_hello-IsBytes)
      forged_hello [] victim-Offered

zero_ne : {n : ℕ} → 0 ≢ suc n
zero_ne e = omega arith

handshake-wrong_mac_example :
    handshake (platform 1) config (pos 3) suite_mlkem768_fs victim ≡ (none, fooled)
handshake-wrong_mac_example =
    handshake-wrong_mac (platform 1) stream config (pos 3) suite_mlkem768_fs victim {a = tt}
      {v = fooled} config-IsConfig mbedtls-HasSizes (board-HasRandom 1) mlkem-HasEnc
      (heard-IsWorld (platform 1) stream stream-IsLive config (pos 3) suite_mlkem768_fs victim
        config-IsConfig mbedtls-HasSizes (board-HasRandom 1) mlkem-HasEnc
        (start-IsWorld _ forged_hello-IsBytes) forged_hello [] victim-Offered)
      (enc_ok config.server_public_key 9)
      (hello_exchange-heard (platform 1) stream stream-IsLive config (pos 3) suite_mlkem768_fs
        victim config-IsConfig mbedtls-HasSizes (board-HasRandom 1) mlkem-HasEnc
        (start-IsWorld _ forged_hello-IsBytes) forged_hello [] victim-Offered)
      (λ e. zero_ne (ap (λ l. get_or l 0 0) e))
