-- ===== src/Tests/Server.antt =====
-- A server that answers the small platform's client by the specification, in both modes.
use pqc_esp32s3_benchmarks.Prelude.{
  ℕ, ◌<◌, slice, ◌≡◌, refl, Bool, true, false, List, [], ◌++◌, arith, length, replicate, IsBytes,
  IsBytes-join, if◌then◌else◌,
}
use pqc_esp32s3_benchmarks.Session.Layout.{
  suite_mlkem768, suite_mlkem768_fs, frame_server_hello, label_srv_confirm,
}
use pqc_esp32s3_benchmarks.Session.Spec
use pqc_esp32s3_benchmarks.Session.Spec.{Transcript}
use pqc_esp32s3_benchmarks.Session.Frames.Wire.{encode_frame}
use pqc_esp32s3_benchmarks.Tests.Crypto.{
  checksum, mbedtls, mbedtls-HasSizes, IsBytes-replicate, config,
}

abbrev pub suite : Bool → ℕ
suite fs = if fs then suite_mlkem768_fs else suite_mlkem768

-- The server's nonce, session id and in mode B ephemeral key.
abbrev pub server_part : Bool → List ℕ
server_part true = replicate 32 5 ++ (replicate 8 6 ++ replicate 1184 9)
server_part false = replicate 32 5 ++ replicate 8 6

-- What the client draws and sends.
abbrev pub nonce : List ℕ
nonce = replicate 32 7

abbrev pub secret : List ℕ
secret = replicate 32 (checksum (nonce ++ config.server_public_key))

abbrev pub hello : Bool → List ℕ
hello fs = Spec.client_hello mbedtls config (suite fs) nonce (replicate 1088 (checksum nonce))

-- The server's view up to its MAC, where it has no ephemeral secret yet.
abbrev pub transcript : Bool → List ℕ → Transcript
transcript fs frame = record {
  forward_secrecy = fs;
  client_hello = hello fs;
  client_nonce = nonce;
  server_nonce = slice 0 32 frame;
  session_id = slice 32 8 frame;
  ss = secret;
  psk = config.device_psk;
  ek_eph = slice 40 1184 frame;
  ct_eph = [];
  ss_eph = [];
}

abbrev pub server_mac : Bool → List ℕ
server_mac fs = Spec.server_mac mbedtls (transcript fs (server_part fs))

abbrev pub server_hello : Bool → List ℕ
server_hello fs = server_part fs ++ server_mac fs

pub server_part-IsBytes : (fs : Bool) → IsBytes (server_part fs)
server_part-IsBytes true =
    IsBytes-join (replicate 32 5) (replicate 8 6 ++ replicate 1184 9)
      (IsBytes-replicate 32 5 (omega arith))
      (IsBytes-join (replicate 8 6) (replicate 1184 9) (IsBytes-replicate 8 6 (omega arith))
        (IsBytes-replicate 1184 9 (omega arith)))
server_part-IsBytes false =
    IsBytes-join (replicate 32 5) (replicate 8 6) (IsBytes-replicate 32 5 (omega arith))
      (IsBytes-replicate 8 6 (omega arith))

abbrev confirm_key : Bool → List ℕ
confirm_key fs =
    Spec.expand mbedtls (Spec.prk1 mbedtls (transcript fs (server_part fs))) label_srv_confirm
      (Spec.th2 mbedtls (transcript fs (server_part fs)))

pub server_hello-IsBytes : (fs : Bool) → IsBytes (server_hello fs)
server_hello-IsBytes fs = IsBytes-join (server_part fs) (server_mac fs) (server_part-IsBytes fs) (
    mbedtls-HasSizes.hmac-IsBytes (confirm_key fs)
      (Spec.th2 mbedtls (transcript fs (server_part fs))))

pub server_mac-size : (fs : Bool) → length (server_mac fs) ≡ 32
server_mac-size fs =
    mbedtls-HasSizes.length-hmac (confirm_key fs)
      (Spec.th2 mbedtls (transcript fs (server_part fs)))

frame-IsBytes :
    (payload : List ℕ)
    → length payload < 65536
    → IsBytes payload
    → IsBytes (encode_frame frame_server_hello payload)
frame-IsBytes payload h b = (omega arith, (omega arith, (omega arith, b)))

-- What the server sends.
abbrev pub answer : Bool → List ℕ
answer fs = encode_frame frame_server_hello (server_hello fs)

server_hello-size : (fs : Bool) → length (server_hello fs) ≡ (if fs then 1256 else 72)
server_hello-size true = refl
server_hello-size false = refl

pub answer-IsBytes : (fs : Bool) → IsBytes (answer fs)
answer-IsBytes true =
    frame-IsBytes (server_hello true) (omega (arith, server_hello-size true))
      (server_hello-IsBytes true)
answer-IsBytes false =
    frame-IsBytes (server_hello false) (omega (arith, server_hello-size false))
      (server_hello-IsBytes false)
