-- ===== src/Tests/Answers.antt =====
-- What the server of the small platform sends is the specification's answer, in both modes.
use pqc_esp32s3_benchmarks.Prelude.{
  ℕ, slice, ◌≡◌, refl, Bool, true, false, [], arith, ℤ, drop-append_of_eq, take-all, take, ◌∙◌, ap,
  sym, append-nil, if◌then◌else◌,
}
use pqc_esp32s3_benchmarks.Rng.{randombytes, rf_entropy_available}
use pqc_esp32s3_benchmarks.Session.Layout.{World}
use pqc_esp32s3_benchmarks.Session.Layout.{Mode, mode_a, mode_b_forward_secrecy}
use pqc_esp32s3_benchmarks.Session.Connection.{connect_to_server, open_socket}
use pqc_esp32s3_benchmarks.Session.Client.{suite_of}
use pqc_esp32s3_benchmarks.Session.Client.Live.{Served}
use pqc_esp32s3_benchmarks.Session.Spec
use pqc_esp32s3_benchmarks.Session.Spec.{Transcript}
use pqc_esp32s3_benchmarks.Session.Handshake.Transcript.{transcript_from}
use pqc_esp32s3_benchmarks.Session.Handshake.Whole.{before_hello}
use pqc_esp32s3_benchmarks.Session.Handshake.Complete.{Answered}
use pqc_esp32s3_benchmarks.Tests.Crypto.{mbedtls, config}
use pqc_esp32s3_benchmarks.Tests.Server.{
  suite, server_part, nonce, secret, hello, server_mac, server_mac-size, server_hello, answer,
}
use pqc_esp32s3_benchmarks.Tests.Toy.{
  has_seen, Link, stream, stream-IsLive, platform, send_hello-inbox,
}

-- The MAC behind the fields has no part in the transcript.
server_mac_eq :
    (fs : Bool) (h : ℕ)
    → Spec.server_mac mbedtls
        (transcript_from (platform 1) fs config nonce secret (hello fs) (server_hello fs) h)
      ≡ server_mac fs
server_mac_eq true h = refl
server_mac_eq false h = refl

mac_slice : (fs : Bool) → slice (if fs then 1224 else 40) 32 (server_hello fs) ≡ server_mac fs
mac_slice true =
    ap (take 32) (drop-append_of_eq 1224 (server_part true) (server_mac true) refl)
    ∙ take-all 32 (server_mac true) (omega (arith, server_mac-size true))
mac_slice false =
    ap (take 32) (drop-append_of_eq 40 (server_part false) (server_mac false) refl)
    ∙ take-all 32 (server_mac false) (omega (arith, server_mac-size false))

-- Whatever the client did before, an answer that is on its way is the specification's.
pub answered :
    (fs : Bool) (k : ℤ) (w : World Link ℕ)
    → w.net.inbox ≡ answer fs
    → Answered (platform 1) stream stream-IsLive config k (suite fs) w (server_hello fs) []
unfolding randombytes rf_entropy_available
answered true k w e = record {
  offer = record {
    next =
        send_hello-inbox 1 config k (suite true) _ _
          (before_hello (platform 1) config (suite true) w)
        ∙ (e ∙ sym (append-nil (answer true)));
    size = refl;
  };
  mac = mac_slice true ∙ sym (server_mac_eq true 0);
}
answered false k w e = record {
  offer = record {
    next =
        send_hello-inbox 1 config k (suite false) _ _
          (before_hello (platform 1) config (suite false) w)
        ∙ (e ∙ sym (append-nil (answer false)));
    size = refl;
  };
  mac = mac_slice false ∙ sym (server_mac_eq false 0);
}

abbrev pub fs_of : Mode → Bool
fs_of mode_a = false
fs_of mode_b_forward_secrecy = true

-- A client in the mode that the server expects is served.
pub served :
    (mode : Mode) (w : World Link ℕ)
    → has_seen w.net.sent ≡ fs_of mode
    → Served (platform 1) config mode w stream stream-IsLive (server_hello (fs_of mode)) []
unfolding connect_to_server open_socket suite_of randombytes rf_entropy_available
served mode_a w e = record {
  is_connected = refl;
  answer = answered false _ _ (ap answer e);
  encapsulates = refl;
  encapsulates_again = λ q. refl;
}
served mode_b_forward_secrecy w e = record {
  is_connected = refl;
  answer = answered true _ _ (ap answer e);
  encapsulates = refl;
  encapsulates_again = λ q. refl;
}
