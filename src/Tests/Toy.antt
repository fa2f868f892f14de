-- ===== src/Tests/Toy.antt =====
-- A small platform to run the client on: a link that moves at most 400 bytes a call, with a server at its
-- other end.
use pqc_esp32s3_benchmarks.Prelude.{
  ℕ, zero, suc, ◌≡◌, refl, ◌∙◌, Bool, true, false, List, [], ◌∷◌, ◌++◌, arith, length, take, drop,
  replicate, length-take, take-append-drop, ℤ, pos, is_zero, min, IsBytes, IsBytes-drop, Bool-cases,
  inl, inr, ◌==◌,
}
use pqc_esp32s3_benchmarks.Platform.{Sockets, Platform, IsStream, IsLive}
use pqc_esp32s3_benchmarks.Session.Layout.{
  Config, World, IsWorld, frame_client_hello, client_hello_len,
}
use pqc_esp32s3_benchmarks.Session.Frames.{send_from, send_all, frame_head, write_frame}
use pqc_esp32s3_benchmarks.Session.Handshake.{fill_hello, send_hello, random_source}
use pqc_esp32s3_benchmarks.Rng.{randombytes, rf_entropy_available}
use pqc_esp32s3_benchmarks.Tests.Crypto.{mbedtls, IsBytes-replicate, board, mlkem}
use pqc_esp32s3_benchmarks.Tests.Server.{answer, answer-IsBytes}

-- What was sent, and what is on its way to the client.
pub record Link : Type 0 where
  pub sent : List ℕ
  pub inbox : List ℕ
  pub inbox-IsBytes : IsBytes inbox

-- The server takes the first connection for one in mode A and any later one for one in mode B.
abbrev pub has_seen : List ℕ → Bool
has_seen [] = false
has_seen (x ∷ xs) = true

abbrev pub sockets : Sockets Link
sockets = record {
  send = λ k b net.
      (pos (min 400 (length b)), record net { sent = net.sent ++ take (min 400 (length b)) b });
  recv = λ k n net.
      let taken = take (min 400 n) net.inbox in
      (
        pos (length taken),
        taken,
        record net {
          inbox = drop (min 400 n) net.inbox;
          inbox-IsBytes = IsBytes-drop (min 400 n) net.inbox net.inbox-IsBytes;
        },
      );
  getaddrinfo = λ host port net. (pos 0, true, net);
  freeaddrinfo = λ net. net;
  socket = λ net. (pos 3, net);
  setsockopt = λ k rcv sec usec net. net;
  connect = λ k net. (
    pos 0,
    record net {
      inbox = answer (has_seen net.sent);
      inbox-IsBytes = answer-IsBytes (has_seen net.sent);
    },
  );
  close = λ k net. net;
}

abbrev pub stream : IsStream sockets
stream = record {
  sent = λ k net. net.sent;
  pending = λ k net. net.inbox;
  send-sent = λ k b net. refl;
  recv-sent = λ k n net. refl;
  recv-pending = λ k n net. take-append-drop (min 400 n) net.inbox;
  recv-count = λ k n net. refl;
  pending-IsBytes = λ k net. net.inbox-IsBytes;
  recv-capacity = λ k n net. omega (arith, length-take (min 400 n) net.inbox);
}

pub stream-IsLive : IsLive sockets stream
stream-IsLive = record {
  send_progress = λ k b net h. omega arith;
  recv_progress = λ k n net h h'. omega (arith, length-take (min 400 n) net.inbox);
}

abbrev pub platform : ℕ → Platform Link ℕ
platform mode = record { sockets = sockets; board = board mode; mbedtls = mbedtls; mlkem = mlkem }

abbrev pub link : (inbox : List ℕ) → IsBytes inbox → Link
link inbox bytes = record { sent = []; inbox = inbox; inbox-IsBytes = bytes }

abbrev pub start : (inbox : List ℕ) → IsBytes inbox → World Link ℕ
start inbox bytes = record {
  net = link inbox bytes;
  host = 7;
  hello = replicate 1166 0;
  frame = replicate 1256 0;
  out = replicate 1120 0;
}

pub start-IsWorld : (inbox : List ℕ) (bytes : IsBytes inbox) → IsWorld (start inbox bytes)
start-IsWorld inbox bytes = record {
  hello_size = refl;
  frame_bytes = IsBytes-replicate 1256 0 (omega arith);
  frame_size = refl;
  out_size = refl;
}

-- Nothing that is sent changes what is on its way.
send_from-inbox :
    (f : ℕ) (k : ℤ) (b : List ℕ) (net : Link) → (send_from sockets f k b net).1.inbox ≡ net.inbox
unfolding send_from
send_from-inbox f k [] net = refl
send_from-inbox zero k (x ∷ xs) net = refl
send_from-inbox (suc f) k (x ∷ xs) net =
    let n = min 400 (suc (length xs)) in
    elim (Bool-cases (n == 0)) [
      | inl e ↦ absurd (ground arith)
      | inr e ↦ rw e (
          send_from-inbox f k (drop n (x ∷ xs)) (record net { sent = net.sent ++ take n (x ∷ xs) }))
    ]

write_frame-inbox :
    (k : ℤ) (type : ℕ) (b : List ℕ) (len : ℕ) (net : Link)
    → (write_frame sockets k type b len net).1.inbox ≡ net.inbox
unfolding write_frame send_all
write_frame-inbox k type b len net =
    let head = send_from sockets 3 k (frame_head type len) net in
    let first = send_from-inbox 3 k (frame_head type len) net in
    elim (Bool-cases head.0) [
      | inl e ↦ rw e (send_from-inbox (length (take len b)) k (take len b) head.1 ∙ first)
      | inr e ↦ rw e first
    ]

pub send_hello-inbox :
    (mode : ℕ) (c : Config) (k : ℤ) (suite : ℕ) (nonce ct : List ℕ) (w : World Link ℕ)
    → (send_hello (platform mode) c k suite nonce ct w).1.net.inbox ≡ w.net.inbox
unfolding send_hello
send_hello-inbox mode c k suite nonce ct w =
    let filled = fill_hello mbedtls c suite nonce ct w.hello in
    let sent = write_frame sockets k frame_client_hello filled.buf client_hello_len w.net in
    let quiet = write_frame-inbox k frame_client_hello filled.buf client_hello_len w.net in
    elim (Bool-cases (filled.at == client_hello_len)) [
      | inr e ↦ rw e refl
      | inl e ↦ elim (Bool-cases sent.0) [
        | inl ok ↦ rw e (rw ok quiet)
        | inr ok ↦ rw e (rw ok quiet)
      ]
    ]

-- With the radio up every encapsulation succeeds.
pub enc_ok : (ek : List ℕ) (h : ℕ) → is_zero (mlkem.enc (random_source (platform 1)) ek h).0 ≡ true
unfolding randombytes rf_entropy_available
enc_ok ek h = refl
