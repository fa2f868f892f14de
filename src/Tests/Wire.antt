-- ===== src/Tests/Wire.antt =====
-- Frames and records over the small platform.
use pqc_esp32s3_benchmarks.Prelude.{
  ℕ, ◌≡◌, ◌≢◌, ◌↔◌, ◌⊎◌, refl, true, false, List, [], ◌∷◌, ℤ, ap, false≢true, arith, length, drop,
  replicate, pos, negsuc, if◌then◌else◌, ◌==◌, count_of, ◌-◌, decimal, decimal_fuel, is_zero,
}
use pqc_esp32s3_benchmarks.Platform.{Sockets, Tracks, Platform}
use pqc_esp32s3_benchmarks.Rng.{randombytes, wifi_mode_null}
use pqc_esp32s3_benchmarks.Rng.Gate.{randombytes_gate}
use pqc_esp32s3_benchmarks.Session.Layout.{Session, World, frame_data, client_hello_len}
use pqc_esp32s3_benchmarks.Session.Spec
use pqc_esp32s3_benchmarks.Session.Compare.{ct_equal, ct_equal_iff}
use pqc_esp32s3_benchmarks.Session.Frames.{send_from, send_all, recv_all, write_frame, read_frame}
use pqc_esp32s3_benchmarks.Session.Frames.Loops.{send_all_loop, recv_all-Gets, Gets}
use pqc_esp32s3_benchmarks.Session.Frames.Rounds.{recv_all_loop, behind}
use pqc_esp32s3_benchmarks.Session.Frames.Wire.{
  encode_frame, write_frame-sent, write_frame-true, read_frame-encode, read_frame-Accepted,
  Accepted,
}
use pqc_esp32s3_benchmarks.Session.Handshake.{fill_hello}
use pqc_esp32s3_benchmarks.Session.Handshake.Hello.{fill_hello-client_hello}
use pqc_esp32s3_benchmarks.Session.Records.{seq_loop, seal, send_record}
use pqc_esp32s3_benchmarks.Session.Records.Nonces.{nonce_of-injective}
use pqc_esp32s3_benchmarks.Session.Records.Wire.{RecordSent, send_record-RecordSent}
use pqc_esp32s3_benchmarks.Session.Client.{reading, send_records}
use pqc_esp32s3_benchmarks.Session.Client.Sequence.{AllSent, send_records-AllSent}
use pqc_esp32s3_benchmarks.Session.Layout.{mode_a}
use pqc_esp32s3_benchmarks.Session.Client.{pqc_session_run}
use pqc_esp32s3_benchmarks.Session.Client.Closing.{pqc_session_run-closes}
use pqc_esp32s3_benchmarks.Tests.Crypto.{mbedtls, mbedtls-HasSizes, board, config, config-IsConfig}
use pqc_esp32s3_benchmarks.Tests.Toy.{Link, sockets, stream, stream-IsLive, platform, link, start}

-- A frame of three bytes, and one byte of the next.
abbrev two_frames : Link
two_frames = link (0x10 ∷ 0 ∷ 3 ∷ 7 ∷ 8 ∷ 9 ∷ 0x7f ∷ []) (
  omega arith,
  (omega arith, (omega arith, (omega arith, (omega arith, (omega arith, (omega arith, tt)))))),
)

read_frame-encode_example :
    let r = read_frame sockets (pos 3) 16 two_frames in
    (r.ok ≡ true)
    × (r.type ≡ frame_data)
    × (r.len ≡ 3)
    × (r.bytes ≡ 7 ∷ 8 ∷ 9 ∷ [])
    × (r.after.inbox ≡ 0x7f ∷ [])
    × (r.after.sent ≡ [])
read_frame-encode_example =
    read_frame-encode sockets stream stream-IsLive (pos 3) frame_data 16 (7 ∷ 8 ∷ 9 ∷ [])
      (0x7f ∷ []) two_frames (omega arith) (omega arith) refl

read_frame-Accepted_example :
    Accepted sockets stream (pos 3) 16 two_frames (read_frame sockets (pos 3) 16 two_frames)
read_frame-Accepted_example =
    read_frame-Accepted sockets stream (pos 3) 16 two_frames two_frames.inbox-IsBytes
      read_frame-encode_example.0

recv_all-Gets_example :
    Gets sockets stream (pos 3) 4 [] two_frames (recv_all sockets (pos 3) 4 two_frames)
recv_all-Gets_example = recv_all-Gets sockets stream (pos 3) 4 two_frames

write_frame-sent_example :
    (write_frame sockets (pos 3) frame_data (7 ∷ 8 ∷ 9 ∷ []) 2 two_frames).1.sent
    ≡ encode_frame frame_data (7 ∷ 8 ∷ [])
write_frame-sent_example =
    write_frame-sent sockets stream (pos 3) frame_data (7 ∷ 8 ∷ 9 ∷ []) 2 two_frames (omega arith)
      (omega arith)
      (write_frame-true sockets stream stream-IsLive (pos 3) frame_data (7 ∷ 8 ∷ 9 ∷ []) 2
        two_frames)

send_all_loop_example : send_all sockets (pos 3) (7 ∷ 8 ∷ []) two_frames ≡ (
    let (n, net') = sockets.send (pos 3) (7 ∷ 8 ∷ []) two_frames in
    if count_of n == 0
    then (false, net')
    else send_all sockets (pos 3) (drop (count_of n) (7 ∷ 8 ∷ [])) net')
send_all_loop_example = send_all_loop sockets (pos 3) 7 (8 ∷ []) two_frames

recv_all_loop_example : recv_all sockets (pos 3) 4 two_frames ≡ (
    let (n, chunk, net') = sockets.recv (pos 3) 4 two_frames in
    if count_of n == 0
    then (false, [], net')
    else behind sockets chunk (recv_all sockets (pos 3) (4 - count_of n) net'))
recv_all_loop_example = recv_all_loop sockets (pos 3) 3 two_frames

ct_equal_iff_example :
    (ct_equal (1 ∷ 2 ∷ []) (1 ∷ 3 ∷ []) 2 ≡ true) ↔ (◌≡◌ {A = List ℕ} (1 ∷ 2 ∷ []) (1 ∷ 3 ∷ []))
ct_equal_iff_example =
    ct_equal_iff 2 (1 ∷ 2 ∷ []) (1 ∷ 3 ∷ []) (omega arith, (omega arith, tt))
      (omega arith, (omega arith, tt)) refl refl

nonce_of-injective_example : ◌≡◌ {A = ℕ} 5 5
nonce_of-injective_example = nonce_of-injective 5 5 (omega arith) (omega arith) refl

randombytes_gate_example :
    let b = board 0 in
    ((true ≡ true)
      × (is_zero (b.wifi_get_mode 7).0 ≡ true)
      × ((b.wifi_get_mode 7).1 ≢ wifi_mode_null)
      × (randombytes b true 16 7 ≡ (pos 0, (b.fill_random 16 7).0, (b.fill_random 16 7).1)))
    ⊎ (((true ≡ false)
          ⊎ (is_zero (b.wifi_get_mode 7).0 ≡ false)
          ⊎ ((b.wifi_get_mode 7).1 ≡ wifi_mode_null))
        × (randombytes b true 16 7 ≡ (negsuc 0, [], 7)))
randombytes_gate_example = randombytes_gate (board 0) true 16 7

abbrev session : Session
session = record {
  session_id = replicate 8 6;
  c2s = replicate 32 4;
  send_seq = 256;
  encap_us = pos 1;
  eph_encap_us = pos 0;
  forward_secrecy = false;
  handshake_bytes = 1279;
}

abbrev idle : World Link ℕ
idle = start [] tt

abbrev payload : List ℕ
payload = 1 ∷ 2 ∷ 3 ∷ []

send_record-RecordSent_example :
    RecordSent
      (platform 1)
      stream
      (pos 3)
      session
      (1 ∷ 2 ∷ [])
      idle
      (record session { send_seq = 257 })
      (send_record (platform 1) (pos 3) session payload 2 idle).1
unfolding send_record seal seq_loop write_frame send_all send_from
send_record-RecordSent_example =
    send_record-RecordSent (platform 1) stream mbedtls-HasSizes (pos 3) session refl payload 2 idle
      refl (omega arith) refl

send_records-AllSent_example :
    AllSent
      (platform 1)
      stream
      (pos 3)
      2
      0
      session
      idle
      (record session { send_seq = 258 })
      (send_records (platform 1) config (pos 3) 2 0 session 0 idle).1
unfolding send_records send_record seal seq_loop write_frame send_all send_from reading decimal
    decimal_fuel
send_records-AllSent_example =
    send_records-AllSent (platform 1) stream mbedtls-HasSizes config (pos 3) 2 0 session 0 idle
      {t = 72} refl refl (omega arith) refl

fill_hello-client_hello_example :
    let filled =
      fill_hello mbedtls config 0x11 (replicate 32 1) (replicate 1088 2) (replicate 1166 0) in
    (filled.buf ≡ Spec.client_hello mbedtls config 0x11 (replicate 32 1) (replicate 1088 2))
    × (filled.at ≡ client_hello_len)
    × (length filled.buf ≡ client_hello_len)
fill_hello-client_hello_example =
    fill_hello-client_hello mbedtls config config-IsConfig 0x11 (replicate 32 1) (replicate 1088 2)
      (replicate 1166 0) refl refl refl mbedtls-HasSizes

-- Sockets that are counted, on a line that breaks off: the state is those that are open.
abbrev desk : Sockets (List ℤ)
desk = record {
  send = λ k b net. (pos (length b), net);
  recv = λ k n net. (negsuc 0, [], net);
  getaddrinfo = λ host port net. (pos 0, true, net);
  freeaddrinfo = λ net. net;
  socket = λ net. (pos 3, pos 3 ∷ net);
  setsockopt = λ k rcv sec usec net. net;
  connect = λ k net. (pos 0, net);
  close = λ k net. drop 1 net;
}

desk-Tracks : Tracks desk
desk-Tracks = record {
  in_use = λ net. net;
  socket-opens = λ net e. refl;
  socket-fails = λ net e. absurd (false≢true e);
  close-closes = λ k others net e. ap (drop 1) e;
  getaddrinfo-keeps = λ host port net. refl;
  freeaddrinfo-keeps = λ net. refl;
  setsockopt-keeps = λ k rcv sec usec net. refl;
  connect-keeps = λ k net. refl;
  send-keeps = λ k b net. refl;
  recv-keeps = λ k n net. refl;
}

abbrev desk_platform : Platform (List ℤ) ℕ
desk_platform = record {
  sockets = desk;
  board = board 1;
  mbedtls = mbedtls;
  mlkem = (platform 1).mlkem;
}

abbrev desk_world : World (List ℤ) ℕ
desk_world = record {
  net = pos 9 ∷ [];
  host = 0;
  hello = idle.hello;
  frame = idle.frame;
  out = idle.out;
}

pqc_session_run-closes_example :
    ◌≡◌ {A = List ℤ} (pqc_session_run desk_platform config mode_a 3 desk_world).1.net (pos 9 ∷ [])
unfolding desk-Tracks
pqc_session_run-closes_example =
    pqc_session_run-closes desk_platform desk-Tracks config mode_a 3 desk_world
