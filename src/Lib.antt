-- ===== src/Lib.antt =====
-- The firmware of the PQC-IoT-1 device: an ESP32-S3 that reports readings to a server over a channel
-- keyed by ML-KEM-768 and a pre-shared key.
--
-- The client, firmware/esp32s3-dut/main/pqc_session.c, connects over TCP, exchanges ClientHello and
-- ServerHello, checks the server's MAC, encapsulates to an ephemeral key in mode B, confirms, and sends
-- readings as AES-256-GCM records; docs/protocol.md specifies it. Its randomness comes through
-- firmware/esp32s3-dut/components/mlkem/esp_randombytes.c, which refuses while the radio is down.
--
-- Files. Session models pqc_session.c, with its types in Session/Layout, `ct_equal` in Session/Compare,
-- the frame functions in Session/Frames, `connect_to_server` in Session/Connection, `handshake` in
-- Session/Handshake, `send_record` in Session/Records and `pqc_session_run` in Session/Client.
-- Session/Keeps and the Keeps modules below carry the static buffers' sizes through every step, and
-- Session/Handshake/Quiet and Session/Client/Guarded follow what is sent when a step fails, and the
-- Handles modules and Session/Client/Closing which sockets are open.
-- `handshake` is cut into the parts between its early returns: `draw_nonce`, `encapsulate`,
-- `send_hello`, `receive_hello` and `authenticate`, which has `stage1`, `exchange` with `stage2`,
-- `finish` and `new_session` in it. A part is a step on a `World`: the network, the board, and the
-- static buffers `s_hello`, `s_frame` and `s_out`; a C function that returns false yields `none`.
-- Session/Spec holds the messages and the key schedule of docs/protocol.md, written independently of
-- the buffers. Rng models esp_randombytes.c. Session/Cursor is the pattern `memcpy(buf + i, src, n); i += n`.
--
-- The rest of the firmware: Selftest models firmware/esp32s3-dut/main/mlkem_selftest.c and Kat mlkem_kat.c
-- beside it, with data of acvp_vectors.h in Kat/Vectors, both over the Kem interface to mlkem-native;
-- Wifi models wifi_sta.c, its event handlers as steps on a Station. Device models main.c: the placement
-- check in Device, the cycle counter's in Device/Clock, and in Device/Main `app_main`, which composes
-- the checks, `mlkem_selftest_run`, `mlkem_kat_run`, `wifi_sta_start` and two calls of `pqc_session_run`.
-- Bench models bench.c and main.c of firmware/esp32s3-bench/main: the harness and the operations in Bench
-- and Bench/Classical, `app_main` in Bench/Main, and in Bench/Probe the stack probe's task, which runs on
-- the other core, as a step relation.
--
-- Buffers. A copy (Prelude/Arrays) behind the end of a buffer makes it longer, so a buffer that keeps its
-- length was not written past its end.
--
-- Numbers. Bytes, lengths and counters are natural numbers, with the casts to 8, 16 and 64 bits written
-- as remainders. Signed results of calls are the type ℤ of Prelude/Int.
--
-- Fuel. `send_all` gets as many rounds as it has bytes, and `recv_all` as many as it asks for: every
-- round that goes on moves at least one byte. A decimal number gets one more round than its value. The
-- busy loop of `verify_cycle_counter` takes its fuel as an argument; Device/Window says how much is enough.
--
-- Parameters, in Platform: lwIP's sockets, ESP-IDF's random source, clock and radio state, mbedtls, and
-- mlkem-native. Their laws are hypotheses: a socket is a byte stream; output sizes are those
-- documented; an encapsulation fails if its random source fails; AES-GCM takes every
-- key; only `send` hands bytes to a connection; only `socket` and `close` open and
-- close sockets; `qsort` sorts by its comparator (Bench/Order). Tests/Toy is a platform that has
-- those of the session. The operations
-- of `double` are a parameter too.
--
-- Not modelled: log output, the erasure of secrets on the stack, delays, mlkem-native's build, the
-- tables of whole keys in acvp_vectors.h (arguments of the test), and all outside the firmware (the
-- Python server, tools and tests). Kat's vectors are data; the rest of that generated file is more of it.
pub mod Prelude
pub mod Platform
pub mod Rng
pub mod Session
pub mod Selftest
pub mod Kat
pub mod Wifi
pub mod Device
pub mod Bench
pub mod Tests
pub mod Kem
