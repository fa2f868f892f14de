-- ===== src/Session/Handshake/Transcript.antt =====
-- The transcript that the buffers of a handshake hold, and its encapsulations.
use pqc_esp32s3_benchmarks.Prelude.{
  ℕ, ◌+◌, Bool, List, ℤ, if◌then◌else◌, slice, is_zero, sub_ℕ, pos,
}
use pqc_esp32s3_benchmarks.Platform.{Platform}
use pqc_esp32s3_benchmarks.Session.Layout.{
  Config, World, nonce_len, session_id_len, public_key_bytes,
}
use pqc_esp32s3_benchmarks.Session.Spec.{Transcript}
use pqc_esp32s3_benchmarks.Session.Handshake.{random_source}

module _ {Net Host : Type 0} (p : Platform Net Host) where
  -- The ephemeral encapsulation that starts on a board in state `h`: cipher text and secret.
  abbrev pub ephemeral : List ℕ → Host → ℤ × List ℕ × List ℕ × Host
  ephemeral ek h = p.mlkem.enc (random_source p) ek (p.board.get_time h).1

  -- The board after an encapsulation, and the time that it took.
  abbrev pub encapsulated : List ℕ → Host → Host
  encapsulated ek h =
      let (rc, ct, ss, h1) = ephemeral ek h in if is_zero rc then (p.board.get_time h1).1 else h1

  abbrev pub encapsulate_time : List ℕ → Host → ℤ
  encapsulate_time ek h =
      let (rc, ct, ss, h1) = ephemeral ek h in
      if is_zero rc then sub_ℕ (p.board.get_time h1).0 (p.board.get_time h).0 else pos 0

  -- The transcript of a ClientHello and a ServerHello, with the secret of the first encapsulation,
  -- and that of the second if it starts on the board in state `h`.
  abbrev pub transcript_from : Bool → Config → List ℕ → List ℕ → List ℕ → List ℕ → Host → Transcript
  transcript_from fs c nonce ss hello frame h =
      let ek = slice (nonce_len + session_id_len) public_key_bytes frame in
      record {
        forward_secrecy = fs;
        client_hello = hello;
        client_nonce = nonce;
        server_nonce = slice 0 nonce_len frame;
        session_id = slice nonce_len session_id_len frame;
        ss = ss;
        psk = c.device_psk;
        ek_eph = ek;
        ct_eph = (ephemeral ek h).1;
        ss_eph = (ephemeral ek h).2;
      }

  -- The transcript that the buffers hold: the ClientHello in `s_hello`, the ServerHello in `s_frame`.
  abbrev pub transcript_of : Bool → Config → List ℕ → List ℕ → World Net Host → Transcript
  transcript_of fs c nonce ss w = transcript_from fs c nonce ss w.hello w.frame w.host

  -- Where the server's MAC stands in `s_frame`.
  abbrev pub mac_offset : Bool → ℕ
  mac_offset fs = nonce_len + session_id_len + (if fs then public_key_bytes else 0)
