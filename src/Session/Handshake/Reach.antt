-- ===== src/Session/Handshake/Reach.antt =====
-- The two messages up to the check of the MAC, on a live connection with a ServerHello of the mode's
-- length next on the stream.
use pqc_esp32s3_benchmarks.Prelude.{
  ℕ, ◌≤◌, ◌≡◌, refl, ◌∙◌, ap, sym, Bool, true, false, List, ◌++◌, arith, length, drop, ℤ,
  if◌then◌else◌, ◌==◌, ==_iff, none, some, blit, overwrite-append, length-drop, Option,
  IsBytes-append, IsBytes-drop, IsBytes-join, length-append,
}
use pqc_esp32s3_benchmarks.Platform.{IsStream, IsLive, Platform, HasSizes, HasRandom, HasEnc}
use pqc_esp32s3_benchmarks.Session.Layout.{
  Config, IsConfig, World, IsWorld, server_hello_len_fs, client_hello_len, server_hello_len, u16,
  frame_server_hello, frame_client_hello,
}
use pqc_esp32s3_benchmarks.Session.Spec
use pqc_esp32s3_benchmarks.Session.Spec.{Transcript}
use pqc_esp32s3_benchmarks.Session.Frames.{read_frame, Received}
use pqc_esp32s3_benchmarks.Session.Frames.Wire.{encode_frame, write_frame-true, read_frame-encode}
use pqc_esp32s3_benchmarks.Session.Handshake.{random_source, send_hello, receive_hello}
use pqc_esp32s3_benchmarks.Session.Handshake.Steps.{
  >>=-step, send_hello-eq, hello_sent, HelloSent, send_hello-HelloSent,
}
use pqc_esp32s3_benchmarks.Session.Handshake.Refusal.{hello_exchange}
use pqc_esp32s3_benchmarks.Session.Handshake.Whole.{
  is_fs, drawn, pinned, before_hello, expected_of, u16_expected,
}

pub passes :
    {Net Host A : Type 0} (b : Bool) (a : A) (w : World Net Host)
    → b ≡ true
    → ◌≡◌ {A = Option A × World Net Host} (if b then some a else none, w) (some a, w)
passes b a w e = ap (λ t. (if t then some a else none, w)) e

module _ {Net Host : Type 0} (p : Platform Net Host) where
  module _ (st : IsStream p.sockets) (lv : IsLive p.sockets st) (c : Config) (sock : ℤ) (suite : ℕ)
      (w : World Net Host) where
    -- The network once the ClientHello is out.
    abbrev pub after_hello : Net
    after_hello =
        (send_hello p c sock suite (drawn p c suite w).0 (pinned p c suite w).1
          (before_hello p c suite w)).1.net

    -- A ServerHello of the mode's length comes next on the stream once the ClientHello is out.
    pub record Offered (payload rest : List ℕ) : Type 0 where
      pub next : st.pending sock after_hello ≡ encode_frame frame_server_hello payload ++ rest
      pub size : length payload ≡ expected_of p c suite w

    receive_hello-true :
        (expected : ℕ) (payload rest : List ℕ) (v : World Net Host)
        → IsWorld v
        → st.pending sock v.net ≡ encode_frame frame_server_hello payload ++ rest
        → length payload ≡ expected
        → expected ≤ server_hello_len_fs
        → receive_hello p sock expected v ≡ (
          some tt,
          record v {
            net = (read_frame p.sockets sock server_hello_len_fs v.net).after;
            frame = payload ++ drop (length payload) v.frame;
          },
        )
    unfolding receive_hello
    receive_hello-true expected payload rest v sized next size small =
        let (ok, type, len, bytes, _, _) =
          read_frame-encode p.sockets st lv sock frame_server_hello server_hello_len_fs payload rest
            v.net (omega arith) (omega arith) next in
        let type_ok : (r.type == frame_server_hello) ≡ true = (==_iff _ _).1 type in
        let len_ok : (r.len == expected) ≡ true = (==_iff _ _).1 (len ∙ size) in
        let stored : blit v.frame 0 r.bytes ≡ payload ++ drop (length payload) v.frame =
          ap (blit v.frame 0) bytes
          ∙ overwrite-append payload v.frame (omega (arith, sized.frame_size)) in
        rw (ok, type_ok, len_ok, stored) refl
      where
        r : Received Net
        r = read_frame p.sockets sock server_hello_len_fs v.net

    module _ (conf : IsConfig c) (sz : HasSizes p.mbedtls) (rnd : HasRandom p.board)
        (ke : HasEnc p.mlkem) (sized : IsWorld w) where
      pub ct_size : length (pinned p c suite w).1 ≡ 1088
      ct_size =
          ke.length-ct (random_source p) c.server_public_key
            (p.board.get_time (drawn p c suite w).1).1

      ss_size : length (pinned p c suite w).2 ≡ 32
      ss_size =
          ke.length-ss (random_source p) c.server_public_key
            (p.board.get_time (drawn p c suite w).1).1

      abbrev pub said : World Net Host
      said =
          hello_sent p st c conf sz sock suite (drawn p c suite w).0 (pinned p c suite w).1
            (rnd.length-fill_random 32 w.host) ct_size (before_hello p c suite w) sized.hello_size

      pub said_eq :
          send_hello p c sock suite
            (drawn p c suite w).0
            (pinned p c suite w).1
            (before_hello p c suite w)
          ≡ (some tt, said)
      said_eq =
          send_hello-eq p st c conf sz sock suite (drawn p c suite w).0 (pinned p c suite w).1
            (rnd.length-fill_random 32 w.host) ct_size (before_hello p c suite w) sized.hello_size
          ∙ passes _ tt said
              (write_frame-true p.sockets st lv sock frame_client_hello _ client_hello_len w.net)

      pub said-HelloSent :
          HelloSent p st sock
            (Spec.client_hello p.mbedtls c suite (drawn p c suite w).0 (pinned p c suite w).1)
            (before_hello p c suite w)
            said
      said-HelloSent =
          send_hello-HelloSent p st c conf sz sock suite (drawn p c suite w).0
            (pinned p c suite w).1 (rnd.length-fill_random 32 w.host) ct_size
            (before_hello p c suite w) sized.hello_size said_eq

      said-IsWorld : IsWorld said
      said-IsWorld = record {
        hello_size = ap length said-HelloSent.in_buffer ∙ said-HelloSent.size;
        frame_bytes = sized.frame_bytes;
        frame_size = sized.frame_size;
        out_size = sized.out_size;
      }

      module _ (payload rest : List ℕ) (ans : Offered payload rest) where
        abbrev pub heard : World Net Host
        heard = record said {
          net = (read_frame p.sockets sock server_hello_len_fs said.net).after;
          frame = payload ++ drop (length payload) said.frame;
        }

        next : st.pending sock said.net ≡ encode_frame frame_server_hello payload ++ rest
        next = ap (λ x. st.pending sock x.1.net) (sym said_eq) ∙ ans.next

        small :
            (b : Bool) → (if b then server_hello_len_fs else server_hello_len) ≤ server_hello_len_fs
        small true = omega arith
        small false = omega arith

        pub heard-IsWorld : IsWorld heard
        heard-IsWorld = record {
          hello_size = said-IsWorld.hello_size;
          frame_bytes =
              IsBytes-join payload _
                (IsBytes-append payload rest
                  (rw next at (st.pending-IsBytes sock said.net)).1.1.1).0
                (IsBytes-drop (length payload) w.frame sized.frame_bytes);
          frame_size = omega (
            arith,
            length-append payload (drop (length payload) w.frame),
            length-drop (length payload) w.frame,
            sized.frame_size,
            ans.size,
            small (is_fs p c suite w),
          );
          out_size = sized.out_size;
        }

        pub heard_eq : receive_hello p sock (u16 (expected_of p c suite w)) said ≡ (some tt, heard)
        heard_eq =
            ap (λ n. receive_hello p sock n said) (u16_expected p c suite w (is_fs p c suite w))
            ∙ receive_hello-true (expected_of p c suite w) payload rest said said-IsWorld next
                ans.size (small (is_fs p c suite w))

        -- The client takes the ServerHello in.
        pub hello_exchange-heard :
            hello_exchange p st c sock suite w (before_hello p c suite w) ≡ (some tt, heard)
        hello_exchange-heard =
            >>=-step (send_hello p c sock suite (drawn p c suite w).0 (pinned p c suite w).1)
              (λ _. receive_hello p sock (u16 (expected_of p c suite w))) said_eq
            ∙ heard_eq
