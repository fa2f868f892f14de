-- ===== src/Session/Client/Whole.antt =====
-- The bytes of a whole `pqc_session_run`.
use pqc_esp32s3_benchmarks.Prelude.{
  ℕ, subst, ◌+◌, ◌^◌, ◌≤◌, ◌≡◌, ◌∙◌, ap, true, List, [], ◌++◌, arith, length, take, append_assoc, ℤ,
  drop, length-take, length-drop,
}
use pqc_esp32s3_benchmarks.Platform.{Platform, HasSizes, HasRandom, HasEnc, IsStream, IsQuiet}
use pqc_esp32s3_benchmarks.Session.Layout.{
  Config, IsConfig, Session, World, IsWorld, Mode, frame_client_hello, frame_client_finished,
  frame_close,
}
use pqc_esp32s3_benchmarks.Session.Spec
use pqc_esp32s3_benchmarks.Session.Spec.{Transcript}
use pqc_esp32s3_benchmarks.Session.Frames.{write_frame}
use pqc_esp32s3_benchmarks.Session.Frames.Wire.{encode_frame}
use pqc_esp32s3_benchmarks.Session.Handshake.Transcript.{transcript_of}
use pqc_esp32s3_benchmarks.Session.Handshake.Whole.{
  Completed, handshake-Completed, is_fs, drawn, pinned, hello_of,
}
use pqc_esp32s3_benchmarks.Session.Handshake.Keeps.{handshake-Keeps}
use pqc_esp32s3_benchmarks.Session.Client.{close_socket, suite_of, pqc_session_run}
use pqc_esp32s3_benchmarks.Session.Client.Keeps.{moved}
use pqc_esp32s3_benchmarks.Session.Client.Through.{timed, pqc_session_run-Through}
use pqc_esp32s3_benchmarks.Session.Client.Live.{connected, socket_of}
use pqc_esp32s3_benchmarks.Session.Client.Sequence.{AllSent, data_frames, send_records-AllSent}
use pqc_esp32s3_benchmarks.Session.Client.Quiet.{connect_to_server-sent, close-sent_lem}

regroup : (a b c d e : List ℕ) → ((a ++ (b ++ c)) ++ d) ++ e ≡ a ++ (b ++ (c ++ (d ++ e)))
regroup a b c d e = simp append_assoc

module _ {Net Host : Type 0} (p : Platform Net Host) (c : Config) (mode : Mode) (w : World Net Host)
    (st : IsStream p.sockets) where
  -- What the run says: `v` is the world with the ServerHello in it.
  abbrev pub agreed : World Net Host → Transcript
  agreed v =
      transcript_of p (is_fs p c (suite_of mode) (connected p c mode w)) c
        (drawn p c (suite_of mode) (connected p c mode w)).0
        (pinned p c (suite_of mode) (connected p c mode w)).2 v

  -- A run of `n` records that ended well in `w'`.
  pub record Ran (n : ℕ) (w' : World Net Host) : Type 0 where
    pub session : Session
    pub shaken : World Net Host
    pub done :
        Completed p c
          (suite_of mode)
          (connected p c mode w)
          st
          (socket_of p c mode w)
          session
          shaken
    pub closed : ℕ
    pub wire :
        let t = agreed done.v in
        st.sent (socket_of p c mode w) w'.net
        ≡ st.sent (socket_of p c mode w) w.net
          ++ (encode_frame frame_client_hello (hello_of p c (suite_of mode) (connected p c mode w))
              ++ (encode_frame frame_client_finished (Spec.client_finished p.mbedtls t)
                  ++ (data_frames p.mbedtls t.session_id (Spec.c2s p.mbedtls t) 0 0 n
                      ++ take closed (encode_frame frame_close []))))

  module _ (q : IsQuiet p.sockets st) (conf : IsConfig c) (sz : HasSizes p.mbedtls)
      (rnd : HasRandom p.board) (ke : HasEnc p.mlkem) (sized : IsWorld w) where
    conclude :
        (n : ℕ) (s s' : Session) (v u : World Net Host) (host : Host)
        → Completed p c (suite_of mode) (connected p c mode w) st (socket_of p c mode w) s v
        → AllSent p st (socket_of p c mode w) n 0 s (record v { host = host }) s' u
        → Ran n (
            close_socket p c (socket_of p c mode w) (record u {
              net = (write_frame p.sockets (socket_of p c mode w) frame_close [] 0 u.net).1;
            }))
    conclude n s s' v u host done all = record {
      session = s;
      shaken = v;
      done = done;
      closed = last.0;
      wire =
          q.close-sent sock sock (write_frame p.sockets sock frame_close [] 0 u.net).1
          ∙ (last.1
              ∙ rw (records, done.wire, connect_to_server-sent p.sockets st q c sock w.net)
                  (regroup (st.sent sock w.net)
                    (encode_frame frame_client_hello
                      (hello_of p c (suite_of mode) (connected p c mode w)))
                    (encode_frame frame_client_finished
                      (Spec.client_finished p.mbedtls (agreed done.v)))
                    (data_frames p.mbedtls (agreed done.v).session_id
                      (Spec.c2s p.mbedtls (agreed done.v)) 0 0 n)
                    (take last.0 (encode_frame frame_close []))));
    }
      where
        sock : ℤ
        sock = socket_of p c mode w

        last :
            (count : ℕ) × (st.sent sock (write_frame p.sockets sock frame_close [] 0 u.net).1
              ≡ st.sent sock u.net ++ take count (encode_frame frame_close []))
        last = close-sent_lem p.sockets st q c sock u.net

        records :
            let t = agreed done.v in
            st.sent sock u.net
            ≡ st.sent sock v.net ++ data_frames p.mbedtls t.session_id (Spec.c2s p.mbedtls t) 0 0 n
        records =
            all.wire
            ∙ rw (done.established.session_id, done.established.key, done.established.first)

    id_size :
        (s : Session) (v : World Net Host)
        → Completed p c (suite_of mode) (connected p c mode w) st (socket_of p c mode w) s v
        → length s.session_id ≡ 8
    id_size s v done =
        ap length done.established.session_id
        ∙ omega (
          arith,
          length-take 8 (drop 32 done.v.frame),
          length-drop 32 done.v.frame,
          done.sized.frame_size,
        )

    -- With data of the declared sizes, record numbers that the format's `810 + n` does not overflow, and
    -- calls that send nothing but `send`: if `pqc_session_run` returns true on a byte stream, then its
    -- handshake completed against the specification, and all that it sent on its socket is the
    -- specification's ClientHello, the specification's last message, one Data frame for each of the
    -- records in order, under the key and the session id agreed on and with the sequence numbers from
    -- 0, and a first part of the Close frame.
    pub pqc_session_run-Ran :
        (n : ℕ) {w' : World Net Host}
        → n + 810 ≤ 2 ^ 31
        → pqc_session_run p c mode n w ≡ (true, w')
        → Ran n w'
    pqc_session_run-Ran n small e =
        let t = pqc_session_run-Through p c mode n w e in
        let done =
          handshake-Completed p c (suite_of mode) (connected p c mode w) st (socket_of p c mode w)
            conf sz rnd ke (moved w _ _ sized) t.agreed in
        let kept =
          handshake-Keeps p st c sz (socket_of p c mode w) (suite_of mode) (connected p c mode w)
            (moved w _ _ sized) in
        let all =
          send_records-AllSent p st sz c (socket_of p c mode w) n 0 t.session 0 (timed p c t.shaken)
            (id_size t.session t.shaken done) (rw t.agreed at kept).frame_size (omega arith)
            t.sent in
        subst (Ran n) t.closed (conclude n t.session t.last t.shaken t.records _ done all)
