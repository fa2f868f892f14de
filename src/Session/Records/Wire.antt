-- ===== src/Session/Records/Wire.antt =====
-- What `send_record` puts on the wire.
use pqc_esp32s3_benchmarks.Prelude.{
  ℕ, ◌+◌, ◌-◌, ◌/◌, ◌%◌, ◌^◌, ◌≤◌, ◌<◌, ◌≡◌, refl, ◌∙◌, ap, ap₂, sym, Bool, true, List, [], ◌∷◌,
  ◌++◌, arith, length, take, slice, is_zero, ltb, none, some, drop-append_of_eq, take-all,
  length-append, length-take, Bool-cases, inl, inr, ℤ, false≢true,
}
use pqc_esp32s3_benchmarks.Platform.{Platform, Mbedtls, HasSizes, IsStream}
use pqc_esp32s3_benchmarks.Session.Layout.{
  Session, World, u8, u16, u64, tag_len, frame_data, server_hello_len_fs, session_id_len,
}
use pqc_esp32s3_benchmarks.Session.Spec
use pqc_esp32s3_benchmarks.Session.Cursor.{Cursor, put, Filled, put-Filled, front-of, size-of}
use pqc_esp32s3_benchmarks.Session.Frames.{write_frame}
use pqc_esp32s3_benchmarks.Session.Frames.Wire.{encode_frame, write_frame-sent}
use pqc_esp32s3_benchmarks.Session.Records.{
  seq_loop, seq_bytes, nonce_of, length_bytes, aad_of, seal, send_record,
}
use pqc_esp32s3_benchmarks.Session.Records.Nonces.{nonce_of-eq}

module _ (m : Mbedtls) (sz : HasSizes m) (session : Session)
    (id_size : length session.session_id ≡ 8) (plain : List ℕ) (plain_len : ℕ)
    (enough : plain_len ≤ length plain) (fits : plain_len + 26 ≤ 1256) where
  abbrev pub text : List ℕ
  text = take plain_len plain

  text_size : length text ≡ plain_len
  text_size = omega (arith, length-take plain_len plain)

  seq_eq : seq_bytes session.send_seq ≡ Spec.be64 m session.send_seq
  unfolding seq_loop
  seq_eq =
      let last : u8 (session.send_seq / 2 ^ 0) ≡ session.send_seq % 256 = omega arith in rw last

  len_eq : length_bytes plain_len ≡ Spec.be16 m (length text)
  len_eq = rw text_size (ap₂ (λ a b. a ∷ b ∷ []) (omega arith) (omega arith))

  aad_eq :
      aad_of session plain_len
      ≡ session.session_id ++ (Spec.be64 m session.send_seq ++ Spec.be16 m (length text))
  aad_eq = ap₂ ◌++◌ (take-all 8 session.session_id (omega arith)) (ap₂ ◌++◌ seq_eq len_eq)

  -- The three outputs of the encryption are those of the specification.
  protect_eq :
      m.gcm_encrypt session.c2s (nonce_of session.send_seq) (aad_of session plain_len) text
      ≡ Spec.protect m session.session_id session.c2s session.send_seq text
  protect_eq =
      ap₂ (λ n a. m.gcm_encrypt session.c2s n a text)
        (nonce_of-eq session.send_seq ∙ ap (λ l. 0 ∷ 0 ∷ 0 ∷ 0 ∷ l) seq_eq) aad_eq

  head_of : List ℕ → Cursor
  head_of frame =
      put (length_bytes plain_len) 2
        (put (slice session_id_len 8 (aad_of session plain_len)) 8 (record { buf = frame; at = 0 }))

  pub aad_seq : slice session_id_len 8 (aad_of session plain_len) ≡ Spec.be64 m session.send_seq
  aad_seq = ap (slice 8 8) aad_eq ∙ ap (take 8) (drop-append_of_eq 8 session.session_id _ id_size)

  head-Filled :
      (frame : List ℕ)
      → length frame ≡ 1256
      → Filled (Spec.be64 m session.send_seq ++ Spec.be16 m (length text)) 1246 (head_of frame)
  unfolding head_of
  head-Filled frame size =
      rw (aad_seq, len_eq)
        (put-Filled (Spec.be16 m (length text)) 2 1246 refl refl (
          put-Filled (Spec.be64 m session.send_seq) 8 1248 {text = []} refl refl
            (record { rest = frame; buffer = refl; index = refl; left = size })))

  whole_of : List ℕ → Cursor
  unfolding head_of
  whole_of frame =
      let (rc, ct, tag) =
        m.gcm_encrypt session.c2s (nonce_of session.send_seq) (aad_of session plain_len) text in
      put tag tag_len (put ct plain_len (head_of frame))

  whole-Filled :
      (frame : List ℕ)
      → length frame ≡ 1256
      → Filled
          (Spec.data_record m session.session_id session.c2s session.send_seq text)
          (1256 - (plain_len + 26))
          (whole_of frame)
  unfolding whole_of
  whole-Filled frame size = rw protect_eq (
      put-Filled tag 16 (1256 - (plain_len + 26))
        (sz.length-tag session.c2s (0 ∷ 0 ∷ 0 ∷ 0 ∷ Spec.be64 m session.send_seq) aad text)
        (omega arith)
        (put-Filled ct plain_len (1246 - plain_len)
          (sz.length-ciphertext session.c2s (0 ∷ 0 ∷ 0 ∷ 0 ∷ Spec.be64 m session.send_seq) aad text
            ∙ text_size)
          (omega arith) (head-Filled frame size)))
    where
      aad : List ℕ
      aad = session.session_id ++ (Spec.be64 m session.send_seq ++ Spec.be16 m (length text))

      ct : List ℕ
      ct = (Spec.protect m session.session_id session.c2s session.send_seq text).1

      tag : List ℕ
      tag = (Spec.protect m session.session_id session.c2s session.send_seq text).2

  record_size :
      length (Spec.data_record m session.session_id session.c2s session.send_seq text)
      ≡ plain_len + 26
  record_size =
      let (rc, ct, tag) = Spec.protect m session.session_id session.c2s session.send_seq text in
      omega (
        arith,
        length-append ct tag,
        text_size,
        sz.length-ciphertext session.c2s (0 ∷ 0 ∷ 0 ∷ 0 ∷ Spec.be64 m session.send_seq)
            (session.session_id ++ (Spec.be64 m session.send_seq ++ Spec.be16 m (length text)))
            text,
        sz.length-tag session.c2s (0 ∷ 0 ∷ 0 ∷ 0 ∷ Spec.be64 m session.send_seq)
            (session.session_id ++ (Spec.be64 m session.send_seq ++ Spec.be16 m (length text)))
            text,
      )

  -- Where the encryption succeeds, `seal` leaves the specification's record at the front of `s_frame`.
  pub seal-data_record :
      (frame : List ℕ)
      → length frame ≡ 1256
      → (seal m session plain plain_len frame).0 ≡ true
      → (take (plain_len + 26) (seal m session plain plain_len frame).1
          ≡ Spec.data_record m session.session_id session.c2s session.send_seq text)
        × (length (seal m session plain plain_len frame).1 ≡ 1256)
        × (is_zero (Spec.protect m session.session_id session.c2s session.send_seq text).0 ≡ true)
  unfolding seal whole_of head_of
  seal-data_record frame size e = elim (Bool-cases (is_zero (m.gcm_setkey session.c2s 256))) [
    | inr p ↦ absurd (false≢true (rw p at e))
    | inl p ↦
        let f = whole-Filled frame size in
        let encrypted = ap (λ r. is_zero r.0) (sym protect_eq) ∙ rw p at e in
        rw p (
          front-of (plain_len + 26) f record_size,
          omega (arith, size-of f, record_size),
          encrypted,
        )
  ]

-- What a record that was sent leaves behind.
pub record RecordSent {Net Host : Type 0} (p : Platform Net Host) (st : IsStream p.sockets)
    (sock : ℤ) (session : Session) (text : List ℕ) (w : World Net Host) (s : Session)
    (w' : World Net Host) : Type 0 where
  pub wire :
      st.sent sock w'.net
      ≡ st.sent sock w.net
        ++ encode_frame frame_data
            (Spec.data_record p.mbedtls session.session_id session.c2s session.send_seq text)
  pub next : s ≡ record session { send_seq = u64 (session.send_seq + 1) }
  pub encrypted :
      is_zero (Spec.protect p.mbedtls session.session_id session.c2s session.send_seq text).0 ≡ true
  pub frame_size : length w'.frame ≡ 1256
  pub host : w'.host ≡ w.host

module _ {Net Host : Type 0} (p : Platform Net Host) (st : IsStream p.sockets)
    (sz : HasSizes p.mbedtls) (sock : ℤ) (session : Session)
    (id_size : length session.session_id ≡ 8) (plain : List ℕ) (plain_len : ℕ) (w : World Net Host)
    (frame_size : length w.frame ≡ 1256) where
  -- With a session id of 8 bytes and `s_frame` of 1256: a payload that does not fit the buffer is
  -- refused, with nothing encrypted, sent or counted.
  pub send_record-too_long :
      1256 < plain_len + 26 → send_record p sock session plain plain_len w ≡ (none, w)
  unfolding send_record
  send_record-too_long long =
      let over : ltb server_hello_len_fs (plain_len + 10 + tag_len) ≡ true = ground arith in rw over

  -- With a session id of 8 bytes, `s_frame` of 1256 and cipher outputs of the documented sizes: if
  -- `send_record` returns true on a payload of at least `plain_len` bytes, exactly one Data frame was sent: the specification's record of the
  -- first `plain_len` bytes of `plain`, under the session's key, session id and sequence number; and
  -- of the session only the sequence number moved, by one.
  pub send_record-RecordSent :
      {s : Session} {w' : World Net Host}
      → plain_len ≤ length plain
      → send_record p sock session plain plain_len w ≡ (some s, w')
      → RecordSent p st sock session (take plain_len plain) w s w'
  unfolding send_record
  send_record-RecordSent {s} {w'} enough e = elim (Bool-cases over) [
    | inl long ↦ cc (ap (λ r. r.0) (rw long at e))
    | inr short ↦ elim (Bool-cases sealed.0) [
      | inr fail ↦ cc (ap (λ r. r.0) (rw fail at (rw short at e)))
      | inl good ↦ elim (Bool-cases wrote.0) [
        | inr fail ↦ cc (ap (λ r. r.0) (rw fail at (rw good at (rw short at e))))
        | inl done ↦
            let fits : plain_len + 26 ≤ 1256 = ground arith in
            let width : u16 (10 + plain_len + tag_len) ≡ plain_len + 26 = omega arith in
            let (front, size, ok) =
              seal-data_record p.mbedtls sz session id_size plain plain_len enough fits w.frame
                frame_size good in
            let q = rw done at (rw good at (rw short at e)) in
            let out =
              write_frame-sent p.sockets st sock frame_data sealed.1
                (u16 (10 + plain_len + tag_len)) w.net (omega (arith, width))
                (omega (arith, width, size)) done in
            rw (← ap (λ r. r.1) q) (record {
              wire =
                  out
                  ∙ ap (λ l. st.sent sock w.net ++ encode_frame frame_data l)
                      (ap (λ n. take n sealed.1) width ∙ front);
              next = cc (ap (λ r. r.0) q);
              encrypted = ok;
              frame_size = size;
              host = refl;
            })
      ]
    ]
  ]
    where
      over : Bool
      over = ltb server_hello_len_fs (plain_len + 10 + tag_len)

      sealed : Bool × List ℕ
      sealed = seal p.mbedtls session plain plain_len w.frame

      wrote : Bool × Net
      wrote = write_frame p.sockets sock frame_data sealed.1 (u16 (10 + plain_len + tag_len)) w.net
