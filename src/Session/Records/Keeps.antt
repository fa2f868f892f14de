-- ===== src/Session/Records/Keeps.antt =====
-- `send_record` keeps the static buffers well formed and the session's id.
use pqc_esp32s3_benchmarks.Prelude.{
  ℕ, ◌+◌, ◌≤◌, ◌≡◌, false, length-take, ◌∙◌, ap, sym, Bool, List, ◌++◌, arith, length, take, ℤ,
  Option, none, some, Bool-cases, inl, inr, IsBytes, length-blit, IsBytes-blit, IsBytes-take,
  IsBytes-drop, IsBytes-join, is_zero, slice, ltb, drop,
}
use pqc_esp32s3_benchmarks.Platform.{Mbedtls, Platform, HasSizes}
use pqc_esp32s3_benchmarks.Session.Layout.{
  Session, World, IsWorld, u16, tag_len, frame_data, server_hello_len_fs, session_id_len,
}
use pqc_esp32s3_benchmarks.Session.Cursor.{Cursor, put}
use pqc_esp32s3_benchmarks.Session.Frames.{write_frame}
use pqc_esp32s3_benchmarks.Session.Records.{
  seq_loop, seq_bytes, nonce_of, length_bytes, aad_of, seal, send_record,
}

-- A buffer of `size` bytes.
pub record IsBuffer (size : ℕ) (buf : List ℕ) : Type 0 where
  pub bytes : IsBytes buf
  pub full : length buf ≡ size

put-IsBuffer :
    {size : ℕ} (src : List ℕ) (n : ℕ) (c : Cursor)
    → IsBytes src
    → c.at + n ≤ size
    → IsBuffer size c.buf
    → IsBuffer size (put src n c).buf
put-IsBuffer src n c h room b = record {
  bytes = IsBytes-blit c.buf c.at (take n src) b.bytes (IsBytes-take n src h);
  full =
      length-blit c.buf c.at (take n src) (omega (arith, room, b.full, length-take n src)) ∙ b.full;
}

seq_bytes-IsBytes : (seq : ℕ) → IsBytes (seq_bytes seq)
unfolding seq_loop
seq_bytes-IsBytes seq = omega arith

length_bytes-IsBytes : (n : ℕ) → IsBytes (length_bytes n)
length_bytes-IsBytes n = omega arith

module _ (m : Mbedtls) (sz : HasSizes m) (session : Session) (id_bytes : IsBytes session.session_id)
    (plain : List ℕ) (plain_len : ℕ) (frame : List ℕ) (size : ℕ) (buffer : IsBuffer size frame)
    (room : plain_len + 10 + tag_len ≤ size) where
  aad_of-IsBytes : IsBytes (aad_of session plain_len)
  aad_of-IsBytes =
      IsBytes-join (take 8 session.session_id)
        (seq_bytes session.send_seq ++ length_bytes plain_len)
        (IsBytes-take 8 session.session_id id_bytes)
        (IsBytes-join (seq_bytes session.send_seq) (length_bytes plain_len)
          (seq_bytes-IsBytes session.send_seq) (length_bytes-IsBytes plain_len))

  -- A record that fits: whether it encrypts or fails, `seal` leaves a buffer of bytes of the same size.
  pub seal-IsBuffer : IsBuffer size (seal m session plain plain_len frame).1
  unfolding seal
  seal-IsBuffer = elim (Bool-cases (is_zero (m.gcm_setkey session.c2s 256))) [
    | inl e ↦ rw e (
        put-IsBuffer tag tag_len (put ct plain_len head) both.1 (omega (arith, room))
          (put-IsBuffer ct plain_len head both.0 (omega (arith, room)) head-IsBuffer))
    | inr e ↦ rw e head-IsBuffer
  ]
    where
      aad : List ℕ
      aad = aad_of session plain_len

      start : Cursor
      start = record { buf = frame; at = 0 }

      seq : Cursor
      seq = put (slice session_id_len 8 aad) 8 start

      head : Cursor
      head = put (length_bytes plain_len) 2 seq

      head-IsBuffer : IsBuffer size head.buf
      head-IsBuffer =
          put-IsBuffer (length_bytes plain_len) 2 seq (length_bytes-IsBytes plain_len)
            (omega (arith, room))
            (put-IsBuffer (slice session_id_len 8 aad) 8 start
              (IsBytes-take 8 (drop 8 aad) (IsBytes-drop 8 aad aad_of-IsBytes))
              (omega (arith, room)) buffer)

      ct : List ℕ
      ct = (m.gcm_encrypt session.c2s (nonce_of session.send_seq) aad (take plain_len plain)).1

      tag : List ℕ
      tag = (m.gcm_encrypt session.c2s (nonce_of session.send_seq) aad (take plain_len plain)).2

      both : IsBytes ct × IsBytes tag
      both = sz.gcm-IsBytes session.c2s (nonce_of session.send_seq) aad (take plain_len plain)

module _ {Net Host : Type 0} (p : Platform Net Host) (sz : HasSizes p.mbedtls) (sock : ℤ)
    (session : Session) (plain : List ℕ) (plain_len : ℕ) where
  pub send_record-Keeps :
      IsBytes session.session_id
      → (w : World Net Host) → IsWorld w
      → IsWorld (send_record p sock session plain plain_len w).1
  unfolding send_record
  send_record-Keeps id_bytes w sized =
      elim (Bool-cases (ltb server_hello_len_fs (plain_len + 10 + tag_len))) [
        | inl e ↦ rw e sized
        | inr e ↦ elim (Bool-cases sealed.0) [
          | inr f ↦ rw e (rw f (with_frame (fits e) w.net))
          | inl f ↦ elim (Bool-cases wrote.0) [
            | inl g ↦ rw e (rw f (rw g (with_frame (fits e) wrote.1)))
            | inr g ↦ rw e (rw f (rw g (with_frame (fits e) wrote.1)))
          ]
        ]
      ]
    where
      sealed : Bool × List ℕ
      sealed = seal p.mbedtls session plain plain_len w.frame

      wrote : Bool × Net
      wrote = write_frame p.sockets sock frame_data sealed.1 (u16 (10 + plain_len + tag_len)) w.net

      fits :
          ltb server_hello_len_fs (plain_len + 10 + tag_len) ≡ false
          → plain_len + 10 + tag_len ≤ server_hello_len_fs
      fits e = ground arith

      with_frame :
          plain_len + 10 + tag_len ≤ server_hello_len_fs
          → (net : Net) → IsWorld (record w { net = net; frame = sealed.1 })
      with_frame room net =
          let b =
            seal-IsBuffer p.mbedtls sz session id_bytes plain plain_len w.frame server_hello_len_fs
              (record { bytes = sized.frame_bytes; full = sized.frame_size }) room in
          record {
            hello_size = sized.hello_size;
            frame_bytes = b.bytes;
            frame_size = b.full;
            out_size = sized.out_size;
          }

  -- A record that was sent leaves the session's id alone.
  pub send_record-session_id :
      (w : World Net Host) {s : Session} {w' : World Net Host}
      → send_record p sock session plain plain_len w ≡ (some s, w')
      → s.session_id ≡ session.session_id
  unfolding send_record
  send_record-session_id w {s} {w'} e =
      elim (Bool-cases (ltb server_hello_len_fs (plain_len + 10 + tag_len))) [
        | inl long ↦ cc (ap (λ r. r.0) (rw long at e))
        | inr short ↦ elim (Bool-cases sealed.0) [
          | inr fail ↦ cc (ap (λ r. r.0) (rw fail at (rw short at e)))
          | inl good ↦ elim (Bool-cases wrote.0) [
            | inr fail ↦ cc (ap (λ r. r.0) (rw fail at (rw good at (rw short at e))))
            | inl done ↦ sym (ap id_of (rw done at (rw good at (rw short at e))))
          ]
        ]
      ]
    where
      sealed : Bool × List ℕ
      sealed = seal p.mbedtls session plain plain_len w.frame

      wrote : Bool × Net
      wrote = write_frame p.sockets sock frame_data sealed.1 (u16 (10 + plain_len + tag_len)) w.net

      id_of : Option Session × World Net Host → List ℕ
      id_of r = elim r.0 [ none ↦ session.session_id | some x ↦ x.session_id ]
