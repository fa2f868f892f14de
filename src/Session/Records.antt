-- ===== src/Session/Records.antt =====
-- `send_record` of pqc_session.c: one AES-256-GCM record.
pub mod Wire
pub mod Nonces
pub mod Keeps
use pqc_esp32s3_benchmarks.Prelude.{
  ℕ, zero, suc, ◌+◌, ◌*◌, ◌/◌, ◌%◌, ◌^◌, Bool, true, false, not, List, [], ◌∷◌, ◌++◌, if◌then◌else◌,
  ltb, ℤ, is_zero, take, blit, replicate, slice, Option, none, some,
}
use pqc_esp32s3_benchmarks.Platform.{Mbedtls, Platform}
use pqc_esp32s3_benchmarks.Session.Layout.{
  Session, World, Run, u8, u16, u64, session_id_len, tag_len, server_hello_len_fs, frame_data,
}
use pqc_esp32s3_benchmarks.Session.Cursor.{Cursor, put}
use pqc_esp32s3_benchmarks.Session.Frames.{write_frame}

-- The loop `for (b = 0; b < 8; b++) dst[b] = (uint8_t)(seq >> (56 - 8 * b))`, on the rounds left.
unfoldable pub seq_loop : ℕ → ℕ → List ℕ
seq_loop zero seq = []
seq_loop (suc rounds) seq = u8 (seq / 2 ^ (8 * rounds)) ∷ seq_loop rounds seq

abbrev pub seq_bytes : ℕ → List ℕ
seq_bytes seq = seq_loop 8 seq

-- The nonce starts as twelve zero bytes.
abbrev pub nonce_of : ℕ → List ℕ
nonce_of seq = blit (replicate 12 0) 4 (seq_bytes seq)

abbrev pub length_bytes : ℕ → List ℕ
length_bytes plain_len = u8 (plain_len / 2 ^ 8) ∷ u8 (plain_len % 2 ^ 8) ∷ []

abbrev pub aad_of : Session → ℕ → List ℕ
aad_of session plain_len =
    take session_id_len session.session_id ++ (seq_bytes session.send_seq ++ length_bytes plain_len)

module _ (m : Mbedtls) where
  -- The record in `s_frame`, and whether the encryption went through. The cipher text is as long as
  -- the plain text, and the tag stands behind it.
  unfoldable pub seal : Session → List ℕ → ℕ → List ℕ → Bool × List ℕ
  seal session plain plain_len frame =
      let aad = aad_of session plain_len in
      let start : Cursor = record { buf = frame; at = 0 } in
      let head = put (length_bytes plain_len) 2 (put (slice session_id_len 8 aad) 8 start) in
      let (rc, ct, tag) =
        m.gcm_encrypt session.c2s (nonce_of session.send_seq) aad (take plain_len plain) in
      let whole = put tag tag_len (put ct plain_len head) in
      if is_zero (m.gcm_setkey session.c2s 256) then (is_zero rc, whole.buf) else (false, head.buf)

-- The session afterwards, on success.
unfoldable pub send_record :
    {Net Host : Type 0} → Platform Net Host → ℤ → Session → List ℕ → ℕ → Run Net Host Session
send_record p sock session plain plain_len w =
    let (sealed, frame) = seal p.mbedtls session plain plain_len w.frame in
    let w1 = record w { frame = frame } in
    let frame_len = u16 (10 + plain_len + tag_len) in
    let (ok, net') = write_frame p.sockets sock frame_data frame frame_len w.net in
    if ltb server_hello_len_fs (plain_len + 10 + tag_len)
    then (none, w)
    else (if not sealed
        then (none, w1)
        else (if not ok then (none, record w1 { net = net' }) else (
          some (record session { send_seq = u64 (session.send_seq + 1) }),
          record w1 { net = net' },
        )))
