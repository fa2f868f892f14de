-- ===== src/Session/Frames/Wire.antt =====
-- Frames on the wire, `type:u8 || length:u16 || payload`: what `write_frame` emits and what
-- `read_frame` accepts.
use pqc_esp32s3_benchmarks.Prelude.{
  ℕ, ◌+◌, ◌*◌, ◌/◌, ◌%◌, ◌^◌, ◌≤◌, ◌<◌, ◌≡◌, refl, ◌∙◌, ap, sym, true, false, List, [], ◌∷◌, ◌++◌,
  append_assoc, ltb, length, take, ℤ, arith, Bool-cases, inl, inr, IsBytes, bit_or, length-take,
  false≢true,
}
use pqc_esp32s3_benchmarks.Prelude.Bits.{bit_or-shifted}
use pqc_esp32s3_benchmarks.Platform.{Sockets, IsStream, IsLive}
use pqc_esp32s3_benchmarks.Session.Layout.{u8, u16}
use pqc_esp32s3_benchmarks.Session.Frames.{
  send_all, recv_all, frame_head, write_frame, read_payload, read_frame, Received,
}
use pqc_esp32s3_benchmarks.Session.Frames.Loops.{send_all-sent, recv_all-Gets}
use pqc_esp32s3_benchmarks.Session.Frames.Live.{send_all-true, recv_all-eq}

-- The specification's frame (docs/protocol.md, Framing).
abbrev pub encode_frame : ℕ → List ℕ → List ℕ
encode_frame type payload = type ∷ (length payload / 256) ∷ (length payload % 256) ∷ payload

-- The big-endian length of two bytes.
pub length_field : (hi lo : ℕ) → hi < 256 → lo < 256 → u16 (bit_or (hi * 2 ^ 8) lo) ≡ hi * 256 + lo
length_field hi lo p q = omega (arith, bit_or-shifted 8 hi lo q)

pub frame_head_lem :
    (type : ℕ) (payload : List ℕ)
    → length payload < 2 ^ 16
    → frame_head type (length payload) ++ payload ≡ encode_frame type payload
frame_head_lem type payload h =
    let e : u8 (length payload / 2 ^ 8) ≡ length payload / 256 = omega arith in
    let e' : u8 (length payload % 2 ^ 8) ≡ length payload % 256 = omega arith in rw (e, e')

three : (l : List ℕ) → length l ≡ 3 → (a : ℕ) × (b : ℕ) × (c : ℕ) × (l ≡ a ∷ b ∷ c ∷ [])
three (a ∷ b ∷ c ∷ []) e = (a, b, c, refl)
three [] e = absurd (omega arith)
three (a ∷ []) e = absurd (omega arith)
three (a ∷ b ∷ []) e = absurd (omega arith)
three (a ∷ b ∷ c ∷ d ∷ l) e = absurd (omega arith)

module _ {Net : Type 0} (s : Sockets Net) (st : IsStream s) where
  open st use {sent, pending}

  write_frame-head :
      (k : ℤ) (type : ℕ) (buf : List ℕ) (len : ℕ) (net : Net)
      → (write_frame s k type buf len net).0 ≡ true
      → ((send_all s k (frame_head type len) net).0 ≡ true)
        × (write_frame s k type buf len net
            ≡ send_all s k (take len buf) (send_all s k (frame_head type len) net).1)
  unfolding write_frame
  write_frame-head k type buf len net e =
      elim (Bool-cases (send_all s k (frame_head type len) net).0) [
        | inl p ↦ (p, rw p)
        | inr p ↦ absurd (false≢true (rw p at e))
      ]

  -- A `write_frame` that returns true put exactly the frame of the first `len` bytes of its payload
  -- on the wire, where it has that many and `len` is 16 bits wide.
  pub write_frame-sent :
      (k : ℤ) (type : ℕ) (buf : List ℕ) (len : ℕ) (net : Net)
      → len < 2 ^ 16
      → len ≤ length buf
      → (write_frame s k type buf len net).0 ≡ true
      → sent k (write_frame s k type buf len net).1 ≡ sent k net ++ encode_frame type (take len buf)
  write_frame-sent k type buf len net small full e =
      let (p, q) = write_frame-head k type buf len net e in
      let width : length (take len buf) ≡ len = omega (arith, length-take len buf) in
      ap (λ r. sent k r.1) q
      ∙ (send_all-sent s st k (take len buf) (send_all s k (frame_head type len) net).1
            (ap (λ r. r.0) (sym q) ∙ e)
          ∙ (ap (λ l. l ++ take len buf) (send_all-sent s st k (frame_head type len) net p)
              ∙ (append_assoc (sent k net) (frame_head type len) (take len buf)
                  ∙ ap (◌++◌ (sent k net)) (
                      ap (λ n. frame_head type n ++ take len buf) (sym width)
                      ∙ frame_head_lem type (take len buf) (omega arith)))))

  -- What a frame that `read_frame` accepted says about the stream.
  pub record Accepted (k : ℤ) (capacity : ℕ) (net : Net) (r : Received Net) : Type 0 where
    pub stream : pending k net ≡ encode_frame r.type r.bytes ++ pending k r.after
    pub size : length r.bytes ≡ r.len
    pub fits : r.len ≤ capacity
    pub quiet : sent k r.after ≡ sent k net

  read_payload-ok :
      (k : ℤ) (capacity type len : ℕ) (net : Net)
      → (read_payload s k capacity type len net).ok ≡ true
      → let r = read_payload s k capacity type len net in
        (r.type ≡ type)
        × (r.len ≡ len)
        × (len ≤ capacity)
        × (length r.bytes ≡ len)
        × (r.bytes ++ pending k r.after ≡ pending k net)
        × (sent k r.after ≡ sent k net)
  unfolding read_payload
  read_payload-ok k capacity type len net e = elim (Bool-cases (ltb capacity len)) [
    | inl p ↦ absurd (false≢true (rw p at e))
    | inr p ↦
        let g = recv_all-Gets s st k len net in
        let full : length (recv_all s k len net).1 ≡ len = omega (arith, g.full (rw p at e)) in
        rw p (refl, refl, ground arith, full, g.whole, g.quiet)
  ]

  -- Whatever bytes arrive, in whatever pieces: a frame that `read_frame` accepts is the one that stood
  -- next on the stream, its payload has the announced length and fits the buffer, and what follows
  -- it is left on the stream.
  pub read_frame-Accepted :
      (k : ℤ) (capacity : ℕ) (net : Net)
      → IsBytes (pending k net)
      → (read_frame s k capacity net).ok ≡ true
      → Accepted k capacity net (read_frame s k capacity net)
  unfolding read_frame
  read_frame-Accepted k capacity net bytes e = elim (Bool-cases (recv_all s k 3 net).0) [
    | inr p ↦ absurd (false≢true (rw p at e))
    | inl p ↦
        let g = recv_all-Gets s st k 3 net in
        let (a, b, c, h) = three (recv_all s k 3 net).1 (g.full p) in
        let stream : a ∷ b ∷ c ∷ pending k (recv_all s k 3 net).2 ≡ pending k net =
          ap (λ l. l ++ pending k (recv_all s k 3 net).2) (sym h) ∙ g.whole in
        let (pa, (pb, (pc, ps))) = rw (← stream) at bytes in
        let len = length_field b c pb pc in
        let q : read_frame s k capacity net
            ≡ read_payload s k capacity a (b * 256 + c) (recv_all s k 3 net).2 =
          rw p (rw h (rw len)) in
        let (t, l, f, n, w, u) =
          read_payload-ok k capacity a (b * 256 + c) (recv_all s k 3 net).2
            (ap (λ r. r.ok) (sym q) ∙ e) in
        let hi : (b * 256 + c) / 256 ≡ b = omega arith in
        let lo : (b * 256 + c) % 256 ≡ c = omega arith in
        rw q (record {
          stream = rw (t, n, w, hi, lo) (sym stream);
          size = n ∙ sym l;
          fits = rw l f;
          quiet = u ∙ g.quiet;
        })
  ]

  module _ (lv : IsLive s st) where
    -- On a live connection `write_frame` succeeds.
    pub write_frame-true :
        (k : ℤ) (type : ℕ) (buf : List ℕ) (len : ℕ) (net : Net)
        → (write_frame s k type buf len net).0 ≡ true
    unfolding write_frame
    write_frame-true k type buf len net =
        rw (send_all-true s st lv k (frame_head type len) net)
          (send_all-true s st lv k (take len buf) (send_all s k (frame_head type len) net).1)

    read_payload-fits :
        (k : ℤ) (type capacity : ℕ) (payload rest : List ℕ) (net : Net)
        → length payload ≤ capacity
        → pending k net ≡ payload ++ rest
        → let r = read_payload s k capacity type (length payload) net in
          (r.ok ≡ true)
          × (r.type ≡ type)
          × (r.len ≡ length payload)
          × (r.bytes ≡ payload)
          × (pending k r.after ≡ rest)
          × (sent k r.after ≡ sent k net)
    unfolding read_payload
    read_payload-fits k type capacity payload rest net fits e =
        let (a, b, c, d) = recv_all-eq s st lv k net payload rest e in
        let small : ltb capacity (length payload) ≡ false = ground arith in
        rw small (a, refl, refl, b, c, d)

    read_frame-head :
        (k : ℤ) (type capacity : ℕ) (payload rest : List ℕ) (net : Net)
        → length payload < 2 ^ 16
        → pending k net ≡ encode_frame type payload ++ rest
        → let net' = (recv_all s k 3 net).2 in
          (read_frame s k capacity net ≡ read_payload s k capacity type (length payload) net')
          × (pending k net' ≡ payload ++ rest)
          × (sent k net' ≡ sent k net)
    unfolding read_frame
    read_frame-head k type capacity payload rest net small e =
        let head = type ∷ (length payload / 256) ∷ (length payload % 256) ∷ [] in
        let (a, b, c, d) = recv_all-eq s st lv k net head (payload ++ rest) e in
        let len : u16 (bit_or (length payload / 256 * 2 ^ 8) (length payload % 256))
            ≡ length payload =
          length_field (length payload / 256) (length payload % 256) (omega arith) (omega arith)
          ∙ omega arith in
        (rw a (rw b (rw len)), c, d)

    -- On a live connection on which a frame comes next whose length is 16 bits wide, `read_frame`
    -- returns its type, length and payload and takes it off the stream, sending nothing, if the payload
    -- fits the buffer.
    pub read_frame-encode :
        (k : ℤ) (type capacity : ℕ) (payload rest : List ℕ) (net : Net)
        → length payload < 2 ^ 16
        → length payload ≤ capacity
        → pending k net ≡ encode_frame type payload ++ rest
        → let r = read_frame s k capacity net in
          (r.ok ≡ true)
          × (r.type ≡ type)
          × (r.len ≡ length payload)
          × (r.bytes ≡ payload)
          × (pending k r.after ≡ rest)
          × (sent k r.after ≡ sent k net)
    read_frame-encode k type capacity payload rest net small fits e =
        let (a, b, c) = read_frame-head k type capacity payload rest net small e in
        let (ok, t, l, y, p, q) =
          read_payload-fits k type capacity payload rest (recv_all s k 3 net).2 fits b in
        rw a (ok, t, l, y, p, q ∙ c)

    -- On a live connection on which a frame comes next whose length is 16 bits wide and more than the
    -- buffer, it is refused, and none of its payload is stored.
    pub read_frame-too_long :
        (k : ℤ) (type capacity : ℕ) (payload rest : List ℕ) (net : Net)
        → length payload < 2 ^ 16
        → capacity < length payload
        → pending k net ≡ encode_frame type payload ++ rest
        → let r = read_frame s k capacity net in (r.ok ≡ false) × (r.bytes ≡ [])
    unfolding read_payload
    read_frame-too_long k type capacity payload rest net small long e =
        let (a, b, c) = read_frame-head k type capacity payload rest net small e in
        let over : ltb capacity (length payload) ≡ true = ground arith in
        rw a (rw over (refl, refl))
