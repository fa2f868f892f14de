-- ===== src/Session/Frames.antt =====
-- `send_all`, `recv_all`, `write_frame` and `read_frame` of pqc_session.c.
pub mod Loops
pub mod Rounds
pub mod Live
pub mod Wire
pub mod Partial
pub mod Handles
use pqc_esp32s3_benchmarks.Prelude.{
  ℕ, zero, suc, ◌+◌, ◌-◌, ◌*◌, ◌/◌, ◌%◌, ◌^◌, Bool, true, false, not, List, [], ◌∷◌, ◌++◌, ◌==◌,
  ltb, if◌then◌else◌, count_of, bit_or, length, take, drop, ℤ, get_or,
}
use pqc_esp32s3_benchmarks.Platform.{Sockets}
use pqc_esp32s3_benchmarks.Session.Layout.{u8, u16}

-- The head of a frame: the type, then the length, high byte first.
abbrev pub frame_head : ℕ → ℕ → List ℕ
frame_head type len = type ∷ u8 (len / 2 ^ 8) ∷ u8 (len % 2 ^ 8) ∷ []

-- What `read_frame` returns and writes through its pointers; type and length are zero where it
-- leaves them unset.
pub record Received (Net : Type 0) : Type 0 where
  pub ok : Bool
  pub type : ℕ
  pub len : ℕ
  pub bytes : List ℕ
  pub after : Net

module _ {Net : Type 0} (s : Sockets Net) where
  -- The loop of `send_all` on the bytes `buf + sent` that are left. Each round that goes on takes
  -- at least one byte off, so as many rounds as bytes are enough.
  unfoldable pub send_from : ℕ → ℤ → List ℕ → Net → Bool × Net
  send_from fuel k [] net = (true, net)
  send_from zero k (x ∷ xs) net = (false, net)
  send_from (suc fuel) k (x ∷ xs) net =
      let (n, net') = s.send k (x ∷ xs) net in
      let rest = send_from fuel k (drop (count_of n) (x ∷ xs)) net' in
      if count_of n == 0 then (false, net') else rest

  unfoldable pub send_all : ℤ → List ℕ → Net → Bool × Net
  send_all k buf net = send_from (length buf) k buf net

  -- The loop of `recv_all`: `need` is `len - got`, and `got` the bytes stored so far.
  recv_from : ℕ → ℤ → ℕ → List ℕ → Net → Bool × List ℕ × Net
  recv_from fuel k zero got net = (true, got, net)
  recv_from zero k (suc need) got net = (false, got, net)
  recv_from (suc fuel) k (suc need) got net =
      let (n, chunk, net') = s.recv k (suc need) net in
      let rest = recv_from fuel k (suc need - count_of n) (got ++ chunk) net' in
      if count_of n == 0 then (false, got, net') else rest

  -- The result, the bytes stored in the buffer, and the network afterwards.
  pub recv_all : ℤ → ℕ → Net → Bool × List ℕ × Net
  recv_all k len net = recv_from len k len [] net

  -- The payload is the first `len` bytes of `payload`.
  unfoldable pub write_frame : ℤ → ℕ → List ℕ → ℕ → Net → Bool × Net
  write_frame k type payload len net =
      let (ok, net') = send_all k (frame_head type len) net in
      if ok then send_all k (take len payload) net' else (false, net')

  -- `read_frame` behind the head: the length is checked against the buffer, and the payload read.
  unfoldable pub read_payload : ℤ → ℕ → ℕ → ℕ → Net → Received Net
  read_payload k capacity type len net =
      let (ok, bytes, net') = recv_all k len net in
      if ltb capacity len
      then record { ok = false; type = type; len = len; bytes = []; after = net }
      else record { ok = ok; type = type; len = len; bytes = bytes; after = net' }

  unfoldable pub read_frame : ℤ → ℕ → Net → Received Net
  read_frame k capacity net =
      let (ok, head, net') = recv_all k 3 net in
      if not ok
      then record { ok = false; type = 0; len = 0; bytes = []; after = net' }
      else read_payload k capacity (get_or head 0 0)
          (u16 (bit_or (get_or head 1 0 * 2 ^ 8) (get_or head 2 0))) net'
