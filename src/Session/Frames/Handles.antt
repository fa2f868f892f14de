-- ===== src/Session/Frames/Handles.antt =====
-- No frame opens or closes a socket.
use pqc_esp32s3_benchmarks.Prelude.{
  ℕ, Bool, zero, suc, ◌-◌, ◌*◌, ◌^◌, ◌≡◌, refl, ◌∙◌, List, [], ◌∷◌, ◌++◌, ◌==◌, count_of, length,
  take, drop, ltb, ℤ, Bool-cases, inl, inr, get_or, bit_or,
}
use pqc_esp32s3_benchmarks.Platform.{Sockets, Tracks}
use pqc_esp32s3_benchmarks.Session.Layout.{u16}
use pqc_esp32s3_benchmarks.Session.Frames.{
  send_from, send_all, recv_from, recv_all, frame_head, write_frame, read_payload, read_frame,
}

module _ {Net : Type 0} (s : Sockets Net) (tr : Tracks s) (k : ℤ) where
  open tr use {in_use}

  send_from-keeps : (f : ℕ) (b : List ℕ) (net : Net) → in_use (send_from s f k b net).1 ≡ in_use net
  unfolding send_from
  send_from-keeps f [] net = refl
  send_from-keeps zero (x ∷ xs) net = refl
  send_from-keeps (suc f) (x ∷ xs) net = elim (Bool-cases (count_of n == 0)) [
    | inl e ↦ rw e (tr.send-keeps k (x ∷ xs) net)
    | inr e ↦ rw e (
        send_from-keeps f (drop (count_of n) (x ∷ xs)) (s.send k (x ∷ xs) net).1
        ∙ tr.send-keeps k (x ∷ xs) net)
  ]
    where
      n : ℤ
      n = (s.send k (x ∷ xs) net).0

  send_all-keeps : (b : List ℕ) (net : Net) → in_use (send_all s k b net).1 ≡ in_use net
  unfolding send_all
  send_all-keeps b net = send_from-keeps (length b) b net

  recv_from-keeps :
      (f need : ℕ) (got : List ℕ) (net : Net) → in_use (recv_from s f k need got net).2 ≡ in_use net
  unfolding recv_from
  recv_from-keeps f zero got net = refl
  recv_from-keeps zero (suc need) got net = refl
  recv_from-keeps (suc f) (suc need) got net = elim (Bool-cases (count_of n == 0)) [
    | inl e ↦ rw e (tr.recv-keeps k (suc need) net)
    | inr e ↦ rw e (
        recv_from-keeps f (suc need - count_of n) (got ++ (s.recv k (suc need) net).1)
          (s.recv k (suc need) net).2
        ∙ tr.recv-keeps k (suc need) net)
  ]
    where
      n : ℤ
      n = (s.recv k (suc need) net).0

  recv_all-keeps : (len : ℕ) (net : Net) → in_use (recv_all s k len net).2 ≡ in_use net
  unfolding recv_all
  recv_all-keeps len net = recv_from-keeps len len [] net

  pub write_frame-keeps :
      (type : ℕ) (payload : List ℕ) (len : ℕ) (net : Net)
      → in_use (write_frame s k type payload len net).1 ≡ in_use net
  unfolding write_frame
  write_frame-keeps type payload len net =
      let head = send_all s k (frame_head type len) net in
      elim (Bool-cases head.0) [
        | inl e ↦
            rw e
              (send_all-keeps (take len payload) head.1 ∙ send_all-keeps (frame_head type len) net)
        | inr e ↦ rw e (send_all-keeps (frame_head type len) net)
      ]

  pub read_frame-keeps :
      (capacity : ℕ) (net : Net) → in_use (read_frame s k capacity net).after ≡ in_use net
  unfolding read_frame read_payload
  read_frame-keeps capacity net = elim (Bool-cases head.0) [
    | inr e ↦ rw e (recv_all-keeps 3 net)
    | inl e ↦ elim (Bool-cases (ltb capacity len)) [
      | inl f ↦ rw e (rw f (recv_all-keeps 3 net))
      | inr f ↦ rw e (rw f (recv_all-keeps len head.2 ∙ recv_all-keeps 3 net))
    ]
  ]
    where
      head : Bool × List ℕ × Net
      head = recv_all s k 3 net

      len : ℕ
      len = u16 (bit_or (get_or head.1 1 0 * 2 ^ 8) (get_or head.1 2 0))
