-- ===== src/Session/Frames/Partial.antt =====
-- What `write_frame` and `read_frame` do to the wire on every path.
use pqc_esp32s3_benchmarks.Prelude.{
  ℕ, zero, suc, ◌≡◌, refl, ◌∙◌, ap, Bool, true, List, [], ◌∷◌, ◌++◌, append_assoc, take, ltb, ℤ,
  length, ◌≤◌, ◌*◌, ◌^◌, Bool-cases, inl, inr, get_or, arith, false, bit_or,
}
use pqc_esp32s3_benchmarks.Platform.{Sockets, IsStream}
use pqc_esp32s3_benchmarks.Session.Layout.{u16}
use pqc_esp32s3_benchmarks.Session.Frames.{
  send_all, recv_all, frame_head, write_frame, read_payload, read_frame,
}
use pqc_esp32s3_benchmarks.Session.Frames.Loops.{
  Sends, send_all-Sends, send_all-sent, recv_all-Gets, length-recv_all,
}

-- A first part of a list is one of a longer list.
take-front : (c : ℕ) (xs ys : List ℕ) → (n : ℕ) × (take c xs ≡ take n (xs ++ ys))
take-front zero xs ys = (0, refl)
take-front (suc c) [] ys = (0, refl)
take-front (suc c) (x ∷ xs) ys = let (n, e) = take-front c xs ys in (suc n, ap (λ l. x ∷ l) e)

take-behind : (c : ℕ) (xs ys : List ℕ) → (n : ℕ) × (xs ++ take c ys ≡ take n (xs ++ ys))
take-behind c [] ys = (c, refl)
take-behind c (x ∷ xs) ys = let (n, e) = take-behind c xs ys in (suc n, ap (λ l. x ∷ l) e)

module _ {Net : Type 0} (s : Sockets Net) (st : IsStream s) where
  open st use {sent}

  -- Whatever it returns, `read_frame` stores no more than there is room for.
  pub length-read_frame :
      (k : ℤ) (capacity : ℕ) (net : Net) → length (read_frame s k capacity net).bytes ≤ capacity
  unfolding read_frame read_payload
  length-read_frame k capacity net = elim (Bool-cases (recv_all s k 3 net).0) [
    | inr e ↦ rw e (omega arith)
    | inl e ↦ elim (Bool-cases (ltb capacity len)) [
      | inl f ↦ rw e (rw f (omega arith))
      | inr f ↦ rw e (rw f (within f))
    ]
  ]
    where
      head : List ℕ
      head = (recv_all s k 3 net).1

      len : ℕ
      len = u16 (bit_or (get_or head 1 0 * 2 ^ 8) (get_or head 2 0))

      within :
          ltb capacity len ≡ false → length (recv_all s k len (recv_all s k 3 net).2).1 ≤ capacity
      within f = ground (arith, length-recv_all s st k len (recv_all s k 3 net).2)

  -- Whatever it returns, `write_frame` sends a first part of the frame.
  pub write_frame-part :
      (k : ℤ) (type : ℕ) (buf : List ℕ) (len : ℕ) (net : Net)
      → (n : ℕ) × (sent k (write_frame s k type buf len net).1
          ≡ sent k net ++ take n (frame_head type len ++ take len buf))
  unfolding write_frame
  write_frame-part k type buf len net = elim (Bool-cases head.0) [
    | inl e ↦
        let (n, cut) = take-behind behind.count (frame_head type len) (take len buf) in
        (
          n,
          rw e (
              behind.moved
              ∙ (ap (λ l. l ++ take behind.count (take len buf)) (whole e)
                  ∙ (append_assoc (sent k net) (frame_head type len) _
                      ∙ ap (λ l. sent k net ++ l) cut))),
        )
    | inr e ↦
        let (n, cut) = take-front front.count (frame_head type len) (take len buf) in
        (n, rw e (front.moved ∙ ap (λ l. sent k net ++ l) cut))
  ]
    where
      head : Bool × Net
      head = send_all s k (frame_head type len) net

      front : Sends s st k (frame_head type len) net head
      front = send_all-Sends s st k (frame_head type len) net

      behind : Sends s st k (take len buf) head.1 (send_all s k (take len buf) head.1)
      behind = send_all-Sends s st k (take len buf) head.1

      whole : head.0 ≡ true → sent k head.1 ≡ sent k net ++ frame_head type len
      whole e = send_all-sent s st k (frame_head type len) net e

  -- `read_frame` sends nothing.
  pub read_frame-quiet :
      (k : ℤ) (capacity : ℕ) (net : Net) → sent k (read_frame s k capacity net).after ≡ sent k net
  unfolding read_frame read_payload
  read_frame-quiet k capacity net = elim (Bool-cases head.0) [
    | inr e ↦ rw e (recv_all-Gets s st k 3 net).quiet
    | inl e ↦ rw e (payload (get_or head.1 0 0) _ ∙ (recv_all-Gets s st k 3 net).quiet)
  ]
    where
      head : Bool × List ℕ × Net
      head = recv_all s k 3 net

      payload :
          (type len : ℕ) → sent k (read_payload s k capacity type len head.2).after ≡ sent k head.2
      payload type len = elim (Bool-cases (ltb capacity len)) [
        | inl e ↦ rw e refl
        | inr e ↦ rw e (recv_all-Gets s st k len head.2).quiet
      ]
