-- ===== src/Session/Frames/Live.antt =====
-- The two transfer loops over a live connection: they move all that they are asked to.
use pqc_esp32s3_benchmarks.Prelude.{
  ℕ, zero, suc, ◌-◌, ◌≤◌, ◌<◌, ◌≡◌, refl, ◌∙◌, ap, true, false, List, [], ◌∷◌, ◌++◌, ◌==◌, count_of,
  length, drop, ℤ, arith, length-append, length-drop, append-split,
}
use pqc_esp32s3_benchmarks.Platform.{Sockets, IsStream, IsLive}
use pqc_esp32s3_benchmarks.Session.Frames.{send_from, send_all, recv_from, recv_all}
use pqc_esp32s3_benchmarks.Session.Frames.Loops.{recv_all-Gets}

module _ {Net : Type 0} (s : Sockets Net) (st : IsStream s) where
  open st use {sent, pending, send-sent, recv-sent, recv-pending, recv-count, recv-capacity}

  module _ (lv : IsLive s st) where
    open lv use {send_progress, recv_progress}

    send_from-true :
        (f : ℕ) (k : ℤ) (b : List ℕ) (net : Net) → length b ≤ f → (send_from s f k b net).0 ≡ true
    unfolding send_from
    send_from-true f k [] net h = refl
    send_from-true zero k (x ∷ xs) net h = absurd (omega arith)
    send_from-true (suc f) k (x ∷ xs) net h =
        let n = count_of (s.send k (x ∷ xs) net).0 in
        let go : 0 < n = send_progress k (x ∷ xs) net (omega arith) in
        let e : (n == 0) ≡ false = ground arith in
        rw e (
          send_from-true f k (drop n (x ∷ xs)) (s.send k (x ∷ xs) net).1
            (omega (arith, length-drop n (x ∷ xs))))

    -- On a live connection `send_all` succeeds.
    pub send_all-true : (k : ℤ) (b : List ℕ) (net : Net) → (send_all s k b net).0 ≡ true
    unfolding send_all
    send_all-true k b net = send_from-true (length b) k b net (omega arith)

    recv_from-true :
        (f : ℕ) (k : ℤ) (need : ℕ) (got : List ℕ) (net : Net)
        → need ≤ f
        → need ≤ length (pending k net)
        → (recv_from s f k need got net).0 ≡ true
    unfolding recv_from
    recv_from-true f k zero got net h p = refl
    recv_from-true zero k (suc need) got net h p = absurd (omega arith)
    recv_from-true (suc f) k (suc need) got net h p =
        let n = count_of (s.recv k (suc need) net).0 in
        let go : 0 < n = recv_progress k (suc need) net (omega arith) (omega arith) in
        let e : (n == 0) ≡ false = ground arith in
        rw e (
          recv_from-true f k (suc need - n) (got ++ (s.recv k (suc need) net).1)
            (s.recv k (suc need) net).2 (omega arith)
            (omega (
              arith,
              recv-count k (suc need) net,
              ap length (recv-pending k (suc need) net),
              length-append (s.recv k (suc need) net).1 (pending k (s.recv k (suc need) net).2),
            )))

    -- On a live connection `recv_all` returns exactly the next bytes of the stream.
    pub recv_all-eq :
        (k : ℤ) (net : Net) (want rest : List ℕ)
        → pending k net ≡ want ++ rest
        → let (ok, bytes, net') = recv_all s k (length want) net in
          (ok ≡ true) × (bytes ≡ want) × (pending k net' ≡ rest) × (sent k net' ≡ sent k net)
    recv_all-eq k net want rest e =
        let g = recv_all-Gets s st k (length want) net in
        let yes_ok =
          recv_all-true k (length want) net (omega (arith, ap length e, length-append want rest)) in
        let parts =
          append-split (recv_all s k (length want) net).1 want (omega (arith, g.full yes_ok))
            (g.whole ∙ e) in
        (yes_ok, parts.0, parts.1, g.quiet)
      where
        recv_all-true :
            (k : ℤ) (len : ℕ) (net : Net)
            → len ≤ length (pending k net)
            → (recv_all s k len net).0 ≡ true
        recv_all-true k len net h =
            unfold recv_all in recv_from-true len k len [] net (omega arith) h
