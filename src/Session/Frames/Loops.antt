-- ===== src/Session/Frames/Loops.antt =====
-- The two transfer loops over any stream: how much they move, whatever the pieces.
use pqc_esp32s3_benchmarks.Prelude.{
  ℕ, zero, suc, ◌+◌, ◌-◌, ◌≤◌, ◌≡◌, refl, ◌∙◌, ap, Bool, true, false, List, [], ◌∷◌, ◌++◌,
  append-nil, append_assoc, ◌==◌, if◌then◌else◌, count_of, length, take, drop, ℤ, arith, Bool-cases,
  inl, inr, length-append, length-drop, take-add, take-all, eq-nil_of_length, ==_iff,
}
use pqc_esp32s3_benchmarks.Platform.{Sockets, IsStream}
use pqc_esp32s3_benchmarks.Session.Frames.{send_from, send_all, recv_from, recv_all}

module _ {Net : Type 0} (s : Sockets Net) where
  -- More rounds than there are bytes change nothing.
  send_from_enough :
      (f g : ℕ) (k : ℤ) (b : List ℕ) (net : Net)
      → length b ≤ f
      → length b ≤ g
      → send_from s f k b net ≡ send_from s g k b net
  unfolding send_from
  send_from_enough f g k [] net p q = refl
  send_from_enough zero g k (x ∷ xs) net p q = absurd (omega arith)
  send_from_enough (suc f) zero k (x ∷ xs) net p q = absurd (omega arith)
  send_from_enough (suc f) (suc g) k (x ∷ xs) net p q = elim (Bool-cases (count_of n == 0)) [
    | inl e ↦ rw e
    | inr e ↦
        rw e
          (send_from_enough f g k (drop (count_of n) (x ∷ xs)) net' (shorter e f p) (shorter e g q))
  ]
    where
      n : ℤ
      n = (s.send k (x ∷ xs) net).0

      net' : Net
      net' = (s.send k (x ∷ xs) net).1

      shorter :
          (count_of n == 0) ≡ false
          → (f : ℕ) → suc (length xs) ≤ suc f
          → length (drop (count_of n) (x ∷ xs)) ≤ f
      shorter e f p = ground (arith, length-drop (count_of n) (x ∷ xs))

  -- `send_all` is the loop of the C code with no bound on its rounds: while bytes are left it calls
  -- `send` with all of them, fails on a result that is not positive, and goes on behind what was taken.
  pub send_all_loop :
      (k : ℤ) (x : ℕ) (xs : List ℕ) (net : Net)
      → send_all s k (x ∷ xs) net ≡ (
          let (n, net') = s.send k (x ∷ xs) net in
          if count_of n == 0 then (false, net') else send_all s k (drop (count_of n) (x ∷ xs)) net')
  unfolding send_all send_from
  send_all_loop k x xs net = elim (Bool-cases (count_of n == 0)) [
    | inl e ↦ rw e
    | inr e ↦ rw e (
        send_from_enough (length xs) (length (drop (count_of n) (x ∷ xs))) k
          (drop (count_of n) (x ∷ xs)) (s.send k (x ∷ xs) net).1
          (ground (arith, length-drop (count_of n) (x ∷ xs))) (omega arith))
  ]
    where
      n : ℤ
      n = (s.send k (x ∷ xs) net).0

module _ {Net : Type 0} (s : Sockets Net) (st : IsStream s) where
  open st use {sent, pending, send-sent, recv-sent, recv-pending, recv-count, recv-capacity}

  -- What `send_all` leaves behind: a first part of the buffer is sent, the whole of it on success.
  pub record Sends (k : ℤ) (b : List ℕ) (net : Net) (result : Bool × Net) : Type 0 where
    pub count : ℕ
    pub moved : sent k result.1 ≡ sent k net ++ take count b
    pub all : result.0 ≡ true → length b ≤ count

  Sends-step :
      (k : ℤ) (b : List ℕ) (net : Net) (r : Bool × Net)
      → let (n, net') = s.send k b net in Sends k (drop (count_of n) b) net' r → Sends k b net r
  Sends-step k b net r later = record {
    count = n + later.count;
    moved = later.moved ∙ rw (send-sent k b net, append_assoc, take-add n later.count b);
    all = λ q. omega (arith, later.all q, length-drop n b);
  }
    where
      n : ℕ
      n = count_of (s.send k b net).0

  send_from-Sends :
      (f : ℕ) (k : ℤ) (b : List ℕ) (net : Net)
      → length b ≤ f
      → Sends k b net (send_from s f k b net)
  unfolding send_from
  send_from-Sends f k [] net h = record { count = 0; moved = rw append-nil; all = λ e. omega arith }
  send_from-Sends zero k (x ∷ xs) net h = absurd (omega arith)
  send_from-Sends (suc f) k (x ∷ xs) net h = elim (Bool-cases (count_of n == 0)) [
    | inl e ↦ rw e (record { count = count_of n; moved = send-sent k (x ∷ xs) net; all = λ q. cc })
    | inr e ↦ rw e (
        Sends-step k (x ∷ xs) net _ (
          send_from-Sends f k (drop (count_of n) (x ∷ xs)) (s.send k (x ∷ xs) net).1
            (ground (arith, length-drop (count_of n) (x ∷ xs)))))
  ]
    where
      n : ℤ
      n = (s.send k (x ∷ xs) net).0

  -- `send_all` hands a first part of the buffer to the network, and all of it if it returns true.
  pub send_all-Sends : (k : ℤ) (b : List ℕ) (net : Net) → Sends k b net (send_all s k b net)
  unfolding send_all
  send_all-Sends k b net = send_from-Sends (length b) k b net (omega arith)

  pub send_all-sent :
      (k : ℤ) (b : List ℕ) (net : Net)
      → (send_all s k b net).0 ≡ true
      → sent k (send_all s k b net).1 ≡ sent k net ++ b
  send_all-sent k b net e =
      let r = send_all-Sends k b net in
      r.moved ∙ ap (◌++◌ (sent k net)) (take-all r.count b (r.all e))

  -- What `recv_all` leaves behind, with `got` stored and `need` bytes to go: nothing of the stream
  -- is lost or reordered, and on success the buffer is full.
  pub record Gets (k : ℤ) (need : ℕ) (got : List ℕ) (net : Net) (r : Bool × List ℕ × Net)
      : Type 0 where
    pub whole : r.1 ++ pending k r.2 ≡ got ++ pending k net
    pub quiet : sent k r.2 ≡ sent k net
    pub full : r.0 ≡ true → length r.1 ≡ length got + need

  Gets-step :
      (k : ℤ) (need : ℕ) (got : List ℕ) (net : Net) (r : Bool × List ℕ × Net)
      → let (n, chunk, net') = s.recv k need net in
        Gets k (need - count_of n) (got ++ chunk) net' r → Gets k need got net r
  Gets-step k need got net r later = record {
    whole = later.whole ∙ (append_assoc got chunk _ ∙ ap (◌++◌ got) (recv-pending k need net));
    quiet = later.quiet ∙ recv-sent k need net;
    full = λ e. omega (
      arith,
      later.full e,
      length-append got chunk,
      recv-count k need net,
      recv-capacity k need net,
    );
  }
    where
      chunk : List ℕ
      chunk = (s.recv k need net).1

  Gets-stop :
      (k : ℤ) (need : ℕ) (got : List ℕ) (net : Net)
      → count_of (s.recv k need net).0 ≡ 0
      → Gets k need got net (false, got, (s.recv k need net).2)
  Gets-stop k need got net e = record {
    whole = ap (◌++◌ got) (
        rw (eq-nil_of_length (s.recv k need net).1 (recv-count k need net ∙ e)) at
          (recv-pending k need net));
    quiet = recv-sent k need net;
    full = λ q. cc;
  }

  recv_from-Gets :
      (f : ℕ) (k : ℤ) (need : ℕ) (got : List ℕ) (net : Net)
      → need ≤ f
      → Gets k need got net (recv_from s f k need got net)
  unfolding recv_from
  recv_from-Gets f k zero got net h = record { whole = refl; quiet = refl; full = λ e. omega arith }
  recv_from-Gets zero k (suc need) got net h = absurd (omega arith)
  recv_from-Gets (suc f) k (suc need) got net h = elim (Bool-cases (count_of n == 0)) [
    | inl e ↦ rw e (Gets-stop k (suc need) got net ((==_iff _ 0).0 e))
    | inr e ↦ rw e (
        Gets-step k (suc need) got net _ (
          recv_from-Gets f k (suc need - count_of n) (got ++ (s.recv k (suc need) net).1)
            (s.recv k (suc need) net).2 (ground arith)))
  ]
    where
      n : ℤ
      n = (s.recv k (suc need) net).0

  length-recv_from :
      (f : ℕ) (k : ℤ) (need : ℕ) (got : List ℕ) (net : Net)
      → length (recv_from s f k need got net).1 ≤ length got + need
  unfolding recv_from
  length-recv_from f k zero got net = omega arith
  length-recv_from zero k (suc need) got net = omega arith
  length-recv_from (suc f) k (suc need) got net = elim (Bool-cases (count_of n == 0)) [
    | inl e ↦ rw e (omega arith)
    | inr e ↦ rw e (
        omega (
          arith,
          length-recv_from f k (suc need - count_of n) (got ++ (s.recv k (suc need) net).1)
              (s.recv k (suc need) net).2,
          length-append got (s.recv k (suc need) net).1,
          recv-count k (suc need) net,
          recv-capacity k (suc need) net,
        ))
  ]
    where
      n : ℤ
      n = (s.recv k (suc need) net).0

  -- `recv_all` never stores more than it is asked for.
  pub length-recv_all : (k : ℤ) (len : ℕ) (net : Net) → length (recv_all s k len net).1 ≤ len
  unfolding recv_all
  length-recv_all k len net = omega (arith, length-recv_from len k len [] net)

  -- However `recv` cuts the stream up, `recv_all` stores the bytes next on it, in order, leaves the
  -- rest on it, and sends nothing; if it returns true it stored `len` of them.
  pub recv_all-Gets : (k : ℤ) (len : ℕ) (net : Net) → Gets k len [] net (recv_all s k len net)
  unfolding recv_all
  recv_all-Gets k len net = recv_from-Gets len k len [] net (omega arith)
