-- ===== src/Session/Frames/Rounds.antt =====
-- The rounds of `recv_all`: its loop without the bound.
use pqc_esp32s3_benchmarks.Prelude.{
  ℕ, zero, suc, ◌-◌, ◌≤◌, ◌≡◌, refl, ◌∙◌, ap, sym, Bool, false, List, [], ◌++◌, append-nil,
  append_assoc, ◌==◌, if◌then◌else◌, count_of, ℤ, arith, Bool-cases, inl, inr,
}
use pqc_esp32s3_benchmarks.Platform.{Sockets}
use pqc_esp32s3_benchmarks.Session.Frames.{recv_from, recv_all}

module _ {Net : Type 0} (s : Sockets Net) where
  -- More rounds than there are bytes to come change nothing, nor does what is stored already.
  recv_from_enough :
      (f g : ℕ) (k : ℤ) (need : ℕ) (got : List ℕ) (net : Net)
      → need ≤ f
      → need ≤ g
      → recv_from s f k need got net ≡ recv_from s g k need got net
  unfolding recv_from
  recv_from_enough f g k zero got net p q = refl
  recv_from_enough zero g k (suc need) got net p q = absurd (omega arith)
  recv_from_enough (suc f) zero k (suc need) got net p q = absurd (omega arith)
  recv_from_enough (suc f) (suc g) k (suc need) got net p q = elim (Bool-cases (count_of n == 0)) [
    | inl e ↦ rw e
    | inr e ↦ rw e (
        recv_from_enough f g k (suc need - count_of n) (got ++ chunk) net' (ground arith)
          (ground arith))
  ]
    where
      n : ℤ
      n = (s.recv k (suc need) net).0

      chunk : List ℕ
      chunk = (s.recv k (suc need) net).1

      net' : Net
      net' = (s.recv k (suc need) net).2

  -- A result with bytes stored in front of it.
  abbrev pub behind : List ℕ → Bool × List ℕ × Net → Bool × List ℕ × Net
  behind pre r = (r.0, pre ++ r.1, r.2)

  recv_from-behind :
      (f : ℕ) (k : ℤ) (need : ℕ) (pre got : List ℕ) (net : Net)
      → recv_from s f k need (pre ++ got) net ≡ behind pre (recv_from s f k need got net)
  unfolding recv_from
  recv_from-behind f k zero pre got net = refl
  recv_from-behind zero k (suc need) pre got net = refl
  recv_from-behind (suc f) k (suc need) pre got net = elim (Bool-cases (count_of n == 0)) [
    | inl e ↦ rw e
    | inr e ↦ rw e (
        ap (λ l. recv_from s f k (suc need - count_of n) l net') (append_assoc pre got chunk)
        ∙ recv_from-behind f k (suc need - count_of n) pre (got ++ chunk) net')
  ]
    where
      n : ℤ
      n = (s.recv k (suc need) net).0

      chunk : List ℕ
      chunk = (s.recv k (suc need) net).1

      net' : Net
      net' = (s.recv k (suc need) net).2

  -- `recv_all` is the loop of the C code with no bound on its rounds: while bytes are missing it calls
  -- `recv` for all of them, fails on a result that is not positive, and otherwise stores what came and
  -- goes on for the rest.
  pub recv_all_loop :
      (k : ℤ) (need : ℕ) (net : Net)
      → recv_all s k (suc need) net ≡ (
          let (n, chunk, net') = s.recv k (suc need) net in
          if count_of n == 0
          then (false, [], net')
          else behind chunk (recv_all s k (suc need - count_of n) net'))
  unfolding recv_all recv_from
  recv_all_loop k need net = elim (Bool-cases (count_of n == 0)) [
    | inl e ↦ rw e
    | inr e ↦ rw e (
        ap (λ l. recv_from s need k (suc need - count_of n) l net') (sym (append-nil chunk))
        ∙ (recv_from-behind need k (suc need - count_of n) chunk [] net'
            ∙ ap (behind chunk) (
                recv_from_enough need (suc need - count_of n) k (suc need - count_of n) [] net'
                  (ground arith) (omega arith))))
  ]
    where
      n : ℤ
      n = (s.recv k (suc need) net).0

      chunk : List ℕ
      chunk = (s.recv k (suc need) net).1

      net' : Net
      net' = (s.recv k (suc need) net).2
