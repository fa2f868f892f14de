-- ===== src/Selftest/Verdict.antt =====
-- What a pass of the self-test says of the library, and what it lets through.
use pqc_esp32s3_benchmarks.Prelude.{
  ℕ, ◌≡◌, ◌≢◌, refl, ◌∙◌, ap, sym, Bool, true, false, not, List, is_zero, Bool-cases, inl, inr,
  take, ◌&&◌, arith, length,
}
use pqc_esp32s3_benchmarks.Kem.{Kem, same_bytes, same_bytes_eq, same_bytes_self}
use pqc_esp32s3_benchmarks.Selftest.{
  fill_pattern, pattern_from, roundtrip, flip_first, implicit_rejection_768, mlkem_selftest_run,
}

-- A parameter set that works as documented, for the 64 bytes of a key generation and the 32 of an
-- encapsulation: on keys that it generated itself, and on cipher texts for those keys, every call
-- succeeds, and decapsulation undoes encapsulation. Nothing is asked of other keys, which the library
-- may refuse.
pub record Agrees (kem : Kem) : Type 0 where
  pub keygen_ok : (d : List ℕ) → length d ≡ 64 → is_zero (kem.keypair_derand d).0 ≡ true
  pub enc_ok :
      (d m : List ℕ)
      → length d ≡ 64
      → length m ≡ 32
      → is_zero (kem.enc_derand (kem.keypair_derand d).1 m).0 ≡ true
  pub dec_ok :
      (d m : List ℕ)
      → length d ≡ 64
      → length m ≡ 32
      → let (_, pk, sk) = kem.keypair_derand d in
        let (_, ct, _) = kem.enc_derand pk m in
        (is_zero (kem.dec ct sk).0 ≡ true) × (is_zero (kem.dec (flip_first ct) sk).0 ≡ true)
  pub agree :
      (d m : List ℕ)
      → length d ≡ 64
      → length m ≡ 32
      → let (_, pk, sk) = kem.keypair_derand d in
        let (_, ct, ss) = kem.enc_derand pk m in (kem.dec ct sk).1 ≡ ss

-- A cipher text whose first byte was changed decapsulates to another secret.
pub record Rejects (kem : Kem) : Type 0 where
  pub rejects :
      (d m : List ℕ)
      → length d ≡ 64
      → length m ≡ 32
      → let (_, pk, sk) = kem.keypair_derand d in
        let (_, ct, ss) = kem.enc_derand pk m in take 32 (kem.dec (flip_first ct) sk).1 ≢ take 32 ss

coins_size : (a : ℕ) → length (fill_pattern 64 a) ≡ 64
unfolding fill_pattern pattern_from
coins_size a = refl

msg_size : (a : ℕ) → length (fill_pattern 32 a) ≡ 32
unfolding fill_pattern pattern_from
msg_size a = refl

roundtrip-Agrees : (kem : Kem) (a b : ℕ) → Agrees kem → roundtrip kem a b ≡ true
unfolding roundtrip
roundtrip-Agrees kem a b ok =
    rw
      (
        ok.keygen_ok (fill_pattern 64 a) (coins_size a),
        ok.enc_ok (fill_pattern 64 a) (fill_pattern 32 b) (coins_size a) (msg_size b),
        (ok.dec_ok (fill_pattern 64 a) (fill_pattern 32 b) (coins_size a) (msg_size b)).0,
        ok.agree (fill_pattern 64 a) (fill_pattern 32 b) (coins_size a) (msg_size b),
      )
      (same_bytes_self 32
        (kem.enc_derand (kem.keypair_derand (fill_pattern 64 a)).1 (fill_pattern 32 b)).2)

implicit_rejection-eq :
    (kem : Kem)
    → Agrees kem
    → let (_, pk, sk) = kem.keypair_derand (fill_pattern 64 0x55) in
      let (_, ct, ss) = kem.enc_derand pk (fill_pattern 32 0x66) in
      implicit_rejection_768 kem ≡ not (same_bytes 32 ss (kem.dec (flip_first ct) sk).1)
unfolding implicit_rejection_768
implicit_rejection-eq kem ok =
    rw
      (
        ok.keygen_ok (fill_pattern 64 0x55) (coins_size 0x55),
        ok.enc_ok (fill_pattern 64 0x55) (fill_pattern 32 0x66) (coins_size 0x55) (msg_size 0x66),
        (ok.dec_ok (fill_pattern 64 0x55) (fill_pattern 32 0x66) (coins_size 0x55)
            (msg_size 0x66)).1,
      )
      refl

-- A library that works as documented on its own keys at both levels, and that at level 768 decapsulates
-- a cipher text whose first byte was changed to another secret, passes the self-test.
pub selftest-Rejects :
    (kem512 kem768 : Kem)
    → Agrees kem512
    → Agrees kem768
    → Rejects kem768
    → mlkem_selftest_run kem512 kem768 ≡ true
unfolding mlkem_selftest_run
selftest-Rejects kem512 kem768 ok512 ok768 rej =
    rw
      (
        roundtrip-Agrees kem512 0x11 0x22 ok512,
        roundtrip-Agrees kem768 0x33 0x44 ok768,
        implicit_rejection-eq kem768 ok768,
        differs,
      )
      refl
  where
    differs :
        same_bytes 32
          (kem768.enc_derand
            (kem768.keypair_derand (fill_pattern 64 0x55)).1
            (fill_pattern 32 0x66)).2
          (kem768.dec
            (flip_first
              (kem768.enc_derand
                (kem768.keypair_derand (fill_pattern 64 0x55)).1
                (fill_pattern 32 0x66)).1)
            (kem768.keypair_derand (fill_pattern 64 0x55)).2).1
        ≡ false
    differs = elim (Bool-cases (same_bytes 32 _ _)) [
      | inr e ↦ e
      | inl e ↦ absurd (
          rej.rejects (fill_pattern 64 0x55) (fill_pattern 32 0x66) (coins_size 0x55)
            (msg_size 0x66) (sym (same_bytes_eq 32 _ _ e)))
    ]

-- If the 768 set works as documented on its own keys (every call succeeds, and decapsulation gives the
-- encapsulated secret) but its decapsulation does not depend on the cipher text, the self-test fails.
pub selftest-blind :
    (kem512 kem768 : Kem)
    → Agrees kem768
    → ((ct ct' sk : List ℕ) → kem768.dec ct sk ≡ kem768.dec ct' sk)
    → mlkem_selftest_run kem512 kem768 ≡ false
unfolding mlkem_selftest_run
selftest-blind kem512 kem768 ok blind =
    rw
      (
        implicit_rejection-eq kem768 ok,
        ap (λ r. r.1) (blind (flip_first c) c k)
            ∙ ok.agree (fill_pattern 64 0x55) (fill_pattern 32 0x66) (coins_size 0x55)
                (msg_size 0x66),
        same_bytes_self 32
            (kem768.enc_derand (kem768.keypair_derand (fill_pattern 64 0x55)).1
              (fill_pattern 32 0x66)).2,
      )
      (last (roundtrip kem512 0x11 0x22) (roundtrip kem768 0x33 0x44))
  where
    k : List ℕ
    k = (kem768.keypair_derand (fill_pattern 64 0x55)).2

    c : List ℕ
    c =
        (kem768.enc_derand (kem768.keypair_derand (fill_pattern 64 0x55)).1
          (fill_pattern 32 0x66)).1

    last : (a b : Bool) → (true && a && b && false) ≡ false
    last a b = ground arith
