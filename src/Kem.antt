-- ===== src/Kem.antt =====
-- What the self-test, the conformance test and the benchmark call of mlkem-native: one parameter set
-- with its sizes and the functions that take their coins as an argument, and `memcmp`.
use pqc_esp32s3_benchmarks.Prelude.{
  ℕ, zero, suc, ◌≡◌, refl, ap₂, Bool, true, false, ◌&&◌, List, [], ◌∷◌, ℤ, ◌==◌, ==_iff, take,
  Bool-cases, inl, inr,
}

-- Results of calls come with the bytes that the call writes.
pub record Kem : Type 0 where
  pub public_key_bytes : ℕ
  pub secret_key_bytes : ℕ
  pub ciphertext_bytes : ℕ
  -- coins: result, public key, secret key
  pub keypair_derand : List ℕ → ℤ × List ℕ × List ℕ
  -- public key, coins: result, cipher text, secret
  pub enc_derand : List ℕ → List ℕ → ℤ × List ℕ × List ℕ
  -- cipher text, secret key: result, secret
  pub dec : List ℕ → List ℕ → ℤ × List ℕ
  pub check_pk : List ℕ → ℤ
  pub check_sk : List ℕ → ℤ

-- `memcmp(a, b, n) == 0`
unfoldable pub same_bytes : ℕ → List ℕ → List ℕ → Bool
same_bytes zero a b = true
same_bytes (suc n) [] [] = true
same_bytes (suc n) [] (y ∷ b) = false
same_bytes (suc n) (x ∷ a) [] = false
same_bytes (suc n) (x ∷ a) (y ∷ b) = (x == y) && same_bytes n a b

pub same_bytes_eq : (n : ℕ) (a b : List ℕ) → same_bytes n a b ≡ true → take n a ≡ take n b
unfolding same_bytes
same_bytes_eq zero a b e = refl
same_bytes_eq (suc n) [] [] e = refl
same_bytes_eq (suc n) [] (y ∷ b) e = cc e
same_bytes_eq (suc n) (x ∷ a) [] e = cc e
same_bytes_eq (suc n) (x ∷ a) (y ∷ b) e = elim (Bool-cases (x == y)) [
  | inl p ↦ ap₂ ◌∷◌ ((==_iff x y).0 p) (same_bytes_eq n a b (rw p at e))
  | inr p ↦ cc (rw p at e)
]

pub same_bytes_self : (n : ℕ) (a : List ℕ) → same_bytes n a a ≡ true
unfolding same_bytes
same_bytes_self zero a = refl
same_bytes_self (suc n) [] = refl
same_bytes_self (suc n) (x ∷ a) = rw ((==_iff x x).1 refl) (same_bytes_self n a)
