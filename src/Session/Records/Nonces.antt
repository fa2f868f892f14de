-- ===== src/Session/Records/Nonces.antt =====
-- The nonce of a record determines its sequence number.
use pqc_esp32s3_benchmarks.Prelude.{
  ℕ, ◌+◌, ◌*◌, ◌^◌, ◌<◌, ◌≡◌, refl, ◌∙◌, ap, List, [], ◌∷◌, arith, length, sym, drop,
}
use pqc_esp32s3_benchmarks.Session.Records.{seq_loop, seq_bytes, nonce_of}

-- The number that big-endian bytes stand for.
value : ℕ → List ℕ → ℕ
value acc [] = acc
value acc (x ∷ xs) = value (acc * 256 + x) xs

value-seq_bytes : (seq : ℕ) → seq < 2 ^ 64 → value 0 (seq_bytes seq) ≡ seq
unfolding value seq_loop
value-seq_bytes seq h = omega arith

pub length-seq_bytes : (seq : ℕ) → length (seq_bytes seq) ≡ 8
unfolding seq_loop
length-seq_bytes seq = refl

-- The nonce is four zero bytes, then the sequence number.
pub nonce_of-eq : (seq : ℕ) → nonce_of seq ≡ 0 ∷ 0 ∷ 0 ∷ 0 ∷ seq_bytes seq
unfolding seq_loop
nonce_of-eq seq = refl

-- Two 64-bit sequence numbers with the same nonce are equal.
pub nonce_of-injective : (a b : ℕ) → a < 2 ^ 64 → b < 2 ^ 64 → nonce_of a ≡ nonce_of b → a ≡ b
nonce_of-injective a b ha hb e =
    sym (value-seq_bytes a ha)
    ∙ (ap (λ l. value 0 (drop 4 l)) (sym (nonce_of-eq a) ∙ (e ∙ nonce_of-eq b))
        ∙ value-seq_bytes b hb)
