-- ===== src/Session/Compare.antt =====
-- `ct_equal` of pqc_session.c, and that it compares.
use pqc_esp32s3_benchmarks.Prelude.{
  ℕ, zero, suc, ◌<◌, ◌≡◌, refl, ap₂, Bool, true, ◌↔◌, List, [], ◌∷◌, arith, ◌==◌, ==_iff, bit_or,
  bit_xor, length, IsBytes,
}
use pqc_esp32s3_benchmarks.Prelude.Bits.{
  bit_or_eq_zero, bit_xor_eq_zero, bit_xor_self, bit_or-lt, bit_xor-lt,
}
use pqc_esp32s3_benchmarks.Session.Layout.{u8}

-- The loop `for (i = 0; i < len; i++) diff |= (uint8_t)(a[i] ^ b[i])`, on what is left of `a` and
-- `b`. A read past the end of either array ends it.
diff_loop : ℕ → ℕ → List ℕ → List ℕ → ℕ
diff_loop zero diff a b = diff
diff_loop (suc n) diff [] b = diff
diff_loop (suc n) diff (x ∷ a) [] = diff
diff_loop (suc n) diff (x ∷ a) (y ∷ b) = diff_loop n (u8 (bit_or diff (u8 (bit_xor x y)))) a b

unfoldable pub ct_equal : List ℕ → List ℕ → ℕ → Bool
unfolding diff_loop
ct_equal a b len = diff_loop len 0 a b == 0

module _ (d x y : ℕ) (hd : d < 256) (hx : x < 256) (hy : y < 256) where
  -- Neither cast to a byte loses anything.
  diff_byte :
      (u8 (bit_or d (u8 (bit_xor x y))) ≡ bit_or d (bit_xor x y)) × (bit_or d (bit_xor x y) < 256)
  diff_byte =
      let p : bit_xor x y < 256 = bit_xor-lt 8 x y hx hy in
      let r : bit_or d (bit_xor x y) < 256 = bit_or-lt 8 d (bit_xor x y) hd p in (ground arith, r)

diff_loop_zero :
    (n d : ℕ) (a b : List ℕ)
    → d < 256
    → IsBytes a
    → IsBytes b
    → length a ≡ n
    → length b ≡ n
    → diff_loop n d a b ≡ 0
    → (d ≡ 0) × (a ≡ b)
unfolding diff_loop
diff_loop_zero zero d [] [] hd ha hb la lb e = (e, refl)
diff_loop_zero zero d [] (y ∷ b) hd ha hb la lb e = absurd (omega arith)
diff_loop_zero zero d (x ∷ a) b hd ha hb la lb e = absurd (omega arith)
diff_loop_zero (suc n) d [] b hd ha hb la lb e = absurd (omega arith)
diff_loop_zero (suc n) d (x ∷ a) [] hd ha hb la lb e = absurd (omega arith)
diff_loop_zero (suc n) d (x ∷ a) (y ∷ b) hd ha hb la lb e =
    let byte = diff_byte d x y hd ha.0 hb.0 in
    let rest =
      diff_loop_zero n (bit_or d (bit_xor x y)) a b byte.1 ha.1 hb.1 (omega arith) (omega arith)
        (rw byte.0 at e) in
    let parts = bit_or_eq_zero d (bit_xor x y) rest.0 in
    (parts.0, ap₂ ◌∷◌ (bit_xor_eq_zero x y parts.1) rest.1)

diff_loop_self : (n : ℕ) (a : List ℕ) → diff_loop n 0 a a ≡ 0
unfolding diff_loop
diff_loop_self zero a = refl
diff_loop_self (suc n) [] = refl
diff_loop_self (suc n) (x ∷ a) = rw bit_xor_self (diff_loop_self n a)

pub ct_equal_self : (n : ℕ) (a : List ℕ) → ct_equal a a n ≡ true
unfolding ct_equal
ct_equal_self n a = rw diff_loop_self refl

-- On two arrays of `n` bytes, `ct_equal` says exactly whether they hold the same bytes.
pub ct_equal_iff :
    (n : ℕ) (a b : List ℕ)
    → IsBytes a
    → IsBytes b
    → length a ≡ n
    → length b ≡ n
    → (ct_equal a b n ≡ true) ↔ (a ≡ b)
unfolding ct_equal
ct_equal_iff n a b ha hb la lb = (
  λ e. (diff_loop_zero n 0 a b (omega arith) ha hb la lb ((==_iff _ 0).0 e)).1,
  λ e. rw (← e) (rw diff_loop_self refl),
)
