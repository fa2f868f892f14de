-- ===== src/Prelude/Bits.antt =====
-- `|` and `^` of bytes: their bounds, and when they vanish.
-- The native operations mean a recursion on binary digits with fuel; here is its lowest digit.
use Prim.Native.Nat.{ℕ, zero, suc, ◌+◌, ◌*◌, ◌/◌, ◌%◌, ◌^◌, ◌≤◌, ◌<◌, max}
use Prim.Native.Nat.{bit_or, bit_xor, digits, differ, bit_or-bitwise, bit_xor-bitwise}
use mathlib.Core.Path.{◌≡◌, refl, sym, ap, ◌∙◌}
use native.Mathlib.Nat.{le_refl, pow-suc}
use native.Mathlib.Omega.{arith}

module _ (rest : ℕ → ℕ) (digit : ℕ → ℕ → ℕ) where
  digits_none : (fuel b : ℕ) → digits rest digit fuel 0 b ≡ rest b
  digits_none zero b = refl
  digits_none (suc fuel) b = refl

  -- Any fuel that is at least the first number gives the same digits.
  same_digits :
      (a b fuel more : ℕ)
      → a ≤ fuel
      → a ≤ more
      → digits rest digit fuel a b ≡ digits rest digit more a b
  same_digits zero b fuel more low high = digits_none fuel b ∙ sym (digits_none more b)
  same_digits (suc a) b zero more low high = absurd (omega arith)
  same_digits (suc a) b (suc fuel) zero low high = absurd (omega arith)
  same_digits (suc a) b (suc fuel) (suc more) low high =
      omega (arith, same_digits (suc a / 2) (b / 2) fuel more (omega arith) (omega arith))

-- The lowest binary digit of `|` and of `^`, and the digits above it.
bit_or_low : (x y : ℕ) → bit_or x y ≡ 2 * bit_or (x / 2) (y / 2) + max (x % 2) (y % 2)
bit_or_low zero y = simp bit_or-bitwise (omega arith)
bit_or_low (suc x) y = simp bit_or-bitwise (
    omega
      (arith, same_digits (λ b. b) max (suc x / 2) (y / 2) x (suc x / 2) (omega arith) (le_refl _)))

bit_xor_low : (x y : ℕ) → bit_xor x y ≡ 2 * bit_xor (x / 2) (y / 2) + differ (x % 2) (y % 2)
bit_xor_low zero y = simp bit_xor-bitwise (omega arith)
bit_xor_low (suc x) y = simp bit_xor-bitwise (
    omega (
      arith,
      same_digits (λ b. b) differ (suc x / 2) (y / 2) x (suc x / 2) (omega arith) (le_refl _),
    ))

differ_eq_zero : (x y : ℕ) → differ x y ≡ 0 → x ≡ y
differ_eq_zero zero y e = omega arith
differ_eq_zero (suc x) zero e = e
differ_eq_zero (suc x) (suc y) e = omega (arith, differ_eq_zero x y e)

differ_self : (x : ℕ) → differ x x ≡ 0
differ_self zero = refl
differ_self (suc x) = differ_self x

differ-lt_two : (x y : ℕ) → x < 2 → y < 2 → differ x y < 2
differ-lt_two zero y p q = q
differ-lt_two (suc x) zero p q = p
differ-lt_two (suc x) (suc y) p q = differ-lt_two x y (omega arith) (omega arith)

bit_or_zero_fuel : (n a b : ℕ) → a + b ≤ n → bit_or a b ≡ 0 → (a ≡ 0) × (b ≡ 0)
bit_or_zero_fuel zero a b h e = omega arith
bit_or_zero_fuel (suc n) zero b h e = omega (arith, bit_or-bitwise 0 b)
bit_or_zero_fuel (suc n) (suc a) b h e = omega (
  arith,
  bit_or_low (suc a) b,
  bit_or_zero_fuel n (suc a / 2) (b / 2) (omega arith) (omega (arith, bit_or_low (suc a) b)),
)

-- `a | b` is zero only where both are.
pub bit_or_eq_zero : (a b : ℕ) → bit_or a b ≡ 0 → (a ≡ 0) × (b ≡ 0)
bit_or_eq_zero a b e = bit_or_zero_fuel (a + b) a b (le_refl _) e

bit_xor_zero_fuel : (n a b : ℕ) → a ≤ n → bit_xor a b ≡ 0 → a ≡ b
bit_xor_zero_fuel n zero b h e = omega (arith, bit_xor-bitwise 0 b)
bit_xor_zero_fuel zero (suc a) b h e = absurd (omega arith)
bit_xor_zero_fuel (suc n) (suc a) b h e = omega (
  arith,
  differ_eq_zero (suc a % 2) (b % 2) (omega (arith, bit_xor_low (suc a) b)),
  bit_xor_zero_fuel n (suc a / 2) (b / 2) (omega arith) (omega (arith, bit_xor_low (suc a) b)),
)

-- `a ^ b` is zero only where the two are equal.
pub bit_xor_eq_zero : (a b : ℕ) → bit_xor a b ≡ 0 → a ≡ b
bit_xor_eq_zero a b e = bit_xor_zero_fuel a a b (le_refl _) e

bit_xor_self_fuel : (n a : ℕ) → a ≤ n → bit_xor a a ≡ 0
bit_xor_self_fuel n zero h = bit_xor-bitwise 0 0
bit_xor_self_fuel zero (suc a) h = absurd (omega arith)
bit_xor_self_fuel (suc n) (suc a) h = omega (
  arith,
  bit_xor_low (suc a) (suc a),
  differ_self (suc a % 2),
  bit_xor_self_fuel n (suc a / 2) (omega arith),
)

pub bit_xor_self : (a : ℕ) → bit_xor a a ≡ 0
bit_xor_self a = bit_xor_self_fuel a a (le_refl _)

half-lt : (k a : ℕ) → a < 2 ^ suc k → a / 2 < 2 ^ k
half-lt k a h = omega (arith, pow-suc 2 k)

pub bit_or-lt : (k a b : ℕ) → a < 2 ^ k → b < 2 ^ k → bit_or a b < 2 ^ k
bit_or-lt zero a b p q = let e : a ≡ 0 = omega arith in rw e (omega (arith, bit_or-bitwise 0 b))
bit_or-lt (suc k) a b p q = omega (
  arith,
  bit_or_low a b,
  pow-suc 2 k,
  bit_or-lt k (a / 2) (b / 2) (half-lt k a p) (half-lt k b q),
)

pub bit_xor-lt : (k a b : ℕ) → a < 2 ^ k → b < 2 ^ k → bit_xor a b < 2 ^ k
bit_xor-lt zero a b p q = let e : a ≡ 0 = omega arith in rw e (omega (arith, bit_xor-bitwise 0 b))
bit_xor-lt (suc k) a b p q = omega (
  arith,
  bit_xor_low a b,
  pow-suc 2 k,
  differ-lt_two (a % 2) (b % 2) (omega arith) (omega arith),
  bit_xor-lt k (a / 2) (b / 2) (half-lt k a p) (half-lt k b q),
)

bit_or-zero : (a : ℕ) → bit_or a 0 ≡ a
bit_or-zero a = go a a (le_refl _)
  where
    go : (n a : ℕ) → a ≤ n → bit_or a 0 ≡ a
    go n zero h = bit_or-bitwise 0 0
    go zero (suc a) h = absurd (omega arith)
    go (suc n) (suc a) h = omega (arith, bit_or_low (suc a) 0, go n (suc a / 2) (omega arith))

-- `(q << k) | r` is a sum where `r` has `k` bits.
pub bit_or-shifted : (k q r : ℕ) → r < 2 ^ k → bit_or (q * 2 ^ k) r ≡ q * 2 ^ k + r
bit_or-shifted zero q r h =
    let e : r ≡ 0 = omega arith in rw e (omega (arith, bit_or-zero (q * 2 ^ 0)))
bit_or-shifted (suc k) q r h =
    let double : q * 2 ^ suc k ≡ 2 * (q * 2 ^ k) =
      omega (arith, ap (λ (t : ℕ). q * t) (pow-suc 2 k)) in
    let halved : q * 2 ^ suc k / 2 ≡ q * 2 ^ k = omega arith in
    omega (
      arith,
      bit_or_low (q * 2 ^ suc k) r,
      ap (λ (t : ℕ). bit_or t (r / 2)) halved,
      bit_or-shifted k q (r / 2) (half-lt k r h),
    )
