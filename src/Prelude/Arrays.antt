-- ===== src/Prelude/Arrays.antt =====
-- C byte arrays: slices, and copies at an offset.
use Prim.Native.Nat.{ℕ, zero, suc, ◌+◌, ◌≤◌, ◌<◌, ◌/◌, ◌%◌}
use Prim.Native.Char.{code}
use Prim.Native.String.{String}
use mathlib.Core.Path.{◌≡◌, refl, ap, ap₂, ◌∙◌}
use mathlib.Core.List.{List, [], ◌∷◌, ◌++◌}
use native.Mathlib.Omega.{arith}
use pqc_esp32s3_benchmarks.Prelude.Lists.{length, take, drop}
use pqc_esp32s3_benchmarks.Prelude.Tests.{if◌then◌else◌, ltb}

-- Every element is a byte.
abbrev pub IsBytes : List ℕ → Type 0
IsBytes [] = Unit {0}
IsBytes (x ∷ xs) = (x < 256) × IsBytes xs

module _ {ℓ} {A : Type ℓ} where
  -- `memcpy(dst, src, length src)`. What does not fit makes the result longer than `dst`: a buffer that
  -- keeps its length was not written past its end.
  abbrev pub overwrite : List A → List A → List A
  overwrite [] src = src
  overwrite (x ∷ dst) [] = x ∷ dst
  overwrite (x ∷ dst) (y ∷ src) = y ∷ overwrite dst src

  -- `memcpy(dst + at, src, length src)`
  abbrev pub blit : List A → ℕ → List A → List A
  blit dst zero src = overwrite dst src
  blit [] (suc at) src = src
  blit (x ∷ dst) (suc at) src = x ∷ blit dst at src

  -- The `n` bytes at `buf + at`.
  abbrev pub slice : ℕ → ℕ → List A → List A
  slice at n buf = take n (drop at buf)

  -- A copy inside the buffer keeps its length.
  pub length-overwrite :
      (dst src : List A) → length src ≤ length dst → length (overwrite dst src) ≡ length dst
  length-overwrite [] [] h = refl
  length-overwrite [] (y ∷ src) h = absurd (omega arith)
  length-overwrite (x ∷ dst) [] h = refl
  length-overwrite (x ∷ dst) (y ∷ src) h = ap suc (length-overwrite dst src (omega arith))

  pub length-blit :
      (dst : List A) (at : ℕ) (src : List A)
      → at + length src ≤ length dst
      → length (blit dst at src) ≡ length dst
  length-blit dst zero src h = length-overwrite dst src (omega arith)
  length-blit [] (suc at) src h = absurd (omega arith)
  length-blit (x ∷ dst) (suc at) src h = ap suc (length-blit dst at src (omega arith))

  pub overwrite-append :
      (src rest : List A)
      → length src ≤ length rest
      → overwrite rest src ≡ src ++ drop (length src) rest
  overwrite-append [] [] h = refl
  overwrite-append [] (x ∷ rest) h = refl
  overwrite-append (y ∷ src) [] h = absurd (omega arith)
  overwrite-append (y ∷ src) (x ∷ rest) h = ap (◌∷◌ y) (overwrite-append src rest (omega arith))

  -- A copy behind what is written already extends it.
  pub blit-append :
      (pre src rest : List A)
      → length src ≤ length rest
      → blit (pre ++ rest) (length pre) src ≡ pre ++ (src ++ drop (length src) rest)
  blit-append [] src rest h = overwrite-append src rest h
  blit-append (x ∷ pre) src rest h = ap (◌∷◌ x) (blit-append pre src rest h)

  pub take-append_exact : (xs ys : List A) → take (length xs) (xs ++ ys) ≡ xs
  take-append_exact [] ys = refl
  take-append_exact (x ∷ xs) ys = ap (◌∷◌ x) (take-append_exact xs ys)

  pub drop-append_exact : (xs ys : List A) → drop (length xs) (xs ++ ys) ≡ ys
  drop-append_exact [] ys = refl
  drop-append_exact (x ∷ xs) ys = drop-append_exact xs ys

  pub take-append_of_eq : (n : ℕ) (xs ys : List A) → length xs ≡ n → take n (xs ++ ys) ≡ xs
  take-append_of_eq zero [] ys e = refl
  take-append_of_eq zero (x ∷ xs) ys e = absurd (omega arith)
  take-append_of_eq (suc n) [] ys e = absurd (omega arith)
  take-append_of_eq (suc n) (x ∷ xs) ys e = ap (◌∷◌ x) (take-append_of_eq n xs ys (omega arith))

  pub drop-append_of_eq : (n : ℕ) (xs ys : List A) → length xs ≡ n → drop n (xs ++ ys) ≡ ys
  drop-append_of_eq zero [] ys e = refl
  drop-append_of_eq zero (x ∷ xs) ys e = absurd (omega arith)
  drop-append_of_eq (suc n) [] ys e = absurd (omega arith)
  drop-append_of_eq (suc n) (x ∷ xs) ys e = drop-append_of_eq n xs ys (omega arith)

  pub take-all : (n : ℕ) (xs : List A) → length xs ≤ n → take n xs ≡ xs
  take-all zero [] h = refl
  take-all zero (x ∷ xs) h = absurd (omega arith)
  take-all (suc n) [] h = refl
  take-all (suc n) (x ∷ xs) h = ap (◌∷◌ x) (take-all n xs (omega arith))

  cons_split : (x y : A) (xs ys : List A) → x ∷ xs ≡ y ∷ ys → (x ≡ y) × (xs ≡ ys)
  cons_split x y xs ys e = (cc, cc)

  pub take-add : (m n : ℕ) (xs : List A) → take (m + n) xs ≡ take m xs ++ take n (drop m xs)
  take-add zero n xs = ap (λ (k : ℕ). take k xs) (let e : 0 + n ≡ n = omega arith in e)
  take-add (suc m) zero [] =
      ap (λ (k : ℕ). take k []) (let e : suc m + 0 ≡ suc m = omega arith in e)
  take-add (suc m) (suc n) [] =
      ap (λ (k : ℕ). take k []) (let e : suc m + suc n ≡ suc (m + suc n) = omega arith in e)
  take-add (suc m) n (x ∷ xs) =
      ap (λ (k : ℕ). take k (x ∷ xs)) (let e : suc m + n ≡ suc (m + n) = omega arith in e)
      ∙ ap (◌∷◌ x) (take-add m n xs)

  take-append_front : (n : ℕ) (xs ys : List A) → n ≤ length xs → take n (xs ++ ys) ≡ take n xs
  take-append_front zero xs ys h = refl
  take-append_front (suc n) [] ys h = absurd (omega arith)
  take-append_front (suc n) (x ∷ xs) ys h = ap (◌∷◌ x) (take-append_front n xs ys (omega arith))

  pub slice-append_front :
      (at n : ℕ) (xs ys : List A) → at + n ≤ length xs → slice at n (xs ++ ys) ≡ slice at n xs
  slice-append_front zero n xs ys h = take-append_front n xs ys (omega arith)
  slice-append_front (suc at) n [] ys h = absurd (omega arith)
  slice-append_front (suc at) n (x ∷ xs) ys h = slice-append_front at n xs ys (omega arith)

  pub eq-nil_of_length : (xs : List A) → length xs ≡ 0 → xs ≡ []
  eq-nil_of_length [] e = refl
  eq-nil_of_length (x ∷ xs) e = absurd (omega arith)

  -- Two splits of one list at the same place are the same.
  pub append-split :
      (xs ys : List A) {us vs : List A}
      → length xs ≡ length ys
      → xs ++ us ≡ ys ++ vs
      → (xs ≡ ys) × (us ≡ vs)
  append-split [] [] h e = (refl, e)
  append-split [] (y ∷ ys) h e = absurd (omega arith)
  append-split (x ∷ xs) [] h e = absurd (omega arith)
  append-split (x ∷ xs) (y ∷ ys) {us} {vs} h e =
      let (hd, tl) = cons_split x y (xs ++ us) (ys ++ vs) e in
      let (p, q) = append-split xs ys (omega arith) tl in (ap₂ ◌∷◌ hd p, q)

-- The characters of a C string literal, which is ASCII here.
abbrev pub string_bytes : String → List ℕ
string_bytes String.[] = []
string_bytes (String.◌∷◌ c s) = code c ∷ string_bytes s

pub IsBytes-append : (xs ys : List ℕ) → IsBytes (xs ++ ys) → IsBytes xs × IsBytes ys
IsBytes-append [] ys h = (tt, h)
IsBytes-append (x ∷ xs) ys h = let (p, q) = IsBytes-append xs ys h.1 in ((h.0, p), q)

-- `%u`, and `%d` of what is not negative: the decimal digits of a number, most significant first.
unfoldable pub decimal_fuel : ℕ → ℕ → List ℕ
decimal_fuel zero n = []
decimal_fuel (suc fuel) n =
    let higher = decimal_fuel fuel (n / 10) in
    (if ltb n 10 then [] else higher) ++ (b'0' + n % 10) ∷ []

-- Every number has fewer digits than it counts, with one for zero.
unfoldable pub decimal : ℕ → List ℕ
unfolding decimal_fuel
decimal n = decimal_fuel (suc n) n

pub IsBytes-take : (n : ℕ) (xs : List ℕ) → IsBytes xs → IsBytes (take n xs)
IsBytes-take zero xs h = tt
IsBytes-take (suc n) [] h = tt
IsBytes-take (suc n) (x ∷ xs) h = (h.0, IsBytes-take n xs h.1)

pub IsBytes-drop : (n : ℕ) (xs : List ℕ) → IsBytes xs → IsBytes (drop n xs)
IsBytes-drop zero xs h = h
IsBytes-drop (suc n) [] h = tt
IsBytes-drop (suc n) (x ∷ xs) h = IsBytes-drop n xs h.1

pub IsBytes-overwrite : (dst src : List ℕ) → IsBytes dst → IsBytes src → IsBytes (overwrite dst src)
IsBytes-overwrite [] src h k = k
IsBytes-overwrite (x ∷ dst) [] h k = h
IsBytes-overwrite (x ∷ dst) (y ∷ src) h k = (k.0, IsBytes-overwrite dst src h.1 k.1)

pub IsBytes-blit :
    (dst : List ℕ) (at : ℕ) (src : List ℕ) → IsBytes dst → IsBytes src → IsBytes (blit dst at src)
IsBytes-blit dst zero src h k = IsBytes-overwrite dst src h k
IsBytes-blit [] (suc at) src h k = k
IsBytes-blit (x ∷ dst) (suc at) src h k = (h.0, IsBytes-blit dst at src h.1 k)

pub IsBytes-join : (xs ys : List ℕ) → IsBytes xs → IsBytes ys → IsBytes (xs ++ ys)
IsBytes-join [] ys h k = k
IsBytes-join (x ∷ xs) ys h k = (h.0, IsBytes-join xs ys h.1 k)
