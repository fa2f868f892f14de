-- ===== src/Bench/Order.antt =====
-- The order that `compare_u32` of firmware/esp32s3-bench/main/bench.c gives to `qsort`.
use mathlib.Core.List.{
  Perm, Pairwise, Mem, forall_mem-cons, mem-cons_self, mem-cons_of_mem, not-mem-nil,
}
use mathlib.Core.List.Perm
use native.Mathlib.Bridge.{le_prop}
use pqc_esp32s3_benchmarks.Prelude.{
  ℕ, zero, suc, ◌-◌, ◌≤◌, ◌<◌, ◌≡◌, ◌↔◌, true, false, not, ◌&&◌, Bool, List, [], ◌∷◌, arith, length,
  ℤ, get_or, ap, ◌==◌, ==_iff, Bool-cases, is_zero, is_negative, ◌⊎◌, inl, inr,
}
use pqc_esp32s3_benchmarks.Bench.{compare_u32}

-- `x` does not come after `y`.
abbrev pub AtMost : (ℕ → ℕ → ℤ) → ℕ → ℕ → Type 0
AtMost cmp x y = is_negative (cmp y x) ≡ false

abbrev is_positive : ℤ → Bool
is_positive z = not (is_negative z) && not (is_zero z)

-- A comparator that `qsort` may be given: a total order, told alike from both sides.
pub record IsOrder (cmp : ℕ → ℕ → ℤ) : Type 0 where
  pub opposite : (x y : ℕ) → is_negative (cmp x y) ≡ is_positive (cmp y x)
  pub trans : (x y z : ℕ) → AtMost cmp x y → AtMost cmp y z → AtMost cmp x z
  pub total : (x y : ℕ) → AtMost cmp x y ⊎ AtMost cmp y x

-- `qsort` rearranges its array, and puts it into the order of its comparator.
pub record Sorts (qsort : (ℕ → ℕ → ℤ) → List ℕ → List ℕ) : Type 0 where
  pub ordered : (cmp : ℕ → ℕ → ℤ) (l : List ℕ) → IsOrder cmp → Pairwise (AtMost cmp) (qsort cmp l)
  pub rearranged : (cmp : ℕ → ℕ → ℤ) (l : List ℕ) → IsOrder cmp → Perm (qsort cmp l) l
  pub size : (cmp : ℕ → ℕ → ℤ) (l : List ℕ) → IsOrder cmp → length (qsort cmp l) ≡ length l

-- `compare_u32` tells which of two samples is the smaller.
pub compare_u32-order :
    (x y : ℕ)
    → ((is_negative (compare_u32 x y) ≡ true) ↔ (x < y))
      × ((is_zero (compare_u32 x y) ≡ true) ↔ (x ≡ y))
unfolding compare_u32
compare_u32-order x y = ground arith

AtMost-le : (x y : ℕ) → AtMost compare_u32 x y → x ≤ y
unfolding compare_u32
AtMost-le x y h = ground arith

AtMost-of_le : (x y : ℕ) → x ≤ y → AtMost compare_u32 x y
unfolding compare_u32
AtMost-of_le x y h = ground arith

compare_u32-IsOrder : IsOrder compare_u32
unfolding compare_u32
compare_u32-IsOrder = record {
  opposite = λ x y. ground arith;
  trans = λ x y z h k. AtMost-of_le x z (omega (arith, AtMost-le x y h, AtMost-le y z k));
  total = λ x y. ground arith;
}

-- Elements and positions.
get_or-Mem : (l : List ℕ) (j : ℕ) → j < length l → Mem (get_or l j 0) l
get_or-Mem [] j h = absurd (omega arith)
get_or-Mem (x ∷ l) zero h = mem-cons_self
get_or-Mem (x ∷ l) (suc j) h = mem-cons_of_mem x (get_or-Mem l j (omega arith))

module _ (R : ℕ → ℕ → Type 0) where
  Pairwise-get :
      {l : List ℕ} (i j : ℕ) → Pairwise R l → i < j → j < length l → R (get_or l i 0) (get_or l j 0)
  Pairwise-get i j Pairwise.nil h k = absurd (omega arith)
  Pairwise-get {l = _} i zero (Pairwise.cons below s) h k = absurd (omega arith)
  Pairwise-get zero (suc j) (Pairwise.cons {l = l} below s) h k =
      below (get_or l j 0) (get_or-Mem l j (omega arith))
  Pairwise-get (suc i) (suc j) (Pairwise.cons {l = l} below s) h k =
      Pairwise-get {l = l} i j s (omega arith) (omega arith)

module _ (P : ℕ → Type 0) (prop : (x : ℕ) → IsProp (P x)) where
  everywhere : (l : List ℕ) → ((j : ℕ) → j < length l → P (get_or l j 0)) → (x : ℕ) → Mem x l → P x
  everywhere [] h = λ x m. absurd (not-mem-nil m)
  everywhere (y ∷ l) h =
      (forall_mem-cons prop).1 (h 0 (omega arith), everywhere l (λ j k. h (suc j) (omega arith)))

module _ (qsort : (ℕ → ℕ → ℤ) → List ℕ → List ℕ) (sorts : Sorts qsort) (l : List ℕ) where
  sorted : List ℕ
  sorted = qsort compare_u32 l

  length-sorted : length (qsort compare_u32 l) ≡ length l
  length-sorted = sorts.size compare_u32 l compare_u32-IsOrder

  pub Sorts-below :
      (i j : ℕ)
      → i ≤ j
      → j < length l
      → get_or (qsort compare_u32 l) i 0 ≤ get_or (qsort compare_u32 l) j 0
  unfolding sorted
  Sorts-below i j h k = elim (Bool-cases (i == j)) [
    | inl e ↦ omega (arith, ap (λ k. get_or (qsort compare_u32 l) k 0) ((==_iff i j).0 e))
    | inr e ↦ AtMost-le _ _ (
        Pairwise-get (AtMost compare_u32) {l = qsort compare_u32 l} i j
          (sorts.ordered compare_u32 l compare_u32-IsOrder) (ground arith)
          (omega (arith, length-sorted)))
  ]

  pub Sorts-ends :
      ((i : ℕ) → i < length l → get_or (qsort compare_u32 l) 0 0 ≤ get_or l i 0)
      × ((i : ℕ) → i < length l → get_or l i 0 ≤ get_or (qsort compare_u32 l) (length l - 1) 0)
  unfolding sorted
  Sorts-ends = (
    λ i h.
        everywhere (λ x. get_or sorted 0 0 ≤ x) (λ x. le_prop) sorted
          (λ j k. Sorts-below 0 j (omega arith) (omega (arith, length-sorted))) (get_or l i 0)
          (within i h),
    λ i h.
        everywhere (λ x. x ≤ get_or sorted (length l - 1) 0) (λ x. le_prop) sorted
          (λ j k. Sorts-below j (length l - 1) (omega (arith, length-sorted)) (omega arith))
          (get_or l i 0) (within i h),
  )
    where
      within : (i : ℕ) → i < length l → Mem (get_or l i 0) sorted
      within i h =
          (Perm.mem_iff (sorts.rearranged compare_u32 l compare_u32-IsOrder)).1 (get_or-Mem l i h)
