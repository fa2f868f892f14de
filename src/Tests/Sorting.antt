-- ===== src/Tests/Sorting.antt =====
-- A `qsort` by insertion, for the tests of the benchmark.
use mathlib.Core.List.{Perm, Pairwise, Mem, forall_mem-cons, Pairwise-singleton}
use mathlib.Core.List.Perm
use mathlib.Core.Bool.{Bool-set}
use pqc_esp32s3_benchmarks.Prelude.{
  ℕ, suc, ◌≡◌, ◌∙◌, ap, true, List, [], ◌∷◌, length, ℤ, is_negative, if◌then◌else◌, Bool-cases, inl,
  inr, refl,
}
use pqc_esp32s3_benchmarks.Bench.Order.{AtMost, IsOrder, Sorts}

insert : (ℕ → ℕ → ℤ) → ℕ → List ℕ → List ℕ
insert cmp x [] = x ∷ []
insert cmp x (y ∷ ys) =
    let rest = insert cmp x ys in if is_negative (cmp y x) then y ∷ rest else x ∷ y ∷ ys

unfoldable pub insertion_sort : (ℕ → ℕ → ℤ) → List ℕ → List ℕ
unfolding insert
insertion_sort cmp [] = []
insertion_sort cmp (x ∷ xs) = insert cmp x (insertion_sort cmp xs)

module _ (cmp : ℕ → ℕ → ℤ) (order : IsOrder cmp) where
  insert-perm : (x : ℕ) (l : List ℕ) → Perm (insert cmp x l) (x ∷ l)
  unfolding insert
  insert-perm x [] = Perm.rfl
  insert-perm x (y ∷ ys) = elim (Bool-cases (is_negative (cmp y x))) [
    | inl e ↦ rw e (Perm.trans (Perm.cons y (insert-perm x ys)) (Perm.swap x y ys))
    | inr e ↦ rw e Perm.rfl
  ]

  -- What is smaller is at most as large.
  smaller : (x y : ℕ) → is_negative (cmp y x) ≡ true → AtMost cmp y x
  smaller x y e = elim (order.total y x) [ inl h ↦ h | inr h ↦ absurd (cc (rw e at h)) ]

  AtMost-prop : (x y : ℕ) → IsProp (AtMost cmp x y)
  AtMost-prop x y = Bool-set _ _

  above :
      (x y : ℕ) {l : List ℕ}
      → AtMost cmp x y
      → ((z : ℕ) → Mem z l → AtMost cmp y z)
      → (z : ℕ) → Mem z (y ∷ l)
      → AtMost cmp x z
  above x y p below =
      (forall_mem-cons (AtMost-prop x)).1 (p, λ z m. order.trans x y z p (below z m))

  insert-ordered :
      (x : ℕ) {l : List ℕ} → Pairwise (AtMost cmp) l → Pairwise (AtMost cmp) (insert cmp x l)
  unfolding insert
  insert-ordered x Pairwise.nil = Pairwise-singleton _ x
  insert-ordered x (Pairwise.cons {a = y} {l = ys} below s) =
      elim (Bool-cases (is_negative (cmp y x))) [
        | inl e ↦ rw e (
            Pairwise.cons
              (λ z m.
                (forall_mem-cons (AtMost-prop y)).1 (smaller x y e, below) z
                  ((Perm.mem_iff (insert-perm x ys)).0 m))
              (insert-ordered x s))
        | inr e ↦ rw e (Pairwise.cons (above x y e below) (Pairwise.cons below s))
      ]

  insertion_sort-ordered : (l : List ℕ) → Pairwise (AtMost cmp) (insertion_sort cmp l)
  unfolding insertion_sort
  insertion_sort-ordered [] = Pairwise.nil
  insertion_sort-ordered (x ∷ xs) = insert-ordered x (insertion_sort-ordered xs)

  insertion_sort-perm : (l : List ℕ) → Perm (insertion_sort cmp l) l
  unfolding insertion_sort
  insertion_sort-perm [] = Perm.rfl
  insertion_sort-perm (x ∷ xs) =
      Perm.trans (insert-perm x (insertion_sort cmp xs)) (Perm.cons x (insertion_sort-perm xs))

length-insert : (cmp : ℕ → ℕ → ℤ) (x : ℕ) (l : List ℕ) → length (insert cmp x l) ≡ suc (length l)
unfolding insert
length-insert cmp x [] = refl
length-insert cmp x (y ∷ ys) = elim (Bool-cases (is_negative (cmp y x))) [
  | inl e ↦ rw e (ap suc (length-insert cmp x ys))
  | inr e ↦ rw e refl
]

length-insertion_sort : (cmp : ℕ → ℕ → ℤ) (l : List ℕ) → length (insertion_sort cmp l) ≡ length l
unfolding insertion_sort
length-insertion_sort cmp [] = refl
length-insertion_sort cmp (x ∷ xs) =
    length-insert cmp x (insertion_sort cmp xs) ∙ ap suc (length-insertion_sort cmp xs)

pub insertion_sort-Sorts : Sorts insertion_sort
insertion_sort-Sorts = record {
  ordered = λ cmp l order. insertion_sort-ordered cmp order l;
  rearranged = λ cmp l order. insertion_sort-perm cmp order l;
  size = λ cmp l order. length-insertion_sort cmp l;
}
