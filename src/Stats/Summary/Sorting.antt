-- ===== src/Stats/Summary/Sorting.antt =====
-- The array of `calculate_stats` of benchmark.c, as `qsort` leaves it.
use ipc_benchmark.Prelude.{
  ℕ, ◌+◌, ◌≤◌, ◌<◌, ◌≡◌, refl, List, [], ◌∷◌, ltb, leb, if◌then◌else◌, arith, Bool-cases, inl, inr,
  ltb→lt,
}
use ipc_benchmark.Stats.Summary.{Sign, cmp_uint64, insert, qsort}

abbrev pub Above : ℕ → List ℕ → Type 0
Above x [] = Unit
Above x (y ∷ ys) = (x ≤ y) × Above x ys

abbrev pub IsSorted : List ℕ → Type 0
IsSorted [] = Unit
IsSorted (x ∷ xs) = Above x xs × IsSorted xs

-- How many entries are less than `v`, and how many are at most `v`.
abbrev pub below : ℕ → List ℕ → ℕ
below v [] = 0
below v (x ∷ xs) = (if ltb x v then 1 else 0) + below v xs

abbrev pub up_to : ℕ → List ℕ → ℕ
up_to v [] = 0
up_to v (x ∷ xs) = (if leb x v then 1 else 0) + up_to v xs

abbrev pub total : List ℕ → ℕ
total [] = 0
total (x ∷ xs) = x + total xs

-- A comparison by `cmp_uint64` is one of the numbers.
cmp_cases :
    (x y : ℕ) {ys rest : List ℕ} (P : List ℕ → Type 0)
    → (y < x → P (y ∷ rest))
    → (x ≤ y → P (x ∷ y ∷ ys))
    → P (elim (cmp_uint64 x y) [
      | Sign.positive ↦ y ∷ rest
      | Sign.null ↦ x ∷ y ∷ ys
      | Sign.negative ↦ x ∷ y ∷ ys
    ])
unfolding cmp_uint64
cmp_cases x y P after before = elim (Bool-cases (ltb y x)) [
  | inl e ↦ rw e (after (ltb→lt y x e))
  | inr e ↦ rw e (elim (Bool-cases (ltb x y)) [
    | inl f ↦ rw f (before (ground arith))
    | inr f ↦ rw f (before (ground arith))
  ])
]

Above-le : (x y : ℕ) (ys : List ℕ) → x ≤ y → Above y ys → Above x ys
Above-le x y [] le h = tt
Above-le x y (z ∷ ys) le h = (omega (arith, h.0), Above-le x y ys le h.1)

insert-Above : (v x : ℕ) (xs : List ℕ) → v ≤ x → Above v xs → Above v (insert x xs)
unfolding insert
insert-Above v x [] le h = (le, tt)
insert-Above v x (y ∷ ys) le h =
    cmp_cases x y (Above v) (λ _. (h.0, insert-Above v x ys le h.1)) (λ _. (le, h))

insert-IsSorted : (x : ℕ) (xs : List ℕ) → IsSorted xs → IsSorted (insert x xs)
unfolding insert
insert-IsSorted x [] h = (tt, tt)
insert-IsSorted x (y ∷ ys) h =
    cmp_cases x y IsSorted (λ lt. (insert-Above y x ys (omega arith) h.0, insert-IsSorted x ys h.1))
      (λ le. ((le, Above-le x y ys le h.0), h))

pub qsort-IsSorted : (xs : List ℕ) → IsSorted (qsort xs)
unfolding qsort
qsort-IsSorted [] = tt
qsort-IsSorted (x ∷ xs) = insert-IsSorted x (qsort xs) (qsort-IsSorted xs)

-- A measure that adds up over the entries does not depend on their order.
module _ (f : ℕ → ℕ) (measure : List ℕ → ℕ)
    (adds : (x : ℕ) (xs : List ℕ) → measure (x ∷ xs) ≡ f x + measure xs) where
  insert_adds : (x : ℕ) (xs : List ℕ) → measure (insert x xs) ≡ f x + measure xs
  unfolding insert
  insert_adds x [] = adds x []
  insert_adds x (y ∷ ys) =
      cmp_cases x y (λ l. measure l ≡ f x + measure (y ∷ ys))
        (λ _. omega (arith, adds y (insert x ys), adds y ys, insert_adds x ys))
        (λ _. adds x (y ∷ ys))

  pub qsort_adds : (xs : List ℕ) → measure (qsort xs) ≡ measure xs
  unfolding qsort
  qsort_adds [] = refl
  qsort_adds (x ∷ xs) = omega (arith, insert_adds x (qsort xs), adds x xs, qsort_adds xs)
