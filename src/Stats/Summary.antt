-- ===== src/Stats/Summary.antt =====
-- `calculate_stats` of benchmark.c. The average, a double in the source, is kept as its two operands.
pub mod Sorting
pub mod Percentiles
use ipc_benchmark.Prelude.{
  ℕ, zero, suc, ◌+◌, ◌*◌, ◌/◌, ◌%◌, ◌^◌, List, [], ◌∷◌, Option, none, some, ◌>>=◌, ltb,
  if◌then◌else◌, length,
}
use ipc_benchmark.Prelude.Word.{add64}

-- The sign of the `int` that a comparison for `qsort` returns.
pub data Sign : Type 0 where
  negative : Sign
  null : Sign
  positive : Sign

unfoldable pub cmp_uint64 : ℕ → ℕ → Sign
cmp_uint64 a b = if ltb b a then Sign.positive else (if ltb a b then Sign.negative else Sign.null)

-- `qsort` with `cmp_uint64`: in the order of a total order there is one sorted array.
unfoldable pub insert : ℕ → List ℕ → List ℕ
insert x [] = x ∷ []
insert x (y ∷ ys) =
    let rest = insert x ys in
    elim (cmp_uint64 x y) [
      | Sign.positive ↦ y ∷ rest
      | Sign.null ↦ x ∷ y ∷ ys
      | Sign.negative ↦ x ∷ y ∷ ys
    ]

unfoldable pub qsort : List ℕ → List ℕ
qsort [] = []
qsort (x ∷ xs) = insert x (qsort xs)

-- An entry of the array; `none` is a read past its end.
abbrev pub get_elem? : List ℕ → ℕ → Option ℕ
get_elem? [] i = none
get_elem? (x ∷ xs) zero = some x
get_elem? (x ∷ xs) (suc i) = get_elem? xs i

unfoldable pub sum_from : ℕ → List ℕ → ℕ
sum_from sum [] = sum
sum_from sum (x ∷ xs) = sum_from (add64 sum x) xs

-- The fields of `BenchmarkStats` that `calculate_stats` sets.
pub record Summary : Type 0 where
  pub avg_sum : ℕ
  pub avg_count : ℕ
  pub p50 : ℕ
  pub p95 : ℕ
  pub p99 : ℕ

-- The index of a percentile among `count` entries, in type size_t.
abbrev pub percentile_index : (count q : ℕ) → ℕ
percentile_index count q = count * q % 2 ^ 64 / 100

abbrev pub percentile : List ℕ → ℕ → Option ℕ
percentile sorted q = get_elem? sorted (percentile_index (length sorted) q)

unfoldable pub calculate_stats : List ℕ → Summary → Option Summary
calculate_stats [] stats = some stats
calculate_stats (x ∷ xs) stats =
    let latencies = qsort (x ∷ xs) in
    do
      p50 ← percentile latencies 50
      p95 ← percentile latencies 95
      p99 ← percentile latencies 99
      some (record {
        avg_sum = sum_from 0 latencies;
        avg_count = length latencies;
        p50 = p50;
        p95 = p95;
        p99 = p99;
      })
