-- ===== src/Stats/Summary/Percentiles.antt =====
-- The fields that `calculate_stats` of benchmark.c computes.
use ipc_benchmark.Prelude.{
  ℕ, zero, suc, ◌+◌, ◌*◌, ◌%◌, ◌^◌, ◌≤◌, ◌<◌, ◌≡◌, refl, ap, sym, ◌∙◌, List, [], ◌∷◌, some, ltb,
  leb, if◌then◌else◌, length, arith, le→ltb_false,
}
use ipc_benchmark.Prelude.Word.{add64}
use ipc_benchmark.Stats.{max_latencies}
use ipc_benchmark.Stats.Summary.{
  percentile_index, Summary, qsort, get_elem?, sum_from, percentile, calculate_stats,
}
use ipc_benchmark.Stats.Summary.Sorting.{
  Above, IsSorted, below, up_to, total, qsort-IsSorted, qsort_adds,
}

-- An array has an entry at each index below its length.
get_elem?-some : (xs : List ℕ) (i : ℕ) → i < length xs → (v : ℕ) × (get_elem? xs i ≡ some v)
get_elem?-some [] i lt = absurd (omega arith)
get_elem?-some (x ∷ xs) zero lt = (x, refl)
get_elem?-some (x ∷ xs) (suc i) lt = get_elem?-some xs i (omega arith)

Above-below : (x : ℕ) (xs : List ℕ) → Above x xs → below x xs ≡ 0
Above-below x [] h = refl
Above-below x (y ∷ ys) h = rw (le→ltb_false y x h.0) (omega (arith, Above-below x ys h.1))

Above-get : (x : ℕ) (xs : List ℕ) (i v : ℕ) → Above x xs → get_elem? xs i ≡ some v → x ≤ v
Above-get x [] i v h e = cc
Above-get x (y ∷ ys) zero v h e = let same : y ≡ v = cc in omega (arith, h.0, same)
Above-get x (y ∷ ys) (suc i) v h e = Above-get x ys i v h.1 e

-- In a sorted array the entry at `i` has at most `i` entries below it, and more than `i` up to it.
get-rank :
    (xs : List ℕ) (i v : ℕ)
    → IsSorted xs
    → get_elem? xs i ≡ some v
    → (below v xs ≤ i) × (i < up_to v xs)
get-rank [] i v h e = cc
get-rank (x ∷ xs) zero v h e =
    let same : x ≡ v = cc in rw (sym same) (ground (arith, Above-below x xs h.0))
get-rank (x ∷ xs) (suc i) v h e =
    let (few, many) = get-rank xs i v h.1 e in let le = Above-get x xs i v h.0 e in ground arith

sum_from_total :
    (sum : ℕ) (xs : List ℕ) → sum < 2 ^ 64 → sum_from sum xs ≡ (sum + total xs) % 2 ^ 64
unfolding sum_from
sum_from_total sum [] lt = omega arith
sum_from_total sum (x ∷ xs) lt = sum_from_total (add64 sum x) xs (omega arith) ∙ omega arith

-- `p` is the q-th percentile of the entries: at most q per cent of them are below `p`, and more than q per
-- cent are up to `p`.
pub record IsPercentile (xs : List ℕ) (q p : ℕ) : Type 0 where
  pub few_below : 100 * below p xs ≤ q * length xs
  pub many_up_to : q * length xs < 100 * up_to p xs

below-qsort : (v : ℕ) (xs : List ℕ) → below v (qsort xs) ≡ below v xs
below-qsort v xs = qsort_adds (λ x. if ltb x v then 1 else 0) (below v) (λ x ys. refl) xs

up_to-qsort : (v : ℕ) (xs : List ℕ) → up_to v (qsort xs) ≡ up_to v xs
up_to-qsort v xs = qsort_adds (λ x. if leb x v then 1 else 0) (up_to v) (λ x ys. refl) xs

length-qsort : (xs : List ℕ) → length (qsort xs) ≡ length xs
length-qsort xs = qsort_adds (λ x. 1) length (λ x ys. omega arith) xs

percentile_lem :
    (xs : List ℕ) (q : ℕ)
    → length xs * q < 2 ^ 64
    → percentile_index (length xs) q < length xs
    → (p : ℕ) × (percentile (qsort xs) q ≡ some p) × IsPercentile xs q p
percentile_lem xs q small lt =
    let i = percentile_index (length xs) q in
    let (p, e) = get_elem?-some (qsort xs) i (omega (arith, lt, length-qsort xs)) in
    let (few, many) = get-rank (qsort xs) i p (qsort-IsSorted xs) e in
    (
      p,
      ap (λ n. get_elem? (qsort xs) (percentile_index n q)) (length-qsort xs) ∙ e,
      record {
        few_below = omega (arith, few, small, below-qsort p xs);
        many_up_to = omega (arith, many, small, up_to-qsort p xs);
      },
    )

-- From any array of 1 to MAX_LATENCIES latencies, `calculate_stats` computes a summary without a read
-- past the array's end: its 50th, 95th and 99th percentile are those of the latencies, and its average
-- is that of the sum of all latencies, which wraps at 2 ^ 64, over their number.
pub calculate_stats_summary :
    (xs : List ℕ) (stats : Summary)
    → 0 < length xs
    → length xs ≤ max_latencies
    → (summary : Summary) × (calculate_stats xs stats ≡ some summary)
      × IsPercentile xs 50 summary.p50
      × IsPercentile xs 95 summary.p95
      × IsPercentile xs 99 summary.p99
      × (summary.avg_sum ≡ total xs % 2 ^ 64)
      × (summary.avg_count ≡ length xs)
unfolding calculate_stats
calculate_stats_summary [] stats pos few = absurd (omega arith)
calculate_stats_summary (x ∷ xs) stats pos few =
    let (p50, e50, is50) = percentile_lem (x ∷ xs) 50 (omega arith) (omega arith) in
    let (p95, e95, is95) = percentile_lem (x ∷ xs) 95 (omega arith) (omega arith) in
    let (p99, e99, is99) = percentile_lem (x ∷ xs) 99 (omega arith) (omega arith) in
    (
      _,
      rw e50 (rw e95 (rw e99 refl)),
      is50,
      is95,
      is99,
      sum_from_total 0 (qsort (x ∷ xs)) (omega arith)
          ∙ ap (λ n. (0 + n) % 2 ^ 64) (qsort_adds (λ y. y) total (λ y ys. refl) (x ∷ xs))
          ∙ omega arith,
      length-qsort (x ∷ xs),
    )
