-- ===== src/UdsBlocking/Client/Summarized.antt =====
-- What `run_uds_blocking_client` leaves, whoever is at the other end.
use ipc_benchmark.Prelude.{
  ℕ, ◌≤◌, ◌≡◌, refl, sym, ◌∙◌, some, List, [], ◌∷◌, if◌then◌else◌, length, arith, Bool-cases, inl,
  inr,
}
use mathlib.Core.Path.{subst}
use ipc_benchmark.Memory.{Memory}
use ipc_benchmark.Stats.{Stats, no_stats, max_latencies}
use ipc_benchmark.Stats.Summary.{Summary, calculate_stats}
use ipc_benchmark.Stats.Summary.Percentiles.{IsPercentile, calculate_stats_summary}
use ipc_benchmark.Socket.{Call}
use ipc_benchmark.Socket.Balance.{frees}
use ipc_benchmark.UdsBlocking.Client.{
  Client, ClientRound, ClientRun, ClientEnd, run_rounds, run_client,
}
use ipc_benchmark.UdsBlocking.Client.Safety.{client_loop-Few}

-- The percentiles of the latencies, where there are any; what was there, where there are none.
abbrev pub Summarizes : List ℕ → (before after : Summary) → Type 0
Summarizes [] before after = after ≡ before
Summarizes (x ∷ xs) before after =
    IsPercentile (x ∷ xs) 50 after.p50
    × IsPercentile (x ∷ xs) 95 after.p95
    × IsPercentile (x ∷ xs) 99 after.p99
    × (after.avg_count ≡ length (x ∷ xs))

summarized :
    (xs : List ℕ) (before : Summary)
    → length xs ≤ max_latencies
    → (after : Summary) × (calculate_stats xs before ≡ some after) × Summarizes xs before after
unfolding calculate_stats
summarized [] before few = (before, refl, refl)
summarized (x ∷ xs) before few =
    let (after, e, p50, p95, p99, avg, count) =
      calculate_stats_summary (x ∷ xs) before (omega arith) few in
    (after, e, (p50, p95, p99, count))

-- How often `malloc` gives memory: the second call is made only after the first.
abbrev pub arrays : ClientRun → ℕ
arrays r = if r.gets_buffer then (if r.gets_latencies then 2 else 1) else 0

-- The run ends, in bounds, and frees what it got.
pub record Finishes (r : ClientRun) (buffer : Memory) (stats : Stats) (summary : Summary)
    : Type 0 where
  pub end : ClientEnd
  pub runs : run_client r buffer stats summary ≡ some end
  pub all_freed : frees end.calls ≡ arrays r
  pub few : length end.stats.latencies ≤ max_latencies
  pub summarizes : Summarizes end.stats.latencies summary end.summary

rounds-Finishes :
    (rounds : List ClientRound) (buffer : Memory) (summary : Summary)
    → (end : ClientEnd) × (run_rounds rounds buffer summary ≡ some end)
      × (frees end.calls ≡ 2)
      × (length end.stats.latencies ≤ max_latencies)
      × Summarizes end.stats.latencies summary end.summary
unfolding run_rounds
rounds-Finishes rounds buffer summary =
    let c : Client = record { buffer = buffer; inbound = []; outbound = []; stats = no_stats } in
    let (c', e, few) = client_loop-Few rounds c (omega arith) in
    let (after, e', sums) = summarized c'.stats.latencies summary few in
    (
      record {
        stats = c'.stats;
        summary = after;
        calls = Call.malloc ∷ Call.malloc ∷ Call.free ∷ Call.free ∷ [];
      },
      rw e (rw e' refl),
      refl,
      few,
      sums,
    )

-- A run that does not come to its loop leaves what was there.
untouched :
    (stats : Stats) (summary : Summary)
    → stats.latencies ≡ []
    → (length stats.latencies ≤ max_latencies) × Summarizes stats.latencies summary summary
untouched stats summary none_yet =
    subst (λ xs. (length xs ≤ max_latencies) × Summarizes xs summary summary) (sym none_yet)
      (omega arith, refl)

-- `run_uds_blocking_client`, from a `BenchmarkStats` without latencies, whatever bytes come from the other
-- end and however its calls turn out: it ends, with no access outside of its buffer or of the array of
-- latencies; it has freed as many arrays as it got; and its summary has the percentiles of the latencies
-- where it has any, and is unchanged where it has none.
pub run_client-Finishes :
    (r : ClientRun) (buffer : Memory) (stats : Stats) (summary : Summary)
    → stats.latencies ≡ []
    → Finishes r buffer stats summary
unfolding run_client
run_client-Finishes r buffer stats summary none_yet = elim (Bool-cases r.gets_buffer) [
  | inr failed ↦
      let (few, sums) = untouched stats summary none_yet in
      record {
        end = record { stats = stats; summary = summary; calls = Call.malloc ∷ [] };
        runs = rw failed refl;
        all_freed = rw failed refl;
        few = few;
        summarizes = sums;
      }
  | inl first ↦ elim (Bool-cases r.gets_latencies) [
    | inr failed ↦
        let (few, sums) = untouched stats summary none_yet in
        record {
          end = record {
            stats = stats;
            summary = summary;
            calls = Call.malloc ∷ Call.malloc ∷ Call.free ∷ [];
          };
          runs = rw first (rw failed refl);
          all_freed = rw first (rw failed refl);
          few = few;
          summarizes = sums;
        }
    | inl both ↦
        let (end, runs, freed, few, sums) = rounds-Finishes r.rounds buffer summary in
        record {
          end = end;
          runs = rw first (rw both runs);
          all_freed = freed ∙ sym (rw first (rw both refl));
          few = few;
          summarizes = sums;
        }
  ]
]
