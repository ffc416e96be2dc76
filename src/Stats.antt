-- ===== src/Stats.antt =====
-- `BenchmarkStats` of benchmark.h and what the clients' loops keep for it: the counters, which wrap
-- at 2 ^ 64, and the latencies.
pub mod Summary
use ipc_benchmark.Prelude.{
  ℕ, ◌+◌, ◌≤◌, ◌≡◌, List, [], ◌∷◌, ◌++◌, ltb, if◌then◌else◌, length, length-append, arith,
}
use ipc_benchmark.Prelude.Word.{add64, sub64}
use ipc_benchmark.Memory.{Memory, copy_out, le_value}

abbrev pub max_latencies : ℕ
max_latencies = 1000000

-- `latencies` holds the first `latency_count` entries of the array.
pub record Stats : Type 0 where
  pub ops : ℕ
  pub bytes : ℕ
  pub latencies : List ℕ

abbrev pub no_stats : Stats
no_stats = record { ops = 0; bytes = 0; latencies = [] }

-- `msg->timestamp`
pub get_timestamp : Memory → ℕ
get_timestamp m = le_value (copy_out 16 8 m)

-- The end of a client's round, at the time `now`: the latency and the counters.
unfoldable pub record_response : (now size : ℕ) → Memory → Stats → Stats
record_response now size response stats = record {
  ops = add64 stats.ops 1;
  bytes = add64 stats.bytes size;
  latencies =
      if ltb (length stats.latencies) max_latencies
      then stats.latencies ++ (sub64 now (get_timestamp response) ∷ [])
      else stats.latencies;
}

-- Where the array of latencies holds at most MAX_LATENCIES entries, it does so after the round too.
pub record_response_latencies :
    (now size : ℕ) (m : Memory) (stats : Stats)
    → length stats.latencies ≤ max_latencies
    → length (record_response now size m stats).latencies ≤ max_latencies
unfolding record_response
record_response_latencies now size m stats h =
    ground (arith, length-append stats.latencies (sub64 now (get_timestamp m) ∷ []))
