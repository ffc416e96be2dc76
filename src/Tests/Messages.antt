-- ===== src/Tests/Messages.antt =====
-- Messages and their checksums, and the summary of some latencies.
use ipc_benchmark.Prelude.{
  ℕ, ◌+◌, ◌%◌, ◌^◌, ◌<◌, ◌≡◌, ◌≢◌, refl, List, [], ◌∷◌, Bool, true, none, some, inl, arith, length,
  ◌↔◌,
}
use ipc_benchmark.Memory.{Memory, update, le_value, copy_out, copy_in, le_bytes}
use ipc_benchmark.Stats.Summary.{Summary, calculate_stats}
use ipc_benchmark.Stats.Summary.Sorting.{total}
use ipc_benchmark.Stats.Summary.Percentiles.{IsPercentile, calculate_stats_summary}
use ipc_benchmark.Message.{
  magic_start, magic_end, data_offset, get_word, set_word, calculate_checksum, checksum_from,
  checksum_step, payload_size, random_message, validate_message, max_msg_size,
}
use ipc_benchmark.Message.Validation.{IsMessage, validate_message_decides}
use ipc_benchmark.Message.Integrity.{corrupt_payload, validate_message_short}
use ipc_benchmark.Message.Filled.{random_message-IsMessage}
use ipc_benchmark.Tests.Fixture.{zeros, prepared, prepared_size, prepared_low, prepared_high}

validate_message_decides_example :
    (b : Bool) × (validate_message max_msg_size prepared prepared_size ≡ some b)
    × ((b ≡ true) ↔ IsMessage prepared prepared_size)
validate_message_decides_example =
    validate_message_decides max_msg_size prepared_size (omega (arith, prepared_low))
      (omega (arith, prepared_high)) (omega arith) prepared

-- A message with one byte of payload, 5.
abbrev tiny : Memory
tiny a =
    set_word 29 magic_end
      (set_word 24 5 (set_word 4 37 (set_word 0 magic_start (update zeros data_offset 5)))) a

tiny_lem : IsMessage tiny 37
unfolding get_word set_word calculate_checksum checksum_from checksum_step le_value copy_out copy_in
    le_bytes
tiny_lem = record { starts = refl; sized = refl; ends = refl; summed = refl }

tiny_small : tiny (data_offset + 0) < 256
unfolding set_word copy_in le_bytes
tiny_small = omega arith

tiny_differs : tiny (data_offset + 0) ≢ 6
unfolding set_word copy_in le_bytes
tiny_differs = omega arith

corrupt_payload_example : ¬ (IsMessage (update tiny (data_offset + 0) 6) 37)
corrupt_payload_example =
    corrupt_payload tiny 37 0 6 tiny_lem (omega arith) tiny_small (omega arith) tiny_differs

payload_small : payload_size 2048 4096 7 < 2 ^ 31
unfolding payload_size
payload_small = omega arith

random_message-IsMessage_example :
    IsMessage (random_message 7 100 2048 4096 zeros) (payload_size 2048 4096 7 + 36)
random_message-IsMessage_example = random_message-IsMessage 7 100 2048 4096 zeros payload_small

abbrev short : Memory
short = set_word 4 7 (set_word 0 magic_start zeros)

short_starts : get_word 0 short ≡ magic_start
unfolding get_word set_word le_value copy_out copy_in le_bytes
short_starts = refl

short_sized : get_word 4 short ≡ 7
unfolding get_word set_word le_value copy_out copy_in le_bytes
short_sized = refl

validate_message_short_example : validate_message max_msg_size short 7 ≡ none
validate_message_short_example =
    validate_message_short max_msg_size short 7 (omega arith) (omega arith) short_starts short_sized
      (inl (omega arith))

abbrev latencies : List ℕ
latencies = 30 ∷ 10 ∷ 20 ∷ 10 ∷ []

abbrev no_summary : Summary
no_summary = record { avg_sum = 0; avg_count = 0; p50 = 0; p95 = 0; p99 = 0 }

calculate_stats_summary_example :
    (summary : Summary) × (calculate_stats latencies no_summary ≡ some summary)
    × IsPercentile latencies 50 summary.p50
    × IsPercentile latencies 95 summary.p95
    × IsPercentile latencies 99 summary.p99
    × (summary.avg_sum ≡ total latencies % 2 ^ 64)
    × (summary.avg_count ≡ length latencies)
calculate_stats_summary_example =
    calculate_stats_summary latencies no_summary (omega arith) (omega arith)
