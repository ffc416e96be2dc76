-- ===== src/Tests/Fixture.antt =====
-- The data of the tests: a message of the client, and rings that hold none or this one.
use ipc_benchmark.Prelude.{ℕ, ◌≤◌, ◌≡◌, sym, ◌∙◌, ap, List, [], length, arith}
use ipc_benchmark.Prelude.Word.{u32_mod, u64_mod}
use ipc_benchmark.Memory.{Memory, copy_out}
use ipc_benchmark.Memory.Region.{length-copy_out}
use ipc_benchmark.Message.{random_message, set_long, get_word}
use ipc_benchmark.Message.Validation.{IsMessage}
use ipc_benchmark.Message.Delivery.{IsSound, IsSound-copy_out, prepared-IsMessage}
use ipc_benchmark.Ring.{Ring}
use ipc_benchmark.Ring.Fresh.{fresh, fresh-IsQueue}
use ipc_benchmark.Ring.IsQueue.{IsQueue}
use ipc_benchmark.Ring.Exchange.{Put, write_empty}

abbrev pub zeros : Memory
zeros a = 0

-- What a client builds in an empty buffer, at the random number 7 and the times 100 and 101.
abbrev pub prepared : Memory
prepared = set_long 16 101 (random_message 7 100 2048 4096 zeros)

abbrev pub prepared_size : ℕ
prepared_size = (prepared-IsMessage 7 100 101 zeros).0

pub prepared_low : 2084 ≤ prepared_size
prepared_low = (prepared-IsMessage 7 100 101 zeros).1

pub prepared_high : prepared_size ≤ 4131
prepared_high = (prepared-IsMessage 7 100 101 zeros).2

pub prepared_lem : IsMessage prepared prepared_size
prepared_lem = (prepared-IsMessage 7 100 101 zeros).3

abbrev pub sent : List ℕ
sent = copy_out 0 prepared_size prepared

pub sent-IsSound : IsSound sent
sent-IsSound =
    IsSound-copy_out prepared prepared_size (omega (arith, prepared_low)) prepared_high prepared_lem

pub sent_stands : copy_out 0 (length sent) prepared ≡ sent
sent_stands = ap (λ n. copy_out 0 n prepared) (length-copy_out 0 prepared_size prepared)

pub sent_sized : get_word 4 prepared ≡ length sent
sent_sized = prepared_lem.sized ∙ sym (length-copy_out 0 prepared_size prepared)

abbrev pub empty_ring : Ring
empty_ring = fresh 16384 zeros

pub empty_ring-IsQueue :
    (pos_mod : ℕ) → u32_mod ≤ pos_mod → pos_mod ≤ u64_mod → IsQueue pos_mod empty_ring []
empty_ring-IsQueue pos_mod low high =
    fresh-IsQueue pos_mod 16384 zeros (omega arith) (omega arith) (omega arith) (omega arith)

abbrev pub put_sent :
    (pos_mod : ℕ) → u32_mod ≤ pos_mod → pos_mod ≤ u64_mod → Put pos_mod empty_ring sent
put_sent pos_mod low high =
    write_empty (empty_ring-IsQueue pos_mod low high) sent (omega (arith, sent-IsSound.short))
      (omega (arith, sent-IsSound.short))

-- The ring with the message, for either type of position.
abbrev pub full : Put u64_mod empty_ring sent
full = put_sent u64_mod (omega arith) (omega arith)

abbrev pub full32 : Put u32_mod empty_ring sent
full32 = put_sent u32_mod (omega arith) (omega arith)
