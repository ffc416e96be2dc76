-- ===== src/Message.antt =====
-- Messages of benchmark.c: their layout, the checksum, validation and the random messages that the
-- clients send. A message stands in a buffer of bytes; the fields are the little-endian words at the
-- offsets that the x86-64 ABI gives `Message`: sizeof(Message) is 32, and `data` begins at 28, inside
-- of the padding at the end.
pub mod Checksum
pub mod Validation
pub mod Integrity
pub mod Filled
pub mod Delivery
pub mod Parts
use Prim.Native.Nat.{bit_and, bit_or}
use ipc_benchmark.Prelude.{
  ℕ, zero, suc, ◌+◌, ◌-◌, ◌*◌, ◌/◌, ◌%◌, ◌^◌, List, [], ◌∷◌, Option, some, Bool, true, false, ltb,
  ◌==◌, if◌then◌else◌, ◌>>=◌,
}
use ipc_benchmark.Prelude.Word.{u32, u64_mod, add64, sub64}
use ipc_benchmark.Memory.{Memory, update, copy_in, copy_out, load, le_bytes, le_value}

abbrev pub magic_start : ℕ
magic_start = 0xDEADBEEF

abbrev pub magic_end : ℕ
magic_end = 0xCAFEBABE

-- sizeof(Message), and the offset of `data` in it
abbrev pub header_size : ℕ
header_size = 32

abbrev pub data_offset : ℕ
data_offset = 28

-- MAX_MSG_SIZE, the size of every message buffer
abbrev pub max_msg_size : ℕ
max_msg_size = 128 * 1024

-- A uint32_t and a uint64_t field.
unfoldable pub get_word : ℕ → Memory → ℕ
get_word offset m = le_value (copy_out offset 4 m)

unfoldable pub set_word : ℕ → ℕ → Memory → Memory
set_word offset v m = copy_in offset (le_bytes 4 v) m

pub set_long : ℕ → ℕ → Memory → Memory
set_long offset v m = copy_in offset (le_bytes 8 v) m

-- One round of the loop of `calculate_checksum`: rotate left by 1, then add a byte.
abbrev pub rotate : ℕ → ℕ
rotate sum = bit_or (u32 (sum * 2)) (sum / 2 ^ 31)

unfoldable pub checksum_step : ℕ → ℕ → ℕ
checksum_step sum byte = u32 (rotate sum + byte)

unfoldable pub checksum_from : ℕ → List ℕ → ℕ
checksum_from sum [] = sum
checksum_from sum (byte ∷ bytes) = checksum_from (checksum_step sum byte) bytes

unfoldable pub calculate_checksum : List ℕ → ℕ
unfolding checksum_from checksum_step
calculate_checksum bytes = checksum_from 0 bytes

-- `total_size - sizeof(Message) - sizeof(uint32_t)`, which wraps below 36
abbrev pub payload_length : ℕ → ℕ
payload_length total_size = sub64 (sub64 total_size header_size) 4

-- The verdict on the message in a buffer of `cap` bytes; `none` is a read outside of the buffer. The
-- buffers of all callers hold the header (`cap` is MAX_MSG_SIZE), so that its fields are read without a test.
pub validate_message : ℕ → Memory → ℕ → Option Bool
validate_message cap msg total_size =
    if get_word 0 msg == magic_start
    then (if get_word 4 msg == total_size
        then (do
          word ← load cap (add64 data_offset (payload_length total_size)) 4 msg
          if le_value word == magic_end
              then (do
                bytes ← load cap data_offset (payload_length total_size) msg
                some (calculate_checksum bytes == get_word 24 msg))
              else some false)
        else some false)
    else some false

-- The length of the payload, from what `rand()` returns. With `max_size ≤ min_size` it is
-- `min_size`: the source tests `range > 0` on a signed difference.
unfoldable pub payload_size : ℕ → ℕ → ℕ → ℕ
payload_size min_size max_size random =
    let range = max_size - min_size in if ltb 0 range then min_size + random % range else min_size

pub next_state : ℕ → ℕ
next_state state = u32 (state * 1103515245 + 12345)

-- The loop that fills `count` bytes of the payload from address `pos` on.
pub fill_payload : ℕ → ℕ → ℕ → Memory → Memory
fill_payload zero pos state m = m
fill_payload (suc count) pos state m =
    let state' = next_state state in
    fill_payload count (pos + 1) state' (update m pos (bit_and (state' / 2 ^ 16) 0xFF))

-- `random_message` up to the payload: `payload` is the chosen length and `now` the timestamp.
pub fill_fields : ℕ → ℕ → Memory → Memory
fill_fields payload now msg =
    let seq = u32 (get_word 8 msg + 1) in
    set_long 16 now
      (set_word 8 seq (set_word 4 (header_size + payload + 4) (set_word 0 magic_start msg)))

pub random_message : (random now min_size max_size : ℕ) → Memory → Memory
random_message random now min_size max_size msg =
    let payload = payload_size min_size max_size random in
    let filled = fill_fields payload now msg in
    let with_data = fill_payload payload data_offset (get_word 8 filled) filled in
    let checked =
      set_word 24 (calculate_checksum (copy_out data_offset payload with_data)) with_data in
    set_word (data_offset + payload) magic_end checked
