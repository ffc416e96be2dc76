-- ===== src/Message/Delivery.antt =====
-- Messages of benchmark.c as the bytes that travel from one buffer to another.
use ipc_benchmark.Prelude.{ℕ, ◌+◌, ◌≤◌, ◌<◌, ◌≡◌, ◌∙◌, sym, List, some, true, arith, length, ap}
use mathlib.Core.Path.{subst}
use ipc_benchmark.Memory.{Memory, copy_in, copy_out}
use ipc_benchmark.Memory.Region.{copy_in-copy_out, copy_out-copy_in, length-copy_out}
use ipc_benchmark.Message.{
  max_msg_size, get_word, set_long, random_message, payload_size, validate_message,
}
use ipc_benchmark.Message.Validation.{IsMessage, validate_message_decides}
use ipc_benchmark.Message.Integrity.{IsMessage-ext}
use ipc_benchmark.Message.Filled.{random_message-IsMessage, payload_size_bounds, set_long-IsMessage}

-- Bytes that are a message in whatever buffer they land.
pub record IsSound (d : List ℕ) : Type 0 where
  pub long : 36 ≤ length d
  pub short : length d ≤ 4131
  pub lands : (buffer : Memory) → IsMessage (copy_in 0 d buffer) (length d)

pub IsSound-copy_out :
    (m : Memory) (total : ℕ)
    → 36 ≤ total
    → total ≤ 4131
    → IsMessage m total
    → IsSound (copy_out 0 total m)
IsSound-copy_out m total long short h = record {
  long = omega (arith, length-copy_out 0 total m);
  short = omega (arith, length-copy_out 0 total m);
  lands = λ buffer.
      subst (λ n. IsMessage (copy_in 0 (copy_out 0 total m) buffer) n)
        (sym (length-copy_out 0 total m))
        (IsMessage-ext m _ total long
          (λ a lt. sym (copy_in-copy_out 0 total m buffer a (omega arith) (omega arith))) h);
}

-- A sound message that lands in a buffer is accepted there, within the buffer.
pub IsSound-validates :
    {d : List ℕ}
    → IsSound d
    → (buffer : Memory) → validate_message max_msg_size (copy_in 0 d buffer) (length d) ≡ some true
IsSound-validates {d} s buffer =
    let (b, e, decides) =
      validate_message_decides max_msg_size (length d) s.long (omega (arith, s.short)) (omega arith)
        (copy_in 0 d buffer) in
    e ∙ ap some (decides.1 (s.lands buffer))

-- What the clients send: random, stamped twice, with 2048 to 4095 bytes of payload.
pub prepared-IsMessage :
    (random now now' : ℕ) (m : Memory)
    → (total : ℕ) × (2084 ≤ total)
      × (total ≤ 4131)
      × IsMessage (set_long 16 now' (random_message random now 2048 4096 m)) total
prepared-IsMessage random now now' m =
    let (low, high) = payload_size_bounds 2048 4096 random in
    let below : payload_size 2048 4096 random < 4096 = high (omega arith) in
    (
      payload_size 2048 4096 random + 36,
      omega (arith, low),
      omega (arith, below),
      set_long-IsMessage now' _ _ (omega arith)
          (random_message-IsMessage random now 2048 4096 m (omega (arith, below))),
    )

-- The bytes of the message in a buffer, as long as its `size` field says.
abbrev pub message_bytes : Memory → List ℕ
message_bytes m = copy_out 0 (get_word 4 m) m

pub length-message_bytes : (m : Memory) → length (message_bytes m) ≡ get_word 4 m
length-message_bytes m = length-copy_out 0 (get_word 4 m) m

pub message_bytes_stand : (m : Memory) → copy_out 0 (length (message_bytes m)) m ≡ message_bytes m
message_bytes_stand m = ap (λ n. copy_out 0 n m) (length-message_bytes m)

pub message_bytes_land :
    (m m' : Memory) → copy_out 0 (get_word 4 m) (copy_in 0 (message_bytes m) m') ≡ message_bytes m
message_bytes_land m m' =
    ap (λ n. copy_out 0 n (copy_in 0 (message_bytes m) m')) (sym (length-message_bytes m))
    ∙ copy_out-copy_in 0 (message_bytes m) m'

pub prepared-IsSound :
    (random now now' : ℕ) (m : Memory)
    → IsSound (message_bytes (set_long 16 now' (random_message random now 2048 4096 m)))
prepared-IsSound random now now' m =
    let (total, low, high, is_message) = prepared-IsMessage random now now' m in
    let m' = set_long 16 now' (random_message random now 2048 4096 m) in
    let size : total ≡ get_word 4 m' = sym is_message.sized in
    subst (λ n. IsSound (copy_out 0 n m')) size
      (IsSound-copy_out m' total (omega arith) high is_message)
