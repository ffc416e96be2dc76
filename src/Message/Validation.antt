-- ===== src/Message/Validation.antt =====
-- `validate_message` of benchmark.c, and the format that it stands for.
use ipc_benchmark.Prelude.{
  ℕ, ◌+◌, ◌-◌, ◌^◌, ◌≤◌, ◌<◌, ◌≡◌, some, Bool, true, ◌==◌, arith, le→leb, ◌&&◌, ◌↔◌,
}
use ipc_benchmark.Prelude.Word.{add64}
use ipc_benchmark.Memory.{Memory, copy_out, load}
use ipc_benchmark.Message.{
  magic_start, magic_end, data_offset, get_word, calculate_checksum, payload_length,
  validate_message,
}

-- The message in the first `total` bytes of a buffer is sound: an independent reading of the format,
-- for a message of at least 36 bytes.
pub record IsMessage (msg : Memory) (total : ℕ) : Type 0 where
  pub starts : get_word 0 msg ≡ magic_start
  pub sized : get_word 4 msg ≡ total
  pub ends : get_word (total - 8) msg ≡ magic_end
  pub summed : get_word 24 msg ≡ calculate_checksum (copy_out data_offset (total - 36) msg)

verdict : Memory → ℕ → Bool
verdict msg total =
    get_word 0 msg == magic_start
    && (get_word 4 msg == total
        && (get_word (total - 8) msg == magic_end
            && (calculate_checksum (copy_out data_offset (total - 36) msg) == get_word 24 msg)))

verdict_sound : (msg : Memory) (total : ℕ) → verdict msg total ≡ true → IsMessage msg total
unfolding verdict
verdict_sound msg total e = ground arith

verdict_complete : (msg : Memory) (total : ℕ) → IsMessage msg total → verdict msg total ≡ true
unfolding verdict
verdict_complete msg total h = ground (arith, h)

module _ (cap total : ℕ) (enough : 36 ≤ total) (fits : total ≤ cap) (small : cap < 2 ^ 32) where
  payload_length_lem : payload_length total ≡ total - 36
  payload_length_lem = omega arith

  end_loads :
      (msg : Memory)
      → load cap (add64 data_offset (payload_length total)) 4 msg
        ≡ some (copy_out (total - 8) 4 msg)
  unfolding load
  end_loads msg =
      let e : add64 data_offset (payload_length total) ≡ total - 8 = omega arith in
      rw e (rw (le→leb (total - 8 + 4) cap (omega arith)))

  data_loads :
      (msg : Memory)
      → load cap data_offset (payload_length total) msg
        ≡ some (copy_out data_offset (total - 36) msg)
  unfolding load
  data_loads msg =
      rw payload_length_lem (rw (le→leb (data_offset + (total - 36)) cap (omega arith)))

  validate_message_lem : (msg : Memory) → validate_message cap msg total ≡ some (verdict msg total)
  unfolding validate_message verdict get_word
  validate_message_lem msg = ground (arith, end_loads msg, data_loads msg)

-- A message that is no shorter than its fixed parts of 36 bytes, and no longer than its buffer of
-- less than 2 ^ 32 bytes, is judged without a read outside of the buffer, and accepted exactly if it
-- has the format.
pub validate_message_decides :
    (cap total : ℕ)
    → 36 ≤ total
    → total ≤ cap
    → cap < 2 ^ 32
    → (msg : Memory)
    → (b : Bool) × (validate_message cap msg total ≡ some b) × ((b ≡ true) ↔ IsMessage msg total)
validate_message_decides cap total enough fits small msg = (
  verdict msg total,
  validate_message_lem cap total enough fits small msg,
  (verdict_sound msg total, verdict_complete msg total),
)
