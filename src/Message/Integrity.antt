-- ===== src/Message/Integrity.antt =====
-- What a change of the buffer does to a message of benchmark.c, and what `validate_message` does below
-- 36 bytes.
use ipc_benchmark.Prelude.{
  ℕ, suc, ◌+◌, ◌-◌, ◌^◌, ◌≤◌, ◌<◌, ◌≡◌, ◌≢◌, sym, ap, ◌∙◌, ◌∷◌, ◌++◌, none, false, arith, leb, ◌⊎◌,
}
use mathlib.Core.Path.{ap₂}
use native.Mathlib.Decide.{dec_lt}
use ipc_benchmark.Prelude.Word.{add64}
use ipc_benchmark.Memory.{Memory, update, copy_out, load, le_value}
use ipc_benchmark.Memory.Region.{copy_out_ext, copy_out-append}
use ipc_benchmark.Message.{
  magic_start, magic_end, data_offset, get_word, calculate_checksum, payload_length,
  validate_message,
}
use ipc_benchmark.Message.Checksum.{checksum_notices}
use ipc_benchmark.Message.Validation.{IsMessage}

pub get_word_ext :
    (o : ℕ) (m m' : Memory)
    → ((a : ℕ) → o ≤ a → a < o + 4 → m a ≡ m' a)
    → get_word o m ≡ get_word o m'
unfolding get_word
get_word_ext o m m' h = ap le_value (copy_out_ext o 4 m m' h)

-- A message is its first `total` bytes.
pub IsMessage-ext :
    (m m' : Memory) (total : ℕ)
    → 36 ≤ total
    → ((a : ℕ) → a < total → m a ≡ m' a)
    → IsMessage m total
    → IsMessage m' total
IsMessage-ext m m' total enough same h = record {
  starts = sym (word 0 (omega arith)) ∙ h.starts;
  sized = sym (word 4 (omega arith)) ∙ h.sized;
  ends = sym (word (total - 8) (omega arith)) ∙ h.ends;
  summed =
      sym (word 24 (omega arith))
      ∙ h.summed
      ∙ ap calculate_checksum
          (copy_out_ext data_offset (total - 36) m m' (λ a lo hi. same a (omega arith)));
}
  where
    word : (o : ℕ) → o + 4 ≤ total → get_word o m ≡ get_word o m'
    word o le = get_word_ext o m m' (λ a lo hi. same a (omega arith))

-- The payload as its bytes before position `k`, the byte there, and those behind it.
payload_split :
    (m : Memory) (n k : ℕ)
    → k < n
    → copy_out data_offset n m
      ≡ copy_out data_offset k m
        ++ (m (data_offset + k) ∷ copy_out (data_offset + k + 1) (n - k - 1) m)
unfolding copy_out
payload_split m n k lt = copy_out-append data_offset k (suc (n - k - 1)) m n (omega arith)

update_split :
    (m : Memory) (n k b : ℕ)
    → k < n
    → copy_out data_offset n (update m (data_offset + k) b)
      ≡ copy_out data_offset k m ++ (b ∷ copy_out (data_offset + k + 1) (n - k - 1) m)
update_split m n k b lt =
    payload_split m' n k lt
    ∙ ap₂ ◌++◌ (copy_out_ext data_offset k m' m (λ a lo hi. ground arith)) (
        ap₂ ◌∷◌ (ground arith)
          (copy_out_ext (data_offset + k + 1) (n - k - 1) m' m (λ a lo hi. ground arith)))
  where
    m' : Memory
    m' = update m (data_offset + k) b

-- Changing one byte of the payload of a message always leaves something that is none.
pub corrupt_payload :
    (m : Memory) (total k b : ℕ)
    → IsMessage m total
    → k < total - 36
    → m (data_offset + k) < 256
    → b < 256
    → m (data_offset + k) ≢ b
    → ¬ (IsMessage (update m (data_offset + k) b) total)
corrupt_payload m total k b h lt old new ne h' =
    checksum_notices (copy_out data_offset k m)
      (copy_out (data_offset + k + 1) (total - 36 - k - 1) m) (m (data_offset + k)) b old new ne
      (ap calculate_checksum (sym (payload_split m (total - 36) k lt))
        ∙ sym h.summed
        ∙ get_word_ext 24 m (update m (data_offset + k) b) (λ a lo hi. ground arith)
        ∙ h'.summed
        ∙ ap calculate_checksum (update_split m (total - 36) k b lt))

-- `validate_message` has no lower bound on `total_size`: below 36 its payload length wraps, and a
-- buffer whose fields match sends it out of the buffer, whatever the buffer's size.
pub validate_message_short :
    (cap : ℕ) (msg : Memory) (total : ℕ)
    → cap < 2 ^ 32
    → total < 36
    → get_word 0 msg ≡ magic_start
    → get_word 4 msg ≡ total
    → (total < 8) ⊎ (get_word (total - 8) msg ≡ magic_end)
    → validate_message cap msg total ≡ none
unfolding validate_message load get_word
validate_message_short cap msg total small short starts sized ends = elim (dec_lt total 8) [
  | yes tiny ↦
      let outside : leb (add64 data_offset (payload_length total) + 4) cap ≡ false = ground arith in
      ground (arith, outside)
  | no big ↦
      let outside : leb (data_offset + payload_length total) cap ≡ false = ground arith in
      let offset : add64 data_offset (payload_length total) ≡ total - 8 = omega arith in
      rw offset (ground (arith, outside))
]
