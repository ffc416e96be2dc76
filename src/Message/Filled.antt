-- ===== src/Message/Filled.antt =====
-- The message that `random_message` of benchmark.c builds.
use ipc_benchmark.Prelude.{
  ℕ, zero, suc, ◌+◌, ◌-◌, ◌%◌, ◌^◌, ◌≤◌, ◌<◌, ◌≡◌, refl, sym, ap, ◌∙◌, arith, ◌⊎◌,
}
use native.Mathlib.Nat.{mod-eq_of_lt, mod-lt}
use ipc_benchmark.Memory.{Memory, copy_out, le_value, le_bytes}
use ipc_benchmark.Memory.Region.{
  Outside, copy_out-copy_in, copy_out-copy_in_apart, copy_out_ext, length-le_bytes,
  le_value-le_bytes,
}
use ipc_benchmark.Message.{
  magic_start, magic_end, header_size, data_offset, get_word, set_word, set_long,
  calculate_checksum, payload_size, next_state, fill_payload, fill_fields, random_message,
}
use ipc_benchmark.Message.Checksum.{checksum-lt}
use ipc_benchmark.Message.Validation.{IsMessage}

pub get_word-set_word : (o v : ℕ) (m : Memory) → get_word o (set_word o v m) ≡ v % 2 ^ 32
unfolding get_word set_word le_bytes
get_word-set_word o v m = ap le_value (copy_out-copy_in o (le_bytes 4 v) m) ∙ le_value-le_bytes v

pub get_word-set_word_apart :
    (o p v : ℕ) (m : Memory)
    → (o + 4 ≤ p) ⊎ (p + 4 ≤ o)
    → get_word o (set_word p v m) ≡ get_word o m
unfolding get_word set_word
get_word-set_word_apart o p v m h =
    ap le_value (copy_out-copy_in_apart o 4 p (le_bytes 4 v) m (omega (arith, length-le_bytes 4 v)))

pub get_word-set_long_apart :
    (o p v : ℕ) (m : Memory)
    → (o + 4 ≤ p) ⊎ (p + 8 ≤ o)
    → get_word o (set_long p v m) ≡ get_word o m
unfolding get_word set_long
get_word-set_long_apart o p v m h =
    ap le_value (copy_out-copy_in_apart o 4 p (le_bytes 8 v) m (omega (arith, length-le_bytes 8 v)))

copy_out-set_word_apart :
    (o n p v : ℕ) (m : Memory)
    → (o + n ≤ p) ⊎ (p + 4 ≤ o)
    → copy_out o n (set_word p v m) ≡ copy_out o n m
unfolding set_word
copy_out-set_word_apart o n p v m h =
    copy_out-copy_in_apart o n p (le_bytes 4 v) m (omega (arith, length-le_bytes 4 v))

copy_out-set_long_apart :
    (o n p v : ℕ) (m : Memory)
    → (o + n ≤ p) ⊎ (p + 8 ≤ o)
    → copy_out o n (set_long p v m) ≡ copy_out o n m
unfolding set_long
copy_out-set_long_apart o n p v m h =
    copy_out-copy_in_apart o n p (le_bytes 8 v) m (omega (arith, length-le_bytes 8 v))

fill_payload-Outside :
    (n pos state : ℕ) (m : Memory) (a : ℕ) → Outside a pos n → fill_payload n pos state m a ≡ m a
unfolding fill_payload
fill_payload-Outside zero pos state m a h = refl
fill_payload-Outside (suc n) pos state m a h =
    fill_payload-Outside n (pos + 1) (next_state state) _ a (omega arith) ∙ ground arith

get_word-fill_payload :
    (o n pos state : ℕ) (m : Memory)
    → o + 4 ≤ pos
    → get_word o (fill_payload n pos state m) ≡ get_word o m
unfolding get_word
get_word-fill_payload o n pos state m h =
    ap le_value
      (copy_out_ext o 4 _ m (λ a lo hi. fill_payload-Outside n pos state m a (omega arith)))

module _ (payload now : ℕ) (m : Memory) (small : payload < 2 ^ 31) where
  fields_start : get_word 0 (fill_fields payload now m) ≡ magic_start
  unfolding fill_fields
  fields_start =
      get_word-set_long_apart 0 16 _ _ (omega arith)
      ∙ get_word-set_word_apart 0 8 _ _ (omega arith)
      ∙ get_word-set_word_apart 0 4 _ _ (omega arith)
      ∙ get_word-set_word 0 magic_start m

  fields_size : get_word 4 (fill_fields payload now m) ≡ header_size + payload + 4
  unfolding fill_fields
  fields_size =
      get_word-set_long_apart 4 16 _ _ (omega arith)
      ∙ get_word-set_word_apart 4 8 _ _ (omega arith)
      ∙ get_word-set_word 4 (header_size + payload + 4) _
      ∙ mod-eq_of_lt (omega arith)

  abbrev with_data : Memory
  with_data =
      fill_payload payload data_offset (get_word 8 (fill_fields payload now m))
        (fill_fields payload now m)

  abbrev checksum : ℕ
  checksum = calculate_checksum (copy_out data_offset payload with_data)

  abbrev complete : Memory
  complete = set_word (data_offset + payload) magic_end (set_word 24 checksum with_data)

  -- A field in front of the checksum is still as `fill_fields` left it.
  early_field : (o : ℕ) → o + 4 ≤ 24 → get_word o complete ≡ get_word o (fill_fields payload now m)
  early_field o h =
      get_word-set_word_apart o (data_offset + payload) _ _ (omega arith)
      ∙ get_word-set_word_apart o 24 _ _ (omega arith)
      ∙ get_word-fill_payload o payload data_offset _ _ (omega arith)

  complete-IsMessage : (total : ℕ) → total ≡ header_size + payload + 4 → IsMessage complete total
  complete-IsMessage total e = record {
    starts = early_field 0 (omega arith) ∙ fields_start;
    sized = early_field 4 (omega arith) ∙ fields_size ∙ sym e;
    ends =
        ap (λ o. get_word o complete) at_end
        ∙ get_word-set_word (data_offset + payload) magic_end _
        ∙ omega arith;
    summed =
        get_word-set_word_apart 24 (data_offset + payload) _ _ (omega arith)
        ∙ get_word-set_word 24 checksum with_data
        ∙ mod-eq_of_lt (checksum-lt _)
        ∙ ap calculate_checksum (sym data_kept);
  }
    where
      at_end : total - 8 ≡ data_offset + payload
      at_end = omega arith

      data_kept :
          copy_out data_offset (total - 36) complete ≡ copy_out data_offset payload with_data
      data_kept =
          ap (λ n. copy_out data_offset n complete) (omega arith)
          ∙ copy_out-set_word_apart data_offset payload (data_offset + payload) _ _ (omega arith)
          ∙ copy_out-set_word_apart data_offset payload 24 _ _ (omega arith)

-- `random_message` leaves a message in the buffer, of the length that its `size` field says: the
-- chosen payload and 36 bytes around it. This holds for every buffer, random number and time.
pub random_message-IsMessage :
    (random now min_size max_size : ℕ) (m : Memory)
    → payload_size min_size max_size random < 2 ^ 31
    → IsMessage
        (random_message random now min_size max_size m)
        (payload_size min_size max_size random + 36)
unfolding random_message
random_message-IsMessage random now min_size max_size m small =
    complete-IsMessage (payload_size min_size max_size random) now m small _ (omega arith)

-- The payload is at least `min_size` bytes and, where the range is not empty, less than `max_size`.
pub payload_size_bounds :
    (min_size max_size random : ℕ)
    → (min_size ≤ payload_size min_size max_size random)
      × ((min_size < max_size) → payload_size min_size max_size random < max_size)
unfolding payload_size
payload_size_bounds min_size max_size random =
    (ground arith, λ h. ground (arith, mod-lt random {m = max_size - min_size} (omega arith)))

-- The client stamps the message again after it is built; it stays a message.
pub set_long-IsMessage :
    (now : ℕ) (m : Memory) (total : ℕ)
    → 36 ≤ total
    → IsMessage m total
    → IsMessage (set_long 16 now m) total
set_long-IsMessage now m total enough h = record {
  starts = get_word-set_long_apart 0 16 now m (omega arith) ∙ h.starts;
  sized = get_word-set_long_apart 4 16 now m (omega arith) ∙ h.sized;
  ends = get_word-set_long_apart (total - 8) 16 now m (omega arith) ∙ h.ends;
  summed =
      get_word-set_long_apart 24 16 now m (omega arith)
      ∙ h.summed
      ∙ ap calculate_checksum
          (sym (copy_out-set_long_apart data_offset (total - 36) 16 now m (omega arith)));
}
