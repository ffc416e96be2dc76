-- ===== src/UdsNonblocking/Transfer.antt =====
-- `read_nonblocking` and `write_nonblocking` of uds_nonblocking.c where no call fails.
use ipc_benchmark.Prelude.{
  ℕ, suc, ◌+◌, ◌-◌, min, ◌≤◌, ◌<◌, ◌≡◌, refl, sym, ap, ◌∙◌, true, false, List, [], ◌∷◌, ◌++◌,
  append-nil, append_assoc, ltb, ◌==◌, length, take, drop, length-take, length-drop,
  take-append-drop, take_split, drop_split, take_all, arith, ltb→lt, le→ltb_false, Bool-cases, inl,
  inr,
}
use mathlib.Core.Path.{ap₂}
use ipc_benchmark.Memory.{Memory, copy_in, copy_out}
use ipc_benchmark.Memory.Region.{copy_out-copy_in, copy_in-append}
use ipc_benchmark.UdsNonblocking.{
  Answer, Outcome, ReadState, read_stops, read_loop, read_nonblocking, write_loop,
  write_nonblocking,
}

-- No answer is an error.
abbrev pub Sound : List Answer → Type 0
Sound [] = Unit
Sound (Answer.ready k ∷ answers) = Sound answers
Sound (Answer.interrupted ∷ answers) = Sound answers
Sound (Answer.would_block polled ∷ answers) = (polled ≡ true) × Sound answers
Sound (Answer.broken ∷ answers) = ⊥

-- How many answers move bytes.
abbrev pub moves : List Answer → ℕ
moves [] = 0
moves (Answer.ready k ∷ answers) = 1 + moves answers
moves (Answer.interrupted ∷ answers) = moves answers
moves (Answer.would_block polled ∷ answers) = moves answers
moves (Answer.broken ∷ answers) = moves answers

-- A loop that has all its bytes returns at once.
read_loop_full :
    (n base : ℕ) (answers : List Answer) (total : ℕ) (buffer : Memory) (stream : List ℕ)
    → n ≤ total
    → read_loop n base answers total buffer stream
      ≡ read_stops (Outcome.finished total) buffer stream
unfolding read_loop
read_loop_full n base [] total buffer stream le = rw (le→ltb_false total n le) refl
read_loop_full n base (Answer.ready k ∷ answers) total buffer stream le =
    rw (le→ltb_false total n le) refl
read_loop_full n base (Answer.interrupted ∷ answers) total buffer stream le =
    rw (le→ltb_false total n le) refl
read_loop_full n base (Answer.would_block polled ∷ answers) total buffer stream le =
    rw (le→ltb_false total n le) refl
read_loop_full n base (Answer.broken ∷ answers) total buffer stream le =
    rw (le→ltb_false total n le) refl

-- What the loop still has to do from `total` on.
abbrev read_done : (n base total : ℕ) → Memory → List ℕ → ReadState
read_done n base total buffer stream =
    read_stops (Outcome.finished n) (copy_in (base + total) (take (n - total) stream) buffer)
      (drop (n - total) stream)

read_loop_ends :
    (n base : ℕ) (answers : List Answer) (total : ℕ) (buffer : Memory) (stream : List ℕ)
    → total ≡ n
    → read_loop n base answers total buffer stream ≡ read_done n base total buffer stream
unfolding copy_in
read_loop_ends n base answers total buffer stream e =
    let none_left : n - total ≡ 0 = omega arith in
    read_loop_full n base answers total buffer stream (omega arith) ∙ rw none_left (rw e refl)

-- A piece of `j` bytes, and then the rest.
read_done_piece :
    (n base total j : ℕ) (buffer : Memory) (stream : List ℕ)
    → total + j ≤ n
    → j ≤ length stream
    → read_done n base (total + j) (copy_in (base + total) (take j stream) buffer) (drop j stream)
      ≡ read_done n base total buffer stream
read_done_piece n base total j buffer stream le long =
    let i = n - (total + j) in
    let size : length (take j stream) ≡ j = omega (arith, length-take j stream) in
    let place : base + (total + j) ≡ base + total + length (take j stream) = omega arith in
    let count : j + i ≡ n - total = omega arith in
    ap₂ (λ m l. read_stops (Outcome.finished n) m l)
      (ap (λ p. copy_in p (take i (drop j stream)) (copy_in (base + total) (take j stream) buffer))
          place
        ∙ copy_in-append (base + total) (take j stream) (take i (drop j stream)) buffer
        ∙ ap (λ l. copy_in (base + total) l buffer)
            (take_split j i stream ∙ ap (λ c. take c stream) count))
      (drop_split j i stream ∙ ap (λ c. drop c stream) count)

read_loop_lem :
    (n base : ℕ) (answers : List Answer) (total : ℕ) (buffer : Memory) (stream : List ℕ)
    → Sound answers
    → total ≤ n
    → n ≤ total + moves answers
    → n ≤ total + length stream
    → read_loop n base answers total buffer stream ≡ read_done n base total buffer stream
unfolding read_loop
read_loop_lem n base [] total buffer stream sound le few long =
    read_loop_ends n base [] total buffer stream (omega arith)
read_loop_lem n base (Answer.ready k ∷ answers) total buffer stream sound le few long =
    elim (Bool-cases (ltb total n)) [
      | inr full ↦
          read_loop_ends n base (Answer.ready k ∷ answers) total buffer stream (ground arith)
      | inl more ↦
          let j = min (suc k) (n - total) in
          let lt : total < n = ltb→lt total n more in
          let size : length (take j stream) ≡ j = omega (arith, length-take j stream) in
          let some_moved : (j == 0) ≡ false = ground arith in
          rw more (
            rw size (
              rw some_moved (
                read_loop_lem n base answers (total + j)
                  (copy_in (base + total) (take j stream) buffer) (drop j stream) sound
                  (omega arith) (omega arith) (omega (arith, length-drop j stream))
                ∙ read_done_piece n base total j buffer stream (omega arith) (omega arith))))
    ]
read_loop_lem n base (Answer.interrupted ∷ answers) total buffer stream sound le few long =
    elim (Bool-cases (ltb total n)) [
      | inr full ↦
          read_loop_ends n base (Answer.interrupted ∷ answers) total buffer stream (ground arith)
      | inl more ↦ rw more (read_loop_lem n base answers total buffer stream sound le few long)
    ]
read_loop_lem n base (Answer.would_block polled ∷ answers) total buffer stream sound le few long =
    elim (Bool-cases (ltb total n)) [
      | inr full ↦
          read_loop_ends n base (Answer.would_block polled ∷ answers) total buffer stream
            (ground arith)
      | inl more ↦
          rw more
            (rw sound.0 (read_loop_lem n base answers total buffer stream sound.1 le few long))
    ]
read_loop_lem n base (Answer.broken ∷ answers) total buffer stream sound le few long = absurd sound

-- Where no call fails and enough of them move bytes, in pieces of any sizes and with interruptions
-- and waits anywhere between, `read_nonblocking` returns `n` with the next `n` bytes of the stream in
-- the buffer, in order, and takes no more of the stream.
pub read_nonblocking_exact :
    (base n : ℕ) (answers : List Answer) (buffer : Memory) (stream : List ℕ)
    → Sound answers
    → n ≤ moves answers
    → n ≤ length stream
    → read_nonblocking base n answers buffer stream
      ≡ read_stops (Outcome.finished n) (copy_in base (take n stream) buffer) (drop n stream)
unfolding read_nonblocking
read_nonblocking_exact base n answers buffer stream sound few long =
    read_loop_lem n base answers 0 buffer stream sound (omega arith) (omega arith) (omega arith)
    ∙ ap₂
        (λ p c. read_stops (Outcome.finished n) (copy_in p (take c stream) buffer) (drop c stream))
        place count
  where
    place : base + 0 ≡ base
    place = omega arith

    count : n - 0 ≡ n
    count = omega arith

write_loop_lem :
    (answers : List Answer) (total : ℕ) (bytes stream : List ℕ)
    → Sound answers
    → length bytes ≤ moves answers
    → write_loop answers total bytes stream
      ≡ (Outcome.finished (total + length bytes), stream ++ bytes)
unfolding write_loop
write_loop_lem answers total [] stream sound few =
    ap₂ (λ t l. (Outcome.finished t, l)) (omega arith) (sym (append-nil stream))
write_loop_lem [] total (b ∷ bytes) stream sound few = absurd (omega arith)
write_loop_lem (Answer.ready k ∷ answers) total (b ∷ bytes) stream sound few =
    write_loop_lem answers (total + suc (length (take k bytes))) (drop k bytes)
      (stream ++ (b ∷ take k bytes)) sound (omega (arith, length-drop k bytes))
    ∙ ap₂ (λ t l. (Outcome.finished t, l)) (omega (arith, length-take k bytes, length-drop k bytes))
        (append_assoc stream (b ∷ take k bytes) (drop k bytes)
          ∙ ap (λ l. stream ++ (b ∷ l)) (take-append-drop k bytes))
write_loop_lem (Answer.interrupted ∷ answers) total (b ∷ bytes) stream sound few =
    write_loop_lem answers total (b ∷ bytes) stream sound few
write_loop_lem (Answer.would_block polled ∷ answers) total (b ∷ bytes) stream sound few =
    rw sound.0 (write_loop_lem answers total (b ∷ bytes) stream sound.1 few)
write_loop_lem (Answer.broken ∷ answers) total (b ∷ bytes) stream sound few = absurd sound

-- Under the same conditions `write_nonblocking` returns the length of its bytes, and appends exactly
-- these to the stream, in order.
pub write_nonblocking_exact :
    (bytes : List ℕ) (answers : List Answer) (stream : List ℕ)
    → Sound answers
    → length bytes ≤ moves answers
    → write_nonblocking bytes answers stream ≡ (Outcome.finished (length bytes), stream ++ bytes)
unfolding write_nonblocking
write_nonblocking_exact bytes answers stream sound few =
    write_loop_lem answers 0 bytes stream sound few
    ∙ ap (λ n. (Outcome.finished n, stream ++ bytes)) (omega arith)

-- What one end writes into an empty stream, the other end reads: whatever the pieces on both sides,
-- the reader's buffer ends with exactly the bytes of the writer.
pub read-write :
    (base : ℕ) (bytes : List ℕ) (writes reads : List Answer) (buffer : Memory)
    → Sound writes
    → length bytes ≤ moves writes
    → Sound reads
    → length bytes ≤ moves reads
    → let (written, stream) = write_nonblocking bytes writes [] in
      let r = read_nonblocking base (length bytes) reads buffer stream in
      (written ≡ Outcome.finished (length bytes))
      × (r.outcome ≡ Outcome.finished (length bytes))
      × (copy_out base (length bytes) r.buffer ≡ bytes)
read-write base bytes writes reads buffer sound few sound' few' =
    let sends = write_nonblocking_exact bytes writes [] sound few in
    let gets =
      read_nonblocking_exact base (length bytes) reads buffer bytes sound' few' (omega arith) in
    rw sends (rw gets (refl, refl, whole))
  where
    whole : copy_out base (length bytes) (copy_in base (take (length bytes) bytes) buffer) ≡ bytes
    whole = rw (take_all bytes) (copy_out-copy_in base bytes buffer)
