-- ===== src/Ring.antt =====
-- The ring buffer that all four shared-memory variants share, up to the type of its positions:
-- `ring_buffer_read` and `ring_buffer_write` of shm_blocking.c, shm_nonblocking.c (positions of
-- type size_t) and lfshm_blocking.c, lfshm_nonblocking.c (positions of type uint32_t). The section
-- parameter `pos_mod` is 2 ^ 64 or 2 ^ 32, the modulus of the positions' type. A result of `none`
-- is a `memcpy` outside of the `size` bytes of `buffer`.
--
-- The two loops of copies, for the length and for the data, have one shape in the source; here
-- each is a call of `load_span` or `store_span`.
pub mod Holds
pub mod Span
pub mod Store
pub mod Queue
pub mod IsQueue
pub mod Write
pub mod Read
pub mod Trace
pub mod Exchange
pub mod Fresh
pub mod Frames
use ipc_benchmark.Prelude.{
  ℕ, ◌+◌, ◌-◌, ◌/◌, ◌%◌, List, [], ◌++◌, Option, none, some, Bool, true, false, ltb, leb, ◌==◌,
  if◌then◌else◌, ◌>>=◌, length, take, drop,
}
use ipc_benchmark.Prelude.Word.{u64_mod, add64, sub64}
use ipc_benchmark.Memory.{Memory, load, store, le_bytes, le_value}

-- The fields of the structs that the ring's functions use.
pub record Ring : Type 0 where
  pub read_pos : ℕ
  pub write_pos : ℕ
  pub size : ℕ
  pub buffer : Memory

-- What `ring_buffer_read` leaves: its result, `*bytes_read`, and the bytes copied to `data`.
pub record Reply : Type 0 where
  pub success : Bool
  pub bytes_read : ℕ
  pub bytes : List ℕ

abbrev pub read_failed : Reply
read_failed = record { success = false; bytes_read = 0; bytes = [] }

-- sizeof(uint32_t)
abbrev pub length_size : ℕ
length_size = 4

-- `available`, the free bytes of the ring
pub available : Ring → ℕ
available rb =
    if leb rb.read_pos rb.write_pos
    then sub64 rb.size (rb.write_pos - rb.read_pos)
    else rb.read_pos - rb.write_pos

module _ (pos_mod : ℕ) where
  -- The position behind `n` bytes that did not wrap.
  pub step_to : ℕ → ℕ → ℕ → ℕ
  step_to size pos n = let p = (pos + n) % pos_mod in if p == size then 0 else p

  -- Copies `n` bytes out from `pos`, in two pieces where they go round the end. The sum in the test
  -- has the modulus `sum_mod`.
  pub load_span : ℕ → ℕ → ℕ → ℕ → Memory → Option (List ℕ × ℕ)
  unfolding step_to
  load_span sum_mod size pos n m =
      if ltb size ((pos + n) % sum_mod)
      then (let first_chunk = sub64 size pos in
          do
            front ← load size pos first_chunk m
            back ← load size 0 (sub64 n first_chunk) m
            some (front ++ back, sub64 n first_chunk % pos_mod))
      else (do front ← load size pos n m; some (front, step_to size pos n))

  -- Copies bytes in at `pos`, in two pieces where they go round the end.
  pub store_span : ℕ → ℕ → List ℕ → Memory → Option (Memory × ℕ)
  unfolding step_to
  store_span size pos bytes m =
      if ltb size (add64 pos (length bytes))
      then (let first_chunk = sub64 size pos in
          do
            m' ← store size pos (take first_chunk bytes) m
            m'' ← store size 0 (drop first_chunk bytes) m'
            some (m'', sub64 (length bytes) first_chunk % pos_mod))
      else (do m' ← store size pos bytes m; some (m', step_to size pos (length bytes)))

  pub ring_buffer_read : Ring → ℕ → Option (Reply × Ring)
  ring_buffer_read rb max_len = if rb.read_pos == rb.write_pos then some (read_failed, rb) else (do
    (word, read_pos) ← load_span u64_mod rb.size rb.read_pos length_size rb.buffer
    let msg_len = le_value word
    if ltb max_len msg_len then some (read_failed, rb) else (do
      (bytes, read_pos') ← load_span pos_mod rb.size read_pos msg_len rb.buffer
      some (
        record { success = true; bytes_read = msg_len; bytes = bytes },
        record rb { read_pos = read_pos' },
      )))

  -- `data` is the `len` bytes that the caller passes.
  pub ring_buffer_write : Ring → List ℕ → Option (Bool × Ring)
  unfolding available
  ring_buffer_write rb bytes =
      if ltb (rb.size / 2) (length bytes)
      then some (false, rb)
      else if leb (available rb) (add64 (add64 (length bytes) length_size) 1)
      then some (false, rb)
      else (do
        (m, write_pos) ←
            store_span rb.size rb.write_pos (le_bytes length_size (length bytes)) rb.buffer
        (m', write_pos') ← store_span rb.size write_pos bytes m
        some (true, record rb { buffer = m'; write_pos = write_pos' }))
