-- ===== src/Memory.antt =====
-- Byte-addressed memory, as the C code uses it through `memcpy`: the shared ring's `buffer`
-- (shm_*.c, lfshm_*.c) and the message buffers (benchmark.c). A byte is a number; where its bound
-- matters a theorem says so.
pub mod Region
use ipc_benchmark.Prelude.{
  ℕ, zero, suc, ◌+◌, ◌*◌, ◌/◌, ◌%◌, List, [], ◌∷◌, Option, none, some, leb, ◌==◌, if◌then◌else◌,
  length,
}

abbrev pub Memory : Type 0
Memory = ℕ → ℕ

abbrev pub update : Memory → ℕ → ℕ → Memory
update m a b i = if i == a then b else m i

-- `memcpy(m + pos, bytes, length bytes)`
unfoldable pub copy_in : ℕ → List ℕ → Memory → Memory
copy_in pos [] m = m
copy_in pos (b ∷ bs) m = copy_in (pos + 1) bs (update m pos b)

-- `memcpy(out, m + pos, n)`: the bytes that it copies
unfoldable pub copy_out : ℕ → ℕ → Memory → List ℕ
copy_out pos zero m = []
copy_out pos (suc n) m = m pos ∷ copy_out (pos + 1) n m

-- The same two for a region of `size` bytes; `none` is an access outside of it, which C leaves
-- undefined.
unfoldable pub store : ℕ → ℕ → List ℕ → Memory → Option Memory
store size pos bytes m = if leb (pos + length bytes) size then some (copy_in pos bytes m) else none

unfoldable pub load : ℕ → ℕ → ℕ → Memory → Option (List ℕ)
load size pos n m = if leb (pos + n) size then some (copy_out pos n m) else none

-- The little-endian bytes of a word of `n` bytes, and the word that bytes stand for.
unfoldable pub le_bytes : ℕ → ℕ → List ℕ
le_bytes zero v = []
le_bytes (suc n) v = (v % 256) ∷ le_bytes n (v / 256)

unfoldable pub le_value : List ℕ → ℕ
le_value [] = 0
le_value (b ∷ bs) = b + 256 * le_value bs
