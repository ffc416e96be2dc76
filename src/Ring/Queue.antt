-- ===== src/Ring/Queue.antt =====
-- What the ring promises: a bounded FIFO of whole messages.
use ipc_benchmark.Prelude.{
  ℕ, ◌+◌, ◌*◌, List, [], ◌∷◌, ◌++◌, Bool, true, false, ◌&&◌, ltb, leb, if◌then◌else◌, length,
}
use ipc_benchmark.Ring.{Reply, read_failed}

-- The messages in the ring, oldest first.
abbrev pub Queue : Type 0
Queue = List (List ℕ)

-- The bytes that a message takes in the ring.
abbrev pub cost : List ℕ → ℕ
cost d = 4 + length d

abbrev pub total : Queue → ℕ
total [] = 0
total (d ∷ q) = cost d + total q

-- A message fits if it takes no more than half of the ring, and two bytes stay free beside it.
unfoldable pub accepts : ℕ → Queue → List ℕ → Bool
accepts size q d = leb (2 * length d) size && leb (total q + cost d + 2) size

unfoldable pub push : ℕ → Queue → List ℕ → Bool × Queue
push size q d = if accepts size q d then (true, q ++ (d ∷ [])) else (false, q)

abbrev pub read_ok : List ℕ → Reply
read_ok d = record { success = true; bytes_read = length d; bytes = d }

-- A message longer than `max_len` stays where it is.
unfoldable pub pop : ℕ → Queue → Reply × Queue
pop max_len [] = (read_failed, [])
pop max_len (d ∷ q) = if ltb max_len (length d) then (read_failed, d ∷ q) else (read_ok d, q)
