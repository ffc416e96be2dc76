-- ===== src/Ring/Fresh.antt =====
-- The ring that a server sets up: both positions at 0, whatever the mapped memory holds.
use ipc_benchmark.Prelude.{ℕ, ◌*◌, ◌≤◌, ◌<◌, ◌^◌, [], arith}
use ipc_benchmark.Memory.{Memory}
use ipc_benchmark.Ring.{Ring}
use ipc_benchmark.Ring.Frames.{frames}
use ipc_benchmark.Ring.IsQueue.{IsQueue}

abbrev pub fresh : ℕ → Memory → Ring
fresh size m = record { read_pos = 0; write_pos = 0; size = size; buffer = m }

-- It holds the empty queue, for a size that suits the type of its positions.
pub fresh-IsQueue :
    (pos_mod size : ℕ) (m : Memory)
    → 0 < size
    → size ≤ 2 ^ 32
    → 2 * size ≤ pos_mod
    → pos_mod ≤ 2 ^ 64
    → IsQueue pos_mod (fresh size m) []
unfolding frames
fresh-IsQueue pos_mod size m pos small twice word = record {
  roomy = record { twice = twice; word = word };
  small = small;
  read_in = pos;
  write_in = pos;
  filled = omega arith;
  held = tt;
}
