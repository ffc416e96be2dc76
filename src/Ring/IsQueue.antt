-- ===== src/Ring/IsQueue.antt =====
-- When a ring stands for a queue of messages: the representation invariant of the shared buffer.
use ipc_benchmark.Prelude.{
  ℕ, ◌+◌, ◌-◌, ◌≤◌, ◌<◌, ◌^◌, ◌≡◌, [], ◌∷◌, leb, if◌then◌else◌, length, arith,
}
use ipc_benchmark.Ring.{Ring}
use ipc_benchmark.Ring.Frames.{frames, length-frames-cons}
use ipc_benchmark.Ring.Holds.{Holds}
use ipc_benchmark.Ring.Span.{IsRoomy}
use ipc_benchmark.Ring.Queue.{Queue, total}

-- The bytes between the two positions.
abbrev pub used : Ring → ℕ
used rb =
    if leb rb.read_pos rb.write_pos
    then rb.write_pos - rb.read_pos
    else rb.write_pos + rb.size - rb.read_pos

pub record IsQueue (pos_mod : ℕ) (rb : Ring) (q : Queue) : Type 0 where
  pub roomy : IsRoomy pos_mod rb.size
  pub small : rb.size ≤ 2 ^ 32
  pub read_in : rb.read_pos < rb.size
  pub write_in : rb.write_pos < rb.size
  pub filled : used rb ≡ length (frames q)
  pub held : Holds rb.size rb.buffer rb.read_pos (frames q)

pub length-frames : (q : Queue) → length (frames q) ≡ total q
unfolding frames
length-frames [] = omega arith
length-frames (d ∷ q) = omega (arith, length-frames-cons d q, length-frames q)
