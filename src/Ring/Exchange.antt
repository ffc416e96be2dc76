-- ===== src/Ring/Exchange.antt =====
-- The two calls of an exchange: a message into an empty ring, and the first message out.
use ipc_benchmark.Prelude.{
  ℕ, ◌+◌, ◌*◌, ◌≤◌, ◌≡◌, List, [], ◌∷◌, some, true, length, arith, le→ltb_false,
}
use ipc_benchmark.Ring.{Ring, ring_buffer_read, ring_buffer_write}
use ipc_benchmark.Ring.Queue
use ipc_benchmark.Ring.Queue.{read_ok, accepts}
use ipc_benchmark.Ring.IsQueue.{IsQueue}
use ipc_benchmark.Ring.Write.{write_refines}
use ipc_benchmark.Ring.Read.{read_refines}

pub record Took (pos_mod : ℕ) (rb : Ring) (max_len : ℕ) (d : List ℕ) (q : List (List ℕ))
    : Type 0 where
  pub ring : Ring
  pub runs : ring_buffer_read pos_mod rb max_len ≡ some (read_ok d, ring)
  pub queue : IsQueue pos_mod ring q
  pub size : ring.size ≡ rb.size

pub record Put (pos_mod : ℕ) (rb : Ring) (d : List ℕ) : Type 0 where
  pub ring : Ring
  pub runs : ring_buffer_write pos_mod rb d ≡ some (true, ring)
  pub queue : IsQueue pos_mod ring (d ∷ [])
  pub size : ring.size ≡ rb.size

pub read_front :
    {pos_mod : ℕ} {rb : Ring} {d : List ℕ} {q : List (List ℕ)}
    → IsQueue pos_mod rb (d ∷ q)
    → (max_len : ℕ) → length d ≤ max_len
    → Took pos_mod rb max_len d q
read_front {d} {q} inv max_len le =
    let e : Queue.pop max_len (d ∷ q) ≡ (read_ok d, q) = popped in
    let (ring, runs, queue, size, _, _) = read_refines inv max_len in
    record { ring = ring; runs = rw e at runs; queue = rw e at queue; size = size }
  where
    popped : Queue.pop max_len (d ∷ q) ≡ (read_ok d, q)
    popped = unfold Queue.pop in rw (le→ltb_false max_len (length d) le)

pub write_empty :
    {pos_mod : ℕ} {rb : Ring}
    → IsQueue pos_mod rb []
    → (d : List ℕ) → 2 * length d ≤ rb.size
    → length d + 6 ≤ rb.size
    → Put pos_mod rb d
write_empty {rb} inv d half room =
    let (ring, runs, queue, size, _, _) = write_refines inv d in
    record { ring = ring; runs = rw pushed at runs; queue = rw pushed at queue; size = size }
  where
    pushed : Queue.push rb.size [] d ≡ (true, d ∷ [])
    pushed = unfold Queue.push accepts in ground arith
