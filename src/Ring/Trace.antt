-- ===== src/Ring/Trace.antt =====
-- A whole run of calls on one ring, by both sides, and what each call answers.
use ipc_benchmark.Prelude.{ℕ, ◌≡◌, refl, List, [], ◌∷◌, Option, some, Bool, ◌>>=◌}
use ipc_benchmark.Ring.{Ring, Reply, ring_buffer_read, ring_buffer_write}
use ipc_benchmark.Ring.Queue
use ipc_benchmark.Ring.Queue.{Queue}
use ipc_benchmark.Ring.IsQueue.{IsQueue}
use ipc_benchmark.Ring.Write.{write_refines}
use ipc_benchmark.Ring.Read.{read_refines}

pub data Call : Type 0 where
  put : List ℕ → Call
  get : ℕ → Call

pub data Answer : Type 0 where
  put_done : Bool → Answer
  got : Reply → Answer

-- The calls in turn on the ring of the code; `none` if one leaves the buffer.
unfoldable pub run : ℕ → Ring → List Call → Option (List Answer)
run pos_mod rb [] = some []
run pos_mod rb (put d ∷ calls) = do
  (done, rb') ← ring_buffer_write pos_mod rb d
  answers ← run pos_mod rb' calls
  some (put_done done ∷ answers)
run pos_mod rb (get max_len ∷ calls) = do
  (reply, rb') ← ring_buffer_read pos_mod rb max_len
  answers ← run pos_mod rb' calls
  some (got reply ∷ answers)

-- The same calls on the queue.
unfoldable pub run_queue : ℕ → Queue → List Call → List Answer
run_queue size q [] = []
run_queue size q (put d ∷ calls) =
    let (done, q') = Queue.push size q d in put_done done ∷ run_queue size q' calls
run_queue size q (get max_len ∷ calls) =
    let (reply, q') = Queue.pop max_len q in got reply ∷ run_queue size q' calls

-- No sequence of reads and writes tells a ring that holds a queue from the queue itself, and none of
-- its calls leaves the buffer.
pub run_refines :
    (calls : List Call) {pos_mod : ℕ} {rb : Ring} {q : Queue}
    → IsQueue pos_mod rb q
    → run pos_mod rb calls ≡ some (run_queue rb.size q calls)
unfolding run run_queue
run_refines [] inv = refl
run_refines (put d ∷ calls) inv =
    let (rb', e, inv', size, _, _) = write_refines inv d in rw (e, run_refines calls inv', size)
run_refines (get max_len ∷ calls) inv =
    let (rb', e, inv', size, _, _) = read_refines inv max_len in
    rw (e, run_refines calls inv', size)
