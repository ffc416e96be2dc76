-- ===== src/Tests/Rings.antt =====
-- The ring on small messages.
use ipc_benchmark.Prelude.{ℕ, ◌≡◌, refl, List, [], ◌∷◌, true, false, some, ◌⊎◌, arith}
use ipc_benchmark.Prelude.Word.{u32_mod}
use ipc_benchmark.Ring.{Ring, ring_buffer_read, ring_buffer_write}
use ipc_benchmark.Ring.Queue
use ipc_benchmark.Ring.Queue.{Queue}
use ipc_benchmark.Ring.Fresh.{fresh, fresh-IsQueue}
use ipc_benchmark.Ring.IsQueue.{IsQueue}
use ipc_benchmark.Ring.Write.{write_refines}
use ipc_benchmark.Ring.Read.{read_refines}
use ipc_benchmark.Ring.Trace.{Call, put, get, Answer, run, run_queue, run_refines}
use ipc_benchmark.Tests.Fixture.{zeros}

abbrev small_ring : Ring
small_ring = fresh 15 zeros

small_ring-IsQueue : IsQueue u32_mod small_ring []
small_ring-IsQueue =
    fresh-IsQueue u32_mod 15 zeros (omega arith) (omega arith) (omega arith) (omega arith)

abbrev three : List ℕ
three = 1 ∷ 2 ∷ 3 ∷ []

abbrev calls : List Call
calls =
    get 8 ∷ put three ∷ put three ∷ get 2 ∷ get 8 ∷ put (4 ∷ []) ∷ put three ∷ get 8 ∷ get 8 ∷ []

write_refines_example :
    let (done, q') = Queue.push 15 [] three in
    (rb' : Ring) × (ring_buffer_write u32_mod small_ring three ≡ some (done, rb'))
    × IsQueue u32_mod rb' q'
    × (rb'.size ≡ 15)
    × (rb'.read_pos ≡ 0)
    × ((done ≡ true) ⊎ (rb' ≡ small_ring))
write_refines_example = write_refines small_ring-IsQueue three

read_refines_example :
    let (reply, q') = Queue.pop 8 [] in
    (rb' : Ring) × (ring_buffer_read u32_mod small_ring 8 ≡ some (reply, rb'))
    × IsQueue u32_mod rb' q'
    × (rb'.size ≡ 15)
    × (rb'.write_pos ≡ 0)
    × ((reply.success ≡ true) ⊎ (rb' ≡ small_ring))
read_refines_example = read_refines small_ring-IsQueue 8

run_refines_example : run u32_mod small_ring calls ≡ some (run_queue 15 [] calls)
run_refines_example = run_refines calls small_ring-IsQueue

-- The second message does not fit beside the first; the read of two bytes leaves it in place.
calls_answers : run_queue 15 [] calls ≡ (
    Answer.got (record { success = false; bytes_read = 0; bytes = [] })
    ∷ Answer.put_done true
    ∷ Answer.put_done false
    ∷ Answer.got (record { success = false; bytes_read = 0; bytes = [] })
    ∷ Answer.got (record { success = true; bytes_read = 3; bytes = three })
    ∷ Answer.put_done true
    ∷ Answer.put_done true
    ∷ Answer.got (record { success = true; bytes_read = 1; bytes = 4 ∷ [] })
    ∷ Answer.got (record { success = true; bytes_read = 3; bytes = three })
    ∷ [])
unfolding run_queue Queue.push Queue.accepts Queue.pop
calls_answers = refl
