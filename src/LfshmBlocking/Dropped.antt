-- ===== src/LfshmBlocking/Dropped.antt =====
-- A request that the last stores of `setup_lfshm_blocking` drop.
use ipc_benchmark.Prelude.{
  ℕ, ◌+◌, ◌*◌, ◌^◌, ◌≤◌, ◌<◌, ◌≡◌, sym, ap, ◌∙◌, length, true, List, [], ◌∷◌, some, arith,
}
use mathlib.Core.Path.{subst}
use ipc_benchmark.Prelude.Word.{u32_mod}
use ipc_benchmark.Ring.Fresh.{fresh-IsQueue}
use ipc_benchmark.Ring.IsQueue.{IsQueue}
use ipc_benchmark.Ring.Exchange.{write_empty}
use ipc_benchmark.Futex.{WaitPc, SignalPc}
use ipc_benchmark.LfshmBlocking.{
  LockFreeBlockingRingBuffer, ring_buffer_write, World, ServerPc, ClientPc,
}
use ipc_benchmark.LfshmBlocking.System.{Reach}
use ipc_benchmark.LfshmBlocking.Stuck.{Stuck, ServerWaits, ClientWaits, reach-Stuck}
use ipc_benchmark.LfshmBlocking.Setup.{init_stores, init_store, until_ready, from_ready}

-- A client of lfshm_blocking.c finds the segment `ready`, writes its message `d` and raises the message
-- flag, all before the server's last two stores of the setup. Then, in every state that the two reach from
-- there, the message is in the ring, neither flag is up, the server is still in its wait for a message,
-- and the client has not left its wait for the response: the message is never read. The size is up to
-- 2 ^ 31, and the message takes up to half of it.
pub setup_drops_request :
    (size : ℕ) (mapped rb : LockFreeBlockingRingBuffer) (d : List ℕ) (v w : World)
    → 0 < size
    → size ≤ 2 ^ 31
    → 2 * length d ≤ size
    → length d + 6 ≤ size
    → ring_buffer_write (init_stores (until_ready size) mapped) d ≡ some (true, rb)
    → v.rb ≡ init_stores from_ready (record rb { message_available = true })
    → v.server ≡ ServerPc.waiting WaitPc.check
    → v.client ≡ ClientPc.signalling SignalPc.add_one
    → Reach v w
    → Stuck d w
unfolding ring_buffer_write init_stores init_store
setup_drops_request size mapped rb d v w pos small half room e set server client reach =
    let t =
      write_empty
        (fresh-IsQueue u32_mod size mapped.ring.buffer pos (omega arith) (omega arith)
          (omega arith))
        d half room in
    let runs : some (true, record (init_stores (until_ready size) mapped) { ring = t.ring })
        ≡ some (true, rb) =
      rw t.runs at e in
    let same : record (init_stores (until_ready size) mapped) { ring = t.ring } ≡ rb = cc in
    let full : v.rb
        ≡ init_stores from_ready (record (init_stores (until_ready size) mapped) {
          ring = t.ring;
          message_available = true;
        }) =
      set ∙ ap (λ r. init_stores from_ready (record r { message_available = true })) (sym same) in
    reach-Stuck
      (record {
        in_ring = subst (λ r. IsQueue u32_mod r.ring (d ∷ [])) (sym full) t.queue;
        no_message = ap (λ r. r.message_available) full;
        no_response = ap (λ r. r.response_available) full;
        ready = ap (λ r. r.ready) full;
        server_waits = subst ServerWaits (sym server) tt;
        client_waits = subst ClientWaits (sym client) tt;
      })
      reach
