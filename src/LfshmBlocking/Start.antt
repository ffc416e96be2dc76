-- ===== src/LfshmBlocking/Start.antt =====
-- The two processes of lfshm_blocking.c right after the setup.
use ipc_benchmark.Prelude.{ℕ, ◌≤◌, ◌^◌, ◌++◌, refl, arith}
use ipc_benchmark.Prelude.Word.{u32_mod}
use ipc_benchmark.Memory.{Memory}
use ipc_benchmark.Stats.{no_stats}
use ipc_benchmark.Ring.Fresh.{fresh-IsQueue}
use ipc_benchmark.Futex.{WaitPc}
use ipc_benchmark.LfshmBlocking.{LockFreeBlockingRingBuffer, ServerPc, ClientPc, World}
use ipc_benchmark.LfshmBlocking.Setup.{init_stores, init_store, until_ready, from_ready}
use ipc_benchmark.LfshmBlocking.Phase.{idle}
use ipc_benchmark.LfshmBlocking.Invariant.{Inv}

-- The server at its wait and the client at the top of its loop, with buffers of any content, in the
-- segment that the server's setup has left.
unfoldable pub start :
    (size : ℕ) → LockFreeBlockingRingBuffer → (server_buffer client_buffer : Memory) → World
start size mapped server_buffer client_buffer = record {
  rb = init_stores (until_ready size ++ from_ready) mapped;
  server = ServerPc.waiting WaitPc.check;
  server_buffer = server_buffer;
  client = ClientPc.top;
  client_buffer = client_buffer;
  stats = no_stats;
}

-- The setup, where no client comes in between, leaves an idle exchange, whatever the mapped memory and
-- the buffers hold, for a ring of 16384 to 2 ^ 31 bytes.
pub start-Inv :
    (size : ℕ) (mapped : LockFreeBlockingRingBuffer) (server_buffer client_buffer : Memory)
    → 16384 ≤ size
    → size ≤ 2 ^ 31
    → Inv (start size mapped server_buffer client_buffer)
unfolding start init_stores init_store
start-Inv size mapped server_buffer client_buffer large small = record {
  phase =
      idle
        (record {
          queue =
              fresh-IsQueue u32_mod size mapped.ring.buffer (omega arith) (omega arith)
                (omega arith) (omega arith);
          large = large;
        })
        refl refl tt tt;
  ready = refl;
  server_word = omega arith;
  client_word = omega arith;
  messages = tt;
  responses = tt;
}
