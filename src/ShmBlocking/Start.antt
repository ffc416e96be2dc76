-- ===== src/ShmBlocking/Start.antt =====
-- The two processes of shm_blocking.c right after the setup.
use ipc_benchmark.Prelude.{ℕ, ◌≤◌, ◌^◌, refl, arith}
use ipc_benchmark.Prelude.Word.{u64_mod}
use ipc_benchmark.Memory.{Memory}
use ipc_benchmark.Stats.{no_stats}
use ipc_benchmark.Ring.Fresh.{fresh-IsQueue}
use ipc_benchmark.ShmBlocking.{ServerPc, ClientPc}
use ipc_benchmark.ShmBlocking.Setup.{init_ring}
use ipc_benchmark.ShmBlocking.System.{World}
use ipc_benchmark.ShmBlocking.Phase.{Phase, idle}

-- Both at the top of their loops, with buffers of any content, in the segment that the server's setup
-- has left.
unfoldable pub start : (size : ℕ) (mapped server_buffer client_buffer : Memory) → World
start size mapped server_buffer client_buffer = record {
  rb = init_ring size mapped;
  server = ServerPc.top;
  server_buffer = server_buffer;
  client = ClientPc.top;
  client_buffer = client_buffer;
  stats = no_stats;
}

-- The setup leaves an idle exchange, whatever the mapped memory and the buffers hold, for a ring of
-- 16384 to 2 ^ 32 bytes.
pub start-Phase :
    (size : ℕ) (mapped server_buffer client_buffer : Memory)
    → 16384 ≤ size
    → size ≤ 2 ^ 32
    → Phase (start size mapped server_buffer client_buffer)
unfolding start init_ring
start-Phase size mapped server_buffer client_buffer large small =
    idle
      (record {
        queue = fresh-IsQueue u64_mod size mapped (omega arith) small (omega arith) (omega arith);
        large = large;
      })
      (record { message_flag = refl; response_flag = refl; ready_flag = refl }) tt tt
