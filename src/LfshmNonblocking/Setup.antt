-- ===== src/LfshmNonblocking/Setup.antt =====
-- `setup_lfshm_nonblocking` and `free_lfshm_nonblocking_server` of lfshm_nonblocking.c. The size, the
-- pages and the order of the stores are those of lfshm_blocking.c.
use ipc_benchmark.Prelude.{
  ℕ, ◌+◌, ◌^◌, ◌≤◌, ◌≡◌, true, false, List, [], ◌∷◌, ◌++◌, Option, none, some, if◌then◌else◌, arith,
}
use mathlib.Core.Path.{ap₂}
use ipc_benchmark.Memory.{Memory}
use ipc_benchmark.Stats.{no_stats}
use ipc_benchmark.Segment.{Kernel, Syscall, closes, create_segment, open_segment}
use ipc_benchmark.Segment.Balance.{Unlinked, create_segment_balance, create_segment_result}
use ipc_benchmark.Futex.{WaitPc, bump}
use ipc_benchmark.LfshmBlocking as L
use ipc_benchmark.LfshmBlocking.{ServerPc}
use ipc_benchmark.LfshmBlocking.Setup as B
use ipc_benchmark.LfshmBlocking.Setup.{
  InitStore, round_up_size, round_up_size_bounds, round_to_pages, until_ready, from_ready,
}
use ipc_benchmark.LfshmBlocking.Start as S
use ipc_benchmark.LfshmBlocking.Start.{start-Inv}
use ipc_benchmark.LfshmBlocking.Invariant.{Inv}
use ipc_benchmark.LfshmNonblocking.{
  LockFreeNonBlockingRingBuffer, World, ClientPc, woken_client, woken_server,
}
use ipc_benchmark.LfshmNonblocking.Simulation.{blocking, woken_client_of, woken_server_same}

unfoldable pub init_store :
    InitStore → LockFreeNonBlockingRingBuffer → LockFreeNonBlockingRingBuffer
init_store (InitStore.store_size n) rb = record rb { ring = record rb.ring { size = n } }
init_store InitStore.store_read_pos rb = record rb { ring = record rb.ring { read_pos = 0 } }
init_store InitStore.store_write_pos rb = record rb { ring = record rb.ring { write_pos = 0 } }
init_store InitStore.store_server_futex rb = record rb { server_futex = 0 }
init_store InitStore.store_client_futex rb = record rb { client_futex = 0 }
init_store InitStore.store_ready rb = record rb { ready = true }
init_store InitStore.store_message_available rb = record rb { message_available = false }
init_store InitStore.store_response_available rb = record rb { response_available = false }

unfoldable pub init_stores :
    List InitStore → LockFreeNonBlockingRingBuffer → LockFreeNonBlockingRingBuffer
init_stores [] rb = rb
init_stores (st ∷ stores) rb = init_stores stores (init_store st rb)

-- `header` is sizeof(LockFreeNonBlockingRingBuffer), and `mapped` what the kernel maps.
unfoldable pub setup_server :
    (header page_size : ℕ)
    → Kernel
    → (size : ℕ) → LockFreeNonBlockingRingBuffer
    → Option LockFreeNonBlockingRingBuffer × List Syscall
setup_server header page_size k size mapped =
    let size' = round_up_size size in
    create_segment k (round_to_pages page_size (header + size'))
      (init_stores (until_ready size' ++ from_ready) mapped)

-- `rb` is the segment when the client finds it `ready`, after `polls` times that it did not.
unfoldable pub setup_client :
    (header page_size : ℕ)
    → Kernel
    → (size polls : ℕ) → LockFreeNonBlockingRingBuffer
    → Option LockFreeNonBlockingRingBuffer × List Syscall
setup_client header page_size k size polls rb =
    open_segment k (round_to_pages page_size (header + round_up_size size)) polls rb

-- The two processes in a segment that has been set up, in front of their loops.
abbrev pub begin : LockFreeNonBlockingRingBuffer → (server_buffer client_buffer : Memory) → World
begin rb server_buffer client_buffer = record {
  rb = rb;
  server = ServerPc.waiting WaitPc.check;
  server_buffer = server_buffer;
  client = ClientPc.top;
  client_buffer = client_buffer;
  stats = no_stats;
}

abbrev pub Begins : Option LockFreeNonBlockingRingBuffer → Type 0
Begins none = Unit
Begins (some rb) =
    (server_buffer client_buffer : Memory) → Inv (blocking (begin rb server_buffer client_buffer))

-- However the calls turn out, the setup of the server of lfshm_nonblocking.c closes the descriptor
-- exactly if it got one. If it fails after it created the segment, it unlinks the segment again; if it
-- succeeds, the segment stays, and the two processes, where no client came in between, are at the
-- start of an exchange, whatever the mapped memory and the buffers hold. The size is any from 16384
-- to 2 ^ 30.
pub setup_lfshm_nonblocking_balance :
    (header page_size size : ℕ) (k : Kernel) (mapped : LockFreeNonBlockingRingBuffer)
    → 16384 ≤ size
    → size ≤ 2 ^ 30
    → let (result, calls) = setup_server header page_size k size mapped in
      (closes calls ≡ (if k.opens then 1 else 0)) × Unlinked result calls × Begins result
unfolding setup_server init_stores init_store S.start B.init_stores B.init_store
setup_lfshm_nonblocking_balance header page_size size k mapped low high =
    let size' = round_up_size size in
    let total = round_to_pages page_size (header + size') in
    let made = init_stores (until_ready size' ++ from_ready) mapped in
    let (power, above, below) = round_up_size_bounds size (omega arith) (omega arith) in
    let (closed, unlinked) = create_segment_balance k total made in
    let begins : Begins (some made) = λ server_buffer client_buffer.
      start-Inv size' (blocking (begin mapped server_buffer client_buffer)).rb server_buffer
        client_buffer (omega arith) (omega arith) in
    (closed, unlinked, create_segment_result k total made Begins tt begins)

-- `free_lfshm_nonblocking_server`, when all of its accesses are done: `ready` is down, and both
-- directions are signalled.
unfoldable pub free_lfshm_nonblocking_server : World → World
free_lfshm_nonblocking_server w = record w {
  rb = record w.rb {
    ready = false;
    response_available = true;
    client_futex = bump w.rb.client_futex;
    message_available = true;
    server_futex = bump w.rb.server_futex;
  };
  client = woken_client w.client;
  server = woken_server w.server;
}

-- The shutdown does to the shared fields, and to waiters of either kind, what that of
-- lfshm_blocking.c does.
pub free_lfshm_nonblocking_server_sim :
    (w : World)
    → blocking (free_lfshm_nonblocking_server w) ≡ L.free_lfshm_blocking_server (blocking w)
unfolding free_lfshm_nonblocking_server L.free_lfshm_blocking_server
free_lfshm_nonblocking_server_sim w =
    ap₂ (λ c s. record (blocking (free_lfshm_nonblocking_server w)) { client = c; server = s })
      (woken_client_of w.client) (woken_server_same w.server)
