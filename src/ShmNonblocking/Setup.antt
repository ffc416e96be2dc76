-- ===== src/ShmNonblocking/Setup.antt =====
-- `setup_shm_nonblocking` of shm_nonblocking.c: the segment of the server, and the client that opens it.
use ipc_benchmark.Prelude.{
  ℕ, ◌+◌, ◌≤◌, ◌^◌, ◌≡◌, refl, Bool, true, false, List, Option, none, some, if◌then◌else◌, arith,
}
use ipc_benchmark.Memory.{Memory}
use ipc_benchmark.Segment.{Kernel, Syscall, closes, create_segment, open_segment}
use ipc_benchmark.Segment.Balance.{Unlinked, create_segment_balance, create_segment_result}
use ipc_benchmark.Prelude.Word.{u64_mod}
use ipc_benchmark.Ring.Fresh.{fresh, fresh-IsQueue}
use ipc_benchmark.ShmNonblocking.{NonBlockingRingBuffer}
use ipc_benchmark.ShmNonblocking.Sections.{IsIdle}

-- The fields after the server's initialisation of mapped memory `m`; `message_processed` is not stored
-- to, and keeps what the memory holds.
unfoldable pub init_ring : (size : ℕ) (processed : Bool) → Memory → NonBlockingRingBuffer
init_ring size processed m = record {
  ring = fresh size m;
  message_available = false;
  response_available = false;
  message_processed = processed;
  ready = true;
}

unfoldable pub setup_server :
    (header : ℕ)
    → Kernel
    → (size : ℕ) (processed : Bool) → Memory
    → Option NonBlockingRingBuffer × List Syscall
setup_server header k size processed m =
    create_segment k (header + size) (init_ring size processed m)

unfoldable pub setup_client :
    (header : ℕ)
    → Kernel
    → (size polls : ℕ) → NonBlockingRingBuffer
    → Option NonBlockingRingBuffer × List Syscall
setup_client header k size polls rb = open_segment k (header + size) polls rb

abbrev pub IsSetUp : Option NonBlockingRingBuffer → Type 0
IsSetUp none = Unit
IsSetUp (some rb) = IsIdle rb × (rb.message_available ≡ false)

-- However the calls turn out, the setup of the server of shm_nonblocking.c closes the descriptor
-- exactly if it got one. If it fails after it created the segment, it unlinks the segment again; if it
-- succeeds, the segment stays, idle, with no message announced, for a ring of 16384 to 2 ^ 32 bytes.
pub setup_nonblocking_server_balance :
    (header size : ℕ) (k : Kernel) (processed : Bool) (m : Memory)
    → 16384 ≤ size
    → size ≤ 2 ^ 32
    → let (result, calls) = setup_server header k size processed m in
      (closes calls ≡ (if k.opens then 1 else 0)) × Unlinked result calls × IsSetUp result
unfolding setup_server init_ring
setup_nonblocking_server_balance header size k processed m large small =
    let made = init_ring size processed m in
    let (closed, unlinked) = create_segment_balance k (header + size) made in
    (
      closed,
      unlinked,
      create_segment_result k (header + size) made IsSetUp tt (
        record {
          empty = record {
            queue = fresh-IsQueue u64_mod size m (omega arith) small (omega arith) (omega arith);
            large = large;
          };
          ready_flag = refl;
          response_flag = refl;
        },
        refl,
      ),
    )
