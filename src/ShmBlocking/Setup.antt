-- ===== src/ShmBlocking/Setup.antt =====
-- `setup_shm_blocking`: the segment of the server, and the client that opens it.
use ipc_benchmark.Prelude.{
  ℕ, ◌+◌, ◌≤◌, ◌<◌, ◌^◌, ◌≡◌, refl, true, false, List, [], Option, none, some, if◌then◌else◌, arith,
}
use ipc_benchmark.Memory.{Memory}
use ipc_benchmark.Segment.{Kernel, Syscall, closes, create_segment, open_segment}
use ipc_benchmark.Segment.Balance.{Unlinked, create_segment_balance, create_segment_result}
use ipc_benchmark.Prelude.Word.{u64_mod}
use ipc_benchmark.Ring.Fresh.{fresh, fresh-IsQueue}
use ipc_benchmark.Ring.IsQueue.{IsQueue}
use ipc_benchmark.ShmBlocking.{BlockingRingBuffer}

-- The fields after the server's initialisation of mapped memory `m`.
unfoldable pub init_ring : ℕ → Memory → BlockingRingBuffer
init_ring size m = record {
  ring = fresh size m;
  message_available = false;
  response_available = false;
  ready = true;
}

-- `header` is sizeof(BlockingRingBuffer), and `m` the memory that the kernel maps.
unfoldable pub setup_server :
    (header : ℕ) → Kernel → (size : ℕ) → Memory → Option BlockingRingBuffer × List Syscall
setup_server header k size m = create_segment k (header + size) (init_ring size m)

-- The client; `polls` is how often it finds `ready` false, and `rb` what is in the segment then.
unfoldable pub setup_client :
    (header : ℕ)
    → Kernel
    → (size polls : ℕ) → BlockingRingBuffer
    → Option BlockingRingBuffer × List Syscall
setup_client header k size polls rb = open_segment k (header + size) polls rb

-- What the server's setup leaves on success: the ring holds the empty queue, and no flag but `ready`
-- is up.
abbrev pub IsSetUp : ℕ → Option BlockingRingBuffer → Type 0
IsSetUp size none = Unit
IsSetUp size (some rb) =
    IsQueue u64_mod rb.ring []
    × (rb.ring.size ≡ size)
    × (rb.message_available ≡ false)
    × (rb.response_available ≡ false)
    × (rb.ready ≡ true)

-- However the calls turn out, the server's setup closes the descriptor exactly if it got one. If it
-- fails after it created the segment, it unlinks the segment again; if it succeeds, the segment stays
-- and the ring holds the empty queue, with no flag up but `ready`. The size is any from 1 to 2 ^ 32.
pub setup_server_balance :
    (header size : ℕ) (k : Kernel) (m : Memory)
    → 0 < size
    → size ≤ 2 ^ 32
    → let (result, calls) = setup_server header k size m in
      (closes calls ≡ (if k.opens then 1 else 0)) × Unlinked result calls × IsSetUp size result
unfolding setup_server init_ring
setup_server_balance header size k m pos small =
    let (closed, unlinked) = create_segment_balance k (header + size) (init_ring size m) in
    (
      closed,
      unlinked,
      create_segment_result k (header + size) (init_ring size m) (IsSetUp size) tt (
        fresh-IsQueue u64_mod size m pos small (omega arith) (omega arith),
        refl,
        refl,
        refl,
        refl,
      ),
    )
