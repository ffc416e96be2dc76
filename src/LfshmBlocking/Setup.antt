-- ===== src/LfshmBlocking/Setup.antt =====
-- `setup_lfshm_blocking`: the size becomes a power of 2, the segment a number of whole pages, and the
-- fields are stored one by one, `ready` before the two flags.
use ipc_benchmark.Prelude.{
  ℕ, zero, suc, ◌⊎◌, ◌+◌, ◌-◌, ◌*◌, ◌/◌, ◌^◌, ◌≤◌, ◌<◌, ◌≡◌, refl, true, false, List, [], ◌∷◌, ◌++◌,
  Option, none, some, ◌==◌, if◌then◌else◌, arith, inl, inr,
}
use ipc_benchmark.Prelude.Word.{u32_mod}
use ipc_benchmark.Ring.Fresh.{fresh-IsQueue}
use ipc_benchmark.Ring.IsQueue.{IsQueue}
use ipc_benchmark.Segment.{Kernel, Syscall, closes, create_segment, open_segment}
use ipc_benchmark.Segment.Balance.{Unlinked, create_segment_balance, create_segment_result}
use ipc_benchmark.LfshmBlocking.{LockFreeBlockingRingBuffer}
use native.Mathlib.Nat.{lt-div-mul-add, div-mul-le_self}

-- 64 - __builtin_clzll(x): the number of bits of `x`, of which there are at most `bits`.
unfoldable pub bit_length : (bits x : ℕ) → ℕ
bit_length zero x = 0
bit_length (suc bits) x = let rest = bit_length bits (x / 2) in if x == 0 then 0 else suc rest

unfoldable pub round_up_size : ℕ → ℕ
round_up_size size = 2 ^ bit_length 64 (size - 1)

-- `(total_size + page_size - 1) & ~(page_size - 1)`, where the page size is a power of 2
abbrev pub round_to_pages : (page_size total_size : ℕ) → ℕ
round_to_pages page_size total_size = (total_size + page_size - 1) / page_size * page_size

bit_length_zero : (bits : ℕ) → bit_length bits 0 ≡ 0
unfolding bit_length
bit_length_zero zero = refl
bit_length_zero (suc bits) = refl

bit_length-suc : (bits x : ℕ) → 0 < x → bit_length (suc bits) x ≡ suc (bit_length bits (x / 2))
unfolding bit_length
bit_length-suc bits x pos = ground arith

zero_or_pos : (n : ℕ) → (n ≡ 0) ⊎ (0 < n)
zero_or_pos zero = inl refl
zero_or_pos (suc n) = inr (omega arith)

bit_length_bounds :
    (bits x : ℕ)
    → 0 < x
    → x < 2 ^ bits
    → (x < 2 ^ bit_length bits x) × (2 ^ bit_length bits x ≤ 2 * x)
bit_length_bounds zero x pos lt = omega arith
bit_length_bounds (suc bits) x pos lt = rw (bit_length-suc bits x pos) (elim (zero_or_pos (x / 2)) [
  | inl e ↦ rw e (rw (bit_length_zero bits) (omega arith, omega arith))
  | inr half ↦
      let (below, above) = bit_length_bounds bits (x / 2) half (omega arith) in
      (omega arith, omega arith)
])

-- The size that the ring gets is a power of 2 that is at least the size asked for, and less than
-- twice as much. The size asked for is from 2 to 2 ^ 63.
pub round_up_size_bounds :
    (size : ℕ)
    → 2 ≤ size
    → size ≤ 2 ^ 63
    → ((n : ℕ) × (round_up_size size ≡ 2 ^ n))
      × (size ≤ round_up_size size)
      × (round_up_size size < 2 * size)
unfolding round_up_size
round_up_size_bounds size low high =
    let (below, above) = bit_length_bounds 64 (size - 1) (omega arith) (omega arith) in
    ((_, refl), omega arith, omega arith)

-- The stores into a new segment, in their order.
pub data InitStore : Type 0 where
  store_size : ℕ → InitStore
  store_read_pos : InitStore
  store_write_pos : InitStore
  store_server_futex : InitStore
  store_client_futex : InitStore
  store_ready : InitStore
  store_message_available : InitStore
  store_response_available : InitStore

unfoldable pub init_store : InitStore → LockFreeBlockingRingBuffer → LockFreeBlockingRingBuffer
init_store (InitStore.store_size n) rb = record rb { ring = record rb.ring { size = n } }
init_store InitStore.store_read_pos rb = record rb { ring = record rb.ring { read_pos = 0 } }
init_store InitStore.store_write_pos rb = record rb { ring = record rb.ring { write_pos = 0 } }
init_store InitStore.store_server_futex rb = record rb { server_futex = 0 }
init_store InitStore.store_client_futex rb = record rb { client_futex = 0 }
init_store InitStore.store_ready rb = record rb { ready = true }
init_store InitStore.store_message_available rb = record rb { message_available = false }
init_store InitStore.store_response_available rb = record rb { response_available = false }

unfoldable pub init_stores :
    List InitStore → LockFreeBlockingRingBuffer → LockFreeBlockingRingBuffer
init_stores [] rb = rb
init_stores (st ∷ stores) rb = init_stores stores (init_store st rb)

abbrev pub until_ready : ℕ → List InitStore
until_ready size =
    InitStore.store_size size
    ∷ InitStore.store_read_pos
    ∷ InitStore.store_write_pos
    ∷ InitStore.store_server_futex
    ∷ InitStore.store_client_futex
    ∷ InitStore.store_ready
    ∷ []

abbrev pub from_ready : List InitStore
from_ready = InitStore.store_message_available ∷ InitStore.store_response_available ∷ []

-- `header` is sizeof(LockFreeBlockingRingBuffer), and `mapped` what the kernel maps.
unfoldable pub setup_server :
    (header page_size : ℕ)
    → Kernel
    → (size : ℕ) → LockFreeBlockingRingBuffer
    → Option LockFreeBlockingRingBuffer × List Syscall
setup_server header page_size k size mapped =
    let size' = round_up_size size in
    create_segment k (round_to_pages page_size (header + size'))
      (init_stores (until_ready size' ++ from_ready) mapped)

-- `rb` is the segment when the client finds it `ready`, after `polls` times that it did not.
unfoldable pub setup_client :
    (header page_size : ℕ)
    → Kernel
    → (size polls : ℕ) → LockFreeBlockingRingBuffer
    → Option LockFreeBlockingRingBuffer × List Syscall
setup_client header page_size k size polls rb =
    open_segment k (round_to_pages page_size (header + round_up_size size)) polls rb

-- What the stores leave: the ring holds the empty queue, the words are 0, and no flag but `ready` is
-- up.
abbrev pub IsSetUp : ℕ → Option LockFreeBlockingRingBuffer → Type 0
IsSetUp size none = Unit
IsSetUp size (some rb) =
    IsQueue u32_mod rb.ring []
    × (rb.ring.size ≡ size)
    × (rb.server_futex ≡ 0)
    × (rb.client_futex ≡ 0)
    × (rb.message_available ≡ false)
    × (rb.response_available ≡ false)
    × (rb.ready ≡ true)

-- However the calls turn out, the server's setup closes the descriptor exactly if it got one. If it
-- fails after it created the segment, it unlinks the segment again; if it succeeds, the segment stays,
-- the ring has the rounded size and holds the empty queue, the futex words are 0, and no flag but
-- `ready` is up, whatever the mapped memory held. The size is any from 2 to 2 ^ 30.
pub setup_lfshm_server_balance :
    (header page_size size : ℕ) (k : Kernel) (mapped : LockFreeBlockingRingBuffer)
    → 2 ≤ size
    → size ≤ 2 ^ 30
    → let (result, calls) = setup_server header page_size k size mapped in
      (closes calls ≡ (if k.opens then 1 else 0))
      × Unlinked result calls
      × IsSetUp (round_up_size size) result
unfolding setup_server init_stores init_store
setup_lfshm_server_balance header page_size size k mapped low high =
    let total = round_to_pages page_size (header + round_up_size size) in
    let made = init_stores (until_ready (round_up_size size) ++ from_ready) mapped in
    let (power, above, below) = round_up_size_bounds size low (omega arith) in
    let (closed, unlinked) = create_segment_balance k total made in
    (
      closed,
      unlinked,
      create_segment_result k total made (IsSetUp (round_up_size size)) tt (
        fresh-IsQueue u32_mod (round_up_size size) mapped.ring.buffer (omega arith) (omega arith)
            (omega arith) (omega arith),
        refl,
        refl,
        refl,
        refl,
        refl,
        refl,
      ),
    )

-- The whole of the mapped pages holds the header and the ring, and wastes less than a page.
pub round_to_pages_bounds :
    (page_size total_size : ℕ)
    → 0 < page_size
    → (total_size ≤ round_to_pages page_size total_size)
      × (round_to_pages page_size total_size < total_size + page_size)
round_to_pages_bounds page_size total_size pos =
    let n = total_size + page_size - 1 in
    omega (arith, lt-div-mul-add {a = n} pos, div-mul-le_self n page_size)
