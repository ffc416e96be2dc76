-- ===== src/ShmBlocking.antt =====
-- shm_blocking.c: one message at a time through a ring in shared memory, under a process-shared mutex
-- with a condition variable for each side. A critical section is one function here, from the lock to
-- the next wait or unlock; the steps of the two processes interleave in `ShmBlocking.System`.
pub mod Setup
pub mod Start
pub mod Sections
pub mod System
pub mod Phase
pub mod Invariant
pub mod Exchange
pub mod Shutdown
pub mod Abandoned
pub mod Alone
pub mod Stops
use ipc_benchmark.Prelude.{
  ℕ, ◌+◌, Bool, true, false, not, List, Option, some, ◌>>=◌, if◌then◌else◌, ◌<◌,
}
use ipc_benchmark.Prelude.Word.{u64_mod}
use ipc_benchmark.Memory.{Memory, copy_in, copy_out}
use ipc_benchmark.Ring
use ipc_benchmark.Ring.{Ring, Reply}
use ipc_benchmark.Stats.{Stats, record_response}
use ipc_benchmark.Message.{max_msg_size, get_word, validate_message, random_message, set_long}

-- `BlockingRingBuffer`. The mutex and the condition variables are not stored: a step of the system
-- holds the mutex, and who sleeps on a condition is in the program counters.
pub record BlockingRingBuffer : Type 0 where
  pub ring : Ring
  pub message_available : Bool
  pub response_available : Bool
  pub ready : Bool

-- Positions are of type size_t.
pub ring_buffer_read : BlockingRingBuffer → ℕ → Option (Reply × BlockingRingBuffer)
ring_buffer_read rb max_len = do
  (reply, ring) ← Ring.ring_buffer_read u64_mod rb.ring max_len
  some (reply, record rb { ring = ring })

pub ring_buffer_write : BlockingRingBuffer → List ℕ → Option (Bool × BlockingRingBuffer)
ring_buffer_write rb bytes = do
  (done, ring) ← Ring.ring_buffer_write u64_mod rb.ring bytes
  some (done, record rb { ring = ring })

-- Where the server stands between two critical sections. `asleep` is inside of `pthread_cond_wait`,
-- `awake` has been woken there and has not yet the mutex.
pub data ServerPc : Type 0 where
  top : ServerPc
  asleep : ServerPc
  awake : ServerPc
  serving : ℕ → ServerPc
  stopped : ServerPc

pub data ClientPc : Type 0 where
  top : ClientPc
  sending : ClientPc
  asleep : ClientPc
  awake : ClientPc
  stopped : ClientPc

pub record ServerResult : Type 0 where
  pub rb : BlockingRingBuffer
  pub buffer : Memory
  pub pc : ServerPc
  pub signal : Bool

pub record ClientResult : Type 0 where
  pub rb : BlockingRingBuffer
  pub buffer : Memory
  pub pc : ClientPc
  pub signal : Bool
  pub stats : Stats

-- The server with the mutex: it waits while there is no message, reads one, and unlocks. A message
-- that is not valid is dropped.
pub server_take : BlockingRingBuffer → Memory → Option ServerResult
server_take rb buffer =
    if rb.message_available
    then (do
      (reply, rb') ← ring_buffer_read rb max_msg_size
      if reply.success
          then (let buffer' = copy_in 0 reply.bytes buffer in
              do
                valid ← validate_message max_msg_size buffer' reply.bytes_read
                some (record {
                  rb = record rb' { message_available = false };
                  buffer = buffer';
                  pc = if valid then serving reply.bytes_read else top;
                  signal = false;
                }))
          else some (record { rb = rb'; buffer = buffer; pc = top; signal = false }))
    else some (record { rb = rb; buffer = buffer; pc = asleep; signal = false })

-- The second critical section of a round: the message of `size` bytes goes back.
pub server_reply : ℕ → BlockingRingBuffer → Memory → Option ServerResult
server_reply size rb buffer = do
  (done, rb') ← ring_buffer_write rb (copy_out 0 size buffer)
  if done
      then some (record {
        rb = record rb' { response_available = true };
        buffer = buffer;
        pc = top;
        signal = true;
      })
      else some (record { rb = rb'; buffer = buffer; pc = top; signal = false })

-- The client with the mutex: it waits while there is no response, then reads it and unlocks. It
-- stops where the read fails or the message is not valid; `now` is the time of the measurement.
pub client_receive : (now : ℕ) → BlockingRingBuffer → Memory → Stats → Option ClientResult
client_receive now rb buffer stats =
    if rb.response_available
    then (do
      (reply, rb') ← ring_buffer_read rb max_msg_size
      if reply.success
          then (let buffer' = copy_in 0 reply.bytes buffer in
              do
                valid ← validate_message max_msg_size buffer' reply.bytes_read
                some (
                    if valid
                    then record {
                      rb = record rb' { response_available = false };
                      buffer = buffer';
                      pc = top;
                      signal = false;
                      stats = record_response now reply.bytes_read buffer' stats;
                    }
                    else record {
                      rb = record rb' { response_available = false };
                      buffer = buffer';
                      pc = stopped;
                      signal = false;
                      stats = stats;
                    }))
          else some
              (record { rb = rb'; buffer = buffer; pc = stopped; signal = false; stats = stats }))
    else some (record { rb = rb; buffer = buffer; pc = asleep; signal = false; stats = stats })

-- The client's critical section from the lock on: the write, the signal to the server, the test of
-- `ready`, and without an unlock the wait for the response.
pub client_send : (now : ℕ) → BlockingRingBuffer → Memory → Stats → Option ClientResult
client_send now rb buffer stats = do
  (done, rb') ← ring_buffer_write rb (copy_out 0 (get_word 4 buffer) buffer)
  if done
      then (let rb'' = record rb' { message_available = true } in
          if rb''.ready
          then (do r ← client_receive now rb'' buffer stats; some (record r { signal = true }))
          else some
              (record { rb = rb''; buffer = buffer; pc = stopped; signal = true; stats = stats }))
      else some (record { rb = rb'; buffer = buffer; pc = stopped; signal = false; stats = stats })

-- What the client does before it locks: a random message with 2048 to 4095 bytes of payload, stamped
-- with the time. What `rand` and the clock return is left open.
pub client_prepare : (random now now' : ℕ) → Memory → Memory
client_prepare random now now' buffer =
    set_long 16 now' (random_message random now 2048 4096 buffer)

-- `free_shm_blocking_server`, on the shared fields; both conditions are broadcast.
pub free_shm_blocking_server : BlockingRingBuffer → BlockingRingBuffer
free_shm_blocking_server rb = record rb { ready = false; response_available = true }
