-- ===== src/ShmNonblocking.antt =====
-- shm_nonblocking.c: as shm_blocking.c, but the client's accesses to the segment are made by a thread
-- of its own, which the main thread tells of a message by one interrupt, and which tells the main
-- thread of the response by another. A critical section is one function, from the lock to the next
-- wait or unlock.
pub mod Sections
pub mod Round
pub mod Setup
pub mod System
pub mod Phase
pub mod ServerSteps
pub mod ThreadSteps
pub mod MainSteps
pub mod Invariant
pub mod Exchange
pub mod Progress
pub mod Shutdown
use ipc_benchmark.Prelude.{ℕ, ◌+◌, Bool, true, false, List, Option, some, ◌>>=◌, if◌then◌else◌}
use ipc_benchmark.Prelude.Word.{u64_mod}
use ipc_benchmark.Memory.{Memory, copy_in, copy_out}
use ipc_benchmark.Ring
use ipc_benchmark.Ring.{Ring, Reply}
use ipc_benchmark.Stats.{Stats, record_response}
use ipc_benchmark.Message.{max_msg_size, get_word, validate_message}
use ipc_benchmark.ShmBlocking.{ServerPc}

-- `NonBlockingRingBuffer`, without the mutex and the conditions
pub record NonBlockingRingBuffer : Type 0 where
  pub ring : Ring
  pub message_available : Bool
  pub response_available : Bool
  pub message_processed : Bool
  pub ready : Bool

unfoldable pub ring_buffer_read : NonBlockingRingBuffer → ℕ → Option (Reply × NonBlockingRingBuffer)
ring_buffer_read rb max_len = do
  (reply, ring) ← Ring.ring_buffer_read u64_mod rb.ring max_len
  some (reply, record rb { ring = ring })

unfoldable pub ring_buffer_write :
    NonBlockingRingBuffer → List ℕ → Option (Bool × NonBlockingRingBuffer)
ring_buffer_write rb bytes = do
  (done, ring) ← Ring.ring_buffer_write u64_mod rb.ring bytes
  some (done, record rb { ring = ring })

pub record ServerResult : Type 0 where
  pub rb : NonBlockingRingBuffer
  pub buffer : Memory
  pub pc : ServerPc
  pub signal : Bool

-- The server with the mutex, up to its unlock; a message that is not valid is dropped.
unfoldable pub server_take : NonBlockingRingBuffer → Memory → Option ServerResult
server_take rb buffer =
    if rb.message_available
    then (do
      (reply, rb') ← ring_buffer_read rb max_msg_size
      if reply.success
          then (let buffer' = copy_in 0 reply.bytes buffer in
              do
                valid ← validate_message max_msg_size buffer' reply.bytes_read
                some (record {
                  rb = record rb' { message_available = false };
                  buffer = buffer';
                  pc = if valid then ServerPc.serving reply.bytes_read else ServerPc.top;
                  signal = false;
                }))
          else some (record { rb = rb'; buffer = buffer; pc = ServerPc.top; signal = false }))
    else some (record { rb = rb; buffer = buffer; pc = ServerPc.asleep; signal = false })

unfoldable pub server_reply : (size : ℕ) → NonBlockingRingBuffer → Memory → Option ServerResult
server_reply size rb buffer = do
  (done, rb') ← ring_buffer_write rb (copy_out 0 size buffer)
  some (record {
    rb = if done then record rb' { response_available = true } else rb';
    buffer = buffer;
    pc = ServerPc.top;
    signal = done;
  })

-- What `ThreadData` points to: the message buffer, and the outcome of the read.
pub record ThreadData : Type 0 where
  pub msg : Memory
  pub msg_size : ℕ
  pub read_success : Bool

-- Where the thread stands: at the test of `should_exit`, inside of `interrupt_wait(write_intr)`, in front of
-- its first lock, inside of `pthread_cond_wait`, woken there without the mutex, or behind its loop.
pub data ThreadPc : Type 0 where
  top : ThreadPc
  waits_write : ThreadPc
  sending : ThreadPc
  asleep : ThreadPc
  awake : ThreadPc
  left : ThreadPc

-- `notify` says that it has signalled `read_intr`.
pub record ThreadResult : Type 0 where
  pub rb : NonBlockingRingBuffer
  pub thread : ThreadData
  pub pc : ThreadPc
  pub signal : Bool
  pub notify : Bool

-- The thread with the mutex: it waits while there is no response, reads it, and tells the outcome.
unfoldable pub thread_receive : NonBlockingRingBuffer → ThreadData → Option ThreadResult
thread_receive rb thread =
    if rb.response_available
    then (do
      (reply, rb') ← ring_buffer_read rb max_msg_size
      some (record {
        rb = record rb' { response_available = false };
        thread = record {
          msg = copy_in 0 reply.bytes thread.msg;
          msg_size = reply.bytes_read;
          read_success = reply.success;
        };
        pc = ThreadPc.top;
        signal = false;
        notify = true;
      }))
    else some
        (record { rb = rb; thread = thread; pc = ThreadPc.asleep; signal = false; notify = false })

-- The thread after `interrupt_wait(write_intr)`: it writes and signals the server. Where the write
-- fails it leaves without a word to the main thread.
unfoldable pub thread_send : NonBlockingRingBuffer → ThreadData → Option ThreadResult
thread_send rb thread = do
  (done, rb') ← ring_buffer_write rb (copy_out 0 (get_word 4 thread.msg) thread.msg)
  if done
      then (let rb'' = record rb' { message_available = true } in
          if rb''.ready
          then (do r ← thread_receive rb'' thread; some (record r { signal = true }))
          else some (record {
            rb = rb'';
            thread = record thread { read_success = false; msg_size = 0 };
            pc = ThreadPc.left;
            signal = true;
            notify = true;
          }))
      else some
          (record { rb = rb'; thread = thread; pc = ThreadPc.left; signal = false; notify = false })

-- The main thread after `interrupt_wait(read_intr)`: whether it goes on, and what it counts. It
-- validates the response, but only to report.
unfoldable pub main_receive : (now : ℕ) → ThreadData → Stats → Option (Bool × Stats)
main_receive now thread stats =
    if thread.read_success
    then (do
      valid ← validate_message max_msg_size thread.msg thread.msg_size
      some (true, record_response now thread.msg_size thread.msg stats))
    else some (false, stats)

-- `free_shm_nonblocking_server`, on the shared fields; each condition is signalled once.
unfoldable pub free_shm_nonblocking_server : NonBlockingRingBuffer → NonBlockingRingBuffer
free_shm_nonblocking_server rb = record rb { ready = false; response_available = true }
