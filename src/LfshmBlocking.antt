-- ===== src/LfshmBlocking.antt =====
-- lfshm_blocking.c: one message at a time through a ring in shared memory, with atomic flags and
-- futexes in place of a mutex. A step of a process is one atomic access, or one call on the ring,
-- which makes several accesses in the source.
pub mod System
pub mod Phase
pub mod Calls
pub mod Invariant
pub mod ServerSteps
pub mod ClientSignals
pub mod ClientSteps
pub mod Interleavings
pub mod Exchange
pub mod Setup
pub mod Stuck
pub mod Dropped
pub mod Start
pub mod Total
pub mod Alone
pub mod Stops
pub mod Shutdown
pub mod Progress
use ipc_benchmark.Prelude.{
  ℕ, ◌+◌, ◌-◌, ◌*◌, ◌/◌, ◌^◌, Bool, true, false, List, Option, none, some, ◌>>=◌, if◌then◌else◌,
}
use ipc_benchmark.Prelude.Word.{u32_mod}
use ipc_benchmark.Memory.{Memory, copy_in, copy_out}
use ipc_benchmark.Stats.{Stats, record_response}
use ipc_benchmark.Ring
use ipc_benchmark.Ring.{Ring, Reply}
use ipc_benchmark.Message.{max_msg_size, get_word, validate_message, random_message, set_long}
use ipc_benchmark.Futex.{WaitPc, wait_step, SignalPc, bump, futex_wake}

-- `LockFreeBlockingRingBuffer`
pub record LockFreeBlockingRingBuffer : Type 0 where
  pub ring : Ring
  pub server_futex : ℕ
  pub client_futex : ℕ
  pub ready : Bool
  pub message_available : Bool
  pub response_available : Bool

-- Positions are of type uint32_t.
unfoldable pub ring_buffer_read :
    LockFreeBlockingRingBuffer → ℕ → Option (Reply × LockFreeBlockingRingBuffer)
ring_buffer_read rb max_len = do
  (reply, ring) ← Ring.ring_buffer_read u32_mod rb.ring max_len
  some (reply, record rb { ring = ring })

unfoldable pub ring_buffer_write :
    LockFreeBlockingRingBuffer → List ℕ → Option (Bool × LockFreeBlockingRingBuffer)
ring_buffer_write rb bytes = do
  (done, ring) ← Ring.ring_buffer_write u32_mod rb.ring bytes
  some (done, record rb { ring = ring })

-- `waiting met` is about to read: the wait is over.
pub data ServerPc : Type 0 where
  waiting : WaitPc → ServerPc
  clearing : ℕ → ServerPc
  writing : ℕ → ServerPc
  signalling : SignalPc → ServerPc

pub data ClientPc : Type 0 where
  top : ClientPc
  writing : ClientPc
  signalling : SignalPc → ClientPc
  checking_ready : ClientPc
  waiting : WaitPc → ClientPc
  clearing : ℕ → ClientPc
  stopped : ClientPc

pub record World : Type 0 where
  pub rb : LockFreeBlockingRingBuffer
  pub server : ServerPc
  pub server_buffer : Memory
  pub client : ClientPc
  pub client_buffer : Memory
  pub stats : Stats

abbrev pub woken_client : ClientPc → ClientPc
woken_client (ClientPc.waiting p) = ClientPc.waiting (futex_wake p)
woken_client p = p

abbrev pub woken_server : ServerPc → ServerPc
woken_server (ServerPc.waiting p) = ServerPc.waiting (futex_wake p)
woken_server p = p

-- The server behind its wait: it reads the message.
unfoldable pub server_read : World → Option World
server_read w = do
  (reply, rb) ← ring_buffer_read w.rb max_msg_size
  if reply.success
      then some (record w {
        rb = rb;
        server_buffer = copy_in 0 reply.bytes w.server_buffer;
        server = ServerPc.clearing reply.bytes_read;
      })
      else some (record w { rb = rb; server = ServerPc.waiting WaitPc.check })

-- It takes the flag down, and validates the message; an invalid one it only reports.
unfoldable pub server_clear : ℕ → World → Option World
server_clear size w = do
  valid ← validate_message max_msg_size w.server_buffer size
  some (record w { rb = record w.rb { message_available = false }; server = ServerPc.writing size })

-- It echoes the message.
unfoldable pub server_write : ℕ → World → Option World
server_write size w = do
  (done, rb) ← ring_buffer_write w.rb (copy_out 0 size w.server_buffer)
  some (record w {
    rb = rb;
    server = if done then ServerPc.signalling SignalPc.set_flag else ServerPc.waiting WaitPc.check;
  })

-- It signals the client, and goes back to the top of its loop.
unfoldable pub server_signal : SignalPc → World → World
server_signal SignalPc.set_flag w = record w {
  rb = record w.rb { response_available = true };
  server = ServerPc.signalling SignalPc.add_one;
}
server_signal SignalPc.add_one w = record w {
  rb = record w.rb { client_futex = bump w.rb.client_futex };
  server = ServerPc.signalling SignalPc.wake;
}
server_signal SignalPc.wake w = record w {
  client = woken_client w.client;
  server = ServerPc.waiting WaitPc.check;
}

-- The next access of the server while its time is not up; `none` is a fault.
unfoldable pub server_act : ServerPc → World → Option World
server_act (ServerPc.waiting WaitPc.met) w = server_read w
server_act (ServerPc.waiting p) w =
    some (record w {
      server = ServerPc.waiting (wait_step w.rb.message_available w.rb.server_futex p);
    })
server_act (ServerPc.clearing size) w = server_clear size w
server_act (ServerPc.writing size) w = server_write size w
server_act (ServerPc.signalling p) w = some (server_signal p w)

-- What the client gets from outside in a step: whether its time is up, `rand()`, and the clock.
pub record Input : Type 0 where
  pub time_up : Bool
  pub random : ℕ
  pub now : ℕ
  pub now' : ℕ

-- The client builds its message.
unfoldable pub client_prepare : Input → World → World
client_prepare i w = if i.time_up then record w { client = ClientPc.stopped } else record w {
  client = ClientPc.writing;
  client_buffer = set_long 16 i.now' (random_message i.random i.now 2048 4096 w.client_buffer);
}

unfoldable pub client_write : World → Option World
client_write w = do
  (done, rb) ← ring_buffer_write w.rb (copy_out 0 (get_word 4 w.client_buffer) w.client_buffer)
  some (record w {
    rb = rb;
    client = if done then ClientPc.signalling SignalPc.set_flag else ClientPc.stopped;
  })

unfoldable pub client_signal : SignalPc → World → World
client_signal SignalPc.set_flag w = record w {
  rb = record w.rb { message_available = true };
  client = ClientPc.signalling SignalPc.add_one;
}
client_signal SignalPc.add_one w = record w {
  rb = record w.rb { server_futex = bump w.rb.server_futex };
  client = ClientPc.signalling SignalPc.wake;
}
client_signal SignalPc.wake w = record w {
  server = woken_server w.server;
  client = ClientPc.checking_ready;
}

-- The client reads the response. It goes on where that fails, with a size of 0.
unfoldable pub client_read : World → Option World
client_read w = do
  (reply, rb) ← ring_buffer_read w.rb max_msg_size
  some (record w {
    rb = rb;
    client_buffer = copy_in 0 reply.bytes w.client_buffer;
    client = ClientPc.clearing reply.bytes_read;
  })

-- It takes the flag down, validates, and counts; an invalid message it only reports.
unfoldable pub client_clear : (now size : ℕ) → World → Option World
client_clear now size w = do
  valid ← validate_message max_msg_size w.client_buffer size
  some (record w {
    rb = record w.rb { response_available = false };
    client = ClientPc.top;
    stats = record_response now size w.client_buffer w.stats;
  })

-- The next access of the client; `none` is a fault, or the end of the program.
unfoldable pub client_act : Input → ClientPc → World → Option World
client_act i ClientPc.top w = some (client_prepare i w)
client_act i ClientPc.writing w = client_write w
client_act i (ClientPc.signalling p) w = some (client_signal p w)
client_act i ClientPc.checking_ready w =
    some
      (record w { client = if w.rb.ready then ClientPc.waiting WaitPc.check else ClientPc.stopped })
client_act i (ClientPc.waiting WaitPc.met) w = client_read w
client_act i (ClientPc.waiting p) w =
    some (record w {
      client = ClientPc.waiting (wait_step w.rb.response_available w.rb.client_futex p);
    })
client_act i (ClientPc.clearing size) w = client_clear i.now size w
client_act i ClientPc.stopped w = none

-- `free_lfshm_blocking_server`, when all of its accesses are done: `ready` is down, and both directions
-- are signalled.
unfoldable pub free_lfshm_blocking_server : World → World
free_lfshm_blocking_server w = record w {
  rb = record w.rb {
    ready = false;
    response_available = true;
    client_futex = bump w.rb.client_futex;
    message_available = true;
    server_futex = bump w.rb.server_futex;
  };
  client = woken_client w.client;
  server = woken_server w.server;
}
