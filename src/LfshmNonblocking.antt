-- ===== src/LfshmNonblocking.antt =====
-- lfshm_nonblocking.c: as lfshm_blocking.c, but the client waits for its response through io_uring,
-- whose calls may fail. liburing is not modelled: whether its calls for one wait succeed is a
-- parameter of the step.
pub mod Uring
pub mod Failure
pub mod System
pub mod Simulation
pub mod Exchange
pub mod Setup
use ipc_benchmark.Prelude.{
  ℕ, ◌+◌, Bool, true, false, List, Option, none, some, ◌>>=◌, ◌==◌, if◌then◌else◌,
}
use ipc_benchmark.Prelude.Word.{u32_mod}
use ipc_benchmark.Memory.{Memory, copy_in, copy_out}
use ipc_benchmark.Ring
use ipc_benchmark.Ring.{Ring, Reply}
use ipc_benchmark.Stats.{Stats, record_response}
use ipc_benchmark.Message.{max_msg_size, get_word, validate_message, random_message, set_long}
use ipc_benchmark.Futex.{WaitPc, wait_step, SignalPc, bump, futex_wake}
use ipc_benchmark.LfshmBlocking.{ServerPc}

-- `LockFreeNonBlockingRingBuffer`
pub record LockFreeNonBlockingRingBuffer : Type 0 where
  pub ring : Ring
  pub server_futex : ℕ
  pub client_futex : ℕ
  pub ready : Bool
  pub message_available : Bool
  pub response_available : Bool

unfoldable pub ring_buffer_read :
    LockFreeNonBlockingRingBuffer → ℕ → Option (Reply × LockFreeNonBlockingRingBuffer)
ring_buffer_read rb max_len = do
  (reply, ring) ← Ring.ring_buffer_read u32_mod rb.ring max_len
  some (reply, record rb { ring = ring })

unfoldable pub ring_buffer_write :
    LockFreeNonBlockingRingBuffer → List ℕ → Option (Bool × LockFreeNonBlockingRingBuffer)
ring_buffer_write rb bytes = do
  (done, ring) ← Ring.ring_buffer_write u32_mod rb.ring bytes
  some (done, record rb { ring = ring })

-- Where `futex_wait_for_atomic_bool_uring` stands; `returned` has its result.
pub data UringPc : Type 0 where
  check : UringPc
  load_word : UringPc
  recheck : ℕ → UringPc
  submit : ℕ → UringPc
  in_flight : UringPc
  returned : Bool → UringPc

-- One access of the waiter, at the values that the flag and the futex word have then. `ok` is whether
-- the calls of liburing succeed; a word that has changed completes the request with -EAGAIN.
unfoldable pub uring_step : (ok condition : Bool) (word : ℕ) → UringPc → UringPc
uring_step ok condition word UringPc.check =
    if condition then UringPc.returned true else UringPc.load_word
uring_step ok condition word UringPc.load_word = UringPc.recheck word
uring_step ok condition word (UringPc.recheck val) =
    if condition then UringPc.check else UringPc.submit val
uring_step ok condition word (UringPc.submit val) =
    if ok
    then (if val == word then UringPc.in_flight else UringPc.check)
    else UringPc.returned false
uring_step ok condition word UringPc.in_flight =
    if ok then UringPc.in_flight else UringPc.returned false
uring_step ok condition word (UringPc.returned met) = UringPc.returned met

-- The completion of a request by FUTEX_WAKE
unfoldable pub uring_wake : UringPc → UringPc
uring_wake UringPc.check = UringPc.check
uring_wake UringPc.load_word = UringPc.load_word
uring_wake (UringPc.recheck val) = UringPc.recheck val
uring_wake (UringPc.submit val) = UringPc.submit val
uring_wake UringPc.in_flight = UringPc.check
uring_wake (UringPc.returned met) = UringPc.returned met

pub data ClientPc : Type 0 where
  top : ClientPc
  writing : ClientPc
  signalling : SignalPc → ClientPc
  checking_ready : ClientPc
  waiting : UringPc → ClientPc
  clearing : ℕ → ClientPc
  stopped : ClientPc

-- The server has the text of lfshm_blocking.c, so that it stands where that one does.
pub record World : Type 0 where
  pub rb : LockFreeNonBlockingRingBuffer
  pub server : ServerPc
  pub server_buffer : Memory
  pub client : ClientPc
  pub client_buffer : Memory
  pub stats : Stats

abbrev pub woken_client : ClientPc → ClientPc
woken_client (ClientPc.waiting p) = ClientPc.waiting (uring_wake p)
woken_client p = p

abbrev pub woken_server : ServerPc → ServerPc
woken_server (ServerPc.waiting p) = ServerPc.waiting (futex_wake p)
woken_server p = p

-- The server behind its wait: it reads the message.
unfoldable pub server_read : World → Option World
server_read w = do
  (reply, rb) ← ring_buffer_read w.rb max_msg_size
  if reply.success
      then some (record w {
        rb = rb;
        server_buffer = copy_in 0 reply.bytes w.server_buffer;
        server = ServerPc.clearing reply.bytes_read;
      })
      else some (record w { rb = rb; server = ServerPc.waiting WaitPc.check })

-- It takes the flag down, and validates the message; an invalid one it only reports.
unfoldable pub server_clear : ℕ → World → Option World
server_clear size w = do
  valid ← validate_message max_msg_size w.server_buffer size
  some (record w { rb = record w.rb { message_available = false }; server = ServerPc.writing size })

-- It echoes the message.
unfoldable pub server_write : ℕ → World → Option World
server_write size w = do
  (done, rb) ← ring_buffer_write w.rb (copy_out 0 size w.server_buffer)
  some (record w {
    rb = rb;
    server = if done then ServerPc.signalling SignalPc.set_flag else ServerPc.waiting WaitPc.check;
  })

-- It signals the client, and goes back to the top of its loop.
unfoldable pub server_signal : SignalPc → World → World
server_signal SignalPc.set_flag w = record w {
  rb = record w.rb { response_available = true };
  server = ServerPc.signalling SignalPc.add_one;
}
server_signal SignalPc.add_one w = record w {
  rb = record w.rb { client_futex = bump w.rb.client_futex };
  server = ServerPc.signalling SignalPc.wake;
}
server_signal SignalPc.wake w = record w {
  client = woken_client w.client;
  server = ServerPc.waiting WaitPc.check;
}

-- The next access of the server while its time is not up; `none` is a fault.
unfoldable pub server_act : ServerPc → World → Option World
server_act (ServerPc.waiting WaitPc.met) w = server_read w
server_act (ServerPc.waiting p) w =
    some (record w {
      server = ServerPc.waiting (wait_step w.rb.message_available w.rb.server_futex p);
    })
server_act (ServerPc.clearing size) w = server_clear size w
server_act (ServerPc.writing size) w = server_write size w
server_act (ServerPc.signalling p) w = some (server_signal p w)

-- What the client gets from outside in a step: whether its time is up, `rand()`, the clock, and
-- whether the calls of liburing succeed.
pub record Input : Type 0 where
  pub time_up : Bool
  pub random : ℕ
  pub now : ℕ
  pub now' : ℕ
  pub uring_ok : Bool

-- The client builds its message.
unfoldable pub client_prepare : Input → World → World
client_prepare i w = if i.time_up then record w { client = ClientPc.stopped } else record w {
  client = ClientPc.writing;
  client_buffer = set_long 16 i.now' (random_message i.random i.now 2048 4096 w.client_buffer);
}

unfoldable pub client_write : World → Option World
client_write w = do
  (done, rb) ← ring_buffer_write w.rb (copy_out 0 (get_word 4 w.client_buffer) w.client_buffer)
  some (record w {
    rb = rb;
    client = if done then ClientPc.signalling SignalPc.set_flag else ClientPc.stopped;
  })

unfoldable pub client_signal : SignalPc → World → World
client_signal SignalPc.set_flag w = record w {
  rb = record w.rb { message_available = true };
  client = ClientPc.signalling SignalPc.add_one;
}
client_signal SignalPc.add_one w = record w {
  rb = record w.rb { server_futex = bump w.rb.server_futex };
  client = ClientPc.signalling SignalPc.wake;
}
client_signal SignalPc.wake w = record w {
  server = woken_server w.server;
  client = ClientPc.checking_ready;
}

-- The client reads the response, whatever its wait returned. It goes on where the read fails, with a
-- size of 0.
unfoldable pub client_read : World → Option World
client_read w = do
  (reply, rb) ← ring_buffer_read w.rb max_msg_size
  some (record w {
    rb = rb;
    client_buffer = copy_in 0 reply.bytes w.client_buffer;
    client = ClientPc.clearing reply.bytes_read;
  })

-- It takes the flag down, validates, and counts; an invalid message it only reports.
unfoldable pub client_clear : (now size : ℕ) → World → Option World
client_clear now size w = do
  valid ← validate_message max_msg_size w.client_buffer size
  some (record w {
    rb = record w.rb { response_available = false };
    client = ClientPc.top;
    stats = record_response now size w.client_buffer w.stats;
  })

-- The next access of the client; `none` is a fault, or the end of the program.
unfoldable pub client_act : Input → ClientPc → World → Option World
client_act i ClientPc.top w = some (client_prepare i w)
client_act i ClientPc.writing w = client_write w
client_act i (ClientPc.signalling p) w = some (client_signal p w)
client_act i ClientPc.checking_ready w =
    some (record w {
      client = if w.rb.ready then ClientPc.waiting UringPc.check else ClientPc.stopped;
    })
client_act i (ClientPc.waiting (UringPc.returned met)) w = client_read w
client_act i (ClientPc.waiting p) w = some (record w {
  client = ClientPc.waiting (uring_step i.uring_ok w.rb.response_available w.rb.client_futex p);
})
client_act i (ClientPc.clearing size) w = client_clear i.now size w
client_act i ClientPc.stopped w = none
