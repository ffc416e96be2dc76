-- ===== src/ShmNonblocking/System.antt =====
-- The three threads of control of shm_nonblocking.c, interleaved: the server, the client's main thread,
-- and the client's thread for the segment. A step is a critical section, with the interrupt that it sends,
-- or one action outside of the mutex. The server's time is not up in these steps.
use ipc_benchmark.Prelude.{ℕ, ◌≡◌, ◌⊎◌, Bool, true, false, some, if◌then◌else◌}
use ipc_benchmark.Memory.{Memory}
use ipc_benchmark.Stats.{Stats}
use ipc_benchmark.Message.{random_message, set_long}
use ipc_benchmark.Interrupt.Traffic.{Channel, arrive, take_value}
use ipc_benchmark.ShmBlocking.{ServerPc}
use ipc_benchmark.ShmBlocking.System.{wake_server}
use ipc_benchmark.ShmNonblocking.{
  NonBlockingRingBuffer, ServerResult, ThreadData, ThreadPc, ThreadResult, server_take,
  server_reply, thread_send, thread_receive, main_receive,
}

-- Where the main thread stands: at the test of the time, in front of the signal to `write_intr`, inside of
-- `interrupt_wait(read_intr)`, behind it, and then in its four actions after the loop.
pub data MainPc : Type 0 where
  top : MainPc
  posting : MainPc
  waits_read : MainPc
  receiving : MainPc
  leaving : MainPc
  signals_read : MainPc
  signals_write : MainPc
  joining : MainPc
  joined : MainPc

pub record World : Type 0 where
  pub rb : NonBlockingRingBuffer
  pub server : ServerPc
  pub server_buffer : Memory
  pub thread : ThreadData
  pub thread_pc : ThreadPc
  pub main : MainPc
  pub read_intr : Channel
  pub write_intr : Channel
  pub should_exit : Bool
  pub stats : Stats

abbrev pub wake_thread : ThreadPc → ThreadPc
wake_thread ThreadPc.asleep = ThreadPc.awake
wake_thread p = p

abbrev pub after_server : World → ServerResult → World
after_server w r = record w {
  rb = r.rb;
  server = r.pc;
  server_buffer = r.buffer;
  thread_pc = if r.signal then wake_thread w.thread_pc else w.thread_pc;
}

abbrev pub after_thread : World → ThreadResult → World
after_thread w r = record w {
  rb = r.rb;
  thread = r.thread;
  thread_pc = r.pc;
  server = if r.signal then wake_server w.server else w.server;
  read_intr = if r.notify then arrive 1 w.read_intr else w.read_intr;
}

-- The main thread builds its message, in the buffer that it shares with the thread.
unfoldable pub main_prepare : (random now now' : ℕ) → World → World
main_prepare random now now' w = record w {
  main = MainPc.posting;
  thread = record w.thread {
    msg = set_long 16 now' (random_message random now 2048 4096 w.thread.msg);
  };
}

pub data Step (w : World) : World → Type 0 where
  -- the server locks at the top of its loop, or again inside of `pthread_cond_wait`
  take :
      {r : ServerResult}
      → (w.server ≡ ServerPc.top) ⊎ (w.server ≡ ServerPc.awake)
      → server_take w.rb w.server_buffer ≡ some r
      → Step w (after_server w r)
  reply :
      (size : ℕ) {r : ServerResult}
      → w.server ≡ ServerPc.serving size
      → server_reply size w.rb w.server_buffer ≡ some r
      → Step w (after_server w r)
  -- a wakeup for no reason
  server_wakes : w.server ≡ ServerPc.asleep → Step w (record w { server = ServerPc.awake })
  enter :
      w.thread_pc ≡ ThreadPc.top
      → w.should_exit ≡ false
      → Step w (record w { thread_pc = ThreadPc.waits_write })
  exit :
      w.thread_pc ≡ ThreadPc.top
      → w.should_exit ≡ true
      → Step w (record w { thread_pc = ThreadPc.left })
  start :
      {c : Channel}
      → w.thread_pc ≡ ThreadPc.waits_write
      → take_value w.write_intr ≡ some c
      → Step w (record w { thread_pc = ThreadPc.sending; write_intr = c })
  send :
      {r : ThreadResult}
      → w.thread_pc ≡ ThreadPc.sending
      → thread_send w.rb w.thread ≡ some r
      → Step w (after_thread w r)
  receive :
      {r : ThreadResult}
      → w.thread_pc ≡ ThreadPc.awake
      → thread_receive w.rb w.thread ≡ some r
      → Step w (after_thread w r)
  thread_wakes : w.thread_pc ≡ ThreadPc.asleep → Step w (record w { thread_pc = ThreadPc.awake })
  prepare : (random now now' : ℕ) → w.main ≡ MainPc.top → Step w (main_prepare random now now' w)
  -- the client's time is up
  finish : w.main ≡ MainPc.top → Step w (record w { main = MainPc.leaving })
  post :
      w.main ≡ MainPc.posting
      → Step w (record w { main = MainPc.waits_read; write_intr = arrive 1 w.write_intr })
  notice :
      {c : Channel}
      → w.main ≡ MainPc.waits_read
      → take_value w.read_intr ≡ some c
      → Step w (record w { main = MainPc.receiving; read_intr = c })
  count :
      (now : ℕ) {goes_on : Bool} {stats : Stats}
      → w.main ≡ MainPc.receiving
      → main_receive now w.thread w.stats ≡ some (goes_on, stats)
      → Step w (record w { main = if goes_on then MainPc.top else MainPc.leaving; stats = stats })
  leave :
      w.main ≡ MainPc.leaving → Step w (record w { main = MainPc.signals_read; should_exit = true })
  signal_read :
      w.main ≡ MainPc.signals_read
      → Step w (record w { main = MainPc.signals_write; read_intr = arrive 1 w.read_intr })
  signal_write :
      w.main ≡ MainPc.signals_write
      → Step w (record w { main = MainPc.joining; write_intr = arrive 1 w.write_intr })
  join :
      w.main ≡ MainPc.joining
      → w.thread_pc ≡ ThreadPc.left
      → Step w (record w { main = MainPc.joined })

pub data Reach (begun : World) : World → Type 0 where
  here : Reach begun begun
  next : {v w : World} → Reach begun v → Step v w → Reach begun w
