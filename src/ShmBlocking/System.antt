-- ===== src/ShmBlocking/System.antt =====
-- The two processes of the blocking shared-memory benchmark, interleaved: a step is what one of them
-- does while it holds the mutex, or by itself. The server's time is not up in these steps; what its
-- shutdown does to the client is in `ShmBlocking.Alone`.
use ipc_benchmark.Prelude.{ℕ, ◌≡◌, ◌⊎◌, some, if◌then◌else◌}
use ipc_benchmark.Memory.{Memory}
use ipc_benchmark.Stats.{Stats}
use ipc_benchmark.ShmBlocking.{
  BlockingRingBuffer, ServerPc, ClientPc, ServerResult, ClientResult, server_take, server_reply,
  client_send, client_receive, client_prepare,
}

pub record World : Type 0 where
  pub rb : BlockingRingBuffer
  pub server : ServerPc
  pub server_buffer : Memory
  pub client : ClientPc
  pub client_buffer : Memory
  pub stats : Stats

-- `pthread_cond_signal` to the one process that can sleep on the condition.
abbrev pub wake_server : ServerPc → ServerPc
wake_server ServerPc.asleep = ServerPc.awake
wake_server p = p

abbrev pub wake_client : ClientPc → ClientPc
wake_client ClientPc.asleep = ClientPc.awake
wake_client p = p

abbrev pub after_server : World → ServerResult → World
after_server w r = record w {
  rb = r.rb;
  server = r.pc;
  server_buffer = r.buffer;
  client = if r.signal then wake_client w.client else w.client;
}

abbrev pub after_client : World → ClientResult → World
after_client w r = record w {
  rb = r.rb;
  client = r.pc;
  client_buffer = r.buffer;
  stats = r.stats;
  server = if r.signal then wake_server w.server else w.server;
}

pub data Step (w : World) : World → Type 0 where
  -- the server locks at the top of its loop, or again inside of `pthread_cond_wait`
  take :
      {r : ServerResult}
      → (w.server ≡ ServerPc.top) ⊎ (w.server ≡ ServerPc.awake)
      → server_take w.rb w.server_buffer ≡ some r
      → Step w (after_server w r)
  reply :
      (size : ℕ) {r : ServerResult}
      → w.server ≡ ServerPc.serving size
      → server_reply size w.rb w.server_buffer ≡ some r
      → Step w (after_server w r)
  -- a wakeup for no reason
  server_wakes : w.server ≡ ServerPc.asleep → Step w (record w { server = ServerPc.awake })
  prepare :
      (random now now' : ℕ)
      → w.client ≡ ClientPc.top
      → Step w (record w {
        client = ClientPc.sending;
        client_buffer = client_prepare random now now' w.client_buffer;
      })
  -- the client's time is up
  finish : w.client ≡ ClientPc.top → Step w (record w { client = ClientPc.stopped })
  send :
      (now : ℕ) {r : ClientResult}
      → w.client ≡ ClientPc.sending
      → client_send now w.rb w.client_buffer w.stats ≡ some r
      → Step w (after_client w r)
  receive :
      (now : ℕ) {r : ClientResult}
      → w.client ≡ ClientPc.awake
      → client_receive now w.rb w.client_buffer w.stats ≡ some r
      → Step w (after_client w r)
  client_wakes : w.client ≡ ClientPc.asleep → Step w (record w { client = ClientPc.awake })

pub data Reach (start : World) : World → Type 0 where
  here : Reach start start
  next : {v w : World} → Reach start v → Step v w → Reach start w
