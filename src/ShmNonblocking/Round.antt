-- ===== src/ShmNonblocking/Round.antt =====
-- A round of shm_nonblocking.c, from the main thread's message to the count of its response.
use ipc_benchmark.Prelude.{ℕ, ◌≡◌, refl, List, some, true, length}
use ipc_benchmark.Memory.{Memory, copy_in, copy_out}
use ipc_benchmark.Memory.Region.{copy_out-copy_in}
use ipc_benchmark.Stats.{Stats, record_response}
use ipc_benchmark.ShmBlocking.{ServerPc}
use ipc_benchmark.ShmNonblocking.Sections.{
  IsIdle, IsPosted, thread_send_message, server_take_message, server_reply_message,
  thread_receive_message, main_receive_message,
}
use ipc_benchmark.ShmNonblocking.{
  NonBlockingRingBuffer, ServerResult, ThreadData, ThreadPc, ThreadResult, server_take,
  server_reply, thread_send, thread_receive, main_receive,
}

-- The results of the five sections of a round, each run on what the one before has left.
pub record Round (now : ℕ) (rb : NonBlockingRingBuffer) (thread : ThreadData) (buffer : Memory)
    (stats : Stats) (d : List ℕ) : Type 0 where
  pub sent : ThreadResult
  pub taken : ServerResult
  pub replied : ServerResult
  pub received : ThreadResult
  pub sends : thread_send rb thread ≡ some sent
  pub asleep : sent.pc ≡ ThreadPc.asleep
  pub takes : server_take sent.rb buffer ≡ some taken
  pub serving : taken.pc ≡ ServerPc.serving (length d)
  pub replies : server_reply (length d) taken.rb taken.buffer ≡ some replied
  pub wakes : replied.signal ≡ true
  pub receives : thread_receive replied.rb sent.thread ≡ some received
  pub notifies : received.notify ≡ true
  pub counts :
      main_receive now received.thread stats
      ≡ some (true, record_response now (length d) received.thread.msg stats)
  pub echo : copy_out 0 (length d) received.thread.msg ≡ d
  pub idle : IsIdle received.rb

-- From an idle segment with a sound message in the thread's buffer, the five sections of a round run
-- one after the other without a fault: the thread sends and sleeps, the server takes the message and
-- signals its response, the thread reads it and notifies the main thread, which counts it once. The
-- response is the message byte for byte, and the segment is idle again.
pub nonblocking_round :
    {rb : NonBlockingRingBuffer} {thread : ThreadData} {d : List ℕ}
    → IsIdle rb
    → IsPosted thread d
    → (now : ℕ) (buffer : Memory) (stats : Stats) → Round now rb thread buffer stats d
nonblocking_round {thread} {d} idle posted now buffer stats =
    let s = thread_send_message thread idle posted in
    let (ring1, h1, takes) = server_take_message posted.sound buffer s.holds refl in
    let (ring2, h2, replies) =
      server_reply_message posted.sound (copy_in 0 d buffer) h1 (copy_out-copy_in 0 d buffer) in
    let (ring3, h3, receives) = thread_receive_message posted.sound thread h2 refl in
    record {
      sent = _;
      taken = _;
      replied = _;
      received = _;
      sends = s.sends;
      asleep = refl;
      takes = takes;
      serving = refl;
      replies = replies;
      wakes = refl;
      receives = receives;
      notifies = refl;
      counts = main_receive_message now thread stats posted.sound;
      echo = copy_out-copy_in 0 d thread.msg;
      idle = record { empty = h3; ready_flag = idle.ready_flag; response_flag = refl };
    }
