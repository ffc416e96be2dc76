-- ===== src/ShmNonblocking/Sections.antt =====
-- The critical sections of shm_nonblocking.c on a ring that holds a message, or none.
use ipc_benchmark.Prelude.{ℕ, ◌≤◌, ◌≡◌, refl, List, [], ◌∷◌, some, true, false, length, arith}
use ipc_benchmark.Prelude.Word.{u64_mod}
use ipc_benchmark.Memory.{Memory, copy_in, copy_out}
use ipc_benchmark.Message.{max_msg_size, get_word}
use ipc_benchmark.Message.Delivery.{IsSound, IsSound-validates}
use ipc_benchmark.Stats.{Stats, record_response}
use ipc_benchmark.Ring.{Ring}
use ipc_benchmark.Ring.IsQueue.{IsQueue}
use ipc_benchmark.Ring.Exchange.{Took, Put, read_front, write_empty}
use ipc_benchmark.ShmBlocking.{ServerPc}
use ipc_benchmark.ShmNonblocking.{
  NonBlockingRingBuffer, ThreadData, ThreadPc, ring_buffer_read, ring_buffer_write, server_take,
  server_reply, thread_send, thread_receive, main_receive,
}

pub record Holding (rb : NonBlockingRingBuffer) (q : List (List ℕ)) : Type 0 where
  pub queue : IsQueue u64_mod rb.ring q
  pub large : 16384 ≤ rb.ring.size

-- The server is ready and neither flag is up.
pub record IsIdle (rb : NonBlockingRingBuffer) : Type 0 where
  pub empty : Holding rb []
  pub ready_flag : rb.ready ≡ true
  pub response_flag : rb.response_available ≡ false

-- A message stands in the thread's buffer.
pub record IsPosted (thread : ThreadData) (d : List ℕ) : Type 0 where
  pub sound : IsSound d
  pub sized : get_word 4 thread.msg ≡ length d
  pub stands : copy_out 0 (length d) thread.msg ≡ d

pub record Sent (rb : NonBlockingRingBuffer) (thread : ThreadData) (d : List ℕ) : Type 0 where
  pub ring : Ring
  pub holds : Holding (record rb { ring = ring; message_available = true }) (d ∷ [])
  pub sends :
      thread_send rb thread
      ≡ some (record {
        rb = record rb { ring = ring; message_available = true };
        thread = thread;
        pc = ThreadPc.asleep;
        signal = true;
        notify = false;
      })

module _ {rb : NonBlockingRingBuffer} {d : List ℕ} where
  put_message : IsSound d → Holding rb [] → Put u64_mod rb.ring d
  put_message sound h =
      write_empty h.queue d (omega (arith, sound.short, h.large))
        (omega (arith, sound.short, h.large))

  Took-message : IsSound d → Holding rb (d ∷ []) → Took u64_mod rb.ring max_msg_size d []
  Took-message sound h = read_front h.queue max_msg_size (omega (arith, sound.short))

  pub thread_send_message : (thread : ThreadData) → IsIdle rb → IsPosted thread d → Sent rb thread d
  unfolding thread_send thread_receive ring_buffer_write
  thread_send_message thread idle posted =
      let t = put_message posted.sound idle.empty in
      record {
        ring = t.ring;
        holds = record { queue = t.queue; large = omega (arith, t.size, idle.empty.large) };
        sends =
            rw posted.sized
              (rw posted.stands (rw t.runs (rw idle.ready_flag (rw idle.response_flag refl))));
      }

  pub server_take_message :
      IsSound d
      → (buffer : Memory) → Holding rb (d ∷ [])
      → rb.message_available ≡ true
      → (ring : Ring) × Holding (record rb { ring = ring; message_available = false }) []
        × (server_take rb buffer
            ≡ some (record {
              rb = record rb { ring = ring; message_available = false };
              buffer = copy_in 0 d buffer;
              pc = ServerPc.serving (length d);
              signal = false;
            }))
  unfolding server_take ring_buffer_read
  server_take_message sound buffer h e =
      let t = Took-message sound h in
      (
        t.ring,
        record { queue = t.queue; large = omega (arith, t.size, h.large) },
        rw e (rw t.runs (rw (IsSound-validates sound buffer))),
      )

  pub server_reply_message :
      IsSound d
      → (buffer : Memory) → Holding rb []
      → copy_out 0 (length d) buffer ≡ d
      → (ring : Ring) × Holding (record rb { ring = ring; response_available = true }) (d ∷ [])
        × (server_reply (length d) rb buffer
            ≡ some (record {
              rb = record rb { ring = ring; response_available = true };
              buffer = buffer;
              pc = ServerPc.top;
              signal = true;
            }))
  unfolding server_reply ring_buffer_write
  server_reply_message sound buffer h e =
      let t = put_message sound h in
      (t.ring, record { queue = t.queue; large = omega (arith, t.size, h.large) }, rw e (rw t.runs))

  pub thread_receive_message :
      IsSound d
      → (thread : ThreadData) → Holding rb (d ∷ [])
      → rb.response_available ≡ true
      → (ring : Ring) × Holding (record rb { ring = ring; response_available = false }) []
        × (thread_receive rb thread
            ≡ some (record {
              rb = record rb { ring = ring; response_available = false };
              thread = record {
                msg = copy_in 0 d thread.msg;
                msg_size = length d;
                read_success = true;
              };
              pc = ThreadPc.top;
              signal = false;
              notify = true;
            }))
  unfolding thread_receive ring_buffer_read
  thread_receive_message sound thread h e =
      let t = Took-message sound h in
      (t.ring, record { queue = t.queue; large = omega (arith, t.size, h.large) }, rw e (rw t.runs))

pub main_receive_message :
    {d : List ℕ} (now : ℕ) (thread : ThreadData) (stats : Stats)
    → IsSound d
    → main_receive now
        (record { msg = copy_in 0 d thread.msg; msg_size = length d; read_success = true })
        stats
      ≡ some (true, record_response now (length d) (copy_in 0 d thread.msg) stats)
unfolding main_receive
main_receive_message now thread stats sound = rw (IsSound-validates sound thread.msg)

-- With no message the server goes to sleep, and with no response the thread.
pub server_take_nothing :
    (rb : NonBlockingRingBuffer) (buffer : Memory)
    → rb.message_available ≡ false
    → server_take rb buffer
      ≡ some (record { rb = rb; buffer = buffer; pc = ServerPc.asleep; signal = false })
unfolding server_take
server_take_nothing rb buffer e = rw e

pub thread_receive_nothing :
    (rb : NonBlockingRingBuffer) (thread : ThreadData)
    → rb.response_available ≡ false
    → thread_receive rb thread
      ≡ some (record {
        rb = rb;
        thread = thread;
        pc = ThreadPc.asleep;
        signal = false;
        notify = false;
      })
unfolding thread_receive
thread_receive_nothing rb thread e = rw e
