-- ===== src/ShmBlocking/Sections.antt =====
-- The critical sections of run_shm_blocking_server and run_shm_blocking_client in shm_blocking.c, in
-- the states in which they run.
use ipc_benchmark.Prelude.{ℕ, ◌≤◌, ◌≡◌, List, [], ◌∷◌, some, true, false, length, arith}
use ipc_benchmark.Prelude.Word.{u64_mod}
use ipc_benchmark.Memory.{Memory, copy_in, copy_out}
use ipc_benchmark.Message.{max_msg_size, get_word}
use ipc_benchmark.Message.Delivery.{IsSound, IsSound-validates}
use ipc_benchmark.Stats.{Stats, record_response}
use ipc_benchmark.Ring.{Ring}
use ipc_benchmark.Ring.IsQueue.{IsQueue}
use ipc_benchmark.Ring.Exchange.{Put, read_front, write_empty}
use ipc_benchmark.ShmBlocking.{
  BlockingRingBuffer, ServerPc, ClientPc, ring_buffer_read, ring_buffer_write, server_take,
  server_reply, client_send, client_receive,
}

-- The ring holds these messages, and is large enough for an exchange.
pub record Holding (rb : BlockingRingBuffer) (q : List (List ℕ)) : Type 0 where
  pub queue : IsQueue u64_mod rb.ring q
  pub large : 16384 ≤ rb.ring.size

put_message :
    {rb : BlockingRingBuffer} {d : List ℕ} → IsSound d → Holding rb [] → Put u64_mod rb.ring d
put_message {d} sound h =
    write_empty h.queue d (omega (arith, sound.short, h.large))
      (omega (arith, sound.short, h.large))

module _ {rb : BlockingRingBuffer} {d : List ℕ} (sound : IsSound d) (buffer : Memory) where
  -- The server gets the message that waits, and will answer it.
  pub server_take_message :
      Holding rb (d ∷ [])
      → rb.message_available ≡ true
      → (ring : Ring) × Holding (record rb { ring = ring; message_available = false }) []
        × (server_take rb buffer
            ≡ some (record {
              rb = record rb { ring = ring; message_available = false };
              buffer = copy_in 0 d buffer;
              pc = ServerPc.serving (length d);
              signal = false;
            }))
  unfolding server_take ring_buffer_read
  server_take_message h e =
      let t = read_front h.queue max_msg_size (omega (arith, sound.short)) in
      (
        t.ring,
        record { queue = t.queue; large = omega (arith, t.size, h.large) },
        rw e (rw t.runs (rw (IsSound-validates sound buffer))),
      )

  -- The server writes its response and signals the client.
  pub server_reply_message :
      Holding rb []
      → copy_out 0 (length d) buffer ≡ d
      → (ring : Ring) × Holding (record rb { ring = ring; response_available = true }) (d ∷ [])
        × (server_reply (length d) rb buffer
            ≡ some (record {
              rb = record rb { ring = ring; response_available = true };
              buffer = buffer;
              pc = ServerPc.top;
              signal = true;
            }))
  unfolding server_reply ring_buffer_write
  server_reply_message h e =
      let t = put_message sound h in
      (t.ring, record { queue = t.queue; large = omega (arith, t.size, h.large) }, rw e (rw t.runs))

  -- The client gets the response and counts it.
  pub client_receive_message :
      (now : ℕ) (stats : Stats)
      → Holding rb (d ∷ [])
      → rb.response_available ≡ true
      → (ring : Ring) × Holding (record rb { ring = ring; response_available = false }) []
        × (client_receive now rb buffer stats
            ≡ some (record {
              rb = record rb { ring = ring; response_available = false };
              buffer = copy_in 0 d buffer;
              pc = ClientPc.top;
              signal = false;
              stats = record_response now (length d) (copy_in 0 d buffer) stats;
            }))
  unfolding client_receive ring_buffer_read
  client_receive_message now stats h e =
      let t = read_front h.queue max_msg_size (omega (arith, sound.short)) in
      (
        t.ring,
        record { queue = t.queue; large = omega (arith, t.size, h.large) },
        rw e (rw t.runs (rw (IsSound-validates sound buffer))),
      )

  -- The client sends its message, signals the server, and sleeps until there is a response.
  pub client_send_message :
      (now : ℕ) (stats : Stats)
      → Holding rb []
      → rb.ready ≡ true
      → rb.response_available ≡ false
      → get_word 4 buffer ≡ length d
      → copy_out 0 (length d) buffer ≡ d
      → (ring : Ring) × Holding (record rb { ring = ring; message_available = true }) (d ∷ [])
        × (client_send now rb buffer stats
            ≡ some (record {
              rb = record rb { ring = ring; message_available = true };
              buffer = buffer;
              pc = ClientPc.asleep;
              signal = true;
              stats = stats;
            }))
  unfolding client_send client_receive ring_buffer_write
  client_send_message now stats h ready waits size e =
      let t = put_message sound h in
      (
        t.ring,
        record { queue = t.queue; large = omega (arith, t.size, h.large) },
        rw size (rw e (rw t.runs (rw ready (rw waits)))),
      )

  -- The client sends its message, and stops because the server is gone.
  pub client_send_last :
      (now : ℕ) (stats : Stats)
      → Holding rb []
      → rb.ready ≡ false
      → get_word 4 buffer ≡ length d
      → copy_out 0 (length d) buffer ≡ d
      → (ring : Ring) × (client_send now rb buffer stats
          ≡ some (record {
            rb = record rb { ring = ring; message_available = true };
            buffer = buffer;
            pc = ClientPc.stopped;
            signal = true;
            stats = stats;
          }))
  unfolding client_send ring_buffer_write
  client_send_last now stats h down size e =
      let t = put_message sound h in (t.ring, rw size (rw e (rw t.runs (rw down))))

-- With no message the server goes to sleep, and with no response the client.
pub server_take_nothing :
    (rb : BlockingRingBuffer) (buffer : Memory)
    → rb.message_available ≡ false
    → server_take rb buffer
      ≡ some (record { rb = rb; buffer = buffer; pc = ServerPc.asleep; signal = false })
unfolding server_take
server_take_nothing rb buffer e = rw e

pub client_receive_nothing :
    (now : ℕ) (rb : BlockingRingBuffer) (buffer : Memory) (stats : Stats)
    → rb.response_available ≡ false
    → client_receive now rb buffer stats
      ≡ some
          (record { rb = rb; buffer = buffer; pc = ClientPc.asleep; signal = false; stats = stats })
unfolding client_receive
client_receive_nothing now rb buffer stats e = rw e
