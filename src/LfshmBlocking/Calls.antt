-- ===== src/LfshmBlocking/Calls.antt =====
-- The calls on the ring of lfshm_blocking.c in the states in which they run.
use ipc_benchmark.Prelude.{ℕ, ◌≡◌, List, [], ◌∷◌, some, true, false, length, arith}
use ipc_benchmark.Prelude.Word.{u32_mod}
use ipc_benchmark.Memory.{Memory, copy_in, copy_out}
use ipc_benchmark.Message.{max_msg_size, get_word, validate_message}
use ipc_benchmark.Message.Delivery.{IsSound, IsSound-validates}
use ipc_benchmark.Stats.{record_response}
use ipc_benchmark.Ring.{Ring}
use ipc_benchmark.Ring.Exchange.{Put, read_front, write_empty}
use ipc_benchmark.Futex.{SignalPc}
use ipc_benchmark.LfshmBlocking.{
  World, ServerPc, ClientPc, ring_buffer_read, ring_buffer_write, server_read, server_clear,
  server_write, client_write, client_read, client_clear,
}
use ipc_benchmark.LfshmBlocking.Phase.{Holding, Landed}

put_message : {ring : Ring} {d : List ℕ} → IsSound d → Holding ring [] → Put u32_mod ring d
put_message {d} sound h =
    write_empty h.queue d (omega (arith, sound.short, h.large))
      (omega (arith, sound.short, h.large))

Landed-validates :
    {m : Memory} {d : List ℕ}
    → IsSound d
    → Landed m d
    → validate_message max_msg_size m (length d) ≡ some true
Landed-validates sound landed = rw landed.lands (IsSound-validates sound landed.before)

module _ (w : World) (d : List ℕ) (sound : IsSound d) where
  pub server_read_message :
      Holding w.rb.ring (d ∷ [])
      → (ring : Ring) × Holding ring []
        × (server_read w
            ≡ some (record w {
              rb = record w.rb { ring = ring };
              server_buffer = copy_in 0 d w.server_buffer;
              server = ServerPc.clearing (length d);
            }))
  unfolding server_read ring_buffer_read
  server_read_message h =
      let t = read_front h.queue max_msg_size (omega (arith, sound.short)) in
      (t.ring, record { queue = t.queue; large = omega (arith, t.size, h.large) }, rw t.runs)

  pub server_write_message :
      Holding w.rb.ring []
      → copy_out 0 (length d) w.server_buffer ≡ d
      → (ring : Ring) × Holding ring (d ∷ [])
        × (server_write (length d) w
            ≡ some (record w {
              rb = record w.rb { ring = ring };
              server = ServerPc.signalling SignalPc.set_flag;
            }))
  unfolding server_write ring_buffer_write
  server_write_message h e =
      let t = put_message sound h in
      (t.ring, record { queue = t.queue; large = omega (arith, t.size, h.large) }, rw e (rw t.runs))

  pub client_write_message :
      Holding w.rb.ring []
      → get_word 4 w.client_buffer ≡ length d
      → copy_out 0 (length d) w.client_buffer ≡ d
      → (ring : Ring) × Holding ring (d ∷ [])
        × (client_write w
            ≡ some (record w {
              rb = record w.rb { ring = ring };
              client = ClientPc.signalling SignalPc.set_flag;
            }))
  unfolding client_write ring_buffer_write
  client_write_message h size e =
      let t = put_message sound h in
      (
        t.ring,
        record { queue = t.queue; large = omega (arith, t.size, h.large) },
        rw size (rw e (rw t.runs)),
      )

  pub client_read_message :
      Holding w.rb.ring (d ∷ [])
      → (ring : Ring) × Holding ring []
        × (client_read w
            ≡ some (record w {
              rb = record w.rb { ring = ring };
              client_buffer = copy_in 0 d w.client_buffer;
              client = ClientPc.clearing (length d);
            }))
  unfolding client_read ring_buffer_read
  client_read_message h =
      let t = read_front h.queue max_msg_size (omega (arith, sound.short)) in
      (t.ring, record { queue = t.queue; large = omega (arith, t.size, h.large) }, rw t.runs)

  pub server_clear_message :
      Landed w.server_buffer d
      → server_clear (length d) w
        ≡ some (record w {
          rb = record w.rb { message_available = false };
          server = ServerPc.writing (length d);
        })
  unfolding server_clear
  server_clear_message landed = rw (Landed-validates sound landed)

  pub client_clear_message :
      (now : ℕ)
      → Landed w.client_buffer d
      → client_clear now (length d) w
        ≡ some (record w {
          rb = record w.rb { response_available = false };
          client = ClientPc.top;
          stats = record_response now (length d) w.client_buffer w.stats;
        })
  unfolding client_clear
  client_clear_message now landed = rw (Landed-validates sound landed)
