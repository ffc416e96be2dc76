-- ===== src/ShmBlocking/Phase.antt =====
-- The phases of an exchange of shm_blocking.c: who has the message, and where the two processes stand.
use ipc_benchmark.Prelude.{ℕ, ◌≤◌, ◌≡◌, List, [], ◌∷◌, Bool, true, false, length}
use ipc_benchmark.Memory.{Memory, copy_out}
use ipc_benchmark.Message.Validation.{IsMessage}
use ipc_benchmark.Message.Delivery.{IsSound}
use ipc_benchmark.ShmBlocking.{BlockingRingBuffer, ServerPc, ClientPc}
use ipc_benchmark.ShmBlocking.Sections.{Holding}
use ipc_benchmark.ShmBlocking.System.{World}

-- A message that the client can send stands in its buffer.
pub record IsPrepared (m : Memory) : Type 0 where
  pub total : ℕ
  pub long : 36 ≤ total
  pub short : total ≤ 4131
  pub message : IsMessage m total

-- The server is outside of a round: at the top, or waiting for a message.
abbrev pub ServerFree : ServerPc → Type 0
ServerFree ServerPc.top = Unit
ServerFree ServerPc.asleep = Unit
ServerFree ServerPc.awake = Unit
ServerFree (ServerPc.serving size) = ⊥
ServerFree ServerPc.stopped = ⊥

-- The server will look at the flag again without being woken.
abbrev pub ServerRuns : ServerPc → Type 0
ServerRuns ServerPc.top = Unit
ServerRuns ServerPc.asleep = ⊥
ServerRuns ServerPc.awake = Unit
ServerRuns (ServerPc.serving size) = ⊥
ServerRuns ServerPc.stopped = ⊥

-- The client is between two rounds, with a message at hand where it is about to send.
abbrev pub ClientFree : ClientPc → Memory → Type 0
ClientFree ClientPc.top m = Unit
ClientFree ClientPc.sending m = IsPrepared m
ClientFree ClientPc.asleep m = ⊥
ClientFree ClientPc.awake m = ⊥
ClientFree ClientPc.stopped m = Unit

-- The client waits for the response.
abbrev pub ClientWaits : ClientPc → Type 0
ClientWaits ClientPc.top = ⊥
ClientWaits ClientPc.sending = ⊥
ClientWaits ClientPc.asleep = Unit
ClientWaits ClientPc.awake = Unit
ClientWaits ClientPc.stopped = ⊥

-- The flags of the struct.
pub record Flags (rb : BlockingRingBuffer) (message response : Bool) : Type 0 where
  pub message_flag : rb.message_available ≡ message
  pub response_flag : rb.response_available ≡ response
  pub ready_flag : rb.ready ≡ true

-- The message `d` is on its way, and still stands in the client's buffer.
pub record Travels (m : Memory) (d : List ℕ) : Type 0 where
  pub sound : IsSound d
  pub sent : copy_out 0 (length d) m ≡ d

pub data Phase (w : World) : Type 0 where
  idle :
      Holding w.rb []
      → Flags w.rb false false
      → ClientFree w.client w.client_buffer
      → ServerFree w.server
      → Phase w
  requested :
      (d : List ℕ)
      → Travels w.client_buffer d
      → Holding w.rb (d ∷ [])
      → Flags w.rb true false
      → ClientWaits w.client
      → ServerRuns w.server
      → Phase w
  serving :
      (d : List ℕ)
      → Travels w.client_buffer d
      → Holding w.rb []
      → Flags w.rb false false
      → ClientWaits w.client
      → w.server ≡ ServerPc.serving (length d)
      → copy_out 0 (length d) w.server_buffer ≡ d
      → Phase w
  answered :
      (d : List ℕ)
      → Travels w.client_buffer d
      → Holding w.rb (d ∷ [])
      → Flags w.rb false true
      → w.client ≡ ClientPc.awake
      → ServerFree w.server
      → Phase w
