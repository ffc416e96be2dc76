-- ===== src/ShmNonblocking/Phase.antt =====
-- The phases of an exchange of shm_nonblocking.c: who has the message, and where the three threads of
-- control stand.
use ipc_benchmark.Prelude.{ℕ, ◌≡◌, ◌⊎◌, List, [], ◌∷◌, Bool, true, false, length}
use ipc_benchmark.Memory.{Memory, copy_in, copy_out}
use ipc_benchmark.Message.Delivery.{IsSound}
use ipc_benchmark.Interrupt.Traffic.{Channel, pending}
use ipc_benchmark.ShmBlocking.{ServerPc}
use ipc_benchmark.ShmBlocking.Phase.{ServerFree, ServerRuns}
use ipc_benchmark.ShmNonblocking.{NonBlockingRingBuffer, ThreadData, ThreadPc}
use ipc_benchmark.ShmNonblocking.Sections.{Holding, IsPosted}
use ipc_benchmark.ShmNonblocking.System.{World, MainPc}

-- The thread is between two rounds.
abbrev pub ThreadFree : ThreadPc → Type 0
ThreadFree ThreadPc.top = Unit
ThreadFree ThreadPc.waits_write = Unit
ThreadFree ThreadPc.sending = ⊥
ThreadFree ThreadPc.asleep = ⊥
ThreadFree ThreadPc.awake = ⊥
ThreadFree ThreadPc.left = ⊥

-- The thread waits for the response.
abbrev pub ThreadWaits : ThreadPc → Type 0
ThreadWaits ThreadPc.top = ⊥
ThreadWaits ThreadPc.waits_write = ⊥
ThreadWaits ThreadPc.sending = ⊥
ThreadWaits ThreadPc.asleep = Unit
ThreadWaits ThreadPc.awake = Unit
ThreadWaits ThreadPc.left = ⊥

-- The main thread is between two rounds, with a message at hand where it is about to post.
abbrev pub MainFree : MainPc → ThreadData → Type 0
MainFree MainPc.top thread = Unit
MainFree MainPc.posting thread = (d : List ℕ) × IsPosted thread d
MainFree MainPc.waits_read thread = ⊥
MainFree MainPc.receiving thread = ⊥
MainFree MainPc.leaving thread = ⊥
MainFree MainPc.signals_read thread = ⊥
MainFree MainPc.signals_write thread = ⊥
MainFree MainPc.joining thread = ⊥
MainFree MainPc.joined thread = ⊥

-- The main thread has left its loop.
abbrev pub MainLeft : MainPc → Type 0
MainLeft MainPc.top = ⊥
MainLeft MainPc.posting = ⊥
MainLeft MainPc.waits_read = ⊥
MainLeft MainPc.receiving = ⊥
MainLeft MainPc.leaving = Unit
MainLeft MainPc.signals_read = Unit
MainLeft MainPc.signals_write = Unit
MainLeft MainPc.joining = Unit
MainLeft MainPc.joined = Unit

-- The message `d` has come back into the thread's buffer.
pub record IsReturned (thread : ThreadData) (d : List ℕ) : Type 0 where
  pub sound : IsSound d
  pub before : Memory
  pub landed : thread.msg ≡ copy_in 0 d before
  pub sized : thread.msg_size ≡ length d
  pub success : thread.read_success ≡ true

-- The ring, the flags, and the signals that are under way.
pub record Stands (rb : NonBlockingRingBuffer) (write_intr read_intr : Channel) (should_exit : Bool)
    (q : List (List ℕ)) (message response : Bool) (writes reads : ℕ) : Type 0 where
  pub holds : Holding rb q
  pub message_flag : rb.message_available ≡ message
  pub response_flag : rb.response_available ≡ response
  pub ready_flag : rb.ready ≡ true
  pub write_signals : pending write_intr ≡ writes
  pub read_signals : pending read_intr ≡ reads
  pub stays : should_exit ≡ false

abbrev pub StandsIn : World → List (List ℕ) → (message response : Bool) (writes reads : ℕ) → Type 0
StandsIn w q message response writes reads =
    Stands w.rb w.write_intr w.read_intr w.should_exit q message response writes reads

pub data Phase (w : World) : Type 0 where
  idle :
      StandsIn w [] false false 0 0
      → MainFree w.main w.thread
      → ThreadFree w.thread_pc
      → ServerFree w.server
      → Phase w
  posted :
      (d : List ℕ)
      → IsPosted w.thread d
      → StandsIn w [] false false 1 0
      → w.main ≡ MainPc.waits_read
      → ThreadFree w.thread_pc
      → ServerFree w.server
      → Phase w
  sending :
      (d : List ℕ)
      → IsPosted w.thread d
      → StandsIn w [] false false 0 0
      → w.main ≡ MainPc.waits_read
      → w.thread_pc ≡ ThreadPc.sending
      → ServerFree w.server
      → Phase w
  requested :
      (d : List ℕ)
      → IsPosted w.thread d
      → StandsIn w (d ∷ []) true false 0 0
      → w.main ≡ MainPc.waits_read
      → ThreadWaits w.thread_pc
      → ServerRuns w.server
      → Phase w
  serving :
      (d : List ℕ)
      → IsPosted w.thread d
      → StandsIn w [] false false 0 0
      → w.main ≡ MainPc.waits_read
      → ThreadWaits w.thread_pc
      → w.server ≡ ServerPc.serving (length d)
      → copy_out 0 (length d) w.server_buffer ≡ d
      → Phase w
  answered :
      (d : List ℕ)
      → IsPosted w.thread d
      → StandsIn w (d ∷ []) false true 0 0
      → w.main ≡ MainPc.waits_read
      → w.thread_pc ≡ ThreadPc.awake
      → ServerFree w.server
      → Phase w
  notified :
      (d : List ℕ)
      → IsReturned w.thread d
      → StandsIn w [] false false 0 1
      → w.main ≡ MainPc.waits_read
      → ThreadFree w.thread_pc
      → ServerFree w.server
      → Phase w
  received :
      (d : List ℕ)
      → IsReturned w.thread d
      → StandsIn w [] false false 0 0
      → w.main ≡ MainPc.receiving
      → ThreadFree w.thread_pc
      → ServerFree w.server
      → Phase w

-- An exchange that is in one of its phases, or whose main thread has left its loop.
abbrev pub Inv : World → Type 0
Inv w = MainLeft w.main ⊎ Phase w
