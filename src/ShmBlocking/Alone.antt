-- ===== src/ShmBlocking/Alone.antt =====
-- The client of shm_blocking.c by itself, after `free_shm_blocking_server`.
use ipc_benchmark.Prelude.{
  ℕ, ◌≡◌, ◌≤◌, refl, sym, ap, ◌∙◌, Bool, true, false, Option, some, ◌>>=◌, List, [], ◌∷◌, length,
  if◌then◌else◌, Bool-cases, inl, inr, arith, run_with, StopsWithin, stopped-StopsWithin,
  more-StopsWithin, run_with-StopsWithin,
}
use ipc_benchmark.Memory.{copy_in, copy_out}
use ipc_benchmark.Memory.Region.{length-copy_out}
use ipc_benchmark.Stats.{record_response}
use ipc_benchmark.Message.Delivery.{IsSound, IsSound-copy_out, prepared-IsMessage}
use ipc_benchmark.ShmBlocking.{
  ServerPc, ClientPc, client_send, client_receive, client_prepare, free_shm_blocking_server,
}
use ipc_benchmark.ShmBlocking.Sections.{Holding, client_receive_message, client_send_last}
use ipc_benchmark.ShmBlocking.System.{World, after_client, wake_client}
use ipc_benchmark.ShmBlocking.Phase.{IsPrepared}

-- What the client's next section depends on from outside.
pub record Input : Type 0 where
  pub time_up : Bool
  pub random : ℕ
  pub now : ℕ
  pub now' : ℕ

-- The client's next section by itself: it stays asleep, and stays stopped. `none` is a fault.
unfoldable pub client_once : Input → ClientPc → World → Option World
client_once i ClientPc.top w = some (
    if i.time_up then record w { client = ClientPc.stopped } else record w {
      client = ClientPc.sending;
      client_buffer = client_prepare i.random i.now i.now' w.client_buffer;
    })
client_once i ClientPc.sending w = do
  r ← client_send i.now w.rb w.client_buffer w.stats
  some (after_client w r)
client_once i ClientPc.asleep w = some w
client_once i ClientPc.awake w = do
  r ← client_receive i.now w.rb w.client_buffer w.stats
  some (after_client w r)
client_once i ClientPc.stopped w = some w

abbrev client_next : Input → World → Option World
client_next i w = client_once i w.client w

-- The rest of the client's run, one section for each input.
unfoldable pub client_alone : List Input → World → Option World
client_alone inputs w = run_with client_next inputs w

-- The server has left its loop, and has shut down.
unfoldable pub shut_down : World → World
shut_down w = record w {
  rb = free_shm_blocking_server w.rb;
  server = ServerPc.stopped;
  client = wake_client w.client;
}

abbrev pub HasStopped : World → Type 0
HasStopped w = w.client ≡ ClientPc.stopped

abbrev pub StopsIn : ℕ → World → Type 0
StopsIn = StopsWithin client_next HasStopped

stays : (i : Input) (w : World) → HasStopped w → client_next i w ≡ some w
unfolding client_once
stays i w e = rw e refl

pub stops : (n : ℕ) (w : World) → HasStopped w → StopsIn n w
stops = stopped-StopsWithin client_next HasStopped stays

pub within : (n m : ℕ) (w : World) → n ≤ m → StopsIn n w → StopsIn m w
within = more-StopsWithin client_next HasStopped stays

abbrev pub client_at : World → ClientPc → World
client_at w p = record w { client = p }

pub sends :
    (w : World)
    → w.rb.ready ≡ false
    → Holding w.rb []
    → IsPrepared w.client_buffer
    → StopsIn 1 (client_at w ClientPc.sending)
unfolding client_once
sends w down h p = λ i.
    let size = length-copy_out 0 p.total w.client_buffer in
    let sound = IsSound-copy_out w.client_buffer p.total p.long p.short p.message in
    let (ring, runs) =
      client_send_last sound w.client_buffer i.now w.stats h down (p.message.sized ∙ sym size)
        (ap (λ n. copy_out 0 n w.client_buffer) size) in
    (_, ap (λ x. x >>= λ r. some (after_client (client_at w ClientPc.sending) r)) runs, refl)

pub begins :
    (w : World) → w.rb.ready ≡ false → Holding w.rb [] → StopsIn 2 (client_at w ClientPc.top)
unfolding client_once client_prepare
begins w down h = λ i. (
  _,
  refl,
  elim (Bool-cases i.time_up) [
    | inl up ↦ rw up (stops 1 (client_at w ClientPc.stopped) refl)
    | inr more ↦
        let (total, low, high, message) =
          prepared-IsMessage i.random i.now i.now' w.client_buffer in
        rw more (
          sends (record w { client_buffer = client_prepare i.random i.now i.now' w.client_buffer })
            down h
            (record { total = total; long = omega (arith, low); short = high; message = message }))
  ],
)

pub receives :
    (w : World) {d : List ℕ}
    → w.rb.ready ≡ false
    → w.rb.response_available ≡ true
    → IsSound d
    → Holding w.rb (d ∷ [])
    → StopsIn 3 (client_at w ClientPc.awake)
unfolding client_once
receives w {d} down up sound h = λ i.
    let (ring, h', runs) = client_receive_message sound w.client_buffer i.now w.stats h up in
    (
      _,
      ap (λ x. x >>= λ r. some (after_client (client_at w ClientPc.awake) r)) runs,
      begins
          (record w {
            rb = record w.rb { ring = ring; response_available = false };
            client_buffer = copy_in 0 d w.client_buffer;
            stats = record_response i.now (length d) (copy_in 0 d w.client_buffer) w.stats;
          })
          down h',
    )

pub runs_to_stop :
    (n : ℕ) (inputs : List Input) (w : World)
    → n ≤ length inputs
    → StopsIn n w
    → (w' : World) × (client_alone inputs w ≡ some w') × HasStopped w'
unfolding client_alone
runs_to_stop = run_with-StopsWithin client_next HasStopped stays
