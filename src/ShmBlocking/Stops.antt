-- ===== src/ShmBlocking/Stops.antt =====
-- The client of shm_blocking.c stops after `free_shm_blocking_server`.
use ipc_benchmark.Prelude.{ℕ, ◌≡◌, ◌≤◌, refl, sym, some, List, [], ◌∷◌, length, arith}
use mathlib.Core.Path.{subst}
use ipc_benchmark.Message.Delivery.{IsSound}
use ipc_benchmark.ShmBlocking.{ServerPc, ClientPc, free_shm_blocking_server}
use ipc_benchmark.ShmBlocking.Sections.{Holding}
use ipc_benchmark.ShmBlocking.System.{World, Reach, wake_client}
use ipc_benchmark.ShmBlocking.Phase.{
  Phase, idle, requested, serving, answered, ClientFree, ClientWaits,
}
use ipc_benchmark.ShmBlocking.Invariant.{Reach-Phase}
use ipc_benchmark.ShmBlocking.Alone.{
  Input, client_alone, client_at, shut_down, StopsIn, stops, within, sends, begins, receives,
  runs_to_stop,
}

module _ (w : World) where
  between_stops :
      Holding w.rb []
      → (p : ClientPc) → ClientFree p w.client_buffer
      → StopsIn 3 (client_at (shut_down w) (wake_client p))
  unfolding shut_down free_shm_blocking_server
  between_stops h ClientPc.top c =
      within 2 3 (client_at (shut_down w) ClientPc.top) (omega arith)
        (begins (shut_down w) refl (record { queue = h.queue; large = h.large }))
  between_stops h ClientPc.sending c =
      within 1 3 (client_at (shut_down w) ClientPc.sending) (omega arith)
        (sends (shut_down w) refl (record { queue = h.queue; large = h.large }) c)
  between_stops h ClientPc.asleep c = absurd c
  between_stops h ClientPc.awake c = absurd c
  between_stops h ClientPc.stopped c = stops 3 (client_at (shut_down w) ClientPc.stopped) refl

  waiting_stops :
      {d : List ℕ}
      → IsSound d
      → Holding w.rb (d ∷ [])
      → (p : ClientPc) → ClientWaits p
      → StopsIn 3 (client_at (shut_down w) (wake_client p))
  unfolding shut_down free_shm_blocking_server
  waiting_stops sound h ClientPc.top c = absurd c
  waiting_stops sound h ClientPc.sending c = absurd c
  waiting_stops sound h ClientPc.asleep c =
      receives (shut_down w) refl refl sound (record { queue = h.queue; large = h.large })
  waiting_stops sound h ClientPc.awake c =
      receives (shut_down w) refl refl sound (record { queue = h.queue; large = h.large })
  waiting_stops sound h ClientPc.stopped c = absurd c

  shut_down-StopsIn : Phase w → w.server ≡ ServerPc.top → StopsIn 3 (shut_down w)
  unfolding shut_down
  shut_down-StopsIn (idle h f c s) at = between_stops h w.client c
  shut_down-StopsIn (requested d t h f c s) at = waiting_stops t.sound h w.client c
  shut_down-StopsIn (serving d t h f c s b) at = absurd (cc)
  shut_down-StopsIn (answered d t h f c s) at =
      waiting_stops t.sound h w.client (subst ClientWaits (sym c) tt)

-- The time of the server of shm_blocking.c is up, in any state of an exchange where it looks at it, and
-- it shuts down. Then the client goes on by itself: the broadcast reaches it if it sleeps, and whatever
-- its inputs are (time, random numbers, clock), three sections, or more, run without a fault, and leave
-- it stopped.
pub locked_shutdown_stops_client :
    {v w : World}
    → Phase v
    → Reach v w
    → w.server ≡ ServerPc.top
    → (inputs : List Input) → 3 ≤ length inputs
    → (w' : World) × (client_alone inputs (shut_down w) ≡ some w') × (w'.client ≡ ClientPc.stopped)
locked_shutdown_stops_client {w = w} start reach at inputs enough =
    runs_to_stop 3 inputs (shut_down w) enough (shut_down-StopsIn w (Reach-Phase start reach) at)
