-- ===== src/LfshmBlocking/Shutdown.antt =====
-- `free_lfshm_blocking_server` of lfshm_blocking.c, while a request waits.
use ipc_benchmark.Prelude.{ℕ, ◌≡◌, refl, List, [], ◌∷◌, some, length}
use ipc_benchmark.Memory.{copy_in}
use ipc_benchmark.Message.Delivery.{IsSound}
use ipc_benchmark.Stats.{record_response}
use ipc_benchmark.Futex.{WaitPc, wait_step, futex_wake}
use ipc_benchmark.LfshmBlocking.{
  World, ClientPc, client_read, client_clear, free_lfshm_blocking_server,
}
use ipc_benchmark.LfshmBlocking.Phase.{Holding}
use ipc_benchmark.LfshmBlocking.Calls.{client_read_message, client_clear_message}

-- The client is asleep, or about to look at the flag, when the server shuts down with the request `d`
-- still in the ring: what it does next.
pub record CountsOwn (now : ℕ) (d : List ℕ) (w : World) : Type 0 where
  pub read : World
  pub cleared : World
  pub sees :
      wait_step
        (free_lfshm_blocking_server w).rb.response_available
        (free_lfshm_blocking_server w).rb.client_futex
        (futex_wake WaitPc.asleep)
      ≡ WaitPc.met
  pub reads : client_read (free_lfshm_blocking_server w) ≡ some read
  pub drained : Holding read.rb.ring []
  pub goes_on : read.client ≡ ClientPc.clearing (length d)
  pub clears : client_clear now (length d) read ≡ some cleared
  pub counts : cleared.stats ≡ record_response now (length d) (copy_in 0 d w.client_buffer) w.stats

-- If the server of lfshm_blocking.c shuts down while a request is in the ring, the client, woken, finds
-- the response flag up, reads back its own request, and counts an operation that the server never
-- served; the ring is then empty.
pub lfshm_shutdown-CountsOwn :
    (w : World) (d : List ℕ) (now : ℕ) → IsSound d → Holding w.rb.ring (d ∷ []) → CountsOwn now d w
unfolding free_lfshm_blocking_server wait_step futex_wake
lfshm_shutdown-CountsOwn w d now sound h =
    let (ring, h', runs) = client_read_message (free_lfshm_blocking_server w) d sound h in
    record {
      read = _;
      cleared = _;
      sees = refl;
      reads = runs;
      drained = h';
      goes_on = refl;
      clears =
          client_clear_message _ d sound now (record { before = w.client_buffer; lands = refl });
      counts = refl;
    }
