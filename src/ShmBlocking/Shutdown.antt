-- ===== src/ShmBlocking/Shutdown.antt =====
-- `free_shm_blocking_server` of shm_blocking.c, while a request waits.
use ipc_benchmark.Prelude.{ℕ, ◌≡◌, refl, ap, ◌∙◌, ◌>>=◌, List, [], ◌∷◌, some, true, false, length}
use mathlib.Core.Path.{subst}
use ipc_benchmark.Memory.{copy_in, copy_out}
use ipc_benchmark.Stats.{record_response}
use ipc_benchmark.ShmBlocking.{ServerPc, ClientPc, free_shm_blocking_server}
use ipc_benchmark.ShmBlocking.Sections.{Holding, client_receive_message}
use ipc_benchmark.ShmBlocking.System.{World, Reach, wake_client, after_client}
use ipc_benchmark.ShmBlocking.Phase.{
  Phase, idle, requested, serving, answered, ClientFree, Travels, Flags,
}
use ipc_benchmark.ShmBlocking.Invariant.{Reach-Phase}
use ipc_benchmark.ShmBlocking.Alone.{Input, client_once, shut_down}

-- The request in the ring, unserved, and what the client does after the shutdown.
pub record CountsOwn (i : Input) (w : World) : Type 0 where
  pub request : List ℕ
  pub sent : copy_out 0 (length request) w.client_buffer ≡ request
  pub in_ring : Holding w.rb (request ∷ [])
  pub posted : w.rb.message_available ≡ true
  pub unanswered : w.rb.response_available ≡ false
  pub server_gone : (shut_down w).server ≡ ServerPc.stopped
  pub woken : (shut_down w).client ≡ ClientPc.awake
  pub after : World
  pub runs : client_once i (shut_down w).client (shut_down w) ≡ some after
  pub received : after.client_buffer ≡ copy_in 0 request w.client_buffer
  pub counts : after.stats ≡ record_response i.now (length request) after.client_buffer w.stats
  pub goes_on : after.client ≡ ClientPc.top
  pub drained : Holding after.rb []

-- One ring serves both directions. In any state of an exchange over shm_blocking.c where the client sleeps
-- in its wait for the response, and the server is at the test of its end time: the client's request is still in
-- the ring, with its flag up and without a response. If the server shuts down there, the broadcast wakes
-- the client, which in its next section reads its own request back, counts an operation for it, goes on,
-- and leaves the ring empty, while the server is gone.
pub shutdown_counts_request :
    {v w : World}
    → Phase v
    → Reach v w
    → w.server ≡ ServerPc.top
    → w.client ≡ ClientPc.asleep
    → (i : Input) → CountsOwn i w
unfolding shut_down free_shm_blocking_server client_once
shutdown_counts_request {w = w} start reach at asleep i = go (Reach-Phase start reach)
  where
    counts_own :
        (d : List ℕ)
        → Travels w.client_buffer d
        → Holding w.rb (d ∷ [])
        → Flags w.rb true false
        → CountsOwn i w
    counts_own d t h f =
        let w' = shut_down w in
        let woken : w'.client ≡ ClientPc.awake = ap wake_client asleep in
        let (ring, h', runs) =
          client_receive_message {rb = w'.rb} t.sound w.client_buffer i.now w.stats
            (record { queue = h.queue; large = h.large }) refl in
        record {
          request = d;
          sent = t.sent;
          in_ring = h;
          posted = f.message_flag;
          unanswered = f.response_flag;
          server_gone = refl;
          woken = woken;
          after = record w' {
            rb = record w'.rb { ring = ring; response_available = false };
            client = ClientPc.top;
            client_buffer = copy_in 0 d w.client_buffer;
            stats = record_response i.now (length d) (copy_in 0 d w.client_buffer) w.stats;
          };
          runs =
              ap (λ p. client_once i p w') woken
              ∙ ap (λ x. x >>= λ r. some (after_client w' r)) runs;
          received = refl;
          counts = refl;
          goes_on = refl;
          drained = h';
        }

    go : Phase w → CountsOwn i w
    go (idle h f c s) = absurd (subst (λ p. ClientFree p w.client_buffer) asleep c)
    go (requested d t h f c s) = counts_own d t h f
    go (serving d t h f c s b) = absurd (cc)
    go (answered d t h f c s) = absurd (cc)
