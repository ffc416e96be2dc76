-- ===== src/LfshmNonblocking/Exchange.antt =====
-- An exchange over lfshm_nonblocking.c in which liburing reports no error, by way of
-- lfshm_blocking.c.
use ipc_benchmark.Prelude.{
  ◌≡◌, ◌≢◌, refl, sym, ap, ◌∙◌, Bool, true, false, ◌&&◌, Option, none, some,
}
use mathlib.Core.Option.{map}
use ipc_benchmark.Futex.{WaitPc}
use ipc_benchmark.LfshmBlocking as B
use ipc_benchmark.LfshmBlocking.{ServerPc}
use ipc_benchmark.LfshmBlocking.Invariant.{Inv}
use ipc_benchmark.LfshmBlocking.Exchange.{
  Echoed, server_in_ring, client_in_ring, exclusive, response_read_is_request,
}
use ipc_benchmark.LfshmBlocking.Progress as P
use ipc_benchmark.LfshmBlocking.Progress.{someone-Runs}
use ipc_benchmark.LfshmNonblocking.{
  World, ClientPc, UringPc, Input, client_read, server_act, client_act,
}
use ipc_benchmark.LfshmNonblocking.System.{Reach}
use ipc_benchmark.LfshmNonblocking.Simulation.{
  blocking, client_of, input_of, server_act_sim, client_act_sim, client_read_sim, Reach-blocking,
}

-- In a run without errors of liburing from a state of an exchange: where the client's wait is over,
-- its read brings back exactly the bytes that it sent, which are a valid message, and leaves the ring
-- empty.
pub nonblocking_response_is_request :
    {v w w' : World} {met : Bool}
    → Inv (blocking v)
    → Reach v w
    → w.client ≡ ClientPc.waiting (UringPc.returned met)
    → client_read w ≡ some w'
    → Echoed (blocking w) (blocking w')
nonblocking_response_is_request {w = w} start reach at e =
    response_read_is_request start (Reach-blocking reach) (ap client_of at)
      (sym (client_read_sim w) ∙ ap (map blocking) e)

-- Who can go on, awake.
pub data Runs (input : Input) (w : World) : Type 0 where
  server_runs :
      (w' : World)
      → w.server ≢ ServerPc.waiting WaitPc.asleep
      → server_act w.server w ≡ some w'
      → Runs input w
  client_runs :
      (w' : World)
      → w.client ≢ ClientPc.waiting UringPc.in_flight
      → client_act input w.client w ≡ some w'
      → Runs input w

result_back :
    (o : Option World) {b : B.World} → map blocking o ≡ some b → (w : World) × (o ≡ some w)
result_back none e = cc
result_back (some w) e = (w, refl)

stopped_back : (p : ClientPc) → client_of p ≡ B.ClientPc.stopped → p ≡ ClientPc.stopped
stopped_back ClientPc.top e = cc
stopped_back ClientPc.writing e = cc
stopped_back (ClientPc.signalling p) e = cc
stopped_back ClientPc.checking_ready e = cc
stopped_back (ClientPc.waiting p) e = cc
stopped_back (ClientPc.clearing size) e = cc
stopped_back ClientPc.stopped e = refl

-- No deadlock and no fault: in a run without errors of liburing from a state of an exchange, while
-- the client has not stopped, one of the two processes is awake and its next access succeeds.
pub nonblocking_someone-Runs :
    {v w : World}
    → Inv (blocking v)
    → Reach v w
    → w.client ≢ ClientPc.stopped
    → (input : Input) → input.uring_ok ≡ true
    → Runs input w
nonblocking_someone-Runs {w = w} start reach running input ok =
    elim (someone-Runs start (Reach-blocking reach) (λ e. running (stopped_back w.client e))
      (input_of input)) [
        | P.server_runs b awake e ↦
            let (w', e') = result_back (server_act w.server w) (server_act_sim w.server w ∙ e) in
            server_runs w' awake e'
        | P.client_runs b awake e ↦
            let (w', e') =
              result_back (client_act input w.client w) (client_act_sim input ok w w.client ∙ e) in
            client_runs w' (λ at. awake (ap client_of at)) e'
      ]

-- In such a run the two processes do not both stand in front of or inside of a call on the ring.
pub nonblocking_exclusive :
    {v w : World}
    → Inv (blocking v)
    → Reach v w
    → (server_in_ring w.server && client_in_ring (client_of w.client)) ≡ false
nonblocking_exclusive start reach = exclusive start (Reach-blocking reach)
