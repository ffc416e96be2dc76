-- ===== src/LfshmNonblocking/System.antt =====
-- The two processes of lfshm_nonblocking.c, interleaved access by access.
use ipc_benchmark.Prelude.{◌≡◌, some, true}
use ipc_benchmark.Futex.{WaitPc}
use ipc_benchmark.LfshmBlocking.{ServerPc}
use ipc_benchmark.LfshmNonblocking.{World, ClientPc, UringPc, Input, server_act, client_act}

pub data Step (v w : World) : Type 0 where
  server_step : server_act v.server v ≡ some w → Step v w
  client_step : (i : Input) → client_act i v.client v ≡ some w → Step v w
  -- FUTEX_WAIT may return for no reason, and a request of io_uring may complete for none.
  server_wakes :
      v.server ≡ ServerPc.waiting WaitPc.asleep
      → record v { server = ServerPc.waiting WaitPc.check } ≡ w
      → Step v w
  client_wakes :
      v.client ≡ ClientPc.waiting UringPc.in_flight
      → record v { client = ClientPc.waiting UringPc.check } ≡ w
      → Step v w

-- liburing reports no error in the step.
abbrev pub ErrorFree : {v w : World} → Step v w → Type 0
ErrorFree (server_step e) = Unit
ErrorFree (client_step i e) = i.uring_ok ≡ true
ErrorFree (server_wakes at e) = Unit
ErrorFree (client_wakes at e) = Unit

-- Runs in which liburing reports no error.
pub data Reach (start : World) : World → Type 0 where
  here : Reach start start
  next : {v w : World} → Reach start v → (st : Step v w) → ErrorFree st → Reach start w
