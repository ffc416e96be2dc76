-- ===== src/LfshmBlocking/System.antt =====
-- The two processes of lfshm_blocking.c, interleaved access by access.
use ipc_benchmark.Prelude.{◌≡◌, some}
use ipc_benchmark.Futex.{WaitPc}
use ipc_benchmark.LfshmBlocking.{World, ServerPc, ClientPc, Input, server_act, client_act}

pub data Step (v w : World) : Type 0 where
  server_step : server_act v.server v ≡ some w → Step v w
  client_step : (i : Input) → client_act i v.client v ≡ some w → Step v w
  -- FUTEX_WAIT may return for no reason.
  server_wakes :
      v.server ≡ ServerPc.waiting WaitPc.asleep
      → record v { server = ServerPc.waiting WaitPc.check } ≡ w
      → Step v w
  client_wakes :
      v.client ≡ ClientPc.waiting WaitPc.asleep
      → record v { client = ClientPc.waiting WaitPc.check } ≡ w
      → Step v w

pub data Reach (start : World) : World → Type 0 where
  here : Reach start start
  next : {v w : World} → Reach start v → Step v w → Reach start w
