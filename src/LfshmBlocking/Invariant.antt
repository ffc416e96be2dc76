-- ===== src/LfshmBlocking/Invariant.antt =====
-- The state of an exchange of lfshm_blocking.c: its phase, and both directions of signalling.
use ipc_benchmark.Prelude.{◌^◌, ◌<◌, ◌≡◌, some, true}
use mathlib.Core.Path.{subst}
use ipc_benchmark.Futex.Channel.{WaitOk}
use ipc_benchmark.LfshmBlocking.{World, ServerPc, ClientPc}
use ipc_benchmark.LfshmBlocking.Phase.{Phase, server_wait, client_wait, server_stage, client_stage}

abbrev pub PhaseOf : World → Type 0
PhaseOf w =
    Phase w.rb.ring w.rb.message_available w.rb.response_available w.server w.server_buffer w.client
      w.client_buffer

pub record Inv (w : World) : Type 0 where
  pub phase : PhaseOf w
  pub ready : w.rb.ready ≡ true
  pub server_word : w.rb.server_futex < 2 ^ 32
  pub client_word : w.rb.client_futex < 2 ^ 32
  pub messages :
      WaitOk w.rb.message_available (client_stage w.client) w.rb.server_futex (server_wait w.server)
  pub responses :
      WaitOk w.rb.response_available
        (server_stage w.server)
        w.rb.client_futex
        (client_wait w.client)

pub result_Inv : {v w : World} → Inv v → some v ≡ some w → Inv w
result_Inv {v} {w} i e = subst Inv same i
  where
    same : v ≡ w
    same = cc

abbrev pub server_at : World → ServerPc → World
server_at w p = record w { server = p }

abbrev pub client_at : World → ClientPc → World
client_at w p = record w { client = p }
