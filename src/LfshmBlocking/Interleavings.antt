-- ===== src/LfshmBlocking/Interleavings.antt =====
-- The interleavings of the two processes of lfshm_blocking.c, and the state of the exchange along them.
use ipc_benchmark.Prelude.{◌≡◌}
use mathlib.Core.Path.{subst}
use ipc_benchmark.Futex.{WaitPc}
use ipc_benchmark.LfshmBlocking.{World, ServerPc, ClientPc}
use ipc_benchmark.LfshmBlocking.System.{
  Step, server_step, client_step, server_wakes, client_wakes, Reach, here, next,
}
use ipc_benchmark.LfshmBlocking.Phase.{server_moves, client_moves}
use ipc_benchmark.LfshmBlocking.Invariant.{Inv, server_at, client_at}
use ipc_benchmark.LfshmBlocking.ServerSteps.{server_act-Inv}
use ipc_benchmark.LfshmBlocking.ClientSteps.{client_act-Inv}

server_here : (w : World) {p : ServerPc} → w.server ≡ p → Inv w → Inv (server_at w p)
server_here w e i = subst (λ p. Inv (server_at w p)) e i

client_here : (w : World) {p : ClientPc} → w.client ≡ p → Inv w → Inv (client_at w p)
client_here w e i = subst (λ p. Inv (client_at w p)) e i

wake_server_Inv :
    (v : World)
    → Inv (server_at v (ServerPc.waiting WaitPc.asleep))
    → Inv (server_at v (ServerPc.waiting WaitPc.check))
wake_server_Inv v i = record {
  phase = server_moves tt tt i.phase;
  ready = i.ready;
  server_word = i.server_word;
  client_word = i.client_word;
  messages = tt;
  responses = i.responses;
}

wake_client_Inv :
    (v : World)
    → Inv (client_at v (ClientPc.waiting WaitPc.asleep))
    → Inv (client_at v (ClientPc.waiting WaitPc.check))
wake_client_Inv v i = record {
  phase = client_moves tt tt i.phase;
  ready = i.ready;
  server_word = i.server_word;
  client_word = i.client_word;
  messages = i.messages;
  responses = tt;
}

-- Every step of the two processes keeps the invariant: the message is where the phase says, and a
-- waiter that is about to sleep holds a value of the futex word that is right for what the signaller
-- still has to do.
pub Step-Inv : {v w : World} → Step v w → Inv v → Inv w
Step-Inv {v} {w} (server_step e) i = server_act-Inv v.server v i e
Step-Inv {v} {w} (client_step input e) i = client_act-Inv v.client input v i e
Step-Inv {v} {w} (server_wakes at e) i = subst Inv e (wake_server_Inv v (server_here v at i))
Step-Inv {v} {w} (client_wakes at e) i = subst Inv e (wake_client_Inv v (client_here v at i))

pub Reach-Inv : {v w : World} → Inv v → Reach v w → Inv w
Reach-Inv i here = i
Reach-Inv i (next r st) = Step-Inv st (Reach-Inv i r)
