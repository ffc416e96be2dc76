-- ===== src/LfshmBlocking/ClientSignals.antt =====
-- The signalling of run_lfshm_blocking_client in lfshm_blocking.c, and the state of the exchange.
use ipc_benchmark.Prelude.{◌≡◌, refl, arith}
use mathlib.Core.Path.{subst}
use ipc_benchmark.Futex.{WaitPc, SignalPc, futex_wake}
use ipc_benchmark.Futex.Channel.{Stage, WaitOk, raise-WaitOk, bump-WaitOk, futex_wake-WaitOk}
use ipc_benchmark.LfshmBlocking.{World, ServerPc, ClientPc, client_signal, woken_server}
use ipc_benchmark.LfshmBlocking.Phase.{
  idle, posting, requested, taken, serving, replying, answered, received, server_moves,
  client_moves, server_wait, server_stage,
}
use ipc_benchmark.LfshmBlocking.Invariant.{PhaseOf, Inv, server_at, client_at}

module _ (w : World) where
  pub client_set_Inv :
      Inv (client_at w (ClientPc.signalling SignalPc.set_flag))
      → PhaseOf (client_at w (ClientPc.signalling SignalPc.set_flag))
      → Inv (client_signal SignalPc.set_flag w)
  unfolding client_signal
  client_set_Inv i (idle h fm fr c s) = absurd c
  client_set_Inv i (posting d t h fm fr c s) = record {
    phase = requested d t h refl fr tt s;
    ready = i.ready;
    server_word = i.server_word;
    client_word = i.client_word;
    messages =
        raise-WaitOk w.rb.server_futex (server_wait w.server) (
          subst (λ f. WaitOk f Stage.quiet w.rb.server_futex (server_wait w.server)) fm i.messages);
    responses = i.responses;
  }
  client_set_Inv i (requested d t h fm fr c s) = absurd c
  client_set_Inv i (taken d t h fm fr c s b) = absurd c
  client_set_Inv i (serving d t h fm fr c s b) = absurd c
  client_set_Inv i (replying d t h fm fr c s) = absurd c
  client_set_Inv i (answered d t h fm fr c s) = absurd c
  client_set_Inv i (received d t h fm fr c b s) = cc

  pub client_add_Inv :
      Inv (client_at w (ClientPc.signalling SignalPc.add_one))
      → Inv (client_signal SignalPc.add_one w)
  unfolding client_signal
  client_add_Inv i = record {
    phase = client_moves tt tt i.phase;
    ready = i.ready;
    server_word = omega arith;
    client_word = i.client_word;
    messages =
        bump-WaitOk w.rb.server_futex i.server_word w.rb.message_available (server_wait w.server)
          i.messages;
    responses = i.responses;
  }

woken_server_wait : (s : ServerPc) → futex_wake (server_wait s) ≡ server_wait (woken_server s)
unfolding futex_wake
woken_server_wait (ServerPc.waiting p) = refl
woken_server_wait (ServerPc.clearing size) = refl
woken_server_wait (ServerPc.writing size) = refl
woken_server_wait (ServerPc.signalling p) = refl

woken_server_stage : (s : ServerPc) → server_stage s ≡ server_stage (woken_server s)
woken_server_stage (ServerPc.waiting p) = refl
woken_server_stage (ServerPc.clearing size) = refl
woken_server_stage (ServerPc.writing size) = refl
woken_server_stage (ServerPc.signalling p) = refl

woken_server_phase :
    (w : World) (s : ServerPc) → PhaseOf (server_at w s) → PhaseOf (server_at w (woken_server s))
woken_server_phase w (ServerPc.waiting q) p = server_moves tt tt p
woken_server_phase w (ServerPc.clearing size) p = p
woken_server_phase w (ServerPc.writing size) p = p
woken_server_phase w (ServerPc.signalling q) p = p

pub client_wake_Inv :
    (w : World)
    → Inv (client_at w (ClientPc.signalling SignalPc.wake))
    → Inv (client_signal SignalPc.wake w)
unfolding client_signal
client_wake_Inv w i = record {
  phase =
      woken_server_phase (client_at w ClientPc.checking_ready) w.server
        (client_moves tt tt i.phase);
  ready = i.ready;
  server_word = i.server_word;
  client_word = i.client_word;
  messages =
      subst (λ p. WaitOk w.rb.message_available Stage.quiet w.rb.server_futex p)
        (woken_server_wait w.server)
        (futex_wake-WaitOk w.rb.server_futex w.rb.message_available (server_wait w.server)
          i.messages);
  responses =
      subst (λ t. WaitOk w.rb.response_available t w.rb.client_futex WaitPc.check)
        (woken_server_stage w.server) tt;
}
