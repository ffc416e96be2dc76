-- ===== src/LfshmBlocking/ServerSteps.antt =====
-- The accesses of run_lfshm_blocking_server in lfshm_blocking.c, and the state of the exchange.
use ipc_benchmark.Prelude.{ℕ, ◌≡◌, refl, sym, ◌∙◌, ap, some, length, arith}
use mathlib.Core.Path.{subst}
use mathlib.Core.Bool.{false≢true}
use ipc_benchmark.Memory.{copy_out}
use ipc_benchmark.Memory.Region.{copy_out-copy_in}
use ipc_benchmark.Futex.{WaitPc, SignalPc, wait_step, futex_wake}
use ipc_benchmark.Futex.Channel.{
  Stage, WaitOk, wait_step-WaitOk, raise-WaitOk, bump-WaitOk, futex_wake-WaitOk,
}
use ipc_benchmark.LfshmBlocking.{
  World, ServerPc, ClientPc, server_read, server_clear, server_write, server_signal, server_act,
  woken_client,
}
use ipc_benchmark.LfshmBlocking.Calls.{
  server_read_message, server_write_message, server_clear_message,
}
use ipc_benchmark.LfshmBlocking.Phase.{
  idle, posting, requested, taken, serving, replying, answered, received, server_moves,
  client_moves, client_wait, client_stage,
}
use ipc_benchmark.LfshmBlocking.Invariant.{PhaseOf, Inv, result_Inv, server_at, client_at}

module _ (w : World) where
  server_waits :
      (p : WaitPc)
      → Inv (server_at w (ServerPc.waiting p))
      → Inv (server_at w (ServerPc.waiting (wait_step w.rb.message_available w.rb.server_futex p)))
  server_waits p i = record {
    phase = server_moves tt tt i.phase;
    ready = i.ready;
    server_word = i.server_word;
    client_word = i.client_word;
    messages =
        wait_step-WaitOk w.rb.server_futex i.server_word w.rb.message_available
          (client_stage w.client) p i.messages;
    responses = i.responses;
  }

  server_read-Inv :
      {w' : World}
      → Inv (server_at w (ServerPc.waiting WaitPc.met))
      → PhaseOf (server_at w (ServerPc.waiting WaitPc.met))
      → server_read w ≡ some w'
      → Inv w'
  server_read-Inv i (idle h fm fr c s) e = absurd (false≢true (sym fm ∙ i.messages))
  server_read-Inv i (posting d t h fm fr c s) e = absurd (false≢true (sym fm ∙ i.messages))
  server_read-Inv i (requested d t h fm fr c s) e =
      let (ring, h', runs) = server_read_message w d t.sound h in
      result_Inv
        (record {
          phase = taken d t h' fm fr c refl (record { before = w.server_buffer; lands = refl });
          ready = i.ready;
          server_word = i.server_word;
          client_word = i.client_word;
          messages = tt;
          responses = i.responses;
        })
        (sym runs ∙ e)
  server_read-Inv i (taken d t h fm fr c s b) e = cc
  server_read-Inv i (serving d t h fm fr c s b) e = cc
  server_read-Inv i (replying d t h fm fr c s) e = cc
  server_read-Inv i (answered d t h fm fr c s) e = absurd (false≢true (sym fm ∙ i.messages))
  server_read-Inv i (received d t h fm fr c b s) e = absurd (false≢true (sym fm ∙ i.messages))

  server_clear-Inv :
      {w' : World} (size : ℕ)
      → Inv (server_at w (ServerPc.clearing size))
      → PhaseOf (server_at w (ServerPc.clearing size))
      → server_clear size w ≡ some w'
      → Inv w'
  server_clear-Inv size i (idle h fm fr c s) e = absurd s
  server_clear-Inv size i (posting d t h fm fr c s) e = absurd s
  server_clear-Inv size i (requested d t h fm fr c s) e = absurd s
  server_clear-Inv {w' = w'} size i (taken d t h fm fr c s b) e =
      let same : size ≡ length d = cc in
      result_Inv
        (record {
          phase = serving d t h refl fr c refl b;
          ready = i.ready;
          server_word = i.server_word;
          client_word = i.client_word;
          messages = tt;
          responses = i.responses;
        })
        (sym (server_clear_message w d t.sound b) ∙ subst (λ n. server_clear n w ≡ some w') same e)
  server_clear-Inv size i (serving d t h fm fr c s b) e = cc
  server_clear-Inv size i (replying d t h fm fr c s) e = cc
  server_clear-Inv size i (answered d t h fm fr c s) e = absurd s
  server_clear-Inv size i (received d t h fm fr c b s) e = absurd s

  server_write-Inv :
      {w' : World} (size : ℕ)
      → Inv (server_at w (ServerPc.writing size))
      → PhaseOf (server_at w (ServerPc.writing size))
      → server_write size w ≡ some w'
      → Inv w'
  server_write-Inv size i (idle h fm fr c s) e = absurd s
  server_write-Inv size i (posting d t h fm fr c s) e = absurd s
  server_write-Inv size i (requested d t h fm fr c s) e = absurd s
  server_write-Inv size i (taken d t h fm fr c s b) e = cc
  server_write-Inv {w' = w'} size i (serving d t h fm fr c s b) e =
      let same : size ≡ length d = cc in
      let (ring, h', runs) =
        server_write_message w d t.sound h
          (ap (copy_out 0 (length d)) b.lands ∙ copy_out-copy_in 0 d b.before) in
      result_Inv
        (record {
          phase = replying d t h' fm fr c refl;
          ready = i.ready;
          server_word = i.server_word;
          client_word = i.client_word;
          messages = tt;
          responses = i.responses;
        })
        (sym runs ∙ subst (λ n. server_write n w ≡ some w') same e)
  server_write-Inv size i (replying d t h fm fr c s) e = cc
  server_write-Inv size i (answered d t h fm fr c s) e = absurd s
  server_write-Inv size i (received d t h fm fr c b s) e = absurd s

  server_set_Inv :
      Inv (server_at w (ServerPc.signalling SignalPc.set_flag))
      → PhaseOf (server_at w (ServerPc.signalling SignalPc.set_flag))
      → Inv (server_signal SignalPc.set_flag w)
  unfolding server_signal
  server_set_Inv i (idle h fm fr c s) = absurd s
  server_set_Inv i (posting d t h fm fr c s) = absurd s
  server_set_Inv i (requested d t h fm fr c s) = absurd s
  server_set_Inv i (taken d t h fm fr c s b) = cc
  server_set_Inv i (serving d t h fm fr c s b) = cc
  server_set_Inv i (replying d t h fm fr c s) = record {
    phase = answered d t h fm refl c tt;
    ready = i.ready;
    server_word = i.server_word;
    client_word = i.client_word;
    messages = i.messages;
    responses =
        raise-WaitOk w.rb.client_futex (client_wait w.client) (
          subst (λ f. WaitOk f Stage.quiet w.rb.client_futex (client_wait w.client)) fr
            i.responses);
  }
  server_set_Inv i (answered d t h fm fr c s) = absurd s
  server_set_Inv i (received d t h fm fr c b s) = absurd s

  server_add_Inv :
      Inv (server_at w (ServerPc.signalling SignalPc.add_one))
      → Inv (server_signal SignalPc.add_one w)
  unfolding server_signal
  server_add_Inv i = record {
    phase = server_moves tt tt i.phase;
    ready = i.ready;
    server_word = i.server_word;
    client_word = omega arith;
    messages = i.messages;
    responses =
        bump-WaitOk w.rb.client_futex i.client_word w.rb.response_available (client_wait w.client)
          i.responses;
  }

woken_client_wait : (c : ClientPc) → futex_wake (client_wait c) ≡ client_wait (woken_client c)
unfolding futex_wake
woken_client_wait ClientPc.top = refl
woken_client_wait ClientPc.writing = refl
woken_client_wait (ClientPc.signalling p) = refl
woken_client_wait ClientPc.checking_ready = refl
woken_client_wait (ClientPc.waiting p) = refl
woken_client_wait (ClientPc.clearing size) = refl
woken_client_wait ClientPc.stopped = refl

woken_client_stage : (c : ClientPc) → client_stage c ≡ client_stage (woken_client c)
woken_client_stage ClientPc.top = refl
woken_client_stage ClientPc.writing = refl
woken_client_stage (ClientPc.signalling p) = refl
woken_client_stage ClientPc.checking_ready = refl
woken_client_stage (ClientPc.waiting p) = refl
woken_client_stage (ClientPc.clearing size) = refl
woken_client_stage ClientPc.stopped = refl

woken_client_phase :
    (w : World) (c : ClientPc) → PhaseOf (client_at w c) → PhaseOf (client_at w (woken_client c))
woken_client_phase w ClientPc.top p = p
woken_client_phase w ClientPc.writing p = p
woken_client_phase w (ClientPc.signalling q) p = p
woken_client_phase w ClientPc.checking_ready p = p
woken_client_phase w (ClientPc.waiting q) p = client_moves tt tt p
woken_client_phase w (ClientPc.clearing size) p = p
woken_client_phase w ClientPc.stopped p = p

server_wake_Inv :
    (w : World)
    → Inv (server_at w (ServerPc.signalling SignalPc.wake))
    → Inv (server_signal SignalPc.wake w)
unfolding server_signal
server_wake_Inv w i = record {
  phase =
      woken_client_phase (server_at w (ServerPc.waiting WaitPc.check)) w.client
        (server_moves tt tt i.phase);
  ready = i.ready;
  server_word = i.server_word;
  client_word = i.client_word;
  messages = tt;
  responses =
      subst (λ p. WaitOk w.rb.response_available Stage.quiet w.rb.client_futex p)
        (woken_client_wait w.client)
        (futex_wake-WaitOk w.rb.client_futex w.rb.response_available (client_wait w.client)
          i.responses);
}

-- Whatever access the server makes next, it keeps the invariant.
pub server_act-Inv :
    (p : ServerPc) (w : World) {w' : World}
    → Inv (server_at w p)
    → server_act p w ≡ some w'
    → Inv w'
unfolding server_act
server_act-Inv (ServerPc.waiting WaitPc.met) w i e = server_read-Inv w i i.phase e
server_act-Inv (ServerPc.waiting WaitPc.check) w i e = result_Inv (server_waits w WaitPc.check i) e
server_act-Inv (ServerPc.waiting WaitPc.load_word) w i e =
    result_Inv (server_waits w WaitPc.load_word i) e
server_act-Inv (ServerPc.waiting (WaitPc.recheck val)) w i e =
    result_Inv (server_waits w (WaitPc.recheck val) i) e
server_act-Inv (ServerPc.waiting (WaitPc.futex_wait val)) w i e =
    result_Inv (server_waits w (WaitPc.futex_wait val) i) e
server_act-Inv (ServerPc.waiting WaitPc.asleep) w i e =
    result_Inv (server_waits w WaitPc.asleep i) e
server_act-Inv (ServerPc.clearing size) w i e = server_clear-Inv w size i i.phase e
server_act-Inv (ServerPc.writing size) w i e = server_write-Inv w size i i.phase e
server_act-Inv (ServerPc.signalling SignalPc.set_flag) w i e =
    result_Inv (server_set_Inv w i i.phase) e
server_act-Inv (ServerPc.signalling SignalPc.add_one) w i e = result_Inv (server_add_Inv w i) e
server_act-Inv (ServerPc.signalling SignalPc.wake) w i e = result_Inv (server_wake_Inv w i) e
