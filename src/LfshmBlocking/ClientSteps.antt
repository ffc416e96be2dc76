-- ===== src/LfshmBlocking/ClientSteps.antt =====
-- The accesses of run_lfshm_blocking_client in lfshm_blocking.c, and the state of the exchange.
use ipc_benchmark.Prelude.{
  ℕ, ◌≡◌, refl, sym, ◌∙◌, ap, List, some, length, arith, Bool-cases, inl, inr, if◌then◌else◌,
}
use mathlib.Core.Path.{subst}
use mathlib.Core.Bool.{false≢true}
use ipc_benchmark.Memory.{copy_out}
use ipc_benchmark.Memory.Region.{copy_out-copy_in, length-copy_out}
use ipc_benchmark.Message.Delivery.{IsSound, IsSound-copy_out, prepared-IsMessage}
use ipc_benchmark.Futex.{WaitPc, SignalPc, wait_step}
use ipc_benchmark.Futex.Channel.{wait_step-WaitOk}
use ipc_benchmark.LfshmBlocking.{
  World, ClientPc, Input, client_prepare, client_write, client_read, client_clear, client_act,
}
use ipc_benchmark.LfshmBlocking.Calls.{
  client_write_message, client_read_message, client_clear_message,
}
use ipc_benchmark.LfshmBlocking.Phase.{
  idle, posting, requested, taken, serving, replying, answered, received, client_moves,
  server_stage,
}
use ipc_benchmark.LfshmBlocking.Invariant.{PhaseOf, Inv, result_Inv, client_at}
use ipc_benchmark.LfshmBlocking.ClientSignals.{client_set_Inv, client_add_Inv, client_wake_Inv}

module _ (w : World) where
  client_waits :
      (p : WaitPc)
      → Inv (client_at w (ClientPc.waiting p))
      → Inv (client_at w (ClientPc.waiting (wait_step w.rb.response_available w.rb.client_futex p)))
  client_waits p i = record {
    phase = client_moves tt tt i.phase;
    ready = i.ready;
    server_word = i.server_word;
    client_word = i.client_word;
    messages = i.messages;
    responses =
        wait_step-WaitOk w.rb.client_futex i.client_word w.rb.response_available
          (server_stage w.server) p i.responses;
  }

  client_prepare-Inv :
      (input : Input)
      → Inv (client_at w ClientPc.top)
      → PhaseOf (client_at w ClientPc.top)
      → Inv (client_prepare input w)
  unfolding client_prepare
  client_prepare-Inv input i (idle h fm fr c s) = elim (Bool-cases input.time_up) [
    | inl up ↦ rw up (record {
      phase = idle h fm fr tt s;
      ready = i.ready;
      server_word = i.server_word;
      client_word = i.client_word;
      messages = i.messages;
      responses = i.responses;
    })
    | inr more ↦
        let (total, low, high, message) =
          prepared-IsMessage input.random input.now input.now' w.client_buffer in
        rw more (record {
          phase =
              idle h fm fr
                (record {
                  total = total;
                  long = omega (arith, low);
                  short = high;
                  message = message;
                })
                s;
          ready = i.ready;
          server_word = i.server_word;
          client_word = i.client_word;
          messages = i.messages;
          responses = i.responses;
        })
  ]
  client_prepare-Inv input i (posting d t h fm fr c s) = cc
  client_prepare-Inv input i (requested d t h fm fr c s) = absurd c
  client_prepare-Inv input i (taken d t h fm fr c s b) = absurd c
  client_prepare-Inv input i (serving d t h fm fr c s b) = absurd c
  client_prepare-Inv input i (replying d t h fm fr c s) = absurd c
  client_prepare-Inv input i (answered d t h fm fr c s) = absurd c
  client_prepare-Inv input i (received d t h fm fr c b s) = cc

  client_write-Inv :
      {w' : World}
      → Inv (client_at w ClientPc.writing)
      → PhaseOf (client_at w ClientPc.writing)
      → client_write w ≡ some w'
      → Inv w'
  client_write-Inv i (idle h fm fr p s) e =
      let size = length-copy_out 0 p.total w.client_buffer in
      let d : List ℕ = copy_out 0 p.total w.client_buffer in
      let sound : IsSound d = IsSound-copy_out w.client_buffer p.total p.long p.short p.message in
      let kept : copy_out 0 (length d) w.client_buffer ≡ d =
        ap (λ n. copy_out 0 n w.client_buffer) size in
      let (ring, h', runs) = client_write_message w d sound h (p.message.sized ∙ sym size) kept in
      result_Inv
        (record {
          phase = posting d (record { sound = sound; sent = kept }) h' fm fr refl s;
          ready = i.ready;
          server_word = i.server_word;
          client_word = i.client_word;
          messages = i.messages;
          responses = i.responses;
        })
        (sym runs ∙ e)
  client_write-Inv i (posting d t h fm fr c s) e = cc
  client_write-Inv i (requested d t h fm fr c s) e = absurd c
  client_write-Inv i (taken d t h fm fr c s b) e = absurd c
  client_write-Inv i (serving d t h fm fr c s b) e = absurd c
  client_write-Inv i (replying d t h fm fr c s) e = absurd c
  client_write-Inv i (answered d t h fm fr c s) e = absurd c
  client_write-Inv i (received d t h fm fr c b s) e = cc

  client_ready_Inv :
      Inv (client_at w ClientPc.checking_ready)
      → Inv (client_at w (if w.rb.ready then ClientPc.waiting WaitPc.check else ClientPc.stopped))
  client_ready_Inv i =
      subst (λ b. Inv (client_at w (if b then ClientPc.waiting WaitPc.check else ClientPc.stopped)))
        (sym i.ready)
        (record {
          phase = client_moves tt tt i.phase;
          ready = i.ready;
          server_word = i.server_word;
          client_word = i.client_word;
          messages = i.messages;
          responses = tt;
        })

  client_read-Inv :
      {w' : World}
      → Inv (client_at w (ClientPc.waiting WaitPc.met))
      → PhaseOf (client_at w (ClientPc.waiting WaitPc.met))
      → client_read w ≡ some w'
      → Inv w'
  client_read-Inv i (idle h fm fr c s) e = absurd c
  client_read-Inv i (posting d t h fm fr c s) e = cc
  client_read-Inv i (requested d t h fm fr c s) e = absurd (false≢true (sym fr ∙ i.responses))
  client_read-Inv i (taken d t h fm fr c s b) e = absurd (false≢true (sym fr ∙ i.responses))
  client_read-Inv i (serving d t h fm fr c s b) e = absurd (false≢true (sym fr ∙ i.responses))
  client_read-Inv i (replying d t h fm fr c s) e = absurd (false≢true (sym fr ∙ i.responses))
  client_read-Inv i (answered d t h fm fr c s) e =
      let (ring, h', runs) = client_read_message w d t.sound h in
      result_Inv
        (record {
          phase =
              received d (record { sound = t.sound; sent = copy_out-copy_in 0 d w.client_buffer })
                h' fm fr refl (record { before = w.client_buffer; lands = refl }) s;
          ready = i.ready;
          server_word = i.server_word;
          client_word = i.client_word;
          messages = i.messages;
          responses = tt;
        })
        (sym runs ∙ e)
  client_read-Inv i (received d t h fm fr c b s) e = cc

  client_clear-Inv :
      {w' : World} (now size : ℕ)
      → Inv (client_at w (ClientPc.clearing size))
      → PhaseOf (client_at w (ClientPc.clearing size))
      → client_clear now size w ≡ some w'
      → Inv w'
  client_clear-Inv now size i (idle h fm fr c s) e = absurd c
  client_clear-Inv now size i (posting d t h fm fr c s) e = cc
  client_clear-Inv now size i (requested d t h fm fr c s) e = absurd c
  client_clear-Inv now size i (taken d t h fm fr c s b) e = absurd c
  client_clear-Inv now size i (serving d t h fm fr c s b) e = absurd c
  client_clear-Inv now size i (replying d t h fm fr c s) e = absurd c
  client_clear-Inv now size i (answered d t h fm fr c s) e = absurd c
  client_clear-Inv {w' = w'} now size i (received d t h fm fr c b s) e =
      let same : size ≡ length d = cc in
      result_Inv
        (record {
          phase = idle h fm refl tt s;
          ready = i.ready;
          server_word = i.server_word;
          client_word = i.client_word;
          messages = i.messages;
          responses = tt;
        })
        (sym (client_clear_message w d t.sound now b)
          ∙ subst (λ n. client_clear now n w ≡ some w') same e)

-- Whatever access the client makes next, it keeps the invariant.
pub client_act-Inv :
    (p : ClientPc) (input : Input) (w : World) {w' : World}
    → Inv (client_at w p)
    → client_act input p w ≡ some w'
    → Inv w'
unfolding client_act
client_act-Inv ClientPc.top input w i e = result_Inv (client_prepare-Inv w input i i.phase) e
client_act-Inv ClientPc.writing input w i e = client_write-Inv w i i.phase e
client_act-Inv (ClientPc.signalling SignalPc.set_flag) input w i e =
    result_Inv (client_set_Inv w i i.phase) e
client_act-Inv (ClientPc.signalling SignalPc.add_one) input w i e =
    result_Inv (client_add_Inv w i) e
client_act-Inv (ClientPc.signalling SignalPc.wake) input w i e = result_Inv (client_wake_Inv w i) e
client_act-Inv ClientPc.checking_ready input w i e = result_Inv (client_ready_Inv w i) e
client_act-Inv (ClientPc.waiting WaitPc.met) input w i e = client_read-Inv w i i.phase e
client_act-Inv (ClientPc.waiting WaitPc.check) input w i e =
    result_Inv (client_waits w WaitPc.check i) e
client_act-Inv (ClientPc.waiting WaitPc.load_word) input w i e =
    result_Inv (client_waits w WaitPc.load_word i) e
client_act-Inv (ClientPc.waiting (WaitPc.recheck val)) input w i e =
    result_Inv (client_waits w (WaitPc.recheck val) i) e
client_act-Inv (ClientPc.waiting (WaitPc.futex_wait val)) input w i e =
    result_Inv (client_waits w (WaitPc.futex_wait val) i) e
client_act-Inv (ClientPc.waiting WaitPc.asleep) input w i e =
    result_Inv (client_waits w WaitPc.asleep i) e
client_act-Inv (ClientPc.clearing size) input w i e = client_clear-Inv w input.now size i i.phase e
client_act-Inv ClientPc.stopped input w i e = cc
