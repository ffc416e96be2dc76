-- ===== src/LfshmBlocking/Total.antt =====
-- Whether the next access of a process of lfshm_blocking.c has a result, in a state of an exchange.
use ipc_benchmark.Prelude.{ℕ, ◌≡◌, ◌≢◌, refl, sym, ◌∙◌, ap, List, some, length}
use mathlib.Core.Bool.{false≢true}
use ipc_benchmark.Memory.{copy_out}
use ipc_benchmark.Memory.Region.{copy_out-copy_in, length-copy_out}
use ipc_benchmark.Message.Delivery.{IsSound, IsSound-copy_out}
use ipc_benchmark.Futex.{WaitPc}
use ipc_benchmark.LfshmBlocking.{
  World, ServerPc, ClientPc, Input, server_act, client_act, server_read, server_clear, server_write,
  client_write, client_read, client_clear,
}
use ipc_benchmark.LfshmBlocking.Calls.{
  server_read_message, server_write_message, client_write_message, client_read_message,
  server_clear_message, client_clear_message,
}
use ipc_benchmark.LfshmBlocking.Phase.{
  idle, posting, requested, taken, serving, replying, answered, received,
}
use ipc_benchmark.LfshmBlocking.Invariant.{PhaseOf, Inv, server_at, client_at}

module _ (w : World) where
  server_reads :
      Inv (server_at w (ServerPc.waiting WaitPc.met))
      → PhaseOf (server_at w (ServerPc.waiting WaitPc.met))
      → (w' : World) × (server_read w ≡ some w')
  server_reads i (idle h fm fr c s) = absurd (false≢true (sym fm ∙ i.messages))
  server_reads i (posting d t h fm fr c s) = absurd (false≢true (sym fm ∙ i.messages))
  server_reads i (requested d t h fm fr c s) =
      let (ring, h', runs) = server_read_message w d t.sound h in (_, runs)
  server_reads i (taken d t h fm fr c s b) = cc
  server_reads i (serving d t h fm fr c s b) = cc
  server_reads i (replying d t h fm fr c s) = cc
  server_reads i (answered d t h fm fr c s) = absurd (false≢true (sym fm ∙ i.messages))
  server_reads i (received d t h fm fr c b s) = absurd (false≢true (sym fm ∙ i.messages))

  server_clears :
      (size : ℕ)
      → PhaseOf (server_at w (ServerPc.clearing size))
      → (w' : World) × (server_clear size w ≡ some w')
  server_clears size (idle h fm fr c s) = absurd s
  server_clears size (posting d t h fm fr c s) = absurd s
  server_clears size (requested d t h fm fr c s) = absurd s
  server_clears size (taken d t h fm fr c s b) =
      let same : size ≡ length d = cc in rw same (_, server_clear_message w d t.sound b)
  server_clears size (serving d t h fm fr c s b) = cc
  server_clears size (replying d t h fm fr c s) = cc
  server_clears size (answered d t h fm fr c s) = absurd s
  server_clears size (received d t h fm fr c b s) = absurd s

  server_writes :
      (size : ℕ)
      → PhaseOf (server_at w (ServerPc.writing size))
      → (w' : World) × (server_write size w ≡ some w')
  server_writes size (idle h fm fr c s) = absurd s
  server_writes size (posting d t h fm fr c s) = absurd s
  server_writes size (requested d t h fm fr c s) = absurd s
  server_writes size (taken d t h fm fr c s b) = cc
  server_writes size (serving d t h fm fr c s b) =
      let same : size ≡ length d = cc in
      let (ring, h', runs) =
        server_write_message w d t.sound h
          (ap (copy_out 0 (length d)) b.lands ∙ copy_out-copy_in 0 d b.before) in
      rw same (_, runs)
  server_writes size (replying d t h fm fr c s) = cc
  server_writes size (answered d t h fm fr c s) = absurd s
  server_writes size (received d t h fm fr c b s) = absurd s

  pub server_acts : (p : ServerPc) → Inv (server_at w p) → (w' : World) × (server_act p w ≡ some w')
  unfolding server_act
  server_acts (ServerPc.waiting WaitPc.check) i = (_, refl)
  server_acts (ServerPc.waiting WaitPc.load_word) i = (_, refl)
  server_acts (ServerPc.waiting (WaitPc.recheck val)) i = (_, refl)
  server_acts (ServerPc.waiting (WaitPc.futex_wait val)) i = (_, refl)
  server_acts (ServerPc.waiting WaitPc.asleep) i = (_, refl)
  server_acts (ServerPc.waiting WaitPc.met) i = server_reads i i.phase
  server_acts (ServerPc.clearing size) i = server_clears size i.phase
  server_acts (ServerPc.writing size) i = server_writes size i.phase
  server_acts (ServerPc.signalling p) i = (_, refl)

  client_writes : PhaseOf (client_at w ClientPc.writing) → (w' : World) × (client_write w ≡ some w')
  client_writes (idle h fm fr p s) =
      let size = length-copy_out 0 p.total w.client_buffer in
      let d : List ℕ = copy_out 0 p.total w.client_buffer in
      let sound : IsSound d = IsSound-copy_out w.client_buffer p.total p.long p.short p.message in
      let kept : copy_out 0 (length d) w.client_buffer ≡ d =
        ap (λ n. copy_out 0 n w.client_buffer) size in
      let (ring, h', runs) = client_write_message w d sound h (p.message.sized ∙ sym size) kept in
      (_, runs)
  client_writes (posting d t h fm fr c s) = cc
  client_writes (requested d t h fm fr c s) = absurd c
  client_writes (taken d t h fm fr c s b) = absurd c
  client_writes (serving d t h fm fr c s b) = absurd c
  client_writes (replying d t h fm fr c s) = absurd c
  client_writes (answered d t h fm fr c s) = absurd c
  client_writes (received d t h fm fr c b s) = cc

  client_reads :
      Inv (client_at w (ClientPc.waiting WaitPc.met))
      → PhaseOf (client_at w (ClientPc.waiting WaitPc.met))
      → (w' : World) × (client_read w ≡ some w')
  client_reads i (idle h fm fr c s) = absurd c
  client_reads i (posting d t h fm fr c s) = cc
  client_reads i (requested d t h fm fr c s) = absurd (false≢true (sym fr ∙ i.responses))
  client_reads i (taken d t h fm fr c s b) = absurd (false≢true (sym fr ∙ i.responses))
  client_reads i (serving d t h fm fr c s b) = absurd (false≢true (sym fr ∙ i.responses))
  client_reads i (replying d t h fm fr c s) = absurd (false≢true (sym fr ∙ i.responses))
  client_reads i (answered d t h fm fr c s) =
      let (ring, h', runs) = client_read_message w d t.sound h in (_, runs)
  client_reads i (received d t h fm fr c b s) = cc

  client_clears :
      (now size : ℕ)
      → PhaseOf (client_at w (ClientPc.clearing size))
      → (w' : World) × (client_clear now size w ≡ some w')
  client_clears now size (idle h fm fr c s) = absurd c
  client_clears now size (posting d t h fm fr c s) = cc
  client_clears now size (requested d t h fm fr c s) = absurd c
  client_clears now size (taken d t h fm fr c s b) = absurd c
  client_clears now size (serving d t h fm fr c s b) = absurd c
  client_clears now size (replying d t h fm fr c s) = absurd c
  client_clears now size (answered d t h fm fr c s) = absurd c
  client_clears now size (received d t h fm fr c b s) =
      let same : size ≡ length d = cc in rw same (_, client_clear_message w d t.sound now b)

  pub client_acts :
      (input : Input) (p : ClientPc)
      → p ≢ ClientPc.stopped
      → Inv (client_at w p)
      → (w' : World) × (client_act input p w ≡ some w')
  unfolding client_act
  client_acts input ClientPc.top runs i = (_, refl)
  client_acts input ClientPc.writing runs i = client_writes i.phase
  client_acts input (ClientPc.signalling p) runs i = (_, refl)
  client_acts input ClientPc.checking_ready runs i = (_, refl)
  client_acts input (ClientPc.waiting WaitPc.check) runs i = (_, refl)
  client_acts input (ClientPc.waiting WaitPc.load_word) runs i = (_, refl)
  client_acts input (ClientPc.waiting (WaitPc.recheck val)) runs i = (_, refl)
  client_acts input (ClientPc.waiting (WaitPc.futex_wait val)) runs i = (_, refl)
  client_acts input (ClientPc.waiting WaitPc.asleep) runs i = (_, refl)
  client_acts input (ClientPc.waiting WaitPc.met) runs i = client_reads i i.phase
  client_acts input (ClientPc.clearing size) runs i = client_clears input.now size i.phase
  client_acts input ClientPc.stopped runs i = absurd (runs refl)
