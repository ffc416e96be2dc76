-- ===== src/LfshmBlocking/Progress.antt =====
-- Sleeping and going on in lfshm_blocking.c.
use ipc_benchmark.Prelude.{ℕ, ◌≡◌, ◌≢◌, refl, some, true, ◌⊎◌, inl, inr}
use mathlib.Core.Path.{subst}
use ipc_benchmark.Futex.{WaitPc}
use ipc_benchmark.Futex.Channel.{Stage, WaitOk}
use ipc_benchmark.LfshmBlocking.{World, ServerPc, ClientPc, Input, server_act, client_act}
use ipc_benchmark.LfshmBlocking.System.{Reach}
use ipc_benchmark.LfshmBlocking.Phase.{
  ClientBetween, idle, posting, requested, taken, serving, replying, answered, received,
  server_stage, client_stage, server_wait, client_wait,
}
use ipc_benchmark.LfshmBlocking.Invariant.{PhaseOf, Inv}
use ipc_benchmark.LfshmBlocking.Total.{server_acts, client_acts}
use ipc_benchmark.LfshmBlocking.Interleavings.{Reach-Inv}

-- The signaller has raised the flag, but has not come to the wake yet.
abbrev pub Owes : Stage → Type 0
Owes Stage.pending = Unit
Owes Stage.bumped = Unit
Owes Stage.quiet = ⊥

asleep_Owes : (stage : Stage) (word : ℕ) → WaitOk true stage word WaitPc.asleep → Owes stage
asleep_Owes Stage.pending word h = h
asleep_Owes Stage.bumped word h = h
asleep_Owes Stage.quiet word h = h

message_Owes :
    {w : World}
    → Inv w
    → w.server ≡ ServerPc.waiting WaitPc.asleep
    → w.rb.message_available ≡ true
    → Owes (client_stage w.client)
message_Owes {w} i at up = asleep_Owes (client_stage w.client) w.rb.server_futex (
    subst (λ b. WaitOk b (client_stage w.client) w.rb.server_futex WaitPc.asleep) up
      (subst
        (λ p.
          WaitOk w.rb.message_available (client_stage w.client) w.rb.server_futex (server_wait p))
        at i.messages))

response_Owes :
    {w : World}
    → Inv w
    → w.client ≡ ClientPc.waiting WaitPc.asleep
    → w.rb.response_available ≡ true
    → Owes (server_stage w.server)
response_Owes {w} i at up = asleep_Owes (server_stage w.server) w.rb.client_futex (
    subst (λ b. WaitOk b (server_stage w.server) w.rb.client_futex WaitPc.asleep) up
      (subst
        (λ p.
          WaitOk w.rb.response_available (server_stage w.server) w.rb.client_futex (client_wait p))
        at i.responses))

-- No request is lost: in any state that the two processes reach from one of an exchange, where the
-- server sleeps although the message flag is up, the client is in its signalling and has still the
-- wake to do.
no_lost_request :
    {v w : World}
    → Inv v
    → Reach v w
    → w.server ≡ ServerPc.waiting WaitPc.asleep
    → w.rb.message_available ≡ true
    → Owes (client_stage w.client)
no_lost_request start reach at up = message_Owes (Reach-Inv start reach) at up

-- No response is lost: where the client sleeps although the response flag is up, the server is in
-- its signalling and has still the wake to do.
no_lost_response :
    {v w : World}
    → Inv v
    → Reach v w
    → w.client ≡ ClientPc.waiting WaitPc.asleep
    → w.rb.response_available ≡ true
    → Owes (server_stage w.server)
no_lost_response start reach at up = response_Owes (Reach-Inv start reach) at up

both_asleep :
    {w : World}
    → Inv w
    → w.server ≡ ServerPc.waiting WaitPc.asleep
    → w.client ≡ ClientPc.waiting WaitPc.asleep
    → ⊥
both_asleep {w} i server client = go i.phase
  where
    go : PhaseOf w → ⊥
    go (idle h fm fr c s) = subst (λ p. ClientBetween p w.client_buffer) client c
    go (posting d t h fm fr c s) = cc
    go (requested d t h fm fr c s) =
        subst (λ p. Owes (client_stage p)) client (message_Owes i server fm)
    go (taken d t h fm fr c s b) = cc
    go (serving d t h fm fr c s b) = cc
    go (replying d t h fm fr c s) = cc
    go (answered d t h fm fr c s) =
        subst (λ p. Owes (server_stage p)) server (response_Owes i client fr)
    go (received d t h fm fr c b s) = cc

-- Who can go on, awake.
pub data Runs (input : Input) (w : World) : Type 0 where
  server_runs :
      (w' : World)
      → w.server ≢ ServerPc.waiting WaitPc.asleep
      → server_act w.server w ≡ some w'
      → Runs input w
  client_runs :
      (w' : World)
      → w.client ≢ ClientPc.waiting WaitPc.asleep
      → client_act input w.client w ≡ some w'
      → Runs input w

server_sleeps :
    (p : ServerPc) → (p ≡ ServerPc.waiting WaitPc.asleep) ⊎ (p ≢ ServerPc.waiting WaitPc.asleep)
server_sleeps (ServerPc.waiting WaitPc.check) = inr cc
server_sleeps (ServerPc.waiting WaitPc.load_word) = inr cc
server_sleeps (ServerPc.waiting (WaitPc.recheck val)) = inr cc
server_sleeps (ServerPc.waiting (WaitPc.futex_wait val)) = inr cc
server_sleeps (ServerPc.waiting WaitPc.asleep) = inl refl
server_sleeps (ServerPc.waiting WaitPc.met) = inr cc
server_sleeps (ServerPc.clearing size) = inr cc
server_sleeps (ServerPc.writing size) = inr cc
server_sleeps (ServerPc.signalling p) = inr cc

-- No deadlock and no fault: in any state that the two processes reach from one of an exchange, while
-- the client has not stopped, one of the two is awake and its next access succeeds.
pub someone-Runs :
    {v w : World} → Inv v → Reach v w → w.client ≢ ClientPc.stopped → (input : Input) → Runs input w
someone-Runs {w = w} start reach running input = elim (server_sleeps w.server) [
  | inl asleep ↦
      let (w', e) = client_acts w input w.client running i in
      client_runs w' (both_asleep i asleep) e
  | inr awake ↦ let (w', e) = server_acts w w.server i in server_runs w' awake e
]
  where
    i : Inv w
    i = Reach-Inv start reach
