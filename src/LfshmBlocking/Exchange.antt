-- ===== src/LfshmBlocking/Exchange.antt =====
-- The ring of lfshm_blocking.c during an exchange: who uses it, and what comes back to the client.
use ipc_benchmark.Prelude.{
  Bool-cases, inl, inr, ◌&&◌, ℕ, ◌≡◌, refl, sym, ◌∙◌, List, [], Bool, some, true, false, length,
}
use mathlib.Core.Path.{subst}
use mathlib.Core.Bool.{false≢true}
use ipc_benchmark.Memory.{copy_out}
use ipc_benchmark.Memory.Region.{copy_out-copy_in}
use ipc_benchmark.Message.Delivery.{IsSound}
use ipc_benchmark.Futex.{WaitPc}
use ipc_benchmark.Futex.Channel.{Stage, WaitOk}
use ipc_benchmark.LfshmBlocking.{World, ServerPc, ClientPc, client_read}
use ipc_benchmark.LfshmBlocking.System.{Reach}
use ipc_benchmark.LfshmBlocking.Calls.{client_read_message}
use ipc_benchmark.LfshmBlocking.Phase.{
  Holding, ServerLate, ClientLate, idle, posting, requested, taken, serving, replying, answered,
  received, client_stage, server_wait, client_wait, server_stage,
}
use ipc_benchmark.LfshmBlocking.Invariant.{PhaseOf, Inv}
use ipc_benchmark.LfshmBlocking.Interleavings.{Reach-Inv}

-- A process that is about to make, or inside of, a call on the ring.
abbrev pub server_in_ring : ServerPc → Bool
server_in_ring (ServerPc.waiting WaitPc.met) = true
server_in_ring (ServerPc.waiting p) = false
server_in_ring (ServerPc.clearing size) = false
server_in_ring (ServerPc.writing size) = true
server_in_ring (ServerPc.signalling p) = false

abbrev pub client_in_ring : ClientPc → Bool
client_in_ring ClientPc.top = false
client_in_ring ClientPc.writing = true
client_in_ring (ClientPc.signalling p) = false
client_in_ring ClientPc.checking_ready = false
client_in_ring (ClientPc.waiting WaitPc.met) = true
client_in_ring (ClientPc.waiting p) = false
client_in_ring (ClientPc.clearing size) = false
client_in_ring ClientPc.stopped = false

server_sees :
    {message : Bool} (stage : Stage) (word : ℕ) (p : ServerPc)
    → ServerLate p
    → server_in_ring p ≡ true
    → WaitOk message stage word (server_wait p)
    → message ≡ true
server_sees stage word (ServerPc.waiting WaitPc.check) l e h = absurd (false≢true e)
server_sees stage word (ServerPc.waiting WaitPc.load_word) l e h = absurd (false≢true e)
server_sees stage word (ServerPc.waiting (WaitPc.recheck val)) l e h = absurd (false≢true e)
server_sees stage word (ServerPc.waiting (WaitPc.futex_wait val)) l e h = absurd (false≢true e)
server_sees stage word (ServerPc.waiting WaitPc.asleep) l e h = absurd (false≢true e)
server_sees stage word (ServerPc.waiting WaitPc.met) l e h = h
server_sees stage word (ServerPc.clearing size) l e h = absurd l
server_sees stage word (ServerPc.writing size) l e h = absurd l
server_sees stage word (ServerPc.signalling p) l e h = absurd (false≢true e)

client_sees :
    {response : Bool} (stage : Stage) (word : ℕ) (p : ClientPc)
    → ClientLate p
    → client_in_ring p ≡ true
    → WaitOk response stage word (client_wait p)
    → response ≡ true
client_sees stage word ClientPc.top l e h = absurd l
client_sees stage word ClientPc.writing l e h = absurd l
client_sees stage word (ClientPc.signalling p) l e h = absurd (false≢true e)
client_sees stage word ClientPc.checking_ready l e h = absurd (false≢true e)
client_sees stage word (ClientPc.waiting WaitPc.check) l e h = absurd (false≢true e)
client_sees stage word (ClientPc.waiting WaitPc.load_word) l e h = absurd (false≢true e)
client_sees stage word (ClientPc.waiting (WaitPc.recheck val)) l e h = absurd (false≢true e)
client_sees stage word (ClientPc.waiting (WaitPc.futex_wait val)) l e h = absurd (false≢true e)
client_sees stage word (ClientPc.waiting WaitPc.asleep) l e h = absurd (false≢true e)
client_sees stage word (ClientPc.waiting WaitPc.met) l e h = h
client_sees stage word (ClientPc.clearing size) l e h = absurd l
client_sees stage word ClientPc.stopped l e h = absurd l

both_in_ring :
    {w : World} → Inv w → server_in_ring w.server ≡ true → client_in_ring w.client ≡ true → ⊥
both_in_ring {w = w} i server client = go i.phase
  where
    no_server : ServerLate w.server → w.rb.message_available ≡ false → ⊥
    no_server l e =
        false≢true (
          sym e
          ∙ server_sees (client_stage w.client) w.rb.server_futex w.server l server i.messages)

    no_client : ClientLate w.client → w.rb.response_available ≡ false → ⊥
    no_client l e = false≢true (
        sym e ∙ client_sees (server_stage w.server) w.rb.client_futex w.client l client i.responses)

    go : PhaseOf w → ⊥
    go (idle h fm fr c s) = no_server s fm
    go (posting d t h fm fr c s) = no_server s fm
    go (requested d t h fm fr c s) = no_client c fr
    go (taken d t h fm fr c s b) = no_client c fr
    go (serving d t h fm fr c s b) = no_client c fr
    go (replying d t h fm fr c s) = no_client c fr
    go (answered d t h fm fr c s) = no_server s fm
    go (received d t h fm fr c b s) = no_server s fm

-- In any state that the two processes reach from one of an exchange, they do not both stand in front
-- of or inside of a call on the ring, which has no lock.
pub exclusive :
    {v w : World} → Inv v → Reach v w → (server_in_ring w.server && client_in_ring w.client) ≡ false
exclusive {w = w} start reach = elim (Bool-cases (server_in_ring w.server)) [
  | inr out ↦ rw out refl
  | inl server ↦ elim (Bool-cases (client_in_ring w.client)) [
    | inr out ↦ rw (server, out) refl
    | inl client ↦ absurd (both_in_ring (Reach-Inv start reach) server client)
  ]
]

-- The client's buffer held the message `d`, and the response, which it goes on to count, is `d`.
pub record Echoed (w w' : World) : Type 0 where
  pub message : List ℕ
  pub sound : IsSound message
  pub sent : copy_out 0 (length message) w.client_buffer ≡ message
  pub received : copy_out 0 (length message) w'.client_buffer ≡ message
  pub goes_on : w'.client ≡ ClientPc.clearing (length message)
  pub drained : Holding w'.rb.ring []

echo_result : (w : World) {v v' : World} → some v ≡ some v' → Echoed w v → Echoed w v'
echo_result w {v} {v'} e h = subst (λ x. Echoed w x) same h
  where
    same : v ≡ v'
    same = cc

-- From any state of an exchange and however the accesses of the two processes interleave: where the
-- client's wait is over, its read brings back exactly the bytes that it sent, which are a valid
-- message, and leaves the ring empty.
pub response_read_is_request :
    {v w w' : World}
    → Inv v
    → Reach v w
    → w.client ≡ ClientPc.waiting WaitPc.met
    → client_read w ≡ some w'
    → Echoed w w'
response_read_is_request {w = w} {w' = w'} start reach at e = go i.phase
  where
    i : Inv w
    i = Reach-Inv start reach

    up : w.rb.response_available ≡ true
    up =
        subst
          (λ p.
            WaitOk w.rb.response_available (server_stage w.server) w.rb.client_futex
              (client_wait p))
          at i.responses

    down : w.rb.response_available ≡ false → ⊥
    down e = false≢true (sym e ∙ up)

    go : PhaseOf w → Echoed w w'
    go (idle h fm fr c s) = absurd (down fr)
    go (posting d t h fm fr c s) = absurd (down fr)
    go (requested d t h fm fr c s) = absurd (down fr)
    go (taken d t h fm fr c s b) = absurd (down fr)
    go (serving d t h fm fr c s b) = absurd (down fr)
    go (replying d t h fm fr c s) = absurd (down fr)
    go (answered d t h fm fr c s) =
        let (ring, h', runs) = client_read_message w d t.sound h in
        echo_result w (sym runs ∙ e) (record {
          message = d;
          sound = t.sound;
          sent = t.sent;
          received = copy_out-copy_in 0 d w.client_buffer;
          goes_on = refl;
          drained = h';
        })
    go (received d t h fm fr c b s) = cc
