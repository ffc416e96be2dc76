-- ===== src/ShmBlocking/Abandoned.antt =====
-- The server of shm_blocking.c after the client has stopped.
use ipc_benchmark.Prelude.{◌≡◌, refl, sym, ◌∙◌, ap, false}
use mathlib.Core.Path.{subst}
use ipc_benchmark.ShmBlocking.{ServerPc, ClientPc}
use ipc_benchmark.ShmBlocking.Sections.{server_take_nothing}
use ipc_benchmark.ShmBlocking.System.{
  World, Step, take, reply, server_wakes, prepare, finish, send, receive, client_wakes, Reach, here,
  next, after_server,
}
use ipc_benchmark.ShmBlocking.Phase.{Phase, idle, requested, serving, answered, ClientWaits}
use ipc_benchmark.ShmBlocking.Invariant.{some_same, Reach-Phase}

-- Inside of the wait for a message.
abbrev pub InWait : ServerPc → Type 0
InWait ServerPc.top = ⊥
InWait ServerPc.asleep = Unit
InWait ServerPc.awake = Unit
InWait (ServerPc.serving size) = ⊥
InWait ServerPc.stopped = ⊥

-- Nothing has happened since `v`, and the server is still inside of its wait.
pub record Abandoned (v w : World) : Type 0 where
  pub in_wait : InWait w.server
  pub gone : w.client ≡ ClientPc.stopped
  pub same : w.rb ≡ v.rb

module _ (v : World) (empty : v.rb.message_available ≡ false) where
  step-Abandoned : {u w : World} → Step u w → Abandoned v u → Abandoned v w
  step-Abandoned {u} (take {r = r} at e) a =
      let none_there : u.rb.message_available ≡ false =
        ap (λ b. b.message_available) a.same ∙ empty in
      subst (λ x. Abandoned v (after_server u x))
        (some_same (sym (server_take_nothing u.rb u.server_buffer none_there) ∙ e))
        (record { in_wait = tt; gone = a.gone; same = a.same })
  step-Abandoned (reply size at e) a = absurd (subst InWait at a.in_wait)
  step-Abandoned (server_wakes at) a = record { in_wait = tt; gone = a.gone; same = a.same }
  step-Abandoned {u} (prepare random now now' at) a =
      let gone : u.client ≡ ClientPc.stopped = a.gone in cc
  step-Abandoned {u} (finish at) a = let gone : u.client ≡ ClientPc.stopped = a.gone in cc
  step-Abandoned {u} (send now at e) a = let gone : u.client ≡ ClientPc.stopped = a.gone in cc
  step-Abandoned {u} (receive now at e) a = let gone : u.client ≡ ClientPc.stopped = a.gone in cc
  step-Abandoned {u} (client_wakes at) a = let gone : u.client ≡ ClientPc.stopped = a.gone in cc

  reach-Abandoned : {w : World} → Abandoned v v → Reach v w → Abandoned v w
  reach-Abandoned a here = a
  reach-Abandoned a (next r st) = step-Abandoned st (reach-Abandoned a r)

-- The server of shm_blocking.c looks at its end time only between two rounds, and its wait has no
-- timeout. In any state of an exchange where the client has stopped and the server is inside of its
-- wait for a message, whatever the two still do, woken for no reason or not: the server never leaves
-- that wait, and the shared fields stay as they are.
pub server_waits_for_ever :
    {start v w : World}
    → Phase start
    → Reach start v
    → v.client ≡ ClientPc.stopped
    → InWait v.server
    → Reach v w
    → Abandoned v w
server_waits_for_ever {v = v} {w = w} phase before gone at after = go (Reach-Phase phase before)
  where
    go : Phase v → Abandoned v w
    go (idle h f c s) =
        reach-Abandoned v f.message_flag (record { in_wait = at; gone = gone; same = refl }) after
    go (requested d t h f c s) = absurd (subst ClientWaits gone c)
    go (serving d t h f c s b) = absurd (subst ClientWaits gone c)
    go (answered d t h f c s) = cc
