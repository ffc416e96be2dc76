-- ===== src/LfshmBlocking/Stuck.antt =====
-- States of lfshm_blocking.c in which a request is in the ring, and both processes wait with no flag up.
use ipc_benchmark.Prelude.{
  ℕ, ◌≡◌, refl, sym, ◌∙◌, true, false, List, [], ◌∷◌, some, ◌==◌, if◌then◌else◌, Bool-cases, inl,
  inr,
}
use mathlib.Core.Path.{subst}
use ipc_benchmark.Prelude.Word.{u32_mod}
use ipc_benchmark.Ring.IsQueue.{IsQueue}
use ipc_benchmark.Futex.{WaitPc, SignalPc, wait_step, futex_wake}
use ipc_benchmark.LfshmBlocking.{
  World, ServerPc, ClientPc, Input, server_act, client_act, client_signal, woken_server,
}
use ipc_benchmark.LfshmBlocking.System.{
  Step, server_step, client_step, server_wakes, client_wakes, Reach, here, next,
}

-- Inside of a wait that has not seen its flag up.
abbrev pub Unmet : WaitPc → Type 0
Unmet WaitPc.check = Unit
Unmet WaitPc.load_word = Unit
Unmet (WaitPc.recheck val) = Unit
Unmet (WaitPc.futex_wait val) = Unit
Unmet WaitPc.asleep = Unit
Unmet WaitPc.met = ⊥

abbrev pub ServerWaits : ServerPc → Type 0
ServerWaits (ServerPc.waiting p) = Unmet p
ServerWaits (ServerPc.clearing size) = ⊥
ServerWaits (ServerPc.writing size) = ⊥
ServerWaits (ServerPc.signalling p) = ⊥

-- The client has raised the flag, and has not had a response.
abbrev pub ClientWaits : ClientPc → Type 0
ClientWaits ClientPc.top = ⊥
ClientWaits ClientPc.writing = ⊥
ClientWaits (ClientPc.signalling SignalPc.set_flag) = ⊥
ClientWaits (ClientPc.signalling SignalPc.add_one) = Unit
ClientWaits (ClientPc.signalling SignalPc.wake) = Unit
ClientWaits ClientPc.checking_ready = Unit
ClientWaits (ClientPc.waiting p) = Unmet p
ClientWaits (ClientPc.clearing size) = ⊥
ClientWaits ClientPc.stopped = ⊥

-- The request `d` is in the ring, both processes wait, and neither will see a flag up.
pub record Stuck (d : List ℕ) (w : World) : Type 0 where
  pub in_ring : IsQueue u32_mod w.rb.ring (d ∷ [])
  pub no_message : w.rb.message_available ≡ false
  pub no_response : w.rb.response_available ≡ false
  pub ready : w.rb.ready ≡ true
  pub server_waits : ServerWaits w.server
  pub client_waits : ClientWaits w.client

step-Unmet : (word : ℕ) (p : WaitPc) → Unmet p → Unmet (wait_step false word p)
unfolding wait_step
step-Unmet word WaitPc.check u = tt
step-Unmet word WaitPc.load_word u = tt
step-Unmet word (WaitPc.recheck val) u = tt
step-Unmet word (WaitPc.futex_wait val) u = elim (Bool-cases (val == word)) [
  | inl e ↦ rw e tt
  | inr e ↦ rw e tt
]
step-Unmet word WaitPc.asleep u = tt
step-Unmet word WaitPc.met u = absurd u

wake-Unmet : (p : WaitPc) → Unmet p → Unmet (futex_wake p)
unfolding futex_wake
wake-Unmet WaitPc.check u = tt
wake-Unmet WaitPc.load_word u = tt
wake-Unmet (WaitPc.recheck val) u = tt
wake-Unmet (WaitPc.futex_wait val) u = tt
wake-Unmet WaitPc.asleep u = tt
wake-Unmet WaitPc.met u = absurd u

same_Stuck : {d : List ℕ} {v w : World} → some v ≡ some w → Stuck d v → Stuck d w
same_Stuck {d} {v} {w} e s = subst (Stuck d) same s
  where
    same : v ≡ w
    same = cc

server_waiting_act :
    (p : WaitPc) (w : World)
    → Unmet p
    → server_act (ServerPc.waiting p) w
      ≡ some (record w {
        server = ServerPc.waiting (wait_step w.rb.message_available w.rb.server_futex p);
      })
unfolding server_act
server_waiting_act WaitPc.check w u = refl
server_waiting_act WaitPc.load_word w u = refl
server_waiting_act (WaitPc.recheck val) w u = refl
server_waiting_act (WaitPc.futex_wait val) w u = refl
server_waiting_act WaitPc.asleep w u = refl
server_waiting_act WaitPc.met w u = absurd u

client_waiting_act :
    (i : Input) (p : WaitPc) (w : World)
    → Unmet p
    → client_act i (ClientPc.waiting p) w
      ≡ some (record w {
        client = ClientPc.waiting (wait_step w.rb.response_available w.rb.client_futex p);
      })
unfolding client_act
client_waiting_act i WaitPc.check w u = refl
client_waiting_act i WaitPc.load_word w u = refl
client_waiting_act i (WaitPc.recheck val) w u = refl
client_waiting_act i (WaitPc.futex_wait val) w u = refl
client_waiting_act i WaitPc.asleep w u = refl
client_waiting_act i WaitPc.met w u = absurd u

module _ {d : List ℕ} (v : World) (s : Stuck d v) where
  -- What stays as it is.
  server_to : (p : WaitPc) → Unmet p → Stuck d (record v { server = ServerPc.waiting p })
  server_to p u = record {
    in_ring = s.in_ring;
    no_message = s.no_message;
    no_response = s.no_response;
    ready = s.ready;
    server_waits = u;
    client_waits = s.client_waits;
  }

  client_to : (p : ClientPc) → ClientWaits p → Stuck d (record v { client = p })
  client_to p u = record {
    in_ring = s.in_ring;
    no_message = s.no_message;
    no_response = s.no_response;
    ready = s.ready;
    server_waits = s.server_waits;
    client_waits = u;
  }

  server_act-Stuck :
      {w : World} (p : ServerPc) → ServerWaits p → server_act p v ≡ some w → Stuck d w
  server_act-Stuck (ServerPc.waiting p) u e =
      let word = v.rb.server_futex in
      same_Stuck (sym (server_waiting_act p v u) ∙ e) (
        server_to (wait_step v.rb.message_available word p)
          (subst (λ b. Unmet (wait_step b word p)) (sym s.no_message) (step-Unmet word p u)))
  server_act-Stuck (ServerPc.clearing size) u e = absurd u
  server_act-Stuck (ServerPc.writing size) u e = absurd u
  server_act-Stuck (ServerPc.signalling p) u e = absurd u

  woken-Waits : (p : ServerPc) → ServerWaits p → ServerWaits (woken_server p)
  woken-Waits (ServerPc.waiting p) u = wake-Unmet p u
  woken-Waits (ServerPc.clearing size) u = absurd u
  woken-Waits (ServerPc.writing size) u = absurd u
  woken-Waits (ServerPc.signalling p) u = absurd u

  client_act-Stuck :
      {w : World} (i : Input) (p : ClientPc) → ClientWaits p → client_act i p v ≡ some w → Stuck d w
  unfolding client_act client_signal
  client_act-Stuck i ClientPc.top u e = absurd u
  client_act-Stuck i ClientPc.writing u e = absurd u
  client_act-Stuck i (ClientPc.signalling SignalPc.set_flag) u e = absurd u
  client_act-Stuck i (ClientPc.signalling SignalPc.add_one) u e = same_Stuck e (record {
    in_ring = s.in_ring;
    no_message = s.no_message;
    no_response = s.no_response;
    ready = s.ready;
    server_waits = s.server_waits;
    client_waits = tt;
  })
  client_act-Stuck i (ClientPc.signalling SignalPc.wake) u e = same_Stuck e (record {
    in_ring = s.in_ring;
    no_message = s.no_message;
    no_response = s.no_response;
    ready = s.ready;
    server_waits = woken-Waits v.server s.server_waits;
    client_waits = tt;
  })
  client_act-Stuck i ClientPc.checking_ready u e = same_Stuck e (
      client_to (if v.rb.ready then ClientPc.waiting WaitPc.check else ClientPc.stopped) (
        subst (λ b. ClientWaits (if b then ClientPc.waiting WaitPc.check else ClientPc.stopped))
          (sym s.ready) tt))
  client_act-Stuck i (ClientPc.waiting p) u e =
      let word = v.rb.client_futex in
      same_Stuck (sym (client_waiting_act i p v u) ∙ e) (
        client_to (ClientPc.waiting (wait_step v.rb.response_available word p))
          (subst (λ b. Unmet (wait_step b word p)) (sym s.no_response) (step-Unmet word p u)))
  client_act-Stuck i (ClientPc.clearing size) u e = absurd u
  client_act-Stuck i ClientPc.stopped u e = absurd u

step-Stuck : {d : List ℕ} {v w : World} → Step v w → Stuck d v → Stuck d w
step-Stuck {v = v} (server_step e) s = server_act-Stuck v s v.server s.server_waits e
step-Stuck {v = v} (client_step i e) s = client_act-Stuck v s i v.client s.client_waits e
step-Stuck {d} {v} (server_wakes at e) s = subst (Stuck d) e (server_to v s WaitPc.check tt)
step-Stuck {d} {v} (client_wakes at e) s =
    subst (Stuck d) e (client_to v s (ClientPc.waiting WaitPc.check) tt)

pub reach-Stuck : {d : List ℕ} {v w : World} → Stuck d v → Reach v w → Stuck d w
reach-Stuck s here = s
reach-Stuck s (next r st) = step-Stuck st (reach-Stuck s r)
