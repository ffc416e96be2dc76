-- ===== src/LfshmBlocking/Stops.antt =====
-- The client of lfshm_blocking.c after `free_lfshm_blocking_server`.
use ipc_benchmark.Prelude.{
  ℕ, ◌≡◌, ◌≢◌, refl, sym, Bool, true, false, some, List, [], ◌∷◌, length, ◌≤◌, arith,
}
use mathlib.Core.Path.{subst}
use ipc_benchmark.Message.Delivery.{IsSound}
use ipc_benchmark.Futex.{WaitPc, SignalPc, bump, futex_wake}
use ipc_benchmark.Futex.Channel.{Stage, WaitOk, Passed-differs_bumped, Near-differs_bumped}
use ipc_benchmark.LfshmBlocking.{
  World, ServerPc, ClientPc, Input, free_lfshm_blocking_server, woken_client,
}
use ipc_benchmark.LfshmBlocking.Phase.{
  ClientLate, ClientBetween, client_wait, server_stage, Holding, idle, posting, requested, taken,
  serving, replying, answered, received,
}
use ipc_benchmark.LfshmBlocking.Alone.{
  client_alone, StopsIn, stays_stopped, within, checks_ready, signals, writes, begins, clears,
  waits, runs_to_stop,
}
use ipc_benchmark.LfshmBlocking.Invariant.{PhaseOf, Inv, client_at}

-- What the shutdown leaves of the client's wait, where the server is at its own.
free_wakes : (p : WaitPc) → futex_wake p ≢ WaitPc.asleep
unfolding futex_wake
free_wakes WaitPc.check e = cc
free_wakes WaitPc.load_word e = cc
free_wakes (WaitPc.recheck val) e = cc
free_wakes (WaitPc.futex_wait val) e = cc
free_wakes WaitPc.asleep e = cc
free_wakes WaitPc.met e = cc

passes_by :
    (condition : Bool) (word : ℕ) (p : WaitPc)
    → WaitOk condition Stage.quiet word p
    → (val : ℕ) → futex_wake p ≡ WaitPc.futex_wait val
    → val ≢ bump word
unfolding futex_wake
passes_by condition word WaitPc.check h val e = cc
passes_by condition word WaitPc.load_word h val e = cc
passes_by condition word (WaitPc.recheck x) h val e = cc
passes_by true word (WaitPc.futex_wait x) h val e =
    let same : x ≡ val = cc in subst (λ y. y ≢ bump word) same (Passed-differs_bumped x h.0 h.1)
passes_by false word (WaitPc.futex_wait x) h val e =
    let same : x ≡ val = cc in subst (λ y. y ≢ bump word) same (Near-differs_bumped x h.0 h.1)
passes_by condition word WaitPc.asleep h val e = cc
passes_by condition word WaitPc.met h val e = cc

-- While a message is in the ring.
holding_stops :
    (w : World) (d : List ℕ)
    → IsSound d
    → Holding w.rb.ring (d ∷ [])
    → (p : ClientPc) → ClientLate p
    → WaitOk w.rb.response_available Stage.quiet w.rb.client_futex (client_wait p)
    → StopsIn 11 (client_at (free_lfshm_blocking_server w) (woken_client p))
unfolding free_lfshm_blocking_server
holding_stops w d sound h ClientPc.top l ok = absurd l
holding_stops w d sound h ClientPc.writing l ok = absurd l
holding_stops w d sound h (ClientPc.signalling p) l ok =
    let w' = free_lfshm_blocking_server w in
    within 4 11 (client_at w' (ClientPc.signalling p)) (omega arith) (signals p w' refl)
holding_stops w d sound h ClientPc.checking_ready l ok =
    let w' = free_lfshm_blocking_server w in
    within 1 11 (client_at w' ClientPc.checking_ready) (omega arith) (checks_ready w' refl)
holding_stops w d sound h (ClientPc.waiting p) l ok =
    waits (free_lfshm_blocking_server w) d refl sound h refl (futex_wake p) (free_wakes p)
      (passes_by w.rb.response_available w.rb.client_futex p ok)
holding_stops w d sound h (ClientPc.clearing size) l ok = absurd l
holding_stops w d sound h ClientPc.stopped l ok = absurd l

-- Between two rounds.
between_stops :
    (w : World)
    → Holding w.rb.ring []
    → (p : ClientPc) → ClientBetween p w.client_buffer
    → StopsIn 11 (client_at (free_lfshm_blocking_server w) (woken_client p))
unfolding free_lfshm_blocking_server
between_stops w h ClientPc.top b =
    let w' = free_lfshm_blocking_server w in
    within 6 11 (client_at w' ClientPc.top) (omega arith) (begins w' refl h)
between_stops w h ClientPc.writing b =
    let w' = free_lfshm_blocking_server w in
    within 5 11 (client_at w' ClientPc.writing) (omega arith) (writes w' refl h b)
between_stops w h (ClientPc.signalling p) b = absurd b
between_stops w h ClientPc.checking_ready b = absurd b
between_stops w h (ClientPc.waiting p) b = absurd b
between_stops w h (ClientPc.clearing size) b = absurd b
between_stops w h ClientPc.stopped b =
    stays_stopped 11 (client_at (free_lfshm_blocking_server w) ClientPc.stopped) refl

shutdown-StopsIn :
    (w : World)
    → Inv w
    → w.server ≡ ServerPc.waiting WaitPc.check
    → StopsIn 11 (free_lfshm_blocking_server w)
unfolding free_lfshm_blocking_server
shutdown-StopsIn w i at = go i.phase
  where
    quiet : WaitOk w.rb.response_available Stage.quiet w.rb.client_futex (client_wait w.client)
    quiet =
        subst
          (λ s.
            WaitOk w.rb.response_available (server_stage s) w.rb.client_futex
              (client_wait w.client))
          at i.responses

    go : PhaseOf w → StopsIn 11 (free_lfshm_blocking_server w)
    go (idle h fm fr c s) = between_stops w h w.client c
    go (posting d t h fm fr c s) =
        let w' = free_lfshm_blocking_server w in
        subst (λ p. StopsIn 11 (client_at w' (woken_client p))) (sym c)
          (within 4 11 (client_at w' (ClientPc.signalling SignalPc.set_flag)) (omega arith)
            (signals SignalPc.set_flag w' refl))
    go (requested d t h fm fr c s) = holding_stops w d t.sound h w.client c quiet
    go (taken d t h fm fr c s b) = absurd (cc)
    go (serving d t h fm fr c s b) = absurd (cc)
    go (replying d t h fm fr c s) = absurd (cc)
    go (answered d t h fm fr c s) = holding_stops w d t.sound h w.client c quiet
    go (received d t h fm fr c b s) =
        let w' = free_lfshm_blocking_server w in
        subst (λ p. StopsIn 11 (client_at w' (woken_client p))) (sym c)
          (within 7 11 (client_at w' (ClientPc.clearing (length d))) (omega arith)
            (clears w' d refl t.sound h b))

-- The server of lfshm_blocking.c shuts down where it is about to look at the message flag, in any state
-- of an exchange. Then the client goes on by itself: the wake of the shutdown reaches it if it sleeps, and
-- whatever its inputs are (time, random numbers, clock), eleven accesses, or more, run without a fault, and
-- leave it stopped.
pub shutdown_stops_client :
    (w : World) (inputs : List Input)
    → Inv w
    → w.server ≡ ServerPc.waiting WaitPc.check
    → 11 ≤ length inputs
    → (w' : World) × (client_alone inputs (free_lfshm_blocking_server w) ≡ some w')
      × (w'.client ≡ ClientPc.stopped)
shutdown_stops_client w inputs i at enough =
    runs_to_stop 11 inputs (free_lfshm_blocking_server w) enough (shutdown-StopsIn w i at)
