-- ===== src/ShmNonblocking/Invariant.antt =====
-- Every step of shm_nonblocking.c keeps the phases of an exchange.
use ipc_benchmark.Prelude.{◌≡◌, inl, inr}
use mathlib.Core.Path.{subst}
use ipc_benchmark.ShmNonblocking.System.{
  World, MainPc, Step, take, reply, server_wakes, enter, exit, start, send, receive, thread_wakes,
  prepare, finish, post, notice, count, leave, signal_read, signal_write, join, Reach, here, next,
  main_prepare,
}
use ipc_benchmark.ShmNonblocking.Phase.{MainLeft, Inv}
use ipc_benchmark.ShmNonblocking.ServerSteps.{take_Phase, reply_Phase, server_wakes_Phase}
use ipc_benchmark.ShmNonblocking.ThreadSteps.{
  enter_Phase, exit_Phase, start_Phase, send_Phase, receive_Phase, thread_wakes_Phase,
}
use ipc_benchmark.ShmNonblocking.MainSteps.{prepare_Phase, post_Phase, notice_Phase, count_Phase}

-- The main thread is still in its loop.
in_loop : {p q : MainPc} → (MainLeft q → ⊥) → p ≡ q → MainLeft p → ⊥
in_loop stays at left = stays (subst MainLeft at left)

-- Every step of the three threads of control keeps the invariant: as long as the main thread is in its loop,
-- at most one message and at most one signal are under way, the message is where the phase of the exchange
-- says, and nobody sleeps whose flag is up.
pub threads_Step-Inv : {v w : World} → Step v w → Inv v → Inv w
unfolding main_prepare
threads_Step-Inv (take at e) (inl left) = inl left
threads_Step-Inv {v} (take at e) (inr p) = inr (take_Phase v _ p at e)
threads_Step-Inv (reply size at e) (inl left) = inl left
threads_Step-Inv {v} (reply size at e) (inr p) = inr (reply_Phase v size _ p at e)
threads_Step-Inv (server_wakes at) (inl left) = inl left
threads_Step-Inv {v} (server_wakes at) (inr p) = inr (server_wakes_Phase v p at)
threads_Step-Inv (enter at e) (inl left) = inl left
threads_Step-Inv {v} (enter at e) (inr p) = inr (enter_Phase v p at)
threads_Step-Inv (exit at e) (inl left) = inl left
threads_Step-Inv {v} (exit at e) (inr p) = inr (exit_Phase v p e)
threads_Step-Inv (start at e) (inl left) = inl left
threads_Step-Inv {v} (start at e) (inr p) = inr (start_Phase v _ p at e)
threads_Step-Inv (send at e) (inl left) = inl left
threads_Step-Inv {v} (send at e) (inr p) = inr (send_Phase v _ p at e)
threads_Step-Inv (receive at e) (inl left) = inl left
threads_Step-Inv {v} (receive at e) (inr p) = inr (receive_Phase v _ p at e)
threads_Step-Inv (thread_wakes at) (inl left) = inl left
threads_Step-Inv {v} (thread_wakes at) (inr p) = inr (thread_wakes_Phase v p at)
threads_Step-Inv (prepare random now now' at) (inl left) = absurd (in_loop (λ l. l) at left)
threads_Step-Inv {v} (prepare random now now' at) (inr p) =
    inr (prepare_Phase v random now now' p at)
threads_Step-Inv (finish at) i = inl tt
threads_Step-Inv (post at) (inl left) = absurd (in_loop (λ l. l) at left)
threads_Step-Inv {v} (post at) (inr p) = inr (post_Phase v p at)
threads_Step-Inv (notice at e) (inl left) = absurd (in_loop (λ l. l) at left)
threads_Step-Inv {v} (notice at e) (inr p) = inr (notice_Phase v _ p at e)
threads_Step-Inv (count now at e) (inl left) = absurd (in_loop (λ l. l) at left)
threads_Step-Inv {v} (count now at e) (inr p) = inr (count_Phase v now _ _ p at e)
threads_Step-Inv (leave at) i = inl tt
threads_Step-Inv (signal_read at) i = inl tt
threads_Step-Inv (signal_write at) i = inl tt
threads_Step-Inv (join at e) i = inl tt

pub threads_Reach-Inv : {v w : World} → Inv v → Reach v w → Inv w
threads_Reach-Inv i here = i
threads_Reach-Inv i (next r st) = threads_Step-Inv st (threads_Reach-Inv i r)
