-- ===== src/ShmNonblocking/Exchange.antt =====
-- What an exchange over shm_nonblocking.c gives its users.
use ipc_benchmark.Prelude.{
  ℕ, ◌≡◌, refl, sym, ◌∙◌, ap, List, [], Bool, true, false, ◌&&◌, some, length, inl, inr, arith,
}
use mathlib.Core.Path.{subst}
use ipc_benchmark.Memory.{copy_out}
use ipc_benchmark.Memory.Region.{copy_out-copy_in}
use ipc_benchmark.Message.Delivery.{IsSound}
use ipc_benchmark.Stats.{record_response}
use ipc_benchmark.ShmNonblocking.{ThreadPc, ThreadResult, thread_receive, main_receive}
use ipc_benchmark.ShmNonblocking.Sections.{Holding, thread_receive_message}
use ipc_benchmark.ShmNonblocking.System.{World, MainPc, Reach}
use ipc_benchmark.ShmNonblocking.Phase.{
  ThreadFree, MainFree, MainLeft, Inv, idle, posted, sending, requested, serving, answered,
  notified, received,
}
use ipc_benchmark.ShmNonblocking.ThreadSteps.{thread_result}
use ipc_benchmark.ShmNonblocking.MainSteps.{main_receive_returned}
use ipc_benchmark.ShmNonblocking.Invariant.{threads_Reach-Inv}

-- The thread's buffer held the message `d`, and its response is `d` again, of which it tells.
pub record Echoed (w : World) (r : ThreadResult) : Type 0 where
  pub message : List ℕ
  pub sound : IsSound message
  pub sent : copy_out 0 (length message) w.thread.msg ≡ message
  pub received : copy_out 0 (length message) r.thread.msg ≡ message
  pub sized : r.thread.msg_size ≡ length message
  pub success : r.thread.read_success ≡ true
  pub tells : r.notify ≡ true
  pub drained : Holding r.rb []

flags_differ : {b : Bool} → b ≡ false → b ≡ true → ⊥
flags_differ e e' = cc

-- In any state that shm_nonblocking.c reaches from one of an exchange, while the main thread is in its loop:
-- where the thread, woken, finds the response flag up, it reads back into the message buffer exactly the
-- bytes that the main thread posted there, which are a valid message, leaves the ring empty, and
-- notifies the main thread of a success.
pub thread_receives_request :
    {v w : World}
    → Inv v
    → Reach v w
    → ¬ MainLeft w.main
    → (r : ThreadResult) → w.thread_pc ≡ ThreadPc.awake
    → w.rb.response_available ≡ true
    → thread_receive w.rb w.thread ≡ some r
    → Echoed w r
thread_receives_request {w = w} begun reach running r woken up e =
    go (threads_Reach-Inv begun reach)
  where
    go : Inv w → Echoed w r
    go (inl left) = absurd (running left)
    go (inr (idle s m t v)) = absurd (subst ThreadFree woken t)
    go (inr (posted d i s m t v)) = absurd (subst ThreadFree woken t)
    go (inr (sending d i s m t v)) = cc
    go (inr (requested d i s m t v)) = absurd (flags_differ s.response_flag up)
    go (inr (serving d i s m t v b)) = absurd (flags_differ s.response_flag up)
    go (inr (answered d i s m t v)) =
        let (ring, h, runs) = thread_receive_message i.sound w.thread s.holds up in
        subst (Echoed w) (thread_result (sym runs ∙ e)) (record {
          message = d;
          sound = i.sound;
          sent = i.stands;
          received = copy_out-copy_in 0 d w.thread.msg;
          sized = refl;
          success = refl;
          tells = refl;
          drained = h;
        })
    go (inr (notified d i s m t v)) = absurd (subst ThreadFree woken t)
    go (inr (received d i s m t v)) = absurd (subst ThreadFree woken t)

-- Who may touch the message buffer, which the two threads of the client share without a lock.
abbrev pub main_in_buffer : MainPc → Bool
main_in_buffer MainPc.top = true
main_in_buffer MainPc.posting = true
main_in_buffer MainPc.receiving = true
main_in_buffer p = false

abbrev pub thread_in_buffer : ThreadPc → Bool
thread_in_buffer ThreadPc.sending = true
thread_in_buffer ThreadPc.asleep = true
thread_in_buffer ThreadPc.awake = true
thread_in_buffer p = false

free_out : (p : ThreadPc) → ThreadFree p → thread_in_buffer p ≡ false
free_out ThreadPc.top t = refl
free_out ThreadPc.waits_write t = refl
free_out ThreadPc.sending t = absurd t
free_out ThreadPc.asleep t = absurd t
free_out ThreadPc.awake t = absurd t
free_out ThreadPc.left t = absurd t

left_out : (p : MainPc) → MainLeft p → main_in_buffer p ≡ false
left_out MainPc.top l = absurd l
left_out MainPc.posting l = absurd l
left_out MainPc.waits_read l = refl
left_out MainPc.receiving l = absurd l
left_out MainPc.leaving l = refl
left_out MainPc.signals_read l = refl
left_out MainPc.signals_write l = refl
left_out MainPc.joining l = refl
left_out MainPc.joined l = refl

-- The two threads of the client of shm_nonblocking.c never both stand where they touch the message buffer
-- that they share: in any state reached from one of an exchange, the main thread builds or reads a message
-- only while the segment's thread is outside of its round.
pub buffer_exclusive :
    {v w : World}
    → Inv v
    → Reach v w
    → (main_in_buffer w.main && thread_in_buffer w.thread_pc) ≡ false
buffer_exclusive {w = w} begun reach = go (threads_Reach-Inv begun reach)
  where
    by_main :
        main_in_buffer w.main ≡ false
        → (main_in_buffer w.main && thread_in_buffer w.thread_pc) ≡ false
    by_main e = rw e refl

    by_thread :
        thread_in_buffer w.thread_pc ≡ false
        → (main_in_buffer w.main && thread_in_buffer w.thread_pc) ≡ false
    by_thread e = ground arith

    go : Inv w → (main_in_buffer w.main && thread_in_buffer w.thread_pc) ≡ false
    go (inl left) = by_main (left_out w.main left)
    go (inr (idle s m t v)) = by_thread (free_out w.thread_pc t)
    go (inr (posted d i s m t v)) = by_thread (free_out w.thread_pc t)
    go (inr (sending d i s m t v)) = by_main (ap main_in_buffer m)
    go (inr (requested d i s m t v)) = by_main (ap main_in_buffer m)
    go (inr (serving d i s m t v b)) = by_main (ap main_in_buffer m)
    go (inr (answered d i s m t v)) = by_main (ap main_in_buffer m)
    go (inr (notified d i s m t v)) = by_thread (free_out w.thread_pc t)
    go (inr (received d i s m t v)) = by_thread (free_out w.thread_pc t)

-- Where the main thread has been told of a response: what it counts.
pub record Counts (now : ℕ) (w : World) : Type 0 where
  pub message : List ℕ
  pub sound : IsSound message
  pub stands : copy_out 0 (length message) w.thread.msg ≡ message
  pub counts :
      main_receive now w.thread w.stats
      ≡ some (true, record_response now (length message) w.thread.msg w.stats)

-- In any state that shm_nonblocking.c reaches from one of an exchange: where the main thread has been told
-- of a response, a valid message stands in the message buffer, and it counts this message once and goes on.
pub main-Counts_response :
    {v w : World} → Inv v → Reach v w → w.main ≡ MainPc.receiving → (now : ℕ) → Counts now w
main-Counts_response {w = w} begun reach at now = go (threads_Reach-Inv begun reach)
  where
    go : Inv w → Counts now w
    go (inl left) = absurd (subst MainLeft at left)
    go (inr (idle s m t v)) = absurd (subst (λ x. MainFree x w.thread) at m)
    go (inr (posted d i s m t v)) = cc
    go (inr (sending d i s m t v)) = cc
    go (inr (requested d i s m t v)) = cc
    go (inr (serving d i s m t v b)) = cc
    go (inr (answered d i s m t v)) = cc
    go (inr (notified d i s m t v)) = cc
    go (inr (received d i s m t v)) = record {
      message = d;
      sound = i.sound;
      stands = rw i.landed (copy_out-copy_in 0 d i.before);
      counts = main_receive_returned i now w.stats;
    }
