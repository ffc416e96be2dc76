-- ===== src/ShmNonblocking/Progress.antt =====
-- The work that is always left to do in an exchange over shm_nonblocking.c.
use ipc_benchmark.Prelude.{ℕ, ◌≡◌, refl, List, [], ◌∷◌, true, false, length, inl, inr}
use ipc_benchmark.Message.Delivery.{IsSound}
use ipc_benchmark.Interrupt.Traffic.{take_value_one}
use ipc_benchmark.ShmBlocking.{ServerPc}
use ipc_benchmark.ShmBlocking.Phase.{ServerRuns}
use ipc_benchmark.ShmNonblocking.{ThreadPc}
use ipc_benchmark.ShmNonblocking.Sections.{
  thread_send_message, server_take_message, server_reply_message, thread_receive_message,
}
use ipc_benchmark.ShmNonblocking.System.{
  World, MainPc, Step, take, reply, server_wakes, enter, exit, start, send, receive, thread_wakes,
  prepare, finish, post, notice, count, leave, signal_read, signal_write, join, Reach,
}
use ipc_benchmark.ShmNonblocking.Phase.{
  ThreadFree, MainFree, MainLeft, StandsIn, Phase, Inv, idle, posted, sending, requested, serving,
  answered, notified, received,
}
use ipc_benchmark.ShmNonblocking.MainSteps.{main_receive_returned}
use ipc_benchmark.ShmNonblocking.Invariant.{threads_Reach-Inv}

-- A step that is not a wakeup for no reason.
abbrev pub IsWork : {v w : World} → Step v w → Type 0
IsWork (server_wakes at) = ⊥
IsWork (thread_wakes at) = ⊥
IsWork (take at e) = Unit
IsWork (reply size at e) = Unit
IsWork (enter at e) = Unit
IsWork (exit at e) = Unit
IsWork (start at e) = Unit
IsWork (send at e) = Unit
IsWork (receive at e) = Unit
IsWork (prepare random now now' at) = Unit
IsWork (finish at) = Unit
IsWork (post at) = Unit
IsWork (notice at e) = Unit
IsWork (count now at e) = Unit
IsWork (leave at) = Unit
IsWork (signal_read at) = Unit
IsWork (signal_write at) = Unit
IsWork (join at e) = Unit

-- Some step that is work can be taken.
abbrev pub Works : World → Type 0
Works w = (w' : World) × (st : Step w w') × IsWork st

begins : (w : World) (p : MainPc) → w.main ≡ p → MainFree p w.thread → Works w
begins w MainPc.top at m = (_, prepare 0 0 0 at, tt)
begins w MainPc.posting at m = (_, post at, tt)
begins w MainPc.waits_read at m = absurd m
begins w MainPc.receiving at m = absurd m
begins w MainPc.leaving at m = absurd m
begins w MainPc.signals_read at m = absurd m
begins w MainPc.signals_write at m = absurd m
begins w MainPc.joining at m = absurd m
begins w MainPc.joined at m = absurd m

starts :
    (w : World) (p : ThreadPc)
    → w.thread_pc ≡ p
    → ThreadFree p
    → StandsIn w [] false false 1 0
    → Works w
starts w ThreadPc.top at t s = (_, enter at s.stays, tt)
starts w ThreadPc.waits_write at t s =
    let (c, takes, empty) = take_value_one w.write_intr s.write_signals in (_, start at takes, tt)
starts w ThreadPc.sending at t s = absurd t
starts w ThreadPc.asleep at t s = absurd t
starts w ThreadPc.awake at t s = absurd t
starts w ThreadPc.left at t s = absurd t

serves :
    (w : World) (p : ServerPc) {d : List ℕ}
    → w.server ≡ p
    → ServerRuns p
    → IsSound d
    → StandsIn w (d ∷ []) true false 0 0
    → Works w
serves w ServerPc.top at v sound s =
    let (ring, h, runs) = server_take_message sound w.server_buffer s.holds s.message_flag in
    (_, take (inl at) runs, tt)
serves w ServerPc.asleep at v sound s = absurd v
serves w ServerPc.awake at v sound s =
    let (ring, h, runs) = server_take_message sound w.server_buffer s.holds s.message_flag in
    (_, take (inr at) runs, tt)
serves w (ServerPc.serving size) at v sound s = absurd v
serves w ServerPc.stopped at v sound s = absurd v

phase-Works : {w : World} → Phase w → Works w
phase-Works {w} (idle s m t v) = begins w w.main refl m
phase-Works {w} (posted d i s m t v) = starts w w.thread_pc refl t s
phase-Works {w} (sending d i s m t v) =
    let x =
      thread_send_message w.thread
        (record { empty = s.holds; ready_flag = s.ready_flag; response_flag = s.response_flag })
        i in
    (_, send t x.sends, tt)
phase-Works {w} (requested d i s m t v) = serves w w.server refl v i.sound s
phase-Works {w} (serving d i s m t v b) =
    let (ring, h, runs) = server_reply_message i.sound w.server_buffer s.holds b in
    (_, reply (length d) v runs, tt)
phase-Works {w} (answered d i s m t v) =
    let (ring, h, runs) = thread_receive_message i.sound w.thread s.holds s.response_flag in
    (_, receive t runs, tt)
phase-Works {w} (notified d i s m t v) =
    let (c, takes, empty) = take_value_one w.read_intr s.read_signals in (_, notice m takes, tt)
phase-Works {w} (received d i s m t v) = (_, count 0 m (main_receive_returned i 0 w.stats), tt)

-- No deadlock, no lost wakeup and no lost interrupt: from any state of an exchange over shm_nonblocking.c,
-- however the three threads of control interleave, while the main thread is in its loop, one of them can do
-- its next piece of work, without a spurious wakeup and without a fault.
pub threads_always-Works : {v w : World} → Inv v → Reach v w → ¬ MainLeft w.main → Works w
threads_always-Works {w = w} begun reach running = go (threads_Reach-Inv begun reach)
  where
    go : Inv w → Works w
    go (inl left) = absurd (running left)
    go (inr p) = phase-Works p
