-- ===== src/ShmNonblocking/ServerSteps.antt =====
-- The steps of the server of shm_nonblocking.c keep the phases of an exchange.
use ipc_benchmark.Prelude.{ℕ, ◌≡◌, refl, sym, ◌∙◌, false, some, length, ◌⊎◌, inl, inr}
use mathlib.Core.Path.{subst}
use ipc_benchmark.Memory.Region.{copy_out-copy_in}
use ipc_benchmark.ShmBlocking.{ServerPc}
use ipc_benchmark.ShmBlocking.Phase.{ServerFree, ServerRuns}
use ipc_benchmark.ShmNonblocking.{ServerResult, ThreadPc, server_take, server_reply}
use ipc_benchmark.ShmNonblocking.Sections.{
  server_take_message, server_reply_message, server_take_nothing,
}
use ipc_benchmark.ShmNonblocking.System.{World, after_server, wake_thread}
use ipc_benchmark.ShmNonblocking.Phase.{
  ThreadWaits, Phase, idle, posted, sending, requested, serving, answered, notified, received,
}

same_result : {r s : ServerResult} → some r ≡ some s → r ≡ s
same_result e = cc

-- The server finds no message.
take_nothing :
    (w : World) (r : ServerResult)
    → w.rb.message_available ≡ false
    → server_take w.rb w.server_buffer ≡ some r
    → Phase (record w { server = ServerPc.asleep })
    → Phase (after_server w r)
take_nothing w r flag e p =
    subst (λ x. Phase (after_server w x))
      (same_result (sym (server_take_nothing w.rb w.server_buffer flag) ∙ e)) p

pub take_Phase :
    (w : World) (r : ServerResult)
    → Phase w
    → (w.server ≡ ServerPc.top) ⊎ (w.server ≡ ServerPc.awake)
    → server_take w.rb w.server_buffer ≡ some r
    → Phase (after_server w r)
take_Phase w r (idle s m t v) at_lock e = take_nothing w r s.message_flag e (idle s m t tt)
take_Phase w r (posted d i s m t v) at_lock e =
    take_nothing w r s.message_flag e (posted d i s m t tt)
take_Phase w r (sending d i s m t v) at_lock e =
    take_nothing w r s.message_flag e (sending d i s m t tt)
take_Phase w r (requested d i s m t v) at_lock e =
    let (ring, h, runs) = server_take_message i.sound w.server_buffer s.holds s.message_flag in
    subst (λ x. Phase (after_server w x)) (same_result (sym runs ∙ e))
      (serving d i
        (record {
          holds = h;
          message_flag = refl;
          response_flag = s.response_flag;
          ready_flag = s.ready_flag;
          write_signals = s.write_signals;
          read_signals = s.read_signals;
          stays = s.stays;
        })
        m t refl (copy_out-copy_in 0 d w.server_buffer))
take_Phase w r (serving d i s m t v b) at_lock e = elim at_lock [ inl p ↦ cc | inr p ↦ cc ]
take_Phase w r (answered d i s m t v) at_lock e =
    take_nothing w r s.message_flag e (answered d i s m t tt)
take_Phase w r (notified d i s m t v) at_lock e =
    take_nothing w r s.message_flag e (notified d i s m t tt)
take_Phase w r (received d i s m t v) at_lock e =
    take_nothing w r s.message_flag e (received d i s m t tt)

wake_thread_waits : (p : ThreadPc) → ThreadWaits p → wake_thread p ≡ ThreadPc.awake
wake_thread_waits ThreadPc.top t = absurd t
wake_thread_waits ThreadPc.waits_write t = absurd t
wake_thread_waits ThreadPc.sending t = absurd t
wake_thread_waits ThreadPc.asleep t = refl
wake_thread_waits ThreadPc.awake t = refl
wake_thread_waits ThreadPc.left t = absurd t

pub reply_Phase :
    (w : World) (size : ℕ) (r : ServerResult)
    → Phase w
    → w.server ≡ ServerPc.serving size
    → server_reply size w.rb w.server_buffer ≡ some r
    → Phase (after_server w r)
reply_Phase w size r (idle s m t v) at_reply e = absurd (subst ServerFree at_reply v)
reply_Phase w size r (posted d i s m t v) at_reply e = absurd (subst ServerFree at_reply v)
reply_Phase w size r (sending d i s m t v) at_reply e = absurd (subst ServerFree at_reply v)
reply_Phase w size r (requested d i s m t v) at_reply e = absurd (subst ServerRuns at_reply v)
reply_Phase w size r (serving d i s m t v b) at_reply e =
    let (ring, h, runs) = server_reply_message i.sound w.server_buffer s.holds b in
    let same_size : size ≡ length d = cc in
    subst (λ x. Phase (after_server w x))
      (same_result
        (sym runs ∙ subst (λ n. server_reply n w.rb w.server_buffer ≡ some r) same_size e))
      (answered d i
        (record {
          holds = h;
          message_flag = s.message_flag;
          response_flag = refl;
          ready_flag = s.ready_flag;
          write_signals = s.write_signals;
          read_signals = s.read_signals;
          stays = s.stays;
        })
        m (wake_thread_waits w.thread_pc t) tt)
reply_Phase w size r (answered d i s m t v) at_reply e = absurd (subst ServerFree at_reply v)
reply_Phase w size r (notified d i s m t v) at_reply e = absurd (subst ServerFree at_reply v)
reply_Phase w size r (received d i s m t v) at_reply e = absurd (subst ServerFree at_reply v)

pub server_wakes_Phase :
    (w : World)
    → Phase w
    → w.server ≡ ServerPc.asleep
    → Phase (record w { server = ServerPc.awake })
server_wakes_Phase w (idle s m t v) asleep_now = idle s m t tt
server_wakes_Phase w (posted d i s m t v) asleep_now = posted d i s m t tt
server_wakes_Phase w (sending d i s m t v) asleep_now = sending d i s m t tt
server_wakes_Phase w (requested d i s m t v) asleep_now = requested d i s m t tt
server_wakes_Phase w (serving d i s m t v b) asleep_now = cc
server_wakes_Phase w (answered d i s m t v) asleep_now = answered d i s m t tt
server_wakes_Phase w (notified d i s m t v) asleep_now = notified d i s m t tt
server_wakes_Phase w (received d i s m t v) asleep_now = received d i s m t tt
