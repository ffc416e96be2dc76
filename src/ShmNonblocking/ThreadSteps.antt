-- ===== src/ShmNonblocking/ThreadSteps.antt =====
-- The steps of the client's thread of shm_nonblocking.c keep the phases of an exchange.
use ipc_benchmark.Prelude.{◌≡◌, refl, sym, ◌∙◌, Bool, true, false, some, arith}
use mathlib.Core.Path.{subst}
use ipc_benchmark.Interrupt.Traffic.{
  Channel, pending, take_value, take_value_none, take_value_one, pending-arrive,
}
use ipc_benchmark.ShmBlocking.Invariant.{wake_server_runs}
use ipc_benchmark.ShmNonblocking.{ThreadPc, ThreadResult, thread_send, thread_receive}
use ipc_benchmark.ShmNonblocking.Sections.{
  thread_send_message, thread_receive_message, thread_receive_nothing,
}
use ipc_benchmark.ShmNonblocking.System.{World, after_thread}
use ipc_benchmark.ShmNonblocking.Phase.{
  ThreadFree, ThreadWaits, Phase, idle, posted, sending, requested, serving, answered, notified,
  received,
}

pub thread_result : {r s : ThreadResult} → some r ≡ some s → r ≡ s
thread_result e = cc

pub enter_Phase :
    (w : World)
    → Phase w
    → w.thread_pc ≡ ThreadPc.top
    → Phase (record w { thread_pc = ThreadPc.waits_write })
enter_Phase w (idle s m t v) at_top = idle s m tt v
enter_Phase w (posted d i s m t v) at_top = posted d i s m tt v
enter_Phase w (sending d i s m t v) at_top = cc
enter_Phase w (requested d i s m t v) at_top = absurd (subst ThreadWaits at_top t)
enter_Phase w (serving d i s m t v b) at_top = absurd (subst ThreadWaits at_top t)
enter_Phase w (answered d i s m t v) at_top = cc
enter_Phase w (notified d i s m t v) at_top = notified d i s m tt v
enter_Phase w (received d i s m t v) at_top = received d i s m tt v

no_exit : {b : Bool} → b ≡ false → b ≡ true → ⊥
no_exit e e' = cc

pub exit_Phase :
    (w : World) → Phase w → w.should_exit ≡ true → Phase (record w { thread_pc = ThreadPc.left })
exit_Phase w (idle s m t v) told = absurd (no_exit s.stays told)
exit_Phase w (posted d i s m t v) told = absurd (no_exit s.stays told)
exit_Phase w (sending d i s m t v) told = absurd (no_exit s.stays told)
exit_Phase w (requested d i s m t v) told = absurd (no_exit s.stays told)
exit_Phase w (serving d i s m t v b) told = absurd (no_exit s.stays told)
exit_Phase w (answered d i s m t v) told = absurd (no_exit s.stays told)
exit_Phase w (notified d i s m t v) told = absurd (no_exit s.stays told)
exit_Phase w (received d i s m t v) told = absurd (no_exit s.stays told)

pub start_Phase :
    (w : World) (c : Channel)
    → Phase w
    → w.thread_pc ≡ ThreadPc.waits_write
    → take_value w.write_intr ≡ some c
    → Phase (record w { thread_pc = ThreadPc.sending; write_intr = c })
start_Phase w c (idle s m t v) at_wait e = absurd (take_value_none w.write_intr c s.write_signals e)
start_Phase w c (posted d i s m t v) at_wait e =
    let (c', takes, empty) = take_value_one w.write_intr s.write_signals in
    let same : c' ≡ c = cc in
    sending d i
      (record {
        holds = s.holds;
        message_flag = s.message_flag;
        response_flag = s.response_flag;
        ready_flag = s.ready_flag;
        write_signals = subst (λ x. pending x ≡ 0) same empty;
        read_signals = s.read_signals;
        stays = s.stays;
      })
      m refl v
start_Phase w c (sending d i s m t v) at_wait e = cc
start_Phase w c (requested d i s m t v) at_wait e = absurd (subst ThreadWaits at_wait t)
start_Phase w c (serving d i s m t v b) at_wait e = absurd (subst ThreadWaits at_wait t)
start_Phase w c (answered d i s m t v) at_wait e = cc
start_Phase w c (notified d i s m t v) at_wait e =
    absurd (take_value_none w.write_intr c s.write_signals e)
start_Phase w c (received d i s m t v) at_wait e =
    absurd (take_value_none w.write_intr c s.write_signals e)

pub send_Phase :
    (w : World) (r : ThreadResult)
    → Phase w
    → w.thread_pc ≡ ThreadPc.sending
    → thread_send w.rb w.thread ≡ some r
    → Phase (after_thread w r)
send_Phase w r (idle s m t v) at_send e = absurd (subst ThreadFree at_send t)
send_Phase w r (posted d i s m t v) at_send e = absurd (subst ThreadFree at_send t)
send_Phase w r (sending d i s m t v) at_send e =
    let x =
      thread_send_message w.thread
        (record { empty = s.holds; ready_flag = s.ready_flag; response_flag = s.response_flag })
        i in
    subst (λ y. Phase (after_thread w y)) (thread_result (sym x.sends ∙ e))
      (requested d i
        (record {
          holds = x.holds;
          message_flag = refl;
          response_flag = s.response_flag;
          ready_flag = s.ready_flag;
          write_signals = s.write_signals;
          read_signals = s.read_signals;
          stays = s.stays;
        })
        m tt (wake_server_runs w.server v))
send_Phase w r (requested d i s m t v) at_send e = absurd (subst ThreadWaits at_send t)
send_Phase w r (serving d i s m t v b) at_send e = absurd (subst ThreadWaits at_send t)
send_Phase w r (answered d i s m t v) at_send e = cc
send_Phase w r (notified d i s m t v) at_send e = absurd (subst ThreadFree at_send t)
send_Phase w r (received d i s m t v) at_send e = absurd (subst ThreadFree at_send t)

-- The thread finds no response.
receive_nothing :
    (w : World) (r : ThreadResult)
    → w.rb.response_available ≡ false
    → thread_receive w.rb w.thread ≡ some r
    → Phase (record w { thread_pc = ThreadPc.asleep })
    → Phase (after_thread w r)
receive_nothing w r flag e p =
    subst (λ x. Phase (after_thread w x))
      (thread_result (sym (thread_receive_nothing w.rb w.thread flag) ∙ e)) p

pub receive_Phase :
    (w : World) (r : ThreadResult)
    → Phase w
    → w.thread_pc ≡ ThreadPc.awake
    → thread_receive w.rb w.thread ≡ some r
    → Phase (after_thread w r)
receive_Phase w r (idle s m t v) at_wait e = absurd (subst ThreadFree at_wait t)
receive_Phase w r (posted d i s m t v) at_wait e = absurd (subst ThreadFree at_wait t)
receive_Phase w r (sending d i s m t v) at_wait e = cc
receive_Phase w r (requested d i s m t v) at_wait e =
    receive_nothing w r s.response_flag e (requested d i s m tt v)
receive_Phase w r (serving d i s m t v b) at_wait e =
    receive_nothing w r s.response_flag e (serving d i s m tt v b)
receive_Phase w r (answered d i s m t v) at_wait e =
    let (ring, h, runs) = thread_receive_message i.sound w.thread s.holds s.response_flag in
    subst (λ y. Phase (after_thread w y)) (thread_result (sym runs ∙ e))
      (notified d
        (record {
          sound = i.sound;
          before = w.thread.msg;
          landed = refl;
          sized = refl;
          success = refl;
        })
        (record {
          holds = h;
          message_flag = s.message_flag;
          response_flag = refl;
          ready_flag = s.ready_flag;
          write_signals = s.write_signals;
          read_signals = omega (arith, pending-arrive 1 w.read_intr, s.read_signals);
          stays = s.stays;
        })
        m tt v)
receive_Phase w r (notified d i s m t v) at_wait e = absurd (subst ThreadFree at_wait t)
receive_Phase w r (received d i s m t v) at_wait e = absurd (subst ThreadFree at_wait t)

pub thread_wakes_Phase :
    (w : World)
    → Phase w
    → w.thread_pc ≡ ThreadPc.asleep
    → Phase (record w { thread_pc = ThreadPc.awake })
thread_wakes_Phase w (idle s m t v) at_sleep = absurd (subst ThreadFree at_sleep t)
thread_wakes_Phase w (posted d i s m t v) at_sleep = absurd (subst ThreadFree at_sleep t)
thread_wakes_Phase w (sending d i s m t v) at_sleep = cc
thread_wakes_Phase w (requested d i s m t v) at_sleep = requested d i s m tt v
thread_wakes_Phase w (serving d i s m t v b) at_sleep = serving d i s m tt v b
thread_wakes_Phase w (answered d i s m t v) at_sleep = cc
thread_wakes_Phase w (notified d i s m t v) at_sleep = absurd (subst ThreadFree at_sleep t)
thread_wakes_Phase w (received d i s m t v) at_sleep = absurd (subst ThreadFree at_sleep t)
