-- ===== src/ShmNonblocking/MainSteps.antt =====
-- The steps of the main thread of shm_nonblocking.c keep the phases of an exchange.
use ipc_benchmark.Prelude.{ℕ, ◌≡◌, refl, sym, List, Bool, true, some, length, arith, if◌then◌else◌}
use mathlib.Core.Path.{subst}
use ipc_benchmark.Stats.{Stats, record_response}
use ipc_benchmark.Message.Delivery.{
  IsSound-validates, message_bytes, length-message_bytes, message_bytes_stand, prepared-IsSound,
}
use ipc_benchmark.Interrupt.Traffic.{
  Channel, pending, arrive, take_value, take_value_none, take_value_one, pending-arrive,
}
use ipc_benchmark.ShmNonblocking.{ThreadData, main_receive}
use ipc_benchmark.ShmNonblocking.System.{World, MainPc, main_prepare}
use ipc_benchmark.ShmNonblocking.Phase.{
  MainFree, IsReturned, Phase, idle, posted, sending, requested, serving, answered, notified,
  received,
}

pub prepare_Phase :
    (w : World) (random now now' : ℕ)
    → Phase w
    → w.main ≡ MainPc.top
    → Phase (main_prepare random now now' w)
unfolding main_prepare
prepare_Phase w random now now' (idle s m t v) at_top =
    let m' = (main_prepare random now now' w).thread.msg in
    idle s
      (
        message_bytes m',
        record {
          sound = prepared-IsSound random now now' w.thread.msg;
          sized = sym (length-message_bytes m');
          stands = message_bytes_stand m';
        },
      )
      t v
prepare_Phase w random now now' (posted d i s m t v) at_top = cc
prepare_Phase w random now now' (sending d i s m t v) at_top = cc
prepare_Phase w random now now' (requested d i s m t v) at_top = cc
prepare_Phase w random now now' (serving d i s m t v b) at_top = cc
prepare_Phase w random now now' (answered d i s m t v) at_top = cc
prepare_Phase w random now now' (notified d i s m t v) at_top = cc
prepare_Phase w random now now' (received d i s m t v) at_top = cc

pub post_Phase :
    (w : World)
    → Phase w
    → w.main ≡ MainPc.posting
    → Phase (record w { main = MainPc.waits_read; write_intr = arrive 1 w.write_intr })
post_Phase w (idle s m t v) at_post =
    let (d, i) = subst (λ x. MainFree x w.thread) at_post m in
    posted d i
      (record {
        holds = s.holds;
        message_flag = s.message_flag;
        response_flag = s.response_flag;
        ready_flag = s.ready_flag;
        write_signals = omega (arith, pending-arrive 1 w.write_intr, s.write_signals);
        read_signals = s.read_signals;
        stays = s.stays;
      })
      refl t v
post_Phase w (posted d i s m t v) at_post = cc
post_Phase w (sending d i s m t v) at_post = cc
post_Phase w (requested d i s m t v) at_post = cc
post_Phase w (serving d i s m t v b) at_post = cc
post_Phase w (answered d i s m t v) at_post = cc
post_Phase w (notified d i s m t v) at_post = cc
post_Phase w (received d i s m t v) at_post = cc

pub notice_Phase :
    (w : World) (c : Channel)
    → Phase w
    → w.main ≡ MainPc.waits_read
    → take_value w.read_intr ≡ some c
    → Phase (record w { main = MainPc.receiving; read_intr = c })
notice_Phase w c (idle s m t v) at_wait e = absurd (subst (λ x. MainFree x w.thread) at_wait m)
notice_Phase w c (posted d i s m t v) at_wait e =
    absurd (take_value_none w.read_intr c s.read_signals e)
notice_Phase w c (sending d i s m t v) at_wait e =
    absurd (take_value_none w.read_intr c s.read_signals e)
notice_Phase w c (requested d i s m t v) at_wait e =
    absurd (take_value_none w.read_intr c s.read_signals e)
notice_Phase w c (serving d i s m t v b) at_wait e =
    absurd (take_value_none w.read_intr c s.read_signals e)
notice_Phase w c (answered d i s m t v) at_wait e =
    absurd (take_value_none w.read_intr c s.read_signals e)
notice_Phase w c (notified d i s m t v) at_wait e =
    let (c', takes, empty) = take_value_one w.read_intr s.read_signals in
    let same : c' ≡ c = cc in
    received d i
      (record {
        holds = s.holds;
        message_flag = s.message_flag;
        response_flag = s.response_flag;
        ready_flag = s.ready_flag;
        write_signals = s.write_signals;
        read_signals = subst (λ x. pending x ≡ 0) same empty;
        stays = s.stays;
      })
      refl t v
notice_Phase w c (received d i s m t v) at_wait e = cc

pub main_receive_returned :
    {d : List ℕ} {thread : ThreadData}
    → IsReturned thread d
    → (now : ℕ) (stats : Stats)
    → main_receive now thread stats ≡ some (true, record_response now (length d) thread.msg stats)
unfolding main_receive
main_receive_returned i now stats =
    rw (i.success, i.sized, i.landed, IsSound-validates i.sound i.before) refl

-- What the main thread has counted, it has counted as a success.
counted_once :
    {d : List ℕ} {thread : ThreadData}
    → IsReturned thread d
    → (now : ℕ) (stats stats' : Stats) (goes_on : Bool)
    → main_receive now thread stats ≡ some (goes_on, stats')
    → goes_on ≡ true
counted_once i now stats stats' goes_on e = let runs = main_receive_returned i now stats in cc

pub count_Phase :
    (w : World) (now : ℕ) (goes_on : Bool) (stats : Stats)
    → Phase w
    → w.main ≡ MainPc.receiving
    → main_receive now w.thread w.stats ≡ some (goes_on, stats)
    → Phase (record w { main = if goes_on then MainPc.top else MainPc.leaving; stats = stats })
count_Phase w now goes_on stats (idle s m t v) at_read e =
    absurd (subst (λ x. MainFree x w.thread) at_read m)
count_Phase w now goes_on stats (posted d i s m t v) at_read e = cc
count_Phase w now goes_on stats (sending d i s m t v) at_read e = cc
count_Phase w now goes_on stats (requested d i s m t v) at_read e = cc
count_Phase w now goes_on stats (serving d i s m t v b) at_read e = cc
count_Phase w now goes_on stats (answered d i s m t v) at_read e = cc
count_Phase w now goes_on stats (notified d i s m t v) at_read e = cc
count_Phase w now goes_on stats (received d i s m t v) at_read e =
    rw (counted_once i now w.stats stats goes_on e) (idle s tt t v)
