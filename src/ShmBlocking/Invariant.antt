-- ===== src/ShmBlocking/Invariant.antt =====
-- Where an exchange of shm_blocking.c stands, in terms of the ring, the flags and the two processes.
use ipc_benchmark.Prelude.{ℕ, ◌≡◌, refl, sym, ◌∙◌, ap, List, some, length, arith, ◌⊎◌, inl, inr}
use mathlib.Core.Path.{subst}
use ipc_benchmark.Memory.{copy_out}
use ipc_benchmark.Memory.Region.{copy_out-copy_in, length-copy_out}
use ipc_benchmark.Message.Delivery.{IsSound, IsSound-copy_out, prepared-IsMessage}
use ipc_benchmark.ShmBlocking.{
  ServerPc, ClientPc, ServerResult, ClientResult, server_take, server_reply, client_send,
  client_receive, client_prepare,
}
use ipc_benchmark.ShmBlocking.Sections.{
  server_take_message, server_reply_message, client_receive_message, client_send_message,
  server_take_nothing, client_receive_nothing,
}
use ipc_benchmark.ShmBlocking.System.{
  World, Step, take, reply, server_wakes, prepare, finish, send, receive, client_wakes, Reach, here,
  next, wake_server, wake_client, after_server, after_client,
}
use ipc_benchmark.ShmBlocking.Phase.{
  IsPrepared, ServerFree, ServerRuns, ClientFree, ClientWaits, Phase, idle, requested, serving,
  answered,
}

pub some_same : {r s : ServerResult} → some r ≡ some s → r ≡ s
some_same e = cc

pub client_same : {r s : ClientResult} → some r ≡ some s → r ≡ s
client_same e = cc

take_Phase :
    (w : World) (r : ServerResult)
    → Phase w
    → (w.server ≡ ServerPc.top) ⊎ (w.server ≡ ServerPc.awake)
    → server_take w.rb w.server_buffer ≡ some r
    → Phase (after_server w r)
take_Phase w r (idle h f c s) at_lock e =
    subst (λ x. Phase (after_server w x))
      (some_same (sym (server_take_nothing w.rb w.server_buffer f.message_flag) ∙ e))
      (idle h f c tt)
take_Phase w r (requested d t h f c s) at_lock e =
    let (ring, h', runs) = server_take_message t.sound w.server_buffer h f.message_flag in
    subst (λ x. Phase (after_server w x)) (some_same (sym runs ∙ e))
      (serving d t h'
        (record { message_flag = refl; response_flag = f.response_flag; ready_flag = f.ready_flag })
        c refl (copy_out-copy_in 0 d w.server_buffer))
take_Phase w r (serving d t h f c s b) at_lock e = elim at_lock [ inl p ↦ cc | inr p ↦ cc ]
take_Phase w r (answered d t h f c s) at_lock e =
    subst (λ x. Phase (after_server w x))
      (some_same (sym (server_take_nothing w.rb w.server_buffer f.message_flag) ∙ e))
      (answered d t h f c tt)

-- A process that is woken looks at its flag.
wake_client_waits : (p : ClientPc) → ClientWaits p → wake_client p ≡ ClientPc.awake
wake_client_waits ClientPc.top c = absurd c
wake_client_waits ClientPc.sending c = absurd c
wake_client_waits ClientPc.asleep c = refl
wake_client_waits ClientPc.awake c = refl
wake_client_waits ClientPc.stopped c = absurd c

pub wake_server_runs : (p : ServerPc) → ServerFree p → ServerRuns (wake_server p)
wake_server_runs ServerPc.top s = tt
wake_server_runs ServerPc.asleep s = tt
wake_server_runs ServerPc.awake s = tt
wake_server_runs (ServerPc.serving size) s = absurd s
wake_server_runs ServerPc.stopped s = absurd s

reply_Phase :
    (w : World) (size : ℕ) (r : ServerResult)
    → Phase w
    → w.server ≡ ServerPc.serving size
    → server_reply size w.rb w.server_buffer ≡ some r
    → Phase (after_server w r)
reply_Phase w size r (idle h f c s) at_reply e = absurd (subst ServerFree at_reply s)
reply_Phase w size r (requested d t h f c s) at_reply e = absurd (subst ServerRuns at_reply s)
reply_Phase w size r (serving d t h f c s b) at_reply e =
    let (ring, h', runs) = server_reply_message t.sound w.server_buffer h b in
    let same_size : size ≡ length d = cc in
    subst (λ x. Phase (after_server w x))
      (some_same (sym runs ∙ subst (λ n. server_reply n w.rb w.server_buffer ≡ some r) same_size e))
      (answered d t h'
        (record { message_flag = f.message_flag; response_flag = refl; ready_flag = f.ready_flag })
        (wake_client_waits w.client c) tt)
reply_Phase w size r (answered d t h f c s) at_reply e = absurd (subst ServerFree at_reply s)

send_Phase :
    (w : World) (now : ℕ) (r : ClientResult)
    → Phase w
    → w.client ≡ ClientPc.sending
    → client_send now w.rb w.client_buffer w.stats ≡ some r
    → Phase (after_client w r)
send_Phase w now r (idle h f c s) at_send e =
    let (ring, h', runs) =
      client_send_message sound w.client_buffer now w.stats h f.ready_flag f.response_flag
        (p.message.sized ∙ sym d_length) (ap (λ n. copy_out 0 n w.client_buffer) d_length) in
    subst (λ x. Phase (after_client w x)) (client_same (sym runs ∙ e))
      (requested d
        (record { sound = sound; sent = ap (λ n. copy_out 0 n w.client_buffer) d_length }) h'
        (record { message_flag = refl; response_flag = f.response_flag; ready_flag = f.ready_flag })
        tt (wake_server_runs w.server s))
  where
    p : IsPrepared w.client_buffer
    p = subst (λ x. ClientFree x w.client_buffer) at_send c

    d : List ℕ
    d = copy_out 0 p.total w.client_buffer

    d_length : length d ≡ p.total
    d_length = length-copy_out 0 p.total w.client_buffer

    sound : IsSound d
    sound = IsSound-copy_out w.client_buffer p.total p.long p.short p.message
send_Phase w now r (requested d t h f c s) at_send e = absurd (subst ClientWaits at_send c)
send_Phase w now r (serving d t h f c s b) at_send e = absurd (subst ClientWaits at_send c)
send_Phase w now r (answered d t h f c s) at_send e = cc

receive_Phase :
    (w : World) (now : ℕ) (r : ClientResult)
    → Phase w
    → w.client ≡ ClientPc.awake
    → client_receive now w.rb w.client_buffer w.stats ≡ some r
    → Phase (after_client w r)
receive_Phase w now r (idle h f c s) at_wait e =
    absurd (subst (λ x. ClientFree x w.client_buffer) at_wait c)
receive_Phase w now r (requested d t h f c s) at_wait e =
    subst (λ x. Phase (after_client w x))
      (client_same
        (sym (client_receive_nothing now w.rb w.client_buffer w.stats f.response_flag) ∙ e))
      (requested d t h f tt s)
receive_Phase w now r (serving d t h f c s b) at_wait e =
    subst (λ x. Phase (after_client w x))
      (client_same
        (sym (client_receive_nothing now w.rb w.client_buffer w.stats f.response_flag) ∙ e))
      (serving d t h f tt s b)
receive_Phase w now r (answered d t h f c s) at_wait e =
    let (ring, h', runs) =
      client_receive_message t.sound w.client_buffer now w.stats h f.response_flag in
    subst (λ x. Phase (after_client w x)) (client_same (sym runs ∙ e))
      (idle h'
        (record { message_flag = f.message_flag; response_flag = refl; ready_flag = f.ready_flag })
        tt s)

prepare_Phase :
    (w : World) (random now now' : ℕ)
    → Phase w
    → w.client ≡ ClientPc.top
    → Phase (record w {
      client = ClientPc.sending;
      client_buffer = client_prepare random now now' w.client_buffer;
    })
unfolding client_prepare
prepare_Phase w random now now' (idle h f c s) at_top =
    let (total, low, high, message) = prepared-IsMessage random now now' w.client_buffer in
    idle h f (record { total = total; long = omega (arith, low); short = high; message = message })
      s
prepare_Phase w random now now' (requested d t h f c s) at_top = absurd (subst ClientWaits at_top c)
prepare_Phase w random now now' (serving d t h f c s b) at_top = absurd (subst ClientWaits at_top c)
prepare_Phase w random now now' (answered d t h f c s) at_top = cc

finish_Phase :
    (w : World) → Phase w → w.client ≡ ClientPc.top → Phase (record w { client = ClientPc.stopped })
finish_Phase w (idle h f c s) at_top = idle h f tt s
finish_Phase w (requested d t h f c s) at_top = absurd (subst ClientWaits at_top c)
finish_Phase w (serving d t h f c s b) at_top = absurd (subst ClientWaits at_top c)
finish_Phase w (answered d t h f c s) at_top = cc

server_wakes_Phase :
    (w : World)
    → Phase w
    → w.server ≡ ServerPc.asleep
    → Phase (record w { server = ServerPc.awake })
server_wakes_Phase w (idle h f c s) asleep = idle h f c tt
server_wakes_Phase w (requested d t h f c s) asleep = requested d t h f c tt
server_wakes_Phase w (serving d t h f c s b) asleep = cc
server_wakes_Phase w (answered d t h f c s) asleep = answered d t h f c tt

client_wakes_Phase :
    (w : World)
    → Phase w
    → w.client ≡ ClientPc.asleep
    → Phase (record w { client = ClientPc.awake })
client_wakes_Phase w (idle h f c s) asleep =
    absurd (subst (λ x. ClientFree x w.client_buffer) asleep c)
client_wakes_Phase w (requested d t h f c s) asleep = requested d t h f tt s
client_wakes_Phase w (serving d t h f c s b) asleep = serving d t h f tt s b
client_wakes_Phase w (answered d t h f c s) asleep = cc

-- Every step of the two processes keeps the phases: at most one message is in the ring, it belongs
-- to the process whose flag is set, and a process whose flag is set does not sleep.
pub Step-Phase : {v w : World} → Step v w → Phase v → Phase w
Step-Phase {v} (take at e) p = take_Phase v _ p at e
Step-Phase {v} (reply size at e) p = reply_Phase v size _ p at e
Step-Phase {v} (server_wakes at) p = server_wakes_Phase v p at
Step-Phase {v} (prepare random now now' at) p = prepare_Phase v random now now' p at
Step-Phase {v} (finish at) p = finish_Phase v p at
Step-Phase {v} (send now at e) p = send_Phase v now _ p at e
Step-Phase {v} (receive now at e) p = receive_Phase v now _ p at e
Step-Phase {v} (client_wakes at) p = client_wakes_Phase v p at

pub Reach-Phase : {v w : World} → Phase v → Reach v w → Phase w
Reach-Phase p here = p
Reach-Phase p (next r st) = Step-Phase st (Reach-Phase p r)
