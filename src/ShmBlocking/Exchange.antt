-- ===== src/ShmBlocking/Exchange.antt =====
-- What an exchange over shm_blocking.c gives its users: the response, and the work that is always left
-- to do.
use ipc_benchmark.Prelude.{
  ℕ, ◌≡◌, ◌≢◌, refl, sym, ◌∙◌, ap, List, [], ◌∷◌, some, true, false, length, inl, inr,
}
use mathlib.Core.Path.{subst}
use ipc_benchmark.Memory.{copy_out}
use ipc_benchmark.Memory.Region.{copy_out-copy_in, length-copy_out}
use ipc_benchmark.Stats.{record_response}
use ipc_benchmark.Message.Delivery.{IsSound, IsSound-copy_out}
use ipc_benchmark.ShmBlocking.{ServerPc, ClientPc, ClientResult, client_receive}
use ipc_benchmark.ShmBlocking.Sections.{
  Holding, server_take_message, server_reply_message, client_receive_message, client_send_message,
}
use ipc_benchmark.ShmBlocking.System.{
  World, Step, take, reply, server_wakes, prepare, finish, send, receive, client_wakes, Reach,
}
use ipc_benchmark.ShmBlocking.Phase.{
  Phase, idle, requested, serving, answered, ClientFree, ServerRuns, Flags,
}
use ipc_benchmark.ShmBlocking.Invariant.{client_same, Reach-Phase}

-- The client's buffer held the message `d`, its response is `d` again, and it is counted.
pub record Echoed (now : ℕ) (w : World) (r : ClientResult) : Type 0 where
  pub message : List ℕ
  pub sound : IsSound message
  pub sent : copy_out 0 (length message) w.client_buffer ≡ message
  pub received : copy_out 0 (length message) r.buffer ≡ message
  pub counted : r.stats ≡ record_response now (length message) r.buffer w.stats
  pub goes_on : r.pc ≡ ClientPc.top
  pub drained : Holding r.rb []

echo_result : (now : ℕ) (w : World) {r s : ClientResult} → r ≡ s → Echoed now w r → Echoed now w s
echo_result now w e h = subst (λ x. Echoed now w x) e h

-- From any state of an exchange and however the two processes interleave: where the client, woken,
-- finds the response flag up, it reads back exactly the bytes that it sent, which are a valid message;
-- it counts them once, goes on, and leaves the ring empty.
pub response_is_echo :
    {v w : World}
    → Phase v
    → Reach v w
    → (now : ℕ) (r : ClientResult) → w.client ≡ ClientPc.awake
    → w.rb.response_available ≡ true
    → client_receive now w.rb w.client_buffer w.stats ≡ some r
    → Echoed now w r
response_is_echo {w = w} start reach now r woken up e = go (Reach-Phase start reach)
  where
    go : Phase w → Echoed now w r
    go (idle h f c s) = cc
    go (requested d t h f c s) = cc
    go (serving d t h f c s b) = cc
    go (answered d t h f c s) =
        let (ring, h', runs) = client_receive_message t.sound w.client_buffer now w.stats h up in
        echo_result now w (client_same (sym runs ∙ e)) (record {
          message = d;
          sound = t.sound;
          sent = t.sent;
          received = copy_out-copy_in 0 d w.client_buffer;
          counted = refl;
          goes_on = refl;
          drained = h';
        })

-- A step that is not a wakeup for no reason.
abbrev pub IsWork : {v w : World} → Step v w → Type 0
IsWork (take at e) = Unit
IsWork (reply size at e) = Unit
IsWork (server_wakes at) = ⊥
IsWork (prepare random now now' at) = Unit
IsWork (finish at) = Unit
IsWork (send now at e) = Unit
IsWork (receive now at e) = Unit
IsWork (client_wakes at) = ⊥

-- No deadlock and no lost wakeup: from any state of an exchange, however the processes interleave,
-- as long as the client has not stopped, one of the two can do its next piece of work, without a
-- spurious wakeup and without a fault.
pub always-IsWork :
    {v w : World}
    → Phase v
    → Reach v w
    → w.client ≢ ClientPc.stopped
    → (w' : World) × (st : Step w w') × IsWork st
always-IsWork {w = w} start reach running = go (Reach-Phase start reach)
  where
    begin :
        (p : ClientPc)
        → w.client ≡ p
        → ClientFree p w.client_buffer
        → Holding w.rb []
        → Flags w.rb false false
        → (w' : World) × (st : Step w w') × IsWork st
    begin ClientPc.top at c h f = (_, prepare 0 0 0 at, tt)
    begin ClientPc.sending at p h f =
        let size = length-copy_out 0 p.total w.client_buffer in
        let sound = IsSound-copy_out w.client_buffer p.total p.long p.short p.message in
        let (ring, h', runs) =
          client_send_message sound w.client_buffer 0 w.stats h f.ready_flag f.response_flag
            (p.message.sized ∙ sym size) (ap (λ n. copy_out 0 n w.client_buffer) size) in
        (_, send 0 at runs, tt)
    begin ClientPc.asleep at c h f = absurd c
    begin ClientPc.awake at c h f = absurd c
    begin ClientPc.stopped at c h f = absurd (running at)

    serve :
        (p : ServerPc) (d : List ℕ)
        → w.server ≡ p
        → ServerRuns p
        → IsSound d
        → Holding w.rb (d ∷ [])
        → w.rb.message_available ≡ true
        → (w' : World) × (st : Step w w') × IsWork st
    serve ServerPc.top d at c s h up =
        let (ring, h', runs) = server_take_message s w.server_buffer h up in
        (_, take (inl at) runs, tt)
    serve ServerPc.asleep d at c s h up = absurd c
    serve ServerPc.awake d at c s h up =
        let (ring, h', runs) = server_take_message s w.server_buffer h up in
        (_, take (inr at) runs, tt)
    serve (ServerPc.serving size) d at c s h up = absurd c
    serve ServerPc.stopped d at c s h up = absurd c

    go : Phase w → (w' : World) × (st : Step w w') × IsWork st
    go (idle h f c s) = begin w.client refl c h f
    go (requested d t h f c s) = serve w.server d refl s t.sound h f.message_flag
    go (serving d t h f c s b) =
        let (ring, h', runs) = server_reply_message t.sound w.server_buffer h b in
        (_, reply (length d) s runs, tt)
    go (answered d t h f c s) =
        let (ring, h', runs) =
          client_receive_message t.sound w.client_buffer 0 w.stats h f.response_flag in
        (_, receive 0 c runs, tt)
