-- ===== src/LfshmNonblocking/Failure.antt =====
-- What the client of lfshm_nonblocking.c does where its wait reports an error.
use ipc_benchmark.Prelude.{
  ℕ, ◌≤◌, ◌≡◌, refl, ap, ◌∙◌, ◌>>=◌, Option, run_with, List, [], ◌∷◌, some, true, false, length,
  arith,
}
use ipc_benchmark.Prelude.Word.{u32_mod}
use ipc_benchmark.Memory.{copy_in, copy_out}
use ipc_benchmark.Message.{max_msg_size, get_word}
use ipc_benchmark.Message.Delivery.{IsSound, IsSound-validates}
use ipc_benchmark.Stats.{record_response}
use ipc_benchmark.Ring.IsQueue.{IsQueue}
use ipc_benchmark.Ring.Exchange.{Put, read_front, write_empty}
use ipc_benchmark.Futex.{SignalPc, bump}
use ipc_benchmark.LfshmNonblocking.{
  LockFreeNonBlockingRingBuffer, World, ClientPc, UringPc, ring_buffer_read, ring_buffer_write,
  client_write, client_read, client_clear, client_signal, client_act, uring_step, woken_server,
  Input,
}

pub record Holding (rb : LockFreeNonBlockingRingBuffer) (q : List (List ℕ)) : Type 0 where
  pub queue : IsQueue u32_mod rb.ring q
  pub large : 16384 ≤ rb.ring.size

put_message :
    {rb : LockFreeNonBlockingRingBuffer} {d : List ℕ}
    → IsSound d
    → Holding rb []
    → Put u32_mod rb.ring d
put_message sound h =
    write_empty h.queue _ (omega (arith, sound.short, h.large))
      (omega (arith, sound.short, h.large))

abbrev next_access : Input → World → Option World
next_access i w = client_act i w.client w

-- The client's accesses while the server makes none, one for each input; `none` is a fault.
unfoldable pub client_accesses : List Input → World → Option World
client_accesses inputs w = run_with next_access inputs w

-- The inputs from the write of the message to the submission of the wait, and those after it.
abbrev pub inputs_to_wait : (ℕ → Input) → List Input
inputs_to_wait i = i 0 ∷ i 1 ∷ i 2 ∷ i 3 ∷ i 4 ∷ i 5 ∷ i 6 ∷ i 7 ∷ i 8 ∷ []

abbrev pub inputs_behind : (ℕ → Input) → List Input
inputs_behind i = i 9 ∷ i 10 ∷ []

-- The client's wait for the response to `d` fails, and what it does then.
pub record CountsUnserved (i : ℕ → Input) (d : List ℕ) (w : World) : Type 0 where
  pub waited : World
  pub waits : client_accesses (inputs_to_wait i) w ≡ some waited
  pub wait_fails : waited.client ≡ ClientPc.waiting (UringPc.returned false)
  pub server_only_woken : waited.server ≡ woken_server w.server
  pub in_ring : Holding waited.rb (d ∷ [])
  pub announced : waited.rb.message_available ≡ true
  pub unanswered : waited.rb.response_available ≡ false
  pub counted : World
  pub goes_on : client_accesses (inputs_behind i) waited ≡ some counted
  pub at_top : counted.client ≡ ClientPc.top
  pub counts :
      counted.stats ≡ record_response (i 10).now (length d) (copy_in 0 d w.client_buffer) w.stats
  pub drained : Holding counted.rb []
  pub still_announced : counted.rb.message_available ≡ true

-- The client of lfshm_nonblocking.c is about to write the message `d` into an empty ring that is ready,
-- with no response there, and the server makes no access meanwhile. It writes and signals, finds no
-- response, and the calls of liburing for its wait fail, so that the wait returns false, with the request
-- in the ring and its flag up. The client goes on all the same: it takes its own message back out of the
-- ring, and counts an operation that the server never served. The ring is left empty, while the message
-- flag is still up.
pub failed_wait-CountsUnserved :
    (w : World) (d : List ℕ) (i : ℕ → Input)
    → w.client ≡ ClientPc.writing
    → w.rb.ready ≡ true
    → w.rb.response_available ≡ false
    → Holding w.rb []
    → IsSound d
    → get_word 4 w.client_buffer ≡ length d
    → copy_out 0 (length d) w.client_buffer ≡ d
    → (i 8).uring_ok ≡ false
    → CountsUnserved i d w
unfolding client_accesses run_with client_act client_write client_read client_clear client_signal
    uring_step ring_buffer_read ring_buffer_write
failed_wait-CountsUnserved w d i at ready none_there h sound sized stands fails =
    let t = put_message sound h in
    let back = read_front t.queue max_msg_size (omega (arith, sound.short)) in
    let large : 16384 ≤ t.ring.size = omega (arith, t.size, h.large) in
    let later : List Input = i 1 ∷ i 2 ∷ i 3 ∷ i 4 ∷ i 5 ∷ i 6 ∷ i 7 ∷ i 8 ∷ [] in
    let written : World = record w {
      rb = record w.rb { ring = t.ring };
      client = ClientPc.signalling SignalPc.set_flag;
    } in
    let writes : client_write w ≡ some written = rw sized (rw stands (rw t.runs refl)) in
    let waited : World = record w {
      rb = record w.rb {
        ring = t.ring;
        message_available = true;
        server_futex = bump w.rb.server_futex;
      };
      server = woken_server w.server;
      client = ClientPc.waiting (UringPc.returned false);
    } in
    let buffer = copy_in 0 d w.client_buffer in
    record {
      waited = waited;
      waits =
          ap (λ p. client_act (i 0) p w >>= run_with next_access later) at
          ∙ ap (λ o. o >>= run_with next_access later) writes
          ∙ rw ready (rw none_there (rw fails refl));
      wait_fails = refl;
      server_only_woken = refl;
      in_ring = record { queue = t.queue; large = large };
      announced = refl;
      unanswered = none_there;
      counted = record waited {
        rb = record waited.rb { ring = back.ring; response_available = false };
        client_buffer = buffer;
        client = ClientPc.top;
        stats = record_response (i 10).now (length d) buffer w.stats;
      };
      goes_on = rw back.runs (rw (IsSound-validates sound w.client_buffer) refl);
      at_top = refl;
      counts = refl;
      drained = record { queue = back.queue; large = omega (arith, back.size, large) };
      still_announced = refl;
    }
