-- ===== src/LfshmNonblocking/Simulation.antt =====
-- lfshm_nonblocking.c against lfshm_blocking.c: the state of the one as a state of the other.
use ipc_benchmark.Prelude.{
  ℕ, ◌≡◌, refl, sym, ap, ◌∙◌, true, Option, none, some, ◌>>=◌, Bool-cases, inl, inr,
}
use mathlib.Core.Option.{map}
use ipc_benchmark.Prelude.Word.{u32_mod}
use ipc_benchmark.Memory.{copy_out}
use ipc_benchmark.Message.{max_msg_size, get_word, validate_message}
use ipc_benchmark.Ring
use ipc_benchmark.Ring.{Ring, Reply}
use ipc_benchmark.Futex.{WaitPc, SignalPc, wait_step}
use ipc_benchmark.LfshmBlocking as B
use ipc_benchmark.LfshmBlocking.{ServerPc}
use ipc_benchmark.LfshmBlocking.System as S
use ipc_benchmark.LfshmNonblocking.{
  LockFreeNonBlockingRingBuffer, World, ClientPc, UringPc, Input, ring_buffer_read,
  ring_buffer_write, server_read, server_clear, server_write, server_signal, server_act,
  client_prepare, client_write, client_signal, client_read, client_clear, client_act, woken_client,
  woken_server, uring_step,
}
use ipc_benchmark.LfshmNonblocking.Uring.{wait_of, uring_step_refines}
use ipc_benchmark.LfshmNonblocking.System.{
  Step, server_step, client_step, server_wakes, client_wakes, ErrorFree, Reach, here, next,
}

abbrev pub ring_of : LockFreeNonBlockingRingBuffer → B.LockFreeBlockingRingBuffer
ring_of rb = record {
  ring = rb.ring;
  server_futex = rb.server_futex;
  client_futex = rb.client_futex;
  ready = rb.ready;
  message_available = rb.message_available;
  response_available = rb.response_available;
}

abbrev pub client_of : ClientPc → B.ClientPc
client_of ClientPc.top = B.ClientPc.top
client_of ClientPc.writing = B.ClientPc.writing
client_of (ClientPc.signalling p) = B.ClientPc.signalling p
client_of ClientPc.checking_ready = B.ClientPc.checking_ready
client_of (ClientPc.waiting p) = B.ClientPc.waiting (wait_of p)
client_of (ClientPc.clearing size) = B.ClientPc.clearing size
client_of ClientPc.stopped = B.ClientPc.stopped

abbrev pub blocking : World → B.World
blocking w = record {
  rb = ring_of w.rb;
  server = w.server;
  server_buffer = w.server_buffer;
  client = client_of w.client;
  client_buffer = w.client_buffer;
  stats = w.stats;
}

abbrev pub input_of : Input → B.Input
input_of i = record { time_up = i.time_up; random = i.random; now = i.now; now' = i.now' }

-- A chain that begins with the same result on both sides.
map->>= {ℓ κ μ} :
    {A : Type ℓ} {B : Type κ} {C : Type μ} (h : B → C) (o : Option A) (f : A → Option B)
    (g : A → Option C)
    → ((a : A) → map h (f a) ≡ g a)
    → map h (o >>= f) ≡ (o >>= g)
map->>= h none f g e = refl
map->>= h (some a) f g e = e a

map->>=->>= {ℓ κ κ' μ μ'} :
    {A : Type ℓ} {B : Type κ} {B' : Type κ'} {C : Type μ} {C' : Type μ'} (h : C → C') (o : Option A)
    (k : A → Option B) (f : B → Option C) (k' : A → Option B') (f' : B' → Option C')
    → ((a : A) → map h (k a >>= f) ≡ (k' a >>= f'))
    → map h ((o >>= k) >>= f) ≡ ((o >>= k') >>= f')
map->>=->>= h none k f k' f' e = refl
map->>=->>= h (some a) k f k' f' e = e a

module _ (w : World) where
  server_read_sim : map blocking (server_read w) ≡ B.server_read (blocking w)
  unfolding server_read ring_buffer_read B.server_read B.ring_buffer_read
  server_read_sim =
      map->>=->>= blocking (Ring.ring_buffer_read u32_mod w.rb.ring max_msg_size) _ _ _ _
        (λ (reply, ring). elim (Bool-cases reply.success) [ inl e ↦ rw e refl | inr e ↦ rw e refl ])

  server_clear_sim :
      (size : ℕ) → map blocking (server_clear size w) ≡ B.server_clear size (blocking w)
  unfolding server_clear B.server_clear
  server_clear_sim size =
      map->>= blocking (validate_message max_msg_size w.server_buffer size) _ _ (λ valid. refl)

  server_write_sim :
      (size : ℕ) → map blocking (server_write size w) ≡ B.server_write size (blocking w)
  unfolding server_write ring_buffer_write B.server_write B.ring_buffer_write
  server_write_sim size =
      map->>=->>= blocking
        (Ring.ring_buffer_write u32_mod w.rb.ring (copy_out 0 size w.server_buffer)) _ _ _ _
        (λ (done, ring). refl)

  client_write_sim : map blocking (client_write w) ≡ B.client_write (blocking w)
  unfolding client_write ring_buffer_write B.client_write B.ring_buffer_write
  client_write_sim =
      map->>=->>= blocking
        (Ring.ring_buffer_write u32_mod w.rb.ring
          (copy_out 0 (get_word 4 w.client_buffer) w.client_buffer))
        _ _ _ _ (λ (done, ring). elim (Bool-cases done) [ inl e ↦ rw e refl | inr e ↦ rw e refl ])

  pub client_read_sim : map blocking (client_read w) ≡ B.client_read (blocking w)
  unfolding client_read ring_buffer_read B.client_read B.ring_buffer_read
  client_read_sim =
      map->>=->>= blocking (Ring.ring_buffer_read u32_mod w.rb.ring max_msg_size) _ _ _ _
        (λ (reply, ring). refl)

  client_clear_sim :
      (now size : ℕ) → map blocking (client_clear now size w) ≡ B.client_clear now size (blocking w)
  unfolding client_clear B.client_clear
  client_clear_sim now size =
      map->>= blocking (validate_message max_msg_size w.client_buffer size) _ _ (λ valid. refl)

  client_prepare_sim :
      (i : Input) → blocking (client_prepare i w) ≡ B.client_prepare (input_of i) (blocking w)
  unfolding client_prepare B.client_prepare
  client_prepare_sim i = elim (Bool-cases i.time_up) [ inl e ↦ rw e refl | inr e ↦ rw e refl ]

pub woken_client_of : (p : ClientPc) → client_of (woken_client p) ≡ B.woken_client (client_of p)
woken_client_of ClientPc.top = refl
woken_client_of ClientPc.writing = refl
woken_client_of (ClientPc.signalling p) = refl
woken_client_of ClientPc.checking_ready = refl
woken_client_of (ClientPc.waiting p) = ap B.ClientPc.waiting (uring_step_refines true 0 p).1
woken_client_of (ClientPc.clearing size) = refl
woken_client_of ClientPc.stopped = refl

pub woken_server_same : (p : ServerPc) → woken_server p ≡ B.woken_server p
woken_server_same (ServerPc.waiting p) = refl
woken_server_same (ServerPc.clearing size) = refl
woken_server_same (ServerPc.writing size) = refl
woken_server_same (ServerPc.signalling p) = refl

server_signal_sim :
    (p : SignalPc) (w : World) → blocking (server_signal p w) ≡ B.server_signal p (blocking w)
unfolding server_signal B.server_signal
server_signal_sim SignalPc.set_flag w = refl
server_signal_sim SignalPc.add_one w = refl
server_signal_sim SignalPc.wake w =
    ap (λ c. record (blocking w) { client = c; server = ServerPc.waiting WaitPc.check })
      (woken_client_of w.client)

client_signal_sim :
    (p : SignalPc) (w : World) → blocking (client_signal p w) ≡ B.client_signal p (blocking w)
unfolding client_signal B.client_signal
client_signal_sim SignalPc.set_flag w = refl
client_signal_sim SignalPc.add_one w = refl
client_signal_sim SignalPc.wake w =
    ap (λ s. record (blocking w) { server = s; client = B.ClientPc.checking_ready })
      (woken_server_same w.server)

pub server_act_sim :
    (p : ServerPc) (w : World) → map blocking (server_act p w) ≡ B.server_act p (blocking w)
unfolding server_act B.server_act
server_act_sim (ServerPc.waiting WaitPc.met) w = server_read_sim w
server_act_sim (ServerPc.waiting WaitPc.check) w = refl
server_act_sim (ServerPc.waiting WaitPc.load_word) w = refl
server_act_sim (ServerPc.waiting (WaitPc.recheck val)) w = refl
server_act_sim (ServerPc.waiting (WaitPc.futex_wait val)) w = refl
server_act_sim (ServerPc.waiting WaitPc.asleep) w = refl
server_act_sim (ServerPc.clearing size) w = server_clear_sim w size
server_act_sim (ServerPc.writing size) w = server_write_sim w size
server_act_sim (ServerPc.signalling p) w = ap some (server_signal_sim p w)

module _ (i : Input) (ok : i.uring_ok ≡ true) (w : World) where
  wait_sim :
      (p : UringPc)
      → record (blocking w) {
        client =
            B.ClientPc.waiting
              (wait_of (uring_step i.uring_ok w.rb.response_available w.rb.client_futex p));
      }
        ≡ record (blocking w) {
          client =
              B.ClientPc.waiting (wait_step w.rb.response_available w.rb.client_futex (wait_of p));
        }
  wait_sim p =
      ap (λ c. record (blocking w) { client = B.ClientPc.waiting c })
        (rw ok (uring_step_refines w.rb.response_available w.rb.client_futex p).0)

  pub client_act_sim :
      (p : ClientPc)
      → map blocking (client_act i p w) ≡ B.client_act (input_of i) (client_of p) (blocking w)
  unfolding client_act B.client_act
  client_act_sim ClientPc.top = ap some (client_prepare_sim w i)
  client_act_sim ClientPc.writing = client_write_sim w
  client_act_sim (ClientPc.signalling p) = ap some (client_signal_sim p w)
  client_act_sim ClientPc.checking_ready = elim (Bool-cases w.rb.ready) [
    | inl e ↦ rw e refl
    | inr e ↦ rw e refl
  ]
  client_act_sim (ClientPc.waiting (UringPc.returned met)) = client_read_sim w
  client_act_sim (ClientPc.waiting UringPc.check) = ap some (wait_sim UringPc.check)
  client_act_sim (ClientPc.waiting UringPc.load_word) = ap some (wait_sim UringPc.load_word)
  client_act_sim (ClientPc.waiting (UringPc.recheck val)) = ap some (wait_sim (UringPc.recheck val))
  client_act_sim (ClientPc.waiting (UringPc.submit val)) = ap some (wait_sim (UringPc.submit val))
  client_act_sim (ClientPc.waiting UringPc.in_flight) = ap some (wait_sim UringPc.in_flight)
  client_act_sim (ClientPc.clearing size) = client_clear_sim w i.now size
  client_act_sim ClientPc.stopped = refl

-- Every step of lfshm_nonblocking.c in which liburing reports no error is, on the state without what
-- belongs to io_uring, a step of lfshm_blocking.c.
pub Step-blocking :
    {v w : World} → (st : Step v w) → ErrorFree st → S.Step (blocking v) (blocking w)
Step-blocking {v} (server_step e) free =
    S.server_step (sym (server_act_sim v.server v) ∙ ap (map blocking) e)
Step-blocking {v} (client_step i e) free =
    S.client_step (input_of i) (sym (client_act_sim i free v v.client) ∙ ap (map blocking) e)
Step-blocking (server_wakes at e) free = S.server_wakes at (ap blocking e)
Step-blocking (client_wakes at e) free = S.client_wakes (ap client_of at) (ap blocking e)

pub Reach-blocking : {v w : World} → Reach v w → S.Reach (blocking v) (blocking w)
Reach-blocking here = S.here
Reach-blocking (next r st free) = S.next (Reach-blocking r) (Step-blocking st free)
