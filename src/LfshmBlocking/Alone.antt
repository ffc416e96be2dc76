-- ===== src/LfshmBlocking/Alone.antt =====
-- The client of lfshm_blocking.c by itself, while `ready` is down: it stops.
use ipc_benchmark.Prelude.{
  ℕ, ◌≡◌, ◌≢◌, refl, sym, ap, ◌∙◌, true, false, Option, some, List, [], ◌∷◌, length, ◌≤◌, ◌==◌,
  ==_iff, if◌then◌else◌, Bool-cases, run_with, StopsWithin, stopped-StopsWithin, more-StopsWithin,
  run_with-StopsWithin, inl, inr, arith,
}
use mathlib.Core.Path.{subst}
use ipc_benchmark.Memory.{copy_in, copy_out}
use ipc_benchmark.Message.{random_message, set_long}
use ipc_benchmark.Stats.{record_response}
use ipc_benchmark.Memory.Region.{length-copy_out}
use ipc_benchmark.Message.Delivery.{IsSound, IsSound-copy_out, prepared-IsMessage}
use ipc_benchmark.Futex.{WaitPc, SignalPc, wait_step}
use ipc_benchmark.LfshmBlocking.{World, ClientPc, Input, client_prepare, client_signal, client_act}
use ipc_benchmark.LfshmBlocking.Phase.{Holding, IsPrepared, Landed}
use ipc_benchmark.LfshmBlocking.Calls.{
  client_write_message, client_read_message, client_clear_message,
}
use ipc_benchmark.LfshmBlocking.Invariant.{client_at}

-- The client's next access, or none once it has stopped.
unfoldable pub client_once : Input → ClientPc → World → Option World
client_once i ClientPc.stopped w = some w
client_once i p w = client_act i p w

abbrev client_next : Input → World → Option World
client_next i w = client_once i w.client w

-- The client by itself, one access for each input; `none` is a fault.
unfoldable pub client_alone : List Input → World → Option World
client_alone inputs w = run_with client_next inputs w

abbrev HasStopped : World → Type 0
HasStopped w = w.client ≡ ClientPc.stopped

abbrev pub StopsIn : ℕ → World → Type 0
StopsIn = StopsWithin client_next HasStopped

stays : (i : Input) (w : World) → HasStopped w → client_next i w ≡ some w
unfolding client_once
stays i w e = rw e refl

pub stays_stopped : (n : ℕ) (w : World) → HasStopped w → StopsIn n w
stays_stopped = stopped-StopsWithin client_next HasStopped stays

pub within : (n m : ℕ) (w : World) → n ≤ m → StopsIn n w → StopsIn m w
within = more-StopsWithin client_next HasStopped stays

-- From where the client stands to its next look at `ready`.
pub checks_ready :
    (w : World) → w.rb.ready ≡ false → StopsIn 1 (client_at w ClientPc.checking_ready)
unfolding client_once client_act
checks_ready w down = λ i. (_, refl, rw down refl)

pub signals :
    (p : SignalPc) (w : World)
    → w.rb.ready ≡ false
    → StopsIn 4 (client_at w (ClientPc.signalling p))
unfolding client_once client_act client_signal
signals SignalPc.wake w down = λ i.
    let w1 = client_signal SignalPc.wake (client_at w (ClientPc.signalling SignalPc.wake)) in
    (w1, refl, within 1 3 w1 (omega arith) (checks_ready w1 down))
signals SignalPc.add_one w down = λ i.
    let w1 = client_signal SignalPc.add_one (client_at w (ClientPc.signalling SignalPc.add_one)) in
    let w2 = client_signal SignalPc.wake w1 in
    (w1, refl, λ j. (w2, refl, within 1 2 w2 (omega arith) (checks_ready w2 down)))
signals SignalPc.set_flag w down = λ i.
    let w1 =
      client_signal SignalPc.set_flag (client_at w (ClientPc.signalling SignalPc.set_flag)) in
    let w2 = client_signal SignalPc.add_one w1 in
    let w3 = client_signal SignalPc.wake w2 in
    (w1, refl, λ j. (w2, refl, λ k. (w3, refl, checks_ready w3 down)))

pub writes :
    (w : World)
    → w.rb.ready ≡ false
    → Holding w.rb.ring []
    → IsPrepared w.client_buffer
    → StopsIn 5 (client_at w ClientPc.writing)
unfolding client_once client_act
writes w down h p = λ i.
    let size = length-copy_out 0 p.total w.client_buffer in
    let d : List ℕ = copy_out 0 p.total w.client_buffer in
    let sound : IsSound d = IsSound-copy_out w.client_buffer p.total p.long p.short p.message in
    let kept : copy_out 0 (length d) w.client_buffer ≡ d =
      ap (λ n. copy_out 0 n w.client_buffer) size in
    let (ring, h', runs) =
      client_write_message (client_at w ClientPc.writing) d sound h (p.message.sized ∙ sym size)
        kept in
    (_, runs, signals SignalPc.set_flag (record w { rb = record w.rb { ring = ring } }) down)

pub begins :
    (w : World) → w.rb.ready ≡ false → Holding w.rb.ring [] → StopsIn 6 (client_at w ClientPc.top)
unfolding client_once client_act client_prepare
begins w down h = λ i. (
  _,
  refl,
  elim (Bool-cases i.time_up) [
    | inl up ↦ rw up (stays_stopped 5 (client_at w ClientPc.stopped) refl)
    | inr more ↦
        let (total, low, high, message) =
          prepared-IsMessage i.random i.now i.now' w.client_buffer in
        let m = set_long 16 i.now' (random_message i.random i.now 2048 4096 w.client_buffer) in
        rw more (
          writes (record w { client_buffer = m }) down h
            (record { total = total; long = omega (arith, low); short = high; message = message }))
  ],
)

pub clears :
    (w : World) (d : List ℕ)
    → w.rb.ready ≡ false
    → IsSound d
    → Holding w.rb.ring []
    → Landed w.client_buffer d
    → StopsIn 7 (client_at w (ClientPc.clearing (length d)))
unfolding client_once client_act
clears w d down sound h landed = λ i. (
  _,
  client_clear_message (client_at w (ClientPc.clearing (length d))) d sound i.now landed,
  begins
      (record w {
        rb = record w.rb { response_available = false };
        stats = record_response i.now (length d) w.client_buffer w.stats;
      })
      down h,
)

reads :
    (w : World) (d : List ℕ)
    → w.rb.ready ≡ false
    → IsSound d
    → Holding w.rb.ring (d ∷ [])
    → StopsIn 8 (client_at w (ClientPc.waiting WaitPc.met))
unfolding client_once client_act
reads w d down sound h = λ i.
    let (ring, h', runs) =
      client_read_message (client_at w (ClientPc.waiting WaitPc.met)) d sound h in
    (
      _,
      runs,
      clears
          (record w {
            rb = record w.rb { ring = ring };
            client_buffer = copy_in 0 d w.client_buffer;
          })
          d down sound h' (record { before = w.client_buffer; lands = refl }),
    )

-- A waiter that will not sleep, with the flag up.
module _ (w : World) (d : List ℕ) (down : w.rb.ready ≡ false) (sound : IsSound d)
    (h : Holding w.rb.ring (d ∷ [])) (up : w.rb.response_available ≡ true) where
  looks : StopsIn 9 (client_at w (ClientPc.waiting WaitPc.check))
  unfolding client_once client_act wait_step
  looks = λ i. (
    _,
    refl,
    subst
        (λ b.
          StopsIn 8 (client_at w (ClientPc.waiting (if b then WaitPc.met else WaitPc.load_word))))
        (sym up) (reads w d down sound h),
  )

  looks_again : (val : ℕ) → StopsIn 10 (client_at w (ClientPc.waiting (WaitPc.recheck val)))
  unfolding client_once client_act wait_step
  looks_again val = λ i. (
    _,
    refl,
    subst
        (λ b.
          StopsIn 9
            (client_at w (ClientPc.waiting (if b then WaitPc.check else WaitPc.futex_wait val))))
        (sym up) looks,
  )

  pub waits :
      (p : WaitPc)
      → p ≢ WaitPc.asleep
      → ((val : ℕ) → p ≡ WaitPc.futex_wait val → val ≢ w.rb.client_futex)
      → StopsIn 11 (client_at w (ClientPc.waiting p))
  unfolding client_once client_act wait_step
  waits WaitPc.check awake other =
      within 9 11 (client_at w (ClientPc.waiting WaitPc.check)) (omega arith) looks
  waits WaitPc.load_word awake other = λ i. (_, refl, looks_again w.rb.client_futex)
  waits (WaitPc.recheck val) awake other =
      within 10 11 (client_at w (ClientPc.waiting (WaitPc.recheck val))) (omega arith)
        (looks_again val)
  waits (WaitPc.futex_wait val) awake other = λ i. (
    _,
    refl,
    elim (Bool-cases (val == w.rb.client_futex)) [
      | inl e ↦ absurd (other val refl ((==_iff val w.rb.client_futex).0 e))
      | inr e ↦ rw e (within 9 10 (client_at w (ClientPc.waiting WaitPc.check)) (omega arith) looks)
    ],
  )
  waits WaitPc.asleep awake other = absurd (awake refl)
  waits WaitPc.met awake other =
      within 8 11 (client_at w (ClientPc.waiting WaitPc.met)) (omega arith) (reads w d down sound h)

pub runs_to_stop :
    (n : ℕ) (inputs : List Input) (w : World)
    → n ≤ length inputs
    → StopsIn n w
    → (w' : World) × (client_alone inputs w ≡ some w') × HasStopped w'
unfolding client_alone
runs_to_stop = run_with-StopsWithin client_next HasStopped stays
