-- ===== src/LfshmNonblocking/Uring.antt =====
-- The wait through io_uring against the wait by the system call of lfshm_blocking.c.
use ipc_benchmark.Prelude.{
  not, ℕ, ◌^◌, ◌<◌, ◌≡◌, refl, sym, Bool, true, false, ◌==◌, Bool-cases, inl, inr,
}
use mathlib.Core.Path.{subst}
use ipc_benchmark.Futex.{WaitPc, wait_step, futex_wake}
use ipc_benchmark.Futex.Channel.{Stage, WaitOk, wait_step-WaitOk}
use ipc_benchmark.LfshmNonblocking.{UringPc, uring_step, uring_wake}

abbrev pub wait_of : UringPc → WaitPc
wait_of UringPc.check = WaitPc.check
wait_of UringPc.load_word = WaitPc.load_word
wait_of (UringPc.recheck val) = WaitPc.recheck val
wait_of (UringPc.submit val) = WaitPc.futex_wait val
wait_of UringPc.in_flight = WaitPc.asleep
wait_of (UringPc.returned met) = WaitPc.met

abbrev pub failed : UringPc → Bool
failed UringPc.check = false
failed UringPc.load_word = false
failed (UringPc.recheck val) = false
failed (UringPc.submit val) = false
failed UringPc.in_flight = false
failed (UringPc.returned met) = not met

-- As long as liburing reports no error, the wait through io_uring takes the same steps as the wait
-- by the system call, at any values of the flag and the word, its wakeup included; and it returns no
-- error of its own.
pub uring_step_refines :
    (condition : Bool) (word : ℕ) (p : UringPc)
    → (wait_of (uring_step true condition word p) ≡ wait_step condition word (wait_of p))
      × (wait_of (uring_wake p) ≡ futex_wake (wait_of p))
      × (failed (uring_step true condition word p) ≡ failed p)
unfolding uring_step uring_wake wait_step futex_wake
uring_step_refines true word UringPc.check = (refl, refl, refl)
uring_step_refines false word UringPc.check = (refl, refl, refl)
uring_step_refines condition word UringPc.load_word = (refl, refl, refl)
uring_step_refines true word (UringPc.recheck val) = (refl, refl, refl)
uring_step_refines false word (UringPc.recheck val) = (refl, refl, refl)
uring_step_refines condition word (UringPc.submit val) = elim (Bool-cases (val == word)) [
  | inl e ↦ rw e (refl, refl, refl)
  | inr e ↦ rw e (refl, refl, refl)
]
uring_step_refines condition word UringPc.in_flight = (refl, refl, refl)
uring_step_refines condition word (UringPc.returned true) = (refl, refl, refl)
uring_step_refines condition word (UringPc.returned false) = (refl, refl, refl)

-- So what the other process may rely on in a wait by the system call holds of the wait through
-- io_uring: as long as liburing reports no error, every step keeps that the waiter sleeps on no
-- raised flag without a wakeup to come, and that it returns only where the flag is up.
pub uring_step-WaitOk :
    (word : ℕ)
    → word < 2 ^ 32
    → (condition : Bool) (stage : Stage) (p : UringPc) → WaitOk condition stage word (wait_of p)
    → WaitOk condition stage word (wait_of (uring_step true condition word p))
uring_step-WaitOk word small condition stage p h =
    subst (λ q. WaitOk condition stage word q) (sym (uring_step_refines condition word p).0)
      (wait_step-WaitOk word small condition stage (wait_of p) h)
