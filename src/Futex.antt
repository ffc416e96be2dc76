-- ===== src/Futex.antt =====
-- The waiting and signalling of the lock-free variants, `futex_wait_for_atomic_bool` and
-- `futex_signal_atomic_bool` of lfshm_blocking.c and lfshm_nonblocking.c, one atomic access at a
-- time. The kernel's part is the documented one of futex(2): FUTEX_WAIT compares the word with the
-- expected value and sleeps in one step, and FUTEX_WAKE wakes a sleeper. Accesses are taken to be
-- sequentially consistent.
pub mod Channel
use ipc_benchmark.Prelude.{ℕ, ◌+◌, Bool, true, false, ◌==◌, if◌then◌else◌}
use ipc_benchmark.Prelude.Word.{u32}

-- Where a waiter stands. `met` is behind the loop.
pub data WaitPc : Type 0 where
  check : WaitPc
  load_word : WaitPc
  recheck : ℕ → WaitPc
  futex_wait : ℕ → WaitPc
  asleep : WaitPc
  met : WaitPc

-- One access of the waiter, at the values that the flag and the futex word have then.
unfoldable pub wait_step : (condition : Bool) (word : ℕ) → WaitPc → WaitPc
wait_step condition word WaitPc.check = if condition then WaitPc.met else WaitPc.load_word
wait_step condition word WaitPc.load_word = WaitPc.recheck word
wait_step condition word (WaitPc.recheck val) =
    if condition then WaitPc.check else WaitPc.futex_wait val
wait_step condition word (WaitPc.futex_wait val) =
    if val == word then WaitPc.asleep else WaitPc.check
wait_step condition word WaitPc.asleep = WaitPc.asleep
wait_step condition word WaitPc.met = WaitPc.met

-- What a signaller has still to do: set the flag, count the word up, wake.
pub data SignalPc : Type 0 where
  set_flag : SignalPc
  add_one : SignalPc
  wake : SignalPc

-- `atomic_fetch_add_explicit(futex_word, 1, …)` on an atomic_uint
abbrev pub bump : ℕ → ℕ
bump word = u32 (word + 1)

-- FUTEX_WAKE, for the one process that can sleep on the word
unfoldable pub futex_wake : WaitPc → WaitPc
futex_wake WaitPc.check = WaitPc.check
futex_wake WaitPc.load_word = WaitPc.load_word
futex_wake (WaitPc.recheck val) = WaitPc.recheck val
futex_wake (WaitPc.futex_wait val) = WaitPc.futex_wait val
futex_wake WaitPc.asleep = WaitPc.check
futex_wake WaitPc.met = WaitPc.met
