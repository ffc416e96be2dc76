-- ===== src/Interrupt.antt =====
-- interrupt.c: a signal between threads over an eventfd, or over a pipe where there is no eventfd. The
-- kernel is a parameter: what its calls return, and for the traffic the documented behaviour of an
-- eventfd without EFD_NONBLOCK and of a pipe with O_NONBLOCK at its read end.
pub mod Balance
pub mod Traffic
pub mod Waiting
pub mod Signals
use ipc_benchmark.Prelude.{
  ℕ, suc, zero, ◌+◌, Bool, true, false, Option, none, some, List, [], ◌∷◌, ◌++◌, ◌==◌, ltb,
  if◌then◌else◌,
}

-- `struct Interrupt`
pub record Interrupt : Type 0 where
  pub fd : ℕ
  pub write_fd : ℕ
  pub is_eventfd : Bool

pub data Call : Type 0 where
  calloc : Call
  free : Call
  eventfd : Call
  pipe : Call
  get_flags : ℕ → Call
  set_nonblock : ℕ → Call
  close : ℕ → Call

-- `eventfd` gives a descriptor, or fails with ENOENT, or otherwise.
pub data EventFd : Type 0 where
  opened : ℕ → EventFd
  missing : EventFd
  refused : EventFd

-- `pipe` gives the descriptors of its read and of its write end.
pub data Pipe : Type 0 where
  ends : (read_end write_end : ℕ) → Pipe
  refused : Pipe

-- What the calls of `interrupt_create` return.
pub record Kernel : Type 0 where
  pub allocates : Bool
  pub eventfd : EventFd
  pub pipe : Pipe
  pub gets_flags : Bool
  pub sets_flags : Bool

-- The fall back to a pipe, after the calls so far.
unfoldable pub create_pipe : Kernel → Pipe → List Call → Option Interrupt × List Call
create_pipe k Pipe.refused calls = (none, calls ++ (Call.pipe ∷ Call.free ∷ []))
create_pipe k (Pipe.ends read_end write_end) calls =
    let flagged = calls ++ (Call.pipe ∷ Call.get_flags read_end ∷ []) in
    let set = flagged ++ (Call.set_nonblock read_end ∷ []) in
    let undo = Call.close read_end ∷ Call.close write_end ∷ Call.free ∷ [] in
    if k.gets_flags
    then (if k.sets_flags
        then (some (record { fd = read_end; write_fd = write_end; is_eventfd = false }), set)
        else (none, set ++ undo))
    else (none, flagged ++ undo)

unfoldable pub create_eventfd : Kernel → EventFd → Option Interrupt × List Call
create_eventfd k (EventFd.opened fd) =
    (some (record { fd = fd; write_fd = fd; is_eventfd = true }), Call.calloc ∷ Call.eventfd ∷ [])
create_eventfd k EventFd.missing = create_pipe k k.pipe (Call.calloc ∷ Call.eventfd ∷ [])
create_eventfd k EventFd.refused = (none, Call.calloc ∷ Call.eventfd ∷ Call.free ∷ [])

-- The interrupt or NULL, and the calls made, where HAVE_EVENTFD is defined.
unfoldable pub interrupt_create : Kernel → Option Interrupt × List Call
interrupt_create k = if k.allocates then create_eventfd k k.eventfd else (none, Call.calloc ∷ [])

unfoldable pub interrupt_destroy : Option Interrupt → List Call
interrupt_destroy none = []
interrupt_destroy (some intr) =
    if intr.is_eventfd
    then Call.close intr.fd ∷ Call.free ∷ []
    else Call.close intr.fd ∷ Call.close intr.write_fd ∷ Call.free ∷ []

-- The descriptor, or -1.
unfoldable pub interrupt_get_fd : Option Interrupt → Option ℕ
interrupt_get_fd none = none
interrupt_get_fd (some intr) = some intr.fd

-- A `read` or `write` of the eight bytes of a value: the number of bytes, -1 with EAGAIN or
-- EWOULDBLOCK, or -1 otherwise.
pub data Answer : Type 0 where
  bytes : ℕ → Answer
  would_block : Answer
  broken : Answer

-- `poll` without a timeout: events with or without POLLIN, or 0, or -1.
pub data Poll : Type 0 where
  event : (readable : Bool) → Poll
  timeout : Poll
  broken : Poll

-- Whether the call returned 0, and not -1.
unfoldable pub interrupt_signal : Option Interrupt → Answer → Bool
interrupt_signal none answer = false
interrupt_signal (some intr) (Answer.bytes n) = n == 8
interrupt_signal (some intr) Answer.would_block = false
interrupt_signal (some intr) Answer.broken = false

unfoldable pub interrupt_clear : Option Interrupt → Answer → Bool
interrupt_clear none answer = false
interrupt_clear (some intr) (Answer.bytes n) = true
interrupt_clear (some intr) Answer.would_block = true
interrupt_clear (some intr) Answer.broken = false

-- The descriptor as the kernel serves it, in a state of type `S`: what a `read` and a `poll` answer, and
-- the state behind them. `none` is a call that does not return.
pub record Descriptor {ℓ} (S : Type ℓ) : Type ℓ where
  pub read : S → Option (Answer × S)
  pub poll : S → Option (Poll × S)

-- How `interrupt_wait` ends, and the state behind it: with 0 or with -1, inside of a call that does not
-- return, or not yet after the rounds that it was given.
pub data Wait {ℓ} (S : Type ℓ) : Type ℓ where
  returned : (ok : Bool) → S → Wait S
  waiting : Wait S
  unfinished : Wait S

module _ {ℓ} {S : Type ℓ} (k : Descriptor S) where
  -- After the `poll`; `again` is the loop.
  unfoldable pub after_poll : (again : S → Wait S) → Option (Poll × S) → Wait S
  after_poll again none = Wait.waiting
  after_poll again (some (Poll.event readable, s)) =
      let rest = again s in if readable then rest else Wait.returned false s
  after_poll again (some (Poll.timeout, s)) = Wait.returned false s
  after_poll again (some (Poll.broken, s)) = Wait.returned false s

  -- After the `read`.
  unfoldable pub after_read : (again : S → Wait S) → Option (Answer × S) → Wait S
  after_read again none = Wait.waiting
  after_read again (some (Answer.bytes n, s)) = Wait.returned (n == 8) s
  after_read again (some (Answer.would_block, s)) = after_poll again (k.poll s)
  after_read again (some (Answer.broken, s)) = Wait.returned false s

  -- The loop, for a number of rounds.
  unfoldable pub wait_loop : (rounds : ℕ) → S → Wait S
  wait_loop zero s = Wait.unfinished
  wait_loop (suc rounds) s = after_read (wait_loop rounds) (k.read s)

  unfoldable pub interrupt_wait : Option Interrupt → (rounds : ℕ) → S → Wait S
  interrupt_wait none rounds s = Wait.returned false s
  interrupt_wait (some intr) rounds s = wait_loop rounds s
