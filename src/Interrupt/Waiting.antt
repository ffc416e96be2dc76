-- ===== src/Interrupt/Waiting.antt =====
-- `interrupt_wait` of interrupt.c, over any descriptor that behaves as the manual pages of eventfd, pipe, read
-- and poll say.
use ipc_benchmark.Prelude.{
  ℕ, suc, ◌<◌, ◌≡◌, ◌≢◌, refl, sym, ◌∙◌, true, false, Option, none, some, ◌==◌, ==_iff, Bool-cases,
  inl, inr, arith,
}
use mathlib.Core.Path.{subst}
use ipc_benchmark.Interrupt.{
  Interrupt, Answer, Poll, Descriptor, Wait, after_poll, after_read, wait_loop, interrupt_wait,
}

-- What the loop relies on, where `owed` has the signals that are there or are still to come. A `read` of
-- eight bytes takes at least one; no other answer that lets the loop go on takes any. A call that never
-- returns has none to come. A descriptor that `poll` has found readable, and which nobody else reads,
-- does not answer EAGAIN.
pub record Documented {S : Type 0} (k : Descriptor S) (owed : S → ℕ) : Type 0 where
  pub read_takes : (s t : S) → k.read s ≡ some (Answer.bytes 8, t) → owed t < owed s
  pub read_keeps : (s t : S) → k.read s ≡ some (Answer.would_block, t) → owed t ≡ owed s
  pub poll_keeps : (s t : S) → k.poll s ≡ some (Poll.event true, t) → owed t ≡ owed s
  pub read_waits : (s : S) → k.read s ≡ none → owed s ≡ 0
  pub poll_waits : (s : S) → k.poll s ≡ none → owed s ≡ 0
  pub readable :
      (s t u : S) → k.poll s ≡ some (Poll.event true, t) → k.read t ≢ some (Answer.would_block, u)

module _ {S : Type 0} (k : Descriptor S) where
  -- The states in which the loop may come to a `read`: it has found nothing so far, and each `poll` has
  -- said that there is something.
  pub data Looks (start : S) : S → Type 0 where
    first : Looks start start
    once_more :
        {s t u : S}
        → Looks start s
        → k.read s ≡ some (Answer.would_block, t)
        → k.poll t ≡ some (Poll.event true, u)
        → Looks start u

  -- A call has failed, or has answered what it should not.
  pub data Fails (start t : S) : Type 0 where
    bad_read :
        {s : S}
        → Looks start s
        → (a : Answer) → k.read s ≡ some (a, t)
        → a ≢ Answer.bytes 8
        → a ≢ Answer.would_block
        → Fails start t
    bad_poll :
        {s u : S}
        → Looks start s
        → k.read s ≡ some (Answer.would_block, u)
        → (p : Poll) → k.poll u ≡ some (p, t)
        → p ≢ Poll.event true
        → Fails start t

  -- The signal has been read from a state in which the loop looks.
  pub record Takes (owed : S → ℕ) (start t : S) : Type 0 where
    pub found : S
    pub looks : Looks start found
    pub reads : k.read found ≡ some (Answer.bytes 8, t)
    pub takes : owed t < owed start

  abbrev pub Decides : (owed : S → ℕ) → S → Wait S → Type 0
  Decides owed start (Wait.returned true t) = Takes owed start t
  Decides owed start (Wait.returned false t) = Fails start t
  Decides owed start Wait.waiting = owed start ≡ 0
  Decides owed start Wait.unfinished = ⊥

module _ {S : Type 0} (k : Descriptor S) (owed : S → ℕ) (laws : Documented k owed) (start : S) where
  not_eight : (n : ℕ) → (n == 8) ≡ false → Answer.bytes n ≢ Answer.bytes 8
  not_eight n e same =
      let eight : n ≡ 8 = bytes_inj same in let yes_eight = (==_iff n 8).1 eight in cc
    where
      bytes_inj : {m : ℕ} → Answer.bytes n ≡ Answer.bytes m → n ≡ m
      bytes_inj e = cc

  polled :
      {s t : S}
      → Looks k start s
      → k.read s ≡ some (Answer.would_block, t)
      → owed t ≡ owed start
      → (again : S → Wait S)
      → ((u : S) → k.poll t ≡ some (Poll.event true, u) → Decides k owed start (again u))
      → (r : Option (Poll × S)) → k.poll t ≡ r
      → Decides k owed start (after_poll k again r)
  unfolding after_poll
  polled {t = t} looks empty kept again goes_on none e = sym kept ∙ laws.poll_waits t e
  polled looks empty kept again goes_on (some (Poll.event true, u)) e = goes_on u e
  polled looks empty kept again goes_on (some (Poll.event false, u)) e =
      bad_poll looks empty (Poll.event false) e (λ same. cc)
  polled looks empty kept again goes_on (some (Poll.timeout, u)) e =
      bad_poll looks empty Poll.timeout e (λ same. cc)
  polled looks empty kept again goes_on (some (Poll.broken, u)) e =
      bad_poll looks empty Poll.broken e (λ same. cc)

  looked :
      {s : S}
      → Looks k start s
      → owed s ≡ owed start
      → (again : S → Wait S)
      → ((t u : S)
          → k.read s ≡ some (Answer.would_block, t)
          → k.poll t ≡ some (Poll.event true, u)
          → Decides k owed start (again u))
      → (r : Option (Answer × S)) → k.read s ≡ r
      → Decides k owed start (after_read k again r)
  unfolding after_read
  looked {s} looks kept again goes_on none e = sym kept ∙ laws.read_waits s e
  looked {s} looks kept again goes_on (some (Answer.bytes n, t)) e = elim (Bool-cases (n == 8)) [
    | inl eight ↦
        let same : n ≡ 8 = (==_iff n 8).0 eight in
        let reads : k.read s ≡ some (Answer.bytes 8, t) =
          subst (λ m. k.read s ≡ some (Answer.bytes m, t)) same e in
        rw eight (record {
          found = s;
          looks = looks;
          reads = reads;
          takes = omega (arith, laws.read_takes s t reads, kept);
        })
    | inr other ↦ rw other (bad_read looks (Answer.bytes n) e (not_eight n other) (λ same. cc))
  ]
  looked {s} looks kept again goes_on (some (Answer.would_block, t)) e =
      polled looks e (laws.read_keeps s t e ∙ kept) again (λ u. goes_on t u e) (k.poll t) refl
  looked looks kept again goes_on (some (Answer.broken, t)) e =
      bad_read looks Answer.broken e (λ same. cc) (λ same. cc)

-- `interrupt_wait` over a descriptor that behaves as documented, whatever calls fail, in any two rounds or
-- more. It returns 0 only where a `read` of eight bytes has taken a signal, from a state to which only
-- EAGAIN and a `poll` that found the descriptor readable have led. It returns -1 only where a `read` has
-- failed or was not of eight bytes, or a `poll` was not readable. It is left waiting in a call only where no
-- signal is there or still to come, and no more than two rounds are ever made.
pub interrupt_wait-Decides :
    {S : Type 0} (k : Descriptor S) (owed : S → ℕ)
    → Documented k owed
    → (intr : Interrupt) (more : ℕ) (s : S)
    → Decides k owed s (interrupt_wait k (some intr) (suc (suc more)) s)
unfolding interrupt_wait wait_loop
interrupt_wait-Decides k owed laws intr more s =
    looked k owed laws s first refl (wait_loop k (suc more))
      (λ t u empty there.
        looked k owed laws s (once_more first empty there)
          (laws.poll_keeps t u there ∙ laws.read_keeps s t empty) (wait_loop k more)
          (λ v x no_more later. absurd (laws.readable t u v there no_more)) (k.read u) refl)
      (k.read s) refl
