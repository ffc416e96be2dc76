-- ===== src/Futex/Channel.antt =====
-- One direction of signalling: a flag, a futex word, a waiter and a signaller that may lag behind.
-- The waiter may have seen the flag and taken it down again before the signaller counts the word up
-- and wakes; its next wait must survive that.
use ipc_benchmark.Prelude.{
  ℕ, ◌^◌, ◌<◌, ◌≡◌, ◌≢◌, refl, ap, ◌⊎◌, inl, inr, Bool-cases, ==_iff, Bool, true, false, arith,
  ◌==◌,
}
use ipc_benchmark.Futex.{WaitPc, wait_step, bump, futex_wake}

-- What a signaller still owes the waiter: the count and the wake, the wake, or nothing.
pub data Stage : Type 0 where
  pending : Stage
  bumped : Stage
  quiet : Stage

-- The word is the value seen, or has been counted up once since.
abbrev pub Near : ℕ → ℕ → Type 0
Near val word = (val ≡ word) ⊎ (bump val ≡ word)

-- The word has been counted up once or twice since the value was seen.
abbrev pub Passed : ℕ → ℕ → Type 0
Passed val word = (bump val ≡ word) ⊎ (bump (bump val) ≡ word)

-- What a waiter that is about to sleep knows of the word.
abbrev pub SleepOk : Bool → Stage → ℕ → ℕ → Type 0
SleepOk true Stage.pending word val = (val < 2 ^ 32) × Near val word
SleepOk true Stage.bumped word val = (val < 2 ^ 32) × Passed val word
SleepOk true Stage.quiet word val = (val < 2 ^ 32) × Passed val word
SleepOk false Stage.pending word val = (val < 2 ^ 32) × (val ≡ word)
SleepOk false Stage.bumped word val = (val < 2 ^ 32) × Near val word
SleepOk false Stage.quiet word val = (val < 2 ^ 32) × Near val word

-- The same before the second look at the flag.
abbrev pub RecheckOk : Bool → Stage → ℕ → ℕ → Type 0
RecheckOk true Stage.pending word val = (val < 2 ^ 32) × Near val word
RecheckOk true Stage.bumped word val = Unit
RecheckOk true Stage.quiet word val = Unit
RecheckOk false Stage.pending word val = (val < 2 ^ 32) × (val ≡ word)
RecheckOk false Stage.bumped word val = (val < 2 ^ 32) × Near val word
RecheckOk false Stage.quiet word val = (val < 2 ^ 32) × Near val word

-- Nobody sleeps on a raised flag once the signaller is done.
abbrev pub AsleepOk : Bool → Stage → Type 0
AsleepOk true Stage.pending = Unit
AsleepOk true Stage.bumped = Unit
AsleepOk true Stage.quiet = ⊥
AsleepOk false stage = Unit

abbrev pub WaitOk : Bool → Stage → ℕ → WaitPc → Type 0
WaitOk condition stage word WaitPc.check = Unit
WaitOk condition stage word WaitPc.load_word = Unit
WaitOk condition stage word (WaitPc.recheck val) = RecheckOk condition stage word val
WaitOk condition stage word (WaitPc.futex_wait val) = SleepOk condition stage word val
WaitOk condition stage word WaitPc.asleep = AsleepOk condition stage
WaitOk condition stage word WaitPc.met = condition ≡ true

Passed-differs : {word : ℕ} (val : ℕ) → val < 2 ^ 32 → Passed val word → val ≢ word
Passed-differs val small (inl e) = omega arith
Passed-differs val small (inr e) = omega arith

-- And so it does when the word is counted up again.
pub Passed-differs_bumped : {word : ℕ} (val : ℕ) → val < 2 ^ 32 → Passed val word → val ≢ bump word
Passed-differs_bumped val small (inl e) = omega arith
Passed-differs_bumped val small (inr e) = omega arith

pub Near-differs_bumped : {word : ℕ} (val : ℕ) → val < 2 ^ 32 → Near val word → val ≢ bump word
Near-differs_bumped val small (inl e) = omega arith
Near-differs_bumped val small (inr e) = omega arith

-- A waiter whose value is still that of the word may sleep.
sleeps :
    {word : ℕ} (condition : Bool) (stage : Stage) (val : ℕ)
    → SleepOk condition stage word val
    → val ≡ word
    → AsleepOk condition stage
sleeps true Stage.pending val h e = tt
sleeps true Stage.bumped val h e = absurd (Passed-differs val h.0 h.1 e)
sleeps true Stage.quiet val h e = absurd (Passed-differs val h.0 h.1 e)
sleeps false stage val h e = tt

module _ (word : ℕ) (small : word < 2 ^ 32) where
  -- The waiter's own steps keep it.
  pub wait_step-WaitOk :
      (condition : Bool) (stage : Stage) (p : WaitPc)
      → WaitOk condition stage word p
      → WaitOk condition stage word (wait_step condition word p)
  unfolding wait_step
  wait_step-WaitOk true stage WaitPc.check h = refl
  wait_step-WaitOk false stage WaitPc.check h = tt
  wait_step-WaitOk true Stage.pending WaitPc.load_word h = (small, inl refl)
  wait_step-WaitOk true Stage.bumped WaitPc.load_word h = tt
  wait_step-WaitOk true Stage.quiet WaitPc.load_word h = tt
  wait_step-WaitOk false Stage.pending WaitPc.load_word h = (small, refl)
  wait_step-WaitOk false Stage.bumped WaitPc.load_word h = (small, inl refl)
  wait_step-WaitOk false Stage.quiet WaitPc.load_word h = (small, inl refl)
  wait_step-WaitOk true stage (WaitPc.recheck val) h = tt
  wait_step-WaitOk false Stage.pending (WaitPc.recheck val) h = h
  wait_step-WaitOk false Stage.bumped (WaitPc.recheck val) h = h
  wait_step-WaitOk false Stage.quiet (WaitPc.recheck val) h = h
  wait_step-WaitOk condition stage (WaitPc.futex_wait val) h = elim (Bool-cases (val == word)) [
    | inl same ↦ rw same (sleeps condition stage val h ((==_iff val word).0 same))
    | inr other ↦ rw other tt
  ]
  wait_step-WaitOk condition stage WaitPc.asleep h = h
  wait_step-WaitOk condition stage WaitPc.met h = h

-- The signaller raises the flag.
pub raise-WaitOk :
    (word : ℕ) (p : WaitPc) → WaitOk false Stage.quiet word p → WaitOk true Stage.pending word p
raise-WaitOk word WaitPc.check h = tt
raise-WaitOk word WaitPc.load_word h = tt
raise-WaitOk word (WaitPc.recheck val) h = h
raise-WaitOk word (WaitPc.futex_wait val) h = h
raise-WaitOk word WaitPc.asleep h = tt
raise-WaitOk word WaitPc.met h = refl

-- The signaller counts the word up.
pub bump-WaitOk :
    (word : ℕ)
    → word < 2 ^ 32
    → (condition : Bool) (p : WaitPc) → WaitOk condition Stage.pending word p
    → WaitOk condition Stage.bumped (bump word) p
bump-WaitOk word small condition WaitPc.check h = tt
bump-WaitOk word small condition WaitPc.load_word h = tt
bump-WaitOk word small true (WaitPc.recheck val) h = tt
bump-WaitOk word small false (WaitPc.recheck val) h = (h.0, inr (ap bump h.1))
bump-WaitOk word small true (WaitPc.futex_wait val) (lt, inl e) = (lt, inl (ap bump e))
bump-WaitOk word small true (WaitPc.futex_wait val) (lt, inr e) = (lt, inr (ap bump e))
bump-WaitOk word small false (WaitPc.futex_wait val) h = (h.0, inr (ap bump h.1))
bump-WaitOk word small true WaitPc.asleep h = tt
bump-WaitOk word small false WaitPc.asleep h = tt
bump-WaitOk word small condition WaitPc.met h = h

-- The signaller wakes.
pub futex_wake-WaitOk :
    (word : ℕ) (condition : Bool) (p : WaitPc)
    → WaitOk condition Stage.bumped word p
    → WaitOk condition Stage.quiet word (futex_wake p)
unfolding futex_wake
futex_wake-WaitOk word condition WaitPc.check h = tt
futex_wake-WaitOk word condition WaitPc.load_word h = tt
futex_wake-WaitOk word true (WaitPc.recheck val) h = tt
futex_wake-WaitOk word false (WaitPc.recheck val) h = h
futex_wake-WaitOk word true (WaitPc.futex_wait val) h = h
futex_wake-WaitOk word false (WaitPc.futex_wait val) h = h
futex_wake-WaitOk word condition WaitPc.asleep h = tt
futex_wake-WaitOk word condition WaitPc.met h = h
