-- ===== src/Interrupt/Signals.antt =====
-- The descriptor of an interrupt while signals arrive, an eventfd as a pipe: a kernel over which
-- `interrupt_wait` can be run.
use ipc_benchmark.Prelude.{
  ℕ, zero, suc, ◌+◌, ◌<◌, ◌≡◌, ◌≢◌, refl, ap, true, Option, none, some, List, [], ◌∷◌, arith,
}
use mathlib.Core.Path.{subst}
use ipc_benchmark.Interrupt.{Answer, Poll, Descriptor}
use ipc_benchmark.Interrupt.Traffic.{Channel, pending}
use ipc_benchmark.Interrupt.Waiting.{Documented}

-- `arrivals` has how many signals arrive from one time that the kernel looks to the next.
pub record Signals : Type 0 where
  pub channel : Channel
  pub arrivals : List ℕ

abbrev sum : List ℕ → ℕ
sum [] = 0
sum (k ∷ ks) = k + sum ks

abbrev pub owed : Signals → ℕ
owed s = pending s.channel + sum s.arrivals

-- The kernel waits for a signal: there are then `suc m`.
abbrev settle : ℕ → List ℕ → Option (ℕ × List ℕ)
settle (suc m) arrivals = some (m, arrivals)
settle zero [] = none
settle zero (k ∷ arrivals) = settle k arrivals

settle-owed :
    (n : ℕ) (arrivals : List ℕ) (m : ℕ) (later : List ℕ)
    → settle n arrivals ≡ some (m, later)
    → suc m + sum later ≡ n + sum arrivals
settle-owed (suc n) arrivals m later e =
    let same : n ≡ m = cc in let same' : arrivals ≡ later = cc in rw same (rw same' refl)
settle-owed zero [] m later e = cc
settle-owed zero (k ∷ arrivals) m later e = omega (arith, settle-owed k arrivals m later e)

settle-none : (n : ℕ) (arrivals : List ℕ) → settle n arrivals ≡ none → n + sum arrivals ≡ 0
settle-none (suc n) arrivals e = cc
settle-none zero [] e = omega arith
settle-none zero (k ∷ arrivals) e = omega (arith, settle-none k arrivals e)

abbrev read_counter : Option (ℕ × List ℕ) → Option (Answer × Signals)
read_counter none = none
read_counter (some (m, later)) =
    some (Answer.bytes 8, record { channel = Channel.counter 0; arrivals = later })

-- The `read` of an eventfd waits, and that of a pipe does not.
abbrev read : Channel → List ℕ → Option (Answer × Signals)
read (Channel.counter n) arrivals = read_counter (settle n arrivals)
read (Channel.values zero) arrivals =
    some (Answer.would_block, record { channel = Channel.values 0; arrivals = arrivals })
read (Channel.values (suc n)) arrivals =
    some (Answer.bytes 8, record { channel = Channel.values n; arrivals = arrivals })

abbrev holding : Channel → ℕ → Channel
holding (Channel.counter n) m = Channel.counter m
holding (Channel.values n) m = Channel.values m

abbrev poll : Channel → Option (ℕ × List ℕ) → Option (Poll × Signals)
poll c none = none
poll c (some (m, later)) =
    some (Poll.event true, record { channel = holding c (suc m); arrivals = later })

abbrev pub descriptor : Descriptor Signals
descriptor = record {
  read = λ s. read s.channel s.arrivals;
  poll = λ s. poll s.channel (settle (pending s.channel) s.arrivals);
}

-- The state behind a call, or some other where it does not return.
abbrev behind {ℓ} : {A : Type ℓ} → Signals → Option (A × Signals) → Signals
behind s none = s
behind s (some (a, t)) = t

answered {ℓ} :
    {A : Type ℓ} {s t : Signals} (a b : A)
    → ◌≡◌ {A = Option (A × Signals)} (some (a, s)) (some (b, t))
    → s ≡ t
answered {s = s} a b e = ap (behind s) e

module _ (arrivals : List ℕ) where
  counter_takes :
      (n : ℕ) (t : Signals) (r : Option (ℕ × List ℕ))
      → settle n arrivals ≡ r
      → read_counter r ≡ some (Answer.bytes 8, t)
      → owed t < n + sum arrivals
  counter_takes n t none settled e = cc
  counter_takes n t (some (m, later)) settled e =
      subst (λ x. owed x < n + sum arrivals) (answered _ _ e)
        (omega (arith, settle-owed n arrivals m later settled))

  read_takes :
      (c : Channel) (t : Signals)
      → read c arrivals ≡ some (Answer.bytes 8, t)
      → owed t < pending c + sum arrivals
  read_takes (Channel.counter n) t e = counter_takes n t (settle n arrivals) refl e
  read_takes (Channel.values zero) t e = cc
  read_takes (Channel.values (suc n)) t e =
      subst (λ x. owed x < suc n + sum arrivals) (answered _ _ e) (omega arith)

  counter_answers :
      (t : Signals) (r : Option (ℕ × List ℕ)) → read_counter r ≢ some (Answer.would_block, t)
  counter_answers t none e = cc
  counter_answers t (some (m, later)) e = cc

  read_keeps :
      (c : Channel) (t : Signals)
      → read c arrivals ≡ some (Answer.would_block, t)
      → owed t ≡ pending c + sum arrivals
  read_keeps (Channel.counter n) t e = absurd (counter_answers t (settle n arrivals) e)
  read_keeps (Channel.values zero) t e =
      subst (λ x. owed x ≡ 0 + sum arrivals) (answered _ _ e) refl
  read_keeps (Channel.values (suc n)) t e = cc

  counter_waits : (r : Option (ℕ × List ℕ)) → read_counter r ≡ none → r ≡ none
  counter_waits none e = refl
  counter_waits (some (m, later)) e = cc

  read_waits : (c : Channel) → read c arrivals ≡ none → pending c + sum arrivals ≡ 0
  read_waits (Channel.counter n) e = settle-none n arrivals (counter_waits (settle n arrivals) e)
  read_waits (Channel.values zero) e = cc
  read_waits (Channel.values (suc n)) e = cc

  holding-pending : (c : Channel) (m : ℕ) → pending (holding c m) ≡ m
  holding-pending (Channel.counter n) m = refl
  holding-pending (Channel.values n) m = refl

  poll_keeps :
      (c : Channel) (t : Signals) (r : Option (ℕ × List ℕ))
      → settle (pending c) arrivals ≡ r
      → poll c r ≡ some (Poll.event true, t)
      → owed t ≡ pending c + sum arrivals
  poll_keeps c t none settled e = cc
  poll_keeps c t (some (m, later)) settled e =
      subst (λ x. owed x ≡ pending c + sum arrivals) (answered _ _ e)
        (omega (arith, settle-owed (pending c) arrivals m later settled, holding-pending c (suc m)))

  poll_waits : (c : Channel) (r : Option (ℕ × List ℕ)) → poll c r ≡ none → r ≡ none
  poll_waits c none e = refl
  poll_waits c (some (m, later)) e = cc

holds_one :
    (c : Channel) (m : ℕ) (later : List ℕ) (u : Signals)
    → read (holding c (suc m)) later ≢ some (Answer.would_block, u)
holds_one (Channel.counter n) m later u e = cc
holds_one (Channel.values n) m later u e = cc

readable :
    (c : Channel) (r : Option (ℕ × List ℕ)) (t u : Signals)
    → poll c r ≡ some (Poll.event true, t)
    → read t.channel t.arrivals ≢ some (Answer.would_block, u)
readable c none t u e = cc
readable c (some (m, later)) t u e =
    subst (λ x. read x.channel x.arrivals ≢ some (Answer.would_block, u)) (answered _ _ e)
      (holds_one c m later u)

-- An eventfd and a pipe, with any signals to come, behave as `interrupt_wait` relies on.
pub descriptor-Documented : Documented descriptor owed
descriptor-Documented = record {
  read_takes = λ s. read_takes s.arrivals s.channel;
  read_keeps = λ s. read_keeps s.arrivals s.channel;
  poll_keeps =
      λ s t e. poll_keeps s.arrivals s.channel t (settle (pending s.channel) s.arrivals) refl e;
  read_waits = λ s. read_waits s.arrivals s.channel;
  poll_waits = λ s e.
      settle-none (pending s.channel) s.arrivals
        (poll_waits s.arrivals s.channel (settle (pending s.channel) s.arrivals) e);
  readable = λ s. readable s.channel (settle (pending s.channel) s.arrivals);
}
