-- ===== src/Interrupt/Traffic.antt =====
-- The traffic on an interrupt: an eventfd keeps one counter, whose `read` waits while it is 0 and takes
-- it all, and a pipe the values themselves, whose `read` takes one and does not wait.
use ipc_benchmark.Prelude.{ℕ, zero, suc, ◌+◌, ◌≡◌, refl, Option, none, some, arith}

pub data Channel : Type 0 where
  counter : ℕ → Channel
  values : ℕ → Channel

abbrev pub pending : Channel → ℕ
pending (Channel.counter n) = n
pending (Channel.values n) = n

-- `k` further signals.
abbrev pub arrive : (k : ℕ) → Channel → Channel
arrive k (Channel.counter n) = Channel.counter (n + k)
arrive k (Channel.values n) = Channel.values (n + k)

-- What a `read` leaves; `none` is a `read` that finds nothing.
abbrev pub take_value : Channel → Option Channel
take_value (Channel.counter zero) = none
take_value (Channel.counter (suc n)) = some (Channel.counter 0)
take_value (Channel.values zero) = none
take_value (Channel.values (suc n)) = some (Channel.values n)

-- A wait that finds nothing, and one that finds the one signal there is.
pub take_value_none : (c c' : Channel) → pending c ≡ 0 → ¬ (take_value c ≡ some c')
take_value_none (Channel.counter zero) c' none_there e = cc
take_value_none (Channel.counter (suc n)) c' none_there e = absurd (omega arith)
take_value_none (Channel.values zero) c' none_there e = cc
take_value_none (Channel.values (suc n)) c' none_there e = absurd (omega arith)

pub take_value_one :
    (c : Channel) → pending c ≡ 1 → (c' : Channel) × (take_value c ≡ some c') × (pending c' ≡ 0)
take_value_one (Channel.counter zero) one = absurd (omega arith)
take_value_one (Channel.counter (suc n)) one = (Channel.counter 0, refl, refl)
take_value_one (Channel.values zero) one = absurd (omega arith)
take_value_one (Channel.values (suc n)) one = (Channel.values n, refl, omega arith)

pub pending-arrive : (k : ℕ) (c : Channel) → pending (arrive k c) ≡ pending c + k
pending-arrive k (Channel.counter n) = refl
pending-arrive k (Channel.values n) = refl
