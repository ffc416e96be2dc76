-- ===== src/UdsNonblocking/Bounds.antt =====
-- `read_nonblocking` of uds_nonblocking.c on any answers of the kernel, errors and the peer's end
-- included.
use ipc_benchmark.Prelude.{
  ℕ, suc, ◌+◌, ◌-◌, min, ◌≤◌, ◌<◌, ◌≡◌, refl, ◌∙◌, List, [], ◌∷◌, ltb, ◌==◌, length, take, drop,
  length-take, arith, ltb→lt, Bool-cases, inl, inr,
}
use ipc_benchmark.Memory.{Memory, copy_in}
use ipc_benchmark.Memory.Region.{Outside, copy_in-Outside}
use ipc_benchmark.UdsNonblocking.{
  Answer, Outcome, ReadState, read_stops, read_loop, read_nonblocking,
}

abbrev pub AtMost : ℕ → Outcome → Type 0
AtMost n (Outcome.finished total) = total ≤ n
AtMost n Outcome.failed = Unit
AtMost n Outcome.pending = Unit

-- The call returned no more than `n`, and wrote nowhere but in the `n` bytes at `base`.
pub record Within (n base : ℕ) (buffer : Memory) (r : ReadState) : Type 0 where
  pub at_most : AtMost n r.outcome
  pub kept : (a : ℕ) → Outside a base n → r.buffer a ≡ buffer a

stops-Within :
    {n base : ℕ} {buffer : Memory} {stream : List ℕ} (outcome : Outcome)
    → AtMost n outcome
    → Within n base buffer (read_stops outcome buffer stream)
stops-Within outcome le = record { at_most = le; kept = λ a out. refl }

read_loop-Within :
    (n base : ℕ) (answers : List Answer) (total : ℕ) (buffer : Memory) (stream : List ℕ)
    → total ≤ n
    → Within n base buffer (read_loop n base answers total buffer stream)
unfolding read_loop
read_loop-Within n base [] total buffer stream le = elim (Bool-cases (ltb total n)) [
  | inl more ↦ rw more (stops-Within Outcome.pending tt)
  | inr full ↦ rw full (stops-Within (Outcome.finished total) le)
]
read_loop-Within n base (Answer.ready k ∷ answers) total buffer stream le =
    elim (Bool-cases (ltb total n)) [
      | inr full ↦ rw full (stops-Within (Outcome.finished total) le)
      | inl more ↦
          let got = take (min (suc k) (n - total)) stream in
          let fits : length got ≤ n - total =
            omega (arith, length-take (min (suc k) (n - total)) stream) in
          let lt : total < n = ltb→lt total n more in
          rw more (elim (Bool-cases (length got == 0)) [
            | inl gone ↦ rw gone (stops-Within (Outcome.finished total) le)
            | inr moved ↦
                let r =
                  read_loop-Within n base answers (total + length got)
                    (copy_in (base + total) got buffer) (drop (length got) stream) (omega arith) in
                rw moved (record {
                  at_most = r.at_most;
                  kept = λ a out.
                      r.kept a out ∙ copy_in-Outside (base + total) got buffer a (omega arith);
                })
          ])
    ]
read_loop-Within n base (Answer.interrupted ∷ answers) total buffer stream le =
    elim (Bool-cases (ltb total n)) [
      | inr full ↦ rw full (stops-Within (Outcome.finished total) le)
      | inl more ↦ rw more (read_loop-Within n base answers total buffer stream le)
    ]
read_loop-Within n base (Answer.would_block polled ∷ answers) total buffer stream le =
    elim (Bool-cases (ltb total n)) [
      | inr full ↦ rw full (stops-Within (Outcome.finished total) le)
      | inl more ↦ rw more (elim (Bool-cases polled) [
        | inl e ↦ rw e (read_loop-Within n base answers total buffer stream le)
        | inr e ↦ rw e (stops-Within Outcome.failed tt)
      ])
    ]
read_loop-Within n base (Answer.broken ∷ answers) total buffer stream le =
    elim (Bool-cases (ltb total n)) [
      | inl more ↦ rw more (stops-Within Outcome.failed tt)
      | inr full ↦ rw full (stops-Within (Outcome.finished total) le)
    ]

-- However the kernel answers, `read_nonblocking` returns no more than `n`, and changes no byte outside
-- of the `n` bytes at its buffer.
pub read_nonblocking-Within :
    (base n : ℕ) (answers : List Answer) (buffer : Memory) (stream : List ℕ)
    → Within n base buffer (read_nonblocking base n answers buffer stream)
unfolding read_nonblocking
read_nonblocking-Within base n answers buffer stream =
    read_loop-Within n base answers 0 buffer stream (omega arith)
