-- ===== src/Ring/Store.antt =====
-- The buffer after `store_span`.
use ipc_benchmark.Prelude.{
  ℕ, ◌+◌, ◌-◌, ◌≤◌, ◌<◌, ◌≡◌, ◌∙◌, List, some, arith, length, take, drop, ltb, if◌then◌else◌, inl,
  inr, take-append-drop, length-take, length-drop, Bool-cases, ltb→lt,
}
use mathlib.Core.Path.{subst}
use native.Mathlib.Nat.{mod-eq_of_lt}
use native.Mathlib.Decide.{dec_lt}
use ipc_benchmark.Prelude.Word.{u64_mod}
use ipc_benchmark.Memory.{Memory, copy_in, store}
use ipc_benchmark.Memory.Region.{Outside, copy_in-Outside}
use ipc_benchmark.Ring.{store_span}
use ipc_benchmark.Ring.Holds.{
  wrap, Holds, Holds-at, Holds-ext, Holds-append, Holds-up, Holds-copy_in,
}
use ipc_benchmark.Ring.Span.{IsRoomy, Apart, step_to_lem, round_words}

abbrev front : ℕ → ℕ → List ℕ → List ℕ
front size pos bs = take (size - pos) bs

abbrev back : ℕ → ℕ → List ℕ → List ℕ
back size pos bs = drop (size - pos) bs

-- The memory with `bs` at `pos`, in two pieces where they go round the end.
pub span_in : ℕ → ℕ → List ℕ → Memory → Memory
span_in size pos bs m =
    if ltb size (pos + length bs)
    then copy_in 0 (back size pos bs) (copy_in pos (front size pos bs) m)
    else copy_in pos bs m

module _ (size pos : ℕ) (bs : List ℕ) (m : Memory) (lt : pos < size)
    (short : length bs ≤ size) where
  abbrev Round : Type 0
  Round = size < pos + length bs

  length-front : Round → length (front size pos bs) ≡ size - pos
  length-front over = omega (arith, length-take (size - pos) bs)

  length-back : length (back size pos bs) ≡ length bs - (size - pos)
  length-back = length-drop (size - pos) bs

  Holds-span_in_round :
      Round → Holds size (copy_in 0 (back size pos bs) (copy_in pos (front size pos bs) m)) pos bs
  Holds-span_in_round over =
      subst (λ l. Holds size after pos l) (take-append-drop (size - pos) bs)
        (Holds-append size after pos (front size pos bs) (back size pos bs)
          (Holds-ext size middle after pos (front size pos bs)
            (λ k le.
              copy_in-Outside 0 (back size pos bs) middle (wrap size (pos + k)) (beyond k le))
            (Holds-copy_in size m pos (front size pos bs) (omega (arith, length-front over))))
          (Holds-at size after (0 + size) _ (back size pos bs) (omega (arith, length-front over)) (
            Holds-up size after 0 (back size pos bs) (omega (arith, length-back))
              (Holds-copy_in size middle 0 (back size pos bs) (omega (arith, length-back))))))
    where
      middle : Memory
      middle = copy_in pos (front size pos bs) m

      after : Memory
      after = copy_in 0 (back size pos bs) middle

      beyond :
          (k : ℕ)
          → k < length (front size pos bs)
          → Outside (wrap size (pos + k)) 0 (length (back size pos bs))
      beyond k le = inr (ground (arith, length-front over, length-back))

  pub Holds-span_in : Holds size (span_in size pos bs m) pos bs
  unfolding span_in
  Holds-span_in = elim (Bool-cases (ltb size (pos + length bs))) [
    | inl over ↦ rw over (Holds-span_in_round (ltb→lt _ _ over))
    | inr le ↦ rw le (Holds-copy_in size m pos bs (ground arith))
  ]

  pub span_in-Apart :
      (a : ℕ) → a < size → Apart size a pos (length bs) → span_in size pos bs m a ≡ m a
  unfolding span_in
  span_in-Apart a in_ring h = elim (Bool-cases (ltb size (pos + length bs))) [
    | inl over ↦ rw over (
        copy_in-Outside 0 (back size pos bs) (copy_in pos (front size pos bs) m) a
          (omega (arith, length-back, ltb→lt size (pos + length bs) over))
        ∙ copy_in-Outside pos (front size pos bs) m a
            (omega (arith, length-front (ltb→lt _ _ over), ltb→lt size (pos + length bs) over)))
    | inr le ↦ rw le (copy_in-Outside pos bs m a h.0)
  ]

module _ {pos_mod size : ℕ} (roomy : IsRoomy pos_mod size) where
  -- Within the ring the copies of `store_span` never fault.
  pub store_span_lem :
      (pos : ℕ) (bs : List ℕ) (m : Memory)
      → pos < size
      → length bs ≤ size
      → store_span pos_mod size pos bs m ≡ some (span_in size pos bs m, wrap size (pos + length bs))
  unfolding store_span store span_in
  store_span_lem pos bs m lt short = elim (dec_lt size (pos + length bs)) [
    | yes over ↦
        let (first, rest, fits) = round_words roomy pos (length bs) lt short over in
        rw
          (
            mod-eq_of_lt {n = pos + length bs} {m = u64_mod}
                (omega (arith, roomy.twice, roomy.word)),
            first,
          )
          (ground (arith, fits, length-take (size - pos) bs, length-drop (size - pos) bs))
    | no le ↦ ground (
      arith,
      mod-eq_of_lt {n = pos + length bs} {m = u64_mod} (omega (arith, roomy.twice, roomy.word)),
      step_to_lem roomy pos (length bs) (omega arith) lt,
    )
  ]
