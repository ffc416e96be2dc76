-- ===== src/Ring/Span.antt =====
-- The split copies of the ring, `load_span` and `store_span`, and the cyclic run of bytes from a
-- position on.
use ipc_benchmark.Prelude.{
  ℕ, ◌+◌, ◌-◌, ◌*◌, ◌%◌, ◌^◌, ◌≤◌, ◌<◌, ◌≡◌, sym, List, some, arith, length, take, drop,
  take-append-drop, length-take, length-drop,
}
use mathlib.Core.Path.{subst}
use native.Mathlib.Nat.{mod-eq_of_lt}
use native.Mathlib.Decide.{dec_lt}
use ipc_benchmark.Prelude.Word.{sub64, sub64_lem}
use ipc_benchmark.Memory.{Memory, copy_out, load}
use ipc_benchmark.Memory.Region.{Outside}
use ipc_benchmark.Ring.{step_to, load_span}
use ipc_benchmark.Ring.Holds.{wrap, Holds, Holds-at, Holds-split, Holds-down, copy_out-Holds}

-- The size leaves room for the sums of the code: no position or sum wraps its type.
pub record IsRoomy (pos_mod size : ℕ) : Type 0 where
  pub twice : 2 * size ≤ pos_mod
  pub word : pos_mod ≤ 2 ^ 64

-- An address of the ring is not among the `n` bytes from `pos` on.
abbrev pub Apart : ℕ → ℕ → ℕ → ℕ → Type 0
Apart size a pos n = Outside a pos n × Outside (a + size) pos n

module _ {pos_mod size : ℕ} (roomy : IsRoomy pos_mod size) where
  pub step_to_lem :
      (pos n : ℕ) → pos + n ≤ size → pos < size → step_to pos_mod size pos n ≡ wrap size (pos + n)
  unfolding step_to
  step_to_lem pos n le lt =
      ground (arith, mod-eq_of_lt {n = pos + n} {m = pos_mod} (omega (arith, roomy.twice)))

  load_straight :
      (sum_mod pos : ℕ) (m : Memory) (bs : List ℕ)
      → 2 * size ≤ sum_mod
      → pos < size
      → pos + length bs ≤ size
      → Holds size m pos bs
      → load_span pos_mod sum_mod size pos (length bs) m ≡ some (bs, wrap size (pos + length bs))
  unfolding load_span load
  load_straight sum_mod pos m bs big lt le h = ground (
    arith,
    mod-eq_of_lt {n = pos + length bs} {m = sum_mod} (omega arith),
    step_to_lem pos (length bs) le lt,
    copy_out-Holds size m pos bs le h,
  )

  -- The bytes in front of the end, and those behind it.
  round_pieces :
      (pos : ℕ) (m : Memory) (bs : List ℕ)
      → pos < size
      → length bs ≤ size
      → size < pos + length bs
      → Holds size m pos bs
      → (copy_out pos (size - pos) m ≡ take (size - pos) bs)
        × (copy_out 0 (length bs - (size - pos)) m ≡ drop (size - pos) bs)
  round_pieces pos m bs lt short over h = (
    subst (λ n. copy_out pos n m ≡ front) length-front
        (copy_out-Holds size m pos front (omega (arith, length-front)) parts.0),
    subst (λ n. copy_out 0 n m ≡ back) length-back
        (copy_out-Holds size m 0 back (omega (arith, length-back)) (
          Holds-down size m 0 back (omega (arith, length-back))
            (Holds-at size m _ _ back (omega (arith, length-front)) parts.1))),
  )
    where
      front : List ℕ
      front = take (size - pos) bs

      back : List ℕ
      back = drop (size - pos) bs

      length-front : length front ≡ size - pos
      length-front = omega (arith, length-take (size - pos) bs)

      length-back : length back ≡ length bs - (size - pos)
      length-back = length-drop (size - pos) bs

      parts : Holds size m pos front × Holds size m (pos + length front) back
      parts =
          Holds-split size m pos front back
            (subst (λ l. Holds size m pos l) (sym (take-append-drop (size - pos) bs)) h)

  -- The subtractions of the code stay above 0, and the rest fits the positions' type.
  pub round_words :
      (pos n : ℕ)
      → pos < size
      → n ≤ size
      → size < pos + n
      → (sub64 size pos ≡ size - pos)
        × (sub64 n (sub64 size pos) ≡ n - (size - pos))
        × ((n - (size - pos)) % pos_mod ≡ n - (size - pos))
  round_words pos n lt short over = (
    sub64_lem size pos (omega arith) (omega (arith, roomy.twice, roomy.word)),
    omega (arith, roomy.twice, roomy.word),
    mod-eq_of_lt (omega (arith, roomy.twice, roomy.word)),
  )

  load_round :
      (sum_mod pos : ℕ) (m : Memory) (bs : List ℕ)
      → 2 * size ≤ sum_mod
      → pos < size
      → length bs ≤ size
      → size < pos + length bs
      → Holds size m pos bs
      → load_span pos_mod sum_mod size pos (length bs) m ≡ some (bs, wrap size (pos + length bs))
  unfolding load_span load
  load_round sum_mod pos m bs big lt short over h =
      let (first, rest, fits) = round_words pos (length bs) lt short over in
      let (front, back) = round_pieces pos m bs lt short over h in
      rw (mod-eq_of_lt {n = pos + length bs} {m = sum_mod} (omega arith), first)
        (ground (arith, front, back, fits, take-append-drop (size - pos) bs))

  -- Reading back bytes that lie in the ring, wherever they wrap.
  pub load_span_lem :
      (sum_mod pos : ℕ) (m : Memory) (bs : List ℕ)
      → 2 * size ≤ sum_mod
      → pos < size
      → length bs ≤ size
      → Holds size m pos bs
      → load_span pos_mod sum_mod size pos (length bs) m ≡ some (bs, wrap size (pos + length bs))
  load_span_lem sum_mod pos m bs big lt short h = elim (dec_lt size (pos + length bs)) [
    | yes over ↦ load_round sum_mod pos m bs big lt short over h
    | no le ↦ load_straight sum_mod pos m bs big lt (omega arith) h
  ]
