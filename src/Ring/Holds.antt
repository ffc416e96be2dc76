-- ===== src/Ring/Holds.antt =====
-- A ring's memory holds given bytes from a position on, going round at `size`. Positions run up to
-- `2 * size` here; `wrap` brings them back.
use ipc_benchmark.Prelude.{
  ℕ, suc, ◌+◌, ◌-◌, ◌≤◌, ◌<◌, ◌≡◌, refl, ◌∙◌, List, [], ◌∷◌, ◌++◌, arith, length, ltb,
  if◌then◌else◌,
}
use mathlib.Core.Path.{ap₂, subst}
use native.Mathlib.Decide.{dec_lt}
use ipc_benchmark.Memory.{Memory, update, copy_in, copy_out}
use ipc_benchmark.Memory.Region.{copy_in-Outside}

abbrev pub wrap : ℕ → ℕ → ℕ
wrap size p = if ltb p size then p else p - size

abbrev pub Holds : ℕ → Memory → ℕ → List ℕ → Type 0
Holds size m p [] = Unit {0}
Holds size m p (b ∷ bs) = (m (wrap size p) ≡ b) × Holds size m (p + 1) bs

module _ (size : ℕ) where
  pub Holds-at :
      (m : Memory) (p q : ℕ) (bs : List ℕ) → p ≡ q → Holds size m p bs → Holds size m q bs
  Holds-at m p q bs e h = subst (λ x. Holds size m x bs) e h

  at_address : (m : Memory) (a c b : ℕ) → a ≡ c → m a ≡ b → m c ≡ b
  at_address m a c b e h = cc

  pub Holds-ext :
      (m m' : Memory) (p : ℕ) (bs : List ℕ)
      → ((k : ℕ) → k < length bs → m' (wrap size (p + k)) ≡ m (wrap size (p + k)))
      → Holds size m p bs
      → Holds size m' p bs
  Holds-ext m m' p [] h q = tt
  Holds-ext m m' p (b ∷ bs) h q = (
    let here : p + 0 ≡ p = omega arith in
        subst (λ x. m' (wrap size x) ≡ m (wrap size x)) here (h 0 (omega arith)) ∙ q.0,
    Holds-ext m m' (p + 1) bs
        (λ k lt.
          let shift : p + suc k ≡ p + 1 + k = omega arith in
          subst (λ x. m' (wrap size x) ≡ m (wrap size x)) shift (h (suc k) (omega arith)))
        q.1,
  )

  pub Holds-split :
      (m : Memory) (p : ℕ) (xs ys : List ℕ)
      → Holds size m p (xs ++ ys)
      → Holds size m p xs × Holds size m (p + length xs) ys
  Holds-split m p [] ys h = (tt, Holds-at m p (p + 0) ys (omega arith) h)
  Holds-split m p (x ∷ xs) ys h =
      let (front, back) = Holds-split m (p + 1) xs ys h.1 in
      ((h.0, front), Holds-at m _ _ ys (omega arith) back)

  pub Holds-append :
      (m : Memory) (p : ℕ) (xs ys : List ℕ)
      → Holds size m p xs
      → Holds size m (p + length xs) ys
      → Holds size m p (xs ++ ys)
  Holds-append m p [] ys h k = Holds-at m (p + 0) p ys (omega arith) k
  Holds-append m p (x ∷ xs) ys h k =
      (h.0, Holds-append m (p + 1) xs ys h.1 (Holds-at m _ _ ys (omega arith) k))

  -- Once round the ring is the same place.
  pub Holds-down :
      (m : Memory) (p : ℕ) (bs : List ℕ)
      → p + length bs ≤ size
      → Holds size m (p + size) bs
      → Holds size m p bs
  Holds-down m p [] le h = tt
  Holds-down m p (b ∷ bs) le h = (
    at_address m (wrap size (p + size)) (wrap size p) b (ground arith) h.0,
    Holds-down m (p + 1) bs (omega arith) (Holds-at m _ _ bs (omega arith) h.1),
  )

  pub Holds-up :
      (m : Memory) (p : ℕ) (bs : List ℕ)
      → p + length bs ≤ size
      → Holds size m p bs
      → Holds size m (p + size) bs
  Holds-up m p [] le h = tt
  Holds-up m p (b ∷ bs) le h = (
    at_address m (wrap size p) (wrap size (p + size)) b (ground arith) h.0,
    Holds-at m _ _ bs (omega arith) (Holds-up m (p + 1) bs (omega arith) h.1),
  )

  pub copy_out-Holds :
      (m : Memory) (p : ℕ) (bs : List ℕ)
      → p + length bs ≤ size
      → Holds size m p bs
      → copy_out p (length bs) m ≡ bs
  unfolding copy_out
  copy_out-Holds m p [] le h = refl
  copy_out-Holds m p (b ∷ bs) le h =
      ap₂ ◌∷◌ (at_address m (wrap size p) p b (ground arith) h.0)
        (copy_out-Holds m (p + 1) bs (omega arith) h.1)

  pub Holds-copy_in :
      (m : Memory) (p : ℕ) (bs : List ℕ) → p + length bs ≤ size → Holds size (copy_in p bs m) p bs
  unfolding copy_in
  Holds-copy_in m p [] le = tt
  Holds-copy_in m p (b ∷ bs) le = (
    at_address (copy_in (p + 1) bs (update m p b)) p (wrap size p) b (ground arith)
        (copy_in-Outside (p + 1) bs (update m p b) p (omega arith) ∙ ground arith),
    Holds-copy_in (update m p b) (p + 1) bs (omega arith),
  )

  pub Holds-of_wrap :
      (m : Memory) (p : ℕ) (bs : List ℕ)
      → p < size + size
      → p + length bs ≤ size + size
      → Holds size m (wrap size p) bs
      → Holds size m p bs
  Holds-of_wrap m p bs lt le h = elim (dec_lt p size) [
    | yes small ↦ Holds-at m (wrap size p) p bs (ground arith) h
    | no big ↦
        Holds-at m (p - size + size) p bs (omega arith)
          (Holds-up m (p - size) bs (omega arith) (Holds-at m (wrap size p) _ bs (ground arith) h))
  ]

  pub Holds-to_wrap :
      (m : Memory) (p : ℕ) (bs : List ℕ)
      → p < size + size
      → p + length bs ≤ size + size
      → Holds size m p bs
      → Holds size m (wrap size p) bs
  Holds-to_wrap m p bs lt le h = elim (dec_lt p size) [
    | yes small ↦ Holds-at m p (wrap size p) bs (ground arith) h
    | no big ↦
        Holds-at m (p - size) (wrap size p) bs (ground arith)
          (Holds-down m (p - size) bs (omega arith) (Holds-at m p _ bs (omega arith) h))
  ]
