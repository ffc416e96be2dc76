-- ===== src/Memory/Region.antt =====
-- What `copy_in` and `copy_out` do to each other, and the round trip of words through their bytes.
use ipc_benchmark.Prelude.{
  ℕ, zero, suc, ◌+◌, ◌/◌, ◌%◌, ◌^◌, ◌≤◌, ◌<◌, ◌≡◌, refl, ap, ◌∙◌, ◌⊎◌, List, [], ◌∷◌, ◌++◌, arith,
  length,
}
use mathlib.Core.Path.{ap₂}
use native.Mathlib.Decide.{ℕ_discrete}
use ipc_benchmark.Memory.{Memory, update, copy_in, copy_out, le_bytes, le_value}

-- An address lies outside the `n` bytes at `pos`.
abbrev pub Outside : ℕ → ℕ → ℕ → Type 0
Outside a pos n = (a < pos) ⊎ (pos + n ≤ a)

pub copy_in-Outside :
    (pos : ℕ) (bs : List ℕ) (m : Memory) (a : ℕ)
    → Outside a pos (length bs)
    → copy_in pos bs m a ≡ m a
unfolding copy_in
copy_in-Outside pos [] m a h = refl
copy_in-Outside pos (b ∷ bs) m a h =
    copy_in-Outside (pos + 1) bs (update m pos b) a (omega arith) ∙ ground arith

pub copy_out_ext :
    (pos n : ℕ) (m m' : Memory)
    → ((a : ℕ) → pos ≤ a → a < pos + n → m a ≡ m' a)
    → copy_out pos n m ≡ copy_out pos n m'
unfolding copy_out
copy_out_ext pos zero m m' h = refl
copy_out_ext pos (suc n) m m' h =
    ap₂ ◌∷◌ (h pos (omega arith) (omega arith))
      (copy_out_ext (pos + 1) n m m' (λ a p q. h a (omega arith) (omega arith)))

-- Reading what was just written.
pub copy_out-copy_in :
    (pos : ℕ) (bs : List ℕ) (m : Memory) → copy_out pos (length bs) (copy_in pos bs m) ≡ bs
unfolding copy_out copy_in
copy_out-copy_in pos [] m = refl
copy_out-copy_in pos (b ∷ bs) m =
    ap₂ ◌∷◌ (copy_in-Outside (pos + 1) bs (update m pos b) pos (omega arith) ∙ ground arith)
      (copy_out-copy_in (pos + 1) bs (update m pos b))

-- Reading beside what was written.
pub copy_out-copy_in_apart :
    (p n q : ℕ) (bs : List ℕ) (m : Memory)
    → (p + n ≤ q) ⊎ (q + length bs ≤ p)
    → copy_out p n (copy_in q bs m) ≡ copy_out p n m
copy_out-copy_in_apart p n q bs m h =
    copy_out_ext p n _ m (λ a lo hi. copy_in-Outside q bs m a (omega arith))

pub length-copy_out : (pos n : ℕ) (m : Memory) → length (copy_out pos n m) ≡ n
unfolding copy_out
length-copy_out pos zero m = refl
length-copy_out pos (suc n) m = ap suc (length-copy_out (pos + 1) n m)

-- A run of bytes is read in two parts.
pub copy_out-append :
    (pos n k : ℕ) (m : Memory) (t : ℕ)
    → t ≡ n + k
    → copy_out pos t m ≡ copy_out pos n m ++ copy_out (pos + n) k m
unfolding copy_out
copy_out-append pos zero k m t e = ap₂ (λ p l. copy_out p l m) here (e ∙ omega arith)
  where
    here : pos ≡ pos + 0
    here = omega arith
copy_out-append pos (suc n) k m zero e = absurd (omega arith)
copy_out-append pos (suc n) k m (suc t) e =
    ap (λ l. m pos ∷ l)
      (copy_out-append (pos + 1) n k m t (omega arith)
        ∙ ap (λ p. copy_out (pos + 1) n m ++ copy_out p k m) shift)
  where
    shift : pos + 1 + n ≡ pos + suc n
    shift = omega arith

pub length-le_bytes : (n v : ℕ) → length (le_bytes n v) ≡ n
unfolding le_bytes
length-le_bytes zero v = refl
length-le_bytes (suc n) v = ap suc (length-le_bytes n (v / 256))

-- A word of four bytes comes back from its bytes reduced modulo 2 ^ 32.
pub le_value-le_bytes : (v : ℕ) → le_value (le_bytes 4 v) ≡ v % 2 ^ 32
unfolding le_value le_bytes
le_value-le_bytes v = omega arith

pub le_value-le_bytes_eight : (v : ℕ) → le_value (le_bytes 8 v) ≡ v % 2 ^ 64
unfolding le_value le_bytes
le_value-le_bytes_eight v = omega arith

-- A copy of the first `n` bytes agrees with the original there.
pub copy_in-copy_out :
    (pos n : ℕ) (m m' : Memory) (a : ℕ)
    → pos ≤ a
    → a < pos + n
    → copy_in pos (copy_out pos n m) m' a ≡ m a
unfolding copy_in copy_out
copy_in-copy_out pos zero m m' a lo hi = absurd (omega arith)
copy_in-copy_out pos (suc n) m m' a lo hi = elim (ℕ_discrete a pos) [
  | yes here ↦
      copy_in-Outside (pos + 1) (copy_out (pos + 1) n m) (update m' pos (m pos)) a (omega arith)
      ∙ ground arith
  | no later ↦ copy_in-copy_out (pos + 1) n m (update m' pos (m pos)) a (omega arith) (omega arith)
]

pub copy_in-append :
    (pos : ℕ) (xs ys : List ℕ) (m : Memory)
    → copy_in (pos + length xs) ys (copy_in pos xs m) ≡ copy_in pos (xs ++ ys) m
unfolding copy_in
copy_in-append pos [] ys m = ap (λ p. copy_in p ys m) (omega arith)
copy_in-append pos (x ∷ xs) ys m =
    ap (λ p. copy_in p ys (copy_in (pos + 1) xs (update m pos x))) (omega arith)
    ∙ copy_in-append (pos + 1) xs ys (update m pos x)
