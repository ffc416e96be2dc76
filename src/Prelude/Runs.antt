-- ===== src/Prelude/Runs.antt =====
-- A process that runs by itself: an access for each input, until it has stopped.
use Prim.Native.Nat.{ℕ, zero, suc, ◌≤◌}
use mathlib.Core.Path.{◌≡◌, refl}
use mathlib.Core.Option.{Option, some}
use mathlib.Core.List.{List, [], ◌∷◌}
use native.Mathlib.Omega.{arith}
use ipc_benchmark.Prelude.Lists.{length}
use ipc_benchmark.Prelude.Tests.{◌>>=◌}

module _ {ℓ} {I W : Type ℓ} (once : I → W → Option W) where
  -- `none` is a fault.
  unfoldable pub run_with : List I → W → Option W
  run_with [] w = some w
  run_with (i ∷ inputs) w = do w' ← once i w; run_with inputs w'

  -- Whatever its inputs, it has stopped after `n` accesses, without a fault.
  abbrev pub StopsWithin : (W → Type ℓ) → ℕ → W → Type ℓ
  StopsWithin Stopped zero w = Stopped w
  StopsWithin Stopped (suc n) w =
      (i : I) → (w' : W) × (once i w ≡ some w') × StopsWithin Stopped n w'

  module _ (Stopped : W → Type ℓ) (stays : (i : I) (w : W) → Stopped w → once i w ≡ some w) where
    pub stopped-StopsWithin : (n : ℕ) (w : W) → Stopped w → StopsWithin Stopped n w
    stopped-StopsWithin zero w e = e
    stopped-StopsWithin (suc n) w e = λ i. (w, stays i w e, stopped-StopsWithin n w e)

    -- And then it has after more.
    pub more-StopsWithin :
        (n m : ℕ) (w : W) → n ≤ m → StopsWithin Stopped n w → StopsWithin Stopped m w
    more-StopsWithin zero m w le s = stopped-StopsWithin m w s
    more-StopsWithin (suc n) zero w le s = absurd (omega arith)
    more-StopsWithin (suc n) (suc m) w le s =
        λ i. let (w', e, s') = s i in (w', e, more-StopsWithin n m w' (omega arith) s')

    -- A run over enough inputs ends there.
    pub run_with-StopsWithin :
        (n : ℕ) (inputs : List I) (w : W)
        → n ≤ length inputs
        → StopsWithin Stopped n w
        → (w' : W) × (run_with inputs w ≡ some w') × Stopped w'
    unfolding run_with
    run_with-StopsWithin zero [] w le s = (w, refl, s)
    run_with-StopsWithin zero (i ∷ inputs) w le s =
        let (w', runs, stopped) = run_with-StopsWithin zero inputs w (omega arith) s in
        (w', rw (stays i w s) runs, stopped)
    run_with-StopsWithin (suc n) [] w le s = absurd (omega arith)
    run_with-StopsWithin (suc n) (i ∷ inputs) w le s =
        let (w', e, s') = s i in
        let (w'', runs, stopped) = run_with-StopsWithin n inputs w' (omega arith) s' in
        (w'', rw e runs, stopped)
