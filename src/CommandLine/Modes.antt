-- ===== src/CommandLine/Modes.antt =====
-- The names of the modes.
use ipc_benchmark.Prelude.{
  ◌≡◌, refl, sym, ◌↔◌, Option, none, some, Bool-cases, inl, inr, if◌then◌else◌,
}
use Prim.Native.String.{String}
use mathlib.Core.Path.{subst}
use text.Mathlib.Text as Text
use text.Mathlib.TextEquality.{eq_iff}
use ipc_benchmark.CommandLine.{Mode, mode_of}

abbrev pub mode_name : Mode → String
mode_name Mode.uds_blocking = "uds-blocking"
mode_name Mode.uds_nonblocking = "uds-nonblocking"
mode_name Mode.shm_notification = "shm-notification"
mode_name Mode.shm_blocking = "shm-blocking"
mode_name Mode.lfshm_blocking = "lfshm-blocking"
mode_name Mode.lfshm_nonblocking = "lfshm-nonblocking"
mode_name Mode.shm_nonblocking = "shm-nonblocking"

name_of-mode : (m : Mode) → mode_of (mode_name m) ≡ some m
unfolding mode_of
name_of-mode Mode.uds_blocking = refl
name_of-mode Mode.uds_nonblocking = refl
name_of-mode Mode.shm_notification = refl
name_of-mode Mode.shm_blocking = refl
name_of-mode Mode.lfshm_blocking = refl
name_of-mode Mode.lfshm_nonblocking = refl
name_of-mode Mode.shm_nonblocking = refl

-- A test that comes out for `m`, or for a later test.
one_test :
    (name : String) (n m : Mode) (rest : Option Mode)
    → (rest ≡ some m → name ≡ mode_name m)
    → (if Text.◌==◌ name (mode_name n) then some n else rest) ≡ some m
    → name ≡ mode_name m
one_test name n m rest later = elim (Bool-cases (Text.◌==◌ name (mode_name n))) [
  | inl e ↦ rw e (λ found.
      let same : n ≡ m = cc in
      subst (λ x. name ≡ mode_name x) same ((eq_iff name (mode_name n)).0 e))
  | inr e ↦ rw e later
]

mode_of-name : (name : String) (m : Mode) → mode_of name ≡ some m → name ≡ mode_name m
unfolding mode_of
mode_of-name name m = one_test name Mode.uds_blocking m _ (
    one_test name Mode.uds_nonblocking m _ (
      one_test name Mode.shm_notification m _ (
        one_test name Mode.shm_blocking m _ (
          one_test name Mode.lfshm_blocking m _ (
            one_test name Mode.lfshm_nonblocking m _
              (one_test name Mode.shm_nonblocking m none (λ found. cc)))))))

-- `main` knows exactly the seven modes: a mode is found by its name, and by no other text.
pub mode_of_iff : (name : String) (m : Mode) → (mode_of name ≡ some m) ↔ (name ≡ mode_name m)
mode_of_iff name m =
    (mode_of-name name m, λ e. subst (λ s. mode_of s ≡ some m) (sym e) (name_of-mode m))
