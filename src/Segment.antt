-- ===== src/Segment.antt =====
-- The system calls by which the four shared-memory variants set up their segment, as a trace. What
-- the kernel answers is a parameter. shm_blocking.c, shm_nonblocking.c, lfshm_blocking.c and
-- lfshm_nonblocking.c have the same text here, up to the size and the stores into the new segment.
pub mod Balance
use ipc_benchmark.Prelude.{
  ℕ, zero, suc, ◌+◌, Bool, true, false, List, [], ◌∷◌, ◌++◌, Option, none, some, if◌then◌else◌,
}

-- Whether each call succeeds.
pub record Kernel : Type 0 where
  pub opens : Bool
  pub truncates : Bool
  pub maps : Bool

pub data Syscall : Type 0 where
  shm_unlink : Syscall
  shm_open_new : Syscall
  shm_open : Syscall
  ftruncate : ℕ → Syscall
  mmap : ℕ → Syscall
  close : Syscall
  usleep : ℕ → Syscall

-- The client polls `ready` once in a millisecond; `polls` is how often it finds it false, and
-- `segment` what is in the segment then.
unfoldable pub wait_ready : (polls : ℕ) → List Syscall
wait_ready zero = []
wait_ready (suc polls) = Syscall.usleep 1000 ∷ wait_ready polls

module _ {ℓ} {A : Type ℓ} where
  -- The server creates the segment anew; `segment` is what its stores leave in the mapped memory. The
  -- result and the calls made.
  unfoldable pub create_segment : Kernel → (total_size : ℕ) (segment : A) → Option A × List Syscall
  create_segment k total_size segment =
      let opened = Syscall.shm_unlink ∷ Syscall.shm_open_new ∷ [] in
      let sized = opened ++ (Syscall.ftruncate total_size ∷ []) in
      let mapped = sized ++ (Syscall.mmap total_size ∷ []) in
      if k.opens
      then (if k.truncates
          then (if k.maps
              then (some segment, mapped ++ (Syscall.close ∷ []))
              else (none, mapped ++ (Syscall.close ∷ Syscall.shm_unlink ∷ [])))
          else (none, sized ++ (Syscall.close ∷ Syscall.shm_unlink ∷ [])))
      else (none, opened)

  unfoldable pub open_segment :
      Kernel → (total_size polls : ℕ) (segment : A) → Option A × List Syscall
  unfolding wait_ready
  open_segment k total_size polls segment =
      let mapped = Syscall.shm_open ∷ Syscall.mmap total_size ∷ [] in
      if k.opens
      then (if k.maps
          then (some segment, mapped ++ wait_ready polls ++ (Syscall.close ∷ []))
          else (none, mapped ++ (Syscall.close ∷ [])))
      else (none, Syscall.shm_open ∷ [])

abbrev pub closes : List Syscall → ℕ
closes [] = 0
closes (Syscall.close ∷ calls) = suc (closes calls)
closes (_ ∷ calls) = closes calls

abbrev pub unlinks : List Syscall → ℕ
unlinks [] = 0
unlinks (Syscall.shm_unlink ∷ calls) = suc (unlinks calls)
unlinks (_ ∷ calls) = unlinks calls
