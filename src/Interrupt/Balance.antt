-- ===== src/Interrupt/Balance.antt =====
-- The memory and the descriptors of an interrupt, from `interrupt_create` to `interrupt_destroy`.
use ipc_benchmark.Prelude.{
  ℕ, suc, ◌≡◌, refl, Option, none, some, List, [], ◌∷◌, if◌then◌else◌, Bool-cases, inl, inr,
}
use ipc_benchmark.Interrupt.{
  Interrupt, Call, EventFd, Pipe, Kernel, create_pipe, create_eventfd, interrupt_create,
  interrupt_destroy,
}

abbrev pub frees : List Call → ℕ
frees [] = 0
frees (Call.free ∷ calls) = suc (frees calls)
frees (_ ∷ calls) = frees calls

-- The descriptors that the calls close, in their order.
abbrev pub closed : List Call → List ℕ
closed [] = []
closed (Call.close fd ∷ calls) = fd ∷ closed calls
closed (_ ∷ calls) = closed calls

-- The descriptors that the kernel has given to `interrupt_create`.
abbrev pub given_pipe : Pipe → List ℕ
given_pipe (Pipe.ends read_end write_end) = read_end ∷ write_end ∷ []
given_pipe Pipe.refused = []

abbrev pub given_eventfd : EventFd → Pipe → List ℕ
given_eventfd (EventFd.opened fd) pipe = fd ∷ []
given_eventfd EventFd.missing pipe = given_pipe pipe
given_eventfd EventFd.refused pipe = []

abbrev pub given : Kernel → List ℕ
given k = if k.allocates then given_eventfd k.eventfd k.pipe else []

-- A failing creation has returned all; a successful one has returned nothing, and the destruction returns
-- it.
abbrev pub Returned : (memory : ℕ) → List ℕ → Option Interrupt × List Call → Type 0
Returned memory fds (none, calls) = (frees calls ≡ memory) × (closed calls ≡ fds)
Returned memory fds (some intr, calls) =
    (frees calls ≡ 0)
    × (closed calls ≡ [])
    × (frees (interrupt_destroy (some intr)) ≡ memory)
    × (closed (interrupt_destroy (some intr)) ≡ fds)

create_pipe-Returned :
    (k : Kernel) (pipe : Pipe)
    → Returned 1 (given_pipe pipe) (create_pipe k pipe (Call.calloc ∷ Call.eventfd ∷ []))
unfolding create_pipe interrupt_destroy
create_pipe-Returned k Pipe.refused = (refl, refl)
create_pipe-Returned k (Pipe.ends read_end write_end) = elim (Bool-cases k.gets_flags) [
  | inr e ↦ rw e (refl, refl)
  | inl e ↦ rw e (elim (Bool-cases k.sets_flags) [
    | inr s ↦ rw s (refl, refl)
    | inl s ↦ rw s (refl, refl, refl, refl)
  ])
]

create_eventfd-Returned :
    (k : Kernel) (eventfd : EventFd)
    → Returned 1 (given_eventfd eventfd k.pipe) (create_eventfd k eventfd)
unfolding create_eventfd interrupt_destroy
create_eventfd-Returned k (EventFd.opened fd) = (refl, refl, refl, refl)
create_eventfd-Returned k EventFd.missing = create_pipe-Returned k k.pipe
create_eventfd-Returned k EventFd.refused = (refl, refl)

-- However the calls turn out, and with an eventfd as with a pipe: an `interrupt_create` that fails frees the
-- memory and closes every descriptor that it got, once each; one that succeeds returns nothing, and
-- `interrupt_destroy` then frees the memory and closes every descriptor once.
interrupt_create-Returned :
    (k : Kernel) → Returned (if k.allocates then 1 else 0) (given k) (interrupt_create k)
unfolding interrupt_create create_eventfd create_pipe
interrupt_create-Returned k = elim (Bool-cases k.allocates) [
  | inl e ↦ rw e (create_eventfd-Returned k k.eventfd)
  | inr e ↦ rw e (refl, refl)
]
