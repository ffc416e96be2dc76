-- ===== src/Socket/Balance.antt =====
-- The memory, the descriptor and the file of a socket, over every way that the setup of the server turns
-- out.
use ipc_benchmark.Prelude.{
  ℕ, ◌+◌, ◌≡◌, refl, sym, ap, ◌∙◌, append_assoc, arith, Bool, true, false, Option, none, some, List,
  [], ◌∷◌, ◌++◌, if◌then◌else◌, Bool-cases, inl, inr,
}
use Prim.Native.String.{String}
use text.Mathlib.Text as Text
use text.Mathlib.TextPositions.{eq_refl}
use ipc_benchmark.Socket.{
  Call, State, ServerKernel, setup_server, server_socket, free_state, socket_path,
}

abbrev frees_one : Call → ℕ
frees_one Call.free = 1
frees_one _ = 0

abbrev pub frees : List Call → ℕ
frees [] = 0
frees (call ∷ calls) = frees_one call + frees calls

pub frees-append : (calls later : List Call) → frees (calls ++ later) ≡ frees calls + frees later
frees-append [] later = omega arith
frees-append (call ∷ calls) later = omega (arith, frees-append calls later)

-- The descriptors that the calls close.
abbrev closes : Call → List ℕ
closes (Call.close fd) = fd ∷ []
closes _ = []

abbrev pub closed : List Call → List ℕ
closed [] = []
closed (call ∷ calls) = closes call ++ closed calls

pub closed-append :
    (calls later : List Call) → closed (calls ++ later) ≡ closed calls ++ closed later
closed-append [] later = refl
closed-append (call ∷ calls) later =
    ap (λ fds. closes call ++ fds) (closed-append calls later)
    ∙ sym (append_assoc (closes call) (closed calls) (closed later))

-- The descriptors that `socket` has given.
abbrev pub given : (allocates : Bool) → Option ℕ → List ℕ
given false fd = []
given true none = []
given true (some fd) = fd ∷ []

-- A setup that fails frees its memory and closes its descriptor if it got them; one that succeeds keeps
-- both for its state, and freeing this returns them.
abbrev pub Balanced : (is_server allocates : Bool) → Option ℕ → Option State → List Call → Type 0
Balanced is_server allocates fd none calls =
    (frees calls ≡ (if allocates then 1 else 0)) × (closed calls ≡ given allocates fd)
Balanced is_server allocates fd (some state) calls =
    (frees calls ≡ 0)
    × (closed calls ≡ [])
    × (state.is_server ≡ is_server)
    × (frees (free_state (some state)) ≡ 1)
    × (closed (free_state (some state)) ≡ given allocates fd)

server_socket-Balanced :
    (path : String) (k : ServerKernel) (fd : Option ℕ)
    → let (result, calls) = server_socket path k fd in Balanced true true fd result calls
unfolding server_socket free_state
server_socket-Balanced path k none = (refl, refl)
server_socket-Balanced path k (some fd) = elim (Bool-cases k.binds) [
  | inr e ↦ rw e (refl, refl)
  | inl e ↦ rw e (elim (Bool-cases k.listens) [
    | inr l ↦ rw l (refl, refl)
    | inl l ↦ rw l (refl, refl, refl, refl, refl)
  ])
]

-- However the calls turn out, the setup of a server's socket that fails closes the descriptor and frees
-- the memory that it got, once each; one that succeeds gives the state of a server that holds both,
-- which are returned once each when it is freed.
pub setup_server-Balanced :
    (path : String) (k : ServerKernel)
    → let (result, calls) = setup_server path k in Balanced true k.allocates k.socket result calls
unfolding setup_server server_socket
setup_server-Balanced path k = elim (Bool-cases k.allocates) [
  | inl e ↦ rw e (server_socket-Balanced path k k.socket)
  | inr e ↦ rw e (refl, refl)
]

-- The socket files, when the calls have been made.
abbrev pub remove_file : String → List String → List String
remove_file path [] = []
remove_file path (f ∷ files) =
    let rest = remove_file path files in if Text.◌==◌ f path then rest else f ∷ rest

abbrev pub files_after : List Call → List String → List String
files_after [] files = files
files_after (Call.unlink path ∷ calls) files = files_after calls (remove_file path files)
files_after (Call.bind path ∷ calls) files = files_after calls (path ∷ files)
files_after (_ ∷ calls) files = files_after calls files

abbrev pub has_file : String → List String → Bool
has_file path [] = false
has_file path (f ∷ files) =
    let rest = has_file path files in if Text.◌==◌ f path then true else rest

-- Every call succeeds, and `socket` gives the descriptor.
abbrev pub succeeding : ℕ → ServerKernel
succeeding fd = record { allocates = true; socket = some fd; binds = true; listens = true }

-- A server whose setup succeeds at a path other than `SOCKET_PATH`, and that is freed, leaves its
-- socket's file behind.
pub freed_server_leaves_file :
    (path : String) (fd : ℕ) (files : List String)
    → Text.◌==◌ path socket_path ≡ false
    → let (result, calls) = setup_server path (succeeding fd) in
      has_file path (files_after (calls ++ free_state result) files) ≡ true
unfolding setup_server server_socket free_state
freed_server_leaves_file path fd files other = rw other (rw (eq_refl path) refl)
