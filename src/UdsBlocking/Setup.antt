-- ===== src/UdsBlocking/Setup.antt =====
-- The setup of the two sockets of uds_blocking.c.
use ipc_benchmark.Prelude.{
  ℕ, refl, true, false, Option, none, some, List, [], ◌∷◌, ◌++◌, Bool, if◌then◌else◌, Bool-cases,
  inl, inr,
}
use Prim.Native.String.{String}
use ipc_benchmark.Socket
use ipc_benchmark.Socket.{Call, State, ServerKernel, free_state}
use ipc_benchmark.Socket.Balance.{Balanced}

unfoldable pub setup_uds_blocking_server : (path : String) → ServerKernel → Option State × List Call
setup_uds_blocking_server path k = Socket.setup_server path k

-- What the calls of the client's setup return; `socket` has the descriptor.
pub record ClientKernel : Type 0 where
  pub allocates : Bool
  pub socket : Option ℕ
  pub connects : Bool

unfoldable pub client_socket : (path : String) → ClientKernel → Option ℕ → Option State × List Call
client_socket path k none = (none, Call.malloc ∷ Call.socket ∷ Call.free ∷ [])
client_socket path k (some fd) =
    let calls = Call.malloc ∷ Call.socket ∷ Call.connect path ∷ [] in
    if k.connects
    then (some (record { fd = fd; is_server = false }), calls)
    else (none, calls ++ (Call.close fd ∷ Call.free ∷ []))

unfoldable pub setup_uds_blocking_client : (path : String) → ClientKernel → Option State × List Call
setup_uds_blocking_client path k =
    if k.allocates then client_socket path k k.socket else (none, Call.malloc ∷ [])

unfoldable pub free_uds_blocking : Option State → List Call
free_uds_blocking state = free_state state

client_socket-Balanced :
    (path : String) (k : ClientKernel) (fd : Option ℕ)
    → let (result, calls) = client_socket path k fd in Balanced false true fd result calls
unfolding client_socket free_state
client_socket-Balanced path k none = (refl, refl)
client_socket-Balanced path k (some fd) = elim (Bool-cases k.connects) [
  | inr e ↦ rw e (refl, refl)
  | inl e ↦ rw e (refl, refl, refl, refl, refl)
]

-- However the calls turn out, the setup of the client's socket in uds_blocking.c that fails closes the
-- descriptor and frees the memory that it got, once each; one that succeeds gives the state of a client
-- that holds both, which are returned once each when it is freed.
pub setup_client-Balanced :
    (path : String) (k : ClientKernel)
    → let (result, calls) = setup_uds_blocking_client path k in
      Balanced false k.allocates k.socket result calls
unfolding setup_uds_blocking_client client_socket
setup_client-Balanced path k = elim (Bool-cases k.allocates) [
  | inl e ↦ rw e (client_socket-Balanced path k k.socket)
  | inr e ↦ rw e (refl, refl)
]
