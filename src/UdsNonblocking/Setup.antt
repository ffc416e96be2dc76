-- ===== src/UdsNonblocking/Setup.antt =====
-- The setup of the two sockets of uds_nonblocking.c. The client's connects without waiting, and polls.
use ipc_benchmark.Prelude.{
  ℕ, refl, true, false, Option, none, some, List, [], ◌∷◌, ◌++◌, Bool, if◌then◌else◌, Bool-cases,
  inl, inr,
}
use Prim.Native.String.{String}
use ipc_benchmark.Socket
use ipc_benchmark.Socket.{Call, State, ServerKernel, free_state}
use ipc_benchmark.Socket.Balance.{Balanced}

unfoldable pub setup_uds_nonblocking_server :
    (path : String) → ServerKernel → Option State × List Call
setup_uds_nonblocking_server path k = Socket.setup_server path k

-- `connect` returns 0, or -1 with EINPROGRESS, or -1 with another error.
pub data Connect : Type 0 where
  connected : Connect
  in_progress : Connect
  refused : Connect

-- `poll` reports an event, with or without POLLERR, or returns 0 after its 5 seconds, or -1.
pub data Poll : Type 0 where
  event : (error : Bool) → Poll
  timeout : Poll
  failed : Poll

pub record ClientKernel : Type 0 where
  pub allocates : Bool
  pub socket : Option ℕ
  pub gets_flags : Bool
  pub sets_flags : Bool
  pub connect : Connect
  pub poll : Poll

module _ (fd : ℕ) where
  abbrev client_fails : List Call → Option State × List Call
  client_fails calls = (none, calls ++ (Call.close fd ∷ Call.free ∷ []))

  -- After the `poll`.
  unfoldable pub client_polled : Poll → List Call → Option State × List Call
  client_polled (Poll.event error) calls =
      if error then client_fails calls else (some (record { fd = fd; is_server = false }), calls)
  client_polled Poll.timeout calls = client_fails calls
  client_polled Poll.failed calls = client_fails calls

  -- After the `connect`.
  unfoldable pub client_connected : Connect → Poll → List Call → Option State × List Call
  client_connected Connect.connected poll calls =
      client_polled poll (calls ++ (Call.poll fd 5000 ∷ []))
  client_connected Connect.in_progress poll calls =
      client_polled poll (calls ++ (Call.poll fd 5000 ∷ []))
  client_connected Connect.refused poll calls = client_fails calls

unfoldable pub client_socket : (path : String) → ClientKernel → Option ℕ → Option State × List Call
client_socket path k none = (none, Call.malloc ∷ Call.socket ∷ Call.free ∷ [])
client_socket path k (some fd) =
    let undo = Call.close fd ∷ Call.free ∷ [] in
    let flagged = Call.malloc ∷ Call.socket ∷ Call.get_flags fd ∷ [] in
    let set = flagged ++ (Call.set_nonblock fd ∷ []) in
    if k.gets_flags
    then (if k.sets_flags
        then client_connected fd k.connect k.poll (set ++ (Call.connect path ∷ []))
        else (none, set ++ undo))
    else (none, flagged ++ undo)

unfoldable pub setup_uds_nonblocking_client :
    (path : String) → ClientKernel → Option State × List Call
setup_uds_nonblocking_client path k =
    if k.allocates then client_socket path k k.socket else (none, Call.malloc ∷ [])

unfoldable pub free_uds_nonblocking : Option State → List Call
free_uds_nonblocking state = free_state state

-- The setup has made the calls up to the `connect`, none of which frees or closes.
client_connected-Balanced :
    (path : String) (fd : ℕ) (connect : Connect) (poll : Poll)
    → let calls =
        Call.malloc
        ∷ Call.socket
        ∷ Call.get_flags fd
        ∷ Call.set_nonblock fd
        ∷ Call.connect path
        ∷ [] in
      let (result, calls') = client_connected fd connect poll calls in
      Balanced false true (some fd) result calls'
unfolding client_connected client_polled free_state
client_connected-Balanced path fd Connect.refused poll = (refl, refl)
client_connected-Balanced path fd Connect.connected (Poll.event false) =
    (refl, refl, refl, refl, refl)
client_connected-Balanced path fd Connect.connected (Poll.event true) = (refl, refl)
client_connected-Balanced path fd Connect.connected Poll.timeout = (refl, refl)
client_connected-Balanced path fd Connect.connected Poll.failed = (refl, refl)
client_connected-Balanced path fd Connect.in_progress (Poll.event false) =
    (refl, refl, refl, refl, refl)
client_connected-Balanced path fd Connect.in_progress (Poll.event true) = (refl, refl)
client_connected-Balanced path fd Connect.in_progress Poll.timeout = (refl, refl)
client_connected-Balanced path fd Connect.in_progress Poll.failed = (refl, refl)

client_socket-Balanced :
    (path : String) (k : ClientKernel) (fd : Option ℕ)
    → let (result, calls) = client_socket path k fd in Balanced false true fd result calls
unfolding client_socket free_state client_connected
client_socket-Balanced path k none = (refl, refl)
client_socket-Balanced path k (some fd) = elim (Bool-cases k.gets_flags) [
  | inr e ↦ rw e (refl, refl)
  | inl e ↦ rw e (elim (Bool-cases k.sets_flags) [
    | inr s ↦ rw s (refl, refl)
    | inl s ↦ rw s (client_connected-Balanced path fd k.connect k.poll)
  ])
]

-- However the calls turn out, the setup of the client's socket in uds_nonblocking.c that fails closes the
-- descriptor and frees the memory that it got, once each; one that succeeds gives the state of a client
-- that holds both, which are returned once each when it is freed.
setup_nonblocking_client-Balanced :
    (path : String) (k : ClientKernel)
    → let (result, calls) = setup_uds_nonblocking_client path k in
      Balanced false k.allocates k.socket result calls
unfolding setup_uds_nonblocking_client client_socket
setup_nonblocking_client-Balanced path k = elim (Bool-cases k.allocates) [
  | inl e ↦ rw e (client_socket-Balanced path k k.socket)
  | inr e ↦ rw e (refl, refl)
]
