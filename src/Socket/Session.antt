-- ===== src/Socket/Session.antt =====
-- A server of uds_blocking.c or uds_nonblocking.c from its setup to its end, as `main` runs it.
use ipc_benchmark.Prelude.{
  ℕ, ◌+◌, ◌≡◌, refl, ap, ◌∙◌, arith, Bool, true, false, ◌&&◌, Option, none, some, ◌>>=◌, List, [],
  ◌∷◌, ◌++◌, if◌then◌else◌, Bool-cases, inl, inr,
}
use Prim.Native.String.{String}
use ipc_benchmark.Memory.{Memory}
use ipc_benchmark.Socket.{
  Call, State, ServerKernel, setup_server, server_socket, free_state, RoundCalls, Served, stopped,
  server_loop,
}
use ipc_benchmark.Socket.Balance.{frees, frees-append, closed, closed-append, given}
use ipc_benchmark.Socket.Safety.{server_loop-Returns}

-- What the run of a server meets: `malloc` of its buffer, `accept`, and the rounds that begin before the
-- time is up.
pub record ServerRun : Type 0 where
  pub allocates : Bool
  pub accepts : Option ℕ
  pub rounds : List RoundCalls

-- After the `accept` on `fd`.
unfoldable pub run_accepted :
    (fd : ℕ)
    → ServerRun
    → Option ℕ
    → Memory
    → (inbound outbound : List ℕ) → Option (Served × List Call)
run_accepted fd r none buffer inbound outbound =
    some (stopped buffer inbound outbound, Call.malloc ∷ Call.accept fd ∷ Call.free ∷ [])
run_accepted fd r (some client_fd) buffer inbound outbound = do
  s ← server_loop r.rounds buffer inbound outbound
  some (s, Call.malloc ∷ Call.accept fd ∷ Call.close client_fd ∷ Call.free ∷ [])

-- `run_uds_blocking_server`, and its calls.
unfoldable pub run_server :
    (fd : ℕ) → ServerRun → Memory → (inbound outbound : List ℕ) → Option (Served × List Call)
run_server fd r buffer inbound outbound =
    if r.allocates
    then run_accepted fd r r.accepts buffer inbound outbound
    else some (stopped buffer inbound outbound, Call.malloc ∷ [])

-- After the setup, which has made the calls.
unfoldable pub serve :
    Option State × List Call
    → ServerRun
    → Memory
    → (inbound outbound : List ℕ) → Option (Served × List Call)
serve (none, calls) r buffer inbound outbound = some (stopped buffer inbound outbound, calls)
serve (some state, calls) r buffer inbound outbound = do
  (s, during) ← run_server state.fd r buffer inbound outbound
  some (s, calls ++ (during ++ free_state (some state)))

-- `main` with `--server`: the setup, the run and the release.
unfoldable pub server_session :
    (path : String)
    → ServerKernel
    → ServerRun
    → Memory
    → (inbound outbound : List ℕ) → Option (Served × List Call)
server_session path k r buffer inbound outbound =
    serve (setup_server path k) r buffer inbound outbound

-- Whether the run begins, with its buffer.
abbrev has_socket : Option ℕ → Bool
has_socket none = false
has_socket (some fd) = true

abbrev pub starts : ServerKernel → ServerRun → Bool
starts k r = k.allocates && (has_socket k.socket && (k.binds && (k.listens && r.allocates)))

-- How often `malloc` has given memory.
abbrev pub allocated : ServerKernel → ServerRun → ℕ
allocated k r = (if k.allocates then 1 else 0) + (if starts k r then 1 else 0)

-- The descriptors that `accept` and `socket` have given.
abbrev pub opened : ServerKernel → ServerRun → List ℕ
opened k r = given (starts k r) r.accepts ++ given k.allocates k.socket

-- The session ends, and has returned what it got.
pub record Ends (result : Option (Served × List Call)) (memory : ℕ) (fds : List ℕ) : Type 0 where
  pub served : Served
  pub calls : List Call
  pub ends : result ≡ some (served, calls)
  pub all_freed : frees calls ≡ memory
  pub all_closed : closed calls ≡ fds

run_server-Ends :
    (fd : ℕ) (r : ServerRun) (buffer : Memory) (inbound outbound : List ℕ)
    → Ends
        (run_server fd r buffer inbound outbound)
        (if r.allocates then 1 else 0)
        (given r.allocates r.accepts)
unfolding run_server run_accepted
run_server-Ends fd r buffer inbound outbound = elim (Bool-cases r.allocates) [
  | inr e ↦ rw e (record {
    served = stopped buffer inbound outbound;
    calls = Call.malloc ∷ [];
    ends = refl;
    all_freed = refl;
    all_closed = refl;
  })
  | inl e ↦ rw e (accepted r.accepts)
]
  where
    accepted :
        (accepts : Option ℕ)
        → Ends (run_accepted fd r accepts buffer inbound outbound) 1 (given true accepts)
    accepted none = record {
      served = stopped buffer inbound outbound;
      calls = Call.malloc ∷ Call.accept fd ∷ Call.free ∷ [];
      ends = refl;
      all_freed = refl;
      all_closed = refl;
    }
    accepted (some client_fd) =
        let (s, e) = server_loop-Returns r.rounds buffer inbound outbound in
        record {
          served = s;
          calls = Call.malloc ∷ Call.accept fd ∷ Call.close client_fd ∷ Call.free ∷ [];
          ends = rw e refl;
          all_freed = refl;
          all_closed = refl;
        }

-- The rest of a session whose setup gives the descriptor `fd`.
serve-Ends :
    (path : String) (fd : ℕ) (r : ServerRun) (buffer : Memory) (inbound outbound : List ℕ)
    → let state : State = record { fd = fd; is_server = true } in
      let calls =
        Call.malloc ∷ Call.socket ∷ Call.unlink path ∷ Call.bind path ∷ Call.listen 1 ∷ [] in
      Ends
        (serve (some state, calls) r buffer inbound outbound)
        (1 + (if r.allocates then 1 else 0))
        (given r.allocates r.accepts ++ (fd ∷ []))
unfolding serve free_state
serve-Ends path fd r buffer inbound outbound =
    let state : State = record { fd = fd; is_server = true } in
    let run = run_server-Ends fd r buffer inbound outbound in
    record {
      served = run.served;
      calls =
          Call.malloc
          ∷ Call.socket
          ∷ Call.unlink path
          ∷ Call.bind path
          ∷ Call.listen 1
          ∷ (run.calls ++ free_state (some state));
      ends = rw run.ends refl;
      all_freed = omega (arith, frees-append run.calls (free_state (some state)), run.all_freed);
      all_closed =
          closed-append run.calls (free_state (some state))
          ∙ ap (λ fds. fds ++ (fd ∷ [])) run.all_closed;
    }

-- A setup that fails has returned what it got, and the session ends there.
fails_early :
    {memory : ℕ} {fds : List ℕ} (calls : List Call) (r : ServerRun) (buffer : Memory)
    (inbound outbound : List ℕ)
    → frees calls ≡ memory
    → closed calls ≡ fds
    → Ends (serve (none, calls) r buffer inbound outbound) memory fds
unfolding serve
fails_early calls r buffer inbound outbound f c = record {
  served = stopped buffer inbound outbound;
  calls = calls;
  ends = refl;
  all_freed = f;
  all_closed = c;
}

socket-Ends :
    (path : String) (k : ServerKernel) (r : ServerRun) (buffer : Memory) (inbound outbound : List ℕ)
    (fd : Option ℕ)
    → let began = has_socket fd && (k.binds && (k.listens && r.allocates)) in
      Ends
        (serve (server_socket path k fd) r buffer inbound outbound)
        (1 + (if began then 1 else 0))
        (given began r.accepts ++ given true fd)
unfolding server_socket
socket-Ends path k r buffer inbound outbound none =
    fails_early _ r buffer inbound outbound refl refl
socket-Ends path k r buffer inbound outbound (some fd) = elim (Bool-cases k.binds) [
  | inr e ↦ rw e (fails_early _ r buffer inbound outbound refl refl)
  | inl e ↦ rw e (elim (Bool-cases k.listens) [
    | inr l ↦ rw l (fails_early _ r buffer inbound outbound refl refl)
    | inl l ↦ rw l (serve-Ends path fd r buffer inbound outbound)
  ])
]

-- However the calls of the setup, `malloc`, `accept` and the calls of every round turn out, and whatever
-- bytes come from the client: the session of a server of uds_blocking.c ends, with no access outside of
-- its buffer in any round, and has by then freed memory as often as `malloc` gave it, and closed the
-- descriptors that `accept` and `socket` gave, each once and in this order.
pub server_session-Ends :
    (path : String) (k : ServerKernel) (r : ServerRun) (buffer : Memory) (inbound outbound : List ℕ)
    → Ends (server_session path k r buffer inbound outbound) (allocated k r) (opened k r)
unfolding server_session setup_server server_socket
server_session-Ends path k r buffer inbound outbound = elim (Bool-cases k.allocates) [
  | inl e ↦ rw e (socket-Ends path k r buffer inbound outbound k.socket)
  | inr e ↦ rw e (fails_early _ r buffer inbound outbound refl refl)
]
