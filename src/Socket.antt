-- ===== src/Socket.antt =====
-- The stream sockets of uds_blocking.c and uds_nonblocking.c: the calls by which a server sets its
-- socket up, and the server's loop, which have the same text in both files. The kernel is a parameter.
pub mod Balance
pub mod Safety
pub mod Echo
pub mod Short
pub mod Session
use ipc_benchmark.Prelude.{
  ℕ, zero, suc, ◌+◌, ◌-◌, min, Bool, true, false, Option, none, some, ◌>>=◌, ◌||◌, List, [], ◌∷◌,
  ◌++◌, ltb, ◌==◌, if◌then◌else◌, length, take, drop,
}
use Prim.Native.String.{String}
use ipc_benchmark.Memory.{Memory, store, load}
use ipc_benchmark.Message.{header_size, max_msg_size, get_word, validate_message}

-- The calls, with the descriptors and the names in the file system that they are about.
pub data Call : Type 0 where
  malloc : Call
  free : Call
  socket : Call
  unlink : String → Call
  bind : String → Call
  listen : ℕ → Call
  accept : ℕ → Call
  connect : String → Call
  get_flags : ℕ → Call
  set_nonblock : ℕ → Call
  poll : (fd timeout : ℕ) → Call
  close : ℕ → Call

-- `UDSBlockingState` and `UDSNonblockingState`
pub record State : Type 0 where
  pub fd : ℕ
  pub is_server : Bool

-- What the calls of the server's setup return; `socket` has the descriptor.
pub record ServerKernel : Type 0 where
  pub allocates : Bool
  pub socket : Option ℕ
  pub binds : Bool
  pub listens : Bool

unfoldable pub server_socket : (path : String) → ServerKernel → Option ℕ → Option State × List Call
server_socket path k none = (none, Call.malloc ∷ Call.socket ∷ Call.free ∷ [])
server_socket path k (some fd) =
    let bound = Call.malloc ∷ Call.socket ∷ Call.unlink path ∷ Call.bind path ∷ [] in
    let undo = Call.close fd ∷ Call.free ∷ [] in
    if k.binds
    then (if k.listens
        then (some (record { fd = fd; is_server = true }), bound ++ (Call.listen 1 ∷ []))
        else (none, bound ++ (Call.listen 1 ∷ []) ++ undo))
    else (none, bound ++ undo)

-- The state or NULL, and the calls made.
unfoldable pub setup_server : (path : String) → ServerKernel → Option State × List Call
setup_server path k =
    if k.allocates then server_socket path k k.socket else (none, Call.malloc ∷ [])

-- `SOCKET_PATH`
abbrev pub socket_path : String
socket_path = "/tmp/ipc_benchmark_socket"

-- `free_uds_blocking` and `free_uds_nonblocking`
unfoldable pub free_state : Option State → List Call
free_state none = []
free_state (some state) =
    Call.close state.fd ∷ (if state.is_server then Call.unlink socket_path ∷ [] else [])
    ++ (Call.free ∷ [])

-- How a blocking call on a stream turns out: `moves k` moves up to `k + 1` bytes, and where `recv` finds
-- none it says that the peer is gone.
pub data Transfer : Type 0 where
  moves : ℕ → Transfer
  fails : Transfer

-- The bytes that `recv(fd, buf, n, 0)` takes from the front of the stream, or -1.
unfoldable pub recv : (n : ℕ) → Transfer → (stream : List ℕ) → Option (List ℕ)
recv n (Transfer.moves k) stream = some (take (min (suc k) n) stream)
recv n Transfer.fails stream = none

-- The bytes that `send` puts at the end of the stream, or -1.
unfoldable pub send : (bytes : List ℕ) → Transfer → Option (List ℕ)
send bytes (Transfer.moves k) = some (take (suc k) bytes)
send bytes Transfer.fails = none

-- The kernel's answers in one round of the server.
pub record RoundCalls : Type 0 where
  pub header : Transfer
  pub body : Transfer
  pub reply : Transfer

-- The server's buffer and the streams from and to the client; `goes_on` is false where the server has
-- left its loop.
pub record Served : Type 0 where
  pub goes_on : Bool
  pub buffer : Memory
  pub inbound : List ℕ
  pub outbound : List ℕ

abbrev pub stopped : Memory → (inbound outbound : List ℕ) → Served
stopped buffer inbound outbound = record {
  goes_on = false;
  buffer = buffer;
  inbound = inbound;
  outbound = outbound;
}

-- `msg_size < sizeof(Message) + sizeof(uint32_t) || msg_size > MAX_MSG_SIZE`
abbrev pub bad_size : ℕ → Bool
bad_size msg_size = ltb msg_size (header_size + 4) || ltb max_msg_size msg_size

unfoldable pub server_sent :
    (msg_size : ℕ) → Option (List ℕ) → Memory → (inbound outbound : List ℕ) → Served
server_sent msg_size none buffer inbound outbound = stopped buffer inbound outbound
server_sent msg_size (some sent) buffer inbound outbound = record {
  goes_on = length sent == msg_size;
  buffer = buffer;
  inbound = inbound;
  outbound = outbound ++ sent;
}

-- After the body: an invalid message is only reported, and echoed all the same.
unfoldable pub server_body :
    RoundCalls
    → (msg_size : ℕ) → Option (List ℕ)
    → Memory
    → (inbound outbound : List ℕ) → Option Served
server_body calls msg_size none buffer inbound outbound = some (stopped buffer inbound outbound)
server_body calls msg_size (some bytes) buffer inbound outbound = do
  buffer' ← store max_msg_size header_size bytes buffer
  valid ← validate_message max_msg_size buffer' msg_size
  echo ← load max_msg_size 0 msg_size buffer'
  some (server_sent msg_size (send echo calls.reply) buffer' (drop (length bytes) inbound) outbound)

unfoldable pub server_sized : RoundCalls → Memory → (inbound outbound : List ℕ) → Option Served
server_sized calls buffer inbound outbound =
    let msg_size = get_word 4 buffer in
    if bad_size msg_size
    then some (stopped buffer inbound outbound)
    else server_body calls msg_size (recv (msg_size - header_size) calls.body inbound) buffer
        inbound outbound

-- After the header.
unfoldable pub server_header :
    RoundCalls → Option (List ℕ) → Memory → (inbound outbound : List ℕ) → Option Served
server_header calls none buffer inbound outbound = some (stopped buffer inbound outbound)
server_header calls (some []) buffer inbound outbound = some (stopped buffer inbound outbound)
server_header calls (some (b ∷ bytes)) buffer inbound outbound = do
  buffer' ← store max_msg_size 0 (b ∷ bytes) buffer
  server_sized calls buffer' (drop (length (b ∷ bytes)) inbound) outbound

-- One round of the server's loop; `none` is an access outside of its buffer.
unfoldable pub server_round : RoundCalls → Memory → (inbound outbound : List ℕ) → Option Served
server_round calls buffer inbound outbound =
    server_header calls (recv header_size calls.header inbound) buffer inbound outbound

-- The loop, for the rounds that begin before the time is up.
unfoldable pub server_loop : List RoundCalls → Memory → (inbound outbound : List ℕ) → Option Served
server_loop [] buffer inbound outbound =
    some (record { goes_on = true; buffer = buffer; inbound = inbound; outbound = outbound })
server_loop (calls ∷ rounds) buffer inbound outbound = do
  s ← server_round calls buffer inbound outbound
  let rest = server_loop rounds s.buffer s.inbound s.outbound in if s.goes_on then rest else some s
