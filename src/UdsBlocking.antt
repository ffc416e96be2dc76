-- ===== src/UdsBlocking.antt =====
-- uds_blocking.c: the client, which sends a message by one `send` and reads the response by two calls of
-- `recv`. The server is in Socket, and the sockets of both are set up here.
pub mod Setup
pub mod Receive
pub mod Exchange
pub mod Client
use ipc_benchmark.Prelude.{
  ℕ, ◌-◌, Bool, true, false, Option, none, some, ◌>>=◌, List, [], ◌∷◌, ◌++◌, ◌==◌, if◌then◌else◌,
  length, drop,
}
use ipc_benchmark.Memory.{Memory, store, load}
use ipc_benchmark.Stats.{Stats, record_response}
use ipc_benchmark.Message.{
  header_size, max_msg_size, get_word, validate_message, random_message, set_long,
}
use ipc_benchmark.Socket.{Transfer, recv, send, RoundCalls, Served, stopped, bad_size, server_round}

-- The client builds its message, at the times `now` and `now'`.
unfoldable pub client_prepare : (random now now' : ℕ) → Memory → Memory
client_prepare random now now' buffer =
    set_long 16 now' (random_message random now 2048 4096 buffer)

-- The `send`: whether the client goes on, and the stream to the server.
unfoldable pub client_sent : (size : ℕ) → Option (List ℕ) → (stream : List ℕ) → Bool × List ℕ
client_sent size none stream = (false, stream)
client_sent size (some sent) stream = (length sent == size, stream ++ sent)

unfoldable pub client_send : Transfer → Memory → (stream : List ℕ) → Option (Bool × List ℕ)
client_send call buffer stream = do
  bytes ← load max_msg_size 0 (get_word 4 buffer) buffer
  some (client_sent (get_word 4 buffer) (send bytes call) stream)

-- How the reception of a response ends: the client leaves its loop, or has counted the response.
pub data Reception : Type 0 where
  leaves : Reception
  counted : Memory → (stream : List ℕ) → Stats → Reception

-- After the body: an invalid message is only reported, and counted all the same.
unfoldable pub client_body :
    (now msg_size : ℕ) → Option (List ℕ) → Memory → (stream : List ℕ) → Stats → Option Reception
client_body now msg_size none buffer stream stats = some Reception.leaves
client_body now msg_size (some bytes) buffer stream stats = do
  buffer' ← store max_msg_size header_size bytes buffer
  valid ← validate_message max_msg_size buffer' msg_size
  some (
      Reception.counted buffer' (drop (length bytes) stream)
        (record_response now msg_size buffer' stats))

unfoldable pub client_sized :
    (now : ℕ) → Transfer → Memory → (stream : List ℕ) → Stats → Option Reception
client_sized now body buffer stream stats =
    let msg_size = get_word 4 buffer in
    if bad_size msg_size
    then some Reception.leaves
    else client_body now msg_size (recv (msg_size - header_size) body stream) buffer stream stats

-- After the header.
unfoldable pub client_header :
    (now : ℕ) → Transfer → Option (List ℕ) → Memory → (stream : List ℕ) → Stats → Option Reception
client_header now body none buffer stream stats = some Reception.leaves
client_header now body (some []) buffer stream stats = some Reception.leaves
client_header now body (some (b ∷ bytes)) buffer stream stats = do
  buffer' ← store max_msg_size 0 (b ∷ bytes) buffer
  client_sized now body buffer' (drop (length (b ∷ bytes)) stream) stats

-- The reception of a response at the time `now`; `none` is an access outside of the buffer.
unfoldable pub client_receive :
    (now : ℕ) (header body : Transfer) → Memory → (stream : List ℕ) → Stats → Option Reception
client_receive now header body buffer stream stats =
    client_header now body (recv header_size header stream) buffer stream stats

-- The buffers of both processes, the streams between them, and whether the server is in its loop.
pub record World : Type 0 where
  pub client_buffer : Memory
  pub server_buffer : Memory
  pub to_server : List ℕ
  pub to_client : List ℕ
  pub serving : Bool
  pub stats : Stats

-- What a round gets from outside: `rand()`, the clock, and the kernel's answers.
pub record Turn : Type 0 where
  pub random : ℕ
  pub now : ℕ
  pub now' : ℕ
  pub sends : Transfer
  pub server : RoundCalls
  pub header : Transfer
  pub body : Transfer
  pub done : ℕ

abbrev pub received : Reception → World → Bool × World
received Reception.leaves w = (false, w)
received (Reception.counted buffer stream stats) w =
    (true, record w { client_buffer = buffer; to_client = stream; stats = stats })

-- The client after its `send`.
unfoldable pub turn_back : Turn → (goes_on : Bool) → World → Option (Bool × World)
turn_back t false w = some (false, w)
turn_back t true w = do
  r ← client_receive t.done t.header t.body w.client_buffer w.to_client w.stats
  some (received r w)

-- The client's request, the server's round, and the client's reception, one after the other; whether
-- the client goes on.
unfoldable pub turn : Turn → World → Option (Bool × World)
turn t w = do
  let buffer = client_prepare t.random t.now t.now' w.client_buffer
  (goes_on, to_server) ← client_send t.sends buffer w.to_server
  s ←
      if w.serving
      then server_round t.server w.server_buffer to_server w.to_client
      else some (stopped w.server_buffer to_server w.to_client)
  turn_back t goes_on (record w {
    client_buffer = buffer;
    server_buffer = s.buffer;
    to_server = s.inbound;
    to_client = s.outbound;
    serving = s.goes_on;
  })

-- The rounds that begin before the time is up.
unfoldable pub turns : List Turn → World → Option (Bool × World)
turns [] w = some (true, w)
turns (t ∷ later) w = do
  (goes_on, w') ← turn t w
  let rest = turns later w'
  if goes_on then rest else some (false, w')
