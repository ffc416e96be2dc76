-- ===== src/UdsNonblocking/Round.antt =====
-- A round of uds_nonblocking.c: the client's request, the server's echo, the client's reception. The
-- server has the text of uds_blocking.c.
use ipc_benchmark.Prelude.{ℕ, Bool, Option, some, ◌>>=◌, List, [], ◌∷◌, ◌==◌, if◌then◌else◌}
use ipc_benchmark.Memory.{Memory, load}
use ipc_benchmark.Stats.{Stats}
use ipc_benchmark.Message.{max_msg_size, get_word, random_message, set_long}
use ipc_benchmark.Socket
use ipc_benchmark.Socket.{RoundCalls, Served, stopped}
use ipc_benchmark.UdsNonblocking.{Answer, Outcome, write_nonblocking, Reception, client_receive}

unfoldable pub server_round : RoundCalls → Memory → (inbound outbound : List ℕ) → Option Served
server_round calls buffer inbound outbound = Socket.server_round calls buffer inbound outbound

-- The client builds its message, at the times `now` and `now'`.
unfoldable pub client_prepare : (random now now' : ℕ) → Memory → Memory
client_prepare random now now' buffer =
    set_long 16 now' (random_message random now 2048 4096 buffer)

-- How a part of the client's round ends: it leaves its loop, waits for the kernel, or goes on.
pub data Progress : Type 0 where
  leaving : Progress
  waiting : Progress
  going : Progress

abbrev pub after_write : (size : ℕ) → Outcome → Progress
after_write size (Outcome.finished n) = if n == size then Progress.going else Progress.leaving
after_write size Outcome.failed = Progress.leaving
after_write size Outcome.pending = Progress.waiting

unfoldable pub client_send : List Answer → Memory → (stream : List ℕ) → Option (Progress × List ℕ)
client_send answers buffer stream = do
  bytes ← load max_msg_size 0 (get_word 4 buffer) buffer
  let (outcome, stream') = write_nonblocking bytes answers stream
  some (after_write (get_word 4 buffer) outcome, stream')

-- The buffers of both processes, the streams between them, and whether the server is in its loop.
pub record World : Type 0 where
  pub client_buffer : Memory
  pub server_buffer : Memory
  pub to_server : List ℕ
  pub to_client : List ℕ
  pub serving : Bool
  pub stats : Stats

-- What a round gets from outside: `rand()`, the clock, and the kernel's answers.
pub record Turn : Type 0 where
  pub random : ℕ
  pub now : ℕ
  pub now' : ℕ
  pub sends : List Answer
  pub server : RoundCalls
  pub header : List Answer
  pub body : List Answer
  pub done : ℕ

abbrev pub received : Reception → World → Progress × World
received Reception.leaves w = (Progress.leaving, w)
received Reception.waits w = (Progress.waiting, w)
received (Reception.counted buffer stream stats) w =
    (Progress.going, record w { client_buffer = buffer; to_client = stream; stats = stats })

-- The client after its writing.
unfoldable pub turn_back : Turn → Progress → World → Option (Progress × World)
turn_back t Progress.leaving w = some (Progress.leaving, w)
turn_back t Progress.waiting w = some (Progress.waiting, w)
turn_back t Progress.going w = do
  r ← client_receive t.done t.header t.body w.client_buffer w.to_client w.stats
  some (received r w)

unfoldable pub turn : Turn → World → Option (Progress × World)
turn t w = do
  let buffer = client_prepare t.random t.now t.now' w.client_buffer
  (progress, to_server) ← client_send t.sends buffer w.to_server
  s ←
      if w.serving
      then server_round t.server w.server_buffer to_server w.to_client
      else some (stopped w.server_buffer to_server w.to_client)
  turn_back t progress (record w {
    client_buffer = buffer;
    server_buffer = s.buffer;
    to_server = s.inbound;
    to_client = s.outbound;
    serving = s.goes_on;
  })

abbrev pub next_turn : Progress → World → Option (Progress × World) → Option (Progress × World)
next_turn Progress.going w rest = rest
next_turn Progress.leaving w rest = some (Progress.leaving, w)
next_turn Progress.waiting w rest = some (Progress.waiting, w)

-- The rounds that begin before the time is up.
unfoldable pub turns : List Turn → World → Option (Progress × World)
turns [] w = some (Progress.going, w)
turns (t ∷ later) w = do (progress, w') ← turn t w; next_turn progress w' (turns later w')
