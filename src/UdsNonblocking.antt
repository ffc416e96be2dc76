-- ===== src/UdsNonblocking.antt =====
-- uds_nonblocking.c: `read_nonblocking` and `write_nonblocking`, which move a given number of bytes
-- over a socket that takes and gives them in pieces. The kernel is a parameter: a list of its answers
-- to the calls of `recv` or `send`, one for each round of the loop, and the stream of bytes between the
-- two ends. The loops end with the list; `pending` is a loop that still waits for an answer.
pub mod Transfer
pub mod Bounds
pub mod Receive
pub mod Setup
pub mod Round
pub mod Exchange
use ipc_benchmark.Prelude.{
  ℕ, zero, ◌+◌, ◌-◌, min, suc, Bool, Option, some, ◌>>=◌, ◌||◌, List, [], ◌∷◌, ◌++◌, ltb, ◌==◌,
  if◌then◌else◌, length, take, drop,
}
use ipc_benchmark.Memory.{Memory, copy_in}
use ipc_benchmark.Stats.{Stats, record_response}
use ipc_benchmark.Message.{header_size, max_msg_size, get_word, validate_message}

-- `ready k` moves up to `k + 1` bytes, and where `recv` finds no bytes it says that the peer is gone.
-- `would_block` has whether the `poll` that follows succeeds.
pub data Answer : Type 0 where
  ready : ℕ → Answer
  interrupted : Answer
  would_block : Bool → Answer
  broken : Answer

-- The result of the call: a number of bytes, -1, or none yet.
pub data Outcome : Type 0 where
  finished : ℕ → Outcome
  failed : Outcome
  pending : Outcome

pub record ReadState : Type 0 where
  pub outcome : Outcome
  pub buffer : Memory
  pub stream : List ℕ

abbrev pub read_stops : Outcome → Memory → List ℕ → ReadState
read_stops outcome buffer stream = record { outcome = outcome; buffer = buffer; stream = stream }

-- The loop of `read_nonblocking(fd, buf, n)`, where `buf` is the address `base` of the buffer.
unfoldable pub read_loop :
    (n base : ℕ) → List Answer → (total : ℕ) → Memory → (stream : List ℕ) → ReadState
read_loop n base [] total buffer stream =
    read_stops (if ltb total n then Outcome.pending else Outcome.finished total) buffer stream
read_loop n base (Answer.ready k ∷ answers) total buffer stream =
    let got = take (min (suc k) (n - total)) stream in
    let rest =
      read_loop n base answers (total + length got) (copy_in (base + total) got buffer)
        (drop (length got) stream) in
    if ltb total n
    then (if length got == 0 then read_stops (Outcome.finished total) buffer stream else rest)
    else read_stops (Outcome.finished total) buffer stream
read_loop n base (Answer.interrupted ∷ answers) total buffer stream =
    let rest = read_loop n base answers total buffer stream in
    if ltb total n then rest else read_stops (Outcome.finished total) buffer stream
read_loop n base (Answer.would_block polled ∷ answers) total buffer stream =
    let rest = read_loop n base answers total buffer stream in
    if ltb total n
    then (if polled then rest else read_stops Outcome.failed buffer stream)
    else read_stops (Outcome.finished total) buffer stream
read_loop n base (Answer.broken ∷ answers) total buffer stream =
    read_stops (if ltb total n then Outcome.failed else Outcome.finished total) buffer stream

unfoldable pub read_nonblocking :
    (base n : ℕ) → List Answer → Memory → (stream : List ℕ) → ReadState
read_nonblocking base n answers buffer stream = read_loop n base answers 0 buffer stream

-- The loop of `write_nonblocking(fd, buf, n)`: `bytes` is what is left to send, and `sent` the `total`.
unfoldable pub write_loop : List Answer → (total : ℕ) (bytes stream : List ℕ) → Outcome × List ℕ
write_loop answers total [] stream = (Outcome.finished total, stream)
write_loop [] total (b ∷ bytes) stream = (Outcome.pending, stream)
write_loop (Answer.ready k ∷ answers) total (b ∷ bytes) stream =
    let sent = take (suc k) (b ∷ bytes) in
    write_loop answers (total + length sent) (drop (suc k) (b ∷ bytes)) (stream ++ sent)
write_loop (Answer.interrupted ∷ answers) total (b ∷ bytes) stream =
    write_loop answers total (b ∷ bytes) stream
write_loop (Answer.would_block polled ∷ answers) total (b ∷ bytes) stream =
    let rest = write_loop answers total (b ∷ bytes) stream in
    if polled then rest else (Outcome.failed, stream)
write_loop (Answer.broken ∷ answers) total (b ∷ bytes) stream = (Outcome.failed, stream)

unfoldable pub write_nonblocking :
    (bytes : List ℕ) → List Answer → (stream : List ℕ) → Outcome × List ℕ
write_nonblocking bytes answers stream = write_loop answers 0 bytes stream

-- How the client's reception of a response ends: it leaves its loop, waits for the kernel, or has
-- counted the response.
pub data Reception : Type 0 where
  leaves : Reception
  waits : Reception
  counted : Memory → (stream : List ℕ) → Stats → Reception

-- After the body. A body that is cut short by the peer's end is taken as it is, and an invalid message
-- is only reported.
unfoldable pub client_body : (now msg_size : ℕ) → Outcome → ReadState → Stats → Option Reception
client_body now msg_size (Outcome.finished n) r stats = do
  valid ← validate_message max_msg_size r.buffer msg_size
  some (Reception.counted r.buffer r.stream (record_response now msg_size r.buffer stats))
client_body now msg_size Outcome.failed r stats = some Reception.leaves
client_body now msg_size Outcome.pending r stats = some Reception.waits

-- After the header.
unfoldable pub client_header :
    (now : ℕ) (body : List Answer) → Outcome → ReadState → Stats → Option Reception
client_header now body (Outcome.finished zero) r stats = some Reception.leaves
client_header now body (Outcome.finished (suc n)) r stats =
    let msg_size = get_word 4 r.buffer in
    let r' = read_nonblocking header_size (msg_size - header_size) body r.buffer r.stream in
    if ltb msg_size (header_size + 4) || ltb max_msg_size msg_size
    then some Reception.leaves
    else client_body now msg_size r'.outcome r' stats
client_header now body Outcome.failed r stats = some Reception.leaves
client_header now body Outcome.pending r stats = some Reception.waits

-- The client reads the header of the response, then its body, validates and counts it; `header` and
-- `body` are the kernel's answers in the two reads.
unfoldable pub client_receive :
    (now : ℕ) (header body : List Answer) → Memory → (stream : List ℕ) → Stats → Option Reception
client_receive now header body buffer stream stats =
    let r = read_nonblocking 0 header_size header buffer stream in
    client_header now body r.outcome r stats
