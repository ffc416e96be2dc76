-- ===== src/UdsBlocking/Client.antt =====
-- `run_uds_blocking_client` of uds_blocking.c, whoever is at the other end of the socket.
pub mod Safety
pub mod Summarized
use ipc_benchmark.Prelude.{
  ℕ, Bool, true, false, Option, some, ◌>>=◌, List, [], ◌∷◌, ◌++◌, if◌then◌else◌,
}
use ipc_benchmark.Memory.{Memory}
use ipc_benchmark.Stats.{Stats, no_stats}
use ipc_benchmark.Stats.Summary.{Summary, calculate_stats}
use ipc_benchmark.Socket.{Transfer, Call}
use ipc_benchmark.UdsBlocking.{client_prepare, client_send, Reception, client_receive}

-- The client's buffer, and the streams from and to it.
pub record Client : Type 0 where
  pub buffer : Memory
  pub inbound : List ℕ
  pub outbound : List ℕ
  pub stats : Stats

-- What a round gets from outside: `rand()`, the clock, the kernel's answers, and the bytes that have come
-- when the client reads.
pub record ClientRound : Type 0 where
  pub random : ℕ
  pub now : ℕ
  pub now' : ℕ
  pub done : ℕ
  pub sends : Transfer
  pub header : Transfer
  pub body : Transfer
  pub arrives : List ℕ

abbrev pub after_reception : Reception → Client → Bool × Client
after_reception Reception.leaves c = (false, c)
after_reception (Reception.counted buffer stream stats) c =
    (true, record c { buffer = buffer; inbound = stream; stats = stats })

-- After the `send`.
unfoldable pub client_answered : ClientRound → (goes_on : Bool) → Client → Option (Bool × Client)
client_answered t false c = some (false, c)
client_answered t true c = do
  r ← client_receive t.done t.header t.body c.buffer c.inbound c.stats
  some (after_reception r c)

-- A round, and whether the client goes on; `none` is an access outside of its buffer.
unfoldable pub client_round : ClientRound → Client → Option (Bool × Client)
client_round t c = do
  let buffer = client_prepare t.random t.now t.now' c.buffer
  (goes_on, outbound) ← client_send t.sends buffer c.outbound
  client_answered t goes_on
      (record c { buffer = buffer; inbound = c.inbound ++ t.arrives; outbound = outbound })

-- The rounds that begin before the time is up.
unfoldable pub client_loop : List ClientRound → Client → Option Client
client_loop [] c = some c
client_loop (t ∷ rounds) c = do
  (goes_on, c') ← client_round t c
  let rest = client_loop rounds c' in if goes_on then rest else some c'

-- How the two calls of `malloc` turn out, and the rounds.
pub record ClientRun : Type 0 where
  pub gets_buffer : Bool
  pub gets_latencies : Bool
  pub rounds : List ClientRound

-- What the run leaves in the `BenchmarkStats`, and its calls.
pub record ClientEnd : Type 0 where
  pub stats : Stats
  pub summary : Summary
  pub calls : List Call

-- With both arrays, the buffer's of any content.
unfoldable pub run_rounds : List ClientRound → Memory → Summary → Option ClientEnd
run_rounds rounds buffer summary = do
  c ← client_loop rounds (record { buffer = buffer; inbound = []; outbound = []; stats = no_stats })
  summary' ← calculate_stats c.stats.latencies summary
  some (record {
    stats = c.stats;
    summary = summary';
    calls = Call.malloc ∷ Call.malloc ∷ Call.free ∷ Call.free ∷ [];
  })

unfoldable pub run_client : ClientRun → Memory → Stats → Summary → Option ClientEnd
run_client r buffer stats summary =
    if r.gets_buffer
    then (if r.gets_latencies
        then run_rounds r.rounds buffer summary
        else some (record {
          stats = stats;
          summary = summary;
          calls = Call.malloc ∷ Call.malloc ∷ Call.free ∷ [];
        }))
    else some (record { stats = stats; summary = summary; calls = Call.malloc ∷ [] })
