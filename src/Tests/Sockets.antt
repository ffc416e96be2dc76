-- ===== src/Tests/Sockets.antt =====
-- Transfers in pieces over a socket.
use ipc_benchmark.Prelude.{
  ℕ, zero, suc, ◌+◌, ◌<◌, ◌≡◌, refl, true, false, List, [], ◌∷◌, ◌++◌, some, length, take, drop,
  arith,
}
use ipc_benchmark.Memory.{copy_in, copy_out}
use ipc_benchmark.Memory.Region.{length-copy_out}
use ipc_benchmark.Stats.{no_stats}
use ipc_benchmark.Socket.{Transfer, RoundCalls, server_round, server_loop, setup_server, free_state}
use ipc_benchmark.Socket.Balance.{succeeding, has_file, files_after, freed_server_leaves_file}
use ipc_benchmark.Stats.Summary.{Summary}
use ipc_benchmark.UdsBlocking.Client.{ClientRound, ClientRun}
use ipc_benchmark.UdsBlocking.Client.Summarized.{Finishes, run_client-Finishes}
use ipc_benchmark.Socket.Session.{ServerRun, server_session, Ends, server_session-Ends}
use ipc_benchmark.Socket.Echo.{IsWhole, joined, landed, server_loop_echo}
use ipc_benchmark.Socket.Short.{server_round_short}
use ipc_benchmark.UdsBlocking.{World, Turn}
use ipc_benchmark.UdsBlocking.Exchange.{Exchanged, turn-Exchanged}
use ipc_benchmark.UdsNonblocking.{Answer, Outcome, read_stops, read_nonblocking}
use ipc_benchmark.UdsNonblocking.Transfer.{Sound, moves, read_nonblocking_exact}
use ipc_benchmark.UdsNonblocking.Bounds.{Within, read_nonblocking-Within}
use ipc_benchmark.UdsNonblocking.Round as N
use ipc_benchmark.UdsNonblocking.Exchange as E
use ipc_benchmark.UdsNonblocking.Exchange.{nonblocking_turn-Exchanged}
use ipc_benchmark.Tests.Fixture.{zeros, prepared, prepared_size, prepared_low, sent, sent-IsSound}

abbrev four : List ℕ
four = 1 ∷ 2 ∷ 3 ∷ 4 ∷ []

abbrev pieces : List Answer
pieces =
    Answer.interrupted
    ∷ Answer.ready 1
    ∷ Answer.would_block true
    ∷ Answer.ready 0
    ∷ Answer.ready 9
    ∷ Answer.ready 0
    ∷ []

read_nonblocking_exact_example :
    read_nonblocking 8 4 pieces zeros (four ++ (5 ∷ []))
    ≡ read_stops (Outcome.finished 4) (copy_in 8 four zeros) (5 ∷ [])
read_nonblocking_exact_example =
    read_nonblocking_exact 8 4 pieces zeros (four ++ (5 ∷ [])) (refl, tt) (omega arith)
      (omega arith)

abbrev failing : List Answer
failing = Answer.ready 1 ∷ Answer.would_block false ∷ []

read_nonblocking-Within_example : Within 4 8 zeros (read_nonblocking 8 4 failing zeros four)
read_nonblocking-Within_example = read_nonblocking-Within 8 4 failing zeros four

-- Enough answers for any message of the client.
abbrev many : ℕ → List Answer
many zero = []
many (suc n) = Answer.ready 0 ∷ many n

many-Sound : (n : ℕ) → Sound (many n)
many-Sound zero = tt
many-Sound (suc n) = many-Sound n

moves-many : (n : ℕ) → moves (many n) ≡ n
moves-many zero = refl
moves-many (suc n) = omega (arith, moves-many n)

-- Calls that are not cut short.
abbrev whole_calls : RoundCalls
whole_calls = record {
  header = Transfer.moves 31;
  body = Transfer.moves 131071;
  reply = Transfer.moves 131071;
}

whole_calls-IsWhole : IsWhole whole_calls
whole_calls-IsWhole = (omega arith, omega arith, omega arith)

server_loop_echo_example :
    server_loop (whole_calls ∷ whole_calls ∷ []) zeros (joined (sent ∷ sent ∷ []) ++ four) []
    ≡ some (record {
      goes_on = true;
      buffer = landed (sent ∷ sent ∷ []) zeros;
      inbound = four;
      outbound = [] ++ joined (sent ∷ sent ∷ []);
    })
server_loop_echo_example =
    server_loop_echo (sent ∷ sent ∷ []) (whole_calls ∷ whole_calls ∷ []) zeros four []
      (sent-IsSound, (sent-IsSound, tt)) (whole_calls-IsWhole, (whole_calls-IsWhole, tt)) refl

server_round_short_example :
    let buffer' = copy_in 0 (take (33 + 99) sent) zeros in
    server_round
      (record {
        header = Transfer.moves 31;
        body = Transfer.moves 99;
        reply = Transfer.moves 131071;
      })
      zeros
      (sent ++ [])
      []
    ≡ some (record {
      goes_on = true;
      buffer = buffer';
      inbound = drop (33 + 99) sent ++ [];
      outbound = [] ++ copy_out 0 (length sent) buffer';
    })
server_round_short_example =
    server_round_short sent-IsSound [] zeros 99 sent_longer (Transfer.moves 31)
      (Transfer.moves 131071) [] (omega arith) (omega arith)
  where
    sent_longer : 33 + 99 < length sent
    sent_longer = omega (arith, prepared_low, length-copy_out 0 prepared_size prepared)

abbrev quiet : World
quiet = record {
  client_buffer = zeros;
  server_buffer = zeros;
  to_server = [];
  to_client = [];
  serving = true;
  stats = no_stats;
}

abbrev first_turn : Turn
first_turn = record {
  random = 7;
  now = 100;
  now' = 101;
  sends = Transfer.moves 131071;
  server = whole_calls;
  header = Transfer.moves 31;
  body = Transfer.moves 131071;
  done = 200;
}

turn-Exchanged_example : Exchanged first_turn quiet
turn-Exchanged_example =
    turn-Exchanged first_turn quiet (omega arith, whole_calls-IsWhole, omega arith, omega arith)
      (refl, refl, refl)

abbrev quiet_pieces : N.World
quiet_pieces = record {
  client_buffer = zeros;
  server_buffer = zeros;
  to_server = [];
  to_client = [];
  serving = true;
  stats = no_stats;
}

abbrev turn_in_pieces : N.Turn
turn_in_pieces = record {
  random = 7;
  now = 100;
  now' = 101;
  sends = many 5000;
  server = whole_calls;
  header = many 32;
  body = many 5000;
  done = 200;
}

nonblocking_turn-Exchanged_example : E.Exchanged turn_in_pieces quiet_pieces
nonblocking_turn-Exchanged_example =
    nonblocking_turn-Exchanged turn_in_pieces quiet_pieces
      (
        (many-Sound 5000, omega (arith, moves-many 5000)),
        whole_calls-IsWhole,
        (many-Sound 32, omega (arith, moves-many 32)),
        (many-Sound 5000, omega (arith, moves-many 5000)),
      )
      (refl, refl, refl)

freed_server_leaves_file_test :
    let (result, calls) = setup_server "/tmp/uds_blocking.sock" (succeeding 5) in
    has_file "/tmp/uds_blocking.sock" (files_after (calls ++ free_state result) []) ≡ true
freed_server_leaves_file_test = freed_server_leaves_file "/tmp/uds_blocking.sock" 5 [] refl

-- A session of one round, with a message that is too short.
abbrev short_run : ServerRun
short_run = record { allocates = true; accepts = some 6; rounds = whole_calls ∷ [] }

server_session-Ends_example :
    Ends
      (server_session "/tmp/uds_blocking.sock" (succeeding 5) short_run zeros four [])
      2
      (6 ∷ 5 ∷ [])
server_session-Ends_example =
    server_session-Ends "/tmp/uds_blocking.sock" (succeeding 5) short_run zeros four []

-- A round whose response breaks off.
abbrev cut_short : ClientRound
cut_short = record {
  random = 7;
  now = 100;
  now' = 101;
  done = 200;
  sends = Transfer.moves 131071;
  header = Transfer.moves 31;
  body = Transfer.fails;
  arrives = four;
}

abbrev cut_run : ClientRun
cut_run = record { gets_buffer = true; gets_latencies = true; rounds = cut_short ∷ cut_short ∷ [] }

abbrev no_summary : Summary
no_summary = record { avg_sum = 0; avg_count = 0; p50 = 0; p95 = 0; p99 = 0 }

run_client-Finishes_example : Finishes cut_run zeros no_stats no_summary
run_client-Finishes_example = run_client-Finishes cut_run zeros no_stats no_summary refl
