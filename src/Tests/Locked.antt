-- ===== src/Tests/Locked.antt =====
-- shm_blocking.c.
use ipc_benchmark.Prelude.{◌≡◌, ◌≢◌, refl, [], ◌∷◌, true, false, some, arith}
use ipc_benchmark.Stats.{no_stats}
use ipc_benchmark.Segment.{Kernel}
use ipc_benchmark.ShmBlocking.{
  BlockingRingBuffer, ServerPc, ClientPc, ClientResult, client_receive, client_prepare,
}
use ipc_benchmark.ShmBlocking.Start.{start, start-Phase}
use ipc_benchmark.ShmBlocking.Sections.{Holding, client_receive_message}
use ipc_benchmark.ShmBlocking.System.{World, Step, prepare, here}
use ipc_benchmark.ShmBlocking.Phase.{Phase, answered}
use ipc_benchmark.ShmBlocking.Invariant.{Step-Phase}
use ipc_benchmark.ShmBlocking.Exchange.{Echoed, IsWork, response_is_echo, always-IsWork}
use ipc_benchmark.ShmBlocking.Shutdown.{CountsOwn, shutdown_counts_request}
use ipc_benchmark.Prelude.{List}
use ipc_benchmark.Prelude.Word.{u64_mod}
use ipc_benchmark.Ring.Fresh.{fresh-IsQueue}
use ipc_benchmark.ShmBlocking.Setup.{init_ring}
use ipc_benchmark.ShmBlocking.System.{next, server_wakes}
use ipc_benchmark.ShmBlocking.Phase.{idle, requested}
use ipc_benchmark.ShmBlocking.Abandoned.{Abandoned, server_waits_for_ever}
use ipc_benchmark.ShmBlocking.Alone.{Input, client_alone, shut_down}
use ipc_benchmark.ShmBlocking.Stops.{locked_shutdown_stops_client}
use ipc_benchmark.Tests.Fixture.{zeros, prepared, sent, sent-IsSound, sent_stands, full}

abbrev working : Kernel
working = record { opens = true; truncates = true; maps = false }

abbrev begun : World
begun = start 16384 zeros zeros zeros

begun_Phase : Phase begun
begun_Phase = start-Phase 16384 zeros zeros zeros (omega arith) (omega arith)

abbrev stamped : World
stamped = record begun {
  client = ClientPc.sending;
  client_buffer = client_prepare 7 100 101 begun.client_buffer;
}

stamping : Step begun stamped
unfolding start
stamping = prepare 7 100 101 refl

Step-Phase_example : Phase stamped
Step-Phase_example = Step-Phase stamping begun_Phase

-- The server has answered, and the client has been woken.
abbrev answered_rb : BlockingRingBuffer
answered_rb = record {
  ring = full.ring;
  message_available = false;
  response_available = true;
  ready = true;
}

answered_rb-Holding : Holding answered_rb (sent ∷ [])
answered_rb-Holding = record { queue = full.queue; large = omega (arith, full.size) }

abbrev answered_world : World
answered_world = record {
  rb = answered_rb;
  server = ServerPc.top;
  server_buffer = zeros;
  client = ClientPc.awake;
  client_buffer = prepared;
  stats = no_stats;
}

answered_world_Phase : Phase answered_world
answered_world_Phase =
    answered sent (record { sound = sent-IsSound; sent = sent_stands }) answered_rb-Holding
      (record { message_flag = refl; response_flag = refl; ready_flag = refl }) refl tt

received : (r : ClientResult) × (client_receive 200 answered_rb prepared no_stats ≡ some r)
received =
    let (ring, h, runs) =
      client_receive_message {rb = answered_rb} sent-IsSound prepared 200 no_stats
        answered_rb-Holding refl in
    (_, runs)

response_is_echo_example : Echoed 200 answered_world received.0
response_is_echo_example =
    response_is_echo answered_world_Phase here 200 received.0 refl refl received.1

awake_goes_on : ClientPc.awake ≢ ClientPc.stopped
awake_goes_on e = cc

always-IsWork_example : (w' : World) × (st : Step answered_world w') × IsWork st
always-IsWork_example = always-IsWork answered_world_Phase here awake_goes_on

abbrev input : Input
input = record { time_up = false; random = 7; now = 300; now' = 301 }

abbrev inputs : List Input
inputs = input ∷ input ∷ input ∷ []

locked_shutdown_stops_client_example :
    (w' : World) × (client_alone inputs (shut_down answered_world) ≡ some w')
    × (w'.client ≡ ClientPc.stopped)
locked_shutdown_stops_client_example =
    locked_shutdown_stops_client answered_world_Phase here refl inputs (omega arith)

-- The client has stopped, and the server sleeps.
abbrev left : World
left = record answered_world {
  rb = init_ring 16384 zeros;
  server = ServerPc.asleep;
  client = ClientPc.stopped;
}

left_Phase : Phase left
unfolding init_ring
left_Phase =
    idle
      (record {
        queue =
            fresh-IsQueue u64_mod 16384 zeros (omega arith) (omega arith) (omega arith)
              (omega arith);
        large = omega arith;
      })
      (record { message_flag = refl; response_flag = refl; ready_flag = refl }) tt tt

server_waits_for_ever_example : Abandoned left (record left { server = ServerPc.awake })
server_waits_for_ever_example =
    server_waits_for_ever left_Phase here refl tt (next here (server_wakes refl))

-- The client has posted its message and sleeps, and the server is at the top of its loop.
abbrev posted_rb : BlockingRingBuffer
posted_rb = record answered_rb { message_available = true; response_available = false }

abbrev posted : World
posted = record answered_world { rb = posted_rb; client = ClientPc.asleep }

posted_Phase : Phase posted
posted_Phase =
    requested sent (record { sound = sent-IsSound; sent = sent_stands })
      (record { queue = full.queue; large = omega (arith, full.size) })
      (record { message_flag = refl; response_flag = refl; ready_flag = refl }) tt tt

shutdown_counts_request_example : CountsOwn input posted
shutdown_counts_request_example = shutdown_counts_request posted_Phase here refl refl input
