-- ===== src/Tests/LockFree.antt =====
-- lfshm_blocking.c.
use ipc_benchmark.Prelude.{◌&&◌, ◌≡◌, ◌≢◌, refl, [], ◌∷◌, Bool, true, false, some, arith, List}
use ipc_benchmark.Stats.{no_stats}
use ipc_benchmark.Segment.{Kernel}
use ipc_benchmark.Futex.{WaitPc, SignalPc}
use ipc_benchmark.LfshmBlocking.{
  LockFreeBlockingRingBuffer, ServerPc, ClientPc, World, Input, ring_buffer_write, client_act,
  client_prepare, client_read, client_signal, free_lfshm_blocking_server,
}
use ipc_benchmark.LfshmBlocking.Setup.{init_stores, init_store, until_ready, from_ready}
use ipc_benchmark.LfshmBlocking.Stuck.{Stuck}
use ipc_benchmark.LfshmBlocking.Dropped.{setup_drops_request}
use ipc_benchmark.LfshmBlocking.Start.{start, start-Inv}
use ipc_benchmark.LfshmBlocking.System.{Step, client_step, here, next}
use ipc_benchmark.LfshmBlocking.Phase.{Holding, requested, answered}
use ipc_benchmark.LfshmBlocking.Invariant.{Inv}
use ipc_benchmark.LfshmBlocking.Calls.{client_read_message}
use ipc_benchmark.LfshmBlocking.Interleavings.{Step-Inv}
use ipc_benchmark.LfshmBlocking.Alone.{client_alone}
use ipc_benchmark.LfshmBlocking.Stops.{shutdown_stops_client}
use ipc_benchmark.LfshmBlocking.Exchange.{
  server_in_ring, client_in_ring, exclusive, Echoed, response_read_is_request,
}
use ipc_benchmark.LfshmBlocking.Progress.{Runs, someone-Runs}
use ipc_benchmark.Tests.Fixture.{zeros, prepared, sent, sent-IsSound, sent_stands, full32}

abbrev pub mapped : LockFreeBlockingRingBuffer
mapped = record {
  ring = record { read_pos = 5; write_pos = 9; size = 1; buffer = zeros };
  server_futex = 3;
  client_futex = 4;
  ready = false;
  message_available = true;
  response_available = false;
}

abbrev pub kernel : Kernel
kernel = record { opens = true; truncates = true; maps = true }

abbrev begun : World
begun = start 16384 mapped zeros zeros

begun-Inv : Inv begun
begun-Inv = start-Inv 16384 mapped zeros zeros (omega arith) (omega arith)

abbrev pub input : Input
input = record { time_up = false; random = 7; now = 100; now' = 101 }

begun_steps : Step begun (client_prepare input begun)
unfolding start
begun_steps = client_step input (client_act_top)
  where
    client_act_top : client_act input ClientPc.top begun ≡ some (client_prepare input begun)
    client_act_top = unfold client_act in refl

Step-Inv_example : Inv (client_prepare input begun)
Step-Inv_example = Step-Inv begun_steps begun-Inv

-- A ring with the message, and the flags as given.
abbrev flagged : (message response : Bool) → LockFreeBlockingRingBuffer
flagged message response = record {
  ring = full32.ring;
  server_futex = 1;
  client_futex = 1;
  ready = true;
  message_available = message;
  response_available = response;
}

holding : (message response : Bool) → Holding (flagged message response).ring (sent ∷ [])
holding message response = record { queue = full32.queue; large = omega (arith, full32.size) }

-- The server sleeps, and the client has raised the flag.
abbrev posted : World
posted = record {
  rb = flagged true false;
  server = ServerPc.waiting WaitPc.asleep;
  server_buffer = zeros;
  client = ClientPc.signalling SignalPc.add_one;
  client_buffer = prepared;
  stats = no_stats;
}

posted-Inv : Inv posted
posted-Inv = record {
  phase =
      requested sent (record { sound = sent-IsSound; sent = sent_stands }) (holding true false) refl
        refl tt tt;
  ready = refl;
  server_word = omega arith;
  client_word = omega arith;
  messages = tt;
  responses = tt;
}

posted_goes_on : posted.client ≢ ClientPc.stopped
posted_goes_on e = cc

someone-Runs_example : Runs input posted
someone-Runs_example = someone-Runs posted-Inv here posted_goes_on input

-- The client sleeps, and the server has raised the flag.
abbrev replied : World
replied = record posted {
  rb = flagged false true;
  server = ServerPc.signalling SignalPc.add_one;
  client = ClientPc.waiting WaitPc.asleep;
}

replied_Inv : Inv replied
replied_Inv = record {
  phase =
      answered sent (record { sound = sent-IsSound; sent = sent_stands }) (holding false true) refl
        refl tt tt;
  ready = refl;
  server_word = omega arith;
  client_word = omega arith;
  messages = tt;
  responses = tt;
}

-- The client has seen the flag.
abbrev pub woken : World
woken = record replied { client = ClientPc.waiting WaitPc.met }

pub woken-Inv : Inv woken
woken-Inv = record {
  phase =
      answered sent (record { sound = sent-IsSound; sent = sent_stands }) (holding false true) refl
        refl tt tt;
  ready = refl;
  server_word = omega arith;
  client_word = omega arith;
  messages = tt;
  responses = refl;
}

exclusive_example : (server_in_ring woken.server && client_in_ring woken.client) ≡ false
exclusive_example = exclusive woken-Inv here

woken_reads : (w' : World) × (client_read woken ≡ some w')
woken_reads =
    let (ring, h, runs) = client_read_message woken sent sent-IsSound (holding false true) in
    (_, runs)

response_read_is_request_example : Echoed woken woken_reads.0
response_read_is_request_example = response_read_is_request woken-Inv here refl woken_reads.1

-- What a client leaves that posts as soon as the segment is ready.
abbrev early : LockFreeBlockingRingBuffer
early = record {
  ring = full32.ring;
  server_futex = 0;
  client_futex = 0;
  ready = true;
  message_available = true;
  response_available = false;
}

early_writes : ring_buffer_write (init_stores (until_ready 16384) mapped) sent ≡ some (true, early)
unfolding ring_buffer_write init_stores init_store
early_writes = rw full32.runs refl

-- The server's last two stores are done, and it begins to wait; the client is in its signalling.
abbrev dropped : World
dropped = record {
  rb = init_stores from_ready (record early { message_available = true });
  server = ServerPc.waiting WaitPc.check;
  server_buffer = zeros;
  client = ClientPc.signalling SignalPc.add_one;
  client_buffer = prepared;
  stats = no_stats;
}

dropped_counts :
    client_act input (ClientPc.signalling SignalPc.add_one) dropped
    ≡ some (client_signal SignalPc.add_one dropped)
unfolding client_act
dropped_counts = refl

setup_drops_request_example : Stuck sent (client_signal SignalPc.add_one dropped)
setup_drops_request_example =
    setup_drops_request 16384 mapped early sent dropped (client_signal SignalPc.add_one dropped)
      (omega arith) (omega arith) (omega (arith, sent-IsSound.short))
      (omega (arith, sent-IsSound.short)) early_writes refl refl refl
      (next here (client_step input dropped_counts))

abbrev inputs : List Input
inputs = input ∷ input ∷ input ∷ input ∷ input ∷ input ∷ input ∷ input ∷ input ∷ input ∷ input ∷ []

shutdown_stops_client_example :
    (w' : World) × (client_alone inputs (free_lfshm_blocking_server begun) ≡ some w')
    × (w'.client ≡ ClientPc.stopped)
unfolding start
shutdown_stops_client_example = shutdown_stops_client begun inputs begun-Inv refl (omega arith)
