-- ===== src/Tests/Nonblocking.antt =====
-- lfshm_nonblocking.c.
use ipc_benchmark.Prelude.{ℕ, ◌+◌, ◌≡◌, ◌≢◌, refl, [], true, false, some, length, arith}
use ipc_benchmark.Prelude.Word.{u32_mod}
use ipc_benchmark.Memory.{copy_in}
use ipc_benchmark.Message.{max_msg_size}
use ipc_benchmark.Stats.{no_stats}
use ipc_benchmark.Ring.Exchange.{Took, read_front}
use ipc_benchmark.Futex.{WaitPc, SignalPc}
use ipc_benchmark.LfshmBlocking.{ServerPc}
use ipc_benchmark.LfshmBlocking.Exchange.{Echoed}
use ipc_benchmark.LfshmBlocking.System as S
use ipc_benchmark.LfshmNonblocking.{
  World, ClientPc, UringPc, Input, client_act, client_read, ring_buffer_read,
}
use ipc_benchmark.LfshmNonblocking.Failure.{Holding, CountsUnserved, failed_wait-CountsUnserved}
use ipc_benchmark.LfshmNonblocking.System.{client_step, here}
use ipc_benchmark.LfshmNonblocking.Simulation.{blocking, Step-blocking}
use ipc_benchmark.LfshmNonblocking.Setup.{setup_server, Begins, setup_lfshm_nonblocking_balance}
use ipc_benchmark.Segment.{closes}
use ipc_benchmark.Segment.Balance.{Unlinked}
use ipc_benchmark.LfshmNonblocking.Exchange.{
  nonblocking_response_is_request, Runs, nonblocking_someone-Runs,
}
use ipc_benchmark.Tests.Fixture.{
  zeros, prepared, sent, sent-IsSound, sent_stands, sent_sized, empty_ring, empty_ring-IsQueue,
  full32,
}
use ipc_benchmark.Tests.LockFree.{kernel, woken-Inv}

-- The client has built its message for an empty ring.
abbrev built : World
built = record {
  rb = record {
    ring = empty_ring;
    server_futex = 0;
    client_futex = 0;
    ready = true;
    message_available = false;
    response_available = false;
  };
  server = ServerPc.waiting WaitPc.asleep;
  server_buffer = zeros;
  client = ClientPc.writing;
  client_buffer = prepared;
  stats = no_stats;
}

built-Holding : Holding built.rb []
built-Holding = record {
  queue = empty_ring-IsQueue u32_mod (omega arith) (omega arith);
  large = omega arith;
}

-- liburing reports errors throughout.
abbrev errors : ℕ → Input
errors n = record { time_up = false; random = 7; now = 200 + n; now' = 201; uring_ok = false }

failed_wait-CountsUnserved_example : CountsUnserved errors sent built
failed_wait-CountsUnserved_example =
    failed_wait-CountsUnserved built sent errors refl refl refl built-Holding sent-IsSound
      sent_sized sent_stands refl

-- The client's wait has found the response flag up.
abbrev met : World
met = record built {
  rb = record {
    ring = full32.ring;
    server_futex = 1;
    client_futex = 1;
    ready = true;
    message_available = false;
    response_available = true;
  };
  server = ServerPc.signalling SignalPc.add_one;
  client = ClientPc.waiting (UringPc.returned true);
}

abbrev met_back : Took u32_mod full32.ring max_msg_size sent []
met_back = read_front full32.queue max_msg_size (omega (arith, sent-IsSound.short))

abbrev read_met : World
read_met = record met {
  rb = record met.rb { ring = met_back.ring };
  client_buffer = copy_in 0 sent prepared;
  client = ClientPc.clearing (length sent);
}

met_reads : client_read met ≡ some read_met
unfolding client_read ring_buffer_read
met_reads = rw met_back.runs refl

nonblocking_response_is_request_example : Echoed (blocking met) (blocking read_met)
nonblocking_response_is_request_example =
    nonblocking_response_is_request woken-Inv here refl met_reads

abbrev error_free : Input
error_free = record { time_up = false; random = 7; now = 100; now' = 101; uring_ok = true }

met_goes_on : met.client ≢ ClientPc.stopped
met_goes_on e = cc

nonblocking_someone-Runs_example : Runs error_free met
nonblocking_someone-Runs_example =
    nonblocking_someone-Runs woken-Inv here met_goes_on error_free refl

met_acts : client_act error_free met.client met ≡ some read_met
met_acts = unfold client_act in met_reads

Step-blocking_example : S.Step (blocking met) (blocking read_met)
Step-blocking_example = Step-blocking (client_step error_free met_acts) refl

setup_lfshm_nonblocking_balance_example :
    let (result, calls) = setup_server 192 4096 kernel 20000 met.rb in
    (closes calls ≡ 1) × Unlinked result calls × Begins result
setup_lfshm_nonblocking_balance_example =
    setup_lfshm_nonblocking_balance 192 4096 20000 kernel met.rb (omega arith) (omega arith)
