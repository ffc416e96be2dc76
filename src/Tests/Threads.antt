-- ===== src/Tests/Threads.antt =====
-- shm_nonblocking.c and interrupt.c.
use ipc_benchmark.Prelude.{◌≡◌, refl, [], ◌∷◌, true, false, ◌&&◌, some, inr, arith}
use ipc_benchmark.Stats.{no_stats}
use ipc_benchmark.Interrupt.{Interrupt, Wait, interrupt_wait, wait_loop, after_read, after_poll}
use ipc_benchmark.Interrupt.Waiting.{Decides, interrupt_wait-Decides}
use ipc_benchmark.Interrupt.Signals.{Signals, owed, descriptor, descriptor-Documented}
use ipc_benchmark.Interrupt.Traffic.{Channel}
use ipc_benchmark.ShmBlocking.{ServerPc}
use ipc_benchmark.ShmNonblocking.{
  NonBlockingRingBuffer, ThreadData, ThreadPc, ThreadResult, thread_receive,
}
use ipc_benchmark.ShmNonblocking.Sections.{Holding, IsPosted, thread_receive_message}
use ipc_benchmark.ShmNonblocking.System.{World, MainPc, prepare, main_prepare, here}
use ipc_benchmark.ShmNonblocking.Phase.{MainLeft, StandsIn, Inv, idle, answered}
use ipc_benchmark.ShmNonblocking.Invariant.{threads_Step-Inv}
use ipc_benchmark.ShmNonblocking.Exchange.{
  Echoed, thread_receives_request, main_in_buffer, thread_in_buffer, buffer_exclusive,
}
use ipc_benchmark.ShmNonblocking.Progress.{Works, threads_always-Works}
use ipc_benchmark.ShmNonblocking.Shutdown.{SendsAgain, shutdown-SendsAgain}
use ipc_benchmark.Tests.Fixture.{
  zeros, prepared, sent, sent-IsSound, sent_stands, sent_sized, empty_ring, empty_ring-IsQueue,
  full,
}

abbrev idle_rb : NonBlockingRingBuffer
idle_rb = record {
  ring = empty_ring;
  message_available = false;
  response_available = false;
  message_processed = false;
  ready = true;
}

abbrev posted_data : ThreadData
posted_data = record { msg = prepared; msg_size = 0; read_success = false }

posted_data-IsPosted : IsPosted posted_data sent
posted_data-IsPosted = record { sound = sent-IsSound; sized = sent_sized; stands = sent_stands }

idle_rb-Holding : Holding idle_rb []
idle_rb-Holding = record {
  queue = empty_ring-IsQueue _ (omega arith) (omega arith);
  large = omega arith;
}

-- Nothing is under way, and the thread waits for a message.
abbrev quiet : World
quiet = record {
  rb = idle_rb;
  server = ServerPc.asleep;
  server_buffer = zeros;
  thread = posted_data;
  thread_pc = ThreadPc.waits_write;
  main = MainPc.top;
  read_intr = Channel.counter 0;
  write_intr = Channel.values 0;
  should_exit = false;
  stats = no_stats;
}

quiet-StandsIn : StandsIn quiet [] false false 0 0
quiet-StandsIn = record {
  holds = idle_rb-Holding;
  message_flag = refl;
  response_flag = refl;
  ready_flag = refl;
  write_signals = refl;
  read_signals = refl;
  stays = refl;
}

quiet-Inv : Inv quiet
quiet-Inv = inr (idle quiet-StandsIn tt tt tt)

threads_Step-Inv_example : Inv (main_prepare 7 100 101 quiet)
threads_Step-Inv_example = threads_Step-Inv (prepare 7 100 101 refl) quiet-Inv

quiet_in_loop : ¬ MainLeft quiet.main
quiet_in_loop left = left

threads_always-Works_example : Works quiet
threads_always-Works_example = threads_always-Works quiet-Inv here quiet_in_loop

buffer_exclusive_example : (main_in_buffer quiet.main && thread_in_buffer quiet.thread_pc) ≡ false
buffer_exclusive_example = buffer_exclusive {v = quiet} quiet-Inv here

abbrev quitting : World
quitting = record quiet { main = MainPc.leaving }

shutdown-SendsAgain_example : SendsAgain sent quitting
shutdown-SendsAgain_example =
    shutdown-SendsAgain quitting sent posted_data-IsPosted quiet-StandsIn refl refl

-- The server has answered, and the thread has been woken.
abbrev replied : World
replied = record quiet {
  rb = record idle_rb { ring = full.ring; response_available = true };
  server = ServerPc.top;
  thread_pc = ThreadPc.awake;
  main = MainPc.waits_read;
}

replied-Holding : Holding replied.rb (sent ∷ [])
replied-Holding = record { queue = full.queue; large = omega (arith, full.size) }

replied-Inv : Inv replied
replied-Inv = inr (
    answered sent posted_data-IsPosted
      (record {
        holds = replied-Holding;
        message_flag = refl;
        response_flag = refl;
        ready_flag = refl;
        write_signals = refl;
        read_signals = refl;
        stays = refl;
      })
      refl refl tt)

replied_in_loop : ¬ MainLeft replied.main
replied_in_loop left = left

replied_receives : (r : ThreadResult) × (thread_receive replied.rb replied.thread ≡ some r)
replied_receives =
    let (ring, h, runs) = thread_receive_message sent-IsSound posted_data replied-Holding refl in
    (_, runs)

thread_receives_request_example : Echoed replied replied_receives.0
thread_receives_request_example =
    thread_receives_request replied-Inv here replied_in_loop replied_receives.0 refl refl
      replied_receives.1

abbrev pipe_interrupt : Interrupt
pipe_interrupt = record { fd = 3; write_fd = 4; is_eventfd = false }

-- A pipe without a signal, to which two come, but not at once.
abbrev two_to_come : Signals
two_to_come = record { channel = Channel.values 0; arrivals = 0 ∷ 2 ∷ [] }

interrupt_wait-Decides_example :
    Decides descriptor owed two_to_come
      (interrupt_wait descriptor (some pipe_interrupt) 2 two_to_come)
interrupt_wait-Decides_example =
    interrupt_wait-Decides descriptor owed descriptor-Documented pipe_interrupt 0 two_to_come

-- The `read`, the `poll` and the `read` of one signal.
wait_takes_one :
    interrupt_wait descriptor (some pipe_interrupt) 2 two_to_come
    ≡ Wait.returned true (record { channel = Channel.values 1; arrivals = [] })
unfolding interrupt_wait wait_loop after_read after_poll
wait_takes_one = refl
