-- ===== src/ShmNonblocking/Shutdown.antt =====
-- The end of run_shm_nonblocking_client of shm_nonblocking.c, while the thread waits for a message.
use ipc_benchmark.Prelude.{ℕ, ◌≡◌, refl, List, [], ◌∷◌, true, false, arith}
use ipc_benchmark.Interrupt.Traffic.{arrive, take_value_one, pending-arrive}
use ipc_benchmark.ShmNonblocking.{ThreadPc}
use ipc_benchmark.ShmNonblocking.Sections.{Holding, IsPosted, thread_send_message}
use ipc_benchmark.ShmNonblocking.System.{
  World, MainPc, start, send, leave, signal_read, signal_write, Reach, here, next,
}
use ipc_benchmark.ShmNonblocking.Phase.{StandsIn}

-- The thread sends the message `d` once more, although it has been told to exit.
pub record SendsAgain (d : List ℕ) (w : World) : Type 0 where
  pub sent : World
  pub run : Reach w sent
  pub told : sent.should_exit ≡ true
  pub asleep : sent.thread_pc ≡ ThreadPc.asleep
  pub holds : Holding sent.rb (d ∷ [])
  pub announced : sent.rb.message_available ≡ true

-- Where the main thread of shm_nonblocking.c leaves its loop while the thread waits in
-- `interrupt_wait(write_intr)`, and the message `d` still stands in the buffer: there is a run in which the
-- thread, which looks at `should_exit` only at the top of its loop, sends `d` to the server once more, and
-- sleeps until a response comes.
pub shutdown-SendsAgain :
    (w : World) (d : List ℕ)
    → IsPosted w.thread d
    → StandsIn w [] false false 0 0
    → w.main ≡ MainPc.leaving
    → w.thread_pc ≡ ThreadPc.waits_write
    → SendsAgain d w
shutdown-SendsAgain w d i s at waits =
    let told : World = record w {
      main = MainPc.joining;
      should_exit = true;
      read_intr = arrive 1 w.read_intr;
      write_intr = arrive 1 w.write_intr;
    } in
    let (c, takes, empty) =
      take_value_one (arrive 1 w.write_intr)
        (omega (arith, pending-arrive 1 w.write_intr, s.write_signals)) in
    let x =
      thread_send_message w.thread
        (record { empty = s.holds; ready_flag = s.ready_flag; response_flag = s.response_flag })
        i in
    record {
      sent = _;
      run =
          next
            (next (next (next (next here (leave at)) (signal_read refl)) (signal_write refl))
              (start waits takes))
            (send refl x.sends);
      told = refl;
      asleep = refl;
      holds = x.holds;
      announced = refl;
    }
