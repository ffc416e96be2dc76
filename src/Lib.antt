-- ===== src/Lib.antt =====
-- ipc-benchmark measures ways for two processes to exchange messages. A client builds a random
-- message, sends it to a server over one of six transports, the server validates it and echoes it,
-- and the client validates the response and counts it. The parts and where they are modelled:
--
-- * The ring buffer in shared memory, `ring_buffer_read` and `ring_buffer_write`. shm_blocking.c,
--   shm_nonblocking.c, lfshm_blocking.c and lfshm_nonblocking.c hold the same text up to the type of
--   the positions, which is a parameter: Ring, with its specification, a bounded queue of messages, in
--   Ring.Queue, and the relation between the two in Ring.IsQueue.
-- * Messages, benchmark.c and benchmark.h (`calculate_checksum`, `validate_message`,
--   `random_message`): Message. The format is read independently in Message.Validation.
-- * Statistics, benchmark.c (`calculate_stats`) and the ends of the clients' loops: Stats.
-- * The setup of a segment (`setup_shm_blocking`, `setup_shm_nonblocking`, `setup_lfshm_blocking`):
--   Segment has the system calls, ShmBlocking.Setup, ShmNonblocking.Setup and LfshmBlocking.Setup the
--   stores.
-- * shm_blocking.c, one message at a time under a mutex with two conditions: ShmBlocking has the
--   critical sections, ShmBlocking.System the interleavings of the two processes, ShmBlocking.Phase
--   the states of an exchange, ShmBlocking.Alone the client after the shutdown of the server.
-- * interrupt.c, signals between threads over an eventfd or a pipe: Interrupt. What
--   `interrupt_wait` relies on is in Interrupt.Waiting, an eventfd and a pipe with signals to come are in
--   Interrupt.Signals, and what the threads of shm_nonblocking.c do with them in Interrupt.Traffic.
-- * shm_nonblocking.c, as shm_blocking.c with a thread of its own in the client, which the main thread
--   talks to by two interrupts: ShmNonblocking has the critical sections, ShmNonblocking.System the
--   interleavings of the server and the two threads, ShmNonblocking.Phase the states of an exchange.
-- * `futex_wait_for_atomic_bool` and `futex_signal_atomic_bool`: Futex, with what a waiter and a
--   signaller that lags behind may rely on in Futex.Channel.
-- * lfshm_blocking.c, one message at a time with flags and futexes and no lock: LfshmBlocking has the
--   accesses of the two processes, LfshmBlocking.System their interleavings, LfshmBlocking.Phase and
--   LfshmBlocking.Invariant the states of an exchange, LfshmBlocking.Alone the client after the shutdown
--   of the server, LfshmBlocking.Stuck two processes that both wait for ever.
-- * lfshm_nonblocking.c, the same with a wait through io_uring: LfshmNonblocking has the accesses, and
--   LfshmNonblocking.Simulation takes its states to those of lfshm_blocking.c.
-- * The sockets of uds_blocking.c and uds_nonblocking.c: Socket has what the two files share, which is the
--   setup of a server's socket, its release, and the server's loop; Socket.Session is the server from
--   its setup to its end.
-- * uds_blocking.c, a request by one `send` and a response by two `recv`: UdsBlocking, with the whole run
--   of the client in UdsBlocking.Client.
-- * uds_nonblocking.c, whose client moves its bytes in pieces (`read_nonblocking`, `write_nonblocking`):
--   UdsNonblocking has these and the reception of a response, UdsNonblocking.Setup the client's
--   connecting, UdsNonblocking.Round a whole round.
-- * ipc_benchmark.c, `main`: CommandLine.
-- * Tests has runs of the models and the concrete states at which the results are applied.
--
-- How the code is modelled. Memory is a function from addresses to bytes (Memory), and a copy outside
-- of the buffer it is made for gives `none`, so that an equation with `some` says that no access is
-- out of bounds. size_t and uint64_t arithmetic wraps at 2 ^ 64 and uint32_t arithmetic at 2 ^ 32
-- (Prelude.Word). The layout of `Message` is that of x86-64: sizeof is 32, and `data` starts at 28. What
-- the kernel answers, `rand`, the clock and liburing are parameters of the operations. The atomic
-- accesses are taken to be sequentially consistent, a critical section under the mutex is one step,
-- and so is a call on the ring of lfshm_blocking.c, which makes several accesses in the source. Spurious
-- wakeups of every kind of wait on a condition or a futex are steps. An eventfd and a pipe behave as
-- their manual pages say. The `work_secs` of the server only delay it. All loops are
-- structural recursions, on a list, on a number of bytes, on the number of bits of a word, or on the
-- kernel's answers to the calls of a loop, so that no fuel is needed; `bit_length` looks at 64 bits,
-- which is all that a size_t has. Only `interrupt_wait` is given a number of rounds, of which two are
-- enough where nobody else reads the descriptor.
--
-- Not modelled: `print_stats`, `print_usage` and `get_cpu_usage`, which are output and a measurement;
-- failure of `malloc` for the buffers (but for uds_blocking.c), of `pthread_create` and of
-- `io_uring_queue_init`; the moment when the time of a server is up: its steps end there, and the
-- shutdown is a step by itself; `munmap`. The two processes
-- of a socket are run in rounds, one after the other, since each waits for the other's bytes.
pub mod Prelude
pub mod Memory
pub mod Ring
pub mod Message
pub mod Stats
pub mod Segment
pub mod Futex
pub mod Interrupt
pub mod ShmBlocking
pub mod ShmNonblocking
pub mod LfshmBlocking
pub mod LfshmNonblocking
pub mod Socket
pub mod UdsBlocking
pub mod UdsNonblocking
pub mod CommandLine
pub mod Tests
