-- ===== src/CommandLine.antt =====
-- ipc_benchmark.c: `main`, from its options to the benchmark that it runs. What `getopt_long` returns is a
-- list of options with their arguments; `atoi`, `atof` and the test for a negative float are parameters.
-- `__linux__` is defined.
pub mod Options
pub mod Session
pub mod Modes
use ipc_benchmark.Prelude.{
  ℕ, zero, suc, ◌*◌, Bool, true, false, not, ◌&&◌, Option, none, some, List, [], ◌∷◌, if◌then◌else◌,
}
use Prim.Native.String.{String}
use text.Mathlib.Text as Text

-- Integers, as `atoi` returns them.
pub data ℤ : Type 0 where
  pos : ℕ → ℤ
  negsuc : ℕ → ℤ

-- `n <= 0`
abbrev pub not_positive : ℤ → Bool
not_positive (ℤ.pos zero) = true
not_positive (ℤ.pos (suc n)) = false
not_positive (ℤ.negsuc n) = true

-- What is used of the C library; `Secs` is the type of a float.
pub record Clib (Secs : Type 0) : Type 0 where
  pub atoi : String → ℤ
  pub atof : String → Secs
  pub negative : Secs → Bool
  pub zero_secs : Secs

-- What `getopt_long` returns, with `optarg`.
pub data Opt : Type 0 where
  server : Opt
  client : Opt
  mode : String → Opt
  duration : String → Opt
  work : String → Opt
  help : Opt
  unknown : Opt

-- `RUN_DURATION` and `BUFFER_SIZE`
abbrev pub run_duration : ℕ
run_duration = 10

abbrev pub buffer_size : ℕ
buffer_size = 4 * 1024 * 1024

pub record Config (Secs : Type 0) : Type 0 where
  pub is_server : Bool
  pub is_client : Bool
  pub mode : Option String
  pub duration_secs : ℤ
  pub work_secs : Secs

-- `main` goes on with its variables, or returns.
pub data Parsed (Secs : Type 0) : Type 0 where
  goes_on : Config Secs → Parsed Secs
  returns : ℕ → Parsed Secs

-- The modes, by the names that `main` compares with.
pub data Mode : Type 0 where
  uds_blocking : Mode
  uds_nonblocking : Mode
  shm_notification : Mode
  shm_blocking : Mode
  lfshm_blocking : Mode
  lfshm_nonblocking : Mode
  shm_nonblocking : Mode

unfoldable pub mode_of : String → Option Mode
mode_of name =
    if Text.◌==◌ name "uds-blocking"
    then some Mode.uds_blocking
    else (if Text.◌==◌ name "uds-nonblocking"
        then some Mode.uds_nonblocking
        else (if Text.◌==◌ name "shm-notification"
            then some Mode.shm_notification
            else (if Text.◌==◌ name "shm-blocking"
                then some Mode.shm_blocking
                else (if Text.◌==◌ name "lfshm-blocking"
                    then some Mode.lfshm_blocking
                    else (if Text.◌==◌ name "lfshm-nonblocking"
                        then some Mode.lfshm_nonblocking
                        else (if Text.◌==◌ name "shm-nonblocking"
                            then some Mode.shm_nonblocking
                            else none))))))

-- The files whose functions are called, and with what the setup is called.
pub data Transport : Type 0 where
  uds_blocking : Transport
  uds_nonblocking : Transport
  shm_blocking : Transport
  shm_nonblocking : Transport
  lfshm_blocking : Transport
  lfshm_nonblocking : Transport

pub data Place : Type 0 where
  path : String → Place
  ring : (size : ℕ) → Place

abbrev pub transport : Mode → Transport
transport Mode.uds_blocking = Transport.uds_blocking
transport Mode.uds_nonblocking = Transport.uds_nonblocking
transport Mode.shm_notification = Transport.shm_nonblocking
transport Mode.shm_blocking = Transport.shm_blocking
transport Mode.lfshm_blocking = Transport.lfshm_blocking
transport Mode.lfshm_nonblocking = Transport.lfshm_nonblocking
transport Mode.shm_nonblocking = Transport.shm_nonblocking

abbrev pub place : Mode → Place
place Mode.uds_blocking = Place.path "/tmp/uds_blocking.sock"
place Mode.uds_nonblocking = Place.path "/tmp/uds_nonblocking.sock"
place _ = Place.ring buffer_size

abbrev pub title : Mode → String
title Mode.uds_blocking = "Blocking Unix Domain Socket"
title Mode.uds_nonblocking = "Non-Blocking Unix Domain Socket"
title Mode.shm_notification = "Notification-based Shared Memory"
title Mode.shm_blocking = "Blocking Shared Memory"
title Mode.lfshm_blocking = "Lock-free Blocking Shared Memory"
title Mode.lfshm_nonblocking = "Lock-free Non-Blocking Shared Memory"
title Mode.shm_nonblocking = "Non-Blocking Shared Memory"

-- The calls of `main`.
pub data Action (Secs : Type 0) : Type 0 where
  setup : Transport → Place → (is_server : Bool) → Action Secs
  run_server : Transport → (duration_secs : ℤ) (work_secs : Secs) → Action Secs
  run_client : Transport → (duration_secs : ℤ) → Action Secs
  print_stats : String → Action Secs
  free : Transport → (is_server : Bool) → Action Secs

module _ {Secs : Type 0} where
  -- The benchmark itself; `ok` is whether the setup returns something else than NULL.
  unfoldable pub run_mode : (ok : Bool) → Mode → Config Secs → ℕ × List (Action Secs)
  run_mode ok m config =
      let t = transport m in
      let set_up = Action.setup t (place m) config.is_server in
      if ok
      then (if config.is_server
          then (
            0,
            set_up
                ∷ Action.run_server t config.duration_secs config.work_secs
                ∷ Action.free t true
                ∷ [],
          )
          else (
            0,
            set_up
                ∷ Action.run_client t config.duration_secs
                ∷ Action.print_stats (title m)
                ∷ Action.free t false
                ∷ [],
          ))
      else (1, set_up ∷ [])

  unfoldable pub run_known : (ok : Bool) → Option Mode → Config Secs → ℕ × List (Action Secs)
  run_known ok none config = (1, [])
  run_known ok (some m) config = run_mode ok m config

  unfoldable pub run_named : (ok : Bool) → Option String → Config Secs → ℕ × List (Action Secs)
  run_named ok none config = (1, [])
  run_named ok (some name) config = run_known ok (mode_of name) config

  -- `main` after its options: the exit code, and the calls made.
  unfoldable pub run_config : (ok : Bool) → Parsed Secs → ℕ × List (Action Secs)
  run_config ok (Parsed.returns code) = (code, [])
  run_config ok (Parsed.goes_on config) =
      if not config.is_server && not config.is_client
      then (1, [])
      else (if config.is_server && config.is_client
          then (1, [])
          else run_named ok config.mode config)

module _ {Secs : Type 0} (c : Clib Secs) where
  -- The variables at the start.
  abbrev pub defaults : Secs → Config Secs
  defaults work_secs = record {
    is_server = false;
    is_client = false;
    mode = none;
    duration_secs = ℤ.pos run_duration;
    work_secs = work_secs;
  }

  -- The variables after IPC_BENCHMARK_WORK_SECS.
  unfoldable pub read_environment : Option String → Parsed Secs
  read_environment none = Parsed.goes_on (defaults c.zero_secs)
  read_environment (some work_env) =
      if c.negative (c.atof work_env)
      then Parsed.returns 1
      else Parsed.goes_on (defaults (c.atof work_env))

  -- The loop over the options.
  unfoldable pub read_options : List Opt → Config Secs → Parsed Secs
  read_options [] config = Parsed.goes_on config
  read_options (Opt.server ∷ opts) config = read_options opts (record config { is_server = true })
  read_options (Opt.client ∷ opts) config = read_options opts (record config { is_client = true })
  read_options (Opt.mode name ∷ opts) config =
      read_options opts (record config { mode = some name })
  read_options (Opt.duration optarg ∷ opts) config =
      let rest = read_options opts (record config { duration_secs = c.atoi optarg }) in
      if not_positive (c.atoi optarg) then Parsed.returns 1 else rest
  read_options (Opt.work optarg ∷ opts) config =
      let rest = read_options opts (record config { work_secs = c.atof optarg }) in
      if c.negative (c.atof optarg) then Parsed.returns 1 else rest
  read_options (Opt.help ∷ opts) config = Parsed.returns 0
  read_options (Opt.unknown ∷ opts) config = Parsed.returns 1

  unfoldable pub read_all : List Opt → Parsed Secs → Parsed Secs
  read_all opts (Parsed.returns code) = Parsed.returns code
  read_all opts (Parsed.goes_on config) = read_options opts config

  unfoldable pub main : (work_env : Option String) → List Opt → (ok : Bool) → ℕ × List (Action Secs)
  main work_env opts ok = run_config ok (read_all opts (read_environment work_env))
