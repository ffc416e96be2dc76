-- ===== src/CommandLine/Options.antt =====
-- What the option loop of `main` makes of valid options.
use ipc_benchmark.Prelude.{◌≡◌, refl, ◌∙◌, Bool, true, false, ◌||◌, Option, some, List, [], ◌∷◌}
use Prim.Native.String.{String}
use ipc_benchmark.CommandLine.{ℤ, not_positive, Clib, Opt, Config, Parsed, read_options}

abbrev pub has_server : List Opt → Bool
has_server [] = false
has_server (Opt.server ∷ opts) = true
has_server (_ ∷ opts) = has_server opts

abbrev pub has_client : List Opt → Bool
has_client [] = false
has_client (Opt.client ∷ opts) = true
has_client (_ ∷ opts) = has_client opts

abbrev pub last_mode : Option String → List Opt → Option String
last_mode before [] = before
last_mode before (Opt.mode name ∷ opts) = last_mode (some name) opts
last_mode before (_ ∷ opts) = last_mode before opts

or_true : (b : Bool) → (b || true) ≡ true
or_true true = refl
or_true false = refl

module _ {Secs : Type 0} (c : Clib Secs) where
  abbrev pub last_duration : ℤ → List Opt → ℤ
  last_duration before [] = before
  last_duration before (Opt.duration optarg ∷ opts) = last_duration (c.atoi optarg) opts
  last_duration before (_ ∷ opts) = last_duration before opts

  abbrev pub last_work : Secs → List Opt → Secs
  last_work before [] = before
  last_work before (Opt.work optarg ∷ opts) = last_work (c.atof optarg) opts
  last_work before (_ ∷ opts) = last_work before opts

  -- Every option is known and none asks for help, and the times are valid.
  abbrev pub AllValid : List Opt → Type 0
  AllValid [] = Unit
  AllValid (Opt.server ∷ opts) = AllValid opts
  AllValid (Opt.client ∷ opts) = AllValid opts
  AllValid (Opt.mode name ∷ opts) = AllValid opts
  AllValid (Opt.duration optarg ∷ opts) = (not_positive (c.atoi optarg) ≡ false) × AllValid opts
  AllValid (Opt.work optarg ∷ opts) = (c.negative (c.atof optarg) ≡ false) × AllValid opts
  AllValid (Opt.help ∷ opts) = ⊥
  AllValid (Opt.unknown ∷ opts) = ⊥

  -- Where all options are known and valid and none asks for help, their order does not matter but among those
  -- of one kind: each role is set if its option is there, and mode, duration and work time are those of the
  -- last option of their kind, or stay as they were.
  pub read_options_last :
      (opts : List Opt) (config : Config Secs)
      → AllValid opts
      → read_options c opts config
        ≡ Parsed.goes_on (record {
          is_server = has_server opts || config.is_server;
          is_client = has_client opts || config.is_client;
          mode = last_mode config.mode opts;
          duration_secs = last_duration config.duration_secs opts;
          work_secs = last_work config.work_secs opts;
        })
  unfolding read_options
  read_options_last [] config v = refl
  read_options_last (Opt.server ∷ opts) config v =
      read_options_last opts (record config { is_server = true }) v
      ∙ rw (or_true (has_server opts)) refl
  read_options_last (Opt.client ∷ opts) config v =
      read_options_last opts (record config { is_client = true }) v
      ∙ rw (or_true (has_client opts)) refl
  read_options_last (Opt.mode name ∷ opts) config v =
      read_options_last opts (record config { mode = some name }) v
  read_options_last (Opt.duration optarg ∷ opts) config v =
      rw v.0 (read_options_last opts (record config { duration_secs = c.atoi optarg }) v.1)
  read_options_last (Opt.work optarg ∷ opts) config v =
      rw v.0 (read_options_last opts (record config { work_secs = c.atof optarg }) v.1)
  read_options_last (Opt.help ∷ opts) config v = absurd v
  read_options_last (Opt.unknown ∷ opts) config v = absurd v
