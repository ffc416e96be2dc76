-- ===== src/CommandLine/Session.antt =====
-- What `main` does, whatever its options and its environment.
use ipc_benchmark.Prelude.{
  ℕ, zero, suc, ◌≤◌, ◌≡◌, refl, Bool, true, false, not, ◌&&◌, Option, none, some, List, [], ◌∷◌,
  Bool-cases, inl, inr, arith,
}
use Prim.Native.String.{String}
use ipc_benchmark.CommandLine.{
  ℤ, not_positive, Clib, Opt, Config, Parsed, Mode, mode_of, transport, place, title, Action,
  read_environment, read_options, run_mode, run_known, run_named, run_config, read_all, main,
}

-- The exit code of `main` and its calls.
pub data IsSession {Secs : Type 0} (c : Clib Secs) : ℕ × List (Action Secs) → Type 0 where
  -- nothing is run
  refused : (code : ℕ) → code ≤ 1 → IsSession c (code, [])
  -- the setup fails
  not_set_up :
      (m : Mode) (is_server : Bool)
      → IsSession c (1, Action.setup (transport m) (place m) is_server ∷ [])
  served :
      (m : Mode) (n : ℕ) (work_secs : Secs)
      → c.negative work_secs ≡ false
      → IsSession c (
        0,
        Action.setup (transport m) (place m) true
            ∷ Action.run_server (transport m) (ℤ.pos (suc n)) work_secs
            ∷ Action.free (transport m) true
            ∷ [],
      )
  measured :
      (m : Mode) (n : ℕ)
      → IsSession c (
        0,
        Action.setup (transport m) (place m) false
            ∷ Action.run_client (transport m) (ℤ.pos (suc n))
            ∷ Action.print_stats (title m)
            ∷ Action.free (transport m) false
            ∷ [],
      )

module _ {Secs : Type 0} (c : Clib Secs) where
  -- The times are valid, or `main` has returned 0 or 1.
  abbrev Valid : Parsed Secs → Type 0
  Valid (Parsed.goes_on config) =
      (not_positive config.duration_secs ≡ false) × (c.negative config.work_secs ≡ false)
  Valid (Parsed.returns code) = code ≤ 1

  read_options-Valid :
      (opts : List Opt) (config : Config Secs)
      → Valid (Parsed.goes_on config)
      → Valid (read_options c opts config)
  unfolding read_options
  read_options-Valid [] config v = v
  read_options-Valid (Opt.server ∷ opts) config v =
      read_options-Valid opts (record config { is_server = true }) v
  read_options-Valid (Opt.client ∷ opts) config v =
      read_options-Valid opts (record config { is_client = true }) v
  read_options-Valid (Opt.mode name ∷ opts) config v =
      read_options-Valid opts (record config { mode = some name }) v
  read_options-Valid (Opt.duration optarg ∷ opts) config v =
      elim (Bool-cases (not_positive (c.atoi optarg))) [
        | inl e ↦ rw e (omega arith)
        | inr e ↦
            rw e
              (read_options-Valid opts (record config { duration_secs = c.atoi optarg }) (e, v.1))
      ]
  read_options-Valid (Opt.work optarg ∷ opts) config v =
      elim (Bool-cases (c.negative (c.atof optarg))) [
        | inl e ↦ rw e (omega arith)
        | inr e ↦
            rw e (read_options-Valid opts (record config { work_secs = c.atof optarg }) (v.0, e))
      ]
  read_options-Valid (Opt.help ∷ opts) config v = omega arith
  read_options-Valid (Opt.unknown ∷ opts) config v = omega arith

  read_all-Valid : (opts : List Opt) (p : Parsed Secs) → Valid p → Valid (read_all c opts p)
  unfolding read_all
  read_all-Valid opts (Parsed.returns code) v = v
  read_all-Valid opts (Parsed.goes_on config) v = read_options-Valid opts config v

  read_environment-Valid :
      c.negative c.zero_secs ≡ false
      → (work_env : Option String) → Valid (read_environment c work_env)
  unfolding read_environment
  read_environment-Valid zero_ok none = (refl, zero_ok)
  read_environment-Valid zero_ok (some work_env) =
      elim (Bool-cases (c.negative (c.atof work_env))) [
        | inl e ↦ rw e (omega arith)
        | inr e ↦ rw e (refl, e)
      ]

  positive : (n : ℤ) → not_positive n ≡ false → (k : ℕ) × (n ≡ ℤ.pos (suc k))
  positive (ℤ.pos zero) e = cc
  positive (ℤ.pos (suc k)) e = (k, refl)
  positive (ℤ.negsuc k) e = cc

  run_mode-IsSession :
      (ok : Bool) (m : Mode) (config : Config Secs)
      → Valid (Parsed.goes_on config)
      → IsSession c (run_mode ok m config)
  unfolding run_mode
  run_mode-IsSession false m config v = not_set_up m config.is_server
  run_mode-IsSession true m config v =
      let (k, e) = positive config.duration_secs v.0 in
      elim (Bool-cases config.is_server) [
        | inl s ↦ rw (s, e) (served m k config.work_secs v.1)
        | inr s ↦ rw (s, e) (measured m k)
      ]

  run_known-IsSession :
      (ok : Bool) (m : Option Mode) (config : Config Secs)
      → Valid (Parsed.goes_on config)
      → IsSession c (run_known ok m config)
  unfolding run_known
  run_known-IsSession ok none config v = refused 1 (omega arith)
  run_known-IsSession ok (some m) config v = run_mode-IsSession ok m config v

  run_named-IsSession :
      (ok : Bool) (name : Option String) (config : Config Secs)
      → Valid (Parsed.goes_on config)
      → IsSession c (run_named ok name config)
  unfolding run_named
  run_named-IsSession ok none config v = refused 1 (omega arith)
  run_named-IsSession ok (some name) config v = run_known-IsSession ok (mode_of name) config v

  run_config-IsSession : (ok : Bool) (p : Parsed Secs) → Valid p → IsSession c (run_config ok p)
  unfolding run_config
  run_config-IsSession ok (Parsed.returns code) v = refused code v
  run_config-IsSession ok (Parsed.goes_on config) v =
      elim (Bool-cases (not config.is_server && not config.is_client)) [
        | inl e ↦ rw e (refused 1 (omega arith))
        | inr e ↦ rw e (elim (Bool-cases (config.is_server && config.is_client)) [
          | inl b ↦ rw b (refused 1 (omega arith))
          | inr b ↦ rw b (run_named-IsSession ok config.mode config v)
        ])
      ]

  -- Whatever the options and the environment, `main` either runs nothing and returns 0 or 1, or returns 1
  -- after a setup that failed, or returns 0 after one benchmark of one of the seven modes: a server's or a
  -- client's loop for a positive number of seconds between the setup and the freeing of the same transport
  -- in the same role, the client's with its statistics printed. No negative work time is passed on. 0 is taken
  -- to be no negative float.
  pub main-IsSession :
      c.negative c.zero_secs ≡ false
      → (work_env : Option String) (opts : List Opt) (ok : Bool)
      → IsSession c (main c work_env opts ok)
  unfolding main
  main-IsSession zero_ok work_env opts ok =
      run_config-IsSession ok (read_all c opts (read_environment c work_env)) (
        read_all-Valid opts (read_environment c work_env) (read_environment-Valid zero_ok work_env))
