-- ===== src/Tests/Program.antt =====
-- ipc_benchmark.c.
use ipc_benchmark.Prelude.{ℕ, ◌≡◌, refl, true, false, none, [], ◌∷◌}
use ipc_benchmark.CommandLine.{
  ℤ, Clib, Opt, Action, Transport, Place, main, run_config, run_named, run_known, run_mode, mode_of,
  read_all, read_options, read_environment,
}
use ipc_benchmark.CommandLine.Session.{IsSession, main-IsSession}

-- A C library in which every number is 3.
abbrev clib : Clib ℕ
clib = record { atoi = λ s. ℤ.pos 3; atof = λ s. 3; negative = λ secs. false; zero_secs = 0 }

main-IsSession_example :
    IsSession clib
      (main clib none (Opt.client ∷ Opt.mode "shm-blocking" ∷ Opt.duration "3" ∷ []) true)
main-IsSession_example =
    main-IsSession clib refl none (Opt.client ∷ Opt.mode "shm-blocking" ∷ Opt.duration "3" ∷ [])
      true

client_runs : main clib none (Opt.client ∷ Opt.mode "shm-blocking" ∷ Opt.duration "3" ∷ []) true ≡ (
  0,
  Action.setup Transport.shm_blocking (Place.ring 4194304) false
      ∷ Action.run_client Transport.shm_blocking (ℤ.pos 3)
      ∷ Action.print_stats "Blocking Shared Memory"
      ∷ Action.free Transport.shm_blocking false
      ∷ [],
)
unfolding main run_config run_named run_known run_mode mode_of read_all read_options
    read_environment
client_runs = refl

two_roles : main clib none (Opt.server ∷ Opt.client ∷ Opt.mode "shm-blocking" ∷ []) true ≡ (1, [])
unfolding main run_config read_all read_options read_environment
two_roles = refl
