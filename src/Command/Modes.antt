-- ===== src/Command/Modes.antt =====
-- When `Probe` returns without an error.
use shawk.Prelude.{
  ◌≡◌, ◌≢◌, ◌⊎◌, Option-cases, Outcome, ok, Text, codes, text_eq_iff, ℕ, Bool, none, some, arith,
}
use shawk.Config.{Config, load, load-modes}
use shawk.Logging.{Console, infof}
use shawk.Agent.Channel.{done}
use shawk.Agent.Life.{shut_down, Ending, Surroundings, wait, run_polling, run_streaming}
use shawk.Command.{
  command, World, ProbeParam, probe_once, probe_by_mode, probe, polling_mode, streaming_mode,
}

-- A command that ends without an error ends after a signal came and the connection was closed.
abbrev pub IsStopped : Surroundings → Type 0
IsStopped around = ((sig : Text) × (around.signal ≡ some sig)) × (around.shutdown_error ≡ none)

-- The command does not return nil but after that.
abbrev pub Waits : Surroundings → Ending → Type 0
Waits around ending = (c' : Console) → ending ≡ done (none, c') → IsStopped around

module _ (stamp : Bool → Text) (around : Surroundings) where
  wait-Waits : (c : Console) → Waits around (wait stamp around c)
  unfolding wait shut_down
  wait-Waits c c' h = ground (arith, Option-cases around.signal, Option-cases around.shutdown_error)

  run_polling-Waits :
      (interval flush_interval : ℕ) (c : Console)
      → Waits around (run_polling stamp around interval flush_interval c)
  unfolding run_polling
  run_polling-Waits interval flush_interval c c' h = ground (arith, wait-Waits c c')

  -- `Run` of the streaming agent never returns nil.
  run_streaming-fails : (c c' : Console) → run_streaming stamp around c ≢ done (none, c')
  unfolding run_streaming
  run_streaming-fails c c' h = ground arith

module _ {D : Type 0} (world : World D) where
  -- `RunOnce` never returns nil.
  pub probe_once-fails : (c c' : Console) → probe_once world c ≢ done (none, c')
  unfolding probe_once
  probe_once-fails c c' h = ground arith

  probe_by_mode-Waits :
      (cfg : Config) (param : ProbeParam) (c c' : Console)
      → (cfg.probe_mode ≡ streaming_mode) ⊎ (cfg.probe_mode ≡ polling_mode)
      → probe_by_mode world cfg param c ≡ done (none, c')
      → (cfg.probe_mode ≡ polling_mode) × IsStopped world.around
  unfolding probe_by_mode
  probe_by_mode-Waits cfg param c c' modes h = ground (
    arith,
    modes,
    text_eq_iff cfg.probe_mode polling_mode,
    text_eq_iff cfg.probe_mode streaming_mode,
    probe_once-fails c c',
    run_polling-Waits world.stamp world.around cfg.probe_interval cfg.probe_flush_interval c c',
    run_streaming-fails world.stamp world.around c c',
  )

  pub probe-connects :
      (cfg : Config) (param : ProbeParam) (c c' : Console)
      → probe world cfg param c ≡ done (none, c')
      → (d : Console) × (probe_by_mode world cfg param d ≡ done (none, c'))
  unfolding probe
  probe-connects cfg param c c' h =
      let started = infof world.stamp command (codes "--> Connecting postgres ...") c in
      (infof world.stamp command (codes "Connected postgres") started, ground arith)

  -- If `Load` accepted the configuration, then `Probe` returns without an error only in polling
  -- mode, after a signal came and the connection to the database was closed without an error.
  pub probe-Waits :
      {E : Type 0} (process : E → Outcome Config) (env : E) (cfg : Config) (param : ProbeParam)
      (c c' : Console)
      → load process env ≡ ok cfg
      → probe world cfg param c ≡ done (none, c')
      → (cfg.probe_mode ≡ polling_mode) × IsStopped world.around
  probe-Waits process env cfg param c c' loaded h =
      let (d, ran) = probe-connects cfg param c c' h in
      probe_by_mode-Waits cfg param d c' (load-modes process env cfg loaded) ran
