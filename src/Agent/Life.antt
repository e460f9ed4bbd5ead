-- ===== src/Agent/Life.antt =====
-- agent/agent.go, and `Run` of agent/polling/polling.go and of agent/streaming/streaming.go: how the
-- agents start, wait and end. Their goroutines are modelled beside this file.
use shawk.Prelude.{
  ◌++◌, if◌then◌else◌, Error, system_error, ok, err, panics, Text, codes, ℕ, Bool, true, false,
  Option, none, some,
}
use shawk.Logging.{Console, infof}
use shawk.Agent.Channel.{Progress, done, blocked, crashed, ◌>>=◌}
use shawk.Agent.Polling.{buffer_capacity, is_negative}
use shawk.Agent.Streaming.{is_supported_linux, start_tracer}

-- What a command ends with, if it ends: the error that it returns, and the console.
abbrev pub Ending : Type 0
Ending = Progress (Option Error × Console)

-- What the agents are told by the system and by the libraries: the name of the signal that comes,
-- if one does; the error of `DB.Shutdown`; the versions of `IsSupportedLinux`; and the error with
-- which the tracer fails to start. What the goroutines log meanwhile is left out.
pub record Surroundings : Type 0 where
  pub signal : Option Text
  pub shutdown_error : Option Error
  pub kernel_version : Option ℕ
  pub support_version : ℕ
  pub tracer_error : Option Error

module _ (stamp : Bool → Text) (around : Surroundings) where
  -- The end of `Wait`, with the error of `Shutdown`.
  unfoldable pub shut_down : Option Error → Console → Ending
  unfolding infof
  shut_down (some e) c = done (some e, c)
  shut_down none c = done (none, infof stamp (codes "agent") (codes "Closed db connection") c)

  -- `agent.Wait`
  unfoldable pub wait : Console → Ending
  unfolding shut_down
  wait c = elim around.signal [
    | none ↦ blocked
    | some sig ↦
        let received =
          infof stamp (codes "agent") (codes "Received " ++ sig ++ codes " gracefully shutdown...")
            c in
        shut_down around.shutdown_error
          (infof stamp (codes "agent") (codes "--> Closing db connection...") received)
  ]

  -- `polling.Run`
  unfoldable pub run_polling : ℕ → ℕ → Console → Ending
  unfolding wait buffer_capacity is_negative
  run_polling interval flush_interval c = elim (buffer_capacity interval flush_interval) [
    | ok size ↦ if is_negative interval then crashed else wait c
    | err e ↦ done (some e, c)
    | panics ↦ crashed
  ]

  -- `streaming.Run`
  unfoldable pub run_streaming : Console → Ending
  unfolding wait is_supported_linux start_tracer
  run_streaming c = elim (is_supported_linux around.kernel_version around.support_version) [
    | err e ↦ done (some e, c)
    | panics ↦ crashed
    | ok false ↦ done (some (system_error 20), c)
    | ok true ↦ do
      failed ← start_tracer around.tracer_error
      elim failed [ none ↦ wait c | some e ↦ done (some e, c) ]
  ]
