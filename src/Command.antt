-- ===== src/Command.antt =====
-- command/: the sub commands that reach the database, from their parameters on.
pub mod Look
pub mod Modes
pub mod Samples
mod Tests
use shawk.Prelude.{
  ◌∷◌, ◌==◌, if◌then◌else◌, Error, system_error, Outcome, ok, err, panics, Text, codes, ℕ, Bool,
  true, false, Option, none, some, List, [], nat_eq, text_equality,
}
use shawk.Net.{Ip}
use shawk.Statik.{Files, find_string}
use shawk.Probe.{HostFlow, HostFlows}
use shawk.Netlink.{Host, GetHostFlowsOption, get_host_flows}
use shawk.Db.Flows.{FindFlowsCond, Flow, Flows, Rows}
use shawk.Config.{Config}
use shawk.Logging.{Console, infof}
use shawk.Agent.Channel.{Progress, done, blocked, crashed, ◌>>=◌}
use shawk.Agent.Polling.{run_once}
use shawk.Agent.Life.{Ending, Surroundings, run_polling, run_streaming}

-- `PollingMode`
abbrev pub polling_mode : Text
polling_mode = codes "polling"

-- `StreamingMode`
abbrev pub streaming_mode : Text
streaming_mode = codes "streaming"

-- `ProbeParam`
pub record ProbeParam : Type 0 where
  pub once : Bool

-- The paths of `schemas`.
abbrev pub schemas : List Text
schemas = codes "/schema/flows.sql" ∷ []

-- What the commands are told by the system and by the libraries, where `D` is a connection:
-- `stamp` is the header of a log line; `parse_config`, `connect` and `ping` are the three calls of
-- pgx in `db.New`, the first of which accepts a text or not; `files` are the embedded files;
-- `exec` is `db.Exec`; `reverse` is that of gopsutil; `host` is what a probe sees, and `iterate` an
-- order of its flows; `passive` and `active` answer the two queries for flows, and `ranged` is an
-- order of their maps; `parse_duration` gives nanoseconds in 64 bits, and `now`, one instant for a
-- whole command, counts them from the zero time.
pub record World (D : Type 0) : Type 0 where
  pub stamp : Bool → Text
  pub around : Surroundings
  pub parse_config : Text → Bool
  pub connect : Text → Option D
  pub ping : D → Option Error
  pub files : Files
  pub exec : D → Text → Option Error
  pub reverse : List ℕ → List ℕ
  pub host : Host
  pub iterate : HostFlows → List HostFlow
  pub passive : D → FindFlowsCond → Rows
  pub active : D → FindFlowsCond → Rows
  pub ranged : Flows → List (List Flow)
  pub parse_duration : Text → Option ℕ
  pub parse_ip : Text → Ip
  pub now : ℕ

-- The loggers of package `command`.
abbrev pub command : Text
command = codes "command"

module _ {D : Type 0} (world : World D) where
  -- `New` of db.go; the logger that it sets in debugging changes nothing here.
  unfoldable pub new : Text → Outcome D
  new db_url =
      if world.parse_config db_url
      then elim (world.connect db_url) [
        | none ↦ err (system_error 28)
        | some db ↦ elim (world.ping db) [ none ↦ ok db | some e ↦ err (system_error 29) ]
      ]
      else err (system_error 27)

  -- `CreateSchema` on the rest of the paths.
  unfoldable pub create_schema : D → List Text → Option Error
  create_schema db [] = none
  create_schema db (schema ∷ rest) = elim (find_string world.files schema) [
    | err e ↦ some (system_error 21)
    | panics ↦ none
    | ok sql ↦ elim (world.exec db sql) [
      | none ↦ create_schema db rest
      | some e ↦ some (system_error 22)
    ]
  ]

  -- `CreateScheme`
  unfoldable pub create_scheme : Config → Console → Ending
  unfolding create_schema infof new
  create_scheme cfg c =
      let started = infof world.stamp command (codes "Connecting postgres ...") c in
      elim (new cfg.cmdb_url) [
        | err e ↦ done (some e, started)
        | panics ↦ crashed
        | ok db ↦
            let connected = infof world.stamp command (codes "Connected postgres ...") started in
            done (
              create_schema db schemas,
              infof world.stamp command (codes "Creating postgres schema ...") connected,
            )
      ]

  -- `RunOnce` on what the probe sees.
  unfoldable pub probe_once : Console → Ending
  unfolding run_once get_host_flows
  probe_once c = do
    e ← run_once world.iterate (
        get_host_flows world.reverse world.host
          (record { numeric = false; processes = true; filter = [] }))
    done (some e, c)

  -- The `switch` on the mode.
  unfoldable pub probe_by_mode : Config → ProbeParam → Console → Ending
  unfolding probe_once run_polling run_streaming
  probe_by_mode cfg param c =
      if cfg.probe_mode == polling_mode
      then if param.once
        then probe_once c
        else run_polling world.stamp world.around cfg.probe_interval cfg.probe_flush_interval c
      else if cfg.probe_mode == streaming_mode
      then run_streaming world.stamp world.around c
      else done (none, c)

  -- `Probe`
  unfoldable pub probe : Config → ProbeParam → Console → Ending
  unfolding probe_by_mode infof new
  probe cfg param c =
      let started = infof world.stamp command (codes "--> Connecting postgres ...") c in
      elim (new cfg.cmdb_url) [
        | err e ↦ done (some e, started)
        | panics ↦ crashed
        | ok db ↦
            probe_by_mode cfg param (infof world.stamp command (codes "Connected postgres") started)
      ]
