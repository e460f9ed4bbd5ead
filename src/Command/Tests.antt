-- ===== src/Command/Tests.antt =====
-- The theorems of the commands at concrete inputs.
use shawk.Prelude.{
  ◌≡◌, ◌∷◌, ◌++◌, ok, codes, text_eq, ℕ, refl, false, none, List, [], nat_eq, text_equality,
}
use shawk.Config.{load}
use shawk.Logging.{Console, new_console, print_out, log, line, message, level_string}
use shawk.Agent.Channel.{done}
use shawk.Agent.Life.{wait, shut_down, run_polling}
use shawk.Agent.Polling.{buffer_capacity, less, quotient, magnitude, is_negative, fits_channel}
use shawk.Command.{World, polling_mode, new, ProbeParam, probe, probe_by_mode}
use shawk.Command.Modes
use shawk.Command.Modes.{IsStopped}
use shawk.Prelude.Map.{insert, lookup}
use shawk.Db.Flows.{Flow, FindFlowsCond, prepared, passive_key, active_key}
use shawk.Command.Look.{do_ipv4, active_title, active_line, passive_title, passive_line}
use shawk.Command.Look.Groups.{Groups}
use shawk.Command.Look.Printed
use shawk.Command.Look.Newest
use shawk.Db.Insert.Samples.{written}
use shawk.Db.Select.{select_passive, select_active}
use shawk.Db.Select.Samples.{driver}
use shawk.Command.Look.Printed.{text_of}
use shawk.Command.Samples.{row_to_nginx, values_of-IsRange, config, world}

abbrev for_ever : ProbeParam
for_ever = record { once = false }

-- What `shawk probe` has logged when a signal has ended it.
abbrev stopped : Console
stopped = record new_console {
  stderr =
      codes "INFO <command> --> Connecting postgres ...\n"
      ++ codes "INFO <command> Connected postgres\n"
      ++ codes "INFO <agent> Received terminated gracefully shutdown...\n"
      ++ codes "INFO <agent> --> Closing db connection...\n"
      ++ codes "INFO <agent> Closed db connection\n";
}

stopping : probe world config for_ever new_console ≡ done (none, stopped)
unfolding probe probe_by_mode text_eq run_polling buffer_capacity less quotient magnitude
    is_negative fits_channel wait shut_down log line message level_string
stopping = refl

accepted : load {E = Unit} (λ env. ok config) tt ≡ ok config
unfolding load text_eq
accepted = refl

probe-Waits_example : (config.probe_mode ≡ polling_mode) × IsStopped world.around
probe-Waits_example =
    Modes.probe-Waits world (λ env. ok config) tt config for_ever new_console stopped accepted
      stopping

connected : new world config.cmdb_url ≡ ok 1
unfolding new
connected = refl

do_ipv4-Groups_example :
    (gs : List (List Flow)) × (hs : List (List Flow)) × Groups passive_key (row_to_nginx ∷ []) gs
    × Groups active_key [] hs
    × (do_ipv4 world config (codes "10.0.0.1") 1 0 0 new_console
        ≡ done (
          none,
          print_out
              (text_of active_title active_line hs)
              (print_out (text_of passive_title passive_line gs) new_console),
        ))
do_ipv4-Groups_example =
    Printed.do_ipv4-Groups world values_of-IsRange config 1 (codes "10.0.0.1") 1 0 0 new_console
      (row_to_nginx ∷ []) [] connected refl refl

-- The passive node, and the node from which it is reached.
printed :
    do_ipv4 world config (codes "10.0.0.1") 1 0 0 new_console
    ≡ done (
      none,
      record new_console {
        stdout =
            codes "10.0.0.1:80 ('nginx', pgid=1002)\n"
            ++ 226 ∷ 148 ∷ 148 ∷ codes "<-- 10.0.0.2:many ('python', pgid=1001)\n";
      },
    )
unfolding do_ipv4 insert lookup
printed = refl

-- The database answers from the tables that hold the flows of db_test.go.
abbrev tracing : World ℕ
tracing = record world {
  passive = λ db. select_passive driver written.tables;
  active = λ db. select_active driver written.tables;
}

abbrev looked : FindFlowsCond
looked = prepared tracing.now (Printed.cond_of tracing values_of-IsRange (codes "10.0.10.1") 0 0)
