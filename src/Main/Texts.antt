-- ===== src/Main/Texts.antt =====
-- The texts that main.go prints.
use shawk.Prelude.{◌++◌, Text, codes}

-- `helpText`
unfoldable pub help_text : Text
help_text =
    codes "Usage: shawk [options]\n"
    ++ codes "\n"
    ++ codes
        "  A socket-based tracing system for discovering network dependencies in distributed applications.\n"
    ++ codes "\n"
    ++ codes "Commands:\n"
    ++ codes "  look           show dependencies starting from a specified node.\n"
    ++ codes "  probe          start agent for collecting flows and processes.\n"
    ++ codes "  create-scheme  create CMDB scheme.\n"
    ++ codes "\n"
    ++ codes "  version        print version\n"
    ++ codes "  credits        print credits\n"
    ++ codes "  help           print help\n"
    ++ codes "\n"
    ++ codes "Options:\n"
    ++ codes "  --help         print help\n"
    ++ codes "  --debug        enable debug logging\n"
    ++ codes "\n"
    ++ codes "Environs:\n"
    ++ codes "  SHAWK_ENV_FILE=/path/to/envfile\n"

-- `lookHelpText`
unfoldable pub look_help_text : Text
look_help_text =
    codes "\n"
    ++ codes "Usage: shawk look [options]\n"
    ++ codes "\n"
    ++ codes "print dependencies starting from a specified node.\n"
    ++ codes "\n"
    ++ codes "Options:\n"
    ++ codes
        "  --ipv4 ADDR              \tfilter flows regarding a specific ipv4 address as a root node\n"
    ++ codes
        "  --since                   filter flows since a specific date (relative duration such as '5m', '2h45m')\n"
    ++ codes
        "  --until                   filter flows until a specific date (relative duration such as '5m', '2h45m')\n"
    ++ codes "  --depth                   depth of dependency graph\n"

-- `probeHelpText`
unfoldable pub probe_help_text : Text
probe_help_text =
    codes "\n"
    ++ codes "Usage: shawk probe [options]\n"
    ++ codes "\n"
    ++ codes "start agent for collecting flows and processes.\n"
    ++ codes "\n"
    ++ codes "Options:\n"
    ++ codes "  --env\n"
    ++ codes "  --once                    run once only if --mode='polling'\n"

-- `createSchemeHelpText`
unfoldable pub create_scheme_help_text : Text
create_scheme_help_text =
    codes "\n"
    ++ codes "Usage: shawk create-scheme [options]\n"
    ++ codes "\n"
    ++ codes "create CMDB scheme.\n"
