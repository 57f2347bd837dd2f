-- ===== src/Start/Usage.antt =====
-- The help text of `entrypoint_internal` in src/mcshub.cpp.
use mcshub.Base.{List, [], ◌∷◌, ◌++◌, Text, str}

abbrev help_lines : List Text
help_lines =
    str " [options]"
    ∷ str "Options:"
    ∷ str "  -h, --help                       display this help message and exit"
    ∷ str "  -v, --version                    print version number and exit"
    ∷ str "      --confname CONFIG_NAME       change configuration file name (mcshub.yml default)"
    ∷ str "      --status STATUS_FILE         change default status file name (status.json"
    ∷ str "\t                               default)"
    ∷ str "      --login LOGIN_FILE           change default login file name (login.json default)"
    ∷ str "  -i, --install                    install the default MCSHub configuration"
    ∷ str "      --default-dir DEFAULT_DIR    specify name of a directory for the default entry"
    ∷ str "                                   (\"default\" is the default)"
    ∷ str "      --domian DOMAIN              specify domain name (the same option as in"
    ∷ str "                                   mcshub.yml file). This option will be overriden"
    ∷ str "                                   by \"domain\"field in mcshub.yml file"
    ∷ str "  -d, --distributed                enable distributed MCSHub configuration"
    ∷ str "      --drop                       drop if no server entry matches"
    ∷ str "      --max-packet-size            set maximum allowed packet size for Minecraft"
    ∷ str "                                   protocol"
    ∷ str "      --timeout                    set timeout"
    ∷ str "  -m, --mcsman                     enable extra functionality for MCSMan"
    ∷ str "      --port TCP_PORT              set listen port for MCSHub. This option will be"
    ∷ str "                                   overriden by port number in configuration file"
    ∷ str "      --default-port DEFAULT_PORT  set the default TCP port number for all server"
    ∷ str "                                   records in configuration file"
    ∷ str "      --no-dns-cache               disable dns cache by default. This option will be"
    ∷ str "                                   overriden by dns_cache option in configuration file"
    ∷ str "      --verb LOG_LEVEL             set default verbose level to LOG_LEVEL. This option"
    ∷ str "                                   will be overriden by 'verb' option in configuration"
    ∷ str "                                   file. (\"info\" is the default value)"
    ∷ str "  -t, --threads THREADS            number of working theads. (option 'threads' in"
    ∷ str "                                   configuration file, default value equals to number"
    ∷ str "                                   of parallel threads supported by CPU)"
    ∷ []

unfoldable pub as_lines : List Text → Text
as_lines [] = []
as_lines (t ∷ more) = t ++ 10 ∷ as_lines more

unfoldable pub usage : Text → Text
unfolding as_lines
usage exe = str "Usage: " ++ (exe ++ as_lines help_lines)
