-- ===== src/Examples/Configs.antt =====
-- The theorem on the configuration, at a small command line.
use distributed_p2p_ledger.Base.{◌≡◌, ◌↔◌, true, false, List, [], ◌∷◌, Bytes, codes, ok}
use distributed_p2p_ledger.Node.Flags.{port, difficulty}
use distributed_p2p_ledger.Node.Flags.Print.{Setting, spaced, joined, command_line, apply_settings}
use distributed_p2p_ledger.Node.Config.{default_settings, parse_config}
use distributed_p2p_ledger.Node.Config.Valid.{IsConfigOf, parse_config-command_line}
use distributed_p2p_ledger.Examples.{small_config, parsers}

-- -port 8081 --difficulty=1
abbrev settings : List Setting
settings =
    record { flag = port; style = spaced false; text = codes "8081" }
    ∷ record { flag = difficulty; style = joined true; text = codes "1" }
    ∷ []

abbrev no_variables : Bytes → Bytes
no_variables name = []

parse_config-command_line_example :
    (parse_config parsers (command_line settings) no_variables ≡ ok small_config)
    ↔ IsConfigOf parsers (apply_settings settings (default_settings no_variables)) small_config
parse_config-command_line_example =
    parse_config-command_line parsers settings no_variables small_config
