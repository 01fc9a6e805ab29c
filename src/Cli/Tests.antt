-- ===== src/Cli/Tests.antt =====
-- Command lines of the client and of the server.
use swiftlink.Common.{ℕ, ◌≡◌, refl, false, some, List, [], ◌∷◌}
use swiftlink.Cli.Client
use swiftlink.Cli.Client.Bounds.{IsUsable, parse_options-IsUsable}
use swiftlink.Cli.Server
use swiftlink.Cli.Server.Bounds.{IsRunnable, parse_options-IsRunnable}
use swiftlink.Cli.Text.{
  parse_unsigned, read_digits, parse_within, option_name, option_value, is_option,
}
use swiftlink.Server.Config.{Config, default_config}
use swiftlink.Transfer.Filename.{codes}

abbrev client_arguments : List (List ℕ)
client_arguments =
    codes "10.0.0.1" ∷ codes "--chunk=1000" ∷ codes "9001" ∷ codes "a/b" ∷ codes "--window=8" ∷ []

-- no text is a probability here
abbrev client_options : Client.Options
client_options = record (Client.default_options) {
  host = codes "10.0.0.1";
  port = 9001;
  path = codes "a/b";
  sender = record (Client.default_options.sender) { chunk_size = 1000; window_size = 8 };
}

client_ok :
    Client.parse_options (λ text. false) client_arguments Client.default_options
    ≡ some client_options
unfolding Client.parse_options Client.parse_arguments Client.set_option Client.set_positional
    Client.switch_of parse_unsigned read_digits parse_within option_name option_value is_option
client_ok = refl

parse_options-IsUsable_example : IsUsable client_options
parse_options-IsUsable_example =
    parse_options-IsUsable (λ text. false) client_arguments client_options client_ok

abbrev server_arguments : List (List ℕ)
server_arguments =
    codes "9000" ∷ codes "--max-sessions=2" ∷ codes "out" ∷ codes "--window=4294967297" ∷ []

-- the window is cut to 32 bits
abbrev server_config : Config
server_config = record default_config {
  port = 9000;
  output_directory = codes "out";
  max_sessions = 2;
  window_size = 1;
}

server_ok : Server.parse_options server_arguments default_config ≡ some server_config
unfolding Server.parse_options Server.parse_arguments Server.set_option Server.set_positional
    Server.switch_of parse_unsigned read_digits parse_within option_name option_value is_option
server_ok = refl

server_config-IsRunnable : IsRunnable server_config
server_config-IsRunnable = parse_options-IsRunnable server_arguments server_config server_ok
