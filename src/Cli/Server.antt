-- ===== src/Cli/Server.antt =====
-- `parse_options` of src/server/server_main.cpp. The durations keep the 64 bits that the cast to long
-- reads as a signed number.
pub mod Bounds
use swiftlink.Common.{
  ℕ, zero, suc, ◌+◌, ◌%◌, ◌^◌, Bool, true, false, Option, none, some, List, [], ◌∷◌, ltb, ◌==◌,
  if◌then◌else◌,
}
use swiftlink.Cli.Text.{parse_unsigned, parse_within, option_name, option_value, is_option}
use swiftlink.Server.Config.{Config, default_config}
use swiftlink.Transfer.Filename.{codes}
use swiftlink.Transfer.Session.{same_bytes}

-- the options, by their names
pub data Switch : Type 0 where
  quiet idle_ms sweep_ms linger_ms max_sessions window unknown : Switch

unfoldable pub switch_of : List ℕ → Switch
switch_of text =
    if same_bytes text (codes "--quiet")
    then quiet
    else if same_bytes text (codes "--idle-ms")
    then idle_ms
    else if same_bytes text (codes "--sweep-ms")
    then sweep_ms
    else if same_bytes text (codes "--linger-ms")
    then linger_ms
    else if same_bytes text (codes "--max-sessions")
    then max_sessions
    else if same_bytes text (codes "--window")
    then window
    else unknown

abbrev pub with_number : Option ℕ → (ℕ → Config) → Option Config
with_number none change = none
with_number (some n) change = some (change n)

-- what an option does with its value; the window is cut to 32 bits after the test
unfoldable pub set_option : Switch → List ℕ → Config → Option Config
set_option quiet value c = some (record c { verbose = false })
set_option idle_ms value c =
    with_number (parse_within 1 (2 ^ 64) value) (λ n. record c { session_idle_timeout = n })
set_option sweep_ms value c =
    with_number (parse_within 1 (2 ^ 64) value) (λ n. record c { sweep_interval = n })
set_option linger_ms value c =
    with_number (parse_unsigned value) (λ n. record c { session_linger = n })
set_option max_sessions value c =
    with_number (parse_within 1 (2 ^ 64) value) (λ n. record c { max_sessions = n })
set_option window value c =
    with_number (parse_within 1 (2 ^ 64) value) (λ n. record c { window_size = n % 2 ^ 32 })
set_option unknown value c = none

-- an argument by its place
unfoldable pub set_positional : ℕ → List ℕ → Config → Option Config
set_positional zero arg c = with_number (parse_within 1 65535 arg) (λ n. record c { port = n })
set_positional (suc zero) arg c = some (record c { output_directory = arg })
set_positional (suc (suc more)) arg c = none

-- The loop over the arguments, with the count of those that are no options.
unfoldable pub parse_arguments : List (List ℕ) → ℕ → Config → Option (ℕ × Config)
parse_arguments [] positional c = some (positional, c)
parse_arguments (arg ∷ rest) positional c =
    let next = if is_option arg then positional else positional + 1 in
    elim (if is_option arg
      then set_option (switch_of (option_name arg)) (option_value arg) c
      else set_positional positional arg c) [ none ↦ none | some c' ↦ parse_arguments rest next c' ]

unfoldable pub parse_options : List (List ℕ) → Config → Option Config
parse_options args c = elim (parse_arguments args 0 c) [
  | none ↦ none
  | some r ↦ if ltb r.0 2 then none else some r.1
]
