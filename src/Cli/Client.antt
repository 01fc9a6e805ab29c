-- ===== src/Cli/Client.antt =====
-- `parse_options` and the defaults of `main` in src/client/client_main.cpp. The probability of simulated
-- loss is a double: `is_probability` says whether a text is one, and its value is left out.
pub mod Bounds
use swiftlink.Common.{
  ℕ, zero, suc, ◌+◌, ◌^◌, ◌<◌, ◌≤◌, ◌≡◌, ◌⊎◌, inl, inr, refl, subst, sym, arith, Bool, true, false,
  ◌&&◌, Bool-cases, Option, none, some, Option-cases, List, [], ◌∷◌, ltb, leb, ◌==◌, if◌then◌else◌,
  List-cases,
}
use swiftlink.Common.Signed.{ℤ, pos, signed64}
use swiftlink.Protocol.Packet.{max_payload_size}
use swiftlink.Transfer.Filename.{codes, base_name}
use swiftlink.Transfer.Session.{same_bytes}
use swiftlink.Cli.Text.{
  parse_unsigned, parse_within, option_name, option_value, is_option, parse_within_bounds,
}

-- kDefaultReceiverWindowSize
abbrev pub max_window : ℕ
max_window = 1024

-- the options, by their names
pub data Switch : Type 0 where
  quiet simulate_loss seed rto_ms window name chunk unknown : Switch

unfoldable pub switch_of : List ℕ → Switch
switch_of text =
    if same_bytes text (codes "--quiet")
    then quiet
    else if same_bytes text (codes "--simulate-loss")
    then simulate_loss
    else if same_bytes text (codes "--seed")
    then seed
    else if same_bytes text (codes "--rto-ms")
    then rto_ms
    else if same_bytes text (codes "--window")
    then window
    else if same_bytes text (codes "--name")
    then name
    else if same_bytes text (codes "--chunk")
    then chunk
    else unknown

-- `SenderConfig` with the timeout as it is there: a signed number of milliseconds.
pub record SenderOptions : Type 0 where
  pub chunk_size : ℕ
  pub rto : ℤ
  pub max_retries : ℕ
  pub window_size : ℕ
  pub session_id : ℕ
  pub remote_name : List ℕ

pub record Options : Type 0 where
  pub host : List ℕ
  pub port : ℕ
  pub path : List ℕ
  pub sender : SenderOptions
  pub seed : ℕ
  pub quiet : Bool

-- the member initialisers
abbrev pub default_options : Options
default_options = record {
  host = codes "127.0.0.1";
  port = 9000;
  path = [];
  sender = record {
    chunk_size = 1200;
    rto = pos 300;
    max_retries = 50;
    window_size = 32;
    session_id = 0;
    remote_name = [];
  };
  seed = 0;
  quiet = false;
}

module _ (is_probability : List ℕ → Bool) where
  -- The number that an option takes, and what it changes.
  abbrev pub with_number : Option ℕ → (ℕ → Options) → Option Options
  with_number none change = none
  with_number (some n) change = some (change n)

  -- what an option does with its value
  unfoldable pub set_option : Switch → List ℕ → Options → Option Options
  set_option quiet value o = some (record o { quiet = true })
  set_option simulate_loss value o = if is_probability value then some o else none
  set_option seed value o = with_number (parse_unsigned value) (λ n. record o { seed = n })
  set_option rto_ms value o =
      with_number (parse_within 1 (2 ^ 64) value)
        (λ n. record o { sender = record (o.sender) { rto = signed64 n } })
  set_option window value o =
      with_number (parse_within 1 max_window value)
        (λ n. record o { sender = record (o.sender) { window_size = n } })
  set_option name value o = some (record o { sender = record (o.sender) { remote_name = value } })
  set_option chunk value o =
      with_number (parse_within 1 max_payload_size value)
        (λ n. record o { sender = record (o.sender) { chunk_size = n } })
  set_option unknown value o = none

  -- an argument by its place
  unfoldable pub set_positional : ℕ → List ℕ → Options → Option Options
  set_positional zero arg o = some (record o { host = arg })
  set_positional (suc zero) arg o =
      with_number (parse_within 1 65535 arg) (λ n. record o { port = n })
  set_positional (suc (suc zero)) arg o = some (record o { path = arg })
  set_positional (suc (suc (suc more))) arg o = none

  -- The loop over the arguments, with the count of those that are no options.
  unfoldable pub parse_arguments : List (List ℕ) → ℕ → Options → Option (ℕ × Options)
  parse_arguments [] positional o = some (positional, o)
  parse_arguments (arg ∷ rest) positional o =
      let next = if is_option arg then positional else positional + 1 in
      elim (if is_option arg
        then set_option (switch_of (option_name arg)) (option_value arg) o
        else set_positional positional arg o) [
          | none ↦ none
          | some o' ↦ parse_arguments rest next o'
        ]

  unfoldable pub parse_options : List (List ℕ) → Options → Option Options
  parse_options args o = elim (parse_arguments args 0 o) [
    | none ↦ none
    | some r ↦ if ltb r.0 3 then none else some r.1
  ]

-- what `main` fills in: a seed and a session id where none is given, and the name of the file
unfoldable pub fill_in : ℕ → ℕ → Options → Options
fill_in random_seed random_id o =
    let s = o.sender in
    let id = if s.session_id == 0 then random_id else s.session_id in
    let remote : List ℕ = elim s.remote_name [ [] ↦ base_name o.path | c ∷ rest ↦ s.remote_name ] in
    record o {
      seed = if o.seed == 0 then random_seed else o.seed;
      sender = record s { session_id = id; remote_name = remote };
    }
