-- ===== src/Proxy/Options.antt =====
-- The command line of tools/delay_proxy.cpp.
pub mod Bounds
use swiftlink.Common.{
  ℕ, zero, suc, ◌+◌, Bool, true, false, not, ◌&&◌, ◌||◌, Option, none, some, List, [], ◌∷◌, ltb,
  ◌==◌, if◌then◌else◌,
}
use swiftlink.Cli.Text.{parse_unsigned, option_name, option_value, is_option}
use swiftlink.Proxy.{Direction, both, to_server, to_client}
use swiftlink.Proxy.Random.{Reals, Impairment, no_impairment}
use swiftlink.Transfer.Filename.{codes}
use swiftlink.Transfer.Session.{same_bytes}

-- the options, by their names
pub data Switch : Type 0 where
  loss loss_corr burst_loss burst_len duplicate reorder reorder_corr corrupt seed impair unknown :
      Switch

unfoldable pub switch_of : List ℕ → Switch
switch_of text =
    if same_bytes text (codes "--loss")
    then loss
    else if same_bytes text (codes "--loss-corr")
    then loss_corr
    else if same_bytes text (codes "--burst-loss")
    then burst_loss
    else if same_bytes text (codes "--burst-len")
    then burst_len
    else if same_bytes text (codes "--duplicate")
    then duplicate
    else if same_bytes text (codes "--reorder")
    then reorder
    else if same_bytes text (codes "--reorder-corr")
    then reorder_corr
    else if same_bytes text (codes "--corrupt")
    then corrupt
    else if same_bytes text (codes "--seed")
    then seed
    else if same_bytes text (codes "--impair")
    then impair
    else unknown

unfoldable pub direction_of : List ℕ → Option Direction
direction_of text =
    if same_bytes text (codes "both")
    then some both
    else if same_bytes text (codes "to-server")
    then some to_server
    else if same_bytes text (codes "to-client")
    then some to_client
    else none

-- a text without a percent sign at its end, and whether it had one
unfoldable pub strip_percent : List ℕ → Bool × List ℕ
strip_percent [] = (false, [])
strip_percent (c ∷ rest) = elim rest [
  | [] ↦ if c == b'%' then (true, []) else (false, c ∷ [])
  | d ∷ more ↦ let tail = strip_percent rest in (tail.0, c ∷ tail.1)
]

pub record Settings (reals : Reals) : Type 0 where
  pub listen_port : ℕ
  pub target_port : ℕ
  pub delay_us : ℕ
  pub idle_exit_ms : ℕ
  pub seed : ℕ
  pub impairment : Impairment reals
  pub direction : Direction

module _ (reals : Reals) where
  abbrev pub default_settings : Settings reals
  default_settings = record {
    listen_port = 0;
    target_port = 0;
    delay_us = 0;
    idle_exit_ms = 15000;
    seed = 0;
    impairment = no_impairment reals;
    direction = both;
  }

  abbrev pub in_unit : reals.Real → Bool
  in_unit value = not (reals.less value (reals.literal 0) || reals.less (reals.literal 1) value)

  unfoldable pub parse_probability : List ℕ → Option reals.Real
  parse_probability text =
      let stripped = strip_percent text in
      elim (reals.read stripped.1) [
        | none ↦ none
        | some r ↦
            let value = if stripped.0 then reals.over r.0 (reals.literal 100) else r.0 in
            elim r.1 [ [] ↦ if in_unit value then some value else none | c ∷ rest ↦ none ]
      ]

  -- what follows the number is not looked at
  unfoldable pub parse_length : List ℕ → Option reals.Real
  parse_length text = elim (reals.read text) [
    | none ↦ none
    | some r ↦ if reals.at_most (reals.literal 1) r.0 then some r.0 else none
  ]

  -- a value that was read, and what it changes
  abbrev pub with_value : {A : Type 0} → Option A → (A → Settings reals) → Option (Settings reals)
  with_value none change = none
  with_value (some v) change = some (change v)

  unfoldable pub set_option : Switch → List ℕ → Settings reals → Option (Settings reals)
  set_option loss value s =
      with_value (parse_probability value)
        (λ p. record s { impairment = record (s.impairment) { loss = p } })
  set_option loss_corr value s =
      with_value (parse_probability value)
        (λ p. record s { impairment = record (s.impairment) { loss_correlation = p } })
  set_option burst_loss value s =
      with_value (parse_probability value)
        (λ p. record s { impairment = record (s.impairment) { burst_loss = p } })
  set_option burst_len value s =
      with_value (parse_length value)
        (λ n. record s { impairment = record (s.impairment) { burst_length = n } })
  set_option duplicate value s =
      with_value (parse_probability value)
        (λ p. record s { impairment = record (s.impairment) { duplicate = p } })
  set_option reorder value s =
      with_value (parse_probability value)
        (λ p. record s { impairment = record (s.impairment) { reorder = p } })
  set_option reorder_corr value s =
      with_value (parse_probability value)
        (λ p. record s { impairment = record (s.impairment) { reorder_correlation = p } })
  set_option corrupt value s =
      with_value (parse_probability value)
        (λ p. record s { impairment = record (s.impairment) { corrupt = p } })
  set_option seed value s = with_value (parse_unsigned value) (λ n. record s { seed = n })
  set_option impair value s = with_value (direction_of value) (λ d. record s { direction = d })
  set_option unknown value s = none

  -- an argument by its place
  unfoldable pub set_positional : ℕ → ℕ → Settings reals → Option (Settings reals)
  set_positional zero n s = some (record s { listen_port = n })
  set_positional (suc zero) n s = some (record s { target_port = n })
  set_positional (suc (suc zero)) n s = some (record s { delay_us = n })
  set_positional (suc (suc (suc zero))) n s = some (record s { idle_exit_ms = n })
  set_positional (suc (suc (suc (suc more)))) n s = none

  unfoldable pub take_positional : ℕ → List ℕ → Settings reals → Option (Settings reals)
  take_positional place arg s = elim (parse_unsigned arg) [
    | none ↦ none
    | some n ↦ set_positional place n s
  ]

  -- The loop over the arguments, with the count of those that are no options.
  unfoldable pub parse_arguments : List (List ℕ) → ℕ → Settings reals → Option (ℕ × Settings reals)
  parse_arguments [] positional s = some (positional, s)
  parse_arguments (arg ∷ rest) positional s =
      let next = if is_option arg then positional else positional + 1 in
      elim (if is_option arg
        then set_option (switch_of (option_name arg)) (option_value arg) s
        else take_positional positional arg s) [
          | none ↦ none
          | some s' ↦ parse_arguments rest next s'
        ]

  -- Reordering needs a delay.
  abbrev pub is_idle_reorder : Settings reals → Bool
  is_idle_reorder s = reals.less (reals.literal 0) s.impairment.reorder && s.delay_us == 0

  unfoldable pub parse_command : List (List ℕ) → Option (Settings reals)
  parse_command args = elim (parse_arguments args 0 default_settings) [
    | none ↦ none
    | some r ↦ if ltb r.0 3 then none else if is_idle_reorder r.1 then none else some r.1
  ]
