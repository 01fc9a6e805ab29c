-- ===== src/Proxy/Tests.antt =====
-- A proxy that drops the second of three datagrams and repeats the third.
use swiftlink.Common.{◌+◌, ◌-◌, ◌*◌, ◌/◌, ltb, leb}
use swiftlink.Cli.Text.{parse_unsigned, read_digits, is_option, option_name, option_value}
use swiftlink.Proxy.Options.{
  Settings, default_settings, parse_command, parse_arguments, take_positional, set_positional,
  set_option, switch_of, parse_probability, strip_percent,
}
use swiftlink.Proxy.Options.Bounds.{IsOrdered, IsProfile, parse_command-IsProfile}
use swiftlink.Proxy.Random.{Reals, no_impairment}
use swiftlink.Transfer.Filename.{codes}
use swiftlink.Common.{◌<◌, ◌⊎◌, ℕ, ◌≡◌, refl, true, false, none, some, List, [], ◌∷◌}
use swiftlink.Proxy.{
  both, Draws, Round, Proxy, new_proxy, push, pops_before, corrupted_bytes, forward_later,
  after_loss, accept, release_due, take_client, take_server, round, run,
}
use swiftlink.Proxy.Balance.{IsBalanced, run_balances}

abbrev plain : ℕ → Draws
plain t = record {
  lost = false;
  burst = none;
  corrupt = none;
  reordered = false;
  duplicated = false;
  arrived = t;
  queued = t;
}

abbrev rounds : List Round
rounds =
    record { from_client = some (1 ∷ [], plain 1); from_server = none; now = 2; checked = 2 }
    ∷ record {
      from_client = some (2 ∷ [], record (plain 3) { lost = true });
      from_server = some (9 ∷ [], plain 4);
      now = 5;
      checked = 5;
    }
    ∷ record {
      from_client = some (3 ∷ [], record (plain 6) { duplicated = true; corrupt = some (0, 2) });
      from_server = none;
      now = 12;
      checked = 12;
    }
    ∷ []

abbrev after : Proxy
after = run both 10 1000 rounds (new_proxy 0)

counted :
    (after.server_stats.received ≡ 3)
    × (after.server_stats.dropped ≡ 1)
    × (after.server_stats.duplicated ≡ 1)
    × (after.server_stats.forwarded ≡ 1)
unfolding run round take_client take_server accept after_loss forward_later corrupted_bytes push
    pops_before release_due
counted = (refl, refl, refl, refl)

run_balances_example : IsBalanced after
run_balances_example = run_balances both 10 1000 0 rounds

-- doubles in thousandths
abbrev thousandths : Reals
thousandths = record {
  Real = ℕ;
  literal = λ n. n * 1000;
  less = ltb;
  at_most = leb;
  plus = λ a b. a + b;
  minus = λ a b. a - b;
  times = λ a b. a * b / 1000;
  over = λ a b. a * 1000 / b;
  read = λ text. elim (parse_unsigned text) [ none ↦ none | some n ↦ some (n * 1000, []) ];
}

thousandths-IsOrdered : IsOrdered thousandths
thousandths-IsOrdered = record { zero_low = refl; zero_high = refl; four_long = refl }

-- a delay of half a millisecond, and every twentieth datagram lost
abbrev lossy : Settings thousandths
lossy = record (default_settings thousandths) {
  listen_port = 9001;
  target_port = 9000;
  delay_us = 500;
  impairment = record (no_impairment thousandths) { loss = 50 };
}

lossy_command :
    parse_command thousandths (codes "9001" ∷ codes "9000" ∷ codes "--loss=5%" ∷ codes "500" ∷ [])
    ≡ some lossy
unfolding parse_command parse_arguments take_positional set_positional set_option switch_of
    parse_probability strip_percent parse_unsigned read_digits is_option option_name option_value
lossy_command = refl

parse_command-IsProfile_example :
    IsProfile thousandths lossy
    × ((thousandths.less (thousandths.literal 0) lossy.impairment.reorder ≡ false)
        ⊎ (0 < lossy.delay_us))
parse_command-IsProfile_example =
    parse_command-IsProfile thousandths
      (codes "9001" ∷ codes "9000" ∷ codes "--loss=5%" ∷ codes "500" ∷ []) lossy
      thousandths-IsOrdered lossy_command
