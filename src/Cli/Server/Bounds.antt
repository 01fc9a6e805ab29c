-- ===== src/Cli/Server/Bounds.antt =====
-- The bounds that the command line of src/server/server_main.cpp puts on the server.
use swiftlink.Common.{
  ℕ, zero, suc, ◌+◌, ◌^◌, ◌<◌, ◌≤◌, ◌≡◌, inl, inr, subst, arith, Bool-cases, none, some,
  Option-cases, List, [], ◌∷◌, ltb, if◌then◌else◌,
}
use swiftlink.Cli.Text.{parse_within, option_name, option_value, is_option, parse_within_bounds}
use swiftlink.Cli.Server.{
  Switch, quiet, idle_ms, sweep_ms, linger_ms, max_sessions, window, unknown, switch_of,
  with_number, set_option, set_positional, parse_arguments, parse_options,
}
use swiftlink.Server.Config.{Config, default_config}

-- What the server relies on.
pub record IsRunnable (c : Config) : Type 0 where
  pub port_low : 1 ≤ c.port
  pub port_high : c.port ≤ 65535
  pub some_session : 1 ≤ c.max_sessions
  pub session_count : c.max_sessions < 2 ^ 64
  pub sweeps : 1 ≤ c.sweep_interval
  pub waits : 1 ≤ c.session_idle_timeout
  pub window_fits : c.window_size < 2 ^ 32

with_number-IsRunnable :
    (low high : ℕ) (text : List ℕ) (change : ℕ → Config) (o : Config)
    → ((n : ℕ) → low ≤ n → n ≤ high → n < 2 ^ 64 → IsRunnable (change n))
    → with_number (parse_within low high text) change ≡ some o
    → IsRunnable o
with_number-IsRunnable low high text change o usable h =
    elim (Option-cases (parse_within low high text)) [
      | inl none_read ↦ absurd (ground (arith, rw none_read at h))
      | inr (n, reads) ↦
          let (above, below, narrow) = parse_within_bounds low high n text reads in
          subst IsRunnable (result (change n) o (rw reads at h)) (usable n above below narrow)
    ]
  where
    result : (a b : Config) → some a ≡ some b → a ≡ b
    result a b e = ground arith

set_positional-IsRunnable :
    (position : ℕ) (arg : List ℕ) (c c' : Config)
    → IsRunnable c
    → set_positional position arg c ≡ some c'
    → IsRunnable c'
unfolding set_positional
set_positional-IsRunnable zero arg c c' u h =
    with_number-IsRunnable 1 65535 arg _ c' (λ n low high narrow. ground (arith, u)) h
set_positional-IsRunnable (suc zero) arg c c' u h = ground (arith, u)
set_positional-IsRunnable (suc (suc more)) arg c c' u h = absurd (ground arith)

set_option-IsRunnable :
    (switch : Switch) (value : List ℕ) (c c' : Config)
    → IsRunnable c
    → set_option switch value c ≡ some c'
    → IsRunnable c'
unfolding set_option
set_option-IsRunnable quiet value c c' u h = ground (arith, u)
set_option-IsRunnable idle_ms value c c' u h =
    with_number-IsRunnable 1 (2 ^ 64) value _ c' (λ n low high narrow. ground (arith, u)) h
set_option-IsRunnable sweep_ms value c c' u h =
    with_number-IsRunnable 1 (2 ^ 64) value _ c' (λ n low high narrow. ground (arith, u)) h
set_option-IsRunnable linger_ms value c c' u h = ground (arith, u)
set_option-IsRunnable max_sessions value c c' u h =
    with_number-IsRunnable 1 (2 ^ 64) value _ c' (λ n low high narrow. ground (arith, u)) h
set_option-IsRunnable window value c c' u h =
    with_number-IsRunnable 1 (2 ^ 64) value _ c' (λ n low high narrow. ground (arith, u)) h
set_option-IsRunnable unknown value c c' u h = absurd (ground arith)

parse_arguments-IsRunnable :
    (args : List (List ℕ)) (positional : ℕ) (c c' : Config) (n : ℕ)
    → IsRunnable c
    → parse_arguments args positional c ≡ some (n, c')
    → IsRunnable c'
unfolding parse_arguments
parse_arguments-IsRunnable [] positional c c' n u h = ground (arith, u)
parse_arguments-IsRunnable (arg ∷ rest) positional c c' n u h =
    let place = if is_option arg then positional else positional + 1 in
    let as_option = set_option-IsRunnable (switch_of (option_name arg)) (option_value arg) c in
    let as_place = set_positional-IsRunnable positional arg c in
    elim (Bool-cases (is_option arg)) [
      | inl e ↦
          elim (Option-cases (set_option (switch_of (option_name arg)) (option_value arg) c)) [
            | inl fails ↦ absurd (ground (arith, rw (parse_arguments, e, fails) at h))
            | inr (next, sets) ↦
                parse_arguments-IsRunnable rest place next c' n (as_option next u sets)
                  (rw (parse_arguments, e, sets) at h)
          ]
      | inr e ↦ elim (Option-cases (set_positional positional arg c)) [
        | inl fails ↦ absurd (ground (arith, rw (parse_arguments, e, fails) at h))
        | inr (next, sets) ↦
            parse_arguments-IsRunnable rest place next c' n (as_place next u sets)
              (rw (parse_arguments, e, sets) at h)
      ]
    ]

-- When the server's command line is accepted, the port is one of 1 to 65535, the number of sessions is
-- at least one and fits 64 bits, neither the interval of the sweep nor the idle time is zero, and the
-- window fits 32 bits.
pub parse_options-IsRunnable :
    (args : List (List ℕ)) (c : Config) → parse_options args default_config ≡ some c → IsRunnable c
unfolding parse_options
parse_options-IsRunnable args c h = elim (Option-cases (parse_arguments args 0 default_config)) [
  | inl fails ↦ absurd (ground (arith, rw (parse_options, fails) at h))
  | inr ((n, c'), parsed) ↦
      let usable = parse_arguments-IsRunnable args 0 default_config c' n defaults parsed in
      subst IsRunnable (counted n c' c (rw (parse_options, parsed) at h)) usable
]
  where
    counted : (n : ℕ) (a b : Config) → (if ltb n 2 then none else some a) ≡ some b → a ≡ b
    counted n a b e = ground (arith, e)

    defaults : IsRunnable default_config
    defaults = ground arith
