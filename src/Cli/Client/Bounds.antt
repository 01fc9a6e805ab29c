-- ===== src/Cli/Client/Bounds.antt =====
-- The bounds that the command line of src/client/client_main.cpp puts on the sender.
use swiftlink.Common.{
  ℕ, zero, suc, ◌+◌, ◌^◌, ◌≤◌, ◌≡◌, ◌≢◌, inl, inr, subst, arith, Bool, Bool-cases, none, some,
  Option-cases, List, [], ◌∷◌, ltb, if◌then◌else◌,
}
use swiftlink.Common.Signed.{pos, signed64-ne_zero}
use swiftlink.Protocol.Packet.{max_payload_size}
use swiftlink.Cli.Text.{parse_within, option_name, option_value, is_option, parse_within_bounds}
use swiftlink.Cli.Client.{
  Options, default_options, Switch, quiet, simulate_loss, seed, rto_ms, window, name, chunk,
  unknown, switch_of, max_window, with_number, set_option, set_positional, parse_arguments,
  parse_options,
}

-- A port, a chunk that fits a packet, a window that the receiver's covers, and a timeout.
pub record IsUsable (o : Options) : Type 0 where
  pub port_low : 1 ≤ o.port
  pub port_high : o.port ≤ 65535
  pub chunk_low : 1 ≤ o.sender.chunk_size
  pub chunk_high : o.sender.chunk_size ≤ 65535
  pub window_low : 1 ≤ o.sender.window_size
  pub window_high : o.sender.window_size ≤ 1024
  pub rto_set : o.sender.rto ≢ pos 0

module _ (is_probability : List ℕ → Bool) where
  with_number-IsUsable :
      (low high : ℕ) (text : List ℕ) (change : ℕ → Options) (o : Options)
      → ((n : ℕ) → low ≤ n → n ≤ high → IsUsable (change n))
      → with_number is_probability (parse_within low high text) change ≡ some o
      → IsUsable o
  with_number-IsUsable low high text change o usable h =
      elim (Option-cases (parse_within low high text)) [
        | inl none_read ↦ absurd (ground (arith, rw none_read at h))
        | inr (n, reads) ↦
            let (above, below, narrow) = parse_within_bounds low high n text reads in
            subst IsUsable (result (change n) o (rw reads at h)) (usable n above below)
      ]
    where
      result : (a b : Options) → some a ≡ some b → a ≡ b
      result a b e = ground arith

  set_positional-IsUsable :
      (position : ℕ) (arg : List ℕ) (o o' : Options)
      → IsUsable o
      → set_positional is_probability position arg o ≡ some o'
      → IsUsable o'
  unfolding set_positional
  set_positional-IsUsable zero arg o o' u h = ground (arith, u)
  set_positional-IsUsable (suc zero) arg o o' u h =
      with_number-IsUsable 1 65535 arg _ o' (λ n low high. ground (arith, u)) h
  set_positional-IsUsable (suc (suc zero)) arg o o' u h = ground (arith, u)
  set_positional-IsUsable (suc (suc (suc more))) arg o o' u h = absurd (ground arith)

  set_option-IsUsable :
      (switch : Switch) (value : List ℕ) (o o' : Options)
      → IsUsable o
      → set_option is_probability switch value o ≡ some o'
      → IsUsable o'
  unfolding set_option
  set_option-IsUsable quiet value o o' u h = ground (arith, u)
  set_option-IsUsable simulate_loss value o o' u h = ground (arith, u)
  set_option-IsUsable seed value o o' u h = ground (arith, u)
  set_option-IsUsable rto_ms value o o' u h =
      with_number-IsUsable 1 (2 ^ 64) value _ o'
        (λ n low high. let set = signed64-ne_zero n low in ground (arith, u, set)) h
  set_option-IsUsable window value o o' u h =
      with_number-IsUsable 1 max_window value _ o' (λ n low high. ground (arith, u)) h
  set_option-IsUsable name value o o' u h = ground (arith, u)
  set_option-IsUsable chunk value o o' u h =
      with_number-IsUsable 1 max_payload_size value _ o' (λ n low high. ground (arith, u)) h
  set_option-IsUsable unknown value o o' u h = absurd (ground arith)

  parse_arguments-IsUsable :
      (args : List (List ℕ)) (positional : ℕ) (o o' : Options) (n : ℕ)
      → IsUsable o
      → parse_arguments is_probability args positional o ≡ some (n, o')
      → IsUsable o'
  unfolding parse_arguments
  parse_arguments-IsUsable [] positional o o' n u h = ground (arith, u)
  parse_arguments-IsUsable (arg ∷ rest) positional o o' n u h =
      let place = if is_option arg then positional else positional + 1 in
      let as_option = set_option-IsUsable (switch_of (option_name arg)) (option_value arg) o in
      let as_place = set_positional-IsUsable positional arg o in
      elim (Bool-cases (is_option arg)) [
        | inl e ↦
            elim (Option-cases
              (set_option is_probability (switch_of (option_name arg)) (option_value arg) o)) [
                | inl fails ↦ absurd (ground (arith, rw (parse_arguments, e, fails) at h))
                | inr (next, sets) ↦
                    parse_arguments-IsUsable rest place next o' n (as_option next u sets)
                      (rw (parse_arguments, e, sets) at h)
              ]
        | inr e ↦ elim (Option-cases (set_positional is_probability positional arg o)) [
          | inl fails ↦ absurd (ground (arith, rw (parse_arguments, e, fails) at h))
          | inr (next, sets) ↦
              parse_arguments-IsUsable rest place next o' n (as_place next u sets)
                (rw (parse_arguments, e, sets) at h)
        ]
      ]

  -- When the client's command line is accepted, the port is one of 1 to 65535, a chunk holds 1 to 65535
  -- bytes, which fit a packet, the window is 1 to 1024, which the receiver's window covers, and the
  -- retransmission timeout, which is signed, is not zero.
  pub parse_options-IsUsable :
      (args : List (List ℕ)) (o : Options)
      → parse_options is_probability args default_options ≡ some o
      → IsUsable o
  unfolding parse_options
  parse_options-IsUsable args o h =
      elim (Option-cases (parse_arguments is_probability args 0 default_options)) [
        | inl fails ↦ absurd (ground (arith, rw (parse_options, fails) at h))
        | inr ((n, o'), parsed) ↦
            let usable = parse_arguments-IsUsable args 0 default_options o' n defaults parsed in
            subst IsUsable (counted n o' o (rw (parse_options, parsed) at h)) usable
      ]
    where
      counted : (n : ℕ) (a b : Options) → (if ltb n 3 then none else some a) ≡ some b → a ≡ b
      counted n a b e = ground (arith, e)

      defaults : IsUsable default_options
      defaults = ground arith
