-- ===== src/Proxy/Options/Bounds.antt =====
-- What a command line that tools/delay_proxy.cpp accepts is good for.
use swiftlink.Common.{
  ◌<◌, ◌⊎◌, ℕ, zero, suc, ◌+◌, ◌≡◌, inl, inr, refl, sym, ap, subst, arith, true, false, Bool-cases,
  Option, none, some, Option-cases, List, [], ◌∷◌, ltb, List-cases,
}
use swiftlink.Cli.Text.{parse_unsigned, option_name, option_value, is_option}
use swiftlink.Proxy.Options
use swiftlink.Proxy.Options.{
  Switch, Settings, default_settings, in_unit, strip_percent, parse_probability, parse_length,
  with_value, set_option, switch_of, set_positional, take_positional, parse_arguments,
  parse_command, is_idle_reorder, direction_of,
}
use swiftlink.Proxy.Random.{Reals}

-- The literals of the code compare as the numbers they stand for.
pub record IsOrdered (reals : Reals) : Type 0 where
  pub zero_low : reals.less (reals.literal 0) (reals.literal 0) ≡ false
  pub zero_high : reals.less (reals.literal 1) (reals.literal 0) ≡ false
  pub four_long : reals.at_most (reals.literal 1) (reals.literal 4) ≡ true

module _ (reals : Reals) where
  abbrev pub IsProbability : reals.Real → Type 0
  IsProbability p =
      (reals.less p (reals.literal 0) ≡ false) × (reals.less (reals.literal 1) p ≡ false)

  -- The probabilities are neither below 0 nor above 1, and a burst has a packet at least.
  abbrev pub IsProfile : Settings reals → Type 0
  IsProfile s =
      let i = s.impairment in
      IsProbability i.loss
      × IsProbability i.loss_correlation
      × IsProbability i.burst_loss
      × IsProbability i.duplicate
      × IsProbability i.reorder
      × IsProbability i.reorder_correlation
      × IsProbability i.corrupt
      × (reals.at_most (reals.literal 1) i.burst_length ≡ true)

  parse_probability-IsProbability :
      (text : List ℕ) (p : reals.Real) → parse_probability reals text ≡ some p → IsProbability p
  unfolding parse_probability
  parse_probability-IsProbability text p e =
      let stripped = strip_percent text in
      elim (Option-cases (reals.read stripped.1)) [
        | inl unread ↦ absurd (ground (arith, unread, e))
        | inr (r, got) ↦ elim (List-cases r.1) [
          | inr (c, rest, more) ↦ absurd (ground (arith, got, more, e))
          | inl all ↦ ground (arith, got, all, e)
        ]
      ]

  length_at_least :
      (text : List ℕ) (n : reals.Real)
      → parse_length reals text ≡ some n
      → reals.at_most (reals.literal 1) n ≡ true
  unfolding parse_length
  length_at_least text n e = elim (Option-cases (reals.read text)) [
    | inl unread ↦ absurd (ground (arith, unread, e))
    | inr (r, got) ↦ ground (arith, got, e)
  ]

  with_value-some :
      {A : Type 0} (v : Option A) (change : A → Settings reals) (s : Settings reals)
      → with_value reals v change ≡ some s
      → (x : A) × (v ≡ some x) × (change x ≡ s)
  with_value-some none change s e = absurd (ground (arith, e))
  with_value-some (some x) change s e = (x, refl, cc)

  set_option-IsProfile :
      (o : Switch) (value : List ℕ) (s t : Settings reals)
      → set_option reals o value s ≡ some t
      → IsProfile s
      → IsProfile t
  unfolding set_option
  set_option-IsProfile Options.loss value s t e (a, b, c, d, f, g, h, n) =
      let (p, read, same) = with_value-some (parse_probability reals value) _ t e in
      subst IsProfile same (parse_probability-IsProbability value p read, b, c, d, f, g, h, n)
  set_option-IsProfile Options.loss_corr value s t e (a, b, c, d, f, g, h, n) =
      let (p, read, same) = with_value-some (parse_probability reals value) _ t e in
      subst IsProfile same (a, parse_probability-IsProbability value p read, c, d, f, g, h, n)
  set_option-IsProfile Options.burst_loss value s t e (a, b, c, d, f, g, h, n) =
      let (p, read, same) = with_value-some (parse_probability reals value) _ t e in
      subst IsProfile same (a, b, parse_probability-IsProbability value p read, d, f, g, h, n)
  set_option-IsProfile Options.burst_len value s t e (a, b, c, d, f, g, h, n) =
      let (p, read, same) = with_value-some (parse_length reals value) _ t e in
      subst IsProfile same (a, b, c, d, f, g, h, length_at_least value p read)
  set_option-IsProfile Options.duplicate value s t e (a, b, c, d, f, g, h, n) =
      let (p, read, same) = with_value-some (parse_probability reals value) _ t e in
      subst IsProfile same (a, b, c, parse_probability-IsProbability value p read, f, g, h, n)
  set_option-IsProfile Options.reorder value s t e (a, b, c, d, f, g, h, n) =
      let (p, read, same) = with_value-some (parse_probability reals value) _ t e in
      subst IsProfile same (a, b, c, d, parse_probability-IsProbability value p read, g, h, n)
  set_option-IsProfile Options.reorder_corr value s t e (a, b, c, d, f, g, h, n) =
      let (p, read, same) = with_value-some (parse_probability reals value) _ t e in
      subst IsProfile same (a, b, c, d, f, parse_probability-IsProbability value p read, h, n)
  set_option-IsProfile Options.corrupt value s t e (a, b, c, d, f, g, h, n) =
      let (p, read, same) = with_value-some (parse_probability reals value) _ t e in
      subst IsProfile same (a, b, c, d, f, g, parse_probability-IsProbability value p read, n)
  set_option-IsProfile Options.seed value s t e x =
      let (p, read, same) = with_value-some (parse_unsigned value) _ t e in subst IsProfile same x
  set_option-IsProfile Options.impair value s t e x =
      let (p, read, same) = with_value-some (direction_of value) _ t e in subst IsProfile same x
  set_option-IsProfile Options.unknown value s t e x = absurd (ground (arith, e))

  some_injective : (s t : Settings reals) → some s ≡ some t → s ≡ t
  some_injective s t e = cc

  -- An argument by its place changes no impairment.
  set_positional-impairment :
      (place n : ℕ) (s t : Settings reals)
      → set_positional reals place n s ≡ some t
      → t.impairment ≡ s.impairment
  unfolding set_positional
  set_positional-impairment zero n s t e = ap (λ z. z.impairment) (sym (some_injective _ t e))
  set_positional-impairment (suc zero) n s t e = ap (λ z. z.impairment) (sym (some_injective _ t e))
  set_positional-impairment (suc (suc zero)) n s t e =
      ap (λ z. z.impairment) (sym (some_injective _ t e))
  set_positional-impairment (suc (suc (suc zero))) n s t e =
      ap (λ z. z.impairment) (sym (some_injective _ t e))
  set_positional-impairment (suc (suc (suc (suc more)))) n s t e = absurd (ground (arith, e))

  take_positional-IsProfile :
      (place : ℕ) (arg : List ℕ) (s t : Settings reals)
      → take_positional reals place arg s ≡ some t
      → IsProfile s
      → IsProfile t
  unfolding take_positional
  take_positional-IsProfile place arg s t e x = elim (Option-cases (parse_unsigned arg)) [
    | inl unread ↦ absurd (ground (arith, unread, e))
    | inr (n, read) ↦
        let set : set_positional reals place n s ≡ some t = ground (arith, read, e) in
        subst (λ i. IsProfile (record t { impairment = i }))
          (sym (set_positional-impairment place n s t set)) x
  ]

  parse_arguments-IsProfile :
      (args : List (List ℕ)) (positional : ℕ) (s : Settings reals) (r : ℕ × Settings reals)
      → parse_arguments reals args positional s ≡ some r
      → IsProfile s
      → IsProfile r.1
  unfolding parse_arguments
  parse_arguments-IsProfile [] positional s r e x =
      let same : s ≡ r.1 = cc in subst IsProfile same x
  parse_arguments-IsProfile (arg ∷ rest) positional s r e x = elim (Bool-cases (is_option arg)) [
    | inl option ↦
        let o = set_option reals (switch_of (option_name arg)) (option_value arg) s in
        elim (Option-cases o) [
          | inl bad ↦ absurd (ground (arith, option, bad, e))
          | inr (t, ok) ↦
              parse_arguments-IsProfile rest positional t r (ground (arith, option, ok, e))
                (set_option-IsProfile (switch_of (option_name arg)) (option_value arg) s t ok x)
        ]
    | inr place ↦
        let o = take_positional reals positional arg s in
        elim (Option-cases o) [
          | inl bad ↦ absurd (ground (arith, place, bad, e))
          | inr (t, ok) ↦
              parse_arguments-IsProfile rest (positional + 1) t r (ground (arith, place, ok, e))
                (take_positional-IsProfile positional arg s t ok x)
        ]
  ]

  -- A command line that is accepted gives probabilities that are not below 0 and not above 1, a mean
  -- burst of a packet at least, and a delay above 0 unless the probability of reordering is not above 0.
  -- The doubles 0, 1 and 4 must compare as the numbers that they stand for.
  pub parse_command-IsProfile :
      (args : List (List ℕ)) (s : Settings reals)
      → IsOrdered reals
      → parse_command reals args ≡ some s
      → IsProfile s
        × ((reals.less (reals.literal 0) s.impairment.reorder ≡ false) ⊎ (0 < s.delay_us))
  unfolding parse_command
  parse_command-IsProfile args s ordered e =
      elim (Option-cases (parse_arguments reals args 0 (default_settings reals))) [
        | inl bad ↦ absurd (ground (arith, bad, e))
        | inr (r, ok) ↦ elim (Bool-cases (ltb r.0 3)) [
          | inl few ↦ absurd (ground (arith, ok, few, e))
          | inr enough ↦ elim (Bool-cases (is_idle_reorder reals r.1)) [
            | inl idle ↦ absurd (ground (arith, ok, enough, idle, e))
            | inr fine ↦
                let same : r.1 ≡ s = ground (arith, ok, enough, fine, e) in
                let z : IsProbability (reals.literal 0) = (ordered.zero_low, ordered.zero_high) in
                let l = ordered.four_long in
                subst
                  (λ t.
                    IsProfile t
                    × ((reals.less (reals.literal 0) t.impairment.reorder ≡ false)
                        ⊎ (0 < t.delay_us)))
                  same
                  (
                    parse_arguments-IsProfile args 0 (default_settings reals) r ok
                        (z, z, z, z, z, z, z, l),
                    ground (arith, fine),
                  )
          ]
        ]
      ]
