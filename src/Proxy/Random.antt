-- ===== src/Proxy/Random.antt =====
-- The impairment profile of tools/delay_proxy.cpp and what its generators decide about a datagram. The
-- doubles and the random engine are the interfaces `Reals` and `Engine`.
use swiftlink.Common.{ℕ, Bool, false, ◌&&◌, Option, none, some, List, length, ltb, if◌then◌else◌}
use swiftlink.Proxy.{Proxy, Direction, Draws, burst_lost, is_impaired, accept}

-- Doubles: the literals of the code, the comparisons (false where an operand is not a number), and
-- std::from_chars, with the rest of the text.
pub record Reals : Type 1 where
  pub Real : Type 0
  pub literal : ℕ → Real
  pub less : Real → Real → Bool
  pub at_most : Real → Real → Bool
  pub plus : Real → Real → Real
  pub minus : Real → Real → Real
  pub times : Real → Real → Real
  pub over : Real → Real → Real
  pub read : List ℕ → Option (Real × List ℕ)

-- std::mt19937_64 with the two distributions.
pub record Engine (reals : Reals) : Type 1 where
  pub Rng : Type 0
  pub uniform : Rng → reals.Real × Rng
  pub below : ℕ → Rng → ℕ × Rng

module _ (reals : Reals) where
  pub record CorrelatedRandom : Type 0 where
    pub rho : reals.Real
    pub last : reals.Real

  pub record Impairment : Type 0 where
    pub loss : reals.Real
    pub loss_correlation : reals.Real
    pub burst_loss : reals.Real
    pub burst_length : reals.Real
    pub duplicate : reals.Real
    pub reorder : reals.Real
    pub reorder_correlation : reals.Real
    pub corrupt : reals.Real

  abbrev pub no_impairment : Impairment
  no_impairment =
      let zero = reals.literal 0 in
      record {
        loss = zero;
        loss_correlation = zero;
        burst_loss = zero;
        burst_length = reals.literal 4;
        duplicate = zero;
        reorder = zero;
        reorder_correlation = zero;
        corrupt = zero;
      }

  abbrev pub gilbert_to_good : Impairment → reals.Real
  gilbert_to_good i = reals.over (reals.literal 1) i.burst_length

  unfoldable pub gilbert_to_bad : Impairment → reals.Real
  gilbert_to_bad i =
      let one = reals.literal 1 in
      if reals.at_most one i.burst_loss
      then one
      else reals.times (reals.over i.burst_loss (reals.minus one i.burst_loss)) (gilbert_to_good i)

  -- One for each impairment of a direction; the state of the burst model is in `Proxy`.
  pub record Generators : Type 0 where
    pub loss : CorrelatedRandom
    pub reorder : CorrelatedRandom
    pub duplicate : CorrelatedRandom
    pub corrupt : CorrelatedRandom
    pub to_bad : reals.Real
    pub to_good : reals.Real

  abbrev pub correlated : reals.Real → CorrelatedRandom
  correlated rho = record { rho = rho; last = reals.literal 0 }

  abbrev pub new_generators : Impairment → Generators
  new_generators i = record {
    loss = correlated i.loss_correlation;
    reorder = correlated i.reorder_correlation;
    duplicate = correlated (reals.literal 0);
    corrupt = correlated (reals.literal 0);
    to_bad = gilbert_to_bad i;
    to_good = gilbert_to_good i;
  }

  module _ (engine : Engine reals) where
    -- `CorrelatedRandom::next`
    unfoldable pub draw :
        CorrelatedRandom → engine.Rng → reals.Real × (CorrelatedRandom × engine.Rng)
    draw c rng =
        let u = engine.uniform rng in
        let mixed =
          reals.plus (reals.times u.0 (reals.minus (reals.literal 1) c.rho))
            (reals.times c.last c.rho) in
        if reals.at_most c.rho (reals.literal 0)
        then (u.0, (c, u.1))
        else (mixed, (record c { last = mixed }, u.1))

    -- the test of an impairment: nothing is drawn unless its probability is positive
    unfoldable pub strikes :
        Bool → reals.Real → CorrelatedRandom → engine.Rng → Bool × (CorrelatedRandom × engine.Rng)
    strikes impaired p c rng =
        let d = draw c rng in
        if impaired && reals.less (reals.literal 0) p
        then (reals.less d.0 p, d.1)
        else (false, (c, rng))

    -- the draw of the burst model, in the bad state or the good one
    unfoldable pub crosses :
        Bool → Bool → Impairment → Generators → engine.Rng → Option Bool × engine.Rng
    crosses impaired bad i g rng =
        let u = engine.uniform rng in
        if impaired && reals.less (reals.literal 0) i.burst_loss
        then (some (reals.less u.0 (if bad then g.to_good else g.to_bad)), u.1)
        else (none, rng)

    -- which bit is flipped
    unfoldable pub pick_bit : Bool → ℕ → engine.Rng → Option (ℕ × ℕ) × engine.Rng
    pick_bit broken size rng =
        let at = engine.below size rng in
        let bit = engine.below 8 at.1 in
        if broken && ltb 0 size then (some (at.0, bit.0), bit.1) else (none, rng)

    -- What is decided about a datagram that was not lost at once.
    unfoldable pub decide_rest :
        Bool → ℕ → Impairment → Generators → Draws → engine.Rng → Draws × (Generators × engine.Rng)
    decide_rest impaired size i g x rng =
        let c = strikes impaired i.corrupt g.corrupt rng in
        let b = pick_bit c.0 size c.1.1 in
        let r = strikes impaired i.reorder g.reorder b.1 in
        let d = strikes impaired i.duplicate g.duplicate r.1.1 in
        (
          record x { corrupt = b.0; reordered = r.0; duplicated = d.0 },
          (record g { corrupt = c.1.0; reorder = r.1.0; duplicate = d.1.0 }, d.1.1),
        )

    -- The decisions on a datagram of `size` bytes that arrives at one time and is queued at another.
    unfoldable pub decide :
        Bool
        → Bool
        → ℕ
        → ℕ
        → ℕ
        → Impairment
        → Generators
        → engine.Rng
        → Draws × (Generators × engine.Rng)
    decide impaired bad size arrived queued i g rng =
        let l = strikes impaired i.loss g.loss rng in
        let g' = record g { loss = l.1.0 } in
        let b = crosses impaired bad i g l.1.1 in
        let x : Draws = record {
          lost = l.0;
          burst = none;
          corrupt = none;
          reordered = false;
          duplicated = false;
          arrived = arrived;
          queued = queued;
        } in
        let burst = record x { burst = b.0 } in
        let rest = decide_rest impaired size i g' burst b.1 in
        if l.0 then (x, (g', l.1.1)) else elim b.0 [
          | none ↦ rest
          | some crossed ↦ if (burst_lost bad crossed).0 then (burst, (g', b.1)) else rest
        ]

    -- `accept` with its generators
    unfoldable pub accept_drawn :
        Direction
        → ℕ
        → Bool
        → List ℕ
        → ℕ
        → ℕ
        → Impairment
        → Generators
        → engine.Rng
        → Proxy
        → Proxy × (Generators × engine.Rng)
    accept_drawn direction delay forward bytes arrived queued i g rng p =
        let bad = if forward then p.server_bad else p.client_bad in
        let x = decide (is_impaired direction forward) bad (length bytes) arrived queued i g rng in
        (accept direction delay forward bytes x.0 p, x.1)
