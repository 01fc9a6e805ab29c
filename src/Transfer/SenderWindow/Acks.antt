-- ===== src/Transfer/SenderWindow/Acks.antt =====
-- The sender's window of src/transfer/window.cpp against the set of the sequence numbers that have
-- been acknowledged. `base` is the least number that is not in the set, or the next one to be sent.
use swiftlink.Common.{
  ℕ, zero, suc, ◌+◌, ◌-◌, ◌%◌, ◌^◌, ◌≤◌, ◌<◌, ◌≡◌, ◌↔◌, refl, sym, ap, ◌∙◌, arith, inl, inr, Bool,
  true, false, not, ◌&&◌, ltb, if◌then◌else◌, Bool-cases, length-set, length-replicate, ℕ_discrete,
}
use swiftlink.Transfer.ReceiverWindow.Refine.{insert}
use swiftlink.Transfer.SenderWindow.{
  SenderWindow, Slot, new_window, in_flight, can_send, slot_at, set_slot, on_sent, advance, on_ack,
  next_generation,
}
use swiftlink.Transfer.SenderWindow.Slots.{IsRing, slot_at-set_slot_alias, slot_at-set_slot_ne}

-- `acked` are the acknowledged numbers.
pub record Holds (w : SenderWindow) (acked : ℕ → Bool) : Type 0 where
  pub is_ring : IsRing w
  pub ordered : w.base ≤ w.next_sequence
  pub fits : w.next_sequence ≤ w.base + w.capacity
  pub narrow : w.next_sequence < 2 ^ 32
  pub retired : (s : ℕ) → s < w.base → acked s ≡ true
  pub window :
      (s : ℕ) → w.base ≤ s → s < w.next_sequence → (slot_at w s).outstanding ≡ not (acked s)
  pub unsent : (s : ℕ) → w.next_sequence ≤ s → acked s ≡ false

-- ... and the base has come to rest.
pub record Tracks (w : SenderWindow) (acked : ℕ → Bool) : Type 0 where
  pub holds : Holds w acked
  pub oldest : w.base < w.next_sequence → acked w.base ≡ false

pub new_window-Tracks : (capacity : ℕ) → Tracks (new_window capacity) (λ s. false)
unfolding new_window
new_window-Tracks capacity = record {
  holds = record {
    is_ring = record { has_slots = ground arith; sized = length-replicate {0} _ _ };
    ordered = omega arith;
    fits = omega arith;
    narrow = omega arith;
    retired = λ s h. absurd (omega arith);
    window = λ s h g. absurd (omega arith);
    unsent = λ s h. refl;
  };
  oldest = λ h. refl;
}

-- The number of packets in flight never passes the capacity, and there is room for another exactly
-- while it is below.
pub in_flight_lem :
    (w : SenderWindow) (acked : ℕ → Bool)
    → Tracks w acked
    → (in_flight w ≡ w.next_sequence - w.base)
      × (in_flight w ≤ w.capacity)
      × ((can_send w ≡ true) ↔ (w.next_sequence < w.base + w.capacity))
unfolding in_flight can_send
in_flight_lem w acked t =
    let h = t.holds in
    let exact : (w.next_sequence + 2 ^ 32 - w.base) % 2 ^ 32 ≡ w.next_sequence - w.base =
      omega (arith, h.ordered, h.narrow) in
    rw exact (ground (arith, h.ordered, h.fits))

-- Sending opens the window by one number, which is not acknowledged yet.
pub on_sent-Tracks :
    (w : SenderWindow) (acked : ℕ → Bool) (deadline : ℕ)
    → Tracks w acked
    → can_send w ≡ true
    → w.next_sequence + 1 < 2 ^ 32
    → Tracks (on_sent w deadline) acked
      × ((on_sent w deadline).next_sequence ≡ w.next_sequence + 1)
      × ((on_sent w deadline).base ≡ w.base)
unfolding on_sent
on_sent-Tracks w acked deadline t room narrow = (
  record {
    holds = record {
      is_ring = record {
        has_slots = h.is_ring.has_slots;
        sized = length-set w.slots _ _ ∙ h.is_ring.sized;
      };
      ordered = omega (arith, h.ordered);
      fits = omega (arith, free);
      narrow = omega arith;
      retired = h.retired;
      window = λ s low high. elim (ℕ_discrete w.next_sequence s) [
        | yes e ↦
            ap (λ slot. slot.outstanding)
              (slot_at-set_slot_alias w w.next_sequence s _ h.is_ring
                (ap (λ x. x % w.capacity) (sym e)))
            ∙ ap not (sym (h.unsent s (omega arith)))
        | no ne ↦
            ap (λ slot. slot.outstanding)
              (slot_at-set_slot_ne w w.base w.next_sequence s _ h.ordered free low
                (omega (arith, free)) ne)
            ∙ h.window s low (omega arith)
      ];
      unsent = λ s ge. h.unsent s (omega arith);
    };
    oldest = λ lt. elim (ℕ_discrete w.base w.next_sequence) [
      | yes e ↦ h.unsent w.base (omega arith)
      | no ne ↦ t.oldest (omega (arith, h.ordered))
    ];
  },
  omega arith,
  refl,
)
  where
    h : Holds w acked
    h = t.holds

    free : w.next_sequence < w.base + w.capacity
    free = (in_flight_lem w acked t).2.0 room

-- The loop of `on_ack` ends at the least number that is not acknowledged, or at the next to be sent.
advance-Tracks :
    (fuel : ℕ) (w : SenderWindow) (acked : ℕ → Bool)
    → Holds w acked
    → w.next_sequence - w.base < fuel
    → Tracks (advance fuel w) acked
unfolding advance
advance-Tracks zero w acked h lt = absurd (omega arith)
advance-Tracks (suc fuel) w acked h lt =
    elim (Bool-cases (ltb w.base w.next_sequence && not (slot_at w w.base).outstanding)) [
      | inl go ↦
          let more : w.base < w.next_sequence = ground (arith, go) in
          rw go (
            advance-Tracks fuel _ acked
              (record {
                is_ring = record { has_slots = h.is_ring.has_slots; sized = h.is_ring.sized };
                ordered = omega arith;
                fits = omega (arith, h.fits, h.narrow);
                narrow = h.narrow;
                retired = λ s below. elim (ℕ_discrete s w.base) [
                  | yes e ↦ rw e (ground (arith, go, h.window w.base (omega arith) more))
                  | no ne ↦ h.retired s (omega (arith, h.narrow))
                ];
                window = λ s low high. h.window s (omega (arith, h.narrow)) high;
                unsent = h.unsent;
              })
              (omega (arith, h.narrow)))
      | inr stop ↦ rw stop (record {
        holds = h;
        oldest = λ more. ground (arith, stop, h.window w.base (omega arith) more);
      })
    ]

-- Retiring one number of the window.
retire-Holds :
    (w : SenderWindow) (acked : ℕ → Bool) (n : ℕ) (slot : Slot)
    → Tracks w acked
    → w.base ≤ n
    → n < w.next_sequence
    → slot.outstanding ≡ false
    → Holds (set_slot w n slot) (insert n acked)
retire-Holds w acked n slot t ge lt off =
    let h = t.holds in
    record {
      is_ring = record {
        has_slots = h.is_ring.has_slots;
        sized = length-set w.slots _ slot ∙ h.is_ring.sized;
      };
      ordered = h.ordered;
      fits = h.fits;
      narrow = h.narrow;
      retired = λ s below. ground (arith, h.retired s below);
      window = λ s low high. elim (ℕ_discrete n s) [
        | yes e ↦
            ap (λ x. x.outstanding)
              (slot_at-set_slot_alias w n s slot h.is_ring (ap (λ x. x % w.capacity) (sym e)))
            ∙ ground (arith, e, off)
        | no ne ↦
            ap (λ x. x.outstanding)
              (slot_at-set_slot_ne w w.base n s slot ge (omega (arith, h.fits)) low
                (omega (arith, h.fits)) ne)
            ∙ h.window s low high
            ∙ ground (arith, ne)
      ];
      unsent = λ s above. ground (arith, h.unsent s above);
    }

-- The two answers of `on_ack`.
on_ack-branches :
    (w : SenderWindow) (acked : ℕ → Bool) (n : ℕ)
    → Tracks w acked
    → (((on_ack w n).1 ≡ true) ↔ ((w.base ≤ n) × (n < w.next_sequence) × (acked n ≡ false)))
      × ((on_ack w n).1 ≡ true → Tracks (on_ack w n).0 (insert n acked))
      × ((on_ack w n).1 ≡ false → (on_ack w n).0 ≡ w)
unfolding on_ack
on_ack-branches w acked n t = (
  ground (arith, t.holds.window n),
  λ applied.
      let ge : w.base ≤ n = ground (arith, applied) in
      let lt : n < w.next_sequence = ground (arith, applied) in
      let retired =
        advance-Tracks (w.next_sequence - w.base + 1) _ (insert n acked)
          (retire-Holds w acked n
            (record { outstanding = false; generation = next_generation (slot_at w n) }) t ge lt
            refl)
          (omega arith) in
      ground (arith, applied, retired),
  λ ignored. ground (arith, ignored),
)

-- An acknowledgement is applied exactly when its number is in the window and not acknowledged yet.
-- Then the number joins the set, and the base slides to the least number that is still missing.
-- Otherwise (already retired, a duplicate, never sent) the set stays as it is.
pub on_ack-Tracks :
    (w : SenderWindow) (acked : ℕ → Bool) (n : ℕ)
    → Tracks w acked
    → (((on_ack w n).1 ≡ true) ↔ ((w.base ≤ n) × (n < w.next_sequence) × (acked n ≡ false)))
      × Tracks (on_ack w n).0 (if (on_ack w n).1 then insert n acked else acked)
on_ack-Tracks w acked n t =
    let (applies, applied, ignored) = on_ack-branches w acked n t in
    elim (Bool-cases (on_ack w n).1) [
      | inl e ↦ (applies, rw e (applied e))
      | inr e ↦ (applies, rw (e, ignored e) t)
    ]
