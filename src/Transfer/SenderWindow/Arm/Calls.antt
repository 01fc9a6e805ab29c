-- ===== src/Transfer/SenderWindow/Arm/Calls.antt =====
-- The calls of src/transfer/window.cpp that arm and cancel timers keep the queue in order.
use swiftlink.Common.{
  ℕ, zero, suc, ◌+◌, ◌-◌, ◌%◌, ◌^◌, ◌≤◌, ◌<◌, ◌≡◌, ◌⊎◌, sym, ◌∙◌, arith, inl, inr, true, false, not,
  ◌&&◌, ◌||◌, ltb, leb, Bool-cases, length-set, ℕ_discrete,
}
use swiftlink.Transfer.SenderWindow.{
  SenderWindow, slot_at, set_slot, next_generation, is_live, on_sent, advance, on_ack, reschedule,
}
use swiftlink.Transfer.SenderWindow.Slots.{slot_at-set_slot_alias, slot_at-set_slot_other}
use swiftlink.Transfer.SenderWindow.Timers.{Timed}
use swiftlink.Transfer.SenderWindow.Arm.{arm-Timed, armed}

-- Sending a packet in an open window keeps the timers: the queue is sorted, no entry is newer than its
-- slot, and each live one belongs to a number of the window. The generation counter must not wrap.
pub on_sent-Timed :
    (w : SenderWindow) (deadline : ℕ)
    → Timed w
    → (slot_at w w.next_sequence).generation + 1 < 2 ^ 64
    → w.base ≤ w.next_sequence
    → w.next_sequence < w.base + w.capacity
    → w.next_sequence + 1 < 2 ^ 32
    → Timed (on_sent w deadline)
unfolding on_sent
on_sent-Timed w deadline t narrow ordered room short =
    let next : (w.next_sequence + 1) % 2 ^ 32 ≡ w.next_sequence + 1 = omega arith in
    rw next (
      arm-Timed w w.next_sequence deadline (w.next_sequence + 1) t narrow ordered (omega arith)
        (omega arith) (omega arith))

pub reschedule_cases :
    (w : SenderWindow) (s deadline : ℕ)
    → (reschedule w s deadline ≡ w)
      ⊎ ((w.base ≤ s)
          × (s < w.next_sequence)
          × ((slot_at w s).outstanding ≡ true)
          × (reschedule w s deadline ≡ armed w s deadline w.next_sequence))
unfolding reschedule
reschedule_cases w s deadline = elim (Bool-cases (ltb s w.base || leb w.next_sequence s)) [
  | inl out ↦ inl (rw (out, reschedule))
  | inr inside ↦ elim (Bool-cases (slot_at w s).outstanding) [
    | inl busy ↦
        inr (ground (arith, inside), ground (arith, inside), busy, rw (inside, busy, reschedule))
    | inr free ↦ inl (rw (inside, free, reschedule))
  ]
]

-- Giving a packet a new deadline keeps the timers: the queue is sorted, no entry is newer than its
-- slot, and each live one belongs to a number of the window. The generation counter must not wrap.
pub reschedule-Timed :
    (w : SenderWindow) (s deadline : ℕ)
    → Timed w
    → (slot_at w s).generation + 1 < 2 ^ 64
    → Timed (reschedule w s deadline)
reschedule-Timed w s deadline t narrow = elim (reschedule_cases w s deadline) [
  | inl e ↦ rw e t
  | inr (low, high, busy, e) ↦
      rw e (arm-Timed w s deadline w.next_sequence t narrow low high (omega arith) t.fits)
]

-- Retiring a number leaves its timers stale.
retire-Timed :
    (w : SenderWindow) (n : ℕ)
    → Timed w
    → (slot_at w n).generation + 1 < 2 ^ 64
    → Timed
        (set_slot w n (record { outstanding = false; generation = next_generation (slot_at w n) }))
unfolding is_live
retire-Timed w n t narrow = record {
  is_ring = record {
    has_slots = t.is_ring.has_slots;
    sized = length-set w.slots _ _ ∙ t.is_ring.sized;
  };
  fits = t.fits;
  older = λ x m. elim (ℕ_discrete (x.sequence % w.capacity) (n % w.capacity)) [
    | yes e ↦
        rw (slot_at-set_slot_alias w n x.sequence _ t.is_ring e)
          (omega (arith, rw e at (t.older x m)))
    | no ne ↦ rw (slot_at-set_slot_other w n x.sequence _ (λ e. ne (sym e))) (t.older x m)
  ];
  inside = λ x m live. elim (ℕ_discrete (x.sequence % w.capacity) (n % w.capacity)) [
    | yes e ↦ absurd (cc (rw (slot_at-set_slot_alias w n x.sequence _ t.is_ring e) at live))
    | no ne ↦ t.inside x m (rw (slot_at-set_slot_other w n x.sequence _ (λ e. ne (sym e))) at live)
  ];
  sorted = t.sorted;
}

-- The base passes retired numbers only, so no live timer falls out of the window.
advance-Timed :
    (fuel : ℕ) (w : SenderWindow) → Timed w → w.next_sequence < 2 ^ 32 → Timed (advance fuel w)
unfolding advance is_live
advance-Timed zero w t short = t
advance-Timed (suc fuel) w t short =
    elim (Bool-cases (ltb w.base w.next_sequence && not (slot_at w w.base).outstanding)) [
      | inl go ↦ rw go (advance-Timed fuel _ (next go) short)
      | inr stop ↦ rw stop t
    ]
  where
    next :
        (ltb w.base w.next_sequence && not (slot_at w w.base).outstanding) ≡ true
        → Timed (record w { base = (w.base + 1) % 2 ^ 32 })
    next go = record {
      is_ring = record { has_slots = t.is_ring.has_slots; sized = t.is_ring.sized };
      fits = ground (arith, go, t.fits);
      older = t.older;
      inside = λ x m live. elim (ℕ_discrete x.sequence w.base) [
        | yes e ↦ ground (arith, go, rw e at live)
        | no ne ↦ ground (arith, go, t.inside x m live)
      ];
      sorted = t.sorted;
    }

-- An acknowledgement, which may slide the window, keeps the timers: the queue is sorted, no entry is
-- newer than its slot, and each live one belongs to a number of the window. The generation counter must
-- not wrap.
pub on_ack-Timed :
    (w : SenderWindow) (n : ℕ)
    → Timed w
    → (slot_at w n).generation + 1 < 2 ^ 64
    → w.next_sequence < 2 ^ 32
    → Timed (on_ack w n).0
unfolding on_ack
on_ack-Timed w n t narrow short = ground (
  arith,
  t,
  advance-Timed (w.next_sequence - w.base + 1)
      (set_slot w n (record { outstanding = false; generation = next_generation (slot_at w n) }))
      (retire-Timed w n t narrow) short,
)
