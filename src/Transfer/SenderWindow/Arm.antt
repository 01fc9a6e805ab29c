-- ===== src/Transfer/SenderWindow/Arm.antt =====
-- Arming and cancelling timers: `on_sent`, `reschedule` and `on_ack` of src/transfer/window.cpp keep
-- the timer queue in order.
pub mod Calls
use swiftlink.Common.{
  ℕ, zero, suc, ◌+◌, ◌-◌, ◌%◌, ◌^◌, ◌≤◌, ◌<◌, ◌≡◌, ◌≢◌, ◌⊎◌, refl, sym, ap, ◌∙◌, arith, inl, inr,
  Bool, true, false, not, ◌&&◌, ◌||◌, List, [], ◌∷◌, ltb, leb, ◌==◌, if◌then◌else◌, Bool-cases,
  length, length-set, ℕ_discrete, subst,
}
use swiftlink.Transfer.SenderWindow.{
  SenderWindow, Slot, Entry, slot_at, set_slot, next_generation, push, is_live, on_sent, reschedule,
}
use swiftlink.Transfer.SenderWindow.Slots.{
  IsRing, slot_at-set_slot_alias, slot_at-set_slot_other, slot_at-set_slot_self,
}
use swiftlink.Transfer.SenderWindow.Timers.{Member, Sorted, Timed}

-- The queue after a push holds the new entry and the old ones.
pub Member-push :
    (e : Entry) (es : List Entry) (x : Entry) → Member x (push e es) → (x ≡ e) ⊎ Member x es
unfolding push
Member-push e [] x m = m
Member-push e (y ∷ es) x m = elim (Bool-cases (ltb e.deadline y.deadline)) [
  | inl early ↦ rw early at m
  | inr late ↦ deeper (rw late at m) (Member-push e es x)
]
  where
    deeper :
        (x ≡ y) ⊎ Member x (push e es)
        → (Member x (push e es) → (x ≡ e) ⊎ Member x es)
        → (x ≡ e) ⊎ ((x ≡ y) ⊎ Member x es)
    deeper (inl p) ih = inr (inl p)
    deeper (inr m) ih = swap (ih m)
      where
        swap : (x ≡ e) ⊎ Member x es → (x ≡ e) ⊎ ((x ≡ y) ⊎ Member x es)
        swap (inl p) = inl p
        swap (inr q) = inr (inr q)

push-Sorted : (e : Entry) (es : List Entry) → Sorted es → Sorted (push e es)
unfolding push
push-Sorted e [] s = (λ x m. absurd m, tt)
push-Sorted e (y ∷ es) s = elim (Bool-cases (ltb e.deadline y.deadline)) [
  | inl early ↦ rw early (first (ground (arith, early)), s)
  | inr late ↦ rw late (behind (ground (arith, late)), push-Sorted e es s.1)
]
  where
    first : e.deadline ≤ y.deadline → (x : Entry) → Member x (y ∷ es) → e.deadline ≤ x.deadline
    first le x (inl p) = omega (arith, ap (λ z. z.deadline) p)
    first le x (inr m) = omega (arith, s.0 x m)

    behind : y.deadline ≤ e.deadline → (x : Entry) → Member x (push e es) → y.deadline ≤ x.deadline
    behind le x m = either (Member-push e es x m)
      where
        either : (x ≡ e) ⊎ Member x es → y.deadline ≤ x.deadline
        either (inl p) = omega (arith, ap (λ z. z.deadline) p)
        either (inr q) = s.0 x q

-- The window with a timer armed for `s`.
abbrev pub new_entry : SenderWindow → ℕ → ℕ → Entry
new_entry w s deadline = record {
  deadline = deadline;
  sequence = s;
  generation = next_generation (slot_at w s);
}

abbrev pub armed : SenderWindow → ℕ → ℕ → ℕ → SenderWindow
armed w s deadline next =
    let slot : Slot = record { outstanding = true; generation = next_generation (slot_at w s) } in
    record (set_slot w s slot) {
      timers = push (new_entry w s deadline) w.timers;
      next_sequence = next;
    }

-- A timer armed under the slot's next generation, for a number `s` of the window that `next` ends.
module _ (w : SenderWindow) (s deadline next : ℕ) (t : Timed w)
    (narrow : (slot_at w s).generation + 1 < 2 ^ 64) (low : w.base ≤ s) (high : s < next)
    (grows : w.next_sequence ≤ next) (fits : next ≤ w.base + w.capacity) where
  older_entry :
      (x : Entry)
      → Member x w.timers
      → x.generation ≤ (slot_at (armed w s deadline next) x.sequence).generation
  older_entry x m = elim (ℕ_discrete (x.sequence % w.capacity) (s % w.capacity)) [
    | yes e ↦
        rw (slot_at-set_slot_alias w s x.sequence _ t.is_ring e)
          (omega (arith, rw e at (t.older x m)))
    | no ne ↦ rw (slot_at-set_slot_other w s x.sequence _ (λ e. ne (sym e))) (t.older x m)
  ]

  still_inside :
      (x : Entry)
      → Member x w.timers
      → is_live (armed w s deadline next) x ≡ true
      → (w.base ≤ x.sequence) × (x.sequence < next)
  unfolding is_live
  still_inside x m live = elim (ℕ_discrete (x.sequence % w.capacity) (s % w.capacity)) [
    | yes e ↦ absurd (
        stale (rw (slot_at-set_slot_alias w s x.sequence _ t.is_ring e) at live)
          (rw e at (t.older x m)))
    | no ne ↦
        let (ge, lt) =
          t.inside x m (rw (slot_at-set_slot_other w s x.sequence _ (λ e. ne (sym e))) at live) in
        (ge, omega arith)
  ]
    where
      stale :
          (next_generation (slot_at w s) == x.generation) ≡ true
          → x.generation ≤ (slot_at w s).generation
          → ⊥
      stale same old = ground (arith, same)

  pub arm-Timed : Timed (armed w s deadline next)
  arm-Timed = record {
    is_ring = record {
      has_slots = t.is_ring.has_slots;
      sized = length-set w.slots _ _ ∙ t.is_ring.sized;
    };
    fits = fits;
    older = λ x m. old x (Member-push (new_entry w s deadline) w.timers x m);
    inside = λ x m live. within x (Member-push (new_entry w s deadline) w.timers x m) live;
    sorted = push-Sorted (new_entry w s deadline) w.timers t.sorted;
  }
    where
      old :
          (x : Entry)
          → (x ≡ (new_entry w s deadline)) ⊎ Member x w.timers
          → x.generation ≤ (slot_at (armed w s deadline next) x.sequence).generation
      old x (inr m) = older_entry x m
      old x (inl e) = rw e (rw (slot_at-set_slot_self w s _ t.is_ring) (omega arith))

      within :
          (x : Entry)
          → (x ≡ (new_entry w s deadline)) ⊎ Member x w.timers
          → is_live (armed w s deadline next) x ≡ true
          → (w.base ≤ x.sequence) × (x.sequence < next)
      within x (inr m) live = still_inside x m live
      within x (inl e) live = rw e (low, high)
