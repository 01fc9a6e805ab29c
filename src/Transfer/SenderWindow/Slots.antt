-- ===== src/Transfer/SenderWindow/Slots.antt =====
-- The slots of the sender's ring (src/transfer/window.cpp): what a write changes, and that the numbers
-- of one window have slots of their own.
use swiftlink.Common.{
  ℕ, ◌+◌, ◌%◌, ◌≤◌, ◌<◌, ◌≡◌, ◌≢◌, arith, length, get_or-set_self, get_or-set_ne,
}
use native.Mathlib.Nat.{mod-lt}
use swiftlink.Transfer.Ring.{slots_distinct}
use swiftlink.Transfer.SenderWindow.{SenderWindow, Slot, idle_slot, slot_at, set_slot}

-- A ring of `capacity` slots, at least one.
pub record IsRing (w : SenderWindow) : Type 0 where
  pub has_slots : 0 < w.capacity
  pub sized : length w.slots ≡ w.capacity

pub slot_at-set_slot_self :
    (w : SenderWindow) (s : ℕ) (slot : Slot) → IsRing w → slot_at (set_slot w s slot) s ≡ slot
slot_at-set_slot_self w s slot r =
    get_or-set_self w.slots (s % w.capacity) slot idle_slot
      (omega (arith, r.sized, mod-lt s r.has_slots))

-- Two numbers with one slot see the same write.
pub slot_at-set_slot_alias :
    (w : SenderWindow) (s t : ℕ) (slot : Slot)
    → IsRing w
    → t % w.capacity ≡ s % w.capacity
    → slot_at (set_slot w s slot) t ≡ slot
slot_at-set_slot_alias w s t slot r e = rw e (slot_at-set_slot_self w s slot r)

pub slot_at-set_slot_other :
    (w : SenderWindow) (s t : ℕ) (slot : Slot)
    → s % w.capacity ≢ t % w.capacity
    → slot_at (set_slot w s slot) t ≡ slot_at w t
slot_at-set_slot_other w s t slot ne =
    get_or-set_ne w.slots (s % w.capacity) (t % w.capacity) slot idle_slot ne

-- Within one window, another number has another slot.
pub slot_at-set_slot_ne :
    (w : SenderWindow) (low s t : ℕ) (slot : Slot)
    → low ≤ s
    → s < low + w.capacity
    → low ≤ t
    → t < low + w.capacity
    → s ≢ t
    → slot_at (set_slot w s slot) t ≡ slot_at w t
slot_at-set_slot_ne w low s t slot h1 h2 h3 h4 ne =
    slot_at-set_slot_other w s t slot (slots_distinct w.capacity low s t h1 h2 h3 h4 ne)
