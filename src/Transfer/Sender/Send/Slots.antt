-- ===== src/Transfer/Sender/Send/Slots.antt =====
-- The retransmission slots of `send_file` (src/transfer/sender.cpp): a number with a timer has its packet
-- in its slot.
use swiftlink.Common.{
  ℕ, zero, suc, ◌%◌, ◌<◌, ◌≡◌, inl, inr, sym, subst, ◌∙◌, List, [], ◌∷◌, length, length-set, get_or,
  set,
}
use swiftlink.Transfer.Sender.Send.{InFlight, no_packet}
use swiftlink.Transfer.SenderWindow.{SenderWindow, Entry, push}
use swiftlink.Transfer.SenderWindow.Timers.{Member}
use swiftlink.Transfer.SenderWindow.Arm.{Member-push}

-- Each timer's slot holds a packet with the property.
pub record Keeps (P : List ℕ → Type 0) (w : SenderWindow) (slots : List InFlight) : Type 0 where
  pub has_slots : 0 < w.capacity
  pub sized : length slots ≡ w.capacity
  pub kept :
      (x : Entry) → Member x w.timers → P (get_or slots (x.sequence % w.capacity) no_packet).wire

-- Timers that are all from before keep the slots' packets.
pub fewer-Keeps :
    (P : List ℕ → Type 0) (w v : SenderWindow) (slots : List InFlight)
    → v.capacity ≡ w.capacity
    → ((x : Entry) → Member x v.timers → Member x w.timers)
    → Keeps P w slots
    → Keeps P v slots
fewer-Keeps P w v slots same fewer k = record {
  has_slots = rw same k.has_slots;
  sized = k.sized ∙ sym same;
  kept = λ x m. rw same (k.kept x (fewer x m));
}

pub get_or-set :
    {A : Type 0} (xs : List A) (i j : ℕ) (v d : A) (P : A → Type 0)
    → P v
    → (P (get_or xs j d))
    → P (get_or (set xs i v) j d)
get_or-set [] i j v d P new old = old
get_or-set (x ∷ xs) zero zero v d P new old = new
get_or-set (x ∷ xs) zero (suc j) v d P new old = old
get_or-set (x ∷ xs) (suc i) zero v d P new old = old
get_or-set (x ∷ xs) (suc i) (suc j) v d P new old = get_or-set xs i j v d P new old

-- A packet with the property goes into a slot.
pub put-Keeps :
    (P : List ℕ → Type 0) (w : SenderWindow) (slots : List InFlight) (n : ℕ) (slot : InFlight)
    → P slot.wire
    → Keeps P w slots
    → Keeps P w (set slots (n % w.capacity) slot)
put-Keeps P w slots n slot good k = record {
  has_slots = k.has_slots;
  sized = length-set slots _ _ ∙ k.sized;
  kept = λ x m.
      get_or-set slots (n % w.capacity) (x.sequence % w.capacity) slot no_packet (λ z. P z.wire)
        good (k.kept x m);
}

-- A timer is armed for a number whose slot holds a packet with the property.
pub arm-Keeps :
    (P : List ℕ → Type 0) (w v : SenderWindow) (slots : List InFlight) (x : Entry)
    → v.capacity ≡ w.capacity
    → v.timers ≡ push x w.timers
    → P (get_or slots (x.sequence % w.capacity) no_packet).wire
    → Keeps P w slots
    → Keeps P v slots
arm-Keeps P w v slots x same pushed good k = record {
  has_slots = rw same k.has_slots;
  sized = k.sized ∙ sym same;
  kept = λ y m. elim (Member-push x w.timers y (subst (Member y) pushed m)) [
    | inl e ↦ rw (same, e) good
    | inr old ↦ rw same (k.kept y old)
  ];
}
