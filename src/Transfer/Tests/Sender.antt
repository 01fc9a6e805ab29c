-- ===== src/Transfer/Tests/Sender.antt =====
-- The sender's window at a concrete state: one packet in flight, its timer due at 100.
use swiftlink.Common.{
  ℕ, zero, suc, ◌+◌, ◌%◌, ◌^◌, ◌<◌, ◌≤◌, ◌≡◌, ◌↔◌, inl, inr, refl, subst, sym, arith, Bool, true,
  false, [], ◌∷◌, get_or, if◌then◌else◌,
}
use swiftlink.Transfer.ReceiverWindow.Refine.{insert}
use swiftlink.Transfer.SenderWindow.{
  new_window, idle_slot, Entry, SenderWindow, slot_at, on_sent, on_ack, expire,
}
use swiftlink.Transfer.SenderWindow.Acks.{Tracks, on_ack-Tracks}
use swiftlink.Transfer.SenderWindow.Timers.{Timed, HasGenerations}
use swiftlink.Transfer.SenderWindow.Expiry.{Expires, expire-Expires}

abbrev nothing : ℕ → Bool
nothing s = false

abbrev timer : Entry
timer = record { deadline = 100; sequence = 0; generation = 1 }

abbrev waiting : SenderWindow
waiting = record {
  capacity = 2;
  base = 0;
  next_sequence = 1;
  slots = (record { outstanding = true; generation = 1 }) ∷ idle_slot ∷ [];
  timers = timer ∷ [];
}

waiting-Tracks : Tracks waiting nothing
waiting-Tracks = record {
  holds = record {
    is_ring = record { has_slots = omega arith; sized = refl };
    ordered = omega arith;
    fits = omega arith;
    narrow = omega arith;
    retired = λ s lt. absurd (omega arith);
    window = λ s ge lt.
        let first : s ≡ 0 = omega arith in
        subst (λ x. (slot_at waiting x).outstanding ≡ true) (sym first) refl;
    unsent = λ s ge. refl;
  };
  oldest = λ lt. refl;
}

waiting-Timed : Timed waiting
waiting-Timed = record {
  is_ring = record { has_slots = omega arith; sized = refl };
  fits = omega arith;
  older = λ e m. elim m [
    | inl q ↦
        subst (λ x. x.generation ≤ (slot_at waiting x.sequence).generation) (sym q) (omega arith)
    | inr none_left ↦ absurd none_left
  ];
  inside = λ e m live. elim m [
    | inl q ↦
        subst (λ x. (waiting.base ≤ x.sequence) × (x.sequence < waiting.next_sequence)) (sym q)
          (omega arith)
    | inr none_left ↦ absurd none_left
  ];
  sorted = (λ x m. absurd m, tt);
}

few_generations : (i : ℕ) → (get_or waiting.slots i idle_slot).generation + 2 < 2 ^ 64
few_generations zero = omega arith
few_generations (suc zero) = omega arith
few_generations (suc (suc i)) = omega arith

waiting-HasGenerations : HasGenerations waiting
waiting-HasGenerations s = omega (arith, few_generations (s % waiting.capacity))

-- a window of two with one packet in flight
abbrev one_sent : SenderWindow
one_sent = on_sent (new_window 2) 100

on_ack-Tracks_example :
    (((on_ack waiting 0).1 ≡ true)
      ↔ ((waiting.base ≤ 0) × (0 < waiting.next_sequence) × (nothing 0 ≡ false)))
    × Tracks (on_ack waiting 0).0 (if (on_ack waiting 0).1 then insert 0 nothing else nothing)
on_ack-Tracks_example = on_ack-Tracks waiting nothing 0 waiting-Tracks

expire-Expires_example : Expires waiting 200 (expire waiting 200) × Timed (expire waiting 200).0
expire-Expires_example = expire-Expires waiting 200 waiting-Timed waiting-HasGenerations
