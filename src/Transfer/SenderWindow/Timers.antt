-- ===== src/Transfer/SenderWindow/Timers.antt =====
-- The timer queue of src/transfer/window.cpp: stale entries and the order of deadlines. A timer is
-- live while its generation is its slot's, so bumping the generation cancels it.
use swiftlink.Common.{
  ℕ, ◌+◌, ◌%◌, ◌^◌, ◌≤◌, ◌<◌, ◌≡◌, ◌≢◌, ◌⊎◌, sym, ap, ◌∙◌, arith, inl, inr, true, false, List, [],
  ◌∷◌, Bool-cases, length, ℕ_discrete,
}
use swiftlink.Transfer.SenderWindow.{SenderWindow, Entry, slot_at, is_live, prune_timers, disarm}
use swiftlink.Transfer.SenderWindow.Slots.{IsRing, slot_at-set_slot_alias, slot_at-set_slot_other}

abbrev pub Member : {A : Type 0} → A → List A → Type 0
Member x [] = ⊥
Member x (y ∷ ys) = (x ≡ y) ⊎ Member x ys

-- The earliest deadline first.
abbrev pub Sorted : List Entry → Type 0
Sorted [] = Unit {0}
Sorted (e ∷ es) = ((x : Entry) → Member x es → e.deadline ≤ x.deadline) × Sorted es

-- Every entry is at most as old as its slot, and a live one belongs to a number of the window.
pub record Timed (w : SenderWindow) : Type 0 where
  pub is_ring : IsRing w
  pub fits : w.next_sequence ≤ w.base + w.capacity
  pub older : (e : Entry) → Member e w.timers → e.generation ≤ (slot_at w e.sequence).generation
  pub inside :
      (e : Entry)
      → Member e w.timers
      → is_live w e ≡ true
      → (w.base ≤ e.sequence) × (e.sequence < w.next_sequence)
  pub sorted : Sorted w.timers

-- No generation counter is near 2 ^ 64: each entry of the queue can bump one.
abbrev pub HasGenerations : SenderWindow → Type 0
HasGenerations w = (s : ℕ) → (slot_at w s).generation + length w.timers + 1 < 2 ^ 64

-- `prune` takes off stale entries only, and stops at a live one.
pub prune-Member :
    (w : SenderWindow) (es : List Entry) (x : Entry) → Member x (prune_timers w es) → Member x es
unfolding prune_timers
prune-Member w [] x m = m
prune-Member w (e ∷ es) x m = elim (Bool-cases (is_live w e)) [
  | inl live ↦ rw live at m
  | inr stale ↦ inr (prune-Member w es x (rw stale at m))
]

pub prune-Member_live :
    (w : SenderWindow) (es : List Entry) (x : Entry)
    → is_live w x ≡ true
    → Member x es
    → Member x (prune_timers w es)
unfolding prune_timers
prune-Member_live w [] x live m = m
prune-Member_live w (e ∷ es) x live m = elim (Bool-cases (is_live w e)) [
  | inl ok ↦ rw ok m
  | inr stale ↦ rw stale (prune-Member_live w es x live (behind m stale))
]
  where
    behind : Member x (e ∷ es) → is_live w e ≡ false → Member x es
    behind (inl same) stale = absurd (cc (ap (is_live w) same, live, stale))
    behind (inr m) stale = m

pub prune-Sorted : (w : SenderWindow) (es : List Entry) → Sorted es → Sorted (prune_timers w es)
unfolding prune_timers
prune-Sorted w [] s = s
prune-Sorted w (e ∷ es) s = elim (Bool-cases (is_live w e)) [
  | inl live ↦ rw live s
  | inr stale ↦ rw stale (prune-Sorted w es s.1)
]

pub prune-head :
    (w : SenderWindow) (es : List Entry) (h : Entry) (rest : List Entry)
    → prune_timers w es ≡ h ∷ rest
    → is_live w h ≡ true
unfolding prune_timers
prune-head w [] h rest e = cc
prune-head w (x ∷ es) h rest e = elim (Bool-cases (is_live w x)) [
  | inl live ↦ ground (arith, live, e)
  | inr stale ↦ prune-head w es h rest (rw stale at e)
]

pub length-prune : (w : SenderWindow) (es : List Entry) → length (prune_timers w es) ≤ length es
unfolding prune_timers
length-prune w [] = omega arith
length-prune w (e ∷ es) = ground (arith, length-prune w es)

module _ (w : SenderWindow) (h : Entry) (es : List Entry) (r : IsRing w) where
  -- Disarming changes no slot but the entry's, and of that only the generation.
  pub outstanding-disarm :
      (s : ℕ) → (slot_at (disarm w h es) s).outstanding ≡ (slot_at w s).outstanding
  unfolding disarm
  outstanding-disarm s = elim (ℕ_discrete (s % w.capacity) (h.sequence % w.capacity)) [
    | yes e ↦ ap (λ x. x.outstanding) (slot_at-set_slot_alias w h.sequence s _ r e) ∙ rw e
    | no ne ↦ ap (λ x. x.outstanding) (slot_at-set_slot_other w h.sequence s _ (λ e. ne (sym e)))
  ]

  -- It cancels every timer of that slot, and no other.
  pub disarm_cancels :
      (x : Entry)
      → x.sequence % w.capacity ≡ h.sequence % w.capacity
      → x.generation ≤ (slot_at w x.sequence).generation
      → (slot_at w h.sequence).generation + 1 < 2 ^ 64
      → is_live (disarm w h es) x ≡ false
  unfolding is_live disarm
  disarm_cancels x e old narrow =
      rw (slot_at-set_slot_alias w h.sequence x.sequence _ r e)
        (let old' : x.generation ≤ (slot_at w h.sequence).generation = rw e at old in ground arith)

  pub disarm_keeps :
      (x : Entry)
      → x.sequence % w.capacity ≢ h.sequence % w.capacity
      → is_live (disarm w h es) x ≡ is_live w x
  unfolding is_live disarm
  disarm_keeps x ne = rw (slot_at-set_slot_other w h.sequence x.sequence _ (λ e. ne (sym e)))

  pub generation-disarm :
      (s : ℕ)
      → (slot_at w h.sequence).generation + 1 < 2 ^ 64
      → ((slot_at w s).generation ≤ (slot_at (disarm w h es) s).generation)
        × ((slot_at (disarm w h es) s).generation ≤ (slot_at w s).generation + 1)
  unfolding disarm
  generation-disarm s narrow = elim (ℕ_discrete (s % w.capacity) (h.sequence % w.capacity)) [
    | yes e ↦ rw (slot_at-set_slot_alias w h.sequence s _ r e, e) (omega arith)
    | no ne ↦ rw (slot_at-set_slot_other w h.sequence s _ (λ e. ne (sym e))) (omega arith)
  ]
