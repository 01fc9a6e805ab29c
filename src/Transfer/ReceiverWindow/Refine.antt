-- ===== src/Transfer/ReceiverWindow/Refine.antt =====
-- The ring of src/transfer/window.cpp against what it stands for: the set of the sequence numbers
-- that have been stored. `base` is the least number that is not in the set.
use swiftlink.Common.{
  ==_refl, subst, ℕ, zero, suc, ◌+◌, ◌-◌, ◌%◌, ◌^◌, ◌≤◌, ◌<◌, ◌≡◌, ◌≢◌, ◌↔◌, refl, sym, ◌∙◌, arith,
  inl, inr, Bool, true, false, ltb, ◌==◌, if◌then◌else◌, Bool-cases, length, get_or, set,
  length-set, get_or-set_self, get_or-set_ne, length-replicate, get_or-replicate, dec_lt,
  ℕ_discrete,
}
use native.Mathlib.Nat.{mod-lt}
use swiftlink.Transfer.Ring.{slots_distinct, mod-add_self}
use swiftlink.Transfer.ReceiverWindow.{
  ReceiverWindow, accepted, duplicate, outside_window, new_window, classify, slide, mark_received,
}

-- The set with one more number.
abbrev pub insert : ℕ → (ℕ → Bool) → ℕ → Bool
insert sequence seen s = if s == sequence then true else seen s

-- The ring holds the set `seen`, whose members lie below `top`.
pub record Holds (w : ReceiverWindow) (seen : ℕ → Bool) (top : ℕ) : Type 0 where
  pub has_slots : 0 < w.capacity
  pub sized : length w.received ≡ w.capacity
  pub stored : (s : ℕ) → s < w.base → seen s ≡ true
  pub ring :
      (s : ℕ)
      → w.base ≤ s
      → s < w.base + w.capacity
      → get_or w.received (s % w.capacity) false ≡ seen s
  pub unseen : (s : ℕ) → top ≤ s → seen s ≡ false
  pub near : top ≤ w.base + w.capacity

-- ... and the base has come to rest: the loop over the contiguous prefix has ended.
pub record Tracks (w : ReceiverWindow) (seen : ℕ → Bool) : Type 0 where
  pub holds : Holds w seen (w.base + w.capacity)
  pub next : seen w.base ≡ false

pub new_window-Tracks : (capacity : ℕ) → Tracks (new_window capacity) (λ s. false)
unfolding new_window
new_window-Tracks capacity = record {
  holds = record {
    has_slots = ground arith;
    sized = length-replicate _ false;
    stored = λ s h. absurd (omega arith);
    ring = λ s h g.
        get_or-replicate (new_window capacity).capacity (s % (new_window capacity).capacity) false;
    unseen = λ s h. refl;
    near = omega arith;
  };
  next = refl;
}

-- One round of the loop.
slide_step :
    (w : ReceiverWindow) (seen : ℕ → Bool) (top : ℕ)
    → Holds w seen top
    → get_or w.received (w.base % w.capacity) false ≡ true
    → w.base + 1 < 2 ^ 32
    → Holds
        (record w {
          base = (w.base + 1) % 2 ^ 32;
          received = set w.received (w.base % w.capacity) false;
        })
        seen
        top
slide_step w seen top h full fits = record {
  has_slots = h.has_slots;
  sized = length-set w.received _ false ∙ h.sized;
  stored = λ s lt. elim (ℕ_discrete s w.base) [
    | yes e ↦ rw e (sym (h.ring w.base (omega arith) (omega (arith, h.has_slots))) ∙ full)
    | no ne ↦ h.stored s (omega arith)
  ];
  ring = λ s ge lt. elim (ℕ_discrete s (w.base + w.capacity)) [
    | yes e ↦
        rw (e, mod-add_self w.capacity w.base) (cleared ∙ sym (h.unseen _ (omega (arith, h.near))))
    | no ne ↦
        get_or-set_ne w.received (w.base % w.capacity) (s % w.capacity) false false (
          slots_distinct w.capacity w.base w.base s (omega arith) (omega (arith, h.has_slots))
            (omega arith) (omega arith) (omega arith))
        ∙ h.ring s (omega arith) (omega arith)
  ];
  unseen = h.unseen;
  near = omega (arith, h.near);
}
  where
    cleared :
        get_or (set w.received (w.base % w.capacity) false) (w.base % w.capacity) false ≡ false
    cleared =
        get_or-set_self w.received (w.base % w.capacity) false false
          (omega (arith, h.sized, mod-lt w.base h.has_slots))

-- The loop ends within `top - base` rounds, at the least number that is not in the set.
slide-Tracks :
    (fuel : ℕ) (w : ReceiverWindow) (seen : ℕ → Bool) (top : ℕ)
    → Holds w seen top
    → top < 2 ^ 32
    → w.base ≤ top
    → top - w.base < fuel
    → Tracks (slide fuel w) seen × ((slide fuel w).capacity ≡ w.capacity)
unfolding slide
slide-Tracks zero w seen top h fits le lt = absurd (omega arith)
slide-Tracks (suc fuel) w seen top h fits le lt =
    elim (Bool-cases (get_or w.received (w.base % w.capacity) false)) [
      | inl full ↦ rw full (
          slide-Tracks fuel _ seen top (slide_step w seen top h full (omega (arith, below full)))
            fits (omega (arith, below full)) (omega (arith, below full)))
      | inr free ↦ rw free (
        record {
          holds = record {
            has_slots = h.has_slots;
            sized = h.sized;
            stored = h.stored;
            ring = h.ring;
            unseen = λ s ge. h.unseen s (omega (arith, h.near));
            near = omega arith;
          };
          next = sym base_slot ∙ free;
        },
        refl,
      )
    ]
  where
    base_slot : get_or w.received (w.base % w.capacity) false ≡ seen w.base
    base_slot = h.ring w.base (omega arith) (omega (arith, h.has_slots))

    below : get_or w.received (w.base % w.capacity) false ≡ true → w.base < top
    below full = elim (dec_lt w.base top) [
      | yes p ↦ p
      | no p ↦ absurd (cc (full, base_slot, h.unseen w.base (omega arith)))
    ]

-- The three answers of `classify`, in terms of the set: a number below the base or in the set is a
-- duplicate, one past the window is outside, and any other is accepted. The window's end must not
-- wrap round 2 ^ 32.
pub classify_lem :
    (w : ReceiverWindow) (seen : ℕ → Bool) (s : ℕ)
    → Tracks w seen
    → w.base + w.capacity < 2 ^ 32
    → ((classify w s ≡ duplicate) ↔ (seen s ≡ true))
      × ((classify w s ≡ outside_window) ↔ (w.base + w.capacity ≤ s))
      × ((classify w s ≡ accepted) ↔ ((seen s ≡ false) × (s < w.base + w.capacity)))
unfolding classify
classify_lem w seen s t fits =
    let wide : (w.base + w.capacity) % 2 ^ 32 ≡ w.base + w.capacity = omega arith in
    rw wide (ground (arith, t.holds.stored s, t.holds.ring s, t.holds.unseen s, t.holds.has_slots))

-- Storing a number below the window's end adds it to the ring's set.
set-Holds :
    (w : ReceiverWindow) (seen : ℕ → Bool) (n : ℕ)
    → Tracks w seen
    → w.base ≤ n
    → n < w.base + w.capacity
    → Holds
        (record w { received = set w.received (n % w.capacity) true })
        (insert n seen)
        (w.base + w.capacity)
set-Holds w seen n t ge lt =
    let h = t.holds in
    record {
      has_slots = h.has_slots;
      sized = length-set w.received _ true ∙ h.sized;
      stored = λ s below. ground (arith, h.stored s below);
      ring = λ s low high. elim (ℕ_discrete s n) [
        | yes e ↦ rw e (
            get_or-set_self w.received (n % w.capacity) true false
              (omega (arith, h.sized, mod-lt n h.has_slots))
            ∙ ground arith)
        | no ne ↦
            get_or-set_ne w.received (n % w.capacity) (s % w.capacity) true false
              (slots_distinct w.capacity w.base n s ge lt low high (omega arith))
            ∙ h.ring s low high
            ∙ ground arith
      ];
      unseen = λ s above. ground (arith, h.unseen s above);
      near = omega arith;
    }

mark_received-accepted :
    (w : ReceiverWindow) (seen : ℕ → Bool) (n : ℕ)
    → Tracks w seen
    → w.base + w.capacity < 2 ^ 32
    → classify w n ≡ accepted
    → Tracks (mark_received w n) (insert n seen)
unfolding mark_received
mark_received-accepted w seen n t fits e =
    let (new, lt) = (classify_lem w seen n t fits).2.0 e in
    let ge : w.base ≤ n = ground (arith, t.holds.stored n) in
    rw (e, mark_received)
      (slide-Tracks (w.capacity + 1) _ (insert n seen) (w.base + w.capacity)
        (set-Holds w seen n t ge lt) fits (omega arith) (omega arith)).0

mark_received-other : (w : ReceiverWindow) (n : ℕ) → classify w n ≢ accepted → mark_received w n ≡ w
unfolding mark_received
mark_received-other w n other = ground (arith, other)

insert-member : (seen : ℕ → Bool) (n : ℕ) → seen n ≡ true → seen ≡ insert n seen
insert-member seen n h i s = same i
  where
    same : seen s ≡ (if s == n then true else seen s)
    same = elim (ℕ_discrete s n) [
      | yes e ↦ rw (e, h, ==_refl n) refl
      | no ne ↦ let differ : (s == n) ≡ false = ground arith in rw differ refl
    ]

-- `mark_received` adds a number that lies below the end of the window to the set of those received,
-- whether it is new or a duplicate, and comes to rest at the least missing number; one past the window
-- it ignores. The window's end must not wrap round 2 ^ 32.
pub mark_received-Tracks :
    (w : ReceiverWindow) (seen : ℕ → Bool) (n : ℕ)
    → Tracks w seen
    → w.base + w.capacity < 2 ^ 32
    → Tracks (mark_received w n) (if ltb n (w.base + w.capacity) then insert n seen else seen)
mark_received-Tracks w seen n t fits = elim (dec_lt n (w.base + w.capacity)) [
  | no past ↦
      let outside : ltb n (w.base + w.capacity) ≡ false = ground arith in
      rw (outside, mark_received-other w n (λ a. past ((classify_lem w seen n t fits).2.0 a).1)) t
  | yes near ↦
      let inside : ltb n (w.base + w.capacity) ≡ true = ground arith in
      elim (Bool-cases (seen n)) [
        | inl old ↦
            rw
              (
                inside,
                mark_received-other w n (λ a.
                    let fresh : seen n ≡ false = ((classify_lem w seen n t fits).2.0 a).0 in
                    ground arith),
              )
              (subst (λ f. Tracks w f) (insert-member seen n old) t)
        | inr new ↦ rw inside (
            mark_received-accepted w seen n t fits ((classify_lem w seen n t fits).2.1 (new, near)))
      ]
]
