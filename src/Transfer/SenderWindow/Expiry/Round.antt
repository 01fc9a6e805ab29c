-- ===== src/Transfer/SenderWindow/Expiry/Round.antt =====
-- A round of `expire` of src/transfer/window.cpp: the first entry of the queue is handed back and
-- disarmed.
use swiftlink.Common.{
  ℕ, ◌+◌, ◌%◌, ◌^◌, ◌≤◌, ◌<◌, ◌≡◌, ◌≢◌, ◌⊎◌, refl, sym, ap, ◌∙◌, arith, inl, inr, true, List, [],
  ◌∷◌, length, length-set, ℕ_discrete,
}
use swiftlink.Transfer.Ring.{slots_distinct}
use swiftlink.Transfer.SenderWindow.{SenderWindow, Entry, slot_at, is_live, disarm}
use swiftlink.Transfer.SenderWindow.Timers.{
  Member, Timed, HasGenerations, outstanding-disarm, disarm_cancels, disarm_keeps,
  generation-disarm,
}

-- A timer of `w` for the number `s` that is live and due.
pub record Due (w : SenderWindow) (now : ℕ) (s : ℕ) : Type 0 where
  pub timer : Entry
  pub queued : Member timer w.timers
  pub is_for : timer.sequence ≡ s
  pub live : is_live w timer ≡ true
  pub over : timer.deadline ≤ now

abbrev pub Distinct : List ℕ → Type 0
Distinct [] = Unit {0}
Distinct (x ∷ xs) = (¬ Member x xs) × Distinct xs

-- What a call of `expire` at the time `now` does to `w`.
pub record Expires (w : SenderWindow) (now : ℕ) (out : SenderWindow × List ℕ) : Type 0 where
  pub base_kept : out.0.base ≡ w.base
  pub next_kept : out.0.next_sequence ≡ w.next_sequence
  pub capacity_kept : out.0.capacity ≡ w.capacity
  pub flags_kept : (s : ℕ) → (slot_at out.0 s).outstanding ≡ (slot_at w s).outstanding
  pub sound : (s : ℕ) → Member s out.1 → Due w now s
  pub complete : (s : ℕ) → Due w now s → Member s out.1
  pub once : Distinct out.1
  pub none_left : (s : ℕ) → ¬ Due out.0 now s
  pub kept :
      (x : Entry)
      → Member x w.timers
      → is_live w x ≡ true
      → Member x.sequence out.1 ⊎ (Member x out.0.timers × (is_live out.0 x ≡ true))
  pub spends :
      (s : ℕ)
      → (slot_at out.0 s).generation + length out.0.timers
        ≤ (slot_at w s).generation + length w.timers

module _ (w : SenderWindow) (h : Entry) (es : List Entry) (t : Timed w) (queue : w.timers ≡ h ∷ es)
    (head_live : is_live w h ≡ true) (narrow : HasGenerations w) where
  here : Member h w.timers
  here = rw queue (inl refl)

  there : (x : Entry) → Member x es → Member x w.timers
  there x m = rw queue (inr m)

  head_narrow : (slot_at w h.sequence).generation + 1 < 2 ^ 64
  head_narrow = omega (arith, narrow h.sequence)

  -- A timer behind the head that is still live after the head is disarmed has another slot, and was
  -- live before.
  live_after :
      (x : Entry)
      → Member x es
      → is_live (disarm w h es) x ≡ true
      → (x.sequence % w.capacity ≢ h.sequence % w.capacity) × (is_live w x ≡ true)
  live_after x m live = elim (ℕ_discrete (x.sequence % w.capacity) (h.sequence % w.capacity)) [
    | yes e ↦
        absurd (cc (live, disarm_cancels w h es t.is_ring x e (t.older x (there x m)) head_narrow))
    | no ne ↦ (ne, sym (disarm_keeps w h es t.is_ring x ne) ∙ live)
  ]

  pub disarm-Timed : Timed (disarm w h es)
  unfolding disarm
  disarm-Timed = record {
    is_ring = record {
      has_slots = t.is_ring.has_slots;
      sized = length-set w.slots _ _ ∙ t.is_ring.sized;
    };
    fits = t.fits;
    older = λ x m.
        omega
          (arith, t.older x (there x m), generation-disarm w h es t.is_ring x.sequence head_narrow);
    inside = λ x m live. t.inside x (there x m) (live_after x m live).1;
    sorted = (rw queue at t.sorted).1;
  }

  pub disarm-HasGenerations : HasGenerations (disarm w h es)
  unfolding disarm
  disarm-HasGenerations s =
      omega (arith, narrow s, ap length queue, generation-disarm w h es t.is_ring s head_narrow)

  -- A number that is due after the head is disarmed was due before, and is not the head's.
  Due-after : (now s : ℕ) → Due (disarm w h es) now s → Due w now s × (s ≢ h.sequence)
  unfolding disarm
  Due-after now s d = (
    record {
      timer = d.timer;
      queued = there d.timer d.queued;
      is_for = d.is_for;
      live = (live_after d.timer d.queued d.live).1;
      over = d.over;
    },
    λ e. (live_after d.timer d.queued d.live).0 (ap (λ x. x % w.capacity) (d.is_for ∙ e)),
  )

  behind : (x : Entry) → Member x w.timers → x.sequence ≢ h.sequence → Member x es
  behind x m ne = later (rw queue at m)
    where
      later : Member x (h ∷ es) → Member x es
      later (inl e) = absurd (ne (ap (λ y. y.sequence) e))
      later (inr m) = m

  -- A live timer of another number stays live.
  stays_live :
      (x : Entry)
      → Member x w.timers
      → is_live w x ≡ true
      → x.sequence ≢ h.sequence
      → is_live (disarm w h es) x ≡ true
  stays_live x m live ne =
      let (low, high) = t.inside x m live in
      let (low', high') = t.inside h here head_live in
      disarm_keeps w h es t.is_ring x (
        slots_distinct w.capacity w.base x.sequence h.sequence low (omega (arith, t.fits)) low'
          (omega (arith, t.fits)) ne)
      ∙ live

  -- And a due number other than the head's stays due.
  Due-stays : (now s : ℕ) → Due w now s → s ≢ h.sequence → Due (disarm w h es) now s
  unfolding disarm
  Due-stays now s d ne =
      let other : d.timer.sequence ≢ h.sequence = λ e. ne (sym d.is_for ∙ e) in
      record {
        timer = d.timer;
        queued = behind d.timer d.queued other;
        is_for = d.is_for;
        live = stays_live d.timer d.queued d.live other;
        over = d.over;
      }

  -- A round of `expire`: the head is handed back, then what the rest of the call hands back.
  pub round-Expires :
      (now : ℕ) (out : SenderWindow × List ℕ)
      → h.deadline ≤ now
      → Expires (disarm w h es) now out
      → Expires w now (out.0, h.sequence ∷ out.1)
  unfolding disarm
  round-Expires now out over x = record {
    base_kept = x.base_kept;
    next_kept = x.next_kept;
    capacity_kept = x.capacity_kept;
    flags_kept = λ s. x.flags_kept s ∙ outstanding-disarm w h es t.is_ring s;
    sound = λ s m. is_due s m;
    complete = λ s d. elim (ℕ_discrete s h.sequence) [
      | yes e ↦ inl e
      | no ne ↦ inr (x.complete s (Due-stays now s d ne))
    ];
    once = (λ m. (Due-after now h.sequence (x.sound h.sequence m)).1 refl, x.once);
    none_left = x.none_left;
    kept = λ y m live. elim (ℕ_discrete y.sequence h.sequence) [
      | yes e ↦ inl (inl e)
      | no ne ↦ still (x.kept y (behind y m ne) (stays_live y m live ne))
    ];
    spends = λ s.
        omega
          (arith, x.spends s, generation-disarm w h es t.is_ring s head_narrow, ap length queue);
  }
    where
      still : {P : Type 0} {s : ℕ} → Member s out.1 ⊎ P → Member s (h.sequence ∷ out.1) ⊎ P
      still (inl m) = inl (inr m)
      still (inr p) = inr p

      is_due : (s : ℕ) → Member s (h.sequence ∷ out.1) → Due w now s
      is_due s (inl e) = record {
        timer = h;
        queued = here;
        is_for = sym e;
        live = head_live;
        over = over;
      }
      is_due s (inr m) = (Due-after now s (x.sound s m)).0
