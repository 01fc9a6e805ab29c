-- ===== src/Transfer/SenderWindow/Watch/Rearm.antt =====
-- `reschedule` of src/transfer/window.cpp and the live timers.
use swiftlink.Common.{
  ℕ, ◌+◌, ◌%◌, ◌≤◌, ◌<◌, ◌≡◌, ◌≢◌, ◌⊎◌, refl, sym, ap, ◌∙◌, arith, inl, inr, Bool, true, false, not,
  List, ◌∷◌, ℕ_discrete, subst, get_or,
}
use swiftlink.Transfer.SenderWindow.{SenderWindow, slot_at, reschedule, idle_slot}
use swiftlink.Transfer.SenderWindow.Slots.{IsRing, slot_at-set_slot_alias, slot_at-set_slot_other}
use swiftlink.Transfer.SenderWindow.Acks.{Tracks}
use swiftlink.Transfer.SenderWindow.Timers.{Member, Timed}
use swiftlink.Transfer.SenderWindow.Arm.{armed}
use swiftlink.Transfer.SenderWindow.Arm.Calls.{reschedule-Timed, reschedule_cases}
use swiftlink.Transfer.SenderWindow.Watch.{
  HasTimer, Watches, same-Tracks, armed-HasTimer, armed_keeps, armed-HasSpare,
}

-- A packet in flight that is given a new deadline has a timer again.
reschedule_arms :
    (w : SenderWindow) (s deadline : ℕ)
    → w.base ≤ s
    → s < w.next_sequence
    → (slot_at w s).outstanding ≡ true
    → reschedule w s deadline ≡ armed w s deadline w.next_sequence
unfolding reschedule
reschedule_arms w s deadline low high busy = elim (reschedule_cases w s deadline) [
  | inl e ↦ ground arith
  | inr (l, h, b, e) ↦ e
]

armed-Tracks :
    (w : SenderWindow) (acked : ℕ → Bool) (n deadline : ℕ)
    → (slot_at w n).outstanding ≡ true
    → IsRing (armed w n deadline w.next_sequence)
    → Tracks w acked
    → Tracks (armed w n deadline w.next_sequence) acked
armed-Tracks w acked n deadline busy ring t =
    same-Tracks w (armed w n deadline w.next_sequence) acked refl refl refl ring same t
  where
    same :
        (s : ℕ)
        → (slot_at (armed w n deadline w.next_sequence) s).outstanding ≡ (slot_at w s).outstanding
    same s = elim (ℕ_discrete (s % w.capacity) (n % w.capacity)) [
      | yes e ↦
          ap (λ z. z.outstanding) (slot_at-set_slot_alias w n s _ t.holds.is_ring e)
          ∙ sym busy
          ∙ ap (λ k. (get_or w.slots k idle_slot).outstanding) (sym e)
      | no ne ↦ ap (λ z. z.outstanding) (slot_at-set_slot_other w n s _ (λ e. ne (sym e)))
    ]

pub reschedule-Watches :
    (w : SenderWindow) (acked : ℕ → Bool) (n : ℕ) (rest : List ℕ) (deadline spare : ℕ)
    → Watches w acked (n ∷ rest) (spare + 2)
    → Watches (reschedule w n deadline) acked rest spare
reschedule-Watches w acked n rest deadline spare x = elim (reschedule_cases w n deadline) [
  | inl e ↦ rw e (record {
    tracks = x.tracks;
    timed = x.timed;
    has_spare = λ s. omega (arith, x.has_spare s);
    watched = λ s low high un. elim (ℕ_discrete n s) [
      | yes same ↦ inr (
          subst (HasTimer w) same (
            subst (λ v. HasTimer v n)
              (sym (
                  reschedule_arms w n deadline (omega (arith, same)) (omega (arith, same))
                    (busy s low high un same))
                ∙ e)
              (rearmed (omega (arith, same)) (omega (arith, same)))))
      | no ne ↦ unchanged s (λ q. ne (sym q)) (x.watched s low high un)
    ];
  })
  | inr (low, high, out, e) ↦
      let timed =
        subst Timed e (reschedule-Timed w n deadline x.timed (omega (arith, x.has_spare n))) in
      rw e (record {
        tracks = armed-Tracks w acked n deadline out timed.is_ring x.tracks;
        timed = timed;
        has_spare =
            armed-HasSpare w n deadline w.next_sequence x.timed low high x.timed.fits spare
              x.has_spare;
        watched = λ s low' high' un. elim (ℕ_discrete n s) [
          | yes same ↦
              inr (subst (HasTimer (armed w n deadline w.next_sequence)) same (rearmed low high))
          | no ne ↦ kept s low high low' high' ne (x.watched s low' high' un)
        ];
      })
]
  where
    busy :
        (s : ℕ)
        → w.base ≤ s
        → s < w.next_sequence
        → acked s ≡ false
        → n ≡ s
        → (slot_at w n).outstanding ≡ true
    busy s low high un same =
        ap (λ k. (slot_at w k).outstanding) same ∙ x.tracks.holds.window s low high ∙ ap not un

    rearmed : w.base ≤ n → n < w.next_sequence → HasTimer (armed w n deadline w.next_sequence) n
    rearmed low high = armed-HasTimer w n deadline w.next_sequence x.timed low high x.timed.fits

    unchanged : (s : ℕ) → s ≢ n → Member s (n ∷ rest) ⊎ HasTimer w s → Member s rest ⊎ HasTimer w s
    unchanged s ne (inl (inl same)) = absurd (ne same)
    unchanged s ne (inl (inr m)) = inl m
    unchanged s ne (inr y) = inr y

    kept :
        (s : ℕ)
        → w.base ≤ n
        → n < w.next_sequence
        → w.base ≤ s
        → s < w.next_sequence
        → n ≢ s
        → Member s (n ∷ rest) ⊎ HasTimer w s
        → Member s rest ⊎ HasTimer (armed w n deadline w.next_sequence) s
    kept s low high low' high' ne (inl (inl same)) = absurd (ne (sym same))
    kept s low high low' high' ne (inl (inr m)) = inl m
    kept s low high low' high' ne (inr y) =
        inr
          (armed_keeps w n deadline w.next_sequence x.timed low high x.timed.fits s low' high' ne y)
