-- ===== src/Transfer/SenderWindow/Watch/Retire.antt =====
-- `on_ack` of src/transfer/window.cpp and the live timers.
use swiftlink.Common.{
  ℕ, zero, suc, ◌+◌, ◌-◌, ◌%◌, ◌^◌, ◌≤◌, ◌<◌, ◌≡◌, ◌≢◌, ◌⊎◌, refl, sym, ap, ◌∙◌, arith, inl, inr,
  Bool, true, false, not, ◌&&◌, ◌||◌, [], ltb, leb, Bool-cases, subst, dec_le, if◌then◌else◌,
}
use swiftlink.Transfer.ReceiverWindow.Refine.{insert}
use swiftlink.Transfer.SenderWindow.{
  SenderWindow, slot_at, set_slot, next_generation, is_live, advance, on_ack,
}
use swiftlink.Transfer.SenderWindow.Slots.{slot_at-set_slot_ne}
use swiftlink.Transfer.SenderWindow.Acks.{on_ack-Tracks}
use swiftlink.Transfer.SenderWindow.Timers.{Member, Timed}
use swiftlink.Transfer.SenderWindow.Arm.Calls.{on_ack-Timed}
use swiftlink.Transfer.SenderWindow.Watch.{HasTimer, HasSpare, Watches, generation-set_slot}

-- The loop of `on_ack` moves the base, and nothing else.
advance_moves :
    (fuel : ℕ) (w : SenderWindow) → advance fuel w ≡ record w { base = (advance fuel w).base }
unfolding advance
advance_moves zero w = refl
advance_moves (suc fuel) w =
    elim (Bool-cases (ltb w.base w.next_sequence && not (slot_at w w.base).outstanding)) [
      | inl go ↦ rw (advance, go) (advance_moves fuel (record w { base = (w.base + 1) % 2 ^ 32 }))
      | inr stop ↦ rw (advance, stop) refl
    ]

abbrev retired : SenderWindow → ℕ → SenderWindow
retired w n =
    set_slot w n (record { outstanding = false; generation = next_generation (slot_at w n) })

-- What an acknowledgement leaves: the window as it was, or with a number retired and another base.
on_ack_cases :
    (w : SenderWindow) (n : ℕ)
    → ((on_ack w n ≡ (w, false)))
      ⊎ ((w.base ≤ n)
          × (n < w.next_sequence)
          × ((on_ack w n).1 ≡ true)
          × ((on_ack w n).0 ≡ record (retired w n) { base = (on_ack w n).0.base }))
unfolding on_ack
on_ack_cases w n = elim (Bool-cases (ltb n w.base || leb w.next_sequence n)) [
  | inl out ↦ inl (rw (out, on_ack) refl)
  | inr inside ↦ elim (Bool-cases (slot_at w n).outstanding) [
    | inr free ↦ inl (rw (inside, free, on_ack) refl)
    | inl busy ↦ inr (
      ground (arith, inside),
      ground (arith, inside),
      rw (inside, busy, on_ack) refl,
      rw (inside, busy, on_ack) (advance_moves (w.next_sequence - w.base + 1) (retired w n)),
    )
  ]
]

-- The window with the number `n` of it retired, and some base.
module _ (w : SenderWindow) (n base : ℕ) (t : Timed w) (low : w.base ≤ n)
    (high : n < w.next_sequence) where
  retired-HasSpare :
      (spare : ℕ) → HasSpare w (suc spare) → HasSpare (record (retired w n) { base = base }) spare
  retired-HasSpare spare room s = omega (
    arith,
    room s,
    generation-set_slot w n s
        (record { outstanding = false; generation = next_generation (slot_at w n) }) t.is_ring
        (omega arith),
  )

  retired_keeps :
      (s : ℕ)
      → w.base ≤ s
      → s < w.next_sequence
      → n ≢ s
      → HasTimer w s
      → HasTimer (record (retired w n) { base = base }) s
  unfolding is_live
  retired_keeps s low' high' ne x =
      let e = x.is_for in
      record {
        timer = x.timer;
        queued = x.queued;
        is_for = x.is_for;
        live =
            rw
              (slot_at-set_slot_ne w w.base n x.timer.sequence _ low (omega (arith, t.fits))
                (omega arith) (omega (arith, t.fits)) (λ same. ne (same ∙ e)))
              x.live;
      }

-- An acknowledgement takes the live timer of no other number.
pub on_ack-Watches :
    (w : SenderWindow) (acked : ℕ → Bool) (n spare : ℕ)
    → Watches w acked [] (suc spare)
    → Watches (on_ack w n).0 (if (on_ack w n).1 then insert n acked else acked) [] spare
on_ack-Watches w acked n spare x =
    let tracks = (on_ack-Tracks w acked n x.tracks).1 in
    let timed = on_ack-Timed w n x.timed (omega (arith, x.has_spare n)) x.tracks.holds.narrow in
    elim (on_ack_cases w n) [
      | inl e ↦ rw e (record {
        tracks = x.tracks;
        timed = x.timed;
        has_spare = λ s. omega (arith, x.has_spare s);
        watched = x.watched;
      })
      | inr (low, high, hit, e) ↦ record {
        tracks = tracks;
        timed = timed;
        has_spare =
            subst (λ v. HasSpare v spare) (sym e)
              (retired-HasSpare w n (on_ack w n).0.base x.timed low high spare x.has_spare);
        watched = λ s low' high' un.
            let (other, before) = missing s (rw hit at un) in
            let ahead : w.base ≤ s = elim (dec_le w.base s) [
              | yes le ↦ le
              | no gt ↦ absurd (cc (x.tracks.holds.retired s (omega arith), before))
            ] in
            let within : s < w.next_sequence = subst (λ v. s < v.next_sequence) e high' in
            inr (
              subst (λ v. HasTimer v s) (sym e)
                (retired_keeps w n (on_ack w n).0.base x.timed low high s ahead within other
                  (unqueued s (x.watched s ahead within before))));
      }
    ]
  where
    missing : (s : ℕ) → insert n acked s ≡ false → (n ≢ s) × (acked s ≡ false)
    missing s e = ground (arith, e)

    unqueued : (s : ℕ) → Member s [] ⊎ HasTimer w s → HasTimer w s
    unqueued s (inl m) = absurd m
    unqueued s (inr y) = y

pub on_ack-next_sequence :
    (w : SenderWindow) (n : ℕ) → (on_ack w n).0.next_sequence ≡ w.next_sequence
on_ack-next_sequence w n = elim (on_ack_cases w n) [
  | inl e ↦ ap (λ r. r.0.next_sequence) e
  | inr (low, high, hit, e) ↦ ap (λ v. v.next_sequence) e
]
