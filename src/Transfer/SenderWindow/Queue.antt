-- ===== src/Transfer/SenderWindow/Queue.antt =====
-- The timer queue under the operations of src/transfer/window.cpp: what goes onto it, and what comes off.
use swiftlink.Common.{
  ℕ, zero, suc, ◌+◌, ◌-◌, ◌%◌, ◌^◌, ◌<◌, ◌≡◌, ◌⊎◌, inl, inr, refl, sym, subst, arith, List-cases,
  false, Bool-cases, List, [], ◌∷◌, ltb, length,
}
use swiftlink.Transfer.SenderWindow.{
  SenderWindow, Entry, slot_at, set_slot, next_generation, prune, disarm, expire_loop, expire, push,
  on_sent, advance, on_ack, reschedule, earliest_deadline, new_window,
}
use swiftlink.Transfer.SenderWindow.Arm.{new_entry}
use swiftlink.Transfer.SenderWindow.Timers.{Member, prune-Member}

advance-timers :
    (fuel : ℕ) (w : SenderWindow)
    → ((advance fuel w).timers ≡ w.timers) × ((advance fuel w).capacity ≡ w.capacity)
unfolding advance
advance-timers zero w = (refl, refl)
advance-timers (suc fuel) w =
    let rest = advance-timers fuel (record w { base = (w.base + 1) % 2 ^ 32 }) in ground arith

pub on_ack-timers :
    (w : SenderWindow) (n : ℕ)
    → ((on_ack w n).0.timers ≡ w.timers) × ((on_ack w n).0.capacity ≡ w.capacity)
unfolding on_ack
on_ack-timers w n =
    let rest =
      advance-timers (w.next_sequence - w.base + 1) (
        set_slot w n
          (record { outstanding = false; generation = next_generation (slot_at w n) })) in
    ground arith

pub on_sent-timers :
    (w : SenderWindow) (deadline : ℕ)
    → ((on_sent w deadline).timers ≡ push (new_entry w w.next_sequence deadline) w.timers)
      × ((on_sent w deadline).capacity ≡ w.capacity)
unfolding on_sent
on_sent-timers w deadline = (refl, refl)

pub reschedule-timers :
    (w : SenderWindow) (s deadline : ℕ)
    → (reschedule w s deadline ≡ w)
      ⊎ (((reschedule w s deadline).timers ≡ push (new_entry w s deadline) w.timers)
          × ((reschedule w s deadline).capacity ≡ w.capacity))
unfolding reschedule
reschedule-timers w s deadline = ground arith

pub earliest_deadline-Member :
    (w : SenderWindow)
    → ((x : Entry) → Member x (earliest_deadline w).0.timers → Member x w.timers)
      × ((earliest_deadline w).0.capacity ≡ w.capacity)
unfolding earliest_deadline prune
earliest_deadline-Member w = (prune-Member w w.timers, refl)

-- What `expire` hands back had a timer.
pub record Drawn (w : SenderWindow) (out : SenderWindow × List ℕ) : Type 0 where
  pub capacity_kept : out.0.capacity ≡ w.capacity
  pub fewer : (x : Entry) → Member x out.0.timers → Member x w.timers
  pub had_timer : (s : ℕ) → Member s out.1 → (x : Entry) × (Member x w.timers) × (x.sequence ≡ s)

nothing-Drawn : (w : SenderWindow) → Drawn w (prune w, [])
unfolding prune
nothing-Drawn w = record {
  capacity_kept = refl;
  fewer = prune-Member w w.timers;
  had_timer = λ s m. absurd m;
}

round-Drawn :
    (w : SenderWindow) (e : Entry) (es : List Entry) (out : SenderWindow × List ℕ)
    → (prune w).timers ≡ e ∷ es
    → Drawn (disarm (prune w) e es) out
    → Drawn w (out.0, e.sequence ∷ out.1)
unfolding prune disarm
round-Drawn w e es out queue d = record {
  capacity_kept = d.capacity_kept;
  fewer = λ x m. behind x (d.fewer x m);
  had_timer = drawn;
}
  where
    behind : (x : Entry) → Member x es → Member x w.timers
    behind x m = prune-Member w w.timers x (subst (Member x) (sym queue) (inr m))

    drawn :
        (s : ℕ) → Member s (e.sequence ∷ out.1) → (x : Entry) × Member x w.timers × (x.sequence ≡ s)
    drawn s (inl same) =
        (e, prune-Member w w.timers e (subst (Member e) (sym queue) (inl refl)), sym same)
    drawn s (inr m) = let (x, queued, same) = d.had_timer s m in (x, behind x queued, same)

expire_loop-Drawn : (fuel : ℕ) (w : SenderWindow) (now : ℕ) → Drawn w (expire_loop fuel w now)
unfolding expire_loop
expire_loop-Drawn zero w now = record {
  capacity_kept = refl;
  fewer = λ x m. m;
  had_timer = λ s m. absurd m;
}
expire_loop-Drawn (suc fuel) w now = elim (List-cases (prune w).timers) [
  | inl none ↦ rw (none, expire_loop) (nothing-Drawn w)
  | inr (h, es, queue) ↦ elim (Bool-cases (ltb now h.deadline)) [
    | inl early ↦ rw (queue, early, expire_loop) (nothing-Drawn w)
    | inr over ↦
        rw (queue, over, expire_loop)
          (round-Drawn w h es _ queue (expire_loop-Drawn fuel (disarm (prune w) h es) now))
  ]
]

pub expire-Drawn : (w : SenderWindow) (now : ℕ) → Drawn w (expire w now)
unfolding expire
expire-Drawn w now = expire_loop-Drawn (length w.timers + 1) w now

pub new_window-timers :
    (capacity : ℕ) → ((new_window capacity).timers ≡ []) × (0 < (new_window capacity).capacity)
unfolding new_window
new_window-timers capacity = (refl, ground arith)
