-- ===== src/Transfer/SenderWindow/Expiry.antt =====
-- `expire` of src/transfer/window.cpp: which packets it hands back, and in what state it leaves the
-- window.
pub mod Round
pub use Round.{Due, Distinct, Expires}
use swiftlink.Common.{
  List-cases, ℕ, zero, suc, ◌+◌, ◌%◌, ◌^◌, ◌≤◌, ◌<◌, ◌≡◌, ◌≢◌, refl, sym, ap, ◌∙◌, arith, inl, inr,
  true, List, [], ◌∷◌, ltb, Bool-cases, length, length-set, ℕ_discrete,
}
use swiftlink.Transfer.Ring.{slots_distinct}
use swiftlink.Transfer.SenderWindow.{
  SenderWindow, Entry, slot_at, is_live, prune, disarm, expire_loop, expire,
}
use swiftlink.Transfer.SenderWindow.Timers.{
  Member, Sorted, Timed, HasGenerations, prune-Member, prune-Member_live, prune-Sorted, prune-head,
  length-prune, outstanding-disarm, disarm_cancels, disarm_keeps, generation-disarm,
}
use swiftlink.Transfer.SenderWindow.Expiry.Round.{
  disarm-Timed, disarm-HasGenerations, round-Expires,
}

-- `prune` keeps every fact about the queue.
pub prune-Timed : (w : SenderWindow) → Timed w → Timed (prune w)
unfolding prune is_live
prune-Timed w t = record {
  is_ring = record { has_slots = t.is_ring.has_slots; sized = t.is_ring.sized };
  fits = t.fits;
  older = λ e m. t.older e (prune-Member w w.timers e m);
  inside = λ e m live. t.inside e (prune-Member w w.timers e m) live;
  sorted = prune-Sorted w w.timers t.sorted;
}

-- A call that hands nothing back: the queue is empty, or its first deadline is still to come.
idle-Expires : (w : SenderWindow) (now : ℕ) → ((s : ℕ) → ¬ Due w now s) → Expires w now (w, [])
idle-Expires w now none_due = record {
  base_kept = refl;
  next_kept = refl;
  capacity_kept = refl;
  flags_kept = λ s. refl;
  sound = λ s m. absurd m;
  complete = none_due;
  once = tt;
  none_left = none_due;
  kept = λ x m live. inr (m, live);
  spends = λ s. omega arith;
}

none-Due_before :
    (w : SenderWindow) (now : ℕ) (h : Entry) (es : List Entry) (s : ℕ)
    → Sorted w.timers
    → w.timers ≡ h ∷ es
    → now < h.deadline
    → ¬ Due w now s
none-Due_before w now h es s sorted queue late d =
    go d.timer (rw queue at sorted) (rw queue at d.queued) d.over
  where
    go : (x : Entry) → Sorted (h ∷ es) → Member x (h ∷ es) → x.deadline ≤ now → ⊥
    go x sorted' (inl e) over = omega (arith, ap (λ y. y.deadline) e)
    go x sorted' (inr m) over = omega (arith, sorted'.0 x m)

-- Pruning makes no number due, and none that is due goes.
prune-Expires :
    (w : SenderWindow) (now : ℕ) (out : SenderWindow × List ℕ)
    → Expires (prune w) now out
    → Expires w now out
unfolding prune is_live
prune-Expires w now out x = record {
  base_kept = x.base_kept;
  next_kept = x.next_kept;
  capacity_kept = x.capacity_kept;
  flags_kept = x.flags_kept;
  sound = λ s m.
      let d = x.sound s m in
      record {
        timer = d.timer;
        queued = prune-Member w w.timers d.timer d.queued;
        is_for = d.is_for;
        live = d.live;
        over = d.over;
      };
  complete = λ s d. x.complete s (record {
    timer = d.timer;
    queued = prune-Member_live w w.timers d.timer d.live d.queued;
    is_for = d.is_for;
    live = d.live;
    over = d.over;
  });
  once = x.once;
  none_left = x.none_left;
  kept = λ y m live. x.kept y (prune-Member_live w w.timers y live m) live;
  spends = λ s. omega (arith, x.spends s, length-prune w w.timers);
}

prune-HasGenerations : (w : SenderWindow) → HasGenerations w → HasGenerations (prune w)
unfolding prune
prune-HasGenerations w narrow s = omega (arith, narrow s, length-prune w w.timers)

prune-live :
    (w : SenderWindow) (h : Entry) (es : List Entry)
    → (prune w).timers ≡ h ∷ es
    → is_live (prune w) h ≡ true
unfolding prune is_live
prune-live w h es e = prune-head w w.timers h es e

length-prune_timers : (w : SenderWindow) → length (prune w).timers ≤ length w.timers
unfolding prune
length-prune_timers w = length-prune w w.timers

timers-disarm : (w : SenderWindow) (h : Entry) (es : List Entry) → (disarm w h es).timers ≡ es
unfolding disarm
timers-disarm w h es = refl

expire_loop-Expires :
    (fuel : ℕ) (w : SenderWindow) (now : ℕ)
    → Timed w
    → HasGenerations w
    → length w.timers < fuel
    → Expires w now (expire_loop fuel w now) × Timed (expire_loop fuel w now).0
unfolding expire_loop
expire_loop-Expires zero w now t narrow lt = absurd (omega arith)
expire_loop-Expires (suc fuel) w now t narrow lt = elim (List-cases (prune w).timers) [
  | inl none ↦
      rw (none, expire_loop)
        (
          prune-Expires w now _ (idle-Expires (prune w) now (λ s d. absurd (rw none at d.queued))),
          prune-Timed w t,
        )
  | inr (h, es, queue) ↦ elim (Bool-cases (ltb now h.deadline)) [
    | inl early ↦
        rw (queue, early, expire_loop)
          (
            prune-Expires w now _ (
                idle-Expires (prune w) now λ s.
                  none-Due_before (prune w) now h es s (prune-Timed w t).sorted queue
                    (ground (arith, early))),
            prune-Timed w t,
          )
    | inr over ↦
        let p = prune-Timed w t in
        let live = prune-live w h es queue in
        let counts = prune-HasGenerations w narrow in
        let later =
          expire_loop-Expires fuel (disarm (prune w) h es) now
            (disarm-Timed (prune w) h es p queue live counts)
            (disarm-HasGenerations (prune w) h es p queue live counts)
            (omega (
              arith,
              length-prune_timers w,
              ap length queue,
              ap length (timers-disarm (prune w) h es),
            )) in
        rw (queue, over, expire_loop)
          (
            prune-Expires w now _ (
                round-Expires (prune w) h es p queue live counts now _ (ground (arith, over))
                  later.0),
            later.1,
          )
  ]
]

-- `expire` hands back exactly the numbers with a live timer whose deadline has passed, each once; it
-- leaves no such timer, and neither the bounds of the window nor the outstanding flags change.
pub expire-Expires :
    (w : SenderWindow) (now : ℕ)
    → Timed w
    → HasGenerations w
    → Expires w now (expire w now) × Timed (expire w now).0
unfolding expire
expire-Expires w now t narrow =
    expire_loop-Expires (length w.timers + 1) w now t narrow (omega arith)
