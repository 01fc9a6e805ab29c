-- ===== src/Transfer/SenderWindow/Watch/Calls.antt =====
-- `on_sent`, `expire` and `earliest_deadline` of src/transfer/window.cpp and the live timers.
use swiftlink.Common.{
  suc, ℕ, ◌+◌, ◌%◌, ◌^◌, ◌≤◌, ◌<◌, ◌≡◌, ◌≢◌, ◌⊎◌, refl, arith, inl, inr, Bool, true, false, List,
  [], ℕ_discrete, subst, get_or-replicate,
}
use swiftlink.Transfer.SenderWindow.{
  Entry, expire, SenderWindow, new_window, is_live, prune, on_sent, can_send, idle_slot,
}
use swiftlink.Transfer.SenderWindow.Acks.{new_window-Tracks, on_sent-Tracks, in_flight_lem}
use swiftlink.Transfer.SenderWindow.Timers.{Member, HasGenerations, prune-Member_live, length-prune}
use swiftlink.Transfer.SenderWindow.Arm.Calls.{on_sent-Timed}
use swiftlink.Transfer.SenderWindow.Expiry.{prune-Timed, expire-Expires}
use swiftlink.Transfer.SenderWindow.Watch.{
  HasTimer, Watches, same-Tracks, armed-HasTimer, armed_keeps, armed-HasSpare,
}

pub new_window-Watches :
    (capacity spare : ℕ) → spare < 2 ^ 64 → Watches (new_window capacity) (λ s. false) [] spare
unfolding new_window
new_window-Watches capacity spare room = record {
  tracks = new_window-Tracks capacity;
  timed = record {
    is_ring = (new_window-Tracks capacity).holds.is_ring;
    fits = omega arith;
    older = λ e m. absurd m;
    inside = λ e m live. absurd m;
    sorted = tt;
  };
  has_spare = λ s. rw (get_or-replicate _ _ idle_slot) (omega arith);
  watched = λ s low high un. absurd (omega arith);
}

-- Pruning takes no live timer off.
pub prune-Watches :
    (w : SenderWindow) (acked : ℕ → Bool) (due : List ℕ) (spare : ℕ)
    → Watches w acked due spare
    → Watches (prune w) acked due spare
unfolding prune is_live
prune-Watches w acked due spare x = record {
  tracks =
      same-Tracks w (prune w) acked refl refl refl (prune-Timed w x.timed).is_ring (λ s. refl)
        x.tracks;
  timed = prune-Timed w x.timed;
  has_spare = λ s. omega (arith, x.has_spare s, length-prune w w.timers);
  watched = λ s low high un. still s (x.watched s low high un);
}
  where
    still : (s : ℕ) → Member s due ⊎ HasTimer w s → Member s due ⊎ HasTimer (prune w) s
    still s (inl m) = inl m
    still s (inr y) = inr (record {
      timer = y.timer;
      queued = prune-Member_live w w.timers y.timer y.live y.queued;
      is_for = y.is_for;
      live = y.live;
    })

pub on_sent-Watches :
    (w : SenderWindow) (acked : ℕ → Bool) (deadline spare : ℕ)
    → Watches w acked [] (spare + 2)
    → can_send w ≡ true
    → w.next_sequence + 1 < 2 ^ 32
    → Watches (on_sent w deadline) acked [] spare
unfolding on_sent
on_sent-Watches w acked deadline spare x room short =
    let h = x.tracks.holds in
    let free = (in_flight_lem w acked x.tracks).2.0 room in
    let next : (w.next_sequence + 1) % 2 ^ 32 ≡ w.next_sequence + 1 = omega arith in
    record {
      tracks = (on_sent-Tracks w acked deadline x.tracks room short).0;
      timed =
          on_sent-Timed w deadline x.timed (omega (arith, x.has_spare w.next_sequence)) h.ordered
            free short;
      has_spare =
          armed-HasSpare w w.next_sequence deadline ((w.next_sequence + 1) % 2 ^ 32) x.timed
            h.ordered (omega arith) (omega (arith, free)) spare x.has_spare;
      watched = λ s low high un. elim (ℕ_discrete w.next_sequence s) [
        | yes e ↦ inr (
            subst (HasTimer (on_sent w deadline)) e (
              armed-HasTimer w w.next_sequence deadline ((w.next_sequence + 1) % 2 ^ 32) x.timed
                h.ordered (omega arith) (omega (arith, free))))
        | no ne ↦ inr (old s low (omega arith) ne (x.watched s low (omega arith) un))
      ];
    }
  where
    old :
        (s : ℕ)
        → w.base ≤ s
        → s < (w.next_sequence + 1) % 2 ^ 32
        → w.next_sequence ≢ s
        → Member s [] ⊎ HasTimer w s
        → HasTimer (on_sent w deadline) s
    old s low high ne (inl m) = absurd m
    old s low high ne (inr y) =
        let free = (in_flight_lem w acked x.tracks).2.0 room in
        armed_keeps w w.next_sequence deadline ((w.next_sequence + 1) % 2 ^ 32) x.timed
          x.tracks.holds.ordered (omega arith) (omega (arith, free)) s low high ne y

-- The timer that `on_sent` arms.
pub record HasTimerAt (w : SenderWindow) (s deadline : ℕ) : Type 0 where
  pub timer : Entry
  pub queued : Member timer w.timers
  pub is_for : timer.sequence ≡ s
  pub is_due : timer.deadline ≡ deadline
  pub live : is_live w timer ≡ true

-- The numbers that `expire` hands back are left without a timer, and no other.
pub expire-Watches :
    (w : SenderWindow) (acked : ℕ → Bool) (now spare : ℕ)
    → Watches w acked [] (suc spare)
    → Watches (expire w now).0 acked (expire w now).1 (suc spare)
expire-Watches w acked now spare x =
    let narrow : HasGenerations w = λ s. omega (arith, x.has_spare s) in
    let (e, t) = expire-Expires w now x.timed narrow in
    record {
      tracks =
          same-Tracks w (expire w now).0 acked e.base_kept e.next_kept e.capacity_kept t.is_ring
            e.flags_kept x.tracks;
      timed = t;
      has_spare = λ s. omega (arith, x.has_spare s, e.spends s);
      watched = λ s low high un.
          still s (x.watched s (omega (arith, e.base_kept)) (omega (arith, e.next_kept)) un);
    }
  where
    still :
        (s : ℕ)
        → Member s [] ⊎ HasTimer w s
        → Member s (expire w now).1 ⊎ HasTimer (expire w now).0 s
    still s (inl m) = absurd m
    still s (inr y) =
        let narrow : HasGenerations w = λ n. omega (arith, x.has_spare n) in
        let e = (expire-Expires w now x.timed narrow).0 in
        elim (e.kept y.timer y.queued y.live) [
          | inl m ↦ inl (subst (λ n. Member n (expire w now).1) y.is_for m)
          | inr (m, live) ↦
              inr (record { timer = y.timer; queued = m; is_for = y.is_for; live = live })
        ]
