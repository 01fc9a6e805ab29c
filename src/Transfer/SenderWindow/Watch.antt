-- ===== src/Transfer/SenderWindow/Watch.antt =====
-- The live timers of the packets in flight in the sender's window (src/transfer/window.cpp).
pub mod Calls
pub mod Few
pub mod Rearm
pub mod Retire
use swiftlink.Common.{
  ℕ, zero, suc, ◌+◌, ◌-◌, ◌%◌, ◌^◌, ◌≤◌, ◌<◌, ◌≡◌, ◌≢◌, ◌⊎◌, refl, sym, ap, ◌∙◌, arith, inl, inr,
  Bool, true, false, not, ◌&&◌, List, [], ◌∷◌, ltb, ◌==◌, Bool-cases, length, ℕ_discrete,
}
use swiftlink.Transfer.SenderWindow.{
  SenderWindow, Slot, Entry, slot_at, set_slot, next_generation, push, is_live,
}
use swiftlink.Transfer.SenderWindow.Slots.{
  IsRing, slot_at-set_slot_alias, slot_at-set_slot_other, slot_at-set_slot_self,
  slot_at-set_slot_ne,
}
use swiftlink.Transfer.SenderWindow.Acks.{Tracks}
use swiftlink.Transfer.SenderWindow.Timers.{Member, Timed}
use swiftlink.Transfer.SenderWindow.Arm.{armed, new_entry}

-- A live timer for the number `s`.
pub record HasTimer (w : SenderWindow) (s : ℕ) : Type 0 where
  pub timer : Entry
  pub queued : Member timer w.timers
  pub is_for : timer.sequence ≡ s
  pub live : is_live w timer ≡ true

-- No generation counter wraps while `spare` more are bumped or entries pushed.
abbrev pub HasSpare : SenderWindow → ℕ → Type 0
HasSpare w spare = (s : ℕ) → (slot_at w s).generation + length w.timers + spare < 2 ^ 64

-- Each number in flight that is not in `due` has a live timer.
pub record Watches (w : SenderWindow) (acked : ℕ → Bool) (due : List ℕ) (spare : ℕ) : Type 0 where
  pub tracks : Tracks w acked
  pub timed : Timed w
  pub has_spare : HasSpare w spare
  pub watched :
      (s : ℕ) → w.base ≤ s → s < w.next_sequence → acked s ≡ false → Member s due ⊎ HasTimer w s

pub Member-push_self : (e : Entry) (es : List Entry) → Member e (push e es)
unfolding push
Member-push_self e [] = inl refl
Member-push_self e (y ∷ es) = elim (Bool-cases (ltb e.deadline y.deadline)) [
  | inl early ↦ rw early (inl refl)
  | inr late ↦ rw late (inr (Member-push_self e es))
]

pub Member-push_old : (e : Entry) (es : List Entry) (x : Entry) → Member x es → Member x (push e es)
unfolding push
Member-push_old e [] x m = absurd m
Member-push_old e (y ∷ es) x m = elim (Bool-cases (ltb e.deadline y.deadline)) [
  | inl early ↦ rw early (inr m)
  | inr late ↦ rw late (behind (Member-push_old e es x) m)
]
  where
    behind : (Member x es → Member x (push e es)) → Member x (y ∷ es) → Member x (y ∷ push e es)
    behind deeper (inl same) = inl same
    behind deeper (inr m) = inr (deeper m)

pub length-push : (e : Entry) (es : List Entry) → length (push e es) ≡ suc (length es)
unfolding push
length-push e [] = refl
length-push e (y ∷ es) = let ih = length-push e es in ground arith

-- A write that bumps one generation.
pub generation-set_slot :
    (w : SenderWindow) (n s : ℕ) (slot : Slot)
    → IsRing w
    → slot.generation ≤ (slot_at w n).generation + 1
    → (slot_at (set_slot w n slot) s).generation ≤ (slot_at w s).generation + 1
generation-set_slot w n s slot r le = elim (ℕ_discrete (s % w.capacity) (n % w.capacity)) [
  | yes e ↦ rw (slot_at-set_slot_alias w n s slot r e, e) le
  | no ne ↦ rw (slot_at-set_slot_other w n s slot (λ e. ne (sym e))) (omega arith)
]

-- Equal bounds and flags track the same set.
pub same-Tracks :
    (w v : SenderWindow) (acked : ℕ → Bool)
    → v.base ≡ w.base
    → v.next_sequence ≡ w.next_sequence
    → v.capacity ≡ w.capacity
    → IsRing v
    → ((s : ℕ) → (slot_at v s).outstanding ≡ (slot_at w s).outstanding)
    → Tracks w acked
    → Tracks v acked
same-Tracks w v acked base next capacity ring flags t =
    let h = t.holds in
    record {
      holds = record {
        is_ring = ring;
        ordered = omega (arith, h.ordered);
        fits = omega (arith, h.fits);
        narrow = omega (arith, h.narrow);
        retired = λ s below. h.retired s (omega arith);
        window = λ s low high. flags s ∙ h.window s (omega arith) (omega arith);
        unsent = λ s above. h.unsent s (omega arith);
      };
      oldest = λ more. ap acked base ∙ t.oldest (omega arith);
    }

-- A window with a timer armed for `s`.
module _ (w : SenderWindow) (s deadline next : ℕ) (t : Timed w) (low : w.base ≤ s) (high : s < next)
    (fits : next ≤ w.base + w.capacity) where
  pub armed-HasTimer : HasTimer (armed w s deadline next) s
  unfolding is_live
  armed-HasTimer = record {
    timer = new_entry w s deadline;
    queued = Member-push_self (new_entry w s deadline) w.timers;
    is_for = refl;
    live = rw (slot_at-set_slot_self w s _ t.is_ring) (ground arith);
  }

  pub armed_keeps :
      (n : ℕ) → w.base ≤ n → n < next → s ≢ n → HasTimer w n → HasTimer (armed w s deadline next) n
  unfolding is_live
  armed_keeps n low' high' ne x =
      let e = x.is_for in
      record {
        timer = x.timer;
        queued = Member-push_old (new_entry w s deadline) w.timers x.timer x.queued;
        is_for = x.is_for;
        live =
            rw
              (slot_at-set_slot_ne w w.base s x.timer.sequence _ low (omega (arith, fits))
                (omega arith) (omega (arith, fits)) (λ same. ne (same ∙ e)))
              x.live;
      }

  pub armed-HasSpare :
      (spare : ℕ) → HasSpare w (spare + 2) → HasSpare (armed w s deadline next) spare
  armed-HasSpare spare room n = omega (
    arith,
    room n,
    length-push (new_entry w s deadline) w.timers,
    generation-set_slot w s n
        (record { outstanding = true; generation = next_generation (slot_at w s) }) t.is_ring
        (omega arith),
  )

pub fewer-Watches :
    (w : SenderWindow) (acked : ℕ → Bool) (due : List ℕ) (more fewer : ℕ)
    → fewer ≤ more
    → Watches w acked due more
    → Watches w acked due fewer
fewer-Watches w acked due more fewer le x = record {
  tracks = x.tracks;
  timed = x.timed;
  has_spare = λ s. omega (arith, x.has_spare s);
  watched = x.watched;
}
