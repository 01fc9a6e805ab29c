-- ===== src/Transfer/SenderWindow.antt =====
-- `SenderWindow` of include/swiftlink/transfer/window.hpp and src/transfer/window.cpp. A time point is
-- a number. The priority queue of timers is the list of its entries with the earliest deadline first;
-- where deadlines are equal std::priority_queue leaves the order open, and here it is that of
-- insertion.
pub mod Slots
pub mod Acks
pub mod Timers
pub mod Expiry
pub mod Watch
pub mod Arm
pub mod Queue
use swiftlink.Common.{
  ℕ, zero, suc, ◌+◌, ◌-◌, ◌%◌, ◌^◌, Bool, true, false, not, ◌&&◌, ◌||◌, List, [], ◌∷◌, Option, none,
  some, ltb, leb, ◌==◌, if◌then◌else◌, length, get_or, set, replicate,
}

pub record Slot : Type 0 where
  pub outstanding : Bool
  pub generation : ℕ

abbrev pub idle_slot : Slot
idle_slot = record { outstanding = false; generation = 0 }

pub record Entry : Type 0 where
  pub deadline : ℕ
  pub sequence : ℕ
  pub generation : ℕ

pub record SenderWindow : Type 0 where
  pub capacity : ℕ
  pub base : ℕ
  pub next_sequence : ℕ
  pub slots : List Slot
  pub timers : List Entry

unfoldable pub new_window : ℕ → SenderWindow
new_window capacity =
    let c = if capacity == 0 then 1 else capacity in
    record { capacity = c; base = 0; next_sequence = 0; slots = replicate c idle_slot; timers = [] }

-- `next_sequence_ - base_` of uint32_t
unfoldable pub in_flight : SenderWindow → ℕ
in_flight w = (w.next_sequence + 2 ^ 32 - w.base) % 2 ^ 32

unfoldable pub can_send : SenderWindow → Bool
unfolding in_flight
can_send w = ltb (in_flight w) w.capacity

-- `slot_for`
abbrev pub slot_at : SenderWindow → ℕ → Slot
slot_at w sequence = get_or w.slots (sequence % w.capacity) idle_slot

abbrev pub set_slot : SenderWindow → ℕ → Slot → SenderWindow
set_slot w sequence slot = record w { slots = set w.slots (sequence % w.capacity) slot }

-- `++slot.generation` of a uint64_t
abbrev pub next_generation : Slot → ℕ
next_generation slot = (slot.generation + 1) % 2 ^ 64

unfoldable pub push : Entry → List Entry → List Entry
push entry [] = entry ∷ []
push entry (e ∷ es) = if ltb entry.deadline e.deadline then entry ∷ e ∷ es else e ∷ push entry es

unfoldable pub is_live : SenderWindow → Entry → Bool
is_live w entry =
    (slot_at w entry.sequence).outstanding
    && ((slot_at w entry.sequence).generation == entry.generation)

-- the loop of `prune`
unfoldable pub prune_timers : SenderWindow → List Entry → List Entry
prune_timers w [] = []
prune_timers w (e ∷ es) = if is_live w e then e ∷ es else prune_timers w es

unfoldable pub prune : SenderWindow → SenderWindow
unfolding prune_timers
prune w = record w { timers = prune_timers w w.timers }

-- its `assert(can_send())` is a condition of its callers
unfoldable pub on_sent : SenderWindow → ℕ → SenderWindow
on_sent w deadline =
    let sequence = w.next_sequence in
    let generation = next_generation (slot_at w sequence) in
    let armed = set_slot w sequence (record { outstanding = true; generation = generation }) in
    let entry : Entry = record {
      deadline = deadline;
      sequence = sequence;
      generation = generation;
    } in
    record armed { timers = push entry w.timers; next_sequence = (sequence + 1) % 2 ^ 32 }

-- the loop of `on_ack`; `next_sequence - base` rounds and the last test are enough
unfoldable pub advance : ℕ → SenderWindow → SenderWindow
advance zero w = w
advance (suc fuel) w =
    let rest = advance fuel (record w { base = (w.base + 1) % 2 ^ 32 }) in
    if ltb w.base w.next_sequence && not (slot_at w w.base).outstanding then rest else w

unfoldable pub on_ack : SenderWindow → ℕ → SenderWindow × Bool
on_ack w sequence =
    if ltb sequence w.base || leb w.next_sequence sequence
    then (w, false)
    else if not (slot_at w sequence).outstanding
    then (w, false)
    else let generation = next_generation (slot_at w sequence) in
      let retired = set_slot w sequence (record { outstanding = false; generation = generation }) in
      (advance (w.next_sequence - w.base + 1) retired, true)

abbrev pub top_deadline : List Entry → Option ℕ
top_deadline [] = none
top_deadline (e ∷ es) = some e.deadline

unfoldable pub earliest_deadline : SenderWindow → SenderWindow × Option ℕ
unfolding prune
earliest_deadline w = let p = prune w in (p, top_deadline p.timers)

-- `++slot.generation` alone disarms the entry that was popped
unfoldable pub disarm : SenderWindow → Entry → List Entry → SenderWindow
disarm w entry rest =
    let slot = slot_at w entry.sequence in
    record (set_slot w entry.sequence (record slot { generation = next_generation slot })) {
      timers = rest;
    }

-- the loop of `expire`; each round takes an entry off the queue
unfoldable pub expire_loop : ℕ → SenderWindow → ℕ → SenderWindow × List ℕ
expire_loop zero w now = (w, [])
expire_loop (suc fuel) w now = elim (prune w).timers [
  | [] ↦ (prune w, [])
  | e ∷ es ↦
      let later = expire_loop fuel (disarm (prune w) e es) now in
      if ltb now e.deadline then (prune w, []) else (later.0, e.sequence ∷ later.1)
]

unfoldable pub expire : SenderWindow → ℕ → SenderWindow × List ℕ
expire w now = expire_loop (length w.timers + 1) w now

unfoldable pub reschedule : SenderWindow → ℕ → ℕ → SenderWindow
reschedule w sequence deadline =
    if ltb sequence w.base || leb w.next_sequence sequence
    then w
    else if not (slot_at w sequence).outstanding
    then w
    else let slot = slot_at w sequence in
      let armed = set_slot w sequence (record slot { generation = next_generation slot }) in
      let entry : Entry = record {
        deadline = deadline;
        sequence = sequence;
        generation = next_generation slot;
      } in
      record armed { timers = push entry w.timers }
