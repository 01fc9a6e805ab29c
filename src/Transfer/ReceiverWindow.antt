-- ===== src/Transfer/ReceiverWindow.antt =====
-- `ReceiverWindow` of include/swiftlink/transfer/window.hpp and src/transfer/window.cpp. Its numbers
-- are uint32_t: a sum is taken `% 2 ^ 32`.
pub mod Refine
pub mod Wrap
use swiftlink.Common.{
  ℕ, zero, suc, ◌+◌, ◌%◌, ◌^◌, Bool, true, false, List, ltb, leb, ◌==◌, if◌then◌else◌, get_or, set,
  replicate,
}

pub data Disposition : Type 0 where
  accepted duplicate outside_window : Disposition

pub record ReceiverWindow : Type 0 where
  pub capacity : ℕ
  pub base : ℕ
  pub received : List Bool

unfoldable pub new_window : ℕ → ReceiverWindow
new_window capacity =
    let c = if capacity == 0 then 1 else capacity in
    record { capacity = c; base = 0; received = replicate c false }

unfoldable pub classify : ReceiverWindow → ℕ → Disposition
classify w sequence =
    if ltb sequence w.base
    then duplicate
    else if leb ((w.base + w.capacity) % 2 ^ 32) sequence
    then outside_window
    else if get_or w.received (sequence % w.capacity) false
    then duplicate
    else accepted

-- the loop of `mark_received`; it clears a slot in each round, so `capacity` rounds and the last test
-- are enough
unfoldable pub slide : ℕ → ReceiverWindow → ReceiverWindow
slide zero w = w
slide (suc fuel) w =
    let at = w.base % w.capacity in
    let rest =
      slide fuel (record w { base = (w.base + 1) % 2 ^ 32; received = set w.received at false }) in
    if get_or w.received at false then rest else w

unfoldable pub mark_received : ReceiverWindow → ℕ → ReceiverWindow
mark_received w sequence = elim (classify w sequence) [
  | accepted ↦
      slide (w.capacity + 1) (record w { received = set w.received (sequence % w.capacity) true })
  | _ ↦ w
]
