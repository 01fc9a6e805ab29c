-- ===== src/Transfer/Tests/Receiver.antt =====
-- The receiver's window at concrete states.
use swiftlink.Common.{
  ℕ, ◌+◌, ◌^◌, ◌<◌, ◌≤◌, ◌≡◌, ◌≢◌, ◌↔◌, arith, Bool, true, false, [], ltb, if◌then◌else◌,
}
use swiftlink.Transfer.ReceiverWindow.{
  ReceiverWindow, accepted, duplicate, outside_window, new_window, classify, mark_received,
}
use swiftlink.Transfer.ReceiverWindow.Refine.{
  insert, Tracks, new_window-Tracks, classify_lem, mark_received-Tracks,
}
use swiftlink.Transfer.ReceiverWindow.Wrap.{mark_received-stalls}

abbrev nothing : ℕ → Bool
nothing s = false

four_fit : (new_window 4).base + (new_window 4).capacity < 2 ^ 32
unfolding new_window
four_fit = omega arith

mark_received-Tracks_example :
    Tracks
      (mark_received (new_window 4) 2)
      (if ltb 2 ((new_window 4).base + (new_window 4).capacity) then insert 2 nothing else nothing)
mark_received-Tracks_example =
    mark_received-Tracks (new_window 4) nothing 2 (new_window-Tracks 4) four_fit

classify_lem_example :
    ((classify (new_window 4) 2 ≡ duplicate) ↔ (nothing 2 ≡ true))
    × ((classify (new_window 4) 2 ≡ outside_window)
        ↔ ((new_window 4).base + (new_window 4).capacity ≤ 2))
    × ((classify (new_window 4) 2 ≡ accepted)
        ↔ ((nothing 2 ≡ false) × (2 < (new_window 4).base + (new_window 4).capacity)))
classify_lem_example = classify_lem (new_window 4) nothing 2 (new_window-Tracks 4) four_fit

abbrev last_window : ReceiverWindow
last_window = record { capacity = 1024; base = 0xFFFFFFFF; received = [] }

mark_received-stalls_example :
    (classify last_window 0xFFFFFFFF ≢ accepted)
    × (mark_received last_window 0xFFFFFFFF ≡ last_window)
mark_received-stalls_example =
    mark_received-stalls last_window 0xFFFFFFFF (omega arith) (omega arith) (omega arith)
