-- ===== src/Transfer/ReceiverWindow/Wrap.antt =====
-- `classify` of src/transfer/window.cpp near the end of the sequence space, where the window's end
-- `base_ + capacity_` wraps round 2 ^ 32.
use swiftlink.Common.{ℕ, ◌+◌, ◌^◌, ◌≤◌, ◌<◌, ◌≡◌, ◌≢◌, arith}
use swiftlink.Transfer.ReceiverWindow.{ReceiverWindow, accepted, classify, mark_received}

classify-ne-accepted :
    (w : ReceiverWindow) (s : ℕ)
    → w.base < 2 ^ 32
    → w.capacity < 2 ^ 32
    → 2 ^ 32 ≤ w.base + w.capacity
    → classify w s ≢ accepted
unfolding classify
classify-ne-accepted w s hb hc wraps = ground arith

-- The base and the capacity have 32 bits. While the base is within a window's length of 2 ^ 32 no
-- sequence number is accepted, not even the base itself, and `mark_received` of any number leaves the
-- window as it is.
pub mark_received-stalls :
    (w : ReceiverWindow) (s : ℕ)
    → w.base < 2 ^ 32
    → w.capacity < 2 ^ 32
    → 2 ^ 32 ≤ w.base + w.capacity
    → (classify w s ≢ accepted) × (mark_received w s ≡ w)
unfolding mark_received
mark_received-stalls w s hb hc wraps =
    let never = classify-ne-accepted w s hb hc wraps in (never, ground (arith, never))
