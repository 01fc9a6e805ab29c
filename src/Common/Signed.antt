-- ===== src/Common/Signed.antt =====
-- Signed integers, and what a cast of a 64-bit number to a signed type gives.
use Prim.Native.Nat.{ℕ, ◌-◌, ◌^◌, ◌<◌, ◌≤◌}
use mathlib.Core.Path.{◌≡◌}
use mathlib.Core.Logic.{◌≢◌}
use native.Mathlib.Omega.{arith}
use swiftlink.Common.Tests.{ltb, if◌then◌else◌}

-- `negsuc n` is -(n + 1)
pub data ℤ : Type 0 where
  pos negsuc : ℕ → ℤ

-- two's complement
unfoldable pub signed64 : ℕ → ℤ
signed64 n = if ltb n (2 ^ 63) then pos n else negsuc (2 ^ 64 - 1 - n)

pub signed64-pos : (n : ℕ) → n < 2 ^ 63 → signed64 n ≡ pos n
unfolding signed64
signed64-pos n h = ground arith

pub signed64-ne_zero : (n : ℕ) → 1 ≤ n → signed64 n ≢ pos 0
unfolding signed64
signed64-ne_zero n h = ground arith
