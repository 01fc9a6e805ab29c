-- ===== src/Transfer/Ring.antt =====
-- Sequence numbers on a ring of `capacity` slots, as both windows of src/transfer/window.cpp use it:
-- `sequence % capacity` tells any `capacity` consecutive numbers apart.
use swiftlink.Common.{ℕ, ◌+◌, ◌*◌, ◌/◌, ◌%◌, ◌<◌, ◌≤◌, ◌≡◌, ◌≢◌, arith, dec_le}
use native.Mathlib.Nat.{div-add-mod}

no_multiple : (c a b r s t : ℕ) → c * a + r ≡ s → c * b + r ≡ t → s < t → t < s + c → b ≤ a → ⊥
no_multiple c a b r s t e f h g le = grind arith

no_multiple_above :
    (c a b r s t : ℕ) → c * a + r ≡ s → c * b + r ≡ t → s < t → t < s + c → a + 1 ≤ b → ⊥
no_multiple_above c a b r s t e f h g le = grind arith

pub mod_distinct : (c s t : ℕ) → s < t → t < s + c → s % c ≢ t % c
mod_distinct c s t h g e = elim (dec_le (t / c) (s / c)) [
  | yes le ↦
      no_multiple c (s / c) (t / c) (s % c) s t (div-add-mod s c) (omega (arith, div-add-mod t c)) h
        g le
  | no gt ↦
      no_multiple_above c (s / c) (t / c) (s % c) s t (div-add-mod s c)
        (omega (arith, div-add-mod t c)) h g (omega arith)
]

-- The same, for two numbers of one window in any order.
pub slots_distinct :
    (c low s t : ℕ) → low ≤ s → s < low + c → low ≤ t → t < low + c → s ≢ t → s % c ≢ t % c
slots_distinct c low s t h1 h2 h3 h4 ne e = elim (dec_le s t) [
  | yes le ↦ mod_distinct c s t (omega arith) (omega arith) e
  | no gt ↦ mod_distinct c t s (omega arith) (omega arith) (omega arith)
]

-- A slot that is left belongs to the next window's last number.
pub mod-add_self : (c s : ℕ) → (s + c) % c ≡ s % c
mod-add_self c s = grind arith
