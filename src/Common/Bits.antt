-- ===== src/Common/Bits.antt =====
-- Laws of `bit_or` and `bit_xor` at variables. The native operations compute at numerals only; each
-- law goes by the lowest binary digit, with a count `n` of digits that bounds the first operand.
use Prim.Native.Nat.{
  ℕ, zero, suc, ◌+◌, ◌*◌, ◌/◌, ◌%◌, ◌^◌, ◌≤◌, ◌<◌, max, bit_or, bit_xor, digits, differ, bitwise,
  bit_or-bitwise, bit_xor-bitwise,
}
use mathlib.Core.Path.{◌≡◌, refl, ap, ap₂, sym, ◌∙◌}
use mathlib.Core.Bool.{Bool, true, ◌&&◌}
use native.Mathlib.Nat.{pow-suc}
use native.Mathlib.Omega.{arith}

-- More fuel than digits changes nothing.
more_fuel :
    (z : ℕ → ℕ) (f : ℕ → ℕ → ℕ) (n m a b : ℕ) → a ≤ n → a ≤ m → digits z f n a b ≡ digits z f m a b
more_fuel z f zero zero a b p q = refl
more_fuel z f zero (suc m) zero b p q = refl
more_fuel z f zero (suc m) (suc a) b p q = absurd (omega arith)
more_fuel z f (suc n) zero zero b p q = refl
more_fuel z f (suc n) zero (suc a) b p q = absurd (omega arith)
more_fuel z f (suc n) (suc m) zero b p q = refl
more_fuel z f (suc n) (suc m) (suc a) b p q =
    omega (arith, more_fuel z f n m (suc a / 2) (b / 2) (omega arith) (omega arith))

lowest_digit :
    (rest : ℕ → ℕ) (on_digits : ℕ → ℕ → ℕ) (m n : ℕ)
    → bitwise rest on_digits (suc m) n
      ≡ bitwise rest on_digits (suc m / 2) (n / 2) * 2 + on_digits (suc m % 2) (n % 2)
lowest_digit rest on_digits m n =
    let enough =
      more_fuel rest on_digits m (suc m / 2) (suc m / 2) (n / 2) (omega arith) (omega arith) in
    omega (arith, enough)

bit_or_digit : (a b : ℕ) → bit_or a b ≡ bit_or (a / 2) (b / 2) * 2 + max (a % 2) (b % 2)
bit_or_digit zero b = simp bit_or-bitwise (omega arith)
bit_or_digit (suc a) b = simp bit_or-bitwise (lowest_digit (λ y. y) max a b)

differ_digits : (x y : ℕ) → x < 2 → y < 2 → differ x y ≡ (x + y) % 2
differ_digits zero y p q = omega arith
differ_digits (suc zero) zero p q = refl
differ_digits (suc zero) (suc zero) p q = refl
differ_digits (suc zero) (suc (suc y)) p q = absurd (omega arith)
differ_digits (suc (suc x)) y p q = absurd (omega arith)

bit_xor_digit : (a b : ℕ) → bit_xor a b ≡ bit_xor (a / 2) (b / 2) * 2 + (a + b) % 2
bit_xor_digit zero b = simp bit_xor-bitwise (omega arith)
bit_xor_digit (suc a) b = simp bit_xor-bitwise (
    omega (
      arith,
      lowest_digit (λ y. y) differ a b,
      differ_digits (suc a % 2) (b % 2) (omega arith) (omega arith),
    ))

bit_or-zero_upto : (n a : ℕ) → a ≤ n → bit_or a 0 ≡ a
bit_or-zero_upto n zero h = refl
bit_or-zero_upto zero (suc a) h = absurd (omega arith)
bit_or-zero_upto (suc n) (suc a) h =
    omega (arith, bit_or_digit (suc a) 0, bit_or-zero_upto n (suc a / 2) (omega arith))

-- An `or` of numbers whose digits do not overlap is their sum.
pub bit_or-add : (k q b : ℕ) → b < 2 ^ k → bit_or (q * 2 ^ k) b ≡ q * 2 ^ k + b
bit_or-add zero q b h = ground (arith, bit_or-zero_upto q q)
bit_or-add (suc k) q b h = ground (
  arith,
  bit_or_digit (q * 2 ^ suc k) b,
  pow-suc 2 k,
  ap (λ (t : ℕ). q * t) (pow-suc 2 k),
  bit_or-add k q (b / 2) (omega (arith, pow-suc 2 k)),
)

pub bit_xor-zero_left : (b : ℕ) → bit_xor 0 b ≡ b
bit_xor-zero_left b = bit_xor-bitwise 0 b

xor-zero_upto : (n a : ℕ) → a ≤ n → bit_xor a 0 ≡ a
xor-zero_upto n zero h = refl
xor-zero_upto zero (suc a) h = absurd (omega arith)
xor-zero_upto (suc n) (suc a) h =
    omega (arith, bit_xor_digit (suc a) 0, xor-zero_upto n (suc a / 2) (omega arith))

pub bit_xor-zero : (a : ℕ) → bit_xor a 0 ≡ a
bit_xor-zero a = xor-zero_upto a a (omega arith)

xor_comm_upto : (n a b : ℕ) → a ≤ n → bit_xor a b ≡ bit_xor b a
xor_comm_upto n zero b h = bit_xor-zero_left b ∙ sym (bit_xor-zero b)
xor_comm_upto zero (suc a) b h = absurd (omega arith)
xor_comm_upto (suc n) (suc a) b h = omega (
  arith,
  bit_xor_digit (suc a) b,
  bit_xor_digit b (suc a),
  xor_comm_upto n (suc a / 2) (b / 2) (omega arith),
)

pub bit_xor_comm : (a b : ℕ) → bit_xor a b ≡ bit_xor b a
bit_xor_comm a b = xor_comm_upto a a b (omega arith)

half-xor : (a b : ℕ) → bit_xor a b / 2 ≡ bit_xor (a / 2) (b / 2)
half-xor a b = omega (arith, bit_xor_digit a b)

xor_cancel_upto : (n a b : ℕ) → a ≤ n → bit_xor (bit_xor b a) a ≡ b
xor_cancel_upto n zero b h = bit_xor-zero (bit_xor b 0) ∙ bit_xor-zero b
xor_cancel_upto zero (suc a) b h = absurd (omega arith)
xor_cancel_upto (suc n) (suc a) b h = omega (
  arith,
  bit_xor_digit (bit_xor b (suc a)) (suc a),
  bit_xor_digit b (suc a),
  ap (λ (t : ℕ). bit_xor t (suc a / 2)) (half-xor b (suc a)),
  xor_cancel_upto n (suc a / 2) (b / 2) (omega arith),
)

-- A second `xor` with the same number undoes the first.
pub bit_xor_cancel : (a b : ℕ) → bit_xor (bit_xor b a) a ≡ b
bit_xor_cancel a b = xor_cancel_upto a a b (omega arith)

pub bit_xor_cancel_left : (a b : ℕ) → bit_xor (bit_xor a b) a ≡ b
bit_xor_cancel_left a b = ap (λ t. bit_xor t a) (bit_xor_comm a b) ∙ bit_xor_cancel a b

-- `xor` keeps to the width of its operands, and splits into high and low digits.
pub bit_xor-lt : (k a b : ℕ) → a < 2 ^ k → b < 2 ^ k → bit_xor a b < 2 ^ k
bit_xor-lt zero a b p q = ground (arith, bit_xor-zero_left b)
bit_xor-lt (suc k) a b p q = omega (
  arith,
  pow-suc 2 k,
  bit_xor_digit a b,
  bit_xor-lt k (a / 2) (b / 2) (omega (arith, pow-suc 2 k)) (omega (arith, pow-suc 2 k)),
)

pub bit_xor_fields :
    (k q s r t : ℕ)
    → r < 2 ^ k
    → t < 2 ^ k
    → bit_xor (q * 2 ^ k + r) (s * 2 ^ k + t) ≡ bit_xor q s * 2 ^ k + bit_xor r t
bit_xor_fields zero q s r t h g =
    let r0 : r ≡ 0 = omega arith in
    let t0 : t ≡ 0 = omega arith in
    let q1 : q * 1 + 0 ≡ q = omega arith in
    let s1 : s * 1 + 0 ≡ s = omega arith in rw (r0, t0, q1, s1) (omega (arith, bit_xor-zero 0))
bit_xor_fields (suc k) q s r t h g = omega (
  arith,
  pow-suc 2 k,
  ap (λ (x : ℕ). q * x) (pow-suc 2 k),
  ap (λ (x : ℕ). s * x) (pow-suc 2 k),
  ap (λ (x : ℕ). bit_xor q s * x) (pow-suc 2 k),
  bit_xor_digit (q * 2 ^ suc k + r) (s * 2 ^ suc k + t),
  bit_xor_digit r t,
  ap₂ bit_xor (halved q r) (halved s t),
  bit_xor_fields k q s (r / 2) (t / 2) (omega (arith, pow-suc 2 k)) (omega (arith, pow-suc 2 k)),
)
  where
    halved : (x y : ℕ) → (x * 2 ^ suc k + y) / 2 ≡ x * 2 ^ k + y / 2
    halved x y = omega (arith, ap (λ (z : ℕ). x * z) (pow-suc 2 k))

-- A low operand changes the low digits only.
pub bit_xor_low :
    (k q r t : ℕ) → r < 2 ^ k → t < 2 ^ k → bit_xor (q * 2 ^ k + r) t ≡ q * 2 ^ k + bit_xor r t
bit_xor_low k q r t h g =
    let high : 0 * 2 ^ k + t ≡ t = omega arith in
    ap (bit_xor (q * 2 ^ k + r)) (sym high)
    ∙ bit_xor_fields k q 0 r t h g
    ∙ ap (λ x. x * 2 ^ k + bit_xor r t) (bit_xor-zero q)

-- A test of every number below a numeral, by computation.
unfoldable pub all_below : ℕ → (ℕ → Bool) → Bool
all_below zero test = true
all_below (suc top) test = test top && all_below top test

pub all_below_sound :
    (top : ℕ) (test : ℕ → Bool) (k : ℕ) → all_below top test ≡ true → k < top → test k ≡ true
unfolding all_below
all_below_sound zero test k passed below = absurd (omega (arith, below))
all_below_sound (suc top) test k passed below =
    let earlier = all_below_sound top test k in ground arith
