-- ===== src/Cli/Text.antt =====
-- What the two option parsers (src/client/client_main.cpp, src/server/server_main.cpp) do with a text.
use swiftlink.Common.{
  ℕ, ◌+◌, ◌-◌, ◌*◌, ◌^◌, ◌<◌, ◌≤◌, ◌≡◌, arith, Bool, false, ◌&&◌, Option, none, some, List, [], ◌∷◌,
  leb, ltb, ◌==◌, if◌then◌else◌,
}

-- a decimal digit
abbrev is_digit : ℕ → Bool
is_digit c = leb b'0' c && leb c b'9'

unfoldable pub read_digits : ℕ → List ℕ → Option ℕ
read_digits value [] = if ltb value (2 ^ 64) then some value else none
read_digits value (c ∷ rest) =
    let later = read_digits (value * 10 + (c - b'0')) rest in if is_digit c then later else none

-- std::from_chars of an unsigned long long that takes the whole text: digits, one or more, and a value
-- that fits
unfoldable pub parse_unsigned : List ℕ → Option ℕ
parse_unsigned [] = none
parse_unsigned (c ∷ rest) = read_digits 0 (c ∷ rest)

-- the part before the first `=`, and the part behind it, empty if there is none
unfoldable pub option_name : List ℕ → List ℕ
option_name [] = []
option_name (c ∷ rest) = if c == b'=' then [] else c ∷ option_name rest

unfoldable pub option_value : List ℕ → List ℕ
option_value [] = []
option_value (c ∷ rest) = if c == b'=' then rest else option_value rest

unfoldable pub is_option : List ℕ → Bool
is_option (a ∷ b ∷ rest) = a == b'-' && b == b'-'
is_option short = false

-- a number that is read and tested against bounds
unfoldable pub parse_within : ℕ → ℕ → List ℕ → Option ℕ
parse_within low high text = elim (parse_unsigned text) [
  | none ↦ none
  | some n ↦ if leb low n && leb n high then some n else none
]

read_digits-lt : (value n : ℕ) (text : List ℕ) → read_digits value text ≡ some n → n < 2 ^ 64
unfolding read_digits
read_digits-lt value n [] h = ground (arith, h)
read_digits-lt value n (c ∷ rest) h =
    let later = read_digits-lt (value * 10 + (c - b'0')) n rest in ground (arith, h, later)

pub parse_unsigned-lt : (n : ℕ) (text : List ℕ) → parse_unsigned text ≡ some n → n < 2 ^ 64
unfolding parse_unsigned
parse_unsigned-lt n [] h = absurd (ground arith)
parse_unsigned-lt n (c ∷ rest) h = read_digits-lt 0 n (c ∷ rest) h

pub parse_within_bounds :
    (low high n : ℕ) (text : List ℕ)
    → parse_within low high text ≡ some n
    → (low ≤ n) × (n ≤ high) × (n < 2 ^ 64)
unfolding parse_within
parse_within_bounds low high n text h =
    let narrow = parse_unsigned-lt n text in ground (arith, h, narrow)
