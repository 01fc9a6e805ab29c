-- ===== src/Transfer/Filename.antt =====
-- src/transfer/filename.cpp: names from a peer. A std::string is the list of its bytes.
pub mod Safety
pub mod Accepts
pub mod Placement
use Prim.Native.Char.{code}
use Prim.Native.String.{String}
use swiftlink.Common.{
  ℕ, zero, suc, ◌+◌, ◌-◌, ◌/◌, ◌%◌, Bool, true, false, not, ◌&&◌, ◌||◌, List, [], ◌∷◌, ◌++◌, Option,
  none, some, ltb, leb, ◌==◌, if◌then◌else◌, length, drop, ◌≡◌, refl,
}

pub data FilenameRejection : Type 0 where
  accepted empty too_long path_separator dot_dot control_character disallowed_character
        leading_dash :
      FilenameRejection

abbrev pub rejection_to_string : FilenameRejection → String
rejection_to_string accepted = "ok"
rejection_to_string empty = "filename is empty"
rejection_to_string too_long = "filename is too long"
rejection_to_string path_separator = "filename resolves to a path, not a name"
rejection_to_string dot_dot = "filename is '.' or '..'"
rejection_to_string control_character = "filename contains a control character or NUL"
rejection_to_string disallowed_character = "filename contains a character outside the permitted set"
rejection_to_string leading_dash = "filename begins with '-'"

abbrev pub max_filename_length : ℕ
max_filename_length = 200

unfoldable pub is_permitted : ℕ → Bool
is_permitted c =
    leb b'a' c && leb c b'z'
    || (leb b'A' c && leb c b'Z'
        || (leb b'0' c && leb c b'9'
            || (c == b'.'
                || (c == b'-' || (c == b'_' || (c == b'+' || (c == b'@' || c == b'=')))))))

unfoldable pub is_control : ℕ → Bool
is_control c = ltb c 0x20 || c == 0x7F

-- the loop that rejects control bytes
unfoldable pub has_control : List ℕ → Bool
has_control [] = false
has_control (c ∷ cs) = is_control c || has_control cs

-- `raw.find_last_of('/')`
unfoldable pub find_last_separator : List ℕ → Option ℕ
find_last_separator [] = none
find_last_separator (c ∷ cs) = elim (find_last_separator cs) [
  | some i ↦ some (i + 1)
  | none ↦ if c == b'/' then some 0 else none
]

unfoldable pub base_name : List ℕ → List ℕ
base_name raw = elim (find_last_separator raw) [ none ↦ raw | some last ↦ drop (last + 1) raw ]

-- the loop over the characters of the base name
unfoldable pub check_characters : List ℕ → FilenameRejection
check_characters [] = accepted
check_characters (c ∷ cs) =
    let rest = check_characters cs in
    if c == b'/'
    then path_separator
    else if not (is_permitted c)
    then disallowed_character
    else rest

abbrev pub is_dots : List ℕ → Bool
is_dots (a ∷ []) = a == b'.'
is_dots (a ∷ b ∷ []) = a == b'.' && b == b'.'
is_dots other = false

abbrev pub is_empty : List ℕ → Bool
is_empty [] = true
is_empty (c ∷ cs) = false

abbrev pub starts_with_dash : List ℕ → Bool
starts_with_dash [] = false
starts_with_dash (c ∷ cs) = c == b'-'

-- The checks of the base name, in the code's order.
unfoldable pub check_base : List ℕ → FilenameRejection
check_base base =
    if is_empty base
    then path_separator
    else if is_dots base
    then dot_dot
    else if ltb max_filename_length (length base)
    then too_long
    else if starts_with_dash base
    then leading_dash
    else check_characters base

abbrev pub when_accepted : FilenameRejection → List ℕ → FilenameRejection × List ℕ
when_accepted accepted base = (accepted, base)
when_accepted other base = (other, [])

-- The result and the string that goes to `out`.
unfoldable pub sanitize_filename : List ℕ → FilenameRejection × List ℕ
sanitize_filename raw =
    if is_empty raw
    then (empty, [])
    else if has_control raw
    then (control_character, [])
    else when_accepted (check_base (base_name raw)) (base_name raw)

abbrev pub ends_with_separator : List ℕ → Bool
ends_with_separator [] = false
ends_with_separator (c ∷ []) = c == b'/'
ends_with_separator (c ∷ d ∷ cs) = ends_with_separator (d ∷ cs)

unfoldable pub join_path : List ℕ → List ℕ → List ℕ
join_path directory sanitized_name =
    if not (is_empty directory) && not (ends_with_separator directory)
    then directory ++ (b'/' ∷ sanitized_name)
    else directory ++ sanitized_name

-- `std::format("{:0Nx}", v)`, lowercase and padded with zeroes
abbrev pub hex_digit : ℕ → ℕ
hex_digit d = if ltb d 10 then b'0' + d else b'a' + (d - 10)

abbrev pub hex_digits : ℕ → ℕ → List ℕ
hex_digits zero v = []
hex_digits (suc n) v = hex_digits n (v / 16) ++ (hex_digit (v % 16) ∷ [])

abbrev pub codes : String → List ℕ
codes String.[] = []
codes (String.◌∷◌ c s) = code c ∷ codes s

-- The private name of a transfer in progress, `.swiftlink-{:016x}.partial`.
unfoldable pub temp_name : ℕ → List ℕ
temp_name session_id = codes ".swiftlink-" ++ (hex_digits 16 session_id ++ codes ".partial")
