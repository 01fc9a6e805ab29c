-- ===== src/Transfer/Filename/Safety.antt =====
-- What a name that `sanitize_filename` of src/transfer/filename.cpp lets through looks like, and where
-- a file of that name lands.
use swiftlink.Common.{
  ℕ, suc, ◌+◌, ◌≤◌, ◌<◌, ◌≡◌, ◌≢◌, ◌⊎◌, refl, sym, arith, inl, inr, true, false, List, [], ◌∷◌,
  ◌++◌, none, some, Option-cases, ◌==◌, if◌then◌else◌, length, take, take-append-drop, All,
}
use swiftlink.Transfer.Filename.{
  FilenameRejection, accepted, max_filename_length, is_permitted, find_last_separator, base_name,
  check_characters, is_dots, starts_with_dash, check_base, when_accepted, sanitize_filename,
  ends_with_separator,
}

-- A bare file name that no directory can be left by, and no C string or option parser misread.
pub record IsSafeName (name : List ℕ) : Type 0 where
  pub not_empty : 0 < length name
  pub not_long : length name ≤ max_filename_length
  pub not_dots : is_dots name ≡ false
  pub no_dash : starts_with_dash name ≡ false
  pub permitted : All (λ c. (is_permitted c ≡ true) × (c ≢ b'/')) name

-- `name` is what follows the last separator of `raw`, or all of it.
abbrev pub IsLastComponent : List ℕ → List ℕ → Type 0
IsLastComponent name raw =
    (dir : List ℕ) × (raw ≡ dir ++ name) × ((dir ≡ []) ⊎ (ends_with_separator dir ≡ true))

check_characters-permitted :
    (cs : List ℕ)
    → check_characters cs ≡ accepted
    → All (λ c. (is_permitted c ≡ true) × (c ≢ b'/')) cs
unfolding check_characters
check_characters-permitted [] e = tt
check_characters-permitted (c ∷ cs) e = ground (arith, e, check_characters-permitted cs)

check_base-IsSafeName : (base : List ℕ) → check_base base ≡ accepted → IsSafeName base
unfolding check_base
check_base-IsSafeName [] e = absurd (ground (arith, e))
check_base-IsSafeName (c ∷ cs) e = ground (arith, e, check_characters-permitted (c ∷ cs))

-- The byte at the index that `find_last_separator` gives is a separator: what stands before the base
-- name ends with it.
ends-find :
    (raw : List ℕ) (i : ℕ)
    → find_last_separator raw ≡ some i
    → ends_with_separator (take (i + 1) raw) ≡ true
unfolding find_last_separator
ends-find [] i e = cc
ends-find (c ∷ cs) i e = elim (Option-cases (find_last_separator cs)) [
  | inl missing ↦ here (rw missing at e)
  | inr (j, found) ↦ later j (rw found at e) (ends-find cs j found)
]
  where
    here :
        (if c == b'/' then some 0 else none) ≡ some i
        → ends_with_separator (take (i + 1) (c ∷ cs)) ≡ true
    here e' = let first : i ≡ 0 = ground (arith, e') in rw first (ground (arith, e'))

    later :
        (j : ℕ)
        → some (j + 1) ≡ some i
        → ends_with_separator (take (j + 1) cs) ≡ true
        → ends_with_separator (take (i + 1) (c ∷ cs)) ≡ true
    later j e' deep =
        let at : i + 1 ≡ suc (j + 1) = ground (arith, e') in rw at (cons_end (take (j + 1) cs) deep)
      where
        cons_end :
            (ds : List ℕ) → ends_with_separator ds ≡ true → ends_with_separator (c ∷ ds) ≡ true
        cons_end [] h = cc
        cons_end (d ∷ ds) h = h

base_name-IsLastComponent : (raw : List ℕ) → IsLastComponent (base_name raw) raw
unfolding base_name
base_name-IsLastComponent raw = elim (Option-cases (find_last_separator raw)) [
  | inl missing ↦ rw (missing, base_name) ([], refl, inl refl)
  | inr (i, found) ↦
      rw (found, base_name)
        (take (i + 1) raw, sym (take-append-drop (i + 1) raw), inr (ends-find raw i found))
]

accepted_inversion :
    (r : FilenameRejection) (base out : List ℕ)
    → when_accepted r base ≡ (accepted, out)
    → (r ≡ accepted) × (out ≡ base)
accepted_inversion accepted base out e = (refl, ground (arith, e))
accepted_inversion other base out e = absurd (ground (arith, e))

-- A name that is accepted is the last path component of what the peer sent. It has 1 to 200
-- characters, all from the permitted set and none a separator, is neither "." nor "..", and does not
-- begin with a dash.
pub sanitize_filename-IsSafeName :
    (raw out : List ℕ)
    → sanitize_filename raw ≡ (accepted, out)
    → IsSafeName out × IsLastComponent out raw
unfolding sanitize_filename
sanitize_filename-IsSafeName raw out e =
    let (ok, is_base) =
      accepted_inversion (check_base (base_name raw)) (base_name raw) out (ground (arith, e)) in
    rw is_base (check_base-IsSafeName (base_name raw) ok, base_name-IsLastComponent raw)
