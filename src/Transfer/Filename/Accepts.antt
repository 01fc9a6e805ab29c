-- ===== src/Transfer/Filename/Accepts.antt =====
-- Which names `sanitize_filename` of src/transfer/filename.cpp accepts, among them the names of the
-- server's own temporary files, and where `join_path` puts a file of a safe name.
use swiftlink.Common.{
  ℕ, ◌+◌, ◌≡◌, ◌≢◌, refl, ap, ◌∙◌, arith, true, false, List, [], ◌∷◌, ◌++◌, none, some, ltb, length,
  length-append, drop, All,
}
use swiftlink.Transfer.Filename.{
  accepted, max_filename_length, is_permitted, is_control, has_control, find_last_separator,
  base_name, check_characters, is_empty, check_base, sanitize_filename,
}
use swiftlink.Transfer.Filename.Safety.{IsSafeName}

abbrev pub IsNameByte : ℕ → Type 0
IsNameByte c = (is_permitted c ≡ true) × (c ≢ b'/')

no_separator : (cs : List ℕ) → All IsNameByte cs → find_last_separator cs ≡ none
unfolding find_last_separator
no_separator [] h = refl
no_separator (c ∷ cs) h = rw (no_separator cs h.1) (ground (arith, h))

separator_at :
    (dir cs : List ℕ)
    → All IsNameByte cs
    → find_last_separator (dir ++ (b'/' ∷ cs)) ≡ some (length dir)
unfolding find_last_separator
separator_at [] cs h = rw (no_separator cs h)
separator_at (d ∷ dir) cs h = rw (separator_at dir cs h) (ap some (omega arith))

pub base_name-bare : (cs : List ℕ) → All IsNameByte cs → base_name cs ≡ cs
unfolding base_name
base_name-bare cs h = rw (no_separator cs h, base_name)

pub base_name-path : (dir cs : List ℕ) → All IsNameByte cs → base_name (dir ++ (b'/' ∷ cs)) ≡ cs
unfolding base_name
base_name-path dir cs h =
    rw (separator_at dir cs h, base_name)
      (ap (λ d. drop d (dir ++ (b'/' ∷ cs))) longer ∙ behind dir)
  where
    longer : length dir + 1 ≡ length (dir ++ (b'/' ∷ []))
    longer = omega (arith, length-append dir (b'/' ∷ []))

    behind : (d : List ℕ) → drop (length (d ++ (b'/' ∷ []))) (d ++ (b'/' ∷ cs)) ≡ cs
    behind [] = refl
    behind (x ∷ d) = behind d

-- No permitted byte is a control byte.
permitted-not-control : (c : ℕ) → is_permitted c ≡ true → is_control c ≡ false
unfolding is_permitted is_control
permitted-not-control c h = ground (arith, h)

has_control-name : (cs : List ℕ) → All IsNameByte cs → has_control cs ≡ false
unfolding has_control
has_control-name [] h = refl
has_control-name (c ∷ cs) h = rw (permitted-not-control c h.0.0) (has_control-name cs h.1)

has_control-append :
    (dir cs : List ℕ)
    → has_control dir ≡ false
    → has_control cs ≡ false
    → has_control (dir ++ cs) ≡ false
unfolding has_control
has_control-append [] cs h g = g
has_control-append (d ∷ dir) cs h g = ground (arith, h, has_control-append dir cs)

check_characters-name : (cs : List ℕ) → All IsNameByte cs → check_characters cs ≡ accepted
unfolding check_characters
check_characters-name [] h = refl
check_characters-name (c ∷ cs) h = ground (arith, h, check_characters-name cs h.1)

check_base-name : (cs : List ℕ) → IsSafeName cs → check_base cs ≡ accepted
unfolding check_base
check_base-name [] s = absurd (omega (arith, s.not_empty))
check_base-name (c ∷ cs) s =
    let short : ltb max_filename_length (length (c ∷ cs)) ≡ false = ground (arith, s.not_long) in
    rw (s.not_dots, short, s.no_dash) (check_characters-name (c ∷ cs) s.permitted)

-- Every safe name is accepted as it is, and behind any directories that hold no control byte it is
-- what remains.
pub sanitize_filename-accepts :
    (dir name : List ℕ)
    → IsSafeName name
    → has_control dir ≡ false
    → (sanitize_filename name ≡ (accepted, name))
      × (sanitize_filename (dir ++ (b'/' ∷ name)) ≡ (accepted, name))
unfolding sanitize_filename
sanitize_filename-accepts dir name s clean = (bare name s, behind)
  where
    bare : (cs : List ℕ) → IsSafeName cs → sanitize_filename cs ≡ (accepted, cs)
    bare [] t = absurd (omega (arith, t.not_empty))
    bare (c ∷ cs) t = rw (
      has_control-name (c ∷ cs) t.permitted,
      base_name-bare (c ∷ cs) t.permitted,
      check_base-name (c ∷ cs) t,
    )

    some_bytes : (d cs : List ℕ) → is_empty (d ++ (b'/' ∷ cs)) ≡ false
    some_bytes [] cs = refl
    some_bytes (x ∷ d) cs = refl

    slash : has_control (b'/' ∷ name) ≡ false
    slash = unfold has_control is_control in has_control-name name s.permitted

    behind : sanitize_filename (dir ++ (b'/' ∷ name)) ≡ (accepted, name)
    behind = rw (
      some_bytes dir name,
      has_control-append dir (b'/' ∷ name) clean slash,
      base_name-path dir name s.permitted,
      check_base-name name s,
    )
