-- ===== src/Transfer/Filename/Placement.antt =====
-- Where files land: src/transfer/filename.cpp and `on_start` of src/transfer/receiver_session.cpp.
use swiftlink.Common.{
  ℕ, zero, suc, ◌/◌, ◌%◌, ◌<◌, ◌≡◌, ◌⊎◌, refl, ap, ◌∙◌, arith, inl, inr, true, List, [], ◌∷◌, ◌++◌,
  Bool-cases, All, All-append, append_assoc,
}
use swiftlink.Transfer.Filename.{
  accepted, has_control, is_permitted, base_name, sanitize_filename, ends_with_separator, join_path,
  hex_digit, hex_digits, codes, temp_name,
}
use swiftlink.Transfer.Filename.Safety.{IsSafeName}
use swiftlink.Transfer.Filename.Accepts.{
  IsNameByte, base_name-bare, base_name-path, sanitize_filename-accepts,
}

-- `path` is `name` directly inside `directory`.
abbrev pub IsInside : List ℕ → List ℕ → List ℕ → Type 0
IsInside directory name path =
    (path ≡ directory ++ name) × (ends_with_separator directory ≡ true)
    ⊎ ((path ≡ directory ++ (b'/' ∷ name)) ⊎ ((directory ≡ []) × (path ≡ name)))

split_end :
    (d : List ℕ) → ends_with_separator d ≡ true → (front : List ℕ) × (d ≡ front ++ (b'/' ∷ []))
split_end [] h = cc
split_end (c ∷ []) h = ([], ap (λ x. x ∷ []) (ground (arith, h)))
split_end (c ∷ e ∷ d) h = let (front, same) = split_end (e ∷ d) h in (c ∷ front, ap (◌∷◌ c) same)

-- A safe name joined to a directory gives a path straight inside that directory: the last component of
-- the path is the name, whatever the directory.
pub join_path-IsInside :
    (directory name : List ℕ)
    → IsSafeName name
    → IsInside directory name (join_path directory name)
      × (base_name (join_path directory name) ≡ name)
unfolding join_path
join_path-IsInside [] name s = (inr (inr (refl, refl)), base_name-bare name s.permitted)
join_path-IsInside (c ∷ d) name s = elim (Bool-cases (ends_with_separator (c ∷ d))) [
  | inl slash ↦
      let (front, e) = split_end (c ∷ d) slash in
      rw (slash, join_path)
        (
          inl (refl, refl),
          ap (λ x. base_name (x ++ name)) e
              ∙ ap base_name (append_assoc front (b'/' ∷ []) name)
              ∙ base_name-path front name s.permitted,
        )
  | inr plain ↦ rw (plain, join_path) (inr (inl refl), base_name-path (c ∷ d) name s.permitted)
]

hex_digit-IsNameByte : (d : ℕ) → d < 16 → IsNameByte (hex_digit d)
unfolding is_permitted
hex_digit-IsNameByte d h = ground arith

hex_digits-names : (n v : ℕ) → All IsNameByte (hex_digits n v)
hex_digits-names zero v = tt
hex_digits-names (suc n) v =
    All-append IsNameByte (hex_digits n (v / 16)) (hex_digit (v % 16) ∷ [])
      (hex_digits-names n (v / 16)) (hex_digit-IsNameByte (v % 16) (omega arith), tt)

temp_name-IsSafeName : (session_id : ℕ) → IsSafeName (temp_name session_id)
unfolding temp_name
temp_name-IsSafeName session_id = record {
  not_empty = omega arith;
  not_long = omega arith;
  not_dots = refl;
  no_dash = refl;
  permitted =
      All-append IsNameByte (codes ".swiftlink-") (hex_digits 16 session_id ++ codes ".partial")
        (unfold is_permitted in ground arith)
        (All-append IsNameByte (hex_digits 16 session_id) (codes ".partial")
          (hex_digits-names 16 session_id) (unfold is_permitted in ground arith));
}

-- The sanitiser accepts the name of the temporary file of every session, unchanged, and joined to a
-- directory it is a path straight inside that directory.
pub temp_name-accepted :
    (session_id : ℕ) (directory : List ℕ)
    → (sanitize_filename (temp_name session_id) ≡ (accepted, temp_name session_id))
      × IsInside directory (temp_name session_id) (join_path directory (temp_name session_id))
temp_name-accepted session_id directory =
    let safe = temp_name-IsSafeName session_id in
    (
      (sanitize_filename-accepts [] (temp_name session_id) safe (unfold has_control in refl)).0,
      (join_path-IsInside directory (temp_name session_id) safe).0,
    )
