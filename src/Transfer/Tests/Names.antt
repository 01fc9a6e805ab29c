-- ===== src/Transfer/Tests/Names.antt =====
-- File names and chunks at concrete inputs.
use swiftlink.Common.{
  ◌/◌, ℕ, ◌+◌, ◌*◌, ◌<◌, ◌≤◌, ◌≡◌, ◌↔◌, ◌⊎◌, min, refl, arith, false, ◌∷◌, ◌++◌, none, some,
}
use swiftlink.Transfer.Filename.{
  sanitize_filename, accepted, codes, temp_name, join_path, base_name, has_control, is_control,
  find_last_separator, check_base, check_characters, is_permitted,
}
use swiftlink.Transfer.Filename.Safety.{IsSafeName, IsLastComponent, sanitize_filename-IsSafeName}
use swiftlink.Transfer.Filename.Accepts.{sanitize_filename-accepts}
use swiftlink.Transfer.Filename.Placement.{IsInside, temp_name-accepted}
use swiftlink.Transfer.Chunks.{chunk_count, chunk_offset, chunk_want, chunk_count-none, chunks_tile}

sanitize_traversal : sanitize_filename (codes "../../etc/passwd") ≡ (accepted, codes "passwd")
unfolding sanitize_filename has_control is_control base_name find_last_separator check_base
    check_characters is_permitted
sanitize_traversal = refl

temp_name_run : temp_name 0xabc ≡ codes ".swiftlink-0000000000000abc.partial"
unfolding temp_name
temp_name_run = refl

sanitize_filename-IsSafeName_example :
    IsSafeName (codes "passwd") × IsLastComponent (codes "passwd") (codes "../../etc/passwd")
sanitize_filename-IsSafeName_example =
    sanitize_filename-IsSafeName (codes "../../etc/passwd") (codes "passwd") sanitize_traversal

passwd_safe : IsSafeName (codes "passwd")
passwd_safe =
    (sanitize_filename-IsSafeName (codes "../../etc/passwd") (codes "passwd") sanitize_traversal).0

no_control : has_control (codes "etc") ≡ false
unfolding has_control is_control
no_control = refl

sanitize_filename-accepts_example :
    (sanitize_filename (codes "passwd") ≡ (accepted, codes "passwd"))
    × (sanitize_filename (codes "etc" ++ (b'/' ∷ codes "passwd")) ≡ (accepted, codes "passwd"))
sanitize_filename-accepts_example =
    sanitize_filename-accepts (codes "etc") (codes "passwd") passwd_safe no_control

temp_name-accepted_example :
    (sanitize_filename (temp_name 7) ≡ (accepted, temp_name 7))
    × IsInside (codes "out") (temp_name 7) (join_path (codes "out") (temp_name 7))
temp_name-accepted_example = temp_name-accepted 7 (codes "out")

three_chunks : chunk_count 3000 1200 ≡ some 3
unfolding chunk_count
three_chunks = refl

chunks_tile_example :
    ((chunk_offset 2 1200 ≡ 2 * 1200)
      × (0 < chunk_want 3000 2 1200)
      × (chunk_want 3000 2 1200 ≤ 1200)
      × (chunk_offset 2 1200 + chunk_want 3000 2 1200 ≡ min ((2 + 1) * 1200) 3000))
    × ((2500 / 1200 < 3)
        × (chunk_offset (2500 / 1200) 1200 ≤ 2500)
        × (2500 < chunk_offset (2500 / 1200) 1200 + chunk_want 3000 (2500 / 1200) 1200))
chunks_tile_example =
    chunks_tile 3000 1200 3 2 2500 (omega arith) three_chunks (omega arith) (omega arith)

chunk_count-none_example :
    (chunk_count 5000000000 1 ≡ none) ↔ ((◌≡◌ {A = ℕ} 1 0) ⊎ (0xFFFFFFFF * 1 < 5000000000))
chunk_count-none_example = chunk_count-none 5000000000 1 (omega arith)
