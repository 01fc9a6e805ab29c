-- ===== src/Crypto/Tests.antt =====
-- Digests of concrete messages.
use swiftlink.Common.{◌≡◌, refl, [], ◌∷◌}
use swiftlink.Crypto.Sha256.{to_hex, new_hasher, update, finish, sha256, consume, absorb, compress}
use swiftlink.Crypto.Sha256.Chunking.{update_all, finish-update_all}

-- the published digest of "abc"
sha256_abc :
    sha256 (97 ∷ 98 ∷ 99 ∷ [])
    ≡ 0xba ∷ 0x78 ∷ 0x16 ∷ 0xbf ∷ 0x8f ∷ 0x01 ∷ 0xcf ∷ 0xea ∷ 0x41 ∷ 0x41 ∷ 0x40 ∷ 0xde ∷ 0x5d
      ∷ 0xae ∷ 0x22 ∷ 0x23 ∷ 0xb0 ∷ 0x03 ∷ 0x61 ∷ 0xa3 ∷ 0x96 ∷ 0x17 ∷ 0x7a ∷ 0x9c ∷ 0xb4 ∷ 0x10
      ∷ 0xff ∷ 0x61 ∷ 0xf2 ∷ 0x00 ∷ 0x15 ∷ 0xad ∷ []
unfolding sha256 absorb compress update consume finish
sha256_abc = refl

finish-update_all_example :
    finish (update_all new_hasher ((97 ∷ 98 ∷ []) ∷ [] ∷ (99 ∷ []) ∷ []))
    ≡ sha256 (97 ∷ 98 ∷ 99 ∷ [])
finish-update_all_example = finish-update_all ((97 ∷ 98 ∷ []) ∷ [] ∷ (99 ∷ []) ∷ [])

to_hex_run : to_hex (0 ∷ 159 ∷ []) ≡ b'0' ∷ b'0' ∷ b'9' ∷ b'f' ∷ []
unfolding to_hex
to_hex_run = refl
