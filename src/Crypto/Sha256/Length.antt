-- ===== src/Crypto/Sha256/Length.antt =====
-- The length of the digest of src/crypto/sha256.cpp.
use swiftlink.Common.{ℕ, ◌≡◌, refl, List, length}
use swiftlink.Crypto.Sha256.{Sha256, finish, sha256, update, new_hasher}

length-finish : (hasher : Sha256) → length (finish hasher) ≡ 32
unfolding finish
length-finish hasher = refl

pub length-sha256 : (bytes : List ℕ) → length (sha256 bytes) ≡ 32
unfolding sha256
length-sha256 bytes = length-finish (update new_hasher bytes)
