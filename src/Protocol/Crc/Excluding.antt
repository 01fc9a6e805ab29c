-- ===== src/Protocol/Crc/Excluding.antt =====
-- `crc32_excluding_checksum` of src/protocol/crc32.cpp against its description: the CRC-32 of the
-- packet with its checksum field set to zero.
use swiftlink.Common.{ℕ, zero, suc, ◌+◌, ◌≤◌, List, [], ◌∷◌, ◌≡◌, refl, ◌∙◌, arith, true, false}
use swiftlink.Protocol.Crc.{
  update, crc_bytes, crc32, crc_excluding, crc32_excluding_checksum, in_checksum,
}
use swiftlink.Protocol.Wire.{write_be32}

-- Past the checksum field nothing is replaced.
crc_excluding_after :
    (off i c : ℕ) (packet : List ℕ)
    → off + 4 ≤ i
    → crc_excluding off i c packet ≡ crc_bytes c packet
unfolding crc_excluding crc_bytes
crc_excluding_after off i c [] h = refl
crc_excluding_after off i c (b ∷ packet) h =
    let outside : in_checksum off i ≡ false = ground arith in
    rw outside (crc_excluding_after off (i + 1) (update c b) packet (omega arith))

-- Inside it every byte counts as zero.
crc_excluding_inside :
    (off i c b : ℕ) (packet : List ℕ)
    → off ≤ i
    → i + 1 ≤ off + 4
    → crc_excluding off i c (b ∷ packet) ≡ crc_excluding off (i + 1) (update c 0) packet
unfolding crc_excluding
crc_excluding_inside off i c b packet h g =
    let inside : in_checksum off i ≡ true = ground arith in rw inside

crc_excluding_field :
    (off i c : ℕ) (packet : List ℕ)
    → i ≡ off
    → crc_excluding off i c packet ≡ crc_bytes c (write_be32 packet 0 0)
unfolding crc_excluding crc_bytes
crc_excluding_field off i c [] e = refl
crc_excluding_field off i c (a ∷ []) e =
    crc_excluding_inside off i c a [] (omega arith) (omega arith)
crc_excluding_field off i c (a ∷ b ∷ []) e =
    crc_excluding_inside off i c a (b ∷ []) (omega arith) (omega arith)
    ∙ crc_excluding_inside off (i + 1) _ b [] (omega arith) (omega arith)
crc_excluding_field off i c (a ∷ b ∷ d ∷ []) e =
    crc_excluding_inside off i c a (b ∷ d ∷ []) (omega arith) (omega arith)
    ∙ crc_excluding_inside off (i + 1) _ b (d ∷ []) (omega arith) (omega arith)
    ∙ crc_excluding_inside off (i + 1 + 1) _ d [] (omega arith) (omega arith)
crc_excluding_field off i c (a ∷ b ∷ d ∷ f ∷ packet) e =
    crc_excluding_inside off i c a (b ∷ d ∷ f ∷ packet) (omega arith) (omega arith)
    ∙ crc_excluding_inside off (i + 1) _ b (d ∷ f ∷ packet) (omega arith) (omega arith)
    ∙ crc_excluding_inside off (i + 1 + 1) _ d (f ∷ packet) (omega arith) (omega arith)
    ∙ crc_excluding_inside off (i + 1 + 1 + 1) _ f packet (omega arith) (omega arith)
    ∙ crc_excluding_after off (i + 1 + 1 + 1 + 1) _ packet (omega arith)

-- A write further down keeps the first byte.
write_be32-cons :
    (b k v : ℕ) (packet : List ℕ) → write_be32 (b ∷ packet) (suc k) v ≡ b ∷ write_be32 packet k v
write_be32-cons b k v packet =
    let one : suc k + 1 ≡ suc (k + 1) = omega arith in
    let two : suc k + 2 ≡ suc (k + 2) = omega arith in
    let three : suc k + 3 ≡ suc (k + 3) = omega arith in rw (one, two, three)

crc_excluding_upto :
    (k off i c : ℕ) (packet : List ℕ)
    → i + k ≡ off
    → crc_excluding off i c packet ≡ crc_bytes c (write_be32 packet k 0)
unfolding crc_excluding crc_bytes
crc_excluding_upto zero off i c packet e = crc_excluding_field off i c packet (omega arith)
crc_excluding_upto (suc k) off i c [] e = refl
crc_excluding_upto (suc k) off i c (b ∷ packet) e =
    let outside : in_checksum off i ≡ false = ground arith in
    rw (outside, write_be32-cons b k 0 packet)
      (crc_excluding_upto k off (i + 1) (update c b) packet (omega arith))

-- The checksum of a packet is the CRC-32 of the packet with the checksum field zeroed.
pub crc32_excluding_checksum_lem :
    (packet : List ℕ) (off : ℕ)
    → crc32_excluding_checksum packet off ≡ crc32 (write_be32 packet off 0)
unfolding crc32_excluding_checksum crc32
crc32_excluding_checksum_lem packet off =
    rw (crc_excluding_upto off off 0 0xFFFFFFFF packet (omega arith))
