-- ===== src/Protocol/Crc.antt =====
-- src/protocol/crc32.cpp. A uint32 is a number below 2 ^ 32 and a byte one below 256; every
-- operation here stays in range, so nothing wraps.
pub mod Detect
pub mod Excluding
use swiftlink.Common.{
  ℕ, zero, suc, ◌+◌, ◌*◌, ◌/◌, ◌%◌, ◌≤◌, ◌<◌, bit_and, bit_xor, Bool, true, false, ◌&&◌, List, [],
  ◌∷◌, ◌≡◌, refl, arith, ltb, leb, ◌==◌, if◌then◌else◌, get_or, not,
}

abbrev pub polynomial : ℕ
polynomial = 0xEDB88320

-- `(value & 1U) != 0U ? (value >> 1) ^ kPolynomial : (value >> 1)`
unfoldable pub table_bit : ℕ → ℕ
table_bit value = if not (value % 2 == 0) then bit_xor (value / 2) polynomial else value / 2

-- the loop over `bit`, with the rounds left
unfoldable pub table_bits : ℕ → ℕ → ℕ
unfolding table_bit
table_bits zero value = value
table_bits (suc bits) value = table_bits bits (table_bit value)

-- the loop over `i`, with the entries left
table_from : ℕ → ℕ → List ℕ
unfolding table_bits
table_from zero i = []
table_from (suc left) i = table_bits 8 i ∷ table_from left (i + 1)

unfoldable pub make_table : List ℕ
unfolding table_from
make_table = table_from 256 0

unfoldable pub update : ℕ → ℕ → ℕ
unfolding make_table
update crc b = let index = bit_xor crc b % 256 in bit_xor (get_or make_table index 0) (crc / 256)

-- the loop of `crc32`
unfoldable pub crc_bytes : ℕ → List ℕ → ℕ
unfolding update
crc_bytes crc [] = crc
crc_bytes crc (b ∷ data') = crc_bytes (update crc b) data'

unfoldable pub crc32 : List ℕ → ℕ
unfolding crc_bytes
crc32 data' = bit_xor (crc_bytes 0xFFFFFFFF data') 0xFFFFFFFF

abbrev pub in_checksum : ℕ → ℕ → Bool
in_checksum checksum_offset i = leb checksum_offset i && ltb i (checksum_offset + 4)

-- the loop of `crc32_excluding_checksum`; `i` is the index of the head of the list
unfoldable pub crc_excluding : ℕ → ℕ → ℕ → List ℕ → ℕ
unfolding update
crc_excluding checksum_offset i crc [] = crc
crc_excluding checksum_offset i crc (b ∷ packet) =
    crc_excluding checksum_offset (i + 1)
      (update crc (if in_checksum checksum_offset i then 0 else b)) packet

unfoldable pub crc32_excluding_checksum : List ℕ → ℕ → ℕ
unfolding crc_excluding
crc32_excluding_checksum packet checksum_offset =
    bit_xor (crc_excluding checksum_offset 0 0xFFFFFFFF packet) 0xFFFFFFFF
