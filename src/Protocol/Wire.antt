-- ===== src/Protocol/Wire.antt =====
-- The big-endian primitives of src/protocol/serializer.cpp. A buffer is a list of bytes and a pointer
-- into it an offset; `value >> k` is `value / 2 ^ k` and `& 0xFFU` is `% 256`.
pub mod Laws
use swiftlink.Common.{
  ℕ, zero, suc, ◌+◌, ◌-◌, ◌*◌, ◌/◌, ◌%◌, ◌^◌, bit_or, List, [], ◌∷◌, get_or, set,
}

abbrev pub write_be16 : List ℕ → ℕ → ℕ → List ℕ
write_be16 buffer out value = set (set buffer out (value / 2 ^ 8 % 256)) (out + 1) (value % 256)

abbrev pub write_be32 : List ℕ → ℕ → ℕ → List ℕ
write_be32 buffer out value =
    let b0 = set buffer out (value / 2 ^ 24 % 256) in
    let b1 = set b0 (out + 1) (value / 2 ^ 16 % 256) in
    let b2 = set b1 (out + 2) (value / 2 ^ 8 % 256) in set b2 (out + 3) (value % 256)

-- the loop of `write_be64`, with the rounds left
abbrev pub write_be64_from : ℕ → ℕ → List ℕ → ℕ → ℕ → List ℕ
write_be64_from zero i buffer out value = buffer
write_be64_from (suc left) i buffer out value =
    write_be64_from left (i + 1) (set buffer (out + i) (value / 2 ^ (56 - 8 * i) % 256)) out value

abbrev pub write_be64 : List ℕ → ℕ → ℕ → List ℕ
write_be64 buffer out value = write_be64_from 8 0 buffer out value

abbrev pub read_be8 : List ℕ → ℕ → ℕ
read_be8 buffer at = get_or buffer at 0

abbrev pub read_be16 : List ℕ → ℕ → ℕ
read_be16 buffer at = bit_or (get_or buffer at 0 * 2 ^ 8) (get_or buffer (at + 1) 0)

abbrev pub read_be32 : List ℕ → ℕ → ℕ
read_be32 buffer at =
    bit_or
      (bit_or (bit_or (get_or buffer at 0 * 2 ^ 24) (get_or buffer (at + 1) 0 * 2 ^ 16))
        (get_or buffer (at + 2) 0 * 2 ^ 8))
      (get_or buffer (at + 3) 0)

-- the loop of `read_be64`, with the rounds left; the shift drops what passes 64 bits
abbrev pub read_be64_from : ℕ → ℕ → List ℕ → ℕ → ℕ → ℕ
read_be64_from zero i buffer at value = value
read_be64_from (suc left) i buffer at value =
    read_be64_from left (i + 1) buffer at
      (bit_or (value * 2 ^ 8 % 2 ^ 64) (get_or buffer (at + i) 0))

abbrev pub read_be64 : List ℕ → ℕ → ℕ
read_be64 buffer at = read_be64_from 8 0 buffer at 0

-- `std::memcpy` into the buffer
unfoldable pub copy_bytes : List ℕ → ℕ → List ℕ → List ℕ
copy_bytes buffer out [] = buffer
copy_bytes buffer out (b ∷ bytes) = copy_bytes (set buffer out b) (out + 1) bytes
