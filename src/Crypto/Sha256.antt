-- ===== src/Crypto/Sha256.antt =====
-- src/crypto/sha256.cpp and include/swiftlink/crypto/sha256.hpp. Words are numbers below 2 ^ 32, sums
-- are taken `% 2 ^ 32`. `block` holds the bytes of `buffer_` below `buffered_`.
pub mod Chunking
pub mod Length
use swiftlink.Common.{
  ℕ, zero, suc, ◌+◌, ◌-◌, ◌*◌, ◌/◌, ◌%◌, ◌^◌, min, bit_and, bit_or, bit_xor, Bool, true, false,
  List, [], ◌∷◌, ◌++◌, ltb, leb, ◌==◌, if◌then◌else◌, length, get_or, take, drop, replicate, ◌≡◌,
  refl,
}
use swiftlink.Protocol.Wire.{read_be32}
use swiftlink.Protocol.Wire.Laws.{be32, be64}

abbrev pub round_constants : List ℕ
round_constants =
    0x428a2f98 ∷ 0x71374491 ∷ 0xb5c0fbcf ∷ 0xe9b5dba5 ∷ 0x3956c25b ∷ 0x59f111f1 ∷ 0x923f82a4
    ∷ 0xab1c5ed5 ∷ 0xd807aa98 ∷ 0x12835b01 ∷ 0x243185be ∷ 0x550c7dc3 ∷ 0x72be5d74 ∷ 0x80deb1fe
    ∷ 0x9bdc06a7 ∷ 0xc19bf174 ∷ 0xe49b69c1 ∷ 0xefbe4786 ∷ 0x0fc19dc6 ∷ 0x240ca1cc ∷ 0x2de92c6f
    ∷ 0x4a7484aa ∷ 0x5cb0a9dc ∷ 0x76f988da ∷ 0x983e5152 ∷ 0xa831c66d ∷ 0xb00327c8 ∷ 0xbf597fc7
    ∷ 0xc6e00bf3 ∷ 0xd5a79147 ∷ 0x06ca6351 ∷ 0x14292967 ∷ 0x27b70a85 ∷ 0x2e1b2138 ∷ 0x4d2c6dfc
    ∷ 0x53380d13 ∷ 0x650a7354 ∷ 0x766a0abb ∷ 0x81c2c92e ∷ 0x92722c85 ∷ 0xa2bfe8a1 ∷ 0xa81a664b
    ∷ 0xc24b8b70 ∷ 0xc76c51a3 ∷ 0xd192e819 ∷ 0xd6990624 ∷ 0xf40e3585 ∷ 0x106aa070 ∷ 0x19a4c116
    ∷ 0x1e376c08 ∷ 0x2748774c ∷ 0x34b0bcb5 ∷ 0x391c0cb3 ∷ 0x4ed8aa4a ∷ 0x5b9cca4f ∷ 0x682e6ff3
    ∷ 0x748f82ee ∷ 0x78a5636f ∷ 0x84c87814 ∷ 0x8cc70208 ∷ 0x90befffa ∷ 0xa4506ceb ∷ 0xbef9a3f7
    ∷ 0xc67178f2 ∷ []

unfoldable pub rotate_right : ℕ → ℕ → ℕ
rotate_right value bits = bit_or (value / 2 ^ bits) (value * 2 ^ (32 - bits) % 2 ^ 32)

-- `~e`
abbrev pub complement : ℕ → ℕ
complement e = 2 ^ 32 - 1 - e

-- the first sixteen words of the schedule, from the block
unfoldable pub block_words : ℕ → ℕ → List ℕ → List ℕ
block_words zero i block = []
block_words (suc left) i block = read_be32 block (i * 4) ∷ block_words left (i + 1) block

-- the loop that derives the others
unfoldable pub extend_words : ℕ → ℕ → List ℕ → List ℕ
unfolding rotate_right
extend_words zero i w = w
extend_words (suc left) i w =
    let w15 = get_or w (i - 15) 0 in
    let w2 = get_or w (i - 2) 0 in
    let s0 = bit_xor (bit_xor (rotate_right w15 7) (rotate_right w15 18)) (w15 / 2 ^ 3) in
    let s1 = bit_xor (bit_xor (rotate_right w2 17) (rotate_right w2 19)) (w2 / 2 ^ 10) in
    let next = (get_or w (i - 16) 0 + s0 + get_or w (i - 7) 0 + s1) % 2 ^ 32 in
    extend_words left (i + 1) (w ++ (next ∷ []))

pub record Words : Type 0 where
  pub a : ℕ
  pub b : ℕ
  pub c : ℕ
  pub d : ℕ
  pub e : ℕ
  pub f : ℕ
  pub g : ℕ
  pub h : ℕ

unfoldable pub round : ℕ → ℕ → Words → Words
unfolding rotate_right
round k w v =
    let s1 = bit_xor (bit_xor (rotate_right v.e 6) (rotate_right v.e 11)) (rotate_right v.e 25) in
    let choice = bit_xor (bit_and v.e v.f) (bit_and (complement v.e) v.g) in
    let temp1 = (v.h + s1 + choice + k + w) % 2 ^ 32 in
    let s0 = bit_xor (bit_xor (rotate_right v.a 2) (rotate_right v.a 13)) (rotate_right v.a 22) in
    let majority = bit_xor (bit_xor (bit_and v.a v.b) (bit_and v.a v.c)) (bit_and v.b v.c) in
    let temp2 = (s0 + majority) % 2 ^ 32 in
    record {
      a = (temp1 + temp2) % 2 ^ 32;
      b = v.a;
      c = v.b;
      d = v.c;
      e = (v.d + temp1) % 2 ^ 32;
      f = v.e;
      g = v.f;
      h = v.g;
    }

-- the loop over the rounds; the constants and the schedule are walked together
unfoldable pub rounds : List ℕ → List ℕ → Words → Words
unfolding round
rounds [] w v = v
rounds (k ∷ ks) [] v = v
rounds (k ∷ ks) (w ∷ ws) v = rounds ks ws (round k w v)

-- `compress`, on the 64 bytes of a block
unfoldable pub compress : Words → List ℕ → Words
unfolding block_words extend_words rounds
compress s block =
    let w = extend_words 48 16 (block_words 16 0 block) in
    let v = rounds round_constants w s in
    record {
      a = (s.a + v.a) % 2 ^ 32;
      b = (s.b + v.b) % 2 ^ 32;
      c = (s.c + v.c) % 2 ^ 32;
      d = (s.d + v.d) % 2 ^ 32;
      e = (s.e + v.e) % 2 ^ 32;
      f = (s.f + v.f) % 2 ^ 32;
      g = (s.g + v.g) % 2 ^ 32;
      h = (s.h + v.h) % 2 ^ 32;
    }

pub record Sha256 : Type 0 where
  pub state : Words
  pub block : List ℕ
  pub total_bits : ℕ

abbrev pub new_hasher : Sha256
new_hasher = record {
  state = record {
    a = 0x6a09e667;
    b = 0xbb67ae85;
    c = 0x3c6ef372;
    d = 0xa54ff53a;
    e = 0x510e527f;
    f = 0x9b05688c;
    g = 0x1f83d9ab;
    h = 0x5be0cd19;
  };
  block = [];
  total_bits = 0;
}

-- The loop over whole blocks, and what is left of the input. Each round takes 64 bytes, so as many
-- rounds as there are bytes are enough.
unfoldable pub absorb : ℕ → Words → List ℕ → Words × List ℕ
absorb zero s bytes = (s, bytes)
absorb (suc fuel) s bytes =
    let rest = absorb fuel (compress s (take 64 bytes)) (drop 64 bytes) in
    if leb 64 (length bytes) then rest else (s, bytes)

-- The second half of `update`: from `offset` on, with an empty buffer.
unfoldable pub consume : Words → List ℕ → ℕ → Sha256
consume s bytes total =
    let (s', rest) = absorb (length bytes) s bytes in
    record { state = s'; block = rest; total_bits = total }

-- The first half of `update` is the branch on `buffered_ > 0`.
unfoldable pub update : Sha256 → List ℕ → Sha256
unfolding consume
update hasher bytes =
    let total = (hasher.total_bits + length bytes * 8 % 2 ^ 64) % 2 ^ 64 in
    let taken = min (length bytes) (64 - length hasher.block) in
    let filled = hasher.block ++ take taken bytes in
    if length hasher.block == 0
    then consume hasher.state bytes total
    else if ltb (length filled) 64
    then record { state = hasher.state; block = filled; total_bits = total }
    else consume (compress hasher.state filled) (drop taken bytes) total

-- the bytes of the digest
abbrev pub digest_bytes : Words → List ℕ
digest_bytes v =
    be32 v.a
    ++ (be32 v.b ++ (be32 v.c ++ (be32 v.d ++ (be32 v.e ++ (be32 v.f ++ (be32 v.g ++ be32 v.h))))))

-- The padding; the length is the eight bytes of `length_bits`, the highest first.
unfoldable pub finish : Sha256 → List ℕ
finish hasher =
    let marked = hasher.block ++ (0x80 ∷ []) in
    let full = marked ++ replicate (64 - length marked) 0 in
    let room = if ltb 56 (length marked) then [] else marked in
    let s = if ltb 56 (length marked) then compress hasher.state full else hasher.state in
    let last = room ++ (replicate (56 - length room) 0 ++ be64 hasher.total_bits) in
    digest_bytes (compress s last)

unfoldable pub sha256 : List ℕ → List ℕ
unfolding update finish
sha256 bytes = finish (update new_hasher bytes)

abbrev pub hex_char : ℕ → ℕ
hex_char d = if ltb d 10 then b'0' + d else b'a' + (d - 10)

unfoldable pub to_hex : List ℕ → List ℕ
to_hex [] = []
to_hex (b ∷ bs) = hex_char (b / 16) ∷ hex_char (b % 16) ∷ to_hex bs
