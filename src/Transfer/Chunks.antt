-- ===== src/Transfer/Chunks.antt =====
-- `chunk_count` of include/swiftlink/transfer/transfer.hpp, and the cutting of a file into chunks in
-- `send_file` of src/transfer/sender.cpp.
use swiftlink.Common.{
  ℕ, ◌+◌, ◌-◌, ◌*◌, ◌/◌, ◌%◌, ◌^◌, ◌≤◌, ◌<◌, ◌≡◌, ◌↔◌, ◌⊎◌, arith, inl, Option, none, some, ltb,
  ◌==◌, if◌then◌else◌, ap, ℕ_discrete, dec_lt, min,
}
use native.Mathlib.Nat.{div-add-mod, mod-lt}

-- the last test of `chunk_count`
abbrev pub capped : ℕ → Option ℕ
capped chunks = if ltb 0xFFFFFFFF chunks then none else some chunks

-- uint64_t arithmetic: the sum wraps, then one is taken off.
unfoldable pub chunk_count : ℕ → ℕ → Option ℕ
chunk_count file_size chunk_size =
    if chunk_size == 0
    then none
    else capped ((file_size + chunk_size + (2 ^ 64 - 1)) % 2 ^ 64 / chunk_size)

-- the offset and the length of the chunk `sequence`
abbrev pub chunk_offset : ℕ → ℕ → ℕ
chunk_offset sequence chunk_size = sequence * chunk_size % 2 ^ 64

abbrev pub chunk_want : ℕ → ℕ → ℕ → ℕ
chunk_want file_size sequence chunk_size =
    let remaining = (file_size + 2 ^ 64 - chunk_offset sequence chunk_size) % 2 ^ 64 in
    if ltb remaining chunk_size then remaining else chunk_size

-- The quotient of the code is the number of chunks, rounded up.
ceiling_bounds :
    (size c q r : ℕ) → c * q + r ≡ size + c - 1 → r < c → (size ≤ q * c) × (q * c < size + c)
ceiling_bounds size c q r e lt = grind arith

quotient_bounds :
    (size c : ℕ) → 0 < c → (size ≤ (size + c - 1) / c * c) × ((size + c - 1) / c * c < size + c)
quotient_bounds size c pos =
    ceiling_bounds size c ((size + c - 1) / c) ((size + c - 1) % c) (div-add-mod (size + c - 1) c)
      (mod-lt (size + c - 1) pos)

no_wrap :
    (size c : ℕ) → 0 < c → size + c ≤ 2 ^ 64 → (size + c + (2 ^ 64 - 1)) % 2 ^ 64 ≡ size + c - 1
no_wrap size c pos fits = omega arith

-- If a count is given, that many chunks cover the file and one less would not, and it fits a 32-bit
-- sequence number. The size and the chunk size together must not pass 2 ^ 64.
pub chunk_count_covers :
    (size c k : ℕ)
    → size + c ≤ 2 ^ 64
    → chunk_count size c ≡ some k
    → (0 < c) × (k < 2 ^ 32) × (size ≤ k * c) × (k * c < size + c)
unfolding chunk_count
chunk_count_covers size c k fits e = elim (ℕ_discrete c 0) [
  | yes z ↦ absurd (ground (arith, e, z))
  | no ne ↦
      let pos : 0 < c = omega arith in
      ground (arith, rw (no_wrap size c pos fits) at e, quotient_bounds size c pos)
]

too_many : (size c q : ℕ) → q * c < size + c → size ≤ 0xFFFFFFFF * c → 0 < c → q ≤ 0xFFFFFFFF
too_many size c q h g pos = elim (dec_lt 0xFFFFFFFF q) [
  | no le ↦ omega arith
  | yes lt ↦ absurd (contra (q - 0x100000000) (omega arith))
]
  where
    contra : (d : ℕ) → q ≡ d + 0x100000000 → ⊥
    contra d e = omega (arith, ap (λ (x : ℕ). x * c) e)

too_few : (size c q : ℕ) → size ≤ q * c → 0xFFFFFFFF * c < size → 0xFFFFFFFF < q
too_few size c q h g = elim (dec_lt 0xFFFFFFFF q) [
  | yes lt ↦ lt
  | no le ↦ absurd (small q (omega arith) h g)
]
  where
    small : (q : ℕ) → q ≤ 0xFFFFFFFF → size ≤ q * c → 0xFFFFFFFF * c < size → ⊥
    small q le h g = grind arith

-- If the size and the chunk size together do not pass 2^64, no count is given exactly when the chunk
-- size is zero or the file needs more than 2^32 - 1 chunks.
pub chunk_count-none :
    (size c : ℕ)
    → size + c ≤ 2 ^ 64
    → (chunk_count size c ≡ none) ↔ ((c ≡ 0) ⊎ (0xFFFFFFFF * c < size))
unfolding chunk_count
chunk_count-none size c fits = elim (ℕ_discrete c 0) [
  | yes z ↦ (λ e. inl z, λ e. ground (arith, z))
  | no ne ↦
      let pos : 0 < c = omega arith in
      let (covers, tight) = quotient_bounds size c pos in
      rw (no_wrap size c pos fits) (
        (λ e. ground (arith, e, too_many size c ((size + c - 1) / c) tight)),
        (λ e. ground (arith, e, too_few size c ((size + c - 1) / c) covers)),
      )
]

-- A chunk begins where the ones before it end, is not empty, and does not reach past the end of the
-- file.
pub chunk_bounds :
    (size c k s : ℕ)
    → size + c ≤ 2 ^ 64
    → chunk_count size c ≡ some k
    → s < k
    → (chunk_offset s c ≡ s * c)
      × (0 < chunk_want size s c)
      × (chunk_want size s c ≤ c)
      × (chunk_offset s c + chunk_want size s c ≡ min ((s + 1) * c) size)
chunk_bounds size c k s fits e lt =
    let (pos, narrow, covers, tight) = chunk_count_covers size c k fits e in
    let starts : s * c < size = starts_below size c k s tight lt in
    let exact : s * c % 2 ^ 64 ≡ s * c = omega arith in rw exact (ground (arith, pos, starts))
  where
    starts_below : (size c k s : ℕ) → k * c < size + c → s < k → s * c < size
    starts_below size c k s h g = grind arith

-- A byte of the file is in the chunk that its offset divided by the chunk size names.
byte_lem :
    (c k i q r : ℕ) → c * q + r ≡ i → r < c → i < k * c → (q < k) × (q * c ≤ i) × (i < (q + 1) * c)
byte_lem c k i q r e lt below = (
  elim (dec_lt q k) [ yes h ↦ h | no ge ↦ absurd (past (omega arith)) ],
  grind arith,
  grind arith,
)
  where
    past : k ≤ q → ⊥
    past h = grind arith

-- The chunks that `chunk_count` counts tile the file, if it gives a count and the size of the file and
-- the chunk size together do not pass 2^64: a chunk `s` begins where the ones before it end, is not
-- empty, is no longer than the chunk size and ends where the next one begins or, if that is sooner,
-- with the file; and each byte of the file, at the offset `i`, is in one of the chunks that are
-- counted.
pub chunks_tile :
    (size c k s i : ℕ)
    → size + c ≤ 2 ^ 64
    → chunk_count size c ≡ some k
    → s < k
    → i < size
    → ((chunk_offset s c ≡ s * c)
        × (0 < chunk_want size s c)
        × (chunk_want size s c ≤ c)
        × (chunk_offset s c + chunk_want size s c ≡ min ((s + 1) * c) size))
      × ((i / c < k)
          × (chunk_offset (i / c) c ≤ i)
          × (i < chunk_offset (i / c) c + chunk_want size (i / c) c))
chunks_tile size c k s i fits e lt inside =
    let (pos, narrow, covers, tight) = chunk_count_covers size c k fits e in
    let (counted, from, to) =
      byte_lem c k i (i / c) (i % c) (div-add-mod i c) (mod-lt i pos) (omega arith) in
    let (starts, some_bytes, most, ends) = chunk_bounds size c k (i / c) fits e counted in
    (chunk_bounds size c k s fits e lt, (counted, omega arith, omega arith))
