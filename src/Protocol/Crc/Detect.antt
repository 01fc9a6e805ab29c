-- ===== src/Protocol/Crc/Detect.antt =====
-- What the checksum of src/protocol/crc32.cpp detects: a change of one byte, whatever the change.
use swiftlink.Common.{
  ℕ, zero, suc, ◌+◌, ◌*◌, ◌/◌, ◌%◌, ◌^◌, ◌<◌, bit_xor, true, ◌&&◌, List, [], ◌∷◌, ◌≡◌, ◌≢◌, refl,
  sym, ap, ◌∙◌, arith, ltb, ◌==◌, if◌then◌else◌, get_or, set, length, All,
}
use swiftlink.Common.Bits.{
  bit_xor_low, bit_xor-lt, bit_xor_cancel, bit_xor_cancel_left, all_below, all_below_sound,
}
use swiftlink.Protocol.Crc.{polynomial, make_table, update, crc_bytes, crc32}

abbrev entry : ℕ → ℕ
entry i = get_or make_table i 0

-- One step of the table's loop backwards: the polynomial sets the top bit exactly when a one left.
undo : ℕ → ℕ
undo v = if ltb v (2 ^ 31) then v * 2 else bit_xor v polynomial * 2 % 2 ^ 32 + 1

undo_eight : ℕ → ℕ
undo_eight v = undo (undo (undo (undo (undo (undo (undo (undo v)))))))

-- The index of a table entry, from its top byte alone.
index_of : ℕ → ℕ
index_of top = undo_eight (top * 2 ^ 24) % 256

index_table : all_below 256 (λ i. index_of (entry i / 2 ^ 24) == i && ltb (entry i) (2 ^ 32)) ≡ true
unfolding all_below make_table index_of undo_eight undo
index_table = refl

index_of-entry : (i : ℕ) → i < 256 → (index_of (entry i / 2 ^ 24) ≡ i) × (entry i < 2 ^ 32)
index_of-entry i h =
    let row =
      all_below_sound 256 (λ i. index_of (entry i / 2 ^ 24) == i && ltb (entry i) (2 ^ 32)) i
        index_table h in
    ground (arith, row)

-- `t ^ (c >> 8)` has the top byte of `t`.
top_byte : (t c : ℕ) → t < 2 ^ 32 → c < 2 ^ 24 → bit_xor t c / 2 ^ 24 ≡ t / 2 ^ 24
top_byte t c h g = omega (
  arith,
  bit_xor_low 24 (t / 2 ^ 24) (t % 2 ^ 24) c (omega arith) g,
  bit_xor-lt 24 (t % 2 ^ 24) c (omega arith) g,
  ap (λ x. bit_xor x c) split,
)
  where
    split : t ≡ t / 2 ^ 24 * 2 ^ 24 + t % 2 ^ 24
    split = omega arith

-- The low byte of a `xor` is the `xor` of the low bytes.
low_byte : (c b : ℕ) → b < 256 → bit_xor c b % 256 ≡ bit_xor (c % 256) b
low_byte c b h = omega (
  arith,
  bit_xor_low 8 (c / 256) (c % 256) b (omega arith) h,
  bit_xor-lt 8 (c % 256) b (omega arith) h,
  ap (λ x. bit_xor x b) split,
)
  where
    split : c ≡ c / 256 * 2 ^ 8 + c % 256
    split = omega arith

pub update-lt : (c b : ℕ) → c < 2 ^ 32 → update c b < 2 ^ 32
unfolding update
update-lt c b h =
    bit_xor-lt 32 _ (c / 256) (index_of-entry (bit_xor c b % 256) (omega arith)).1 (omega arith)

-- The index that `update` looked up can be read off its result.
update_index : (c b : ℕ) → c < 2 ^ 32 → index_of (update c b / 2 ^ 24) ≡ bit_xor c b % 256
unfolding update
update_index c b h =
    let (found, fits) = index_of-entry (bit_xor c b % 256) (omega arith) in
    ap index_of (top_byte (entry (bit_xor c b % 256)) (c / 256) fits (omega arith)) ∙ found

same_index :
    (c d a b : ℕ)
    → c < 2 ^ 32
    → d < 2 ^ 32
    → update c a ≡ update d b
    → bit_xor c a % 256 ≡ bit_xor d b % 256
same_index c d a b h g e =
    sym (update_index c a h) ∙ ap (λ u. index_of (u / 2 ^ 24)) e ∙ update_index d b g

-- Two bytes that take one state to the same state are the same byte.
pub update-injective_byte :
    (c a b : ℕ) → c < 2 ^ 32 → a < 256 → b < 256 → update c a ≡ update c b → a ≡ b
update-injective_byte c a b h p q e =
    sym (bit_xor_cancel_left (c % 256) a)
    ∙ ap (λ t. bit_xor t (c % 256))
        (sym (low_byte c a p) ∙ same_index c c a b h h e ∙ low_byte c b q)
    ∙ bit_xor_cancel_left (c % 256) b

-- Two states that one byte takes to the same state are the same state.
pub update-injective_crc :
    (c d b : ℕ) → c < 2 ^ 32 → d < 2 ^ 32 → b < 256 → update c b ≡ update d b → c ≡ d
unfolding update
update-injective_crc c d b h g p e = omega (arith, low, high)
  where
    index : bit_xor c b % 256 ≡ bit_xor d b % 256
    index = same_index c d b b h g e

    low : c % 256 ≡ d % 256
    low =
        sym (bit_xor_cancel b (c % 256))
        ∙ ap (λ t. bit_xor t b) (sym (low_byte c b p) ∙ index ∙ low_byte d b p)
        ∙ bit_xor_cancel b (d % 256)

    high : c / 256 ≡ d / 256
    high =
        sym (bit_xor_cancel_left (entry (bit_xor c b % 256)) (c / 256))
        ∙ ap (λ t. bit_xor t (entry (bit_xor c b % 256))) e
        ∙ ap (λ i. bit_xor (bit_xor (entry (bit_xor d b % 256)) (d / 256)) (entry i)) index
        ∙ bit_xor_cancel_left (entry (bit_xor d b % 256)) (d / 256)

abbrev pub IsByte : ℕ → Type 0
IsByte b = b < 256

pub crc_bytes-lt : (data' : List ℕ) (c : ℕ) → c < 2 ^ 32 → crc_bytes c data' < 2 ^ 32
unfolding crc_bytes
crc_bytes-lt [] c h = h
crc_bytes-lt (b ∷ data') c h = crc_bytes-lt data' (update c b) (update-lt c b h)

pub crc_bytes-injective :
    (data' : List ℕ) (c d : ℕ)
    → All IsByte data'
    → c < 2 ^ 32
    → d < 2 ^ 32
    → crc_bytes c data' ≡ crc_bytes d data'
    → c ≡ d
unfolding crc_bytes
crc_bytes-injective [] c d bytes h g e = e
crc_bytes-injective (b ∷ data') c d bytes h g e = update-injective_crc c d b h g bytes.0 (
    crc_bytes-injective data' (update c b) (update d b) bytes.1 (update-lt c b h) (update-lt d b g)
      e)

crc_bytes-set :
    (data' : List ℕ) (i v c : ℕ)
    → All IsByte data'
    → v < 256
    → c < 2 ^ 32
    → i < length data'
    → crc_bytes c (set data' i v) ≡ crc_bytes c data'
    → v ≡ get_or data' i 0
unfolding crc_bytes
crc_bytes-set [] i v c bytes hv hc hi e = absurd (omega arith)
crc_bytes-set (b ∷ data') zero v c bytes hv hc hi e = update-injective_byte c v b hc hv bytes.0 (
    crc_bytes-injective data' (update c v) (update c b) bytes.1 (update-lt c v hc)
      (update-lt c b hc) e)
crc_bytes-set (b ∷ data') (suc i) v c bytes hv hc hi e =
    crc_bytes-set data' i v (update c b) bytes.1 hv (update-lt c b hc) (omega arith) e

pub crc32-lt : (data' : List ℕ) → crc32 data' < 2 ^ 32
unfolding crc32
crc32-lt data' =
    bit_xor-lt 32 _ 0xFFFFFFFF (crc_bytes-lt data' 0xFFFFFFFF (omega arith)) (omega arith)

-- Changing one byte of a buffer, to any other byte, changes its CRC-32.
pub crc32-set_ne :
    (data' : List ℕ) (i v : ℕ)
    → All IsByte data'
    → v < 256
    → i < length data'
    → v ≢ get_or data' i 0
    → crc32 (set data' i v) ≢ crc32 data'
unfolding crc32
crc32-set_ne data' i v bytes hv hi ne e = ne (
    crc_bytes-set data' i v 0xFFFFFFFF bytes hv (omega arith) hi (
      sym (bit_xor_cancel 0xFFFFFFFF _)
      ∙ ap (λ t. bit_xor t 0xFFFFFFFF) e
      ∙ bit_xor_cancel 0xFFFFFFFF _))
