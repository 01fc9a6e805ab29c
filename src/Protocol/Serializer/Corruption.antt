-- ===== src/Protocol/Serializer/Corruption.antt =====
-- A datagram of src/protocol/serializer.cpp in which one byte was changed is not decoded.
use swiftlink.Common.{
  ℕ, zero, suc, ◌+◌, ◌*◌, ◌^◌, ◌≤◌, ◌<◌, List, [], ◌∷◌, ◌≡◌, ◌≢◌, ◌⊎◌, refl, sym, ap, ◌∙◌, arith,
  inl, inr, length, get_or, set, All, length-set, get_or-set_self, get_or-set_ne, All-set, dec_lt,
  dec_le, ℕ_discrete,
}
use swiftlink.Protocol.Packet.{Packet, success}
use swiftlink.Protocol.Wire.{write_be32, read_be32}
use swiftlink.Protocol.Wire.Laws.{join32-add}
use swiftlink.Protocol.Crc.{crc32, crc32_excluding_checksum}
use swiftlink.Protocol.Crc.Detect.{IsByte, crc32-set_ne}
use swiftlink.Protocol.Crc.Excluding.{crc32_excluding_checksum_lem}
use swiftlink.Protocol.Serializer.{deserialize, read_header, checksum_at}
use swiftlink.Protocol.Serializer.Accept.{deserialize_inversion}

set-set_comm : (xs : List ℕ) (i j v w : ℕ) → i ≢ j → set (set xs i v) j w ≡ set (set xs j w) i v
set-set_comm [] i j v w h = refl
set-set_comm (x ∷ xs) zero zero v w h = absurd (h refl)
set-set_comm (x ∷ xs) zero (suc j) v w h = refl
set-set_comm (x ∷ xs) (suc i) zero v w h = refl
set-set_comm (x ∷ xs) (suc i) (suc j) v w h =
    ap (◌∷◌ x) (set-set_comm xs i j v w (λ e. h (ap suc e)))

set-set_self : (xs : List ℕ) (i v w : ℕ) → set (set xs i v) i w ≡ set xs i w
set-set_self [] i v w = refl
set-set_self (x ∷ xs) zero v w = refl
set-set_self (x ∷ xs) (suc i) v w = ap (◌∷◌ x) (set-set_self xs i v w)

-- The checksum field is the bytes 36 to 39.
abbrev IsOutside : ℕ → Type 0
IsOutside i = (i < 36) ⊎ (40 ≤ i)

write_be32-set :
    (buffer : List ℕ) (i v : ℕ)
    → IsOutside i
    → write_be32 (set buffer i v) 36 0 ≡ set (write_be32 buffer 36 0) i v
write_be32-set buffer i v o =
    ap (λ b. set (set (set b 37 0) 38 0) 39 0) (set-set_comm buffer i 36 v 0 (omega arith))
    ∙ ap (λ b. set (set b 38 0) 39 0) (set-set_comm (set buffer 36 0) i 37 v 0 (omega arith))
    ∙ ap (λ b. set b 39 0) (set-set_comm (set (set buffer 36 0) 37 0) i 38 v 0 (omega arith))
    ∙ set-set_comm (set (set (set buffer 36 0) 37 0) 38 0) i 39 v 0 (omega arith)

get_or-write_be32 :
    (buffer : List ℕ) (i : ℕ)
    → IsOutside i
    → get_or (write_be32 buffer 36 0) i 0 ≡ get_or buffer i 0
get_or-write_be32 buffer i o =
    get_or-set_ne _ 39 i 0 0 (omega arith)
    ∙ get_or-set_ne _ 38 i 0 0 (omega arith)
    ∙ get_or-set_ne _ 37 i 0 0 (omega arith)
    ∙ get_or-set_ne buffer 36 i 0 0 (omega arith)

length-write_be32 : (buffer : List ℕ) (v : ℕ) → length (write_be32 buffer 36 v) ≡ length buffer
length-write_be32 buffer v =
    length-set _ 39 _ ∙ length-set _ 38 _ ∙ length-set _ 37 _ ∙ length-set buffer 36 _

All-write_be32 : (buffer : List ℕ) → All IsByte buffer → All IsByte (write_be32 buffer 36 0)
All-write_be32 buffer h =
    let zero_byte : IsByte 0 = omega arith in
    All-set IsByte _ 39 0
      (All-set IsByte _ 38 0
        (All-set IsByte _ 37 0 (All-set IsByte buffer 36 0 h zero_byte) zero_byte) zero_byte)
      zero_byte

-- A change outside the field changes the checksum of the packet, and leaves the field.
crc-set_outside :
    (buffer : List ℕ) (i v : ℕ)
    → All IsByte buffer
    → v < 256
    → i < length buffer
    → v ≢ get_or buffer i 0
    → IsOutside i
    → crc32_excluding_checksum (set buffer i v) checksum_at
      ≢ crc32_excluding_checksum buffer checksum_at
crc-set_outside buffer i v bytes hv hi ne o e =
    crc32-set_ne (write_be32 buffer 36 0) i v (All-write_be32 buffer bytes) hv
      (omega (arith, length-write_be32 buffer 0)) (λ same. ne (same ∙ get_or-write_be32 buffer i o))
      (ap crc32 (sym (write_be32-set buffer i v o))
        ∙ sym (crc32_excluding_checksum_lem (set buffer i v) 36)
        ∙ e
        ∙ crc32_excluding_checksum_lem buffer 36)

field-set_outside :
    (buffer : List ℕ) (i v : ℕ) → IsOutside i → read_be32 (set buffer i v) 36 ≡ read_be32 buffer 36
field-set_outside buffer i v o = rw (
  get_or-set_ne buffer i 36 v 0 (omega arith),
  get_or-set_ne buffer i 37 v 0 (omega arith),
  get_or-set_ne buffer i 38 v 0 (omega arith),
  get_or-set_ne buffer i 39 v 0 (omega arith),
)

pub All-get_or : (xs : List ℕ) (i : ℕ) → All IsByte xs → get_or xs i 0 < 256
All-get_or [] i h = omega arith
All-get_or (x ∷ xs) zero h = h.0
All-get_or (x ∷ xs) (suc i) h = All-get_or xs i h.1

read_be32-sum :
    (buffer : List ℕ)
    → All IsByte buffer
    → read_be32 buffer 36
      ≡ get_or buffer 36 0 * 2 ^ 24
        + get_or buffer 37 0 * 2 ^ 16
        + get_or buffer 38 0 * 2 ^ 8
        + get_or buffer 39 0
read_be32-sum buffer h =
    join32-add (get_or buffer 36 0) (get_or buffer 37 0) (get_or buffer 38 0) (get_or buffer 39 0)
      (All-get_or buffer 37 h) (All-get_or buffer 38 h) (All-get_or buffer 39 h)

-- A change inside the field leaves the checksum of the packet, and changes the field.
abbrev IsInside : ℕ → Type 0
IsInside i = (i ≡ 36) ⊎ ((i ≡ 37) ⊎ ((i ≡ 38) ⊎ (i ≡ 39)))

field_cases : (i : ℕ) → IsOutside i ⊎ IsInside i
field_cases i =
    ground (arith, dec_lt i 36, dec_le 40 i, ℕ_discrete i 36, ℕ_discrete i 37, ℕ_discrete i 38)

write_be32-set_inside :
    (buffer : List ℕ) (i v : ℕ)
    → IsInside i
    → write_be32 (set buffer i v) 36 0 ≡ write_be32 buffer 36 0
write_be32-set_inside buffer i v (inl e) =
    rw e (ap (λ b. set (set (set b 37 0) 38 0) 39 0) (set-set_self buffer 36 v 0))
write_be32-set_inside buffer i v (inr (inl e)) = rw e (
    ap (λ b. set (set b 38 0) 39 0)
      (ap (λ b. set b 37 0) (set-set_comm buffer 37 36 v 0 (omega arith))
        ∙ set-set_self (set buffer 36 0) 37 v 0))
write_be32-set_inside buffer i v (inr (inr (inl e))) = rw e (
    ap (λ b. set b 39 0)
      (ap (λ b. set (set b 37 0) 38 0) (set-set_comm buffer 38 36 v 0 (omega arith))
        ∙ ap (λ b. set b 38 0) (set-set_comm (set buffer 36 0) 38 37 v 0 (omega arith))
        ∙ set-set_self (set (set buffer 36 0) 37 0) 38 v 0))
write_be32-set_inside buffer i v (inr (inr (inr e))) = rw e (
    ap (λ b. set (set (set b 37 0) 38 0) 39 0) (set-set_comm buffer 39 36 v 0 (omega arith))
    ∙ ap (λ b. set (set b 38 0) 39 0) (set-set_comm (set buffer 36 0) 39 37 v 0 (omega arith))
    ∙ ap (λ b. set b 39 0) (set-set_comm (set (set buffer 36 0) 37 0) 39 38 v 0 (omega arith))
    ∙ set-set_self (set (set (set buffer 36 0) 37 0) 38 0) 39 v 0)

field-set_inside :
    (buffer : List ℕ) (i v : ℕ)
    → All IsByte buffer
    → v < 256
    → i < length buffer
    → IsInside i
    → read_be32 (set buffer i v) 36 ≡ read_be32 buffer 36
    → v ≡ get_or buffer i 0
field-set_inside buffer i v bytes hv hi inside e = ground (
  arith,
  e,
  inside,
  read_be32-sum buffer bytes,
  read_be32-sum (set buffer i v) (All-set IsByte buffer i v bytes hv),
  get_or-set_self buffer i v 0 hi,
  get_or-set_ne buffer i 36 v 0,
  get_or-set_ne buffer i 37 v 0,
  get_or-set_ne buffer i 38 v 0,
  get_or-set_ne buffer i 39 v 0,
  All-get_or buffer 36 bytes,
  All-get_or buffer 37 bytes,
  All-get_or buffer 38 bytes,
  All-get_or buffer 39 bytes,
)

checksum_read : (buffer : List ℕ) → (read_header buffer).checksum ≡ read_be32 buffer 36
unfolding read_header
checksum_read buffer = refl

-- No datagram that `deserialize` accepts becomes another acceptable one by a change of one byte,
-- wherever the byte stands, the header and the checksum field included.
pub deserialize-set_ne :
    (buffer : List ℕ) (p q : Packet) (i v : ℕ)
    → All IsByte buffer
    → deserialize buffer ≡ success p
    → v < 256
    → i < length buffer
    → v ≢ get_or buffer i 0
    → deserialize (set buffer i v) ≢ success q
deserialize-set_ne buffer p q i v bytes ok hv hi ne e = elim (field_cases i) [
  | inl o ↦
      crc-set_outside buffer i v bytes hv hi ne o (new ∙ field-set_outside buffer i v o ∙ sym old)
  | inr s ↦ ne (
      field-set_inside buffer i v bytes hv hi s (
        sym new
        ∙ crc32_excluding_checksum_lem (set buffer i v) 36
        ∙ ap crc32 (write_be32-set_inside buffer i v s)
        ∙ sym (crc32_excluding_checksum_lem buffer 36)
        ∙ old))
]
  where
    old : crc32_excluding_checksum buffer checksum_at ≡ read_be32 buffer 36
    old = (deserialize_inversion buffer p ok).0.checksum_ok ∙ checksum_read buffer

    new : crc32_excluding_checksum (set buffer i v) checksum_at ≡ read_be32 (set buffer i v) 36
    new =
        (deserialize_inversion (set buffer i v) q e).0.checksum_ok ∙ checksum_read (set buffer i v)
