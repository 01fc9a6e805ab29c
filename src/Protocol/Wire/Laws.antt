-- ===== src/Protocol/Wire/Laws.antt =====
-- Joining the big-endian bytes of a number gives the number, and splitting joined bytes gives the
-- bytes: the arithmetic below the read and write primitives.
use swiftlink.Common.{
  ℕ, ◌+◌, ◌*◌, ◌/◌, ◌%◌, ◌^◌, ◌<◌, bit_or, List, [], ◌∷◌, ◌++◌, ◌≡◌, refl, ap, ap₂, ◌∙◌, arith,
  length, set, append_assoc,
}
use swiftlink.Common.Bits.{bit_or-add}
use swiftlink.Protocol.Wire.{copy_bytes}

abbrev pub be16 : ℕ → List ℕ
be16 v = v / 2 ^ 8 % 256 ∷ v % 256 ∷ []

abbrev pub be32 : ℕ → List ℕ
be32 v = v / 2 ^ 24 % 256 ∷ v / 2 ^ 16 % 256 ∷ be16 v

abbrev pub be64 : ℕ → List ℕ
be64 v = v / 2 ^ 56 % 256 ∷ v / 2 ^ 48 % 256 ∷ v / 2 ^ 40 % 256 ∷ v / 2 ^ 32 % 256 ∷ be32 v

abbrev pub join16 : ℕ → ℕ → ℕ
join16 a b = bit_or (a * 2 ^ 8) b

abbrev pub join32 : ℕ → ℕ → ℕ → ℕ → ℕ
join32 a b c d = bit_or (bit_or (bit_or (a * 2 ^ 24) (b * 2 ^ 16)) (c * 2 ^ 8)) d

-- a round of `read_be64`
abbrev pub shift_in : ℕ → ℕ → ℕ
shift_in value b = bit_or (value * 2 ^ 8 % 2 ^ 64) b

abbrev pub join64 : ℕ → ℕ → ℕ → ℕ → ℕ → ℕ → ℕ → ℕ → ℕ
join64 a b c d e f g h =
    shift_in
      (shift_in (shift_in (shift_in (shift_in (shift_in (shift_in (shift_in 0 a) b) c) d) e) f) g) h

pub join16-add : (a b : ℕ) → b < 256 → join16 a b ≡ a * 256 + b
join16-add a b p = bit_or-add 8 a b p

pub join32-add :
    (a b c d : ℕ)
    → b < 256
    → c < 256
    → d < 256
    → join32 a b c d ≡ a * 2 ^ 24 + b * 2 ^ 16 + c * 2 ^ 8 + d
join32-add a b c d p q r =
    ap (λ x. bit_or (bit_or x (c * 2 ^ 8)) d)
      (bit_or-add 24 a (b * 2 ^ 16) (omega arith) ∙ regroup2)
    ∙ ap (λ x. bit_or x d) (bit_or-add 16 (a * 256 + b) (c * 2 ^ 8) (omega arith) ∙ regroup1)
    ∙ bit_or-add 8 ((a * 256 + b) * 256 + c) d r
    ∙ omega arith
  where
    regroup2 : a * 2 ^ 24 + b * 2 ^ 16 ≡ (a * 256 + b) * 2 ^ 16
    regroup2 = omega arith

    regroup1 : (a * 256 + b) * 2 ^ 16 + c * 2 ^ 8 ≡ ((a * 256 + b) * 256 + c) * 2 ^ 8
    regroup1 = omega arith

shift_in-add : (x v b : ℕ) → x ≡ v → v < 2 ^ 56 → b < 256 → shift_in x b ≡ v * 256 + b
shift_in-add x v b e p q =
    let fits : v * 2 ^ 8 % 2 ^ 64 ≡ v * 2 ^ 8 = omega arith in
    ap (λ y. shift_in y b) e ∙ ap (λ y. bit_or y b) fits ∙ bit_or-add 8 v b q

pub join64-add :
    (a b c d e f g h : ℕ)
    → a < 256
    → b < 256
    → c < 256
    → d < 256
    → e < 256
    → f < 256
    → g < 256
    → h < 256
    → join64 a b c d e f g h
      ≡ a * 2 ^ 56 + b * 2 ^ 48 + c * 2 ^ 40 + d * 2 ^ 32 + e * 2 ^ 24 + f * 2 ^ 16 + g * 2 ^ 8 + h
join64-add a b c d e f g h pa pb pc pd pe pf pg ph =
    let v2 = a * 256 + b in
    let v3 = v2 * 256 + c in
    let v4 = v3 * 256 + d in
    let v5 = v4 * 256 + e in
    let v6 = v5 * 256 + f in
    let v7 = v6 * 256 + g in
    let s1 : shift_in 0 a ≡ a = shift_in-add 0 0 a refl (omega arith) pa ∙ omega arith in
    let s2 = shift_in-add _ a b s1 (omega arith) pb in
    let s3 = shift_in-add _ v2 c s2 (omega arith) pc in
    let s4 = shift_in-add _ v3 d s3 (omega arith) pd in
    let s5 = shift_in-add _ v4 e s4 (omega arith) pe in
    let s6 = shift_in-add _ v5 f s5 (omega arith) pf in
    let s7 = shift_in-add _ v6 g s6 (omega arith) pg in
    shift_in-add _ v7 h s7 (omega arith) ph ∙ omega arith

-- Reading back what was written.
pub join16-be16 : (v : ℕ) → v < 2 ^ 16 → join16 (v / 2 ^ 8 % 256) (v % 256) ≡ v
join16-be16 v h = join16-add (v / 2 ^ 8 % 256) (v % 256) (omega arith) ∙ omega arith

pub join32-be32 :
    (v : ℕ)
    → v < 2 ^ 32
    → join32 (v / 2 ^ 24 % 256) (v / 2 ^ 16 % 256) (v / 2 ^ 8 % 256) (v % 256) ≡ v
join32-be32 v h =
    join32-add (v / 2 ^ 24 % 256) (v / 2 ^ 16 % 256) (v / 2 ^ 8 % 256) (v % 256) (omega arith)
      (omega arith) (omega arith)
    ∙ omega arith

pub join64-be64 :
    (v : ℕ)
    → v < 2 ^ 64
    → join64
        (v / 2 ^ 56 % 256)
        (v / 2 ^ 48 % 256)
        (v / 2 ^ 40 % 256)
        (v / 2 ^ 32 % 256)
        (v / 2 ^ 24 % 256)
        (v / 2 ^ 16 % 256)
        (v / 2 ^ 8 % 256)
        (v % 256)
      ≡ v
join64-be64 v h =
    join64-add (v / 2 ^ 56 % 256) (v / 2 ^ 48 % 256) (v / 2 ^ 40 % 256) (v / 2 ^ 32 % 256)
      (v / 2 ^ 24 % 256) (v / 2 ^ 16 % 256) (v / 2 ^ 8 % 256) (v % 256) (omega arith) (omega arith)
      (omega arith) (omega arith) (omega arith) (omega arith) (omega arith) (omega arith)
    ∙ omega arith

-- `std::memcpy` behind a prefix replaces what was there.
pub copy_bytes-append :
    (pre old bytes : List ℕ)
    → length old ≡ length bytes
    → copy_bytes (pre ++ old) (length pre) bytes ≡ pre ++ bytes
unfolding copy_bytes
copy_bytes-append pre [] [] h = refl
copy_bytes-append pre (x ∷ old) [] h = absurd (omega arith)
copy_bytes-append pre [] (b ∷ bytes) h = absurd (omega arith)
copy_bytes-append pre (x ∷ old) (b ∷ bytes) h =
    ap₂ (λ buf at. copy_bytes buf at bytes) (replaced pre) (longer pre)
    ∙ copy_bytes-append (pre ++ (b ∷ [])) old bytes (omega arith)
    ∙ append_assoc pre (b ∷ []) bytes
  where
    replaced : (p : List ℕ) → set (p ++ (x ∷ old)) (length p) b ≡ (p ++ (b ∷ [])) ++ old
    replaced [] = refl
    replaced (y ∷ p) = ap (◌∷◌ y) (replaced p)

    longer : (p : List ℕ) → length p + 1 ≡ length (p ++ (b ∷ []))
    longer [] = refl
    longer (y ∷ p) = omega (arith, longer p)
