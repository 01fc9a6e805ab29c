-- ===== src/Crypto/Sha256/Chunking.antt =====
-- Hashing in pieces (src/crypto/sha256.cpp).
use swiftlink.Common.{
  ℕ, zero, suc, ◌+◌, ◌-◌, ◌*◌, ◌%◌, ◌^◌, ◌≤◌, ◌<◌, min, ◌≡◌, refl, sym, ap, ap₂, ◌∙◌, arith, true,
  false, List, [], ◌∷◌, ◌++◌, ltb, leb, ◌==◌, length, length-append, length-take, length-drop, take,
  drop, append_assoc, append-nil, take-append_behind, drop-append_behind, take-append_within,
  drop-append_within, take_all, dec_le, dec_lt,
}
use swiftlink.Crypto.Sha256.{
  Words, Sha256, compress, absorb, consume, update, finish, sha256, new_hasher,
}

-- The loop leaves less than a block, and enough fuel gives one result.
absorb_step :
    (fuel : ℕ) (s : Words) (bytes : List ℕ)
    → 64 ≤ length bytes
    → absorb (suc fuel) s bytes ≡ absorb fuel (compress s (take 64 bytes)) (drop 64 bytes)
unfolding absorb
absorb_step fuel s bytes h = let full : leb 64 (length bytes) ≡ true = ground arith in rw full

absorb_stop :
    (fuel : ℕ) (s : Words) (bytes : List ℕ) → length bytes < 64 → absorb fuel s bytes ≡ (s, bytes)
unfolding absorb
absorb_stop zero s bytes h = refl
absorb_stop (suc fuel) s bytes h =
    let short : leb 64 (length bytes) ≡ false = ground arith in rw short

absorb_fuel :
    (n m : ℕ) (s : Words) (bytes : List ℕ)
    → length bytes ≤ n
    → length bytes ≤ m
    → absorb n s bytes ≡ absorb m s bytes
absorb_fuel zero m s bytes h g =
    absorb_stop zero s bytes (omega arith) ∙ sym (absorb_stop m s bytes (omega arith))
absorb_fuel (suc n) zero s bytes h g =
    absorb_stop (suc n) s bytes (omega arith) ∙ sym (absorb_stop zero s bytes (omega arith))
absorb_fuel (suc n) (suc m) s bytes h g = elim (dec_le 64 (length bytes)) [
  | yes full ↦
      absorb_step n s bytes full
      ∙ absorb_fuel n m (compress s (take 64 bytes)) (drop 64 bytes)
          (omega (arith, length-drop 64 bytes)) (omega (arith, length-drop 64 bytes))
      ∙ sym (absorb_step m s bytes full)
  | no short ↦
      absorb_stop (suc n) s bytes (omega arith) ∙ sym (absorb_stop (suc m) s bytes (omega arith))
]

-- More input behind what was absorbed is absorbed behind what was left over.
absorb-append :
    (n m k : ℕ) (s : Words) (xs ys : List ℕ)
    → length xs ≤ n
    → length (xs ++ ys) ≤ m
    → length (xs ++ ys) ≤ k
    → absorb m s (xs ++ ys) ≡ absorb k (absorb n s xs).0 ((absorb n s xs).1 ++ ys)
absorb-append zero m k s xs ys hn hm hk =
    absorb_fuel m k s (xs ++ ys) hm hk
    ∙ ap (λ p. absorb k p.0 (p.1 ++ ys)) (sym (absorb_stop zero s xs (omega arith)))
absorb-append (suc n) zero k s xs ys hn hm hk =
    absorb_fuel zero k s (xs ++ ys) hm hk
    ∙ ap (λ p. absorb k p.0 (p.1 ++ ys))
        (sym (absorb_stop (suc n) s xs (omega (arith, length-append xs ys))))
absorb-append (suc n) (suc m) k s xs ys hn hm hk = elim (dec_le 64 (length xs)) [
  | no short ↦
      absorb_fuel (suc m) k s (xs ++ ys) hm hk
      ∙ ap (λ p. absorb k p.0 (p.1 ++ ys)) (sym (absorb_stop (suc n) s xs (omega arith)))
  | yes full ↦
      absorb_step m s (xs ++ ys) (omega (arith, length-append xs ys))
      ∙ ap₂ (λ t d. absorb m (compress s t) d) (take-append_within 64 xs ys full)
          (drop-append_within 64 xs ys full)
      ∙ absorb-append n m k (compress s (take 64 xs)) (drop 64 xs) ys
          (omega (arith, length-drop 64 xs))
          (omega (arith, length-append xs ys, length-append (drop 64 xs) ys, length-drop 64 xs))
          (omega (arith, length-append xs ys, length-append (drop 64 xs) ys, length-drop 64 xs))
      ∙ ap (λ p. absorb k p.0 (p.1 ++ ys)) (sym (absorb_step n s xs full))
]

-- Less than a block is left over.
absorb-short : (n : ℕ) (s : Words) (xs : List ℕ) → length xs ≤ n → length (absorb n s xs).1 < 64
absorb-short zero s xs h = rw (absorb_stop zero s xs (omega arith)) (omega arith)
absorb-short (suc n) s xs h = elim (dec_le 64 (length xs)) [
  | yes full ↦
      rw (absorb_step n s xs full)
        (absorb-short n (compress s (take 64 xs)) (drop 64 xs) (omega (arith, length-drop 64 xs)))
  | no short ↦ rw (absorb_stop (suc n) s xs (omega arith)) (omega arith)
]

-- And no more than there was.
absorb-le : (n : ℕ) (s : Words) (xs : List ℕ) → length (absorb n s xs).1 ≤ length xs
absorb-le zero s xs = unfold absorb in omega arith
absorb-le (suc n) s xs = elim (dec_le 64 (length xs)) [
  | yes full ↦
      rw (absorb_step n s xs full)
        (omega (arith, length-drop 64 xs, absorb-le n (compress s (take 64 xs)) (drop 64 xs)))
  | no short ↦ rw (absorb_stop (suc n) s xs (omega arith)) (omega arith)
]

-- `update` takes up the input behind the bytes that were waiting, one block after another.
abbrev taken_up : Sha256 → List ℕ → Sha256
taken_up h bytes =
    let r = absorb (length (h.block ++ bytes)) h.state (h.block ++ bytes) in
    record {
      state = r.0;
      block = r.1;
      total_bits = (h.total_bits + length bytes * 8 % 2 ^ 64) % 2 ^ 64;
    }

module _ (s : Words) (c : ℕ) (b bytes : List ℕ) (total : ℕ) where
  abbrev waiting : Sha256
  waiting = record { state = s; block = c ∷ b; total_bits = total }

  -- The input does not fill the block.
  update_within : length (c ∷ b) + length bytes < 64 → update waiting bytes ≡ taken_up waiting bytes
  unfolding update
  update_within short =
      let all : min (length bytes) (64 - length (c ∷ b)) ≡ length bytes = omega arith in
      let waits : (length (c ∷ b) == 0) ≡ false = ground arith in
      let whole : ltb (length (c ∷ (b ++ bytes))) 64 ≡ true =
        ground (arith, length-append (c ∷ b) bytes) in
      rw (
        all,
        take_all (length bytes) bytes (omega arith),
        waits,
        whole,
        absorb_stop (length (c ∷ (b ++ bytes))) s (c ∷ (b ++ bytes))
            (omega (arith, length-append (c ∷ b) bytes)),
      )

  -- It fills the block, and the rest follows.
  update_beyond :
      length (c ∷ b) < 64
      → 64 ≤ length (c ∷ b) + length bytes
      → update waiting bytes ≡ taken_up waiting bytes
  unfolding update consume
  update_beyond short long =
      let n = 64 - length (c ∷ b) in
      let part : min (length bytes) n ≡ n = omega arith in
      let waits : (length (c ∷ b) == 0) ≡ false = ground arith in
      let full : ltb (length (c ∷ (b ++ take n bytes))) 64 ≡ false =
        ground (arith, length-append (c ∷ b) (take n bytes), length-take n bytes) in
      let sum : length (c ∷ b) + n ≡ 64 = omega arith in
      let front : take 64 (c ∷ (b ++ bytes)) ≡ c ∷ (b ++ take n bytes) =
        ap (λ k. take k (c ∷ (b ++ bytes))) (sym sum) ∙ take-append_behind (c ∷ b) bytes n in
      let back : drop 64 (c ∷ (b ++ bytes)) ≡ drop n bytes =
        ap (λ k. drop k (c ∷ (b ++ bytes))) (sym sum) ∙ drop-append_behind (c ∷ b) bytes n in
      rw (
        part,
        waits,
        full,
        absorb_step (length (b ++ bytes)) s (c ∷ (b ++ bytes))
            (omega (arith, length-append (c ∷ b) bytes)),
        front,
        back,
        absorb_fuel (length (b ++ bytes)) (length (drop n bytes))
            (compress s (c ∷ (b ++ take n bytes))) (drop n bytes)
            (omega (arith, length-append b bytes, length-drop n bytes)) (omega arith),
      )

update_parts :
    (s : Words) (b : List ℕ) (total : ℕ) (bytes : List ℕ)
    → length b < 64
    → update (record { state = s; block = b; total_bits = total }) bytes
      ≡ taken_up (record { state = s; block = b; total_bits = total }) bytes
update_parts s [] total bytes short = unfold update consume in refl
update_parts s (c ∷ b) total bytes short = elim (dec_lt (length (c ∷ b) + length bytes) 64) [
  | yes fits ↦ update_within s c b bytes total fits
  | no over ↦ update_beyond s c b bytes total short (omega arith)
]

update_lem : (h : Sha256) (bytes : List ℕ) → length h.block < 64 → update h bytes ≡ taken_up h bytes
update_lem h bytes short = update_parts h.state h.block h.total_bits bytes short

-- Feeding two pieces one after the other is feeding their concatenation, at any state of the hasher.
pub update-append :
    (h : Sha256) (xs ys : List ℕ)
    → length h.block < 64
    → update (update h xs) ys ≡ update h (xs ++ ys)
update-append h xs ys short =
    ap (λ k. update k ys) (update_lem h xs short)
    ∙ update_lem (taken_up h xs) ys
        (absorb-short (length (h.block ++ xs)) h.state (h.block ++ xs) (omega arith))
    ∙ joined
    ∙ sym (update_lem h (xs ++ ys) short)
  where
    bits :
        (t m n k : ℕ)
        → k ≡ m + n
        → ((t + m * 8 % 2 ^ 64) % 2 ^ 64 + n * 8 % 2 ^ 64) % 2 ^ 64 ≡ (t + k * 8 % 2 ^ 64) % 2 ^ 64
    bits t m n k e = omega arith

    absorbed :
        absorb
          (length ((taken_up h xs).block ++ ys))
          (taken_up h xs).state
          ((taken_up h xs).block ++ ys)
        ≡ absorb (length (h.block ++ (xs ++ ys))) h.state (h.block ++ (xs ++ ys))
    absorbed =
        let r = absorb (length (h.block ++ xs)) h.state (h.block ++ xs) in
        let k = length ((h.block ++ xs) ++ ys) in
        let less : length r.1 ≤ length (h.block ++ xs) =
          absorb-le (length (h.block ++ xs)) h.state (h.block ++ xs) in
        absorb_fuel (length (r.1 ++ ys)) k r.0 (r.1 ++ ys) (omega arith)
          (omega (arith, length-append r.1 ys, length-append (h.block ++ xs) ys))
        ∙ sym (
            absorb-append (length (h.block ++ xs)) k k h.state (h.block ++ xs) ys (omega arith)
              (omega arith) (omega arith))
        ∙ ap (λ z. absorb (length z) h.state z) (append_assoc h.block xs ys)

    joined : taken_up (taken_up h xs) ys ≡ taken_up h (xs ++ ys)
    joined = λ i. record {
      state = (absorbed i).0;
      block = (absorbed i).1;
      total_bits =
          bits h.total_bits (length xs) (length ys) (length (xs ++ ys)) (length-append xs ys) i;
    }

-- A fresh hasher takes up nothing.
pub update-none : update new_hasher [] ≡ new_hasher
unfolding update consume absorb
update-none = refl

-- Hashing at once is one call of `update`.
pub sha256_lem : (bytes : List ℕ) → sha256 bytes ≡ finish (update new_hasher bytes)
unfolding sha256
sha256_lem bytes = refl

-- One call of `update` after the other.
abbrev pub update_all : Sha256 → List (List ℕ) → Sha256
update_all h [] = h
update_all h (piece ∷ pieces) = update_all (update h piece) pieces

abbrev pub concat : List (List ℕ) → List ℕ
concat [] = []
concat (piece ∷ pieces) = piece ++ concat pieces

update_all_lem :
    (h : Sha256) (xs : List ℕ) (pieces : List (List ℕ))
    → length h.block < 64
    → update_all (update h xs) pieces ≡ update h (xs ++ concat pieces)
update_all_lem h xs [] short = ap (update h) (sym (append-nil xs))
update_all_lem h xs (ys ∷ pieces) short =
    ap (λ k. update_all k pieces) (update-append h xs ys short)
    ∙ update_all_lem h (xs ++ ys) pieces short
    ∙ ap (update h) (append_assoc xs ys (concat pieces))

-- However a message is cut into calls of `update` on a new hasher, and whatever their number, the digest
-- is that of the message hashed at once.
pub finish-update_all :
    (pieces : List (List ℕ)) → finish (update_all new_hasher pieces) ≡ sha256 (concat pieces)
finish-update_all pieces =
    ap (λ h. finish (update_all h pieces)) (sym update-none)
    ∙ ap finish (update_all_lem new_hasher [] pieces (omega arith))
    ∙ sym (sha256_lem (concat pieces))
