-- ===== src/Transfer/Delivery/Sums.antt =====
-- The bytes of the chunks of a set, as `bytes_written_` of src/transfer/receiver_session.cpp counts them.
use swiftlink.Common.{
  ℕ, zero, suc, ◌+◌, ◌*◌, ◌^◌, ◌≤◌, ◌<◌, ◌≡◌, refl, ap, ◌∙◌, arith, inl, inr, Bool, true, false,
  some, ◌==◌, min, if◌then◌else◌, Bool-cases, ℕ_discrete,
}
use swiftlink.Transfer.Chunks.{chunk_count, chunk_want, chunk_bounds}
use swiftlink.Transfer.ReceiverWindow.Refine.{insert}

module _ (size c : ℕ) where
  -- the bytes of the chunks below `k` that are in the set
  unfoldable pub stored : (ℕ → Bool) → ℕ → ℕ
  stored seen zero = 0
  stored seen (suc k) = (if seen k then chunk_want size k c else 0) + stored seen k

  pub stored-none : (k : ℕ) → stored (λ s. false) k ≡ 0
  unfolding stored
  stored-none zero = refl
  stored-none (suc k) = omega (arith, stored-none k)

  stored-insert_above :
      (seen : ℕ → Bool) (n k : ℕ) → k ≤ n → stored (insert n seen) k ≡ stored seen k
  unfolding stored
  stored-insert_above seen n zero h = refl
  stored-insert_above seen n (suc k) h =
      let other : (k == n) ≡ false = ground arith in
      rw other (
        ap (λ x. (if seen k then chunk_want size k c else 0) + x)
          (stored-insert_above seen n k (omega arith)))

  pub stored-insert :
      (seen : ℕ → Bool) (n k : ℕ)
      → seen n ≡ false
      → n < k
      → stored (insert n seen) k ≡ stored seen k + chunk_want size n c
  unfolding stored
  stored-insert seen n zero new h = absurd (omega arith)
  stored-insert seen n (suc k) new h = elim (ℕ_discrete k n) [
    | yes e ↦
        let same : (n == n) ≡ true = ground arith in
        rw (e, new, same) (omega (arith, stored-insert_above seen n n (omega arith)))
    | no ne ↦
        let other : (k == n) ≡ false = ground arith in
        rw other (omega (arith, stored-insert seen n k new (omega arith)))
  ]

  pub stored-le : (seen : ℕ → Bool) (k : ℕ) → stored seen k ≤ stored (λ s. true) k
  unfolding stored
  stored-le seen zero = omega arith
  stored-le seen (suc k) = let ih = stored-le seen k in ground arith

  -- A set that has the bytes of all chunks has all the chunks.
  pub stored_complete :
      (seen : ℕ → Bool) (k : ℕ)
      → ((n : ℕ) → n < k → 0 < chunk_want size n c)
      → stored seen k ≡ stored (λ s. true) k
      → (n : ℕ) → n < k
      → seen n ≡ true
  unfolding stored
  stored_complete seen zero pos e n lt = absurd (omega arith)
  stored_complete seen (suc k) pos e n lt =
      let rest = stored-le seen k in
      let here = pos k (omega arith) in
      elim (Bool-cases (seen k)) [
        | inr missing ↦ absurd (omega (arith, rw missing at e))
        | inl had ↦ elim (ℕ_discrete n k) [
          | yes same ↦ ap seen same ∙ had
          | no ne ↦
              stored_complete seen k (λ m below. pos m (omega arith)) (omega (arith, rw had at e)) n
                (omega arith)
        ]
      ]

  pub stored_all_in :
      (seen : ℕ → Bool) (k : ℕ)
      → ((n : ℕ) → n < k → seen n ≡ true)
      → stored seen k ≡ stored (λ s. true) k
  unfolding stored
  stored_all_in seen zero all = refl
  stored_all_in seen (suc k) all =
      rw (all k (omega arith))
        (ap (λ x. chunk_want size k c + x) (stored_all_in seen k (λ n lt. all n (omega arith))))

  -- All the chunks have the bytes of the file.
  pub stored-all :
      (total j : ℕ)
      → size + c ≤ 2 ^ 64
      → chunk_count size c ≡ some total
      → j ≤ total
      → stored (λ s. true) j ≡ min (j * c) size
  unfolding stored
  stored-all total zero fits count le = omega arith
  stored-all total (suc j) fits count le =
      let (starts, pos, most, ends) = chunk_bounds size c total j fits count (omega arith) in
      let ih = stored-all total j fits count (omega arith) in omega (arith, ends, starts, ih)
