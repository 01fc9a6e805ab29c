-- ===== src/Transfer/SenderWindow/Watch/Few.antt =====
-- How many numbers `expire` of src/transfer/window.cpp hands back.
use swiftlink.Common.{
  ℕ, zero, suc, ◌+◌, ◌≤◌, ◌<◌, ◌≢◌, refl, inl, inr, sym, ◌∙◌, subst, arith, List, [], ◌∷◌, length,
  ◌==◌, if◌then◌else◌, Bool-cases,
}
use swiftlink.Transfer.SenderWindow.{SenderWindow, expire}
use swiftlink.Transfer.SenderWindow.Timers.{Member, Timed, HasGenerations}
use swiftlink.Transfer.SenderWindow.Expiry.{Distinct, Due, expire-Expires}

without : ℕ → List ℕ → List ℕ
without k [] = []
without k (x ∷ xs) = if x == k then xs else x ∷ without k xs

length-without : (k : ℕ) (xs : List ℕ) → length xs ≤ suc (length (without k xs))
unfolding without
length-without k [] = omega arith
length-without k (x ∷ xs) = let ih = length-without k xs in ground arith

Member-without :
    (k : ℕ) (xs : List ℕ) (x : ℕ) → Distinct xs → Member x (without k xs) → Member x xs × (x ≢ k)
unfolding without
Member-without k [] x d m = absurd m
Member-without k (y ∷ ys) x d m = elim (Bool-cases (y == k)) [
  | inl same ↦
      let later : Member x ys = rw same at m in
      let met : x ≢ y = λ e. d.0 (subst (λ z. Member z ys) e later) in
      (inr later, λ e. met (ground (arith, same, e)))
  | inr other ↦ behind (ground (arith, other)) (rw other at m) (Member-without k ys x d.1)
]
  where
    behind :
        y ≢ k
        → Member x (y ∷ without k ys)
        → (Member x (without k ys) → Member x ys × (x ≢ k))
        → Member x (y ∷ ys) × (x ≢ k)
    behind ne (inl e) ih = (inl e, λ q. ne (sym e ∙ q))
    behind ne (inr m) ih = let (old, other) = ih m in (inr old, other)

Distinct-without : (k : ℕ) (xs : List ℕ) → Distinct xs → Distinct (without k xs)
unfolding without
Distinct-without k [] d = tt
Distinct-without k (x ∷ xs) d = elim (Bool-cases (x == k)) [
  | inl same ↦ rw same d.1
  | inr other ↦ rw other (λ m. d.0 (Member-without k xs x d.1 m).0, Distinct-without k xs d.1)
]

-- So many distinct numbers fit a range of that size.
length-Distinct :
    (n low : ℕ) (xs : List ℕ)
    → Distinct xs
    → ((x : ℕ) → Member x xs → (low ≤ x) × (x < low + n))
    → length xs ≤ n
length-Distinct n low [] d inside = omega arith
length-Distinct zero low (x ∷ xs) d inside = absurd (omega (arith, inside x (inl refl)))
length-Distinct (suc n) low (x ∷ xs) d inside =
    let ih =
      length-Distinct n low (without (low + n) (x ∷ xs)) (Distinct-without (low + n) (x ∷ xs) d)
        (λ y m.
          let (old, other) = Member-without (low + n) (x ∷ xs) y d m in
          let (ge, lt) = inside y old in (ge, omega arith)) in
    omega (arith, length-without (low + n) (x ∷ xs))

pub length-expire :
    (w : SenderWindow) (now : ℕ) → Timed w → HasGenerations w → length (expire w now).1 ≤ w.capacity
length-expire w now t narrow =
    let e = (expire-Expires w now t narrow).0 in
    length-Distinct w.capacity w.base (expire w now).1 e.once λ s m. within s (e.sound s m)
  where
    within : (s : ℕ) → Due w now s → (w.base ≤ s) × (s < w.base + w.capacity)
    within s d =
        let (low, high) = t.inside d.timer d.queued d.live in
        (omega (arith, d.is_for), omega (arith, d.is_for, t.fits))
