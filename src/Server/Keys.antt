-- ===== src/Server/Keys.antt =====
-- Equality of session keys, as std::map has it from `operator<` of src/server/epoll_server.cpp.
use swiftlink.Common.{
  ℕ, ◌≡◌, ◌↔◌, ◌⊎◌, inl, inr, refl, arith, Bool, true, false, not, ◌&&◌, List, [], ◌∷◌,
}
use swiftlink.Server.Replies.{SessionKey, text_less, text_equal, key_less}

-- two keys of which neither is less than the other
unfoldable pub same_key : SessionKey → SessionKey → Bool
same_key a b = not (key_less a b) && not (key_less b a)

text_equal_refl : (xs : List ℕ) → text_equal xs xs ≡ true
text_equal_refl [] = refl
text_equal_refl (x ∷ xs) = ground (arith, text_equal_refl xs)

text_equal→≡ : (xs ys : List ℕ) → text_equal xs ys ≡ true → xs ≡ ys
text_equal→≡ [] [] h = refl
text_equal→≡ [] (y ∷ ys) h = ground arith
text_equal→≡ (x ∷ xs) [] h = ground arith
text_equal→≡ (x ∷ xs) (y ∷ ys) h = ground (arith, text_equal→≡ xs ys)

text_equal_sym : (xs ys : List ℕ) → text_equal xs ys ≡ text_equal ys xs
text_equal_sym [] [] = refl
text_equal_sym [] (y ∷ ys) = refl
text_equal_sym (x ∷ xs) [] = refl
text_equal_sym (x ∷ xs) (y ∷ ys) = ground (arith, text_equal_sym xs ys)

-- Of two different texts one is less.
text_less_total :
    (xs ys : List ℕ)
    → text_equal xs ys ≡ false
    → (text_less xs ys ≡ true) ⊎ (text_less ys xs ≡ true)
text_less_total [] [] h = ground arith
text_less_total [] (y ∷ ys) h = inl refl
text_less_total (x ∷ xs) [] h = inr refl
text_less_total (x ∷ xs) (y ∷ ys) h = ground (arith, text_less_total xs ys)

same_key_refl : (a : SessionKey) → same_key a a ≡ true
unfolding same_key key_less
same_key_refl a = ground (arith, text_equal_refl a.address)

same_key→≡ : (a b : SessionKey) → same_key a b ≡ true → a ≡ b
unfolding same_key key_less
same_key→≡ a b h = ground (
  arith,
  text_equal→≡ a.address b.address,
  text_equal_sym a.address b.address,
  text_less_total a.address b.address,
)

-- The lookup of the session table finds a session by its address, port and id, and by nothing less: two
-- keys are the same for the table exactly when all three agree.
pub same_key_iff : (a b : SessionKey) → (same_key a b ≡ true) ↔ (a ≡ b)
same_key_iff a b = (same_key→≡ a b, λ e. rw e (same_key_refl b))
