-- ===== src/Server/Table/Bounds.antt =====
-- How the operations of the session table change its size and its number of active sessions.
use swiftlink.Common.{ℕ, ◌+◌, ◌≤◌, ◌≡◌, arith, Bool, none, some, [], ◌∷◌, length, if◌then◌else◌}
use swiftlink.Server.Replies.{SessionKey}
use swiftlink.Server.Table.{Entry, Table, find, emplace, update, active, erase_if}
use swiftlink.Transfer.Session.{Storage, abandon}

abbrev pub weight : {handle : Type 0} → Entry handle → ℕ
weight e = if e.lingering then 0 else 1

module _ {handle : Type 0} where
  pub emplace-sizes :
      (key : SessionKey) (entry : Entry handle) (t : Table handle)
      → find key t ≡ none
      → (length (emplace key entry t) ≡ length t + 1)
        × (active (emplace key entry t) ≡ active t + weight entry)
  unfolding find emplace active
  emplace-sizes key entry [] h = ground arith
  emplace-sizes key entry ((k, e) ∷ rest) h = ground (arith, emplace-sizes key entry rest)

  pub update-sizes :
      (key : SessionKey) (entry old : Entry handle) (t : Table handle)
      → find key t ≡ some old
      → (length (update key entry t) ≡ length t)
        × (active (update key entry t) + weight old ≡ active t + weight entry)
  unfolding find update active
  update-sizes key entry old [] h = ground arith
  update-sizes key entry old ((k, e) ∷ rest) h = ground (arith, update-sizes key entry old rest)

  pub active-le-length : (t : Table handle) → active t ≤ length t
  unfolding active
  active-le-length [] = omega arith
  active-le-length ((k, e) ∷ rest) = ground (arith, active-le-length rest)

module _ (st : Storage) where
  pub erase_if-sizes :
      (test : Entry st.Handle → Bool) (t : Table st.Handle) (d : st.Disk)
      → (length (erase_if st test t d).0 ≤ length t) × (active (erase_if st test t d).0 ≤ active t)
  unfolding erase_if active
  erase_if-sizes test [] d = ground arith
  erase_if-sizes test ((k, e) ∷ rest) d =
      ground (arith, erase_if-sizes test rest (if test e then abandon st e.receiver d else d))

  -- Without its lingering entries a table has its active ones.
  pub erase_lingering-sizes :
      (t : Table st.Handle) (d : st.Disk)
      → (length (erase_if st (λ e. e.lingering) t d).0 ≡ active t)
        × (active (erase_if st (λ e. e.lingering) t d).0 ≡ active t)
  unfolding erase_if active
  erase_lingering-sizes [] d = ground arith
  erase_lingering-sizes ((k, e) ∷ rest) d =
      ground
        (arith, erase_lingering-sizes rest (if e.lingering then abandon st e.receiver d else d))
