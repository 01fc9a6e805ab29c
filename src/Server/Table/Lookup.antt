-- ===== src/Server/Table/Lookup.antt =====
-- The operations of the session table by what `find` gives afterwards.
use swiftlink.Common.{◌≡◌, refl, arith, Bool, Option, none, some, [], ◌∷◌, if◌then◌else◌}
use swiftlink.Server.Keys.{same_key, same_key_iff}
use swiftlink.Server.Replies.{SessionKey}
use swiftlink.Server.Table.{Entry, Table, find, emplace, update, erase_if}
use swiftlink.Transfer.Session.{Storage, abandon}

module _ {handle : Type 0} where
  pub find-emplace :
      (key j : SessionKey) (entry : Entry handle) (t : Table handle)
      → find key t ≡ none
      → find j (emplace key entry t) ≡ (if same_key j key then some entry else find j t)
  unfolding find emplace
  find-emplace key j entry [] h = refl
  find-emplace key j entry ((k, e) ∷ rest) h = ground (
    arith,
    find-emplace key j entry rest,
    same_key_iff j k,
    same_key_iff key k,
    same_key_iff j key,
  )

  pub find-update :
      (key j : SessionKey) (entry old : Entry handle) (t : Table handle)
      → find key t ≡ some old
      → find j (update key entry t) ≡ (if same_key j key then some entry else find j t)
  unfolding find update
  find-update key j entry old [] h = ground arith
  find-update key j entry old ((k, e) ∷ rest) h = ground (
    arith,
    find-update key j entry old rest,
    same_key_iff j k,
    same_key_iff key k,
    same_key_iff j key,
  )

-- No key stands twice.
abbrev pub HasDistinctKeys : {handle : Type 0} → Table handle → Type 0
HasDistinctKeys [] = Unit {0}
HasDistinctKeys ((k, e) ∷ rest) = (find k rest ≡ none) × HasDistinctKeys rest

abbrev pub unless :
    {handle : Type 0} → (Entry handle → Bool) → Option (Entry handle) → Option (Entry handle)
unless test none = none
unless test (some e) = if test e then none else some e

module _ {handle : Type 0} where
  pub emplace-HasDistinctKeys :
      (key : SessionKey) (entry : Entry handle) (t : Table handle)
      → find key t ≡ none
      → HasDistinctKeys t
      → HasDistinctKeys (emplace key entry t)
  unfolding find emplace
  emplace-HasDistinctKeys key entry [] h d = (refl, tt)
  emplace-HasDistinctKeys key entry ((k, e) ∷ rest) h d = ground (
    arith,
    emplace-HasDistinctKeys key entry rest,
    find-emplace key k entry rest,
    same_key_iff key k,
    same_key_iff k key,
  )

  pub update-HasDistinctKeys :
      (key : SessionKey) (entry old : Entry handle) (t : Table handle)
      → find key t ≡ some old
      → HasDistinctKeys t
      → HasDistinctKeys (update key entry t)
  unfolding find update
  update-HasDistinctKeys key entry old [] h d = tt
  update-HasDistinctKeys key entry old ((k, e) ∷ rest) h d = ground (
    arith,
    update-HasDistinctKeys key entry old rest,
    find-update key k entry old rest,
    same_key_iff key k,
    same_key_iff k key,
  )

module _ (st : Storage) (test : Entry st.Handle → Bool) where
  -- Erasing takes away the entries of the test, and no other.
  pub find-erase_if :
      (j : SessionKey) (t : Table st.Handle) (d : st.Disk)
      → HasDistinctKeys t
      → find j (erase_if st test t d).0 ≡ unless test (find j t)
  unfolding find erase_if
  find-erase_if j [] d h = refl
  find-erase_if j ((k, e) ∷ rest) d h = ground (
    arith,
    find-erase_if j rest (if test e then abandon st e.receiver d else d),
    same_key_iff j k,
  )

  pub erase_if-HasDistinctKeys :
      (t : Table st.Handle) (d : st.Disk)
      → HasDistinctKeys t
      → HasDistinctKeys (erase_if st test t d).0
  unfolding find erase_if
  erase_if-HasDistinctKeys [] d h = tt
  erase_if-HasDistinctKeys ((k, e) ∷ rest) d h =
      let d' = if test e then abandon st e.receiver d else d in
      ground (arith, find-erase_if k rest d', erase_if-HasDistinctKeys rest d')
