-- ===== src/Server/Table.antt =====
-- The session table of src/server/epoll_server.cpp, a std::map: a list of the entries in the order of
-- their keys. A time point is a number of nanoseconds of the steady clock, which never goes back.
-- Erasing an entry runs the destructor of its `ReceiverSession` on the disk.
pub mod Bounds
pub mod Lookup
use swiftlink.Common.{
  ℕ, zero, suc, ◌+◌, ◌-◌, ◌*◌, ◌/◌, ◌%◌, ◌^◌, Bool, true, false, not, ◌&&◌, Option, none, some,
  List, [], ◌∷◌, length, ltb, leb, if◌then◌else◌,
}
use swiftlink.Net.UdpSocket.{Endpoint}
use swiftlink.Server.Config.{Config}
use swiftlink.Server.Keys.{same_key}
use swiftlink.Server.Replies.{SessionKey, key_less}
use swiftlink.Transfer.Session.{Storage, Session, abandon}

-- `Session` of the server
pub record Entry (handle : Type 0) : Type 0 where
  pub receiver : Session handle
  pub peer : Endpoint
  pub last_activity : ℕ
  pub started : ℕ
  pub lingering : Bool
  pub completed_at : ℕ

abbrev pub Table : Type 0 → Type 0
Table handle = List (SessionKey × Entry handle)

module _ {handle : Type 0} where
  unfoldable pub find : SessionKey → Table handle → Option (Entry handle)
  find key [] = none
  find key ((k, e) ∷ rest) = if same_key key k then some e else find key rest

  -- `emplace`, which leaves an entry that is there
  unfoldable pub emplace : SessionKey → Entry handle → Table handle → Table handle
  emplace key entry [] = (key, entry) ∷ []
  emplace key entry ((k, e) ∷ rest) =
      if key_less key k
      then (key, entry) ∷ (k, e) ∷ rest
      else if same_key key k
      then (k, e) ∷ rest
      else (k, e) ∷ emplace key entry rest

  -- a change of the entry that `find` gives
  unfoldable pub update : SessionKey → Entry handle → Table handle → Table handle
  update key entry [] = []
  update key entry ((k, e) ∷ rest) =
      if same_key key k then (k, entry) ∷ rest else (k, e) ∷ update key entry rest

  -- the count of admission control
  unfoldable pub active : Table handle → ℕ
  active [] = 0
  active ((k, e) ∷ rest) = if e.lingering then active rest else active rest + 1

-- std::chrono::duration_cast to milliseconds
abbrev pub elapsed_ms : ℕ → ℕ → ℕ
elapsed_ms since now = (now - since) / 1000000

-- whether the sweep erases an entry, and whether it counts it as expired
abbrev pub is_stale : {handle : Type 0} → Config → ℕ → Entry handle → Bool
is_stale config now e =
    if e.lingering
    then ltb config.session_linger (elapsed_ms e.completed_at now)
    else ltb config.session_idle_timeout (elapsed_ms e.last_activity now)

module _ (st : Storage) where
  -- A pass that erases the entries of a test, the one after the other.
  unfoldable pub erase_if :
      (Entry st.Handle → Bool) → Table st.Handle → st.Disk → Table st.Handle × st.Disk
  erase_if test [] d = ([], d)
  erase_if test ((k, e) ∷ rest) d =
      let (rest', d') = erase_if test rest (if test e then abandon st e.receiver d else d) in
      (if test e then rest' else (k, e) ∷ rest', d')

  -- lingering sessions make room when the table is full
  abbrev pub retire_lingering : Table st.Handle → st.Disk → Table st.Handle × st.Disk
  retire_lingering = erase_if (λ e. e.lingering)

  -- the idle sweep, on the tick of the timer
  abbrev pub sweep : Config → ℕ → Table st.Handle → st.Disk → Table st.Handle × st.Disk
  sweep config now = erase_if (is_stale config now)

  -- what the sweep adds to `expired`
  unfoldable pub count_expired : Config → ℕ → Table st.Handle → ℕ
  count_expired config now [] = 0
  count_expired config now ((k, e) ∷ rest) =
      let others = count_expired config now rest in
      if not e.lingering && is_stale config now e then others + 1 else others
