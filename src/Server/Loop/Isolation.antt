-- ===== src/Server/Loop/Isolation.antt =====
-- What a datagram can do to the sessions of other clients (src/server/epoll_server.cpp), and what the
-- sweep takes away.
use swiftlink.Common.{
  ℕ, ◌*◌, ◌%◌, ◌^◌, ◌≡◌, ◌≢◌, ◌⊎◌, inl, inr, refl, sym, ap, subst, ◌∙◌, arith, true, false, none,
  some, Option-cases, Bool-cases, List, length, leb, if◌then◌else◌, ltb,
}
use swiftlink.Protocol.Packet.{DecodeResult-cases, DecodeError, Packet, success, failure}
use swiftlink.Protocol.Serializer.{deserialize}
use swiftlink.Net.UdpSocket.{Endpoint}
use swiftlink.Server.Config.{Config}
use swiftlink.Server.Keys.{same_key, same_key_iff}
use swiftlink.Server.Replies.{SessionKey}
use swiftlink.Server.Table.{Entry, Table, find, emplace, is_stale, elapsed_ms}
use swiftlink.Server.Table.Lookup.{
  HasDistinctKeys, unless, find-emplace, find-update, find-erase_if,
}
use swiftlink.Server.Loop.{
  Server, Readings, tick, new_entry, next_entry, after_packet, serve, make_room, open_session,
  on_packet, on_datagram, on_event, key_of,
}
use swiftlink.Server.Loop.Invariant.{Inv, admit-cases}
use swiftlink.Transfer.Session.{Storage, handle_packet}

-- The entry of a key is as it was, or it lingered and has made room.
abbrev pub KeptOrRetired : {handle : Type 0} → SessionKey → Table handle → Table handle → Type 0
KeptOrRetired {handle} j before after =
    (find j after ≡ find j before)
    ⊎ ((e : Entry handle) × (find j before ≡ some e) × (e.lingering ≡ true) × (find j after ≡ none))

same_key-ne : (j key : SessionKey) → j ≢ key → same_key j key ≡ false
same_key-ne j key h = ground (arith, same_key_iff j key)

module _ (st : Storage) (config : Config) (j : SessionKey) where
  serve-other :
      (server : Server st.Handle) (d : st.Disk) (key : SessionKey) (entry : Entry st.Handle)
      (p : Packet) (r : Readings)
      → find key server.sessions ≡ some entry
      → j ≢ key
      → find j (serve st server d key entry p r).server.sessions ≡ find j server.sessions
  unfolding serve after_packet
  serve-other server d key entry p r h other =
      let o = handle_packet st entry.receiver d p in
      find-update key j (next_entry st entry r o) entry server.sessions h
      ∙ ap (λ b. if b then some (next_entry st entry r o) else find j server.sessions)
          (same_key-ne j key other)

  make_room-KeptOrRetired :
      (t : Table st.Handle) (d : st.Disk)
      → HasDistinctKeys t
      → KeptOrRetired j t (make_room st config t d).0
  unfolding make_room
  make_room-KeptOrRetired t d h =
      elim (Bool-cases (leb (config.max_sessions * 2 % 2 ^ 64) (length t))) [
        | inr short ↦ rw short (inl refl)
        | inl full ↦ rw full (elim (Option-cases (find j t)) [
          | inl absent ↦ inl (
              find-erase_if st (λ e. e.lingering) j t d h
              ∙ ap (unless (λ e. e.lingering)) absent
              ∙ sym absent)
          | inr (e, present) ↦
              let erased = find-erase_if st (λ e. e.lingering) j t d h in ground arith
        ])
      ]

  make_room-absent :
      (key : SessionKey) (t : Table st.Handle) (d : st.Disk)
      → HasDistinctKeys t
      → find key t ≡ none
      → find key (make_room st config t d).0 ≡ none
  unfolding make_room
  make_room-absent key t d h absent =
      let erased = find-erase_if st (λ e. e.lingering) key t d h in ground arith

  open_session-KeptOrRetired :
      (server : Server st.Handle) (d : st.Disk) (key : SessionKey) (peer : Endpoint) (p : Packet)
      (r : Readings)
      → find key server.sessions ≡ none
      → HasDistinctKeys server.sessions
      → j ≢ key
      → KeptOrRetired j server.sessions
          (open_session st config server d key peer p r).server.sessions
  unfolding open_session
  open_session-KeptOrRetired server d key peer p r absent h other =
      let room = make_room st config server.sessions d in
      let entry = new_entry st config peer r in
      let gone : find key room.0 ≡ none = make_room-absent key server.sessions d h absent in
      let put : find j (emplace key entry room.0) ≡ find j room.0 =
        find-emplace key j entry room.0 gone
        ∙ ap (λ b. if b then some entry else find j room.0) (same_key-ne j key other) in
      let found : find key (emplace key entry room.0) ≡ some entry =
        ground (arith, find-emplace key key entry room.0 gone, same_key_iff key key) in
      let served =
        serve-other (record server { sessions = emplace key entry room.0 }) room.1 key entry p r
          found other in
      elim (make_room-KeptOrRetired server.sessions d h) [
        | inl same ↦ inl (served ∙ put ∙ same)
        | inr (e, was, lingers, none_now) ↦ inr (e, was, lingers, served ∙ put ∙ none_now)
      ]

  on_packet-KeptOrRetired :
      (server : Server st.Handle) (d : st.Disk) (peer : Endpoint) (p : Packet) (r : Readings)
      → HasDistinctKeys server.sessions
      → j ≢ key_of peer p
      → KeptOrRetired j server.sessions (on_packet st config server d peer p r).server.sessions
  unfolding on_packet
  on_packet-KeptOrRetired server d peer p r h other =
      elim (Option-cases (find (key_of peer p) server.sessions)) [
        | inr (entry, e) ↦
            rw (on_packet, e) (inl (serve-other server d (key_of peer p) entry p r e other))
        | inl absent ↦
            rw (on_packet, absent)
              (elim (admit-cases st config server d (key_of peer p) peer p r) [
                | inl same ↦ inl (ap (find j) same)
                | inr (opens, few) ↦
                    subst (λ x. KeptOrRetired j server.sessions x.server.sessions) (sym opens)
                      (open_session-KeptOrRetired server d (key_of peer p) peer p r absent h other)
              ])
      ]

  -- A datagram that is a well-formed packet leaves a session alone whose key is not the address and
  -- port of the sender with the session id in the packet, except that it may be dropped to make room
  -- when it is settled and lingers; a datagram that is not a well-formed packet leaves the table as it
  -- is. The table must have the invariant of the server.
  pub on_datagram-KeptOrRetired :
      (server : Server st.Handle) (d : st.Disk) (peer : Endpoint) (bytes : List ℕ) (r : Readings)
      → Inv config server.sessions
      → ((p : Packet) → deserialize bytes ≡ success p → j ≢ key_of peer p)
      → ((p : Packet) × ((deserialize bytes ≡ success p)
            × KeptOrRetired j server.sessions
                (on_datagram st config server d peer bytes r).server.sessions))
        ⊎ ((x : DecodeError) × ((deserialize bytes ≡ failure x)
              × ((on_datagram st config server d peer bytes r).server.sessions ≡ server.sessions)))
  unfolding on_datagram
  on_datagram-KeptOrRetired server d peer bytes r v other =
      elim (DecodeResult-cases (deserialize bytes)) [
        | inl (p, e) ↦
            let kept = on_packet-KeptOrRetired server d peer p r v.distinct (other p e) in
            inl (p, (e, rw (on_datagram, e) kept))
        | inr (x, e) ↦ inr (x, (e, rw (on_datagram, e) refl))
      ]

-- The sweep erases the sessions that have lingered for longer than `session_linger`, and those in
-- progress that have heard nothing for longer than `session_idle_timeout`, and leaves every other as
-- it is.
pub find-tick :
    (st : Storage) (config : Config) (server : Server st.Handle) (d : st.Disk) (now : ℕ)
    (j : SessionKey)
    → Inv config server.sessions
    → find j (on_event st config server d (tick now)).server.sessions
      ≡ unless
          (λ e.
            if e.lingering
            then ltb config.session_linger (elapsed_ms e.completed_at now)
            else ltb config.session_idle_timeout (elapsed_ms e.last_activity now))
          (find j server.sessions)
unfolding on_event
find-tick st config server d now j v =
    find-erase_if st (is_stale config now) j server.sessions d v.distinct
