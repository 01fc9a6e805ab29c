-- ===== src/Server/Loop/Invariant.antt =====
-- What holds of the session table of src/server/epoll_server.cpp after any events.
use swiftlink.Common.{
  ℕ, ◌+◌, ◌*◌, ◌%◌, ◌^◌, ◌<◌, ◌≤◌, ◌≡◌, ◌⊎◌, inl, inr, refl, sym, ap, subst, ◌∙◌, arith, Bool, true,
  Bool-cases, Option, none, some, Option-cases, List, [], ◌∷◌, length, leb,
}
use swiftlink.Protocol.Packet.{Packet}
use swiftlink.Protocol.Serializer.{deserialize}
use swiftlink.Net.UdpSocket.{Endpoint}
use swiftlink.Server.Config.{Config}
use swiftlink.Server.Keys.{same_key_iff}
use swiftlink.Protocol.Packet.{DecodeResult-cases}
use swiftlink.Server.Replies.{SessionKey}
use swiftlink.Server.Table.{Entry, Table, find, emplace, update, active, erase_if, is_stale}
use swiftlink.Server.Table.Bounds.{
  weight, emplace-sizes, update-sizes, erase_if-sizes, erase_lingering-sizes,
}
use swiftlink.Server.Table.Lookup.{
  HasDistinctKeys, unless, find-emplace, find-update, find-erase_if, emplace-HasDistinctKeys,
  update-HasDistinctKeys, erase_if-HasDistinctKeys,
}
use swiftlink.Server.Loop.{
  Server, Readings, Received, datagram, would_block, interrupted, receive_failed, Event, signal,
  tick, readable, new_entry, next_entry, after_packet, serve, make_room, open_session, admit,
  on_packet, on_datagram, drain, on_event, on_events, run, key_of, new_server,
}
use swiftlink.Transfer.Session.{Storage, Outcome, handle_packet}
use swiftlink.Transfer.Session.Settled.{settled_step}

-- An entry answers the peer of its key, and lingers exactly when its session is settled.
pub record IsSound {handle : Type 0} (key : SessionKey) (e : Entry handle) : Type 0 where
  pub same_address : e.peer.address ≡ key.address
  pub same_port : e.peer.port ≡ key.port
  pub settled : e.lingering ≡ e.receiver.finished

pub record Inv {handle : Type 0} (config : Config) (t : Table handle) : Type 0 where
  pub distinct : HasDistinctKeys t
  pub sound : (key : SessionKey) (e : Entry handle) → find key t ≡ some e → IsSound key e
  pub admitted : active t ≤ config.max_sessions
  pub bounded : length t ≤ config.max_sessions * 2

new_server-Inv : {handle : Type 0} (config : Config) → Inv {handle = handle} config []
unfolding find active
new_server-Inv config = record {
  distinct = tt;
  sound = λ key e h. absurd (ground arith);
  admitted = omega arith;
  bounded = omega arith;
}

update-Inv :
    {handle : Type 0} (config : Config) (t : Table handle) (key : SessionKey) (e old : Entry handle)
    → find key t ≡ some old
    → IsSound key e
    → weight e ≤ weight old
    → Inv config t
    → Inv config (update key e t)
update-Inv config t key e old h good light v = record {
  distinct = update-HasDistinctKeys key e old t h v.distinct;
  sound = λ j x at. ground (arith, find-update key j e old t h, same_key_iff j key, v.sound j x);
  admitted = omega (arith, update-sizes key e old t h, v.admitted, light);
  bounded = omega (arith, update-sizes key e old t h, v.bounded);
}

emplace-Inv :
    {handle : Type 0} (config : Config) (t : Table handle) (key : SessionKey) (e : Entry handle)
    → find key t ≡ none
    → IsSound key e
    → active t + weight e ≤ config.max_sessions
    → length t < config.max_sessions * 2
    → Inv config t
    → Inv config (emplace key e t)
emplace-Inv config t key e h good few short v = record {
  distinct = emplace-HasDistinctKeys key e t h v.distinct;
  sound = λ j x at. ground (arith, find-emplace key j e t h, same_key_iff j key, v.sound j x);
  admitted = omega (arith, emplace-sizes key e t h, few);
  bounded = omega (arith, emplace-sizes key e t h, short);
}

erase_if-Inv :
    (st : Storage) (config : Config) (test : Entry st.Handle → Bool) (t : Table st.Handle)
    (d : st.Disk)
    → Inv config t
    → Inv config (erase_if st test t d).0
erase_if-Inv st config test t d v = record {
  distinct = erase_if-HasDistinctKeys st test t d v.distinct;
  sound = λ j x at.
      v.sound j x
        (unless-some test (find j t) x (sym (find-erase_if st test j t d v.distinct) ∙ at));
  admitted = omega (arith, erase_if-sizes st test t d, v.admitted);
  bounded = omega (arith, erase_if-sizes st test t d, v.bounded);
}
  where
    unless-some :
        {handle : Type 0} (test : Entry handle → Bool) (o : Option (Entry handle))
        (x : Entry handle)
        → unless test o ≡ some x
        → o ≡ some x
    unless-some test none x h = absurd (ground arith)
    unless-some test (some e) x h = ground arith

-- A settled session stays settled.
finished_stays :
    (st : Storage) (e : Entry st.Handle) (d : st.Disk) (p : Packet)
    → e.receiver.finished ≡ true
    → (handle_packet st e.receiver d p).session.finished ≡ true
finished_stays st e d p h = (settled_step st e.receiver d p h).0.same_finished ∙ h

next_entry-IsSound :
    (st : Storage) (key : SessionKey) (e : Entry st.Handle) (r : Readings)
    (o : Outcome st.Handle st.Disk)
    → (e.receiver.finished ≡ true → o.session.finished ≡ true)
    → IsSound key e
    → IsSound key (next_entry st e r o) × (weight (next_entry st e r o) ≤ weight e)
unfolding next_entry
next_entry-IsSound st key e r o stays good = ground arith

serve-Inv :
    (st : Storage) (config : Config) (server : Server st.Handle) (d : st.Disk) (key : SessionKey)
    (entry : Entry st.Handle) (p : Packet) (r : Readings)
    → find key server.sessions ≡ some entry
    → Inv config server.sessions
    → Inv config (serve st server d key entry p r).server.sessions
unfolding serve after_packet
serve-Inv st config server d key entry p r h v =
    let o = handle_packet st entry.receiver d p in
    let (good, light) =
      next_entry-IsSound st key entry r o (finished_stays st entry d p) (v.sound key entry h) in
    update-Inv config server.sessions key (next_entry st entry r o) entry h good light v

pub admit-cases :
    (st : Storage) (config : Config) (server : Server st.Handle) (d : st.Disk) (key : SessionKey)
    (peer : Endpoint) (p : Packet) (r : Readings)
    → ((admit st config server d key peer p r).server.sessions ≡ server.sessions)
      ⊎ ((admit st config server d key peer p r ≡ open_session st config server d key peer p r)
          × (active server.sessions < config.max_sessions))
unfolding admit
admit-cases st config server d key peer p r = ground arith

module _ (st : Storage) (config : Config) (narrow : config.max_sessions * 2 < 2 ^ 64) where
  -- The table that a START is put into.
  pub make_room_lem :
      (t : Table st.Handle) (d : st.Disk) (key : SessionKey)
      → find key t ≡ none
      → active t < config.max_sessions
      → Inv config t
      → Inv config (make_room st config t d).0
        × (find key (make_room st config t d).0 ≡ none)
        × (active (make_room st config t d).0 < config.max_sessions)
        × (length (make_room st config t d).0 < config.max_sessions * 2)
  unfolding make_room
  make_room_lem t d key absent few v =
      elim (Bool-cases (leb (config.max_sessions * 2 % 2 ^ 64) (length t))) [
        | inl full ↦
            let sizes = erase_lingering-sizes st t d in
            rw full (
              erase_if-Inv st config (λ e. e.lingering) t d v,
              find-erase_if st (λ e. e.lingering) key t d v.distinct
                  ∙ ap (unless (λ e. e.lingering)) absent,
              omega (arith, sizes),
              omega (arith, sizes),
            )
        | inr short ↦
            let below : length t < config.max_sessions * 2 = ground arith in
            rw short (v, absent, few, below)
      ]

  open_session-Inv :
      (server : Server st.Handle) (d : st.Disk) (peer : Endpoint) (p : Packet) (r : Readings)
      → find (key_of peer p) server.sessions ≡ none
      → active server.sessions < config.max_sessions
      → Inv config server.sessions
      → Inv config (open_session st config server d (key_of peer p) peer p r).server.sessions
  unfolding open_session
  open_session-Inv server d peer p r absent few v =
      let key = key_of peer p in
      let room = make_room st config server.sessions d in
      let entry = new_entry st config peer r in
      let (valid, absent', few', short) = make_room_lem server.sessions d key absent few v in
      let sound : IsSound key entry = record {
        same_address = refl;
        same_port = refl;
        settled = refl;
      } in
      let found : find key (emplace key entry room.0) ≡ some entry =
        ground (arith, find-emplace key key entry room.0 absent', same_key_iff key key) in
      serve-Inv st config (record server { sessions = emplace key entry room.0 }) room.1 key entry p
        r found (emplace-Inv config room.0 key entry absent' sound (omega arith) short valid)

  on_packet-Inv :
      (server : Server st.Handle) (d : st.Disk) (peer : Endpoint) (p : Packet) (r : Readings)
      → Inv config server.sessions
      → Inv config (on_packet st config server d peer p r).server.sessions
  unfolding on_packet
  on_packet-Inv server d peer p r v = elim (Option-cases (find (key_of peer p) server.sessions)) [
    | inr (entry, e) ↦
        rw (on_packet, e) (serve-Inv st config server d (key_of peer p) entry p r e v)
    | inl absent ↦
        rw (on_packet, absent)
          (elim (admit-cases st config server d (key_of peer p) peer p r) [
            | inl same ↦ subst (Inv config) (sym same) v
            | inr (opens, few) ↦
                subst (λ x. Inv config x.server.sessions) (sym opens)
                  (open_session-Inv server d peer p r absent few v)
          ])
  ]

  on_datagram-Inv :
      (server : Server st.Handle) (d : st.Disk) (peer : Endpoint) (bytes : List ℕ) (r : Readings)
      → Inv config server.sessions
      → Inv config (on_datagram st config server d peer bytes r).server.sessions
  unfolding on_datagram
  on_datagram-Inv server d peer bytes r v = elim (DecodeResult-cases (deserialize bytes)) [
    | inl (p, e) ↦ rw (on_datagram, e) (on_packet-Inv server d peer p r v)
    | inr (x, e) ↦ rw (on_datagram, e) v
  ]

  drain-Inv :
      (received : List Received) (server : Server st.Handle) (d : st.Disk)
      → Inv config server.sessions
      → Inv config (drain st config server d received).server.sessions
  unfolding drain
  drain-Inv [] server d v = v
  drain-Inv (would_block ∷ rest) server d v = v
  drain-Inv (receive_failed ∷ rest) server d v = v
  drain-Inv (interrupted ∷ rest) server d v = drain-Inv rest server d v
  drain-Inv (datagram peer bytes r ∷ rest) server d v =
      let s = on_datagram st config server d peer bytes r in
      drain-Inv rest s.server s.storage (on_datagram-Inv server d peer bytes r v)

  on_event-Inv :
      (e : Event) (server : Server st.Handle) (d : st.Disk)
      → Inv config server.sessions
      → Inv config (on_event st config server d e).server.sessions
  unfolding on_event
  on_event-Inv signal server d v = v
  on_event-Inv (tick now) server d v =
      erase_if-Inv st config (is_stale config now) server.sessions d v
  on_event-Inv (readable received) server d v = drain-Inv received server d v

  on_events-Inv :
      (es : List Event) (server : Server st.Handle) (d : st.Disk)
      → Inv config server.sessions
      → Inv config (on_events st config server d es).server.sessions
  unfolding on_events
  on_events-Inv [] server d v = v
  on_events-Inv (e ∷ es) server d v =
      let s = on_event st config server d e in
      on_events-Inv es s.server s.storage (on_event-Inv e server d v)

  run-Inv :
      (batches : List (List Event)) (server : Server st.Handle) (d : st.Disk)
      → Inv config server.sessions
      → Inv config (run st config server d batches).server.sessions
  unfolding run
  run-Inv [] server d v = v
  run-Inv (es ∷ more) server d v =
      let s = on_events st config server d es in
      let later = run-Inv more s.server s.storage (on_events-Inv es server d v) in
      ground (arith, later)

  -- After any events, in any order and from any senders, the session table of a server that began empty
  -- has at most `max_sessions` sessions in progress and at most twice as many entries, no two of them
  -- with one key; each entry answers the address and port of its key, and lingers exactly if its
  -- session is settled. Twice `max_sessions` must fit 64 bits.
  pub run_bounds :
      (batches : List (List Event)) (d : st.Disk)
      → Inv config (run st config new_server d batches).server.sessions
  run_bounds batches d = run-Inv batches new_server d (new_server-Inv config)
