-- ===== src/Server/Loop.antt =====
-- The loop of `run` of src/server/epoll_server.cpp over the events that epoll reports: a signal, a tick
-- of the timer, datagrams. What the sockets, the timer and the clock give is in the events. Setting up
-- the descriptors and the texts that are printed are left out.
pub mod Invariant
pub mod Isolation
use swiftlink.Common.{
  ℕ, zero, suc, ◌+◌, ◌*◌, ◌%◌, ◌^◌, Bool, true, false, not, ◌&&◌, Option, none, some, List, [], ◌∷◌,
  ◌++◌, length, leb, if◌then◌else◌,
}
use swiftlink.Protocol.Packet.{
  Packet, PacketHeader, DecodeResult, success, failure, same_type, start,
}
use swiftlink.Protocol.Status.{server_busy}
use swiftlink.Protocol.Serializer.{deserialize}
use swiftlink.Net.UdpSocket.{Endpoint}
use swiftlink.Server.Config.{Config}
use swiftlink.Server.Replies.{SessionKey, error_datagram, reply_datagram}
use swiftlink.Server.Table.{
  Entry, Table, find, emplace, update, active, retire_lingering, sweep, count_expired,
}
use swiftlink.Transfer.Session.{Storage, Session, Outcome, new_session, handle_packet, close_file}
use swiftlink.Transfer.Stats.{TransferError, none', next}

-- the variables of the loop
pub record Server (handle : Type 0) : Type 0 where
  pub sessions : Table handle
  pub completed : ℕ
  pub failed : ℕ
  pub expired : ℕ
  pub refused : ℕ
  pub running : Bool

abbrev pub new_server : {handle : Type 0} → Server handle
new_server = record {
  sessions = [];
  completed = 0;
  failed = 0;
  expired = 0;
  refused = 0;
  running = true;
}

-- What `Clock::now()` gives where a session is opened, served and settled.
pub record Readings : Type 0 where
  pub opened : ℕ
  pub served : ℕ
  pub settled : ℕ

-- What `recv_from` gives.
pub data Received : Type 0 where
  datagram : Endpoint → List ℕ → Readings → Received
  would_block interrupted receive_failed : Received

pub data Event : Type 0 where
  signal : Event
  tick : ℕ → Event
  readable : List Received → Event

pub record Step (handle disk : Type 0) : Type 0 where
  pub server : Server handle
  pub storage : disk
  pub sent : List (Endpoint × List ℕ)

abbrev pub is_success : TransferError → Bool
is_success none' = true
is_success other = false

abbrev pub key_of : Endpoint → Packet → SessionKey
key_of peer p = record {
  address = peer.address;
  port = peer.port;
  session_id = p.header.session_id;
}

module _ (st : Storage) where
  -- a session is made for a START that is admitted
  abbrev pub new_entry : Config → Endpoint → Readings → Entry st.Handle
  new_entry config peer r = record {
    receiver = new_session config.window_size config.output_directory;
    peer = peer;
    last_activity = 0;
    started = r.opened;
    lingering = false;
    completed_at = 0;
  }

  -- the counters when a session settles
  unfoldable pub count_settled : Server st.Handle → TransferError → Server st.Handle
  count_settled server e =
      if is_success e
      then record server { completed = next server.completed }
      else record server { failed = next server.failed }

  -- whether a packet has settled a session that was not
  abbrev pub settles : Entry st.Handle → Outcome st.Handle st.Disk → Bool
  settles entry o = o.session.finished && not entry.lingering

  -- The file of a session that settles is closed, and the session lingers.
  unfoldable pub next_entry :
      Entry st.Handle → Readings → Outcome st.Handle st.Disk → Entry st.Handle
  next_entry entry r o =
      if settles entry o
      then record entry {
        receiver = record (o.session) { file = none };
        last_activity = r.served;
        lingering = true;
        completed_at = r.settled;
      }
      else record entry { receiver = o.session; last_activity = r.served }

  -- A session with what its receiver made of a packet.
  unfoldable pub after_packet :
      Server st.Handle
      → SessionKey
      → Entry st.Handle
      → Packet
      → Readings
      → Outcome st.Handle st.Disk
      → Step st.Handle st.Disk
  after_packet server key entry p r o =
      let counted = if settles entry o then count_settled server o.session.error_code else server in
      record {
        server = record counted { sessions = update key (next_entry entry r o) server.sessions };
        storage = if settles entry o then close_file st o.session.file o.storage else o.storage;
        sent = if o.reply.send then (entry.peer, reply_datagram p.header o.reply) ∷ [] else [];
      }

  -- A packet of a session that is in the table.
  unfoldable pub serve :
      Server st.Handle
      → st.Disk
      → SessionKey
      → Entry st.Handle
      → Packet
      → Readings
      → Step st.Handle st.Disk
  serve server d key entry p r =
      after_packet server key entry p r (handle_packet st entry.receiver d p)

  -- The table with room for one more: lingering sessions go first when it is full.
  unfoldable pub make_room : Config → Table st.Handle → st.Disk → Table st.Handle × st.Disk
  make_room config sessions d =
      if leb (config.max_sessions * 2 % 2 ^ 64) (length sessions)
      then retire_lingering st sessions d
      else (sessions, d)

  unfoldable pub open_session :
      Config
      → Server st.Handle
      → st.Disk
      → SessionKey
      → Endpoint
      → Packet
      → Readings
      → Step st.Handle st.Disk
  open_session config server d key peer p r =
      let room = make_room config server.sessions d in
      let entry = new_entry config peer r in
      serve (record server { sessions = emplace key entry room.0 }) room.1 key entry p r

  -- A packet of no session.
  unfoldable pub admit :
      Config
      → Server st.Handle
      → st.Disk
      → SessionKey
      → Endpoint
      → Packet
      → Readings
      → Step st.Handle st.Disk
  admit config server d key peer p r =
      if not (same_type p.header.packet_type start)
      then record { server = server; storage = d; sent = [] }
      else if leb config.max_sessions (active server.sessions)
      then record {
        server = record server { refused = next server.refused };
        storage = d;
        sent = (peer, error_datagram p.header server_busy) ∷ [];
      }
      else open_session config server d key peer p r

  unfoldable pub on_packet :
      Config → Server st.Handle → st.Disk → Endpoint → Packet → Readings → Step st.Handle st.Disk
  on_packet config server d peer p r = elim (find (key_of peer p) server.sessions) [
    | some entry ↦ serve server d (key_of peer p) entry p r
    | none ↦ admit config server d (key_of peer p) peer p r
  ]

  unfoldable pub on_datagram :
      Config → Server st.Handle → st.Disk → Endpoint → List ℕ → Readings → Step st.Handle st.Disk
  on_datagram config server d peer bytes r = elim (deserialize bytes) [
    | success p ↦ on_packet config server d peer p r
    | failure e ↦ record { server = server; storage = d; sent = [] }
  ]

  -- The loop that drains the socket.
  unfoldable pub drain :
      Config → Server st.Handle → st.Disk → List Received → Step st.Handle st.Disk
  drain config server d [] = record { server = server; storage = d; sent = [] }
  drain config server d (would_block ∷ rest) = record { server = server; storage = d; sent = [] }
  drain config server d (receive_failed ∷ rest) = record { server = server; storage = d; sent = [] }
  drain config server d (interrupted ∷ rest) = drain config server d rest
  drain config server d (datagram peer bytes r ∷ rest) =
      let s = on_datagram config server d peer bytes r in
      let s' = drain config s.server s.storage rest in record s' { sent = s.sent ++ s'.sent }

  unfoldable pub on_event : Config → Server st.Handle → st.Disk → Event → Step st.Handle st.Disk
  on_event config server d signal = record {
    server = record server { running = false };
    storage = d;
    sent = [];
  }
  on_event config server d (tick now) =
      let swept = sweep st config now server.sessions d in
      record {
        server = record server {
          sessions = swept.0;
          expired = (server.expired + count_expired st config now server.sessions) % 2 ^ 64;
        };
        storage = swept.1;
        sent = [];
      }
  on_event config server d (readable received) = drain config server d received

  -- the events of one call of epoll_wait
  unfoldable pub on_events :
      Config → Server st.Handle → st.Disk → List Event → Step st.Handle st.Disk
  on_events config server d [] = record { server = server; storage = d; sent = [] }
  on_events config server d (e ∷ es) =
      let s = on_event config server d e in
      let s' = on_events config s.server s.storage es in record s' { sent = s.sent ++ s'.sent }

  unfoldable pub run :
      Config → Server st.Handle → st.Disk → List (List Event) → Step st.Handle st.Disk
  run config server d [] = record { server = server; storage = d; sent = [] }
  run config server d (es ∷ more) =
      let s = on_events config server d es in
      let s' = run config s.server s.storage more in
      if server.running
      then record s' { sent = s.sent ++ s'.sent }
      else record { server = server; storage = d; sent = [] }

-- the count of sessions that the shutdown reports as abandoned
unfoldable pub count_abandoned : {handle : Type 0} → Table handle → ℕ
count_abandoned [] = 0
count_abandoned ((k, e) ∷ rest) =
    let others = count_abandoned rest in if e.lingering then others else others + 1
