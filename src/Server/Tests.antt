-- ===== src/Server/Tests.antt =====
-- The server with room for one session, and its answers.
use swiftlink.Common.{
  ◌⊎◌, ℕ, ◌+◌, ◌≡◌, ◌≢◌, ◌↔◌, refl, ap, arith, true, some, List, [], ◌∷◌, length, ltb,
  if◌then◌else◌,
}
use swiftlink.Protocol.Packet.{
  Packet, PacketHeader, default_header, start, same_type, is_valid_packet_type, success, failure,
  DecodeError,
}
use swiftlink.Protocol.Serializer.{serialize, deserialize, read_header}
use swiftlink.Protocol.Crc.{crc32_excluding_checksum}
use swiftlink.Server.Replies.{SessionKey, key_less}
use swiftlink.Net.UdpSocket.{Endpoint}
use swiftlink.Server.Config.{Config, default_config}
use swiftlink.Server.Keys.{same_key, same_key_iff}
use swiftlink.Server.Table.{find, active, emplace, update, elapsed_ms, erase_if}
use swiftlink.Server.Table.Lookup.{unless}
use swiftlink.Server.Loop.{
  Server, new_server, Readings, Event, tick, readable, datagram, key_of, run, on_events, on_event,
  drain, on_datagram, on_packet, admit, open_session, make_room, serve, after_packet, next_entry,
  count_settled,
}
use swiftlink.Server.Loop.Invariant.{Inv, run_bounds}
use swiftlink.Server.Loop.Isolation.{KeptOrRetired, on_datagram-KeptOrRetired, find-tick}
use swiftlink.Transfer.Filename.{
  sanitize_filename, has_control, is_control, check_base, base_name, check_characters,
  find_last_separator, is_permitted, join_path, temp_name,
}
use swiftlink.Transfer.Session.{
  Storage, handle_packet, on_active, on_start, after_sanitize, after_open, abandon,
}

abbrev request : PacketHeader
request = record default_header { packet_type = start; session_id = 7; sequence_number = 0 }

same_address :
    key_less
      (record { address = 49 ∷ []; port = 5; session_id = 9 })
      (record { address = 49 ∷ []; port = 6; session_id = 1 })
    ≡ true
unfolding key_less
same_address = refl

-- room for one session
abbrev small : Config
small = record default_config { max_sessions = 1 }

-- a file system that forgets
abbrev forgetful : Storage
forgetful = record {
  Disk = ℕ;
  Handle = ℕ;
  open_write = λ path d. (some 3, d + 1);
  write_at = λ f bytes offset d. (some (length bytes), d + 1);
  read_at = λ f want offset d. some [];
  sync = λ f d. (true, d);
  close = λ f d. d;
  rename = λ from to d. (true, d);
  unlink = λ path d. d;
}

abbrev client : Endpoint
client = record { address = b'1' ∷ []; port = 5000 }

abbrev other : Endpoint
other = record { address = b'1' ∷ []; port = 5001 }

abbrev at : ℕ → Readings
at t = record { opened = t; served = t; settled = t }

abbrev start_bytes : List ℕ
start_bytes = serialize request (b'a' ∷ [])

abbrev asks : Packet
asks = record { header = request; payload = b'a' ∷ [] }

abbrev client_key : SessionKey
client_key = key_of client asks

-- the first client is admitted, the second is not
abbrev two_clients : List (List Event)
two_clients =
    (readable (datagram client start_bytes (at 1) ∷ datagram other start_bytes (at 2) ∷ []) ∷ [])
    ∷ (tick 3 ∷ [])
    ∷ []

abbrev busy : Server ℕ
busy = (run forgetful small new_server 0 two_clients).server

busy_refused : (busy.refused ≡ 1) × (active busy.sessions ≡ 1)
unfolding run on_events on_event drain on_datagram on_packet admit open_session make_room serve
    after_packet next_entry count_settled find active emplace update deserialize serialize
    read_header is_valid_packet_type crc32_excluding_checksum same_type same_key key_less
    handle_packet on_active on_start after_sanitize after_open sanitize_filename has_control
    is_control check_base base_name check_characters find_last_separator is_permitted join_path
    temp_name erase_if abandon
busy_refused = (refl, refl)

busy-Inv : Inv small busy.sessions
busy-Inv = run_bounds forgetful small (omega arith) two_clients 0

run_bounds_example : Inv small busy.sessions
run_bounds_example = run_bounds forgetful small (omega arith) two_clients 0

other_client : (p : Packet) → client_key ≢ key_of other p
other_client p same = absurd (omega (arith, ap (λ k. k.port) same))

on_datagram-KeptOrRetired_example :
    ((p : Packet) × ((deserialize start_bytes ≡ success p)
        × KeptOrRetired client_key busy.sessions
            (on_datagram forgetful small busy 0 other start_bytes (at 4)).server.sessions))
    ⊎ ((x : DecodeError) × ((deserialize start_bytes ≡ failure x)
          × ((on_datagram forgetful small busy 0 other start_bytes (at 4)).server.sessions
              ≡ busy.sessions)))
on_datagram-KeptOrRetired_example =
    on_datagram-KeptOrRetired forgetful small client_key busy 0 other start_bytes (at 4) busy-Inv
      (λ p e. other_client p)

find-tick_example :
    find client_key (on_event forgetful small busy 0 (tick 40000000000)).server.sessions
    ≡ unless
        (λ e.
          if e.lingering
          then ltb 20000 (elapsed_ms e.completed_at 40000000000)
          else ltb 30000 (elapsed_ms e.last_activity 40000000000))
        (find client_key busy.sessions)
find-tick_example = find-tick forgetful small busy 0 40000000000 client_key busy-Inv

same_key_iff_example :
    (same_key client_key (key_of other asks) ≡ true) ↔ (client_key ≡ key_of other asks)
same_key_iff_example = same_key_iff client_key (key_of other asks)
