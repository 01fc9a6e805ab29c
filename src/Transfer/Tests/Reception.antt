-- ===== src/Transfer/Tests/Reception.antt =====
-- The blocking receiver on a disk that holds one file in memory: a START, the chunks, one of them twice,
-- and the FIN.
use swiftlink.Common.{ℕ, ◌≡◌, refl, true, some, List, [], ◌∷◌}
use swiftlink.Crypto.Sha256.{finish, update, consume, absorb, compress}
use swiftlink.Protocol.Crc.{crc32_excluding_checksum}
use swiftlink.Protocol.Packet.{
  PacketType, default_header, fin, start, data', same_type, is_valid_packet_type,
}
use swiftlink.Protocol.Serializer.{serialize, deserialize, read_header}
use swiftlink.Transfer.Filename.{
  codes, sanitize_filename, has_control, is_control, check_base, base_name, check_characters,
  find_last_separator, is_permitted, join_path, temp_name,
}
use swiftlink.Transfer.Receiver.{
  ReceiverConfig, Incoming, datagram, interrupted, after_packet, receive_loop, receive_file,
  at_return,
}
use swiftlink.Transfer.Receiver.Verdict.{Received, receive_file-Received}
use swiftlink.Transfer.ReceiverWindow.{new_window, classify, mark_received, slide}
use swiftlink.Transfer.Session.{
  abandon, handle_packet, on_active, on_start, after_sanitize, after_open, on_data, on_accepted,
  exceeds_declared, after_write, on_fin, after_sync, after_hash, after_rename, hash_from,
}
use swiftlink.Transfer.Stats
use swiftlink.Transfer.Tests.Sessions.{memory}

abbrev config : ReceiverConfig
config = record { idle_timeout = 10; window_size = 4 }

abbrev packet : PacketType → ℕ → ℕ → List ℕ → Incoming
packet type number offset payload =
    datagram (record { address = codes "1"; port = 5 })
      (serialize
        (record default_header {
          packet_type = type;
          session_id = 7;
          sequence_number = number;
          byte_offset = offset;
        })
        payload)
      true

-- the SHA-256 of "abc"
abbrev digest : List ℕ
digest =
    0xba ∷ 0x78 ∷ 0x16 ∷ 0xbf ∷ 0x8f ∷ 0x01 ∷ 0xcf ∷ 0xea ∷ 0x41 ∷ 0x41 ∷ 0x40 ∷ 0xde ∷ 0x5d ∷ 0xae
    ∷ 0x22 ∷ 0x23 ∷ 0xb0 ∷ 0x03 ∷ 0x61 ∷ 0xa3 ∷ 0x96 ∷ 0x17 ∷ 0x7a ∷ 0x9c ∷ 0xb4 ∷ 0x10 ∷ 0xff
    ∷ 0x61 ∷ 0xf2 ∷ 0x00 ∷ 0x15 ∷ 0xad ∷ []

abbrev incoming : List Incoming
incoming =
    packet start 0 3 (codes "a")
    ∷ packet data' 0 0 (97 ∷ 98 ∷ [])
    ∷ interrupted
    ∷ packet data' 0 0 (97 ∷ 98 ∷ [])
    ∷ packet data' 1 2 (99 ∷ [])
    ∷ packet fin 2 3 digest
    ∷ []

-- the file has the bytes that were sent
received_ok :
    ((receive_file memory config (codes "out") true incoming []).result ≡ some Stats.none')
    × ((receive_file memory config (codes "out") true incoming []).storage ≡ 97 ∷ 98 ∷ 99 ∷ [])
unfolding receive_file at_return abandon receive_loop after_packet deserialize serialize read_header
    is_valid_packet_type crc32_excluding_checksum same_type handle_packet on_active on_start
    after_sanitize after_open sanitize_filename has_control is_control check_base base_name
    check_characters find_last_separator is_permitted join_path temp_name on_data on_accepted
    exceeds_declared after_write on_fin after_sync after_hash after_rename hash_from new_window
    classify mark_received slide update consume finish absorb compress
received_ok = (refl, refl)

receive_file-Received_example :
    Received (codes "out") (receive_file memory config (codes "out") true incoming []).session
receive_file-Received_example =
    receive_file-Received memory config (codes "out") true incoming [] received_ok.0
