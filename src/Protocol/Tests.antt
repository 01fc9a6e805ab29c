-- ===== src/Protocol/Tests.antt =====
-- Runs of the packet format on concrete packets, and the theorems at them.
use swiftlink.Common.{ℕ, ◌≡◌, ◌≢◌, ◌↔◌, refl, arith, List, [], ◌∷◌, ◌++◌, length, get_or, set, All}
use swiftlink.Protocol.Packet.{PacketHeader, Packet, default_header, ack, success}
use swiftlink.Protocol.Crc.{
  crc32, crc_bytes, crc_excluding, update, table_bit, crc32_excluding_checksum,
}
use swiftlink.Protocol.Crc.Detect.{IsByte}
use swiftlink.Protocol.Crc.Excluding.{crc32_excluding_checksum_lem}
use swiftlink.Protocol.Wire.{write_be32, copy_bytes}
use swiftlink.Protocol.Serializer.{unsealed, serialize, deserialize}
use swiftlink.Protocol.Serializer.Fields.{IsWire, deserialize_iff}
use swiftlink.Protocol.Serializer.Layout.{header_bytes, wire_crc, serialize-layout}
use swiftlink.Protocol.Serializer.RoundTrip.{IsCurrent, received_header, deserialize-serialize}
use swiftlink.Protocol.Serializer.Corruption.{deserialize-set_ne}

abbrev sample_header : PacketHeader
sample_header = record default_header { packet_type = ack; session_id = 7; sequence_number = 3 }

abbrev sample_payload : List ℕ
sample_payload = 104 ∷ 105 ∷ []

sample-IsCurrent : IsCurrent sample_header
sample-IsCurrent = record {
  fields = record {
    magic_fits = omega arith;
    version_fits = omega arith;
    length_fits = omega arith;
    session_fits = omega arith;
    sequence_fits = omega arith;
    ack_fits = omega arith;
    offset_fits = omega arith;
    flags_fit = omega arith;
  };
  magic_is = refl;
  version_is = refl;
  length_is = refl;
}

deserialize-serialize_example :
    deserialize (serialize sample_header sample_payload)
    ≡ success
        (record { header = received_header sample_header sample_payload; payload = sample_payload })
deserialize-serialize_example =
    deserialize-serialize sample_header sample_payload sample-IsCurrent (omega arith)

serialize-layout_example :
    serialize sample_header sample_payload
    ≡ header_bytes sample_header 2 (wire_crc sample_header sample_payload) ++ sample_payload
serialize-layout_example = serialize-layout sample_header sample_payload (omega arith)

abbrev sample_packet : Packet
sample_packet = record {
  header = received_header sample_header sample_payload;
  payload = sample_payload;
}

sample_is_bytes : All IsByte (serialize sample_header sample_payload)
unfolding serialize unsealed copy_bytes crc32_excluding_checksum crc_excluding update table_bit
sample_is_bytes = ground arith

sample_length : length (serialize sample_header sample_payload) ≡ 42
unfolding serialize unsealed copy_bytes crc32_excluding_checksum crc_excluding
sample_length = refl

sample_differs : 3 ≢ get_or (serialize sample_header sample_payload) 33 0
unfolding serialize unsealed copy_bytes crc32_excluding_checksum crc_excluding
sample_differs = omega arith

-- the low byte of the payload length
deserialize-set_ne_example :
    deserialize (set (serialize sample_header sample_payload) 33 3) ≢ success sample_packet
deserialize-set_ne_example =
    deserialize-set_ne (serialize sample_header sample_payload) sample_packet sample_packet 33 3
      sample_is_bytes deserialize-serialize_example (omega arith) (omega (arith, sample_length))
      sample_differs

deserialize_iff_example :
    (deserialize (serialize sample_header sample_payload) ≡ success sample_packet)
    ↔ IsWire (serialize sample_header sample_payload) sample_packet
deserialize_iff_example =
    deserialize_iff (serialize sample_header sample_payload) sample_is_bytes sample_packet

crc32_excluding_checksum_lem_example :
    crc32_excluding_checksum (9 ∷ 8 ∷ 7 ∷ 6 ∷ 5 ∷ 4 ∷ []) 1
    ≡ crc32 (write_be32 (9 ∷ 8 ∷ 7 ∷ 6 ∷ 5 ∷ 4 ∷ []) 1 0)
crc32_excluding_checksum_lem_example = crc32_excluding_checksum_lem (9 ∷ 8 ∷ 7 ∷ 6 ∷ 5 ∷ 4 ∷ []) 1

-- the standard's check value: the CRC of the text "123456789"
crc32_check_value : crc32 (49 ∷ 50 ∷ 51 ∷ 52 ∷ 53 ∷ 54 ∷ 55 ∷ 56 ∷ 57 ∷ []) ≡ 0xCBF43926
unfolding crc32 crc_bytes
crc32_check_value = refl
