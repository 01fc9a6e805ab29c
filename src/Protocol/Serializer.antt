-- ===== src/Protocol/Serializer.antt =====
-- src/protocol/serializer.cpp: `serialize` and `deserialize`.
pub mod Accept
pub mod Layout
pub mod RoundTrip
pub mod Corruption
pub mod Fields
use swiftlink.Common.{
  ℕ, ◌+◌, ◌-◌, ◌%◌, ◌^◌, Bool, true, false, not, List, [], ◌∷◌, ltb, ◌==◌, if◌then◌else◌, length,
  set, drop, replicate,
}
use swiftlink.Protocol.Packet.{
  PacketHeader, Packet, DecodeResult, success, failure, buffer_too_small, bad_magic,
  unsupported_version, bad_header_length, unknown_packet_type, payload_length_mismatch,
  checksum_mismatch, default_header, magic_number, protocol_version, header_wire_size,
  max_payload_size, type_code, is_valid_packet_type, packet_type_of,
}
use swiftlink.Protocol.Wire.{
  write_be16, write_be32, write_be64, read_be8, read_be16, read_be32, read_be64, copy_bytes,
}
use swiftlink.Protocol.Crc.{crc32_excluding_checksum}

-- the offset of the checksum field on the wire
abbrev pub checksum_at : ℕ
checksum_at = 36

-- The buffer of `serialize` before its checksum is written.
unfoldable pub unsealed : PacketHeader → List ℕ → List ℕ
unfolding copy_bytes
unsealed header payload =
    let b0 = replicate (header_wire_size + length payload) 0 in
    let b1 = write_be32 b0 0 header.magic in
    let b2 = set b1 4 header.version in
    let b3 = set b2 5 (type_code header.packet_type) in
    let b4 = write_be16 b3 6 header.header_length in
    let b5 = write_be64 b4 8 header.session_id in
    let b6 = write_be32 b5 16 header.sequence_number in
    let b7 = write_be32 b6 20 header.acknowledgement_number in
    let b8 = write_be64 b7 24 header.byte_offset in
    let b9 = write_be16 b8 32 (length payload % 2 ^ 16) in
    let b10 = write_be16 b9 34 header.flags in
    let b11 = write_be32 b10 checksum_at 0 in
    if length payload == 0 then b11 else copy_bytes b11 header_wire_size payload

unfoldable pub serialize : PacketHeader → List ℕ → List ℕ
unfolding unsealed
serialize header payload =
    if ltb max_payload_size (length payload)
    then []
    else let buffer = unsealed header payload in
      write_be32 buffer checksum_at (crc32_excluding_checksum buffer checksum_at)

-- The header that `deserialize` has filled in when all fields are read.
unfoldable pub read_header : List ℕ → PacketHeader
unfolding packet_type_of
read_header buffer = record {
  magic = read_be32 buffer 0;
  version = read_be8 buffer 4;
  packet_type = packet_type_of (read_be8 buffer 5);
  header_length = read_be16 buffer 6;
  session_id = read_be64 buffer 8;
  sequence_number = read_be32 buffer 16;
  acknowledgement_number = read_be32 buffer 20;
  byte_offset = read_be64 buffer 24;
  payload_length = read_be16 buffer 32;
  flags = read_be16 buffer 34;
  checksum = read_be32 buffer checksum_at;
}

unfoldable pub deserialize : List ℕ → DecodeResult
deserialize buffer =
    let header = read_header buffer in
    if ltb (length buffer) header_wire_size
    then failure buffer_too_small
    else if not (header.magic == magic_number)
    then failure bad_magic
    else if not (header.version == protocol_version)
    then failure unsupported_version
    else if not (is_valid_packet_type (read_be8 buffer 5))
    then failure unknown_packet_type
    else if not (header.header_length == header_wire_size)
    then failure bad_header_length
    else if not (length buffer - header_wire_size == header.payload_length)
    then failure payload_length_mismatch
    else if not (crc32_excluding_checksum buffer checksum_at == header.checksum)
    then failure checksum_mismatch
    else success (record { header = header; payload = drop header_wire_size buffer })
