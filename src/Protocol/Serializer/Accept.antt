-- ===== src/Protocol/Serializer/Accept.antt =====
-- Which buffers `deserialize` of src/protocol/serializer.cpp accepts.
use swiftlink.Common.{ℕ, ◌-◌, ◌≤◌, List, ◌≡◌, true, arith, length, drop}
use swiftlink.Protocol.Packet.{
  Packet, success, is_valid_packet_type, magic_number, protocol_version, header_wire_size,
}
use swiftlink.Protocol.Wire.{read_be8}
use swiftlink.Protocol.Crc.{crc32_excluding_checksum}
use swiftlink.Protocol.Serializer.{deserialize, read_header, checksum_at}

-- What every buffer that `deserialize` accepts satisfies, and all that it asks.
pub record IsAccepted (buffer : List ℕ) : Type 0 where
  pub has_header : header_wire_size ≤ length buffer
  pub magic_ok : (read_header buffer).magic ≡ magic_number
  pub version_ok : (read_header buffer).version ≡ protocol_version
  pub type_ok : is_valid_packet_type (read_be8 buffer 5) ≡ true
  pub length_ok : (read_header buffer).header_length ≡ header_wire_size
  pub payload_ok : length buffer - header_wire_size ≡ (read_header buffer).payload_length
  pub checksum_ok : crc32_excluding_checksum buffer checksum_at ≡ (read_header buffer).checksum

abbrev pub packet_in : List ℕ → Packet
packet_in buffer = record { header = read_header buffer; payload = drop header_wire_size buffer }

pub deserialize-accepts :
    (buffer : List ℕ) → IsAccepted buffer → deserialize buffer ≡ success (packet_in buffer)
unfolding deserialize
deserialize-accepts buffer a = ground arith

pub deserialize_inversion :
    (buffer : List ℕ) (p : Packet)
    → deserialize buffer ≡ success p
    → IsAccepted buffer × (p ≡ packet_in buffer)
unfolding deserialize
deserialize_inversion buffer p e = ground arith
