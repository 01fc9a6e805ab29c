-- ===== src/Protocol.antt =====
-- protocol/: the wire format, its checksum and the status codes.
pub mod Packet
pub mod Crc
pub mod Wire
pub mod Serializer
pub mod Status
pub mod Tests
