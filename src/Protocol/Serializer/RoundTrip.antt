-- ===== src/Protocol/Serializer/RoundTrip.antt =====
-- `deserialize` against `serialize`, in both directions (src/protocol/serializer.cpp).
use swiftlink.Common.{
  ℕ, ◌+◌, ◌-◌, ◌^◌, ◌≤◌, ◌<◌, List, ◌++◌, ◌≡◌, refl, sym, ap, ◌∙◌, arith, true, length,
}
use swiftlink.Protocol.Packet.{
  packet_type_of-type_code, PacketHeader, IsHeader, PacketType, success, start, start_ack, data',
  ack, fin, fin_ack, error, type_code, is_valid_packet_type, magic_number, protocol_version,
  header_wire_size, max_payload_size,
}
use swiftlink.Protocol.Wire.Laws.{join16-be16, join32-be32, join64-be64}
use swiftlink.Protocol.Crc.{crc32, crc32_excluding_checksum}
use swiftlink.Protocol.Crc.Detect.{crc32-lt}
use swiftlink.Protocol.Crc.Excluding.{crc32_excluding_checksum_lem}
use swiftlink.Protocol.Serializer.{serialize, deserialize, read_header, checksum_at}
use swiftlink.Protocol.Serializer.Accept.{IsAccepted, deserialize-accepts}
use swiftlink.Protocol.Serializer.Layout.{header_bytes, wire_crc, serialize-layout}

-- The header that comes out at the other end: the length and the checksum are the wire's own.
abbrev pub received_header : PacketHeader → List ℕ → PacketHeader
received_header h payload = record h {
  payload_length = length payload;
  checksum = wire_crc h payload;
}

pub is_valid-type_code : (t : PacketType) → is_valid_packet_type (type_code t) ≡ true
unfolding is_valid_packet_type
is_valid-type_code start = refl
is_valid-type_code start_ack = refl
is_valid-type_code data' = refl
is_valid-type_code ack = refl
is_valid-type_code fin = refl
is_valid-type_code fin_ack = refl
is_valid-type_code error = refl

-- Every field of a header is read back from its bytes.
read_header-header_bytes :
    (h : PacketHeader) (n crc : ℕ) (payload : List ℕ)
    → IsHeader h
    → n < 2 ^ 16
    → crc < 2 ^ 32
    → read_header (header_bytes h n crc ++ payload)
      ≡ record h { payload_length = n; checksum = crc }
unfolding read_header
read_header-header_bytes h n crc payload v hn hc = λ i. record {
  magic = join32-be32 h.magic v.magic_fits i;
  version = h.version;
  packet_type = packet_type_of-type_code h.packet_type i;
  header_length = join16-be16 h.header_length v.length_fits i;
  session_id = join64-be64 h.session_id v.session_fits i;
  sequence_number = join32-be32 h.sequence_number v.sequence_fits i;
  acknowledgement_number = join32-be32 h.acknowledgement_number v.ack_fits i;
  byte_offset = join64-be64 h.byte_offset v.offset_fits i;
  payload_length = join16-be16 n hn i;
  flags = join16-be16 h.flags v.flags_fit i;
  checksum = join32-be32 crc hc i;
}

-- The checksum that a receiver computes over a packet on the wire.
pub crc-header_bytes :
    (h : PacketHeader) (n crc : ℕ) (payload : List ℕ)
    → crc32_excluding_checksum (header_bytes h n crc ++ payload) checksum_at
      ≡ crc32 (header_bytes h n 0 ++ payload)
crc-header_bytes h n crc payload =
    crc32_excluding_checksum_lem (header_bytes h n crc ++ payload) checksum_at

-- A packet of this protocol version: what the senders of the program build.
pub record IsCurrent (h : PacketHeader) : Type 0 where
  pub fields : IsHeader h
  pub magic_is : h.magic ≡ magic_number
  pub version_is : h.version ≡ protocol_version
  pub length_is : h.header_length ≡ header_wire_size

wire-IsAccepted :
    (h : PacketHeader) (payload : List ℕ)
    → IsCurrent h
    → length payload ≤ max_payload_size
    → IsAccepted (header_bytes h (length payload) (wire_crc h payload) ++ payload)
wire-IsAccepted h payload c fits =
    let n = length payload in
    let crc = wire_crc h payload in
    let back =
      read_header-header_bytes h n crc payload c.fields (omega arith)
        (crc32-lt (header_bytes h n 0 ++ payload)) in
    record {
      has_header = omega arith;
      magic_ok = ap (λ r. r.magic) back ∙ c.magic_is;
      version_ok = ap (λ r. r.version) back ∙ c.version_is;
      type_ok = is_valid-type_code h.packet_type;
      length_ok = ap (λ r. r.header_length) back ∙ c.length_is;
      payload_ok = payload_back (omega arith) (ap (λ r. r.payload_length) back);
      checksum_ok = crc-header_bytes h n crc payload ∙ sym (ap (λ r. r.checksum) back);
    }
  where
    payload_back : {l m : ℕ} → l ≡ 40 + length payload → m ≡ length payload → l - 40 ≡ m
    payload_back d e = omega arith

-- A packet that `serialize` wrote is read back by `deserialize`: every field as it was given, the
-- payload byte for byte, the payload length and the checksum as they stand on the wire. The header
-- carries this version's magic number, version and header length and fields within their widths, and
-- the payload has at most 65535 bytes.
pub deserialize-serialize :
    (h : PacketHeader) (payload : List ℕ)
    → IsCurrent h
    → length payload ≤ max_payload_size
    → deserialize (serialize h payload)
      ≡ success (record { header = received_header h payload; payload = payload })
deserialize-serialize h payload c fits =
    let n = length payload in
    let crc = wire_crc h payload in
    ap deserialize (serialize-layout h payload fits)
    ∙ deserialize-accepts _ (wire-IsAccepted h payload c fits)
    ∙ ap (λ r. success (record { header = r; payload = payload }))
        (read_header-header_bytes h n crc payload c.fields (omega arith)
          (crc32-lt (header_bytes h n 0 ++ payload)))
