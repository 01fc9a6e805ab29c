-- ===== src/Protocol/Packet.antt =====
-- include/swiftlink/protocol/packet.hpp and src/protocol/packet.cpp: the packet header, the packet
-- types and the results of decoding. A field of w bits is a number; `IsHeader` gives its range.
use Prim.Native.String.{String}
use swiftlink.Common.{
  ℕ, ◌^◌, ◌<◌, ◌≡◌, ◌⊎◌, inl, inr, refl, sym, ap, ◌∙◌, arith, Bool, true, ◌||◌, List, ◌==◌,
  if◌then◌else◌,
}

-- ASCII "SWLK"
abbrev pub magic_number : ℕ
magic_number = 0x53574C4B

abbrev pub protocol_version : ℕ
protocol_version = 1

abbrev pub header_wire_size : ℕ
header_wire_size = 40

abbrev pub max_payload_size : ℕ
max_payload_size = 65535

pub data PacketType : Type 0 where
  start start_ack data' ack fin fin_ack error : PacketType

-- the enumerators' values
abbrev pub type_code : PacketType → ℕ
type_code start = 1
type_code start_ack = 2
type_code data' = 3
type_code ack = 4
type_code fin = 5
type_code fin_ack = 6
type_code error = 7

unfoldable pub is_valid_packet_type : ℕ → Bool
is_valid_packet_type raw =
    raw == 1 || (raw == 2 || (raw == 3 || (raw == 4 || (raw == 5 || (raw == 6 || raw == 7)))))

-- `static_cast<PacketType>(raw)`, which the code makes of valid values only
unfoldable pub packet_type_of : ℕ → PacketType
packet_type_of raw =
    if raw == 1
    then start
    else if raw == 2
    then start_ack
    else if raw == 3
    then data'
    else if raw == 4
    then ack
    else if raw == 5
    then fin
    else if raw == 6
    then fin_ack
    else error

unfoldable pub same_type : PacketType → PacketType → Bool
same_type a b = type_code a == type_code b

pub packet_type_of-type_code : (t : PacketType) → packet_type_of (type_code t) ≡ t
unfolding packet_type_of
packet_type_of-type_code start = refl
packet_type_of-type_code start_ack = refl
packet_type_of-type_code data' = refl
packet_type_of-type_code ack = refl
packet_type_of-type_code fin = refl
packet_type_of-type_code fin_ack = refl
packet_type_of-type_code error = refl

pub same_type_lem : (a b : PacketType) → same_type a b ≡ true → a ≡ b
unfolding same_type packet_type_of
same_type_lem a b h =
    let codes : type_code a ≡ type_code b = ground arith in
    sym (packet_type_of-type_code a) ∙ ap packet_type_of codes ∙ packet_type_of-type_code b

abbrev pub type_to_string : PacketType → String
type_to_string start = "START"
type_to_string start_ack = "START_ACK"
type_to_string data' = "DATA"
type_to_string ack = "ACK"
type_to_string fin = "FIN"
type_to_string fin_ack = "FIN_ACK"
type_to_string error = "ERROR"

pub record PacketHeader : Type 0 where
  pub magic : ℕ
  pub version : ℕ
  pub packet_type : PacketType
  pub header_length : ℕ
  pub session_id : ℕ
  pub sequence_number : ℕ
  pub acknowledgement_number : ℕ
  pub byte_offset : ℕ
  pub payload_length : ℕ
  pub flags : ℕ
  pub checksum : ℕ

-- a header as the struct's default member initialisers leave it
abbrev pub default_header : PacketHeader
default_header = record {
  magic = magic_number;
  version = protocol_version;
  packet_type = data';
  header_length = header_wire_size;
  session_id = 0;
  sequence_number = 0;
  acknowledgement_number = 0;
  byte_offset = 0;
  payload_length = 0;
  flags = 0;
  checksum = 0;
}

-- The ranges of the fields that are written as they are given.
pub record IsHeader (h : PacketHeader) : Type 0 where
  pub magic_fits : h.magic < 2 ^ 32
  pub version_fits : h.version < 2 ^ 8
  pub length_fits : h.header_length < 2 ^ 16
  pub session_fits : h.session_id < 2 ^ 64
  pub sequence_fits : h.sequence_number < 2 ^ 32
  pub ack_fits : h.acknowledgement_number < 2 ^ 32
  pub offset_fits : h.byte_offset < 2 ^ 64
  pub flags_fit : h.flags < 2 ^ 16

pub record Packet : Type 0 where
  pub header : PacketHeader
  pub payload : List ℕ

pub data DecodeError : Type 0 where
  buffer_too_small bad_magic unsupported_version bad_header_length unknown_packet_type
        payload_length_mismatch checksum_mismatch :
      DecodeError

abbrev pub decode_error_to_string : DecodeError → String
decode_error_to_string buffer_too_small = "buffer smaller than a packet header"
decode_error_to_string bad_magic = "magic number mismatch (not a SwiftLink packet)"
decode_error_to_string unsupported_version = "unsupported protocol version"
decode_error_to_string bad_header_length = "declared header_length does not match the wire format"
decode_error_to_string unknown_packet_type = "unknown packet type"
decode_error_to_string payload_length_mismatch =
    "declared payload_length disagrees with the bytes received"
decode_error_to_string checksum_mismatch = "CRC32 mismatch (packet corrupted in transit)"

-- `DecodeResult`: a packet, or an error other than kNone
pub data DecodeResult : Type 0 where
  success : Packet → DecodeResult
  failure : DecodeError → DecodeResult

pub DecodeResult-cases :
    (x : DecodeResult) → ((p : Packet) × (x ≡ success p)) ⊎ ((e : DecodeError) × (x ≡ failure e))
DecodeResult-cases (success p) = inl (p, refl)
DecodeResult-cases (failure e) = inr (e, refl)
