-- ===== src/Protocol/Serializer/Fields.antt =====
-- The fields that `deserialize` of src/protocol/serializer.cpp finds in a buffer.
use swiftlink.Common.{
  ℕ, zero, suc, ◌+◌, ◌*◌, ◌≤◌, ◌<◌, List, ◌≡◌, ◌↔◌, refl, sym, ap, subst, ◌∙◌, true, arith, length,
  drop, get_or, All,
}
use swiftlink.Protocol.Packet.{
  PacketHeader, Packet, success, type_code, is_valid_packet_type, packet_type_of,
  packet_type_of-type_code, magic_number, protocol_version,
}
use swiftlink.Protocol.Crc.{crc32}
use swiftlink.Protocol.Crc.Detect.{IsByte}
use swiftlink.Protocol.Crc.Excluding.{crc32_excluding_checksum_lem}
use swiftlink.Protocol.Wire.{write_be32, read_be8, read_be16, read_be32, read_be64}
use swiftlink.Protocol.Wire.Laws.{join16-add, join32-add, join64-add}
use swiftlink.Protocol.Serializer.{deserialize, read_header, checksum_at}
use swiftlink.Protocol.Serializer.Corruption.{All-get_or}
use swiftlink.Protocol.Serializer.RoundTrip.{is_valid-type_code}
use swiftlink.Protocol.Serializer.Accept.{
  IsAccepted, packet_in, deserialize-accepts, deserialize_inversion,
}

-- The number that `n` bytes from `at` on spell, the most significant first.
abbrev pub field : List ℕ → ℕ → ℕ → ℕ
field buffer at zero = 0
field buffer at (suc n) = field buffer at n * 256 + get_or buffer (at + n) 0

-- The fields stand in the buffer at their offsets, each with its width.
pub record HasFields (buffer : List ℕ) (h : PacketHeader) : Type 0 where
  pub magic_at : h.magic ≡ field buffer 0 4
  pub version_at : h.version ≡ field buffer 4 1
  pub type_at : type_code h.packet_type ≡ field buffer 5 1
  pub header_length_at : h.header_length ≡ field buffer 6 2
  pub session_at : h.session_id ≡ field buffer 8 8
  pub sequence_at : h.sequence_number ≡ field buffer 16 4
  pub acknowledgement_at : h.acknowledgement_number ≡ field buffer 20 4
  pub offset_at : h.byte_offset ≡ field buffer 24 8
  pub payload_length_at : h.payload_length ≡ field buffer 32 2
  pub flags_at : h.flags ≡ field buffer 34 2
  pub checksum_is_at : h.checksum ≡ field buffer 36 4

-- The buffer is a packet: its header, and the payload behind it.
pub record IsWire (buffer : List ℕ) (p : Packet) : Type 0 where
  pub long : 40 ≤ length buffer
  pub fields : HasFields buffer p.header
  pub behind : p.payload ≡ drop 40 buffer
  pub magic_is : p.header.magic ≡ magic_number
  pub version_is : p.header.version ≡ protocol_version
  pub header_length_is : p.header.header_length ≡ 40
  pub payload_length_is : p.header.payload_length + 40 ≡ length buffer
  pub checksum_is : p.header.checksum ≡ crc32 (write_be32 buffer 36 0)

module _ (buffer : List ℕ) (bytes : All IsByte buffer) where
  abbrev small : (i : ℕ) → get_or buffer i 0 < 256
  small i = All-get_or buffer i bytes

  read_be16_lem : (at : ℕ) → read_be16 buffer at ≡ field buffer at 2
  read_be16_lem at =
      let start : at + 0 ≡ at = omega arith in
      rw start (join16-add _ _ (small (at + 1)) ∙ omega arith)

  read_be32_lem : (at : ℕ) → read_be32 buffer at ≡ field buffer at 4
  read_be32_lem at =
      let start : at + 0 ≡ at = omega arith in
      rw start (join32-add _ _ _ _ (small (at + 1)) (small (at + 2)) (small (at + 3)) ∙ omega arith)

  read_be64_lem : (at : ℕ) → read_be64 buffer at ≡ field buffer at 8
  read_be64_lem at =
      join64-add _ _ _ _ _ _ _ _ (small (at + 0)) (small (at + 1)) (small (at + 2)) (small (at + 3))
        (small (at + 4)) (small (at + 5)) (small (at + 6)) (small (at + 7))
      ∙ omega arith

type_code-packet_type_of :
    (raw : ℕ) → is_valid_packet_type raw ≡ true → type_code (packet_type_of raw) ≡ raw
unfolding is_valid_packet_type packet_type_of
type_code-packet_type_of raw h = ground arith

read_be8_lem : (buffer : List ℕ) (at : ℕ) → read_be8 buffer at ≡ field buffer at 1
read_be8_lem buffer at = let start : at + 0 ≡ at = omega arith in rw start (omega arith)

module _ (buffer : List ℕ) (bytes : All IsByte buffer) where
  read_header-HasFields :
      is_valid_packet_type (read_be8 buffer 5) ≡ true → HasFields buffer (read_header buffer)
  unfolding read_header
  read_header-HasFields valid = record {
    magic_at = read_be32_lem buffer bytes 0;
    version_at = read_be8_lem buffer 4;
    type_at = type_code-packet_type_of (read_be8 buffer 5) valid ∙ read_be8_lem buffer 5;
    header_length_at = read_be16_lem buffer bytes 6;
    session_at = read_be64_lem buffer bytes 8;
    sequence_at = read_be32_lem buffer bytes 16;
    acknowledgement_at = read_be32_lem buffer bytes 20;
    offset_at = read_be64_lem buffer bytes 24;
    payload_length_at = read_be16_lem buffer bytes 32;
    flags_at = read_be16_lem buffer bytes 34;
    checksum_is_at = read_be32_lem buffer bytes 36;
  }

  -- The fields determine the header.
  HasFields-read_header : (h : PacketHeader) → HasFields buffer h → read_header buffer ≡ h
  unfolding read_header
  HasFields-read_header h f = λ i. record {
    magic = (read_be32_lem buffer bytes 0 ∙ sym f.magic_at) i;
    version = (read_be8_lem buffer 4 ∙ sym f.version_at) i;
    packet_type =
        (ap packet_type_of (read_be8_lem buffer 5 ∙ sym f.type_at)
            ∙ packet_type_of-type_code h.packet_type)
          i;
    header_length = (read_be16_lem buffer bytes 6 ∙ sym f.header_length_at) i;
    session_id = (read_be64_lem buffer bytes 8 ∙ sym f.session_at) i;
    sequence_number = (read_be32_lem buffer bytes 16 ∙ sym f.sequence_at) i;
    acknowledgement_number = (read_be32_lem buffer bytes 20 ∙ sym f.acknowledgement_at) i;
    byte_offset = (read_be64_lem buffer bytes 24 ∙ sym f.offset_at) i;
    payload_length = (read_be16_lem buffer bytes 32 ∙ sym f.payload_length_at) i;
    flags = (read_be16_lem buffer bytes 34 ∙ sym f.flags_at) i;
    checksum = (read_be32_lem buffer bytes 36 ∙ sym f.checksum_is_at) i;
  }

  IsAccepted-IsWire : IsAccepted buffer → IsWire buffer (packet_in buffer)
  IsAccepted-IsWire a = record {
    long = a.has_header;
    fields = read_header-HasFields a.type_ok;
    behind = refl;
    magic_is = a.magic_ok;
    version_is = a.version_ok;
    header_length_is = a.length_ok;
    payload_length_is = omega (arith, a.payload_ok, a.has_header);
    checksum_is = sym a.checksum_ok ∙ crc32_excluding_checksum_lem buffer checksum_at;
  }

  IsWire-IsAccepted : (p : Packet) → IsWire buffer p → IsAccepted buffer × (p ≡ packet_in buffer)
  IsWire-IsAccepted p w =
      let same = HasFields-read_header p.header w.fields in
      (
        record {
          has_header = w.long;
          magic_ok = ap (λ h. h.magic) same ∙ w.magic_is;
          version_ok = ap (λ h. h.version) same ∙ w.version_is;
          type_ok =
              ap is_valid_packet_type (read_be8_lem buffer 5 ∙ sym w.fields.type_at)
              ∙ is_valid-type_code p.header.packet_type;
          length_ok = ap (λ h. h.header_length) same ∙ w.header_length_is;
          payload_ok = omega (arith, ap (λ h. h.payload_length) same, w.payload_length_is);
          checksum_ok =
              crc32_excluding_checksum_lem buffer checksum_at
              ∙ sym w.checksum_is
              ∙ ap (λ h. h.checksum) (sym same);
        },
        λ i. record { header = (sym same) i; payload = w.behind i },
      )

  -- `deserialize` gives a packet for a buffer of bytes exactly if the buffer has forty bytes at least;
  -- each field of the packet's header is the big-endian number that stands at its documented offset
  -- with its documented width, the type being one of the seven; the payload is what follows the forty
  -- bytes; the magic number, the version and the header length are those of this version; the payload
  -- has the length that its field declares; and the checksum is the CRC-32 of the buffer with that
  -- field zeroed.
  pub deserialize_iff : (p : Packet) → (deserialize buffer ≡ success p) ↔ IsWire buffer p
  deserialize_iff p = (
    λ e.
        let (a, same) = deserialize_inversion buffer p e in
        subst (IsWire buffer) (sym same) (IsAccepted-IsWire a),
    λ w.
        let (a, same) = IsWire-IsAccepted p w in
        deserialize-accepts buffer a ∙ ap success (sym same),
  )
