-- ===== src/Protocol/Serializer/Layout.antt =====
-- What `serialize` of src/protocol/serializer.cpp puts on the wire: the forty header bytes in the
-- documented order, then the payload.
use swiftlink.Common.{
  ℕ, zero, suc, ◌+◌, ◌/◌, ◌%◌, ◌^◌, ◌≤◌, ◌<◌, List, [], ◌∷◌, ◌++◌, ◌≡◌, ap, ◌∙◌, arith, false, ◌==◌,
  ge→ltb, lt→ltb, length, replicate, length-replicate,
}
use swiftlink.Protocol.Packet.{PacketHeader, type_code, max_payload_size}
use swiftlink.Protocol.Wire.Laws.{be16, be32, be64, copy_bytes-append}
use swiftlink.Protocol.Crc.{crc32}
use swiftlink.Protocol.Crc.Excluding.{crc32_excluding_checksum_lem}
use swiftlink.Protocol.Serializer.{unsealed, serialize}

-- The header on the wire, for a payload of `n` bytes and the checksum `crc`.
abbrev pub header_bytes : PacketHeader → ℕ → ℕ → List ℕ
header_bytes h n crc =
    be32 h.magic
    ++ (h.version
        ∷ type_code h.packet_type
        ∷ (be16 h.header_length
            ++ (be64 h.session_id
                ++ (be32 h.sequence_number
                    ++ (be32 h.acknowledgement_number
                        ++ (be64 h.byte_offset ++ (be16 n ++ (be16 h.flags ++ be32 crc))))))))

-- The checksum that `serialize` computes.
abbrev pub wire_crc : PacketHeader → List ℕ → ℕ
wire_crc h payload = crc32 (header_bytes h (length payload) 0 ++ payload)

replicate-add : (m n : ℕ) → replicate {A = ℕ} (m + n) 0 ≡ replicate m 0 ++ replicate n 0
replicate-add zero n = ap (λ k. replicate {A = ℕ} k 0) (omega arith)
replicate-add (suc m) n =
    let one : suc m + n ≡ suc (m + n) = omega arith in
    ap (λ k. replicate {A = ℕ} k 0) one ∙ ap (◌∷◌ 0) (replicate-add m n)

div-one : (v : ℕ) → v / 1 ≡ v
div-one v = omega arith

pub unsealed-layout :
    (h : PacketHeader) (payload : List ℕ)
    → length payload ≤ max_payload_size
    → unsealed h payload ≡ header_bytes h (length payload) 0 ++ payload
unfolding unsealed
unsealed-layout h [] fits = rw (div-one h.session_id, div-one h.byte_offset)
unsealed-layout h (b ∷ bytes) fits =
    let n = length (b ∷ bytes) in
    let short : n % 2 ^ 16 ≡ n = omega arith in
    let some_bytes : (length (b ∷ bytes) == 0) ≡ false = ground arith in
    rw (replicate-add 40 n, short, some_bytes, div-one h.session_id, div-one h.byte_offset)
      (copy_bytes-append (header_bytes h n 0) (replicate n 0) (b ∷ bytes)
        (length-replicate {0} n 0))

-- On the wire stand the header's bytes, big-endian and in the documented order, with the payload's
-- own length and the CRC-32 of the whole packet with a zero checksum; then the payload, which has at
-- most 65535 bytes.
pub serialize-layout :
    (h : PacketHeader) (payload : List ℕ)
    → length payload ≤ max_payload_size
    → serialize h payload ≡ header_bytes h (length payload) (wire_crc h payload) ++ payload
unfolding serialize
serialize-layout h payload small = rw (
  ge→ltb max_payload_size (length payload) small,
  unsealed-layout h payload small,
  crc32_excluding_checksum_lem,
)

-- A payload of more than 65535 bytes gives no bytes at all.
serialize_refuses :
    (h : PacketHeader) (payload : List ℕ)
    → max_payload_size < length payload
    → serialize h payload ≡ []
unfolding serialize
serialize_refuses h payload big = rw (lt→ltb max_payload_size (length payload) big)
