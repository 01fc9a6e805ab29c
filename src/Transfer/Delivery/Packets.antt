-- ===== src/Transfer/Delivery/Packets.antt =====
-- What the datagrams of `send_file` (src/transfer/sender.cpp) decode to.
use swiftlink.Common.{
  ℕ, ◌+◌, ◌%◌, ◌^◌, ◌≤◌, ◌<◌, ◌≡◌, ◌⊎◌, inl, inr, refl, sym, ap, ◌∙◌, arith, some, List, length,
  drop, length-take,
}
use swiftlink.Crypto.Sha256.{sha256}
use swiftlink.Crypto.Sha256.Length.{length-sha256}
use swiftlink.Protocol.Packet.{
  PacketHeader, Packet, PacketType, default_header, success, start, data', fin, max_payload_size,
}
use swiftlink.Protocol.Serializer.{serialize, deserialize}
use swiftlink.Protocol.Serializer.RoundTrip.{deserialize-serialize, IsCurrent, received_header}
use swiftlink.Transfer.Chunks.{
  chunk_count, chunk_offset, chunk_want, chunk_count_covers, chunk_bounds,
}
use swiftlink.Transfer.Sender.{SenderConfig}
use swiftlink.Transfer.Sender.Send.Wires.{IsWire, chunk_bytes}

-- The configuration of a sender whose packets fit their wire format.
pub record IsSendable (config : SenderConfig) (content : List ℕ) (total : ℕ) : Type 0 where
  pub session_fits : config.session_id < 2 ^ 64
  pub name_fits : length config.remote_name ≤ max_payload_size
  pub chunk_fits : config.chunk_size ≤ max_payload_size
  pub file_fits : length content + config.chunk_size ≤ 2 ^ 64
  pub counted : chunk_count (length content) config.chunk_size ≡ some total

-- A packet that holds the chunk `s`.
pub record HoldsChunk (config : SenderConfig) (content : List ℕ) (total s : ℕ) (p : Packet)
    : Type 0 where
  pub below : s < total
  pub is_data : p.header.packet_type ≡ data'
  pub number : p.header.sequence_number ≡ s
  pub offset : p.header.byte_offset ≡ chunk_offset s config.chunk_size
  pub bytes : p.payload ≡ chunk_bytes config.chunk_size content s

-- A packet of the file: its START, one of its chunks, or the FIN with its size.
abbrev pub IsOfFile : SenderConfig → List ℕ → ℕ → Packet → Type 0
IsOfFile config content total p =
    (p.header.packet_type ≡ start)
    ⊎ (((s : ℕ) × HoldsChunk config content total s p)
        ⊎ ((p.header.packet_type ≡ fin) × (p.header.byte_offset ≡ length content)))

success-injective : (p q : Packet) → success p ≡ success q → p ≡ q
success-injective p q e = cc

module _ (config : SenderConfig) (content : List ℕ) (total : ℕ)
    (ok : IsSendable config content total) where
  pub current :
      (t : PacketType) (number offset : ℕ)
      → number < 2 ^ 32
      → offset < 2 ^ 64
      → IsCurrent (record default_header {
        packet_type = t;
        session_id = config.session_id;
        sequence_number = number;
        byte_offset = offset;
      })
  current t number offset short within = record {
    fields = record {
      magic_fits = omega arith;
      version_fits = omega arith;
      length_fits = omega arith;
      session_fits = ok.session_fits;
      sequence_fits = short;
      ack_fits = omega arith;
      offset_fits = within;
      flags_fit = omega arith;
    };
    magic_is = refl;
    version_is = refl;
    length_is = refl;
  }

  -- A well-formed datagram of one of these headers decodes to it.
  decoded :
      (h : PacketHeader) (payload : List ℕ) (p : Packet)
      → IsCurrent h
      → length payload ≤ max_payload_size
      → deserialize (serialize h payload) ≡ success p
      → p ≡ record { header = received_header h payload; payload = payload }
  decoded h payload p c fits e =
      success-injective p _ (sym e ∙ deserialize-serialize h payload c fits)

  pub wire-IsOfFile :
      (wire : List ℕ) (p : Packet)
      → IsWire config content total wire
      → deserialize wire ≡ success p
      → IsOfFile config content total p
  wire-IsOfFile wire p (inl w) e =
      let (pos, short, covers, tight) =
        chunk_count_covers (length content) config.chunk_size total ok.file_fits ok.counted in
      let q =
        decoded _ config.remote_name p
          (current start 0 (length content) (omega arith) (omega (arith, ok.file_fits)))
          ok.name_fits (ap deserialize (sym w) ∙ e) in
      inl (ap (λ (x : Packet). x.header.packet_type) q)
  wire-IsOfFile wire p (inr (inl (s, lt, w))) e =
      let (pos, short, covers, tight) =
        chunk_count_covers (length content) config.chunk_size total ok.file_fits ok.counted in
      let (starts, some_bytes, most, ends) =
        chunk_bounds (length content) config.chunk_size total s ok.file_fits ok.counted lt in
      let small : length (chunk_bytes config.chunk_size content s) ≤ max_payload_size = omega (
        arith,
        length-take (chunk_want (length content) s config.chunk_size)
            (drop (chunk_offset s config.chunk_size) content),
        ok.chunk_fits,
      ) in
      let q =
        decoded _ (chunk_bytes config.chunk_size content s) p
          (current data' s (chunk_offset s config.chunk_size) (omega arith)
            (omega (arith, ends, ok.file_fits)))
          small (ap deserialize (sym w) ∙ e) in
      inr (
        inl (
          s,
          record {
            below = lt;
            is_data = ap (λ (x : Packet). x.header.packet_type) q;
            number = ap (λ (x : Packet). x.header.sequence_number) q;
            offset = ap (λ (x : Packet). x.header.byte_offset) q;
            bytes = ap (λ (x : Packet). x.payload) q;
          },
        ))
  wire-IsOfFile wire p (inr (inr w)) e =
      let (pos, short, covers, tight) =
        chunk_count_covers (length content) config.chunk_size total ok.file_fits ok.counted in
      let q =
        decoded _ (sha256 content) p
          (current fin (total % 2 ^ 32) (length content) (omega arith)
            (omega (arith, ok.file_fits)))
          (omega (arith, length-sha256 content)) (ap deserialize (sym w) ∙ e) in
      inr (
        inr (
          ap (λ (x : Packet). x.header.packet_type) q,
          ap (λ (x : Packet). x.header.byte_offset) q,
        ))
