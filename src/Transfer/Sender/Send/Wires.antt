-- ===== src/Transfer/Sender/Send/Wires.antt =====
-- Every datagram of `send_file` (src/transfer/sender.cpp) belongs to the file.
use swiftlink.Common.{ℕ, ◌<◌, ◌≡◌, ◌⊎◌, List, length, take, drop}
use swiftlink.Crypto.Sha256.{sha256}
use swiftlink.Transfer.Chunks.{chunk_offset, chunk_want}
use swiftlink.Transfer.Sender.{SenderConfig}
use swiftlink.Transfer.Sender.Send.{start_wire, chunk_wire, fin_wire}

-- the bytes of the chunk `s`
abbrev pub chunk_bytes : ℕ → List ℕ → ℕ → List ℕ
chunk_bytes chunk_size content s =
    take (chunk_want (length content) s chunk_size) (drop (chunk_offset s chunk_size) content)

-- A DATA packet with the number, the offset and the bytes of one of the chunks.
abbrev pub IsChunk : SenderConfig → List ℕ → ℕ → List ℕ → Type 0
IsChunk config content total wire =
    (s : ℕ) × (s < total) × (wire ≡ chunk_wire config s (chunk_bytes config.chunk_size content s))

-- The START of the file, one of its chunks, or the FIN with its SHA-256.
abbrev pub IsWire : SenderConfig → List ℕ → ℕ → List ℕ → Type 0
IsWire config content total wire =
    (wire ≡ start_wire config (length content))
    ⊎ (IsChunk config content total wire
        ⊎ (wire ≡ fin_wire config (length content) total (sha256 content)))
