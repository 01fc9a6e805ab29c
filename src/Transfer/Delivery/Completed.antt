-- ===== src/Transfer/Delivery/Completed.antt =====
-- The datagrams of `send_file` (src/transfer/sender.cpp), once each and in order, complete a transfer
-- (src/transfer/receiver_session.cpp).
use swiftlink.Common.{
  ℕ, zero, suc, ◌+◌, ◌%◌, ◌^◌, ◌≤◌, ◌<◌, ◌≡◌, refl, ap, ◌∙◌, subst, arith, true, List, [], ◌∷◌,
  ◌++◌, length, drop, length-take,
}
use swiftlink.Crypto.Sha256.{sha256}
use swiftlink.Crypto.Sha256.Length.{length-sha256}
use swiftlink.Protocol.Packet.{Packet, default_header, max_payload_size, start, data', fin, success}
use swiftlink.Protocol.Serializer.{deserialize}
use swiftlink.Protocol.Serializer.RoundTrip.{deserialize-serialize, received_header}
use swiftlink.Transfer.Chunks.{chunk_offset, chunk_want, chunk_count_covers, chunk_bounds}
use swiftlink.Transfer.Delivery.Clean.{IsWorking, IsAt, chunk_comes}
use swiftlink.Transfer.Delivery.Opening.{start_comes}
use swiftlink.Transfer.Delivery.Closing.{fin_comes}
use swiftlink.Transfer.Delivery.Delivered.{decoded}
use swiftlink.Transfer.Delivery.Packets.{IsSendable, current}
use swiftlink.Transfer.Delivery.Sessions.{IsDisk}
use swiftlink.Transfer.Filename
use swiftlink.Transfer.Filename.{sanitize_filename}
use swiftlink.Transfer.ReceiverWindow.{new_window}
use swiftlink.Transfer.Sender.{SenderConfig}
use swiftlink.Transfer.Sender.Send.{start_wire, chunk_wire, fin_wire}
use swiftlink.Transfer.Sender.Send.Wires.{chunk_bytes}
use swiftlink.Transfer.Session.{Storage, Session, new_session, handle_packet}
use swiftlink.Transfer.Session.Settled.{run}

-- `left` chunks from the number `k` on
unfoldable pub chunk_wires : SenderConfig → List ℕ → ℕ → ℕ → List (List ℕ)
chunk_wires config content zero k = []
chunk_wires config content (suc left) k =
    chunk_wire config k (chunk_bytes config.chunk_size content k)
    ∷ chunk_wires config content left (suc k)

-- the whole transfer
unfoldable pub file_wires : SenderConfig → List ℕ → ℕ → List (List ℕ)
file_wires config content total =
    start_wire config (length content)
    ∷ (chunk_wires config content total 0
        ++ (fin_wire config (length content) total (sha256 content) ∷ []))

decoded-success :
    (wire : List ℕ) (rest : List (List ℕ)) (p : Packet)
    → deserialize wire ≡ success p
    → decoded (wire ∷ rest) ≡ p ∷ decoded rest
unfolding decoded
decoded-success wire rest p e = rw (decoded, e) refl

module _ (st : Storage) (size : st.Handle → st.Disk → ℕ) (byte : st.Handle → st.Disk → ℕ → ℕ)
    (disk : IsDisk st size byte) (works : IsWorking st size byte) (config : SenderConfig)
    (content : List ℕ) (total capacity : ℕ) (ok : IsSendable config content total)
    (short : total + capacity < 2 ^ 32) where
  run-cons :
      (s : Session st.Handle) (d : st.Disk) (p : Packet) (ps : List Packet)
      → (run st s d (p ∷ ps)).0
        ≡ (run st (handle_packet st s d p).session (handle_packet st s d p).storage ps).0
  unfolding run
  run-cons s d p ps = refl

  fin_last :
      (s : Session st.Handle) (d : st.Disk)
      → IsAt st size byte disk works config content total capacity ok short total s d
      → (run st s d
          (decoded (fin_wire config (length content) total (sha256 content) ∷ []))).0.published
        ≡ true
  unfolding decoded run
  fin_last s d x =
      let (pos, narrow, covers, tight) =
        chunk_count_covers (length content) config.chunk_size total ok.file_fits ok.counted in
      let h = record default_header {
        packet_type = fin;
        session_id = config.session_id;
        sequence_number = total % 2 ^ 32;
        byte_offset = length content;
      } in
      let read =
        deserialize-serialize h (sha256 content)
          (current config content total ok fin (total % 2 ^ 32) (length content) (omega arith)
            (omega (arith, ok.file_fits)))
          (omega (arith, length-sha256 content)) in
      rw (decoded-success _ [] _ read) (
        fin_comes st size byte disk works config content total capacity ok short s d
          (record { header = received_header h (sha256 content); payload = sha256 content }) refl
          refl refl refl x)

  chunks_then_fin :
      (left k : ℕ) (s : Session st.Handle) (d : st.Disk)
      → k + left ≡ total
      → IsAt st size byte disk works config content total capacity ok short k s d
      → (run st s d (
          decoded (
            chunk_wires config content left k
            ++ (fin_wire config (length content) total (sha256 content) ∷ [])))).0.published
        ≡ true
  unfolding chunk_wires
  chunks_then_fin zero k s d e x = fin_last s d (
      subst (λ n. IsAt st size byte disk works config content total capacity ok short n s d)
        (omega arith) x)
  chunks_then_fin (suc left) k s d e x =
      let below : k < total = omega arith in
      let (pos, narrow, covers, tight) =
        chunk_count_covers (length content) config.chunk_size total ok.file_fits ok.counted in
      let (starts, some_bytes, most, ends) =
        chunk_bounds (length content) config.chunk_size total k ok.file_fits ok.counted below in
      let bytes = chunk_bytes config.chunk_size content k in
      let offset = chunk_offset k config.chunk_size in
      let h = record default_header {
        packet_type = data';
        session_id = config.session_id;
        sequence_number = k;
        byte_offset = offset;
      } in
      let p : Packet = record { header = received_header h bytes; payload = bytes } in
      let small : length bytes ≤ max_payload_size = omega (
        arith,
        length-take (chunk_want (length content) k config.chunk_size) (drop offset content),
        ok.chunk_fits,
      ) in
      let read =
        deserialize-serialize h bytes
          (current config content total ok data' k offset (omega arith)
            (omega (arith, ends, ok.file_fits)))
          small in
      let rest =
        chunk_wires config content left (suc k)
        ++ (fin_wire config (length content) total (sha256 content) ∷ []) in
      let next =
        chunk_comes st size byte disk works config content total capacity ok short k s d p
          (record { below = below; is_data = refl; number = refl; offset = refl; bytes = refl })
          refl x in
      let later =
        chunks_then_fin left (suc k) (handle_packet st s d p).session
          (handle_packet st s d p).storage (omega arith) next in
      ap (λ ps. (run st s d ps).0.published)
        (decoded-success (chunk_wire config k bytes) rest p read)
      ∙ ap (λ t. t.published) (run-cons s d p (decoded rest))
      ∙ later

-- The START, the chunks from the first to the last and the FIN of a file, each once and in order, make a
-- new session publish the file, on a disk that works. The name must be one that the receiver accepts, the
-- packets must fit their format and the receiver's window must not wrap round 2 ^ 32.
pub completes :
    (st : Storage) (size : st.Handle → st.Disk → ℕ) (byte : st.Handle → st.Disk → ℕ → ℕ)
    (config : SenderConfig) (content : List ℕ) (total slots : ℕ) (directory name : List ℕ)
    (d : st.Disk)
    → IsDisk st size byte
    → IsWorking st size byte
    → IsSendable config content total
    → total + (new_window slots).capacity < 2 ^ 32
    → sanitize_filename config.remote_name ≡ (Filename.accepted, name)
    → (run st
        (new_session slots directory)
        d
        (decoded (file_wires config content total))).0.published
      ≡ true
unfolding file_wires
completes st size byte config content total slots directory name d disk works ok short named =
    let capacity = (new_window slots).capacity in
    let s : Session st.Handle = new_session slots directory in
    let (pos, narrow, covers, tight) =
      chunk_count_covers (length content) config.chunk_size total ok.file_fits ok.counted in
    let h = record default_header {
      packet_type = start;
      session_id = config.session_id;
      byte_offset = length content;
    } in
    let p : Packet = record {
      header = received_header h config.remote_name;
      payload = config.remote_name;
    } in
    let read =
      deserialize-serialize h config.remote_name
        (current config content total ok start 0 (length content) (omega arith)
          (omega (arith, ok.file_fits)))
        ok.name_fits in
    let rest =
      chunk_wires config content total 0
      ++ (fin_wire config (length content) total (sha256 content) ∷ []) in
    let begun =
      start_comes st size byte disk works config content total capacity ok short directory slots d p
        name refl refl refl named refl in
    ap (λ ps. (run st s d ps).0.published)
      (decoded-success (start_wire config (length content)) rest p read)
    ∙ ap (λ t. t.published)
        (run-cons st size byte disk works config content total capacity ok short s d p
          (decoded rest))
    ∙ chunks_then_fin st size byte disk works config content total capacity ok short total 0
        (handle_packet st s d p).session (handle_packet st s d p).storage (omega arith) begun
