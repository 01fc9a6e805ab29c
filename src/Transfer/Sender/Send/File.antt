-- ===== src/Transfer/Sender/Send/File.antt =====
-- `send_file` of src/transfer/sender.cpp from the file to its FIN.
use swiftlink.Common.{ℕ, ◌%◌, ◌^◌, not, Option, none, some, List, if◌then◌else◌, replicate}
use swiftlink.Crypto.Sha256.{finish}
use swiftlink.Protocol.Packet.{start_ack, fin_ack}
use swiftlink.Transfer.Chunks.{chunk_count}
use swiftlink.Transfer.Sender.{SenderConfig, Network, Link}
use swiftlink.Transfer.Sender.Exchange.{
  Waited, over, resend, unfinished, Expected, exchange_control,
}
use swiftlink.Transfer.SenderWindow.{new_window}
use swiftlink.Transfer.Stats
use swiftlink.Transfer.Stats.{TransferError, TransferStats, next}
use swiftlink.Transfer.Sender.Send.{
  no_packet, Sending, Ended, done, returned, out_of_rounds, start_wire, fin_wire,
}
use swiftlink.Transfer.Sender.Send.Loop.{hash_file, transfer}

-- what the START handshake comes to; `none` goes on
unfoldable pub start_verdict : Waited → Option Ended
start_verdict (over Stats.none') = none
start_verdict (over Stats.peer_unresponsive) = some (returned Stats.handshake_failed)
start_verdict (over x) = some (returned x)
start_verdict resend = some out_of_rounds
start_verdict unfinished = some out_of_rounds

-- what the exchange of the FIN comes to
unfoldable pub fin_verdict : Waited → Ended
fin_verdict (over x) = returned x
fin_verdict resend = out_of_rounds
fin_verdict unfinished = out_of_rounds

module _ (net : Network) where
  -- The START handshake. `fuel` is the rounds of waiting of an attempt.
  unfoldable pub send_start : ℕ → SenderConfig → ℕ → Link net.World → Option Ended × Link net.World
  send_start fuel config size l =
      let expected : Expected = record {
        reply = start_ack;
        ack_number = 0;
        session = config.session_id;
      } in
      let r = exchange_control net fuel config expected (start_wire config size) l in
      (start_verdict r.0, r.1)

  unfoldable pub send_fin :
      ℕ → SenderConfig → ℕ → ℕ → List ℕ → Link net.World → Ended × Link net.World
  send_fin fuel config size total digest l =
      let expected : Expected = record {
        reply = fin_ack;
        ack_number = total % 2 ^ 32;
        session = config.session_id;
      } in
      let counted = record l {
        stats = record (l.stats) { chunks = total; bytes_transferred = size };
      } in
      let r =
        exchange_control net fuel config expected (fin_wire config size total digest) counted in
      (fin_verdict r.0, r.1)

  abbrev pub begin : SenderConfig → Link net.World → Sending net.World
  begin config l =
      let window = new_window config.window_size in
      record { window = window; in_flight = replicate window.capacity no_packet; link = l }

  -- `send_file` with the size, the number of chunks and the digest.
  unfoldable pub send_chunks :
      ℕ → ℕ → SenderConfig → ℕ → ℕ → List ℕ → Link net.World → Ended × Link net.World
  send_chunks fuel rounds config size total digest l =
      let opened = send_start fuel config size l in
      let r = transfer net config size total rounds (begin config opened.1) in
      elim opened.0 [
        | some x ↦ (x, opened.1)
        | none ↦ elim r.0 [
          | done ↦ send_fin fuel config size total digest r.1.link
          | returned x ↦ (returned x, r.1.link)
          | out_of_rounds ↦ (out_of_rounds, r.1.link)
        ]
      ]

  unfoldable pub send_file : ℕ → ℕ → SenderConfig → List ℕ → Link net.World → Ended × Link net.World
  send_file fuel rounds config path l =
      let opened = net.open_read path l.world in
      let sized = net.file_size opened.1 in
      if not opened.0
      then (returned Stats.file_open_failed, record l { world = opened.1 })
      else elim sized.0 [
        | none ↦ (returned Stats.file_open_failed, record l { world = sized.1 })
        | some size ↦ elim (chunk_count size config.chunk_size) [
          | none ↦ (returned Stats.protocol_violation, record l { world = sized.1 })
          | some total ↦
              let hashed = hash_file net size sized.1 in
              elim hashed.0 [
                | none ↦ (returned Stats.file_read_failed, record l { world = hashed.1 })
                | some hasher ↦
                    send_chunks fuel rounds config size total (finish hasher)
                      (record l { world = hashed.1 })
              ]
        ]
      ]
