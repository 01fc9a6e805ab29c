-- ===== src/Transfer/Sender/Send.antt =====
-- `send_file` of src/transfer/sender.cpp: the packets, the slots that keep them, and what an
-- acknowledgement does.
pub mod Loop
pub mod File
pub mod Slots
pub mod Digest
pub mod Wires
pub mod Outbox
pub mod Sent
pub mod Success
pub mod Watched
pub mod Rounds
pub mod Acked
use swiftlink.Common.{
  ℕ, zero, suc, ◌+◌, ◌-◌, ◌*◌, ◌/◌, ◌%◌, ◌^◌, min, Bool, true, false, not, ◌&&◌, Option, none, some,
  List, [], ◌∷◌, ◌==◌, leb, ltb, if◌then◌else◌, length, get_or, set, replicate,
}
use swiftlink.Crypto.Sha256.{Sha256, new_hasher, update, finish}
use swiftlink.Protocol.Packet.{
  PacketType, PacketHeader, Packet, default_header, DecodeResult, success, failure, same_type,
  start, start_ack, data', ack, fin, fin_ack,
}
use swiftlink.Protocol.Serializer.{serialize, deserialize}
use swiftlink.Transfer.Chunks.{chunk_count, chunk_offset, chunk_want}
use swiftlink.Transfer.Sender.{
  SenderConfig, Network, Link, Heard, heard, timed_out, interrupted, receive_failed, ms,
  send_packet,
}
use swiftlink.Transfer.Sender.Exchange.{
  Waited, over, resend, unfinished, Expected, exchange_control, count_timeout, count_retransmission,
  count_heard,
}
use swiftlink.Transfer.SenderWindow
use swiftlink.Transfer.SenderWindow.{
  SenderWindow, new_window, can_send, on_sent, on_ack, earliest_deadline, expire, reschedule,
}
use swiftlink.Transfer.Stats
use swiftlink.Transfer.Stats.{TransferError, TransferStats, next}

pub record InFlight : Type 0 where
  pub wire : List ℕ
  pub attempts : ℕ

abbrev pub no_packet : InFlight
no_packet = record { wire = []; attempts = 0 }

-- What the main loop works on.
pub record Sending (state : Type 0) : Type 0 where
  pub window : SenderWindow
  pub in_flight : List InFlight
  pub link : Link state

-- How the main loop ends: the chunks are through, an error is returned, or the rounds of the model ran
-- out.
pub data Ended : Type 0 where
  done out_of_rounds : Ended
  returned : TransferError → Ended

abbrev pub start_wire : SenderConfig → ℕ → List ℕ
start_wire config size =
    serialize
      (record default_header {
        packet_type = start;
        session_id = config.session_id;
        byte_offset = size;
      })
      config.remote_name

abbrev pub chunk_wire : SenderConfig → ℕ → List ℕ → List ℕ
chunk_wire config sequence payload =
    serialize
      (record default_header {
        packet_type = data';
        session_id = config.session_id;
        sequence_number = sequence;
        byte_offset = chunk_offset sequence config.chunk_size;
      })
      payload

abbrev pub fin_wire : SenderConfig → ℕ → ℕ → List ℕ → List ℕ
fin_wire config size total digest =
    serialize
      (record default_header {
        packet_type = fin;
        session_id = config.session_id;
        sequence_number = total % 2 ^ 32;
        byte_offset = size;
      })
      digest

abbrev pub slot_of : {state : Type 0} → Sending state → ℕ → InFlight
slot_of s sequence = get_or s.in_flight (sequence % s.window.capacity) no_packet

abbrev pub put_slot : {state : Type 0} → Sending state → ℕ → InFlight → Sending state
put_slot s sequence slot = record s {
  in_flight = set s.in_flight (sequence % s.window.capacity) slot;
}

-- the acknowledgement of a packet that was heard in the main loop, whatever its session
unfoldable pub acknowledge : {state : Type 0} → Sending state → Packet → Sending state
acknowledge s p =
    let r = on_ack s.window p.header.acknowledgement_number in
    let stats = s.link.stats in
    let late = record stats { duplicates_received = next stats.duplicates_received } in
    if same_type p.header.packet_type ack
    then record s { window = r.0; link = record (s.link) { stats = if r.1 then stats else late } }
    else s

unfoldable pub on_heard : {state : Type 0} → Sending state → List ℕ → Sending state
on_heard s bytes =
    let l = record (s.link) { stats = count_heard s.link.stats; inbox = bytes ∷ s.link.inbox } in
    elim (deserialize bytes) [
      | success p ↦ acknowledge (record s { link = l }) p
      | failure x ↦ record s { link = l }
    ]
