-- ===== src/Transfer/Tests/Exchange.antt =====
-- A sender on a network with a script: what each receive gives is fixed, and the clock counts the calls.
use swiftlink.Common.{
  ℕ, ◌+◌, ◌*◌, ◌^◌, ◌<◌, ◌≤◌, ◌≡◌, ◌≢◌, refl, arith, true, false, some, List, [], ◌∷◌, take, drop,
  All,
}
use swiftlink.Protocol.Packet.{
  PacketType, default_header, start_ack, ack, fin_ack, error, is_valid_packet_type, same_type,
}
use swiftlink.Protocol.Serializer.{serialize, deserialize, read_header}
use swiftlink.Protocol.Crc.{crc32_excluding_checksum}
use swiftlink.Crypto.Sha256.{update, consume, finish, absorb, compress}
use swiftlink.Transfer.Chunks.{chunk_count}
use swiftlink.Transfer.Filename.{codes}
use swiftlink.Transfer.Sender.{SenderConfig, Network, Link, Heard, heard, timed_out, send_packet}
use swiftlink.Transfer.Sender.Exchange.{
  Expected, over, unfinished, exchange_control, attempts, attempt, await, on_bytes, on_reply,
  answers, note_status,
}
use swiftlink.Transfer.Sender.Exchange.Answers.{LatestIs, exchange_control-remote_error}
use swiftlink.Transfer.Sender.Exchange.Budget.{copies, exchange_control-outbox}
use swiftlink.Transfer.Sender.Exchange.Ends.{IsClock, exchange_control-ends}
use swiftlink.Transfer.Sender.Send.{returned, on_heard, acknowledge}
use swiftlink.Transfer.Sender.Send.Loop.{
  transfer, fill, send_chunk, listen, after_fill, retransmit_expired, retransmit, hash_from,
}
use swiftlink.Transfer.Sender.Send.File.{
  send_file, send_chunks, send_start, send_fin, start_verdict, fin_verdict,
}
use swiftlink.Transfer.Sender.Send.Acked.{cost, send_file-HasAck}
use swiftlink.Transfer.Sender.Send.Watched.{HasAck}
use swiftlink.Transfer.Sender.Send.Digest.{IsFile}
use swiftlink.Transfer.Sender.Send.Sent.{send_file-All}
use swiftlink.Transfer.Sender.Send.Success.{FinAcked, send_file-FinAcked}
use swiftlink.Transfer.Sender.Send.Wires.{IsWire}
use swiftlink.Transfer.SenderWindow.{
  new_window, can_send, in_flight, push, on_sent, on_ack, advance, earliest_deadline, prune,
  prune_timers, is_live, expire, expire_loop, disarm, reschedule,
}
use swiftlink.Transfer.Stats
use swiftlink.Transfer.Stats.{no_stats}

-- the file
abbrev pub abc : List ℕ
abc = 97 ∷ 98 ∷ 99 ∷ []

-- the time, and what is still to be heard
pub record Script : Type 0 where
  pub time : ℕ
  pub incoming : List Heard

abbrev receive : Script → Heard × Script
receive s = elim s.incoming [
  | [] ↦ (timed_out, record s { time = s.time + 1 })
  | x ∷ rest ↦ (x, record { time = s.time + 1; incoming = rest })
]

abbrev pub scripted : Network
scripted = record {
  World = Script;
  now = λ s. (s.time, s);
  should_drop = λ s. (false, s);
  send_to = λ wire s. (true, s);
  set_receive_timeout = λ wait s. (true, s);
  recv_from = receive;
  open_read = λ path s. (true, s);
  file_size = λ s. (some 3, s);
  read_at = λ want offset s. (some (take want (drop offset abc)), s);
}

abbrev pub config : SenderConfig
config = record {
  chunk_size = 2;
  rto = 1;
  max_retries = 2;
  window_size = 4;
  session_id = 7;
  remote_name = codes "a";
}

abbrev reply : PacketType → ℕ → Heard
reply type number = heard (
    serialize
      (record default_header {
        packet_type = type;
        session_id = 7;
        acknowledgement_number = number;
      })
      [])

abbrev hears : List Heard → Link Script
hears incoming = record {
  world = record { time = 5; incoming = incoming };
  stats = no_stats;
  outbox = [];
  inbox = [];
}

abbrev expects_start_ack : Expected
expects_start_ack = record { reply = start_ack; ack_number = 0; session = 7 }

-- noise, a stale acknowledgement, and the reply
abbrev answered : Link Script
answered = hears (heard (1 ∷ []) ∷ reply ack 3 ∷ reply start_ack 0 ∷ [])

answered_ok :
    (exchange_control scripted 9 config expects_start_ack abc answered).0 ≡ over Stats.none'
unfolding exchange_control attempts attempt await on_bytes on_reply answers send_packet deserialize
    serialize read_header is_valid_packet_type crc32_excluding_checksum same_type
answered_ok = refl

-- an ERROR, of another session even
abbrev refused : Link Script
refused = hears (
    heard (serialize (record default_header { packet_type = error; session_id = 4 }) (8 ∷ [])) ∷ [])

refused_ok :
    (exchange_control scripted 9 config expects_start_ack abc refused).0 ≡ over Stats.remote_error
unfolding exchange_control attempts attempt await on_bytes on_reply answers send_packet deserialize
    serialize read_header is_valid_packet_type crc32_excluding_checksum same_type note_status
refused_ok = refl

exchange_control-remote_error_example :
    LatestIs
      (λ p. p.header.packet_type ≡ error)
      (exchange_control scripted 9 config expects_start_ack abc refused).1.inbox
exchange_control-remote_error_example =
    exchange_control-remote_error scripted 9 config expects_start_ack abc refused refused_ok

exchange_control-outbox_example :
    (n : ℕ) × (n ≤ 3)
    × ((exchange_control scripted 9 config expects_start_ack abc (hears [])).1.outbox
        ≡ copies n abc [])
exchange_control-outbox_example =
    exchange_control-outbox scripted 9 config expects_start_ack abc (hears [])

-- silence: the packet is sent three times
silence_sends :
    (exchange_control scripted 9 config expects_start_ack abc (hears [])).1.outbox ≡ copies 3 abc []
unfolding exchange_control attempts attempt await send_packet
silence_sends = refl

scripted-IsClock : IsClock scripted (λ s. s.time)
scripted-IsClock = record {
  read = λ s. (omega arith, omega arith);
  timeout_keeps = λ wait s. omega arith;
  receive_takes = λ s. later s.time s.incoming;
}
  where
    later :
        (t : ℕ) (incoming : List Heard)
        → t < (receive (record { time = t; incoming = incoming })).1.time
    later t [] = omega arith
    later t (x ∷ rest) = omega arith

exchange_control-ends_example :
    (exchange_control scripted 1000001 config expects_start_ack abc answered).0 ≢ unfinished
exchange_control-ends_example =
    exchange_control-ends scripted (λ s. s.time) 1000001 config expects_start_ack abc answered
      scripted-IsClock (omega arith)

pub scripted-IsFile : IsFile scripted abc
scripted-IsFile = record { size_known = λ w. refl; reads = λ want offset w. refl }

-- the second chunk is acknowledged first
abbrev pub transferred : Link Script
transferred = hears (reply start_ack 0 ∷ reply ack 1 ∷ reply ack 0 ∷ reply fin_ack 2 ∷ [])

pub two_chunks : chunk_count 3 2 ≡ some 2
unfolding chunk_count
two_chunks = refl

send_file-All_example :
    All (IsWire config abc 2) (send_file scripted 9 9 config (codes "a") transferred).1.outbox
send_file-All_example =
    send_file-All scripted config abc 2 9 9 (codes "a") transferred scripted-IsFile two_chunks refl

transferred_ok : (send_file scripted 9 9 config (codes "a") transferred).0 ≡ returned Stats.none'
unfolding exchange_control attempts attempt await on_bytes on_reply answers send_packet deserialize
    serialize read_header is_valid_packet_type crc32_excluding_checksum same_type send_file
    send_chunks send_start send_fin start_verdict fin_verdict transfer fill send_chunk listen
    after_fill retransmit_expired retransmit on_heard acknowledge chunk_count hash_from update
    consume finish absorb compress new_window can_send in_flight push on_sent on_ack advance
    earliest_deadline prune prune_timers is_live expire expire_loop disarm reschedule
transferred_ok = refl

send_file-FinAcked_example :
    FinAcked scripted config 3 2 (send_file scripted 9 9 config (codes "a") transferred).1
send_file-FinAcked_example =
    send_file-FinAcked scripted config abc 2 9 9 (codes "a") transferred scripted-IsFile two_chunks
      transferred_ok

narrow : 2 * 2 + cost (new_window 4).capacity 9 < 2 ^ 64
unfolding new_window
narrow = omega arith

send_file-HasAck_example : HasAck (send_file scripted 9 9 config (codes "a") transferred).1.inbox 1
send_file-HasAck_example =
    send_file-HasAck scripted config abc 2 9 9 (codes "a") transferred scripted-IsFile (omega arith)
      two_chunks narrow transferred_ok 1 (omega arith)
