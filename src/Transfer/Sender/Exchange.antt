-- ===== src/Transfer/Sender/Exchange.antt =====
-- `exchange_control` of src/transfer/sender.cpp: a control packet, stop-and-wait.
pub mod Answers
pub mod Budget
pub mod Ends
pub mod Inbox
use swiftlink.Common.{
  ℕ, zero, suc, ◌+◌, ◌-◌, ◌*◌, ◌/◌, ◌%◌, ◌^◌, ◌≤◌, ◌<◌, Bool, true, false, not, ◌&&◌, Option, none,
  some, List, [], ◌∷◌, ◌++◌, leb, ltb, ◌==◌, if◌then◌else◌,
}
use swiftlink.Protocol.Packet.{PacketType, Packet, DecodeResult, success, failure, same_type, error}
use swiftlink.Protocol.Status.{is_valid_status_code}
use swiftlink.Protocol.Serializer.{deserialize}
use swiftlink.Transfer.Sender.{
  SenderConfig, Network, Link, Heard, heard, timed_out, interrupted, receive_failed, ms,
  send_packet, status_code_of,
}
use swiftlink.Transfer.Stats
use swiftlink.Transfer.Stats.{TransferError, TransferStats, next}

-- What the inner loop ends with: the exchange is over, the packet is to be sent again, or the rounds of
-- the model ran out.
pub data Waited : Type 0 where
  over : TransferError → Waited
  resend unfinished : Waited

-- the reply that is waited for
pub record Expected : Type 0 where
  pub reply : PacketType
  pub ack_number : ℕ
  pub session : ℕ

abbrev pub count_timeout : TransferStats → TransferStats
count_timeout s = record s { timeouts = next s.timeouts }

abbrev pub count_retransmission : TransferStats → TransferStats
count_retransmission s = record s { retransmissions = next s.retransmissions }

abbrev pub count_heard : TransferStats → TransferStats
count_heard s = record s { packets_received = next s.packets_received }

-- the status of an ERROR packet
unfoldable pub note_status : List ℕ → TransferStats → TransferStats
note_status [] s = s
note_status (raw ∷ rest) s =
    if is_valid_status_code raw then record s { remote_status = status_code_of raw } else s

unfoldable pub answers : Expected → Packet → Bool
answers e p =
    p.header.session_id == e.session
    && (same_type p.header.packet_type e.reply && p.header.acknowledgement_number == e.ack_number)

module _ (net : Network) where
  -- A packet that was heard: it ends the exchange, or the loop goes on.
  unfoldable pub on_reply :
      Expected → Packet → Link net.World → Option TransferError × Link net.World
  on_reply e p l =
      if same_type p.header.packet_type error
      then (some Stats.remote_error, record l { stats = note_status p.payload l.stats })
      else if answers e p
      then (some Stats.none', l)
      else (none, l)

  unfoldable pub on_bytes :
      Expected → List ℕ → Link net.World → Option TransferError × Link net.World
  on_bytes e bytes l = elim (deserialize bytes) [
    | success p ↦ on_reply e p (record l { stats = count_heard l.stats; inbox = bytes ∷ l.inbox })
    | failure x ↦ (none, record l { stats = count_heard l.stats; inbox = bytes ∷ l.inbox })
  ]

  -- The inner loop, until the deadline.
  unfoldable pub await : ℕ → Expected → ℕ → Link net.World → Waited × Link net.World
  await zero e deadline l = (unfinished, l)
  await (suc fuel) e deadline l =
      let clock = net.now l.world in
      let timeout = net.set_receive_timeout ((deadline - clock.0) / 1000) clock.1 in
      let call = net.recv_from timeout.1 in
      if leb deadline clock.0
      then (resend, record l { world = clock.1; stats = count_timeout l.stats })
      else if not timeout.0
      then (over Stats.socket_failed, record l { world = timeout.1 })
      else elim call.0 [
        | timed_out ↦ (resend, record l { world = call.1; stats = count_timeout l.stats })
        | interrupted ↦ await fuel e deadline (record l { world = call.1 })
        | receive_failed ↦ (over Stats.receive_failed, record l { world = call.1 })
        | heard bytes ↦
            let r = on_bytes e bytes (record l { world = call.1 }) in
            elim r.0 [ some x ↦ (over x, r.1) | none ↦ await fuel e deadline r.1 ]
      ]

  -- One attempt: send, and wait for the reply.
  unfoldable pub attempt :
      ℕ → SenderConfig → Expected → List ℕ → Link net.World → Waited × Link net.World
  attempt fuel config e wire l =
      let sent = send_packet net l wire in
      let clock = net.now sent.1.world in
      if sent.0
      then await fuel e (clock.0 + ms config.rto) (record (sent.1) { world = clock.1 })
      else (over Stats.send_failed, sent.1)

  -- The loop over the attempts that are left, each with `fuel` rounds of waiting. All but the first
  -- are retransmissions.
  unfoldable pub attempts :
      ℕ → Bool → ℕ → SenderConfig → Expected → List ℕ → Link net.World → Waited × Link net.World
  attempts zero first fuel config e wire l = (over Stats.peer_unresponsive, l)
  attempts (suc left) first fuel config e wire l =
      let l' = if first then l else record l { stats = count_retransmission l.stats } in
      let r = attempt fuel config e wire l' in
      elim r.0 [
        | over x ↦ (over x, r.1)
        | unfinished ↦ (unfinished, r.1)
        | resend ↦ attempts left false fuel config e wire r.1
      ]

  unfoldable pub exchange_control :
      ℕ → SenderConfig → Expected → List ℕ → Link net.World → Waited × Link net.World
  exchange_control fuel config e wire l =
      attempts (config.max_retries + 1) true fuel config e wire l
