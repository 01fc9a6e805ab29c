-- ===== src/Transfer/Sender/Send/Loop.antt =====
-- `hash_file` and the main loop of `send_file` of src/transfer/sender.cpp.
use swiftlink.Common.{
  ℕ, zero, suc, ◌+◌, ◌-◌, ◌/◌, min, not, ◌&&◌, Option, none, some, List, [], ◌∷◌, ◌==◌, leb, ltb,
  if◌then◌else◌, length,
}
use swiftlink.Crypto.Sha256.{Sha256, new_hasher, update}
use swiftlink.Transfer.Chunks.{chunk_offset, chunk_want}
use swiftlink.Transfer.Sender.{
  SenderConfig, Network, heard, timed_out, interrupted, receive_failed, ms, send_packet,
}
use swiftlink.Transfer.Sender.Exchange.{count_timeout, count_retransmission}
use swiftlink.Transfer.SenderWindow.{can_send, on_sent, earliest_deadline, expire, reschedule}
use swiftlink.Transfer.Stats
use swiftlink.Transfer.Stats.{TransferError, TransferStats, next}
use swiftlink.Transfer.Sender.Send.{
  Sending, Ended, done, returned, out_of_rounds, chunk_wire, slot_of, put_slot, on_heard,
}

-- the buffer of `hash_file`
abbrev pub hash_block : ℕ
hash_block = 65536

module _ (net : Network) where
  -- The loop of `hash_file`; a round moves by a whole block but for the last.
  unfoldable pub hash_from : ℕ → ℕ → ℕ → Sha256 → net.World → Option Sha256 × net.World
  hash_from zero size offset hasher w = (none, w)
  hash_from (suc fuel) size offset hasher w =
      let want = min (size - offset) hash_block in
      let call = net.read_at want offset w in
      if ltb offset size
      then (elim call.0 [
        | none ↦ (none, call.1)
        | some bytes ↦
            let rest = hash_from fuel size (offset + want) (update hasher bytes) call.1 in
            if length bytes == want then rest else (none, call.1)
      ])
      else (some hasher, w)

  abbrev pub hash_file : ℕ → net.World → Option Sha256 × net.World
  hash_file size w = hash_from (size / hash_block + 2) size 0 new_hasher w

  module _ (config : SenderConfig) (size total : ℕ) where
    -- One chunk into the window: its packet is kept in a slot, sent, and its timer armed.
    unfoldable pub send_chunk : Sending net.World → Option TransferError × Sending net.World
    send_chunk s =
        let sequence = s.window.next_sequence in
        let want = chunk_want size sequence config.chunk_size in
        let call = net.read_at want (chunk_offset sequence config.chunk_size) s.link.world in
        elim call.0 [
          | none ↦
              (some Stats.file_read_failed, record s { link = record (s.link) { world = call.1 } })
          | some bytes ↦
              let wire = chunk_wire config sequence bytes in
              let kept = put_slot s sequence (record { wire = wire; attempts = 1 }) in
              let sent = send_packet net (record (s.link) { world = call.1 }) wire in
              let clock = net.now sent.1.world in
              if not (length bytes == want)
              then (
                some Stats.file_read_failed,
                record s { link = record (s.link) { world = call.1 } },
              )
              else if not sent.0
              then (some Stats.send_failed, record kept { link = sent.1 })
              else (
                none,
                record kept {
                  window = on_sent s.window (clock.0 + ms config.rto);
                  link = record (sent.1) { world = clock.1 };
                },
              )
        ]

    -- The filling of the window, as long as chunks are left: `total - next_sequence` of them.
    unfoldable pub fill : ℕ → Sending net.World → Option TransferError × Sending net.World
    fill zero s = (none, s)
    fill (suc left) s =
        let r = send_chunk s in
        if can_send s.window && ltb s.window.next_sequence total
        then (elim r.0 [ some x ↦ (some x, r.1) | none ↦ fill left r.1 ])
        else (none, s)

    -- The retransmissions, of the numbers that `expire` hands back.
    unfoldable pub retransmit :
        List ℕ → Sending net.World → Option TransferError × Sending net.World
    retransmit [] s = (none, s)
    retransmit (sequence ∷ rest) s =
        let slot = slot_of s sequence in
        let again = record slot { attempts = slot.attempts + 1 } in
        let l = record (s.link) { stats = count_timeout (count_retransmission s.link.stats) } in
        let sent = send_packet net l slot.wire in
        let clock = net.now sent.1.world in
        let kept = put_slot s sequence again in
        let armed = record kept {
          window = reschedule s.window sequence (clock.0 + ms config.rto);
          link = record (sent.1) { world = clock.1 };
        } in
        let later = retransmit rest armed in
        if leb config.max_retries slot.attempts
        then (some Stats.peer_unresponsive, s)
        else if not sent.0
        then (some Stats.send_failed, record kept { link = sent.1 })
        else later

    unfoldable pub retransmit_expired : Sending net.World → Option TransferError × Sending net.World
    retransmit_expired s =
        let clock = net.now s.link.world in
        let due = expire s.window clock.0 in
        retransmit due.1 (record s { window = due.0; link = record (s.link) { world = clock.1 } })

    -- Sleep until the deadline, or until a datagram comes.
    unfoldable pub listen : ℕ → Sending net.World → Option TransferError × Sending net.World
    listen deadline s =
        let clock = net.now s.link.world in
        let timeout = net.set_receive_timeout ((deadline - clock.0) / 1000) clock.1 in
        let call = net.recv_from timeout.1 in
        let after = record s { link = record (s.link) { world = call.1 } } in
        if not timeout.0
        then (some Stats.socket_failed, record s { link = record (s.link) { world = timeout.1 } })
        else elim call.0 [
          | heard bytes ↦ (none, on_heard after bytes)
          | timed_out ↦ (none, after)
          | interrupted ↦ (none, after)
          | receive_failed ↦ (some Stats.receive_failed, after)
        ]

    -- A round of the main loop; `none` is its end without a deadline.
    unfoldable pub after_fill :
        Sending net.World → Option (Option TransferError × Sending net.World)
    after_fill s =
        let e = earliest_deadline s.window in
        let pruned = record s { window = e.0 } in
        elim e.1 [
          | none ↦ none
          | some deadline ↦
              let r = listen deadline pruned in
              elim r.0 [ some x ↦ some (some x, r.1) | none ↦ some (retransmit_expired r.1) ]
        ]

    unfoldable pub transfer : ℕ → Sending net.World → Ended × Sending net.World
    transfer zero s = (out_of_rounds, s)
    transfer (suc fuel) s =
        let filled = fill (total - s.window.next_sequence) s in
        if ltb s.window.base total
        then (elim filled.0 [
          | some x ↦ (returned x, filled.1)
          | none ↦ elim (after_fill filled.1) [
            | none ↦ (done, filled.1)
            | some r ↦ elim r.0 [ some x ↦ (returned x, r.1) | none ↦ transfer fuel r.1 ]
          ]
        ])
        else (done, s)
