-- ===== src/Transfer/Sender/Send/Success.antt =====
-- What the success of `send_file` (src/transfer/sender.cpp) rests on.
use swiftlink.Common.{
  ℕ, ◌+◌, ◌%◌, ◌^◌, ◌≡◌, ◌≢◌, zero, suc, ◌-◌, ◌/◌, inl, inr, arith, Bool-cases, some, Option-cases,
  List, [], ◌∷◌, length, set,
}
use swiftlink.Crypto.Sha256.{finish, update, new_hasher}
use swiftlink.Protocol.Packet.{fin_ack, start_ack}
use swiftlink.Transfer.Chunks.{chunk_count, chunk_want, chunk_offset}
use swiftlink.Transfer.Sender.{SenderConfig, Network, Link, send_packet, ms}
use swiftlink.Transfer.Sender.Exchange.{
  count_timeout, count_retransmission, Waited, Expected, over, resend, unfinished, exchange_control,
}
use swiftlink.Transfer.Sender.Exchange.Answers.{
  Waited-cases, LatestIs, Heard-cases, exchange_control-LatestIs,
}
use swiftlink.Transfer.Sender.Send.{Sending, slot_of, start_wire, returned, fin_wire}
use swiftlink.Transfer.Sender.Send.Loop.{
  send_chunk, fill, retransmit, retransmit_expired, listen, after_fill, transfer, hash_file,
}
use swiftlink.Transfer.Sender.Send.File.{
  send_start, send_fin, send_chunks, send_file, begin, start_verdict, fin_verdict,
}
use swiftlink.Transfer.Sender.Send.Digest.{IsFile, hash_file_lem}
use swiftlink.Transfer.Sender.Send.Sent.{Ended-cases}
use swiftlink.Transfer.SenderWindow.{earliest_deadline, expire, reschedule}
use swiftlink.Transfer.Stats
use swiftlink.Transfer.Stats.{TransferError}

start_verdict_refuses : (x : Waited) → start_verdict x ≢ some (returned Stats.none')
unfolding start_verdict
start_verdict_refuses (over Stats.none') = ground arith
start_verdict_refuses (over x) = ground arith
start_verdict_refuses resend = ground arith
start_verdict_refuses unfinished = ground arith

-- The steps of the main loop fail with an error.
module _ (net : Network) (config : SenderConfig) (size total : ℕ) where
  send_chunk_fails :
      (s : Sending net.World) → (send_chunk net config size total s).0 ≢ some Stats.none'
  unfolding send_chunk
  send_chunk_fails s =
      let n = s.window.next_sequence in
      let call =
        net.read_at (chunk_want size n config.chunk_size) (chunk_offset n config.chunk_size)
          s.link.world in
      elim (Option-cases call.0) [ inl e ↦ ground (arith, e) | inr (bytes, e) ↦ ground (arith, e) ]

  fill_fails :
      (left : ℕ) (s : Sending net.World) → (fill net config size total left s).0 ≢ some Stats.none'
  unfolding fill
  fill_fails zero s = ground arith
  fill_fails (suc left) s =
      let r = send_chunk net config size total s in
      let one = send_chunk_fails s in
      let rest = fill_fails left r.1 in
      elim (Option-cases r.0) [ inl e ↦ ground (arith, e) | inr (x, e) ↦ ground (arith, e) ]

  retransmit_fails :
      (due : List ℕ) (s : Sending net.World)
      → (retransmit net config size total due s).0 ≢ some Stats.none'
  unfolding retransmit
  retransmit_fails [] s = ground arith
  retransmit_fails (n ∷ rest) s =
      let slot = slot_of s n in
      let again = record slot { attempts = slot.attempts + 1 } in
      let l = record (s.link) { stats = count_timeout (count_retransmission s.link.stats) } in
      let sent = send_packet net l slot.wire in
      let clock = net.now sent.1.world in
      let next = record s {
        window = reschedule s.window n (clock.0 + ms config.rto);
        in_flight = set s.in_flight (n % s.window.capacity) again;
        link = record (sent.1) { world = clock.1 };
      } in
      let ih = retransmit_fails rest next in ground arith

  retransmit_expired_fails :
      (s : Sending net.World) → (retransmit_expired net config size total s).0 ≢ some Stats.none'
  unfolding retransmit_expired
  retransmit_expired_fails s =
      let clock = net.now s.link.world in
      let due = expire s.window clock.0 in
      retransmit_fails due.1
        (record s { window = due.0; link = record (s.link) { world = clock.1 } })

  listen_fails :
      (deadline : ℕ) (s : Sending net.World)
      → (listen net config size total deadline s).0 ≢ some Stats.none'
  unfolding listen
  listen_fails deadline s =
      let clock = net.now s.link.world in
      let timeout = net.set_receive_timeout ((deadline - clock.0) / 1000) clock.1 in
      let call = net.recv_from timeout.1 in
      elim (Heard-cases call.0) [ inl (bytes, b) ↦ ground (arith, b) | inr other ↦ ground arith ]

  pub transfer_fails :
      (fuel : ℕ) (s : Sending net.World)
      → (transfer net config size total fuel s).0 ≢ returned Stats.none'
  unfolding transfer after_fill
  transfer_fails zero s = ground arith
  transfer_fails (suc fuel) s =
      let filled = fill net config size total (total - s.window.next_sequence) s in
      let e = earliest_deadline filled.1.window in
      let pruned = record (filled.1) { window = e.0 } in
      let filling = fill_fails (total - s.window.next_sequence) s in
      elim (Option-cases filled.0) [
        | inr (x, fails) ↦ ground arith
        | inl filled_up ↦ elim (Option-cases e.1) [
          | inl idle ↦ ground arith
          | inr (deadline, waits) ↦
              let r = listen net config size total deadline pruned in
              let x = retransmit_expired net config size total r.1 in
              let hearing = listen_fails deadline pruned in
              let again = retransmit_expired_fails r.1 in
              let ih = transfer_fails fuel x.1 in
              elim (Option-cases r.0) [
                | inr (y, fails) ↦ ground arith
                | inl listened ↦ elim (Option-cases x.0) [
                  | inr (y, fails) ↦ ground arith
                  | inl goes_on ↦ ground arith
                ]
              ]
        ]
      ]

module _ (net : Network) (config : SenderConfig) (size total : ℕ) where
  -- the FIN_ACK that ends the transfer
  abbrev pub FinAcked : Link net.World → Type 0
  FinAcked l =
      LatestIs
        (λ p.
          (p.header.session_id ≡ config.session_id)
          × (p.header.packet_type ≡ fin_ack)
          × (p.header.acknowledgement_number ≡ total % 2 ^ 32))
        l.inbox

  send_fin-FinAcked :
      (fuel : ℕ) (digest : List ℕ) (l : Link net.World)
      → (send_fin net fuel config size total digest l).0 ≡ returned Stats.none'
      → FinAcked (send_fin net fuel config size total digest l).1
  unfolding send_fin fin_verdict
  send_fin-FinAcked fuel digest l h =
      let expected : Expected = record {
        reply = fin_ack;
        ack_number = total % 2 ^ 32;
        session = config.session_id;
      } in
      let counted = record l {
        stats = record (l.stats) { chunks = total; bytes_transferred = size };
      } in
      let wire = fin_wire config size total digest in
      let r = exchange_control net fuel config expected wire counted in
      exchange_control-LatestIs net fuel config expected wire counted (elim (Waited-cases r.0) [
        | inl (x, e) ↦ ground (arith, e)
        | inr (inl e) ↦ ground (arith, e)
        | inr (inr e) ↦ ground (arith, e)
      ])

  pub send_start_refuses :
      (fuel : ℕ) (l : Link net.World)
      → (send_start net fuel config size l).0 ≢ some (returned Stats.none')
  unfolding send_start
  send_start_refuses fuel l =
      start_verdict_refuses
        (exchange_control net fuel config
          (record { reply = start_ack; ack_number = 0; session = config.session_id })
          (start_wire config size) l).0

  send_chunks-FinAcked :
      (fuel rounds : ℕ) (digest : List ℕ) (l : Link net.World)
      → (send_chunks net fuel rounds config size total digest l).0 ≡ returned Stats.none'
      → FinAcked (send_chunks net fuel rounds config size total digest l).1
  unfolding send_chunks
  send_chunks-FinAcked fuel rounds digest l h =
      let opened = send_start net fuel config size l in
      let r = transfer net config size total rounds (begin net config opened.1) in
      let fin = send_fin-FinAcked fuel digest r.1.link in
      let never = transfer_fails net config size total rounds (begin net config opened.1) in
      let refuses = send_start_refuses fuel l in
      elim (Option-cases opened.0) [
        | inr (x, refused) ↦ absurd (ground arith)
        | inl accepted ↦ elim (Ended-cases r.0) [
          | inl e ↦ rw (send_chunks, accepted, e) (fin (ground (arith, accepted, e)))
          | inr (inl e) ↦ absurd (ground arith)
          | inr (inr (x, e)) ↦ absurd (ground arith)
        ]
      ]

-- When `send_file` succeeds, the latest datagram that was heard is a well-formed FIN_ACK of the session
-- whose acknowledgement number is the number of chunks of the file.
pub send_file-FinAcked :
    (net : Network) (config : SenderConfig) (content : List ℕ) (total fuel rounds : ℕ)
    (path : List ℕ) (l : Link net.World)
    → IsFile net content
    → chunk_count (length content) config.chunk_size ≡ some total
    → (send_file net fuel rounds config path l).0 ≡ returned Stats.none'
    → FinAcked net config (length content) total (send_file net fuel rounds config path l).1
unfolding send_file
send_file-FinAcked net config content total fuel rounds path l file count h =
    let opened = net.open_read path l.world in
    let sized = net.file_size opened.1 in
    let hashed = hash_file net (length content) sized.1 in
    let digest = hash_file_lem net content file sized.1 in
    let known = file.size_known opened.1 in
    let out =
      send_chunks-FinAcked net config (length content) total fuel rounds
        (finish (update new_hasher content)) (record l { world = hashed.1 }) in
    elim (Bool-cases opened.0) [
      | inr failed ↦ absurd (ground (arith, failed))
      | inl ok ↦
          rw (send_file, ok, known, count, digest)
            (out (rw (send_file, ok, known, count, digest) at h))
    ]
