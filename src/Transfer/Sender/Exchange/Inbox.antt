-- ===== src/Transfer/Sender/Exchange/Inbox.antt =====
-- `exchange_control` of src/transfer/sender.cpp and the datagrams that were heard before it.
use swiftlink.Common.{
  ℕ, zero, suc, ◌+◌, ◌-◌, ◌/◌, inl, inr, arith, Bool, true, false, Option-cases, List, ◌∷◌,
  if◌then◌else◌,
}
use swiftlink.Protocol.Packet.{Packet, DecodeResult-cases}
use swiftlink.Protocol.Serializer.{deserialize}
use swiftlink.Transfer.Sender.{SenderConfig, Network, Link, send_packet, ms}
use swiftlink.Transfer.Sender.Exchange.{
  Expected, on_reply, on_bytes, await, attempt, attempts, exchange_control, count_retransmission,
  count_heard,
}
use swiftlink.Transfer.Sender.Exchange.Answers.{Heard-cases, Waited-cases}

-- A property of the datagrams heard that more of them do not break.
module _ (net : Network) (e : Expected) (P : List (List ℕ) → Type 0)
    (grows : (bytes : List ℕ) (heard : List (List ℕ)) → P heard → P (bytes ∷ heard)) where
  on_reply_keeps : (p : Packet) (l : Link net.World) → P l.inbox → P (on_reply net e p l).1.inbox
  unfolding on_reply
  on_reply_keeps p l h = ground (arith, h)

  on_bytes_keeps :
      (bytes : List ℕ) (l : Link net.World) → P l.inbox → P (on_bytes net e bytes l).1.inbox
  unfolding on_bytes
  on_bytes_keeps bytes l h =
      let more = grows bytes l.inbox h in
      elim (DecodeResult-cases (deserialize bytes)) [
        | inr (z, d) ↦ rw (on_bytes, d) more
        | inl (p, d) ↦
            rw (on_bytes, d)
              (on_reply_keeps p (record l { stats = count_heard l.stats; inbox = bytes ∷ l.inbox })
                more)
      ]

  await_keeps :
      (fuel deadline : ℕ) (l : Link net.World) → P l.inbox → P (await net fuel e deadline l).1.inbox
  unfolding await
  await_keeps zero deadline l h = h
  await_keeps (suc fuel) deadline l h =
      let clock = net.now l.world in
      let timeout = net.set_receive_timeout ((deadline - clock.0) / 1000) clock.1 in
      let call = net.recv_from timeout.1 in
      let again = await_keeps fuel deadline (record l { world = call.1 }) h in
      elim (Heard-cases call.0) [
        | inl (bytes, b) ↦
            let l' = record l { world = call.1 } in
            let got = on_bytes_keeps bytes l' h in
            let later = await_keeps fuel deadline (on_bytes net e bytes l').1 got in
            elim (Option-cases (on_bytes net e bytes l').0) [
              | inl more ↦ ground arith
              | inr (y, ends) ↦ ground arith
            ]
        | inr other ↦ ground arith
      ]

  attempt_keeps :
      (fuel : ℕ) (config : SenderConfig) (wire : List ℕ) (l : Link net.World)
      → P l.inbox
      → P (attempt net fuel config e wire l).1.inbox
  unfolding attempt send_packet
  attempt_keeps fuel config wire l h =
      let sent = send_packet net l wire in
      let clock = net.now sent.1.world in
      let held : P sent.1.inbox = ground (arith, h) in
      let waited =
        await_keeps fuel (clock.0 + ms config.rto) (record (sent.1) { world = clock.1 }) held in
      ground (arith, held, waited)

  attempts_keeps :
      (left : ℕ) (first : Bool) (fuel : ℕ) (config : SenderConfig) (wire : List ℕ)
      (l : Link net.World)
      → P l.inbox
      → P (attempts net left first fuel config e wire l).1.inbox
  unfolding attempts
  attempts_keeps zero first fuel config wire l h = h
  attempts_keeps (suc left) first fuel config wire l h =
      let l' = if first then l else record l { stats = count_retransmission l.stats } in
      let r = attempt net fuel config e wire l' in
      let held : P l'.inbox = ground (arith, h) in
      let now = attempt_keeps fuel config wire l' held in
      let later = attempts_keeps left false fuel config wire r.1 now in
      elim (Waited-cases r.0) [
        | inl (y, ends) ↦ ground (arith, ends, now)
        | inr (inl again) ↦ ground (arith, again, later)
        | inr (inr out) ↦ ground (arith, out, now)
      ]

  pub exchange_control_keeps :
      (fuel : ℕ) (config : SenderConfig) (wire : List ℕ) (l : Link net.World)
      → P l.inbox
      → P (exchange_control net fuel config e wire l).1.inbox
  unfolding exchange_control
  exchange_control_keeps fuel config wire l h =
      attempts_keeps (config.max_retries + 1) true fuel config wire l h
