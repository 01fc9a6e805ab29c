-- ===== src/Transfer/Sender/Exchange/Budget.antt =====
-- How often `exchange_control` (src/transfer/sender.cpp) sends its packet.
use swiftlink.Common.{
  ℕ, zero, suc, ◌+◌, ◌-◌, ◌/◌, ◌≤◌, ◌≡◌, inl, inr, refl, ap, ◌∙◌, arith, Bool, true, false,
  Option-cases, List, ◌∷◌, if◌then◌else◌,
}
use swiftlink.Protocol.Packet.{DecodeResult-cases}
use swiftlink.Protocol.Serializer.{deserialize}
use swiftlink.Transfer.Sender.{SenderConfig, Network, Link, send_packet, ms}
use swiftlink.Transfer.Sender.Exchange.{
  Expected, on_reply, on_bytes, await, attempt, attempts, exchange_control, count_retransmission,
}
use swiftlink.Transfer.Sender.Exchange.Answers.{Heard-cases, Waited-cases}

-- copies of a datagram, put before what was sent before them
abbrev pub copies : ℕ → List ℕ → List (List ℕ) → List (List ℕ)
copies zero wire sent = sent
copies (suc n) wire sent = copies n wire (wire ∷ sent)

module _ (net : Network) where
  on_bytes-outbox :
      (e : Expected) (bytes : List ℕ) (l : Link net.World)
      → (on_bytes net e bytes l).1.outbox ≡ l.outbox
  unfolding on_bytes on_reply
  on_bytes-outbox e bytes l = elim (DecodeResult-cases (deserialize bytes)) [
    | inr (z, d) ↦ rw (on_bytes, d) refl
    | inl (p, d) ↦ rw (on_bytes, d) (ground arith)
  ]

  await-outbox :
      (fuel : ℕ) (e : Expected) (deadline : ℕ) (l : Link net.World)
      → (await net fuel e deadline l).1.outbox ≡ l.outbox
  unfolding await
  await-outbox zero e deadline l = refl
  await-outbox (suc fuel) e deadline l =
      let clock = net.now l.world in
      let timeout = net.set_receive_timeout ((deadline - clock.0) / 1000) clock.1 in
      let call = net.recv_from timeout.1 in
      let over_interrupted = await-outbox fuel e deadline (record l { world = call.1 }) in
      elim (Heard-cases call.0) [
        | inl (bytes, b) ↦
            let l' = record l { world = call.1 } in
            let got = on_bytes-outbox e bytes l' in
            let later = await-outbox fuel e deadline (on_bytes net e bytes l').1 in
            elim (Option-cases (on_bytes net e bytes l').0) [
              | inl more ↦ ground arith
              | inr (y, ends) ↦ ground arith
            ]
        | inr other ↦ ground arith
      ]

  attempt-outbox :
      (fuel : ℕ) (config : SenderConfig) (e : Expected) (wire : List ℕ) (l : Link net.World)
      → (attempt net fuel config e wire l).1.outbox ≡ wire ∷ l.outbox
  unfolding attempt send_packet
  attempt-outbox fuel config e wire l =
      let sent = send_packet net l wire in
      let clock = net.now sent.1.world in
      let waited =
        await-outbox fuel e (clock.0 + ms config.rto) (record (sent.1) { world = clock.1 }) in
      ground arith

  attempts-outbox :
      (left : ℕ) (first : Bool) (fuel : ℕ) (config : SenderConfig) (e : Expected) (wire : List ℕ)
      (l : Link net.World)
      → (n : ℕ) × (n ≤ left)
        × ((attempts net left first fuel config e wire l).1.outbox ≡ copies n wire l.outbox)
  unfolding attempts
  attempts-outbox zero first fuel config e wire l = (0, (omega arith), refl)
  attempts-outbox (suc left) first fuel config e wire l =
      let l' = if first then l else record l { stats = count_retransmission l.stats } in
      let same : l'.outbox ≡ l.outbox = ground arith in
      let r = attempt net fuel config e wire l' in
      let sent : r.1.outbox ≡ wire ∷ l.outbox =
        attempt-outbox fuel config e wire l' ∙ ap (λ o. wire ∷ o) same in
      elim (Waited-cases r.0) [
        | inl (y, ends) ↦ (1, (omega arith), ground arith)
        | inr (inl again) ↦
            let (n, few, later) = attempts-outbox left false fuel config e wire r.1 in
            (suc n, (omega arith), (rw (attempts, again) (later ∙ ap (copies n wire) sent)))
        | inr (inr out) ↦ (1, (omega arith), ground arith)
      ]

-- However the exchange of a control packet goes, it sends that one packet, byte for byte the same, and
-- at most `max_retries + 1` times.
pub exchange_control-outbox :
    (net : Network) (fuel : ℕ) (config : SenderConfig) (e : Expected) (wire : List ℕ)
    (l : Link net.World)
    → (n : ℕ) × (n ≤ config.max_retries + 1)
      × ((exchange_control net fuel config e wire l).1.outbox ≡ copies n wire l.outbox)
unfolding exchange_control
exchange_control-outbox net fuel config e wire l =
    attempts-outbox net (config.max_retries + 1) true fuel config e wire l
