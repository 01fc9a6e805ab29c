-- ===== src/Transfer/Sender/Exchange/Answers.antt =====
-- What the outcome of `exchange_control` (src/transfer/sender.cpp) says of what was heard.
use swiftlink.Common.{
  ℕ, zero, suc, ◌+◌, ◌-◌, ◌/◌, ◌≡◌, ◌⊎◌, inl, inr, refl, subst, sym, ap, ◌∙◌, arith, Bool, true,
  false, some, Option-cases, List, [], ◌∷◌, if◌then◌else◌,
}
use swiftlink.Protocol.Packet.{Packet, success, same_type_lem, error, DecodeResult-cases}
use swiftlink.Protocol.Serializer.{deserialize}
use swiftlink.Transfer.Sender.{
  SenderConfig, Network, Link, Heard, heard, timed_out, interrupted, receive_failed, send_packet,
  ms,
}
use swiftlink.Transfer.Sender.Exchange.{
  Waited, over, resend, unfinished, Expected, answers, on_reply, on_bytes, await, attempt, attempts,
  exchange_control, count_heard, count_retransmission,
}
use swiftlink.Transfer.Stats
use swiftlink.Transfer.Stats.{TransferError}

pub Heard-cases :
    (x : Heard)
    → ((bytes : List ℕ) × (x ≡ heard bytes))
      ⊎ ((x ≡ timed_out) ⊎ ((x ≡ interrupted) ⊎ (x ≡ receive_failed)))
Heard-cases (heard bytes) = inl (bytes, refl)
Heard-cases timed_out = inr (inl refl)
Heard-cases interrupted = inr (inr (inl refl))
Heard-cases receive_failed = inr (inr (inr refl))

pub Waited-cases :
    (x : Waited) → ((e : TransferError) × (x ≡ over e)) ⊎ ((x ≡ resend) ⊎ (x ≡ unfinished))
Waited-cases (over e) = inl (e, refl)
Waited-cases resend = inr (inl refl)
Waited-cases unfinished = inr (inr refl)

-- The latest datagram heard decodes to a packet with a property.
abbrev pub LatestIs : (Packet → Type 0) → List (List ℕ) → Type 0
LatestIs P [] = ⊥
LatestIs P (bytes ∷ rest) = (p : Packet) × (deserialize bytes ≡ success p) × P p

-- the errors that an exchange ends with for reasons of its own
abbrev IsLocal : TransferError → Type 0
IsLocal x =
    (x ≡ Stats.socket_failed)
    ⊎ ((x ≡ Stats.receive_failed) ⊎ ((x ≡ Stats.send_failed) ⊎ (x ≡ Stats.peer_unresponsive)))

-- An outcome that only a reply gives rests on the latest datagram heard.
module _ (net : Network) (e : Expected) (x : TransferError) (P : Packet → Type 0)
    (replied : (p : Packet) (l : Link net.World) → (on_reply net e p l).0 ≡ some x → P p)
    (not_local : ¬ IsLocal x) where
  on_reply-inbox : (p : Packet) (l : Link net.World) → (on_reply net e p l).1.inbox ≡ l.inbox
  unfolding on_reply
  on_reply-inbox p l = ground arith

  on_bytes-LatestIs :
      (bytes : List ℕ) (l : Link net.World)
      → (on_bytes net e bytes l).0 ≡ some x
      → LatestIs P (on_bytes net e bytes l).1.inbox
  unfolding on_bytes
  on_bytes-LatestIs bytes l h = elim (DecodeResult-cases (deserialize bytes)) [
    | inr (z, d) ↦ absurd (ground arith)
    | inl (p, d) ↦
        let l' = record l { stats = count_heard l.stats; inbox = bytes ∷ l.inbox } in
        let same : on_bytes net e bytes l ≡ on_reply net e p l' = rw (on_bytes, d) refl in
        let ends : (on_reply net e p l').0 ≡ some x = ap (λ r. r.0) (sym same) ∙ h in
        subst (LatestIs P) (sym (on_reply-inbox p l') ∙ ap (λ r. r.1.inbox) (sym same))
          (p, d, replied p l' ends)
  ]

  await-LatestIs :
      (fuel deadline : ℕ) (l : Link net.World)
      → (await net fuel e deadline l).0 ≡ over x
      → LatestIs P (await net fuel e deadline l).1.inbox
  unfolding await
  await-LatestIs zero deadline l h = absurd (ground arith)
  await-LatestIs (suc fuel) deadline l h =
      let clock = net.now l.world in
      let timeout = net.set_receive_timeout ((deadline - clock.0) / 1000) clock.1 in
      let call = net.recv_from timeout.1 in
      let over_interrupted = await-LatestIs fuel deadline (record l { world = call.1 }) in
      elim (Heard-cases call.0) [
        | inl (bytes, b) ↦
            let l' = record l { world = call.1 } in
            let got = on_bytes-LatestIs bytes l' in
            let later = await-LatestIs fuel deadline (on_bytes net e bytes l').1 in
            elim (Option-cases (on_bytes net e bytes l').0) [
              | inl more ↦ ground arith
              | inr (y, ends) ↦ ground arith
            ]
        | inr other ↦ ground arith
      ]

  attempt-LatestIs :
      (fuel : ℕ) (config : SenderConfig) (wire : List ℕ) (l : Link net.World)
      → (attempt net fuel config e wire l).0 ≡ over x
      → LatestIs P (attempt net fuel config e wire l).1.inbox
  unfolding attempt
  attempt-LatestIs fuel config wire l h =
      let sent = send_packet net l wire in
      let clock = net.now sent.1.world in
      let waited =
        await-LatestIs fuel (clock.0 + ms config.rto) (record (sent.1) { world = clock.1 }) in
      ground arith

  attempts-LatestIs :
      (left : ℕ) (first : Bool) (fuel : ℕ) (config : SenderConfig) (wire : List ℕ)
      (l : Link net.World)
      → (attempts net left first fuel config e wire l).0 ≡ over x
      → LatestIs P (attempts net left first fuel config e wire l).1.inbox
  unfolding attempts
  attempts-LatestIs zero first fuel config wire l h = absurd (ground arith)
  attempts-LatestIs (suc left) first fuel config wire l h =
      let l' = if first then l else record l { stats = count_retransmission l.stats } in
      let r = attempt net fuel config e wire l' in
      let now = attempt-LatestIs fuel config wire l' in
      let later = attempts-LatestIs left false fuel config wire r.1 in
      elim (Waited-cases r.0) [
        | inl (y, ends) ↦ ground arith
        | inr (inl again) ↦ ground arith
        | inr (inr out) ↦ ground arith
      ]

-- When the exchange of a control packet succeeds, the latest datagram that was heard is a well-formed
-- packet of the session, of the type and with the acknowledgement number that were waited for.
pub exchange_control-LatestIs :
    (net : Network) (fuel : ℕ) (config : SenderConfig) (e : Expected) (wire : List ℕ)
    (l : Link net.World)
    → (exchange_control net fuel config e wire l).0 ≡ over Stats.none'
    → LatestIs
        (λ p.
          (p.header.session_id ≡ e.session)
          × (p.header.packet_type ≡ e.reply)
          × (p.header.acknowledgement_number ≡ e.ack_number))
        (exchange_control net fuel config e wire l).1.inbox
unfolding exchange_control on_reply answers
exchange_control-LatestIs net fuel config e wire l h =
    attempts-LatestIs net e Stats.none' _
      (λ p l ends. ground (arith, same_type_lem p.header.packet_type e.reply))
      (λ local. ground arith) (config.max_retries + 1) true fuel config wire l h

-- When it ends with the peer's error, the latest datagram that was heard is a well-formed ERROR packet.
pub exchange_control-remote_error :
    (net : Network) (fuel : ℕ) (config : SenderConfig) (e : Expected) (wire : List ℕ)
    (l : Link net.World)
    → (exchange_control net fuel config e wire l).0 ≡ over Stats.remote_error
    → LatestIs
        (λ p. p.header.packet_type ≡ error)
        (exchange_control net fuel config e wire l).1.inbox
unfolding exchange_control on_reply answers
exchange_control-remote_error net fuel config e wire l h =
    attempts-LatestIs net e Stats.remote_error _
      (λ p l ends. ground (arith, same_type_lem p.header.packet_type error)) (λ local. ground arith)
      (config.max_retries + 1) true fuel config wire l h
