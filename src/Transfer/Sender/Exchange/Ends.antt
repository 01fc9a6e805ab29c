-- ===== src/Transfer/Sender/Exchange/Ends.antt =====
-- `exchange_control` (src/transfer/sender.cpp) comes to an end.
use swiftlink.Common.{
  ℕ, zero, suc, ◌+◌, ◌-◌, ◌/◌, ◌≤◌, ◌<◌, ◌≡◌, ◌≢◌, inl, inr, refl, subst, sym, arith, Bool, true,
  false, Bool-cases, Option-cases, List, leb, if◌then◌else◌,
}
use swiftlink.Protocol.Packet.{DecodeResult-cases}
use swiftlink.Protocol.Serializer.{deserialize}
use swiftlink.Transfer.Sender.{SenderConfig, Network, Link, send_packet, ms}
use swiftlink.Transfer.Sender.Exchange.{
  unfinished, Expected, on_reply, on_bytes, await, attempt, attempts, exchange_control,
  count_retransmission,
}
use swiftlink.Transfer.Sender.Exchange.Answers.{Heard-cases, Waited-cases}

-- A steady clock: the calls do not turn it back, a reading lies between the times before and after it,
-- and the system call that receives takes a nanosecond or more.
pub record IsClock (net : Network) (time : net.World → ℕ) : Type 0 where
  pub read : (w : net.World) → (time w ≤ (net.now w).0) × ((net.now w).0 ≤ time (net.now w).1)
  pub timeout_keeps : (wait : ℕ) (w : net.World) → time w ≤ time (net.set_receive_timeout wait w).1
  pub receive_takes : (w : net.World) → time w < time (net.recv_from w).1

module _ (net : Network) (time : net.World → ℕ) (clock_law : IsClock net time) where
  on_bytes-world :
      (e : Expected) (bytes : List ℕ) (l : Link net.World)
      → (on_bytes net e bytes l).1.world ≡ l.world
  unfolding on_bytes on_reply
  on_bytes-world e bytes l = elim (DecodeResult-cases (deserialize bytes)) [
    | inr (z, d) ↦ rw (on_bytes, d) refl
    | inl (p, d) ↦ rw (on_bytes, d) (ground arith)
  ]

  await-ends :
      (fuel : ℕ) (e : Expected) (deadline : ℕ) (l : Link net.World)
      → deadline - time l.world < fuel
      → (await net fuel e deadline l).0 ≢ unfinished
  unfolding await
  await-ends zero e deadline l h = absurd (omega arith)
  await-ends (suc fuel) e deadline l h =
      let clock = net.now l.world in
      let timeout = net.set_receive_timeout ((deadline - clock.0) / 1000) clock.1 in
      let call = net.recv_from timeout.1 in
      let (before, after) = clock_law.read l.world in
      let kept = clock_law.timeout_keeps ((deadline - clock.0) / 1000) clock.1 in
      let took = clock_law.receive_takes timeout.1 in
      elim (Bool-cases (leb deadline clock.0)) [
        | inl late ↦ ground arith
        | inr early ↦
            let before_deadline : clock.0 < deadline = ground arith in
            let left : deadline - time call.1 < fuel = omega arith in
            let over_interrupted = await-ends fuel e deadline (record l { world = call.1 }) left in
            elim (Heard-cases call.0) [
              | inl (bytes, b) ↦
                  let l' = record l { world = call.1 } in
                  let later : deadline - time (on_bytes net e bytes l').1.world < fuel =
                    subst (λ w. deadline - time w < fuel) (sym (on_bytes-world e bytes l')) left in
                  let ih = await-ends fuel e deadline (on_bytes net e bytes l').1 later in
                  elim (Option-cases (on_bytes net e bytes l').0) [
                    | inl more ↦ ground arith
                    | inr (y, ends) ↦ ground arith
                  ]
              | inr other ↦ ground arith
            ]
      ]

  attempt-ends :
      (fuel : ℕ) (config : SenderConfig) (e : Expected) (wire : List ℕ) (l : Link net.World)
      → ms config.rto < fuel
      → (attempt net fuel config e wire l).0 ≢ unfinished
  unfolding attempt
  attempt-ends fuel config e wire l h =
      let sent = send_packet net l wire in
      let clock = net.now sent.1.world in
      let (before, after) = clock_law.read sent.1.world in
      let waited =
        await-ends fuel e (clock.0 + ms config.rto) (record (sent.1) { world = clock.1 })
          (omega arith) in
      ground arith

  attempts-ends :
      (left : ℕ) (first : Bool) (fuel : ℕ) (config : SenderConfig) (e : Expected) (wire : List ℕ)
      (l : Link net.World)
      → ms config.rto < fuel
      → (attempts net left first fuel config e wire l).0 ≢ unfinished
  unfolding attempts
  attempts-ends zero first fuel config e wire l h = ground arith
  attempts-ends (suc left) first fuel config e wire l h =
      let l' = if first then l else record l { stats = count_retransmission l.stats } in
      let r = attempt net fuel config e wire l' in
      let now = attempt-ends fuel config e wire l' h in
      let later = attempts-ends left false fuel config e wire r.1 h in
      elim (Waited-cases r.0) [
        | inl (y, ends) ↦ ground arith
        | inr (inl again) ↦ ground arith
        | inr (inr out) ↦ ground arith
      ]

-- Where the clock does not go back and a receive takes a nanosecond or more, the exchange of a control
-- packet comes to an end with a result, whatever is sent, lost and heard: the rounds of waiting of an
-- attempt are no more than the nanoseconds of `rto` and one.
pub exchange_control-ends :
    (net : Network) (time : net.World → ℕ) (fuel : ℕ) (config : SenderConfig) (e : Expected)
    (wire : List ℕ) (l : Link net.World)
    → IsClock net time
    → ms config.rto < fuel
    → (exchange_control net fuel config e wire l).0 ≢ unfinished
unfolding exchange_control
exchange_control-ends net time fuel config e wire l law h =
    attempts-ends net time law (config.max_retries + 1) true fuel config e wire l h
