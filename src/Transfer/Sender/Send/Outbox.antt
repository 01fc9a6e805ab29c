-- ===== src/Transfer/Sender/Send/Outbox.antt =====
-- What the steps of the main loop of `send_file` (src/transfer/sender.cpp) put out, and keep to be sent
-- again.
use swiftlink.Common.{
  ℕ, zero, suc, ◌+◌, ◌-◌, ◌/◌, ◌%◌, ◌<◌, ◌≡◌, inl, inr, refl, sym, subst, arith, ◌&&◌, Bool-cases,
  Option-cases, List, [], ◌∷◌, ltb, leb, ◌==◌, length, get_or, set, get_or-set_self, All,
}
use swiftlink.Protocol.Packet.{Packet, DecodeResult-cases, same_type, ack}
use swiftlink.Protocol.Serializer.{deserialize}
use swiftlink.Transfer.Chunks.{chunk_offset, chunk_want}
use native.Mathlib.Nat.{mod-lt}
use swiftlink.Transfer.Sender.{SenderConfig, Network, Link, send_packet, ms}
use swiftlink.Transfer.Sender.Exchange.{count_timeout, count_retransmission, count_heard}
use swiftlink.Transfer.Sender.Exchange.Answers.{Heard-cases}
use swiftlink.Transfer.Sender.Send.{
  InFlight, Sending, no_packet, slot_of, acknowledge, on_heard, chunk_wire,
}
use swiftlink.Transfer.Sender.Send.Loop.{send_chunk, fill, retransmit, retransmit_expired, listen}
use swiftlink.Transfer.Sender.Send.Digest.{IsFile}
use swiftlink.Transfer.Sender.Send.Slots.{Keeps, fewer-Keeps, put-Keeps, arm-Keeps, get_or-set}
use swiftlink.Transfer.Sender.Send.Wires.{IsWire, IsChunk, chunk_bytes}
use swiftlink.Transfer.SenderWindow.{SenderWindow, can_send, on_sent, on_ack, expire, reschedule}
use swiftlink.Transfer.SenderWindow.Arm.{new_entry}
use swiftlink.Transfer.SenderWindow.Queue.{
  on_ack-timers, on_sent-timers, reschedule-timers, expire-Drawn,
}
use swiftlink.Transfer.SenderWindow.Timers.{Member}

pub send_packet-outbox :
    (net : Network) (l : Link net.World) (wire : List ℕ)
    → (send_packet net l wire).1.outbox ≡ wire ∷ l.outbox
unfolding send_packet
send_packet-outbox net l wire = ground arith

-- What was sent belongs to the file, and so does what waits to be sent again.
module _ (net : Network) (config : SenderConfig) (content : List ℕ) (total : ℕ) where
  pub record Good (s : Sending net.World) : Type 0 where
    pub sent : All (IsWire config content total) s.link.outbox
    pub waiting : Keeps (IsChunk config content total) s.window s.in_flight

module _ (net : Network) (config : SenderConfig) (content : List ℕ) (total : ℕ)
    (file : IsFile net content) where
  on_heard-Good :
      (s : Sending net.World) (bytes : List ℕ)
      → Good net config content total s
      → Good net config content total (on_heard s bytes)
  unfolding on_heard acknowledge
  on_heard-Good s bytes g = elim (DecodeResult-cases (deserialize bytes)) [
    | inr (x, d) ↦ rw (on_heard, d) (record { sent = g.sent; waiting = g.waiting })
    | inl (p, d) ↦
        let l = record (s.link) {
          stats = count_heard s.link.stats;
          inbox = bytes ∷ s.link.inbox;
        } in
        rw (on_heard, d)
          (acknowledge-Good (record s { link = l }) p
            (record { sent = g.sent; waiting = g.waiting }))
  ]
    where
      acknowledge-Good :
          (s : Sending net.World) (p : Packet)
          → Good net config content total s
          → Good net config content total (acknowledge s p)
      acknowledge-Good s p g =
          let (timers, capacity) = on_ack-timers s.window p.header.acknowledgement_number in
          let waiting =
            fewer-Keeps (IsChunk config content total) s.window
              (on_ack s.window p.header.acknowledgement_number).0 s.in_flight capacity
              (λ x m. subst (Member x) timers m) g.waiting in
          elim (Bool-cases (same_type p.header.packet_type ack)) [
            | inl acks ↦ rw (acknowledge, acks) (record { sent = g.sent; waiting = waiting })
            | inr other ↦ rw (acknowledge, other) g
          ]

  send_chunk-Good :
      (s : Sending net.World)
      → s.window.next_sequence < total
      → Good net config content total s
      → Good net config content total (send_chunk net config (length content) total s).1
  unfolding send_chunk
  send_chunk-Good s more g =
      let n = s.window.next_sequence in
      let want = chunk_want (length content) n config.chunk_size in
      let offset = chunk_offset n config.chunk_size in
      let world = (net.read_at want offset s.link.world).1 in
      let wire = chunk_wire config n (chunk_bytes config.chunk_size content n) in
      let slot : InFlight = record { wire = wire; attempts = 1 } in
      let chunk : IsChunk config content total wire = (n, more, refl) in
      let kept =
        put-Keeps (IsChunk config content total) s.window s.in_flight n slot chunk g.waiting in
      let sent = send_packet net (record (s.link) { world = world }) wire in
      let clock = net.now sent.1.world in
      let (timers, capacity) = on_sent-timers s.window (clock.0 + ms config.rto) in
      let out : All (IsWire config content total) sent.1.outbox =
        subst (All (IsWire config content total))
          (sym (send_packet-outbox net (record (s.link) { world = world }) wire))
          (inr (inl chunk), g.sent) in
      let in_slot =
        get_or-set_self s.in_flight (n % s.window.capacity) slot no_packet
          (omega (arith, g.waiting.sized, mod-lt n g.waiting.has_slots)) in
      let armed =
        arm-Keeps (IsChunk config content total) s.window
          (on_sent s.window (clock.0 + ms config.rto)) _
          (new_entry s.window n (clock.0 + ms config.rto)) capacity timers
          (subst (λ (x : InFlight). IsChunk config content total x.wire) (sym in_slot) chunk)
          kept in
      rw (send_chunk, file.reads want offset s.link.world)
        (elim (Bool-cases (length (chunk_bytes config.chunk_size content n) == want)) [
          | inr short ↦ rw short (record { sent = g.sent; waiting = g.waiting })
          | inl full ↦ elim (Bool-cases sent.0) [
            | inr failed ↦ rw (full, failed) (record { sent = out; waiting = kept })
            | inl ok ↦ rw (full, ok) (record { sent = out; waiting = armed })
          ]
        ])

  pub fill-Good :
      (left : ℕ) (s : Sending net.World)
      → Good net config content total s
      → Good net config content total (fill net config (length content) total left s).1
  unfolding fill
  fill-Good zero s g = g
  fill-Good (suc left) s g =
      elim (Bool-cases (can_send s.window && ltb s.window.next_sequence total)) [
        | inr stop ↦ rw stop g
        | inl go ↦
            let more : s.window.next_sequence < total = ground (arith, go) in
            let r = send_chunk net config (length content) total s in
            let one = send_chunk-Good s more g in
            let rest = fill-Good left r.1 one in
            elim (Option-cases r.0) [
              | inl goes_on ↦ rw (go, goes_on) rest
              | inr (x, fails) ↦ rw (go, fails) one
            ]
      ]

  reschedule-Keeps :
      (w : SenderWindow) (slots : List InFlight) (n deadline : ℕ)
      → IsChunk config content total (get_or slots (n % w.capacity) no_packet).wire
      → Keeps (IsChunk config content total) w slots
      → ((reschedule w n deadline).capacity ≡ w.capacity)
        × Keeps (IsChunk config content total) (reschedule w n deadline) slots
  reschedule-Keeps w slots n deadline good k = elim (reschedule-timers w n deadline) [
    | inl same ↦ rw same (refl, k)
    | inr (timers, capacity) ↦ (
      capacity,
      arm-Keeps (IsChunk config content total) w (reschedule w n deadline) slots
          (new_entry w n deadline) capacity timers good k,
    )
  ]

  retransmit-Good :
      (due : List ℕ) (s : Sending net.World)
      → ((n : ℕ) → Member n due → IsChunk config content total (slot_of s n).wire)
      → Good net config content total s
      → Good net config content total (retransmit net config (length content) total due s).1
  unfolding retransmit
  retransmit-Good [] s held g = g
  retransmit-Good (n ∷ rest) s held g =
      let slot = slot_of s n in
      let again = record slot { attempts = slot.attempts + 1 } in
      let l = record (s.link) { stats = count_timeout (count_retransmission s.link.stats) } in
      let sent = send_packet net l slot.wire in
      let clock = net.now sent.1.world in
      let kept =
        put-Keeps (IsChunk config content total) s.window s.in_flight n again (held n (inl refl))
          g.waiting in
      let out : All (IsWire config content total) sent.1.outbox =
        subst (All (IsWire config content total)) (sym (send_packet-outbox net l slot.wire))
          (inr (inl (held n (inl refl))), g.sent) in
      let window = reschedule s.window n (clock.0 + ms config.rto) in
      let slots = set s.in_flight (n % s.window.capacity) again in
      let (capacity, armed) =
        reschedule-Keeps s.window slots n (clock.0 + ms config.rto)
          (get_or-set s.in_flight (n % s.window.capacity) (n % s.window.capacity) again no_packet
            (λ (x : InFlight). IsChunk config content total x.wire) (held n (inl refl))
            (held n (inl refl)))
          kept in
      let next = record s {
        window = window;
        in_flight = slots;
        link = record (sent.1) { world = clock.1 };
      } in
      let still : (m : ℕ) → Member m rest → IsChunk config content total (slot_of next m).wire =
        λ m later.
          subst (λ c. IsChunk config content total (get_or slots (m % c) no_packet).wire)
            (sym capacity)
            (get_or-set s.in_flight (n % s.window.capacity) (m % s.window.capacity) again no_packet
              (λ (x : InFlight). IsChunk config content total x.wire) (held n (inl refl))
              (held m (inr later))) in
      let ih = retransmit-Good rest next still (record { sent = out; waiting = armed }) in
      elim (Bool-cases (leb config.max_retries slot.attempts)) [
        | inl spent ↦ rw (retransmit, spent) g
        | inr more ↦ elim (Bool-cases sent.0) [
          | inr failed ↦ rw (retransmit, more, failed) (record { sent = out; waiting = kept })
          | inl ok ↦ rw (retransmit, more, ok) ih
        ]
      ]

  pub retransmit_expired-Good :
      (s : Sending net.World)
      → Good net config content total s
      → Good net config content total (retransmit_expired net config (length content) total s).1
  unfolding retransmit_expired
  retransmit_expired-Good s g =
      let clock = net.now s.link.world in
      let drawn = expire-Drawn s.window clock.0 in
      let due = expire s.window clock.0 in
      let held : (n : ℕ)
          → Member n due.1
          → IsChunk config content total (get_or s.in_flight (n % due.0.capacity) no_packet).wire =
        λ n m.
          let (x, queued, same) = drawn.had_timer n m in
          subst
            (λ (c : ℕ). IsChunk config content total (get_or s.in_flight (n % c) no_packet).wire)
            (sym drawn.capacity_kept)
            (subst
              (λ (k : ℕ).
                IsChunk config content total
                  (get_or s.in_flight (k % s.window.capacity) no_packet).wire)
              same (g.waiting.kept x queued)) in
      retransmit-Good due.1
        (record s { window = due.0; link = record (s.link) { world = clock.1 } }) held
        (record {
          sent = g.sent;
          waiting =
              fewer-Keeps (IsChunk config content total) s.window due.0 s.in_flight
                drawn.capacity_kept drawn.fewer g.waiting;
        })

  pub listen-Good :
      (deadline : ℕ) (s : Sending net.World)
      → Good net config content total s
      → Good net config content total (listen net config (length content) total deadline s).1
  unfolding listen
  listen-Good deadline s g =
      let clock = net.now s.link.world in
      let timeout = net.set_receive_timeout ((deadline - clock.0) / 1000) clock.1 in
      let call = net.recv_from timeout.1 in
      let after = record s { link = record (s.link) { world = call.1 } } in
      let same : Good net config content total after = record {
        sent = g.sent;
        waiting = g.waiting;
      } in
      elim (Bool-cases timeout.0) [
        | inr failed ↦ rw (listen, failed) (record { sent = g.sent; waiting = g.waiting })
        | inl ok ↦ elim (Heard-cases call.0) [
          | inl (bytes, b) ↦ rw (listen, ok, b) (on_heard-Good after bytes same)
          | inr (inl b) ↦ rw (listen, ok, b) same
          | inr (inr (inl b)) ↦ rw (listen, ok, b) same
          | inr (inr (inr b)) ↦ rw (listen, ok, b) same
        ]
      ]
