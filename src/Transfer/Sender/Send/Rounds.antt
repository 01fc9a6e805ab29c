-- ===== src/Transfer/Sender/Send/Rounds.antt =====
-- The rest of a round of the main loop of `send_file` (src/transfer/sender.cpp): what is heard, and what
-- is sent again.
use swiftlink.Common.{
  ℕ, suc, ◌+◌, ◌-◌, ◌*◌, ◌/◌, ◌%◌, ◌^◌, ◌<◌, ◌≡◌, ◌≢◌, ◌⊎◌, inl, inr, refl, sym, ap, ◌∙◌, subst,
  arith, true, Bool-cases, none, List, [], ◌∷◌, leb, length, set, if◌then◌else◌, ℕ_discrete,
  List-cases,
}
use swiftlink.Protocol.Packet.{Packet, DecodeResult-cases, same_type, same_type_lem, ack}
use swiftlink.Protocol.Serializer.{deserialize}
use swiftlink.Transfer.ReceiverWindow.Refine.{insert}
use swiftlink.Transfer.Sender.{SenderConfig, Network, send_packet, ms}
use swiftlink.Transfer.Sender.Exchange.{count_timeout, count_retransmission, count_heard}
use swiftlink.Transfer.Sender.Exchange.Answers.{Heard-cases}
use swiftlink.Transfer.Sender.Send.{Sending, slot_of, acknowledge, on_heard}
use swiftlink.Transfer.Sender.Send.Loop.{listen, retransmit, retransmit_expired}
use swiftlink.Transfer.Sender.Send.Watched.{
  HasAck, HasAck-later, Live, fewer-Live, send_packet-inbox,
}
use swiftlink.Transfer.SenderWindow.{
  SenderWindow, on_ack, expire, reschedule, earliest_deadline, prune,
}
use swiftlink.Transfer.SenderWindow.Expiry.{expire-Expires}
use swiftlink.Transfer.SenderWindow.Queue.{on_ack-timers}
use swiftlink.Transfer.SenderWindow.Timers.{Member, HasGenerations}
use swiftlink.Transfer.SenderWindow.Watch.{HasTimer, fewer-Watches}
use swiftlink.Transfer.SenderWindow.Watch.Calls.{prune-Watches, expire-Watches}
use swiftlink.Transfer.SenderWindow.Watch.Few.{length-expire}
use swiftlink.Transfer.SenderWindow.Watch.Rearm.{reschedule-Watches}
use swiftlink.Transfer.SenderWindow.Watch.Retire.{on_ack-Watches, on_ack-next_sequence}

reschedule_bounds :
    (w : SenderWindow) (n deadline : ℕ)
    → ((reschedule w n deadline).next_sequence ≡ w.next_sequence)
      × ((reschedule w n deadline).capacity ≡ w.capacity)
unfolding reschedule
reschedule_bounds w n deadline = ground arith

acknowledge-Live :
    {state : Type 0} (total capacity spare : ℕ) (s : Sending state) (p : Packet)
    → (same_type p.header.packet_type ack ≡ true
        → HasAck s.link.inbox p.header.acknowledgement_number)
    → Live total capacity [] (suc spare) s
    → Live total capacity [] spare (acknowledge s p)
      × ((acknowledge s p).window.next_sequence ≡ s.window.next_sequence)
unfolding acknowledge
acknowledge-Live total capacity spare s p proof x =
    let n = p.header.acknowledgement_number in
    let next = on_ack-next_sequence s.window n in
    elim (Bool-cases (same_type p.header.packet_type ack)) [
      | inr other ↦
          rw (acknowledge, other) (fewer-Live total capacity [] _ _ s (omega arith) x, refl)
      | inl acks ↦
          rw (acknowledge, acks)
            (
              record {
                acked = if (on_ack s.window n).1 then insert n x.acked else x.acked;
                watches = on_ack-Watches s.window x.acked n spare x.watches;
                sized = (on_ack-timers s.window n).1 ∙ x.sized;
                within = omega (arith, next, x.within);
                backed = λ m hit. backed m (proof acks) hit;
              },
              next,
            )
    ]
  where
    backed :
        (m : ℕ)
        → HasAck s.link.inbox p.header.acknowledgement_number
        → (if (on_ack s.window p.header.acknowledgement_number).1
              then insert p.header.acknowledgement_number x.acked
              else x.acked)
            m
          ≡ true
        → HasAck s.link.inbox m
    backed m new hit = elim (ℕ_discrete p.header.acknowledgement_number m) [
      | yes e ↦ subst (HasAck s.link.inbox) e new
      | no ne ↦ x.backed m (ground (arith, ne, hit))
    ]

on_heard-Live :
    {state : Type 0} (total capacity spare : ℕ) (s : Sending state) (bytes : List ℕ)
    → Live total capacity [] (suc spare) s
    → Live total capacity [] spare (on_heard s bytes)
      × ((on_heard s bytes).window.next_sequence ≡ s.window.next_sequence)
unfolding on_heard
on_heard-Live total capacity spare s bytes x =
    let l = record (s.link) { stats = count_heard s.link.stats; inbox = bytes ∷ s.link.inbox } in
    let noted : Live total capacity [] (suc spare) (record s { link = l }) = record {
      acked = x.acked;
      watches = x.watches;
      sized = x.sized;
      within = x.within;
      backed = λ m acks. HasAck-later m bytes s.link.inbox (x.backed m acks);
    } in
    elim (DecodeResult-cases (deserialize bytes)) [
      | inr (z, d) ↦
          rw (on_heard, d)
            (fewer-Live total capacity [] _ _ (record s { link = l }) (omega arith) noted, refl)
      | inl (p, d) ↦
          rw (on_heard, d)
            (acknowledge-Live total capacity spare (record s { link = l }) p
              (λ acks. record {
                bytes = bytes;
                was_heard = inl refl;
                packet = p;
                decodes = d;
                is_ack = same_type_lem p.header.packet_type ack acks;
                is_for = refl;
              })
              noted)
    ]

module _ (net : Network) (config : SenderConfig) (size total capacity : ℕ)
    (short : total < 2 ^ 32) where
  pub listen-Live :
      (deadline spare : ℕ) (s : Sending net.World)
      → Live total capacity [] (suc spare) s
      → (listen net config size total deadline s).0 ≡ none
      → Live total capacity [] spare (listen net config size total deadline s).1
        × ((listen net config size total deadline s).1.window.next_sequence
            ≡ s.window.next_sequence)
  unfolding listen
  listen-Live deadline spare s x e =
      let clock = net.now s.link.world in
      let timeout = net.set_receive_timeout ((deadline - clock.0) / 1000) clock.1 in
      let call = net.recv_from timeout.1 in
      let after = record s { link = record (s.link) { world = call.1 } } in
      let waited : Live total capacity [] (suc spare) after = record {
        acked = x.acked;
        watches = x.watches;
        sized = x.sized;
        within = x.within;
        backed = x.backed;
      } in
      let idle = fewer-Live total capacity [] (suc spare) spare after (omega arith) waited in
      elim (Bool-cases timeout.0) [
        | inr failed ↦ absurd (ground (arith, failed, e))
        | inl ok ↦ elim (Heard-cases call.0) [
          | inl (bytes, b) ↦
              rw (listen, ok, b) (on_heard-Live total capacity spare after bytes waited)
          | inr (inl b) ↦ rw (listen, ok, b) (idle, refl)
          | inr (inr (inl b)) ↦ rw (listen, ok, b) (idle, refl)
          | inr (inr (inr b)) ↦ absurd (ground (arith, ok, b, e))
        ]
      ]

  retransmit-Live :
      (due : List ℕ) (spare : ℕ) (s : Sending net.World)
      → Live total capacity due (2 * length due + spare) s
      → (retransmit net config size total due s).0 ≡ none
      → Live total capacity [] spare (retransmit net config size total due s).1
        × ((retransmit net config size total due s).1.window.next_sequence ≡ s.window.next_sequence)
  unfolding retransmit
  retransmit-Live [] spare s x e = (fewer-Live total capacity [] _ _ s (omega arith) x, refl)
  retransmit-Live (n ∷ rest) spare s x e =
      let slot = slot_of s n in
      let again = record slot { attempts = slot.attempts + 1 } in
      let l = record (s.link) { stats = count_timeout (count_retransmission s.link.stats) } in
      let sent = send_packet net l slot.wire in
      let clock = net.now sent.1.world in
      let deadline = clock.0 + ms config.rto in
      let (next, slots) = reschedule_bounds s.window n deadline in
      let armed = record s {
        window = reschedule s.window n deadline;
        in_flight = set s.in_flight (n % s.window.capacity) again;
        link = record (sent.1) { world = clock.1 };
      } in
      let roomy =
        fewer-Watches s.window x.acked (n ∷ rest) _ (2 * length rest + spare + 2) (omega arith)
          x.watches in
      let live : Live total capacity rest (2 * length rest + spare) armed = record {
        acked = x.acked;
        watches =
            reschedule-Watches s.window x.acked n rest deadline (2 * length rest + spare) roomy;
        sized = slots ∙ x.sized;
        within = omega (arith, next, x.within);
        backed = λ m acks.
            subst (λ h. HasAck h m) (sym (send_packet-inbox net l slot.wire)) (x.backed m acks);
      } in
      let ih = retransmit-Live rest spare armed live in
      elim (Bool-cases (leb config.max_retries slot.attempts)) [
        | inl spent ↦ absurd (ground (arith, spent, e))
        | inr more ↦ elim (Bool-cases sent.0) [
          | inr failed ↦ absurd (ground (arith, more, failed, e))
          | inl ok ↦
              let same : retransmit net config size total (n ∷ rest) s
                  ≡ retransmit net config size total rest armed =
                rw (retransmit, more, ok) refl in
              let (through, kept) = ih (ap (λ z. z.0) (sym same) ∙ e) in
              rw same (through, kept ∙ next)
        ]
      ]

  pub retransmit_expired-Live :
      (spare : ℕ) (s : Sending net.World)
      → Live total capacity [] (2 * capacity + suc spare) s
      → (retransmit_expired net config size total s).0 ≡ none
      → Live total capacity [] (suc spare) (retransmit_expired net config size total s).1
        × ((retransmit_expired net config size total s).1.window.next_sequence
            ≡ s.window.next_sequence)
  unfolding retransmit_expired
  retransmit_expired-Live spare s x e =
      let clock = net.now s.link.world in
      let due = expire s.window clock.0 in
      let narrow : HasGenerations s.window = λ m. omega (arith, x.watches.has_spare m) in
      let (expired, timed) = expire-Expires s.window clock.0 x.watches.timed narrow in
      let few = length-expire s.window clock.0 x.watches.timed narrow in
      let roomy =
        fewer-Watches s.window x.acked [] _ (suc (2 * capacity + spare)) (omega arith) x.watches in
      let next = record s { window = due.0; link = record (s.link) { world = clock.1 } } in
      let live : Live total capacity due.1 (suc (2 * capacity + spare)) next = record {
        acked = x.acked;
        watches = expire-Watches s.window x.acked clock.0 (2 * capacity + spare) roomy;
        sized = expired.capacity_kept ∙ x.sized;
        within = omega (arith, expired.next_kept, x.within);
        backed = x.backed;
      } in
      let (through, kept) =
        retransmit-Live due.1 (suc spare) next
          (fewer-Live total capacity due.1 _ _ next (omega (arith, few, x.sized)) live) e in
      (through, kept ∙ expired.next_kept)

  -- With a chunk in flight there is a deadline to wait for.
  pub has_deadline :
      (spare : ℕ) (s : Sending net.World)
      → Live total capacity [] spare s
      → s.window.base < s.window.next_sequence
      → (earliest_deadline s.window).1 ≢ none
  unfolding earliest_deadline
  has_deadline spare s x busy idle =
      let p = prune-Watches s.window x.acked [] spare x.watches in
      let here = p.watched s.window.base (omega arith) busy (x.watches.tracks.oldest busy) in
      elim (List-cases (prune s.window).timers) [
        | inl empty ↦ never here empty
        | inr (h, rest, queue) ↦ absurd (ground (arith, queue, idle))
      ]
    where
      never :
          Member s.window.base [] ⊎ HasTimer (prune s.window) s.window.base
          → (prune s.window).timers ≡ []
          → ⊥
      never (inl m) empty = m
      never (inr y) empty = subst (Member y.timer) empty y.queued
