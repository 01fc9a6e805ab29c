-- ===== src/Transfer/Sender/Send/Watched.antt =====
-- The filling of the window in `send_file` (src/transfer/sender.cpp): the timers of the chunks in flight,
-- and the ACKs that were heard.
use swiftlink.Common.{
  ℕ, zero, suc, ◌+◌, ◌-◌, ◌*◌, ◌%◌, ◌^◌, ◌≤◌, ◌<◌, ◌≡◌, inl, inr, refl, sym, ap, ◌∙◌, subst, arith,
  Bool, true, ◌&&◌, Bool-cases, Option-cases, none, List, [], ◌∷◌, ltb, ◌==◌, length, set,
}
use swiftlink.Protocol.Packet.{Packet, success, ack}
use swiftlink.Protocol.Serializer.{deserialize}
use swiftlink.Transfer.Chunks.{chunk_offset, chunk_want}
use swiftlink.Transfer.Sender.{SenderConfig, Network, Link, send_packet, ms}
use swiftlink.Transfer.Sender.Send.{Sending, chunk_wire}
use swiftlink.Transfer.Sender.Send.Loop.{send_chunk, fill}
use swiftlink.Transfer.SenderWindow.{can_send, on_sent}
use swiftlink.Transfer.SenderWindow.Acks.{on_sent-Tracks}
use swiftlink.Transfer.SenderWindow.Queue.{on_sent-timers}
use swiftlink.Transfer.SenderWindow.Timers.{Member}
use swiftlink.Transfer.SenderWindow.Watch.{Watches, fewer-Watches}
use swiftlink.Transfer.SenderWindow.Watch.Calls.{on_sent-Watches}

-- A datagram that was heard decodes to an ACK of the number.
pub record HasAck (heard : List (List ℕ)) (n : ℕ) : Type 0 where
  pub bytes : List ℕ
  pub was_heard : Member bytes heard
  pub packet : Packet
  pub decodes : deserialize bytes ≡ success packet
  pub is_ack : packet.header.packet_type ≡ ack
  pub is_for : packet.header.acknowledgement_number ≡ n

pub HasAck-later :
    (n : ℕ) (bytes : List ℕ) (heard : List (List ℕ)) → HasAck heard n → HasAck (bytes ∷ heard) n
HasAck-later n bytes heard x = record {
  bytes = x.bytes;
  was_heard = inr x.was_heard;
  packet = x.packet;
  decodes = x.decodes;
  is_ack = x.is_ack;
  is_for = x.is_for;
}

-- The main loop of a transfer of `total` chunks with `capacity` slots.
pub record Live {state : Type 0} (total capacity : ℕ) (due : List ℕ) (spare : ℕ) (s : Sending state)
    : Type 0 where
  pub acked : ℕ → Bool
  pub watches : Watches s.window acked due spare
  pub sized : s.window.capacity ≡ capacity
  pub within : s.window.next_sequence ≤ total
  pub backed : (n : ℕ) → acked n ≡ true → HasAck s.link.inbox n

pub fewer-Live :
    {state : Type 0} (total capacity : ℕ) (due : List ℕ) (more fewer : ℕ) (s : Sending state)
    → fewer ≤ more
    → Live total capacity due more s
    → Live total capacity due fewer s
fewer-Live total capacity due more fewer s le x = record {
  acked = x.acked;
  watches = fewer-Watches s.window x.acked due more fewer le x.watches;
  sized = x.sized;
  within = x.within;
  backed = x.backed;
}

pub send_packet-inbox :
    (net : Network) (l : Link net.World) (wire : List ℕ)
    → (send_packet net l wire).1.inbox ≡ l.inbox
unfolding send_packet
send_packet-inbox net l wire = ground arith

module _ (net : Network) (config : SenderConfig) (size total capacity : ℕ)
    (short : total < 2 ^ 32) where
  send_chunk-Live :
      (spare : ℕ) (s : Sending net.World)
      → can_send s.window ≡ true
      → s.window.next_sequence < total
      → Live total capacity [] (spare + 2) s
      → (send_chunk net config size total s).0 ≡ none
      → Live total capacity [] spare (send_chunk net config size total s).1
        × ((send_chunk net config size total s).1.window.next_sequence ≡ s.window.next_sequence + 1)
        × ((send_chunk net config size total s).1.window.base ≡ s.window.base)
  unfolding send_chunk
  send_chunk-Live spare s room more x e =
      let n = s.window.next_sequence in
      let want = chunk_want size n config.chunk_size in
      let call = net.read_at want (chunk_offset n config.chunk_size) s.link.world in
      elim (Option-cases call.0) [
        | inl failed ↦ absurd (ground (arith, failed, e))
        | inr (bytes, read) ↦
            let wire = chunk_wire config n bytes in
            let sent = send_packet net (record (s.link) { world = call.1 }) wire in
            let heard = send_packet-inbox net (record (s.link) { world = call.1 }) wire in
            let clock = net.now sent.1.world in
            let deadline = clock.0 + ms config.rto in
            let (t, next, base) =
              on_sent-Tracks s.window x.acked deadline x.watches.tracks room (omega arith) in
            let live : Live total capacity [] spare (record s {
              window = on_sent s.window deadline;
              in_flight =
                  set s.in_flight (n % s.window.capacity) (record { wire = wire; attempts = 1 });
              link = record (sent.1) { world = clock.1 };
            }) =
              record {
                acked = x.acked;
                watches =
                    on_sent-Watches s.window x.acked deadline spare x.watches room (omega arith);
                sized = (on_sent-timers s.window deadline).1 ∙ x.sized;
                within = omega (arith, next);
                backed = λ m acks. subst (λ h. HasAck h m) (sym heard) (x.backed m acks);
              } in
            elim (Bool-cases (length bytes == want)) [
              | inr few ↦ absurd (ground (arith, read, few, e))
              | inl full ↦ elim (Bool-cases sent.0) [
                | inr failed ↦ absurd (ground (arith, read, full, failed, e))
                | inl ok ↦ rw (send_chunk, read, full, ok) (live, next, base)
              ]
            ]
      ]

  -- The filling of the window uses the spare of the chunks that are left.
  pub fill-Live :
      (left spare : ℕ) (s : Sending net.World)
      → Live total capacity [] (2 * (total - s.window.next_sequence) + spare) s
      → (fill net config size total left s).0 ≡ none
      → Live total capacity []
          (2 * (total - (fill net config size total left s).1.window.next_sequence) + spare)
          (fill net config size total left s).1
        × (s.window.next_sequence ≤ (fill net config size total left s).1.window.next_sequence)
        × ((fill net config size total left s).1.window.base ≡ s.window.base)
        × (0 < left
            → can_send s.window ≡ true
            → s.window.next_sequence < total
            → s.window.next_sequence < (fill net config size total left s).1.window.next_sequence)
  unfolding fill
  fill-Live zero spare s x e = (x, omega arith, refl, λ some_left room more. absurd (omega arith))
  fill-Live (suc left) spare s x e =
      elim (Bool-cases (can_send s.window && ltb s.window.next_sequence total)) [
        | inr stop ↦
            rw (fill, stop)
              (
                x,
                omega arith,
                refl,
                λ some_left room more. absurd (ground (arith, stop, room, more)),
              )
        | inl go ↦
            let room : can_send s.window ≡ true = ground (arith, go) in
            let more : s.window.next_sequence < total = ground (arith, go) in
            let r = send_chunk net config size total s in
            elim (Option-cases r.0) [
              | inr (z, failed) ↦ absurd (ground (arith, go, failed, e))
              | inl goes_on ↦
                  let (one, next, base) =
                    send_chunk-Live (2 * (total - (s.window.next_sequence + 1)) + spare) s room more
                      (fewer-Live total capacity [] _ _ s (omega arith) x) goes_on in
                  let same : fill net config size total (suc left) s
                      ≡ fill net config size total left r.1 =
                    rw (fill, go, goes_on) refl in
                  let (rest, grows, kept, opens) =
                    fill-Live left spare r.1
                      (fewer-Live total capacity [] _ _ r.1 (omega arith) one)
                      (ap (λ z. z.0) (sym same) ∙ e) in
                  rw same (rest, omega arith, kept ∙ base, λ some_left room more. omega arith)
            ]
      ]
