-- ===== src/Transfer/Sender/Send/Acked.antt =====
-- What the success of `send_file` (src/transfer/sender.cpp) says of the chunks.
use swiftlink.Common.{
  ℕ, zero, suc, ◌+◌, ◌-◌, ◌*◌, ◌%◌, ◌^◌, ◌≤◌, ◌<◌, ◌≡◌, ◌≢◌, inl, inr, refl, sym, ap, ◌∙◌, subst,
  arith, true, false, Bool-cases, Option-cases, none, some, List, [], ltb, length, dec_lt,
}
use swiftlink.Crypto.Sha256.{finish, update, new_hasher}
use swiftlink.Protocol.Packet.{fin_ack}
use swiftlink.Transfer.Chunks.{chunk_count, chunk_count_covers}
use swiftlink.Transfer.Sender.{SenderConfig, Network, Link}
use swiftlink.Transfer.Sender.Exchange.{Expected}
use swiftlink.Transfer.Sender.Exchange.Inbox.{exchange_control_keeps}
use swiftlink.Transfer.Sender.Send.{Sending, done, returned, fin_wire}
use swiftlink.Transfer.Sender.Send.Loop.{
  fill, listen, retransmit_expired, after_fill, transfer, hash_file,
}
use swiftlink.Transfer.Sender.Send.File.{send_start, send_fin, send_chunks, send_file, begin}
use swiftlink.Transfer.Sender.Send.Digest.{IsFile, hash_file_lem}
use swiftlink.Transfer.Sender.Send.Sent.{Ended-cases}
use swiftlink.Transfer.Sender.Send.Success.{transfer_fails, send_start_refuses}
use swiftlink.Transfer.Sender.Send.Watched.{HasAck, HasAck-later, Live, fewer-Live, fill-Live}
use swiftlink.Transfer.Sender.Send.Rounds.{listen-Live, retransmit_expired-Live, has_deadline}
use swiftlink.Transfer.SenderWindow.{new_window, can_send, prune, earliest_deadline}
use swiftlink.Transfer.SenderWindow.Acks.{in_flight_lem}
use swiftlink.Transfer.SenderWindow.Watch.Calls.{new_window-Watches, prune-Watches}
use swiftlink.Transfer.Stats

-- The generations that a number of rounds of the main loop can use, with the last one spare.
abbrev pub cost : ℕ → ℕ → ℕ
cost capacity zero = 1
cost capacity (suc rounds) = 1 + (2 * capacity + cost capacity rounds)

cost-pos : (capacity rounds : ℕ) → 0 < cost capacity rounds
cost-pos capacity zero = omega arith
cost-pos capacity (suc rounds) = omega arith

module _ (net : Network) (config : SenderConfig) (size total capacity : ℕ)
    (short : total < 2 ^ 32) where
  -- The filling leaves a chunk in flight, while one is not acknowledged.
  fill_opens :
      (spare : ℕ) (s : Sending net.World)
      → s.window.base < total
      → Live total capacity [] (2 * (total - s.window.next_sequence) + spare) s
      → (fill net config size total (total - s.window.next_sequence) s).0 ≡ none
      → (fill net config size total (total - s.window.next_sequence) s).1.window.base
        < (fill net config size total (total - s.window.next_sequence) s).1.window.next_sequence
  fill_opens spare s more x e =
      let (full, grows, base, opens) =
        fill-Live net config size total capacity short (total - s.window.next_sequence) spare s x
          e in
      let h = x.watches.tracks.holds in
      elim (dec_lt s.window.base s.window.next_sequence) [
        | yes busy ↦ omega arith
        | no idle ↦
            let room : can_send s.window ≡ true =
              (in_flight_lem s.window x.acked x.watches.tracks).2.1
                (omega (arith, h.ordered, h.is_ring.has_slots)) in
            omega (arith, opens (omega arith) room (omega (arith, h.ordered)), h.ordered)
      ]

  after_fill-Live :
      (spare : ℕ) (s : Sending net.World)
      → Live total capacity [] (suc (2 * capacity + suc spare)) s
      → s.window.base < s.window.next_sequence
      → (after_fill net config size total s ≢ none)
        × ((next : Sending net.World)
            → after_fill net config size total s ≡ some (none, next)
            → Live total capacity [] (suc spare) next
              × (next.window.next_sequence ≡ s.window.next_sequence))
  unfolding after_fill earliest_deadline prune
  after_fill-Live spare s x busy =
      let e = earliest_deadline s.window in
      let pruned = record s { window = e.0 } in
      let waiting : Live total capacity [] (suc (2 * capacity + suc spare)) pruned = record {
        acked = x.acked;
        watches = prune-Watches s.window x.acked [] _ x.watches;
        sized = x.sized;
        within = x.within;
        backed = x.backed;
      } in
      elim (Option-cases e.1) [
        | inl idle ↦ absurd (has_deadline net config size total capacity short _ s x busy idle)
        | inr (deadline, waits) ↦
            let r = listen net config size total deadline pruned in
            let listened =
              listen-Live net config size total capacity short deadline (2 * capacity + suc spare)
                pruned waiting in
            let again = retransmit_expired-Live net config size total capacity short spare r.1 in
            elim (Option-cases r.0) [
              | inr (y, fails) ↦ (
                λ z. ground (arith, waits, fails, z),
                λ next z. absurd (ground (arith, waits, fails, z)),
              )
              | inl heard ↦
                  let same : after_fill net config size total s
                      ≡ some (retransmit_expired net config size total r.1) =
                    rw (after_fill, waits, heard) refl in
                  let (live, kept) = listened heard in
                  (
                    λ z. ground (arith, same, z),
                    λ next z.
                        let goes : retransmit_expired net config size total r.1 ≡ (none, next) =
                          ground (arith, same, z) in
                        let (live', kept') = again live (ap (λ q. q.0) goes) in
                        subst
                          (λ (q : Sending net.World).
                            Live total capacity [] (suc spare) q
                            × (q.window.next_sequence ≡ s.window.next_sequence))
                          (ap (λ q. q.1) goes) (live', kept' ∙ kept),
                  )
            ]
      ]

  transfer-HasAck :
      (rounds : ℕ) (s : Sending net.World)
      → Live total capacity [] (2 * (total - s.window.next_sequence) + cost capacity rounds) s
      → (transfer net config size total rounds s).0 ≡ done
      → (n : ℕ) → n < total
      → HasAck (transfer net config size total rounds s).1.link.inbox n
  unfolding transfer
  transfer-HasAck zero s x e n lt = absurd (ground (arith, e))
  transfer-HasAck (suc rounds) s x e n lt =
      let filled = fill net config size total (total - s.window.next_sequence) s in
      elim (Bool-cases (ltb s.window.base total)) [
        | inr through ↦
            rw (transfer, through)
              (x.backed n (x.watches.tracks.holds.retired n (ground (arith, through, lt))))
        | inl go ↦ elim (Option-cases filled.0) [
          | inr (y, fails) ↦ absurd (ground (arith, go, fails, e))
          | inl filled_up ↦
              let more : s.window.base < total = ground (arith, go) in
              let (full, grows, base, opens) =
                fill-Live net config size total capacity short (total - s.window.next_sequence)
                  (cost capacity (suc rounds)) s x filled_up in
              let busy = fill_opens (cost capacity (suc rounds)) s more x filled_up in
              let left = 2 * (total - filled.1.window.next_sequence) in
              let spare = left + cost capacity rounds - 1 in
              let (never, on) =
                after_fill-Live spare filled.1
                  (fewer-Live total capacity [] _ _ filled.1
                    (omega (arith, cost-pos capacity rounds)) full)
                  busy in
              elim (Option-cases (after_fill net config size total filled.1)) [
                | inl idle ↦ absurd (never idle)
                | inr (r, round) ↦ elim (Option-cases r.0) [
                  | inr (y, fails) ↦ absurd (ground (arith, go, filled_up, round, fails, e))
                  | inl goes_on ↦
                      let (live, kept) = on r.1 (ground (arith, round, goes_on)) in
                      let same : transfer net config size total (suc rounds) s
                          ≡ transfer net config size total rounds r.1 =
                        rw (transfer, go, filled_up, round, goes_on) refl in
                      let later = transfer-HasAck rounds r.1 (
                        fewer-Live total capacity [] _ _ r.1
                          (omega (arith, cost-pos capacity rounds, kept)) live) in
                      rw same (later (ap (λ z. z.0) (sym same) ∙ e) n lt)
                ]
              ]
        ]
      ]

  begin-Live :
      (spare : ℕ) (l : Link net.World)
      → spare < 2 ^ 64
      → Live total (new_window config.window_size).capacity [] spare (begin net config l)
  unfolding new_window
  begin-Live spare l room = record {
    acked = λ s. false;
    watches = new_window-Watches config.window_size spare room;
    sized = refl;
    within = omega arith;
    backed = λ n acks. absurd (ground (arith, acks));
  }

module _ (net : Network) (config : SenderConfig) (size total : ℕ) (short : total < 2 ^ 32) where
  send_fin_keeps :
      (fuel : ℕ) (digest : List ℕ) (l : Link net.World) (n : ℕ)
      → HasAck l.inbox n
      → HasAck (send_fin net fuel config size total digest l).1.inbox n
  unfolding send_fin
  send_fin_keeps fuel digest l n h =
      let expected : Expected = record {
        reply = fin_ack;
        ack_number = total % 2 ^ 32;
        session = config.session_id;
      } in
      exchange_control_keeps net expected (λ heard. HasAck heard n) (HasAck-later n) fuel config
        (fin_wire config size total digest)
        (record l { stats = record (l.stats) { chunks = total; bytes_transferred = size } }) h

  send_chunks-HasAck :
      (fuel rounds : ℕ) (digest : List ℕ) (l : Link net.World)
      → 2 * total + cost (new_window config.window_size).capacity rounds < 2 ^ 64
      → (send_chunks net fuel rounds config size total digest l).0 ≡ returned Stats.none'
      → (n : ℕ) → n < total
      → HasAck (send_chunks net fuel rounds config size total digest l).1.inbox n
  unfolding send_chunks
  send_chunks-HasAck fuel rounds digest l room h n lt =
      let capacity = (new_window config.window_size).capacity in
      let opened = send_start net fuel config size l in
      let s = begin net config opened.1 in
      let r = transfer net config size total rounds s in
      let never = transfer_fails net config size total rounds s in
      let refuses = send_start_refuses net config size total fuel l in
      let live =
        begin-Live net config size total capacity short
          (2 * (total - s.window.next_sequence) + cost capacity rounds) opened.1 (omega arith) in
      elim (Option-cases opened.0) [
        | inr (x, refused) ↦ absurd (ground (arith, refused, h, refuses))
        | inl accepted ↦ elim (Ended-cases r.0) [
          | inl e ↦
              rw (send_chunks, accepted, e)
                (send_fin_keeps fuel digest r.1.link n
                  (transfer-HasAck net config size total capacity short rounds s live e n lt))
          | inr (inl e) ↦ absurd (ground arith)
          | inr (inr (x, e)) ↦ absurd (ground arith)
        ]
      ]

-- When `send_file` succeeds, the sender has heard, for every chunk of the file, a well-formed ACK with
-- the number of that chunk: it never leaves the main loop for want of a timer, and no chunk is taken as
-- delivered on another's acknowledgement. The rounds must be few enough that no 64-bit generation counter
-- can wrap: two for each chunk, and two for each slot and one more in every round.
pub send_file-HasAck :
    (net : Network) (config : SenderConfig) (content : List ℕ) (total fuel rounds : ℕ)
    (path : List ℕ) (l : Link net.World)
    → IsFile net content
    → length content + config.chunk_size ≤ 2 ^ 64
    → chunk_count (length content) config.chunk_size ≡ some total
    → 2 * total + cost (new_window config.window_size).capacity rounds < 2 ^ 64
    → (send_file net fuel rounds config path l).0 ≡ returned Stats.none'
    → (n : ℕ) → n < total
    → HasAck (send_file net fuel rounds config path l).1.inbox n
unfolding send_file
send_file-HasAck net config content total fuel rounds path l file fits count room h n lt =
    let (pos, short, covers, tight) =
      chunk_count_covers (length content) config.chunk_size total fits count in
    let opened = net.open_read path l.world in
    let sized = net.file_size opened.1 in
    let hashed = hash_file net (length content) sized.1 in
    let digest = hash_file_lem net content file sized.1 in
    let known = file.size_known opened.1 in
    let out =
      send_chunks-HasAck net config (length content) total short fuel rounds
        (finish (update new_hasher content)) (record l { world = hashed.1 }) room in
    elim (Bool-cases opened.0) [
      | inr failed ↦ absurd (ground (arith, failed))
      | inl ok ↦
          rw (send_file, ok, known, count, digest)
            (out (rw (send_file, ok, known, count, digest) at h) n lt)
    ]
