-- ===== src/Transfer/Sender/Send/Sent.antt =====
-- `send_file` of src/transfer/sender.cpp sends nothing but the packets of its file.
use swiftlink.Common.{
  ℕ, zero, suc, ◌-◌, ◌%◌, ◌^◌, ◌≡◌, ◌⊎◌, inl, inr, refl, sym, subst, Bool-cases, some, Option-cases,
  List, [], ◌∷◌, ltb, length, length-replicate, All,
}
use swiftlink.Crypto.Sha256.{sha256}
use swiftlink.Crypto.Sha256.Chunking.{sha256_lem}
use swiftlink.Protocol.Packet.{start_ack, fin_ack}
use swiftlink.Transfer.Chunks.{chunk_count}
use swiftlink.Transfer.Sender.{SenderConfig, Network, Link}
use swiftlink.Transfer.Sender.Exchange.{Expected, exchange_control}
use swiftlink.Transfer.Sender.Exchange.Budget.{copies, exchange_control-outbox}
use swiftlink.Transfer.Sender.Send.{
  Ended, done, returned, out_of_rounds, Sending, start_wire, fin_wire,
}
use swiftlink.Transfer.Sender.Send.Loop.{
  fill, retransmit_expired, listen, after_fill, transfer, hash_file,
}
use swiftlink.Transfer.Sender.Send.File.{send_start, send_fin, send_chunks, send_file, begin}
use swiftlink.Transfer.Sender.Send.Digest.{IsFile, hash_file_lem}
use swiftlink.Transfer.Sender.Send.Outbox.{Good, fill-Good, listen-Good, retransmit_expired-Good}
use swiftlink.Transfer.Sender.Send.Slots.{fewer-Keeps}
use swiftlink.Transfer.Sender.Send.Wires.{IsWire, IsChunk}
use swiftlink.Transfer.SenderWindow.{earliest_deadline}
use swiftlink.Transfer.SenderWindow.Queue.{earliest_deadline-Member, new_window-timers}
use swiftlink.Transfer.SenderWindow.Timers.{Member}
use swiftlink.Transfer.Stats.{TransferError}

pub Ended-cases :
    (x : Ended) → (x ≡ done) ⊎ ((x ≡ out_of_rounds) ⊎ ((e : TransferError) × (x ≡ returned e)))
Ended-cases done = inl refl
Ended-cases out_of_rounds = inr (inl refl)
Ended-cases (returned e) = inr (inr (e, refl))

All-copies :
    (P : List ℕ → Type 0) (n : ℕ) (wire : List ℕ) (sent : List (List ℕ))
    → P wire
    → All P sent
    → All P (copies n wire sent)
All-copies P zero wire sent w h = h
All-copies P (suc n) wire sent w h = All-copies P n wire (wire ∷ sent) w (w, h)

exchange_control-All :
    (P : List ℕ → Type 0) (net : Network) (fuel : ℕ) (config : SenderConfig) (e : Expected)
    (wire : List ℕ) (l : Link net.World)
    → P wire
    → All P l.outbox
    → All P (exchange_control net fuel config e wire l).1.outbox
exchange_control-All P net fuel config e wire l w h =
    let (n, few, same) = exchange_control-outbox net fuel config e wire l in
    subst (All P) (sym same) (All-copies P n wire l.outbox w h)

module _ (net : Network) (config : SenderConfig) (content : List ℕ) (total : ℕ)
    (file : IsFile net content) where
  transfer-Good :
      (fuel : ℕ) (s : Sending net.World)
      → Good net config content total s
      → Good net config content total (transfer net config (length content) total fuel s).1
  unfolding transfer after_fill
  transfer-Good zero s g = g
  transfer-Good (suc fuel) s g =
      let filled = fill net config (length content) total (total - s.window.next_sequence) s in
      let full = fill-Good net config content total file (total - s.window.next_sequence) s g in
      let e = earliest_deadline filled.1.window in
      let pruned = record (filled.1) { window = e.0 } in
      let (fewer, capacity) = earliest_deadline-Member filled.1.window in
      let due : Good net config content total pruned = record {
        sent = full.sent;
        waiting =
            fewer-Keeps (IsChunk config content total) filled.1.window e.0 filled.1.in_flight
              capacity fewer full.waiting;
      } in
      elim (Bool-cases (ltb s.window.base total)) [
        | inr through ↦ rw (transfer, through) g
        | inl go ↦ elim (Option-cases filled.0) [
          | inr (x, fails) ↦ rw (transfer, go, fails) full
          | inl filled_up ↦ elim (Option-cases e.1) [
            | inl idle ↦ rw (transfer, go, filled_up, idle) full
            | inr (deadline, waits) ↦
                let r = listen net config (length content) total deadline pruned in
                let heard = listen-Good net config content total file deadline pruned due in
                let again = retransmit_expired-Good net config content total file r.1 heard in
                let x = retransmit_expired net config (length content) total r.1 in
                let ih = transfer-Good fuel x.1 again in
                elim (Option-cases r.0) [
                  | inr (y, fails) ↦ rw (transfer, go, filled_up, waits, fails) heard
                  | inl listened ↦ elim (Option-cases x.0) [
                    | inr (y, fails) ↦ rw (transfer, go, filled_up, waits, listened, fails) again
                    | inl goes_on ↦ rw (transfer, go, filled_up, waits, listened, goes_on) ih
                  ]
                ]
          ]
        ]
      ]

  begin-Good :
      (l : Link net.World)
      → All (IsWire config content total) l.outbox
      → Good net config content total (begin net config l)
  begin-Good l h = record {
    sent = h;
    waiting = record {
      has_slots = (new_window-timers config.window_size).1;
      sized = length-replicate {0} _ _;
      kept = λ x m. absurd (subst (Member x) (new_window-timers config.window_size).0 m);
    };
  }

  send_start-All :
      (fuel : ℕ) (l : Link net.World)
      → All (IsWire config content total) l.outbox
      → All (IsWire config content total) (send_start net fuel config (length content) l).1.outbox
  unfolding send_start
  send_start-All fuel l h =
      let expected : Expected = record {
        reply = start_ack;
        ack_number = 0;
        session = config.session_id;
      } in
      exchange_control-All (IsWire config content total) net fuel config expected
        (start_wire config (length content)) l (inl refl) h

  send_fin-All :
      (fuel : ℕ) (l : Link net.World)
      → All (IsWire config content total) l.outbox
      → All
          (IsWire config content total)
          (send_fin net fuel config (length content) total (sha256 content) l).1.outbox
  unfolding send_fin
  send_fin-All fuel l h =
      let expected : Expected = record {
        reply = fin_ack;
        ack_number = total % 2 ^ 32;
        session = config.session_id;
      } in
      let wire = fin_wire config (length content) total (sha256 content) in
      let counted = record l {
        stats = record (l.stats) { chunks = total; bytes_transferred = length content };
      } in
      exchange_control-All (IsWire config content total) net fuel config expected wire counted
        (inr (inr refl)) h

  send_chunks-All :
      (fuel rounds : ℕ) (l : Link net.World)
      → All (IsWire config content total) l.outbox
      → All
          (IsWire config content total)
          (send_chunks net fuel rounds config (length content) total (sha256 content) l).1.outbox
  unfolding send_chunks
  send_chunks-All fuel rounds l h =
      let opened = send_start net fuel config (length content) l in
      let start_out = send_start-All fuel l h in
      let r = transfer net config (length content) total rounds (begin net config opened.1) in
      let out =
        (transfer-Good rounds (begin net config opened.1) (begin-Good opened.1 start_out)).sent in
      elim (Option-cases opened.0) [
        | inr (x, refused) ↦ rw (send_chunks, refused) start_out
        | inl accepted ↦ elim (Ended-cases r.0) [
          | inl e ↦ rw (send_chunks, accepted, e) (send_fin-All fuel r.1.link out)
          | inr (inl e) ↦ rw (send_chunks, accepted, e) out
          | inr (inr (x, e)) ↦ rw (send_chunks, accepted, e) out
        ]
      ]

-- Whatever is lost, delayed, repeated or forged on the way, every datagram that the sender puts out is
-- the START with the name and the size of the file, a DATA packet with the number, the offset and the
-- bytes of one of its chunks, also when it is sent again, or the FIN with the SHA-256 of the file. The
-- file must not change while it is sent.
pub send_file-All :
    (net : Network) (config : SenderConfig) (content : List ℕ) (total fuel rounds : ℕ)
    (path : List ℕ) (l : Link net.World)
    → IsFile net content
    → chunk_count (length content) config.chunk_size ≡ some total
    → l.outbox ≡ []
    → All (IsWire config content total) (send_file net fuel rounds config path l).1.outbox
unfolding send_file
send_file-All net config content total fuel rounds path l file count fresh =
    let h : All (IsWire config content total) l.outbox = rw fresh tt in
    let opened = net.open_read path l.world in
    let sized = net.file_size opened.1 in
    let hashed = hash_file net (length content) sized.1 in
    let digest = hash_file_lem net content file sized.1 in
    let out =
      send_chunks-All net config content total file fuel rounds (record l { world = hashed.1 }) h in
    elim (Bool-cases opened.0) [
      | inr failed ↦ rw (send_file, failed) h
      | inl ok ↦
          rw (send_file, ok, file.size_known opened.1, count, digest, sym (sha256_lem content)) out
    ]
