-- ===== src/Transfer/Delivery/Delivered.antt =====
-- What `send_file` (src/transfer/sender.cpp) sends and a session
-- (src/transfer/receiver_session.cpp) publishes.
use swiftlink.Common.{
  ℕ, ◌+◌, ◌^◌, ◌<◌, ◌≡◌, ◌⊎◌, inl, inr, refl, sym, subst, arith, true, false, Bool-cases, some,
  List, [], ◌∷◌, All,
}
use swiftlink.Protocol.Packet.{Packet, DecodeResult-cases, DecodeError, success, failure}
use swiftlink.Protocol.Serializer.{deserialize}
use swiftlink.Transfer.Delivery.Outcomes.{
  Fails, IsIdle, on_settled-IsIdle, on_data_cases, on_fin_cases, on_start_cases,
}
use swiftlink.Transfer.Delivery.Packets.{IsOfFile, IsSendable, wire-IsOfFile}
use swiftlink.Transfer.Delivery.Sessions.{IsDisk, HasContent}
use swiftlink.Transfer.Delivery.Stages.{
  IsFresh, IsHolding, Stage, restat, idle-Stage, Fails-Stage, start-goes, data-goes, fin-goes,
}
use swiftlink.Transfer.Delivery.Steps.{Creates-IsHolding, Stores-IsHolding, Publishes-IsDelivered}
use swiftlink.Transfer.ReceiverWindow.{new_window}
use swiftlink.Transfer.ReceiverWindow.Refine.{new_window-Tracks}
use swiftlink.Transfer.Sender.{SenderConfig, Network, Link}
use swiftlink.Transfer.Sender.Send.Digest.{IsFile}
use swiftlink.Transfer.Sender.Send.File.{send_file}
use swiftlink.Transfer.Sender.Send.Sent.{send_file-All}
use swiftlink.Transfer.Sender.Send.Wires.{IsWire}
use swiftlink.Transfer.SenderWindow.Timers.{Member}
use swiftlink.Transfer.Session.{
  Storage, Session, Outcome, new_session, count_received, on_start, on_active, on_settled, on_data,
  on_fin, handle_packet,
}
use swiftlink.Transfer.Session.Settled.{run}

-- The packets of the datagrams that decode.
unfoldable pub decoded : List (List ℕ) → List Packet
decoded [] = []
decoded (bytes ∷ rest) = elim (deserialize bytes) [
  | success p ↦ p ∷ decoded rest
  | failure x ↦ decoded rest
]

module _ (st : Storage) (size : st.Handle → st.Disk → ℕ) (byte : st.Handle → st.Disk → ℕ → ℕ)
    (disk : IsDisk st size byte) (config : SenderConfig) (content : List ℕ) (total capacity : ℕ)
    (ok : IsSendable config content total) (short : total + capacity < 2 ^ 32) where
  abbrev StageOf : Session st.Handle → st.Disk → Type 0
  StageOf = Stage st size byte config content total capacity

  -- Before the START: it makes the file, and anything else fails.
  fresh_step :
      (s : Session st.Handle) (d : st.Disk) (p : Packet)
      → IsOfFile config content total p
      → IsFresh st size byte config content total capacity s
      → StageOf (on_active st s d p).session (on_active st s d p).storage
  fresh_step s d p of_file x = elim of_file [
    | inl is_start ↦
        subst (λ o. StageOf o.session o.storage) (sym (start-goes st s d p is_start))
          (elim (on_start_cases st s d p) [
            | inl over ↦ fails (on_start st s d p) over
            | inr (inl (started, idle)) ↦ absurd (early started)
            | inr (inr (not_yet, made)) ↦ inr (
                inr (
                  inl (
                    (Creates-IsHolding st size byte disk config content total capacity ok short s d
                      (on_start st s d p) made x).0)))
          ])
    | inr (inl (n, c)) ↦ elim (data-goes st s d p c.is_data) [
      | inl over ↦ fails (on_active st s d p) over
      | inr (started, same) ↦ absurd (early started)
    ]
    | inr (inr (is_fin, whole)) ↦ elim (fin-goes st s d p is_fin) [
      | inl over ↦ fails (on_active st s d p) over
      | inr (started, same) ↦ absurd (early started)
    ]
  ]
    where
      fails : (o : Outcome st.Handle st.Disk) → Fails st s d o → StageOf o.session o.storage
      fails o over = Fails-Stage st size byte config content total capacity s d o over x.unpublished

      early : s.started ≡ true → ⊥
      early started = cc (started, x.not_started)

  -- After it: chunks are stored, and the FIN publishes a whole file or fails.
  holding_step :
      (s : Session st.Handle) (d : st.Disk) (p : Packet)
      → IsOfFile config content total p
      → IsHolding st size byte config content total capacity s d
      → StageOf (on_active st s d p).session (on_active st s d p).storage
  holding_step s d p of_file x = elim of_file [
    | inl is_start ↦
        subst (λ o. StageOf o.session o.storage) (sym (start-goes st s d p is_start))
          (elim (on_start_cases st s d p) [
            | inl over ↦ fails (on_start st s d p) over
            | inr (inl (started, idle)) ↦ idles (on_start st s d p) idle
            | inr (inr (not_yet, made)) ↦ absurd (cc (not_yet, x.started))
          ])
    | inr (inl (n, c)) ↦ elim (data-goes st s d p c.is_data) [
      | inl over ↦ fails (on_active st s d p) over
      | inr (started, same) ↦
          subst (λ o. StageOf o.session o.storage) (sym same)
            (elim (on_data_cases st s d p) [
              | inl over ↦ fails (on_data st s d p) over
              | inr (inl idle) ↦ idles (on_data st s d p) idle
              | inr (inr kept) ↦ inr (
                  inr (
                    inl (
                      (Stores-IsHolding st size byte disk config content total capacity ok short s d
                        (on_data st s d p) p n c kept x).0)))
            ])
    ]
    | inr (inr (is_fin, whole)) ↦ elim (fin-goes st s d p is_fin) [
      | inl over ↦ fails (on_active st s d p) over
      | inr (started, same) ↦
          subst (λ o. StageOf o.session o.storage) (sym same)
            (elim (on_fin_cases st s d p) [
              | inl over ↦ fails (on_fin st s d p) over
              | inr out ↦ inr (
                  inr (
                    inr (
                      Publishes-IsDelivered st size byte disk config content total capacity ok short
                        s d (on_fin st s d p) p whole out x)))
            ])
    ]
  ]
    where
      fails : (o : Outcome st.Handle st.Disk) → Fails st s d o → StageOf o.session o.storage
      fails o over = Fails-Stage st size byte config content total capacity s d o over x.unpublished

      idles : (o : Outcome st.Handle st.Disk) → IsIdle st s d o → StageOf o.session o.storage
      idles o idle =
          idle-Stage st size byte config content total capacity s d o idle (inr (inr (inl x)))

  active_step :
      (s : Session st.Handle) (d : st.Disk) (p : Packet)
      → s.finished ≡ false
      → IsOfFile config content total p
      → StageOf s d
      → StageOf (on_active st s d p).session (on_active st s d p).storage
  active_step s d p active of_file (inl (over, e)) = absurd (cc (over, active))
  active_step s d p active of_file (inr (inl x)) = fresh_step s d p of_file x
  active_step s d p active of_file (inr (inr (inl x))) = holding_step s d p of_file x
  active_step s d p active of_file (inr (inr (inr x))) =
      let over = x.over in absurd (cc (over, active))

  handle_packet-Stage :
      (s : Session st.Handle) (d : st.Disk) (p : Packet)
      → IsOfFile config content total p
      → StageOf s d
      → StageOf (handle_packet st s d p).session (handle_packet st s d p).storage
  unfolding handle_packet
  handle_packet-Stage s d p of_file g =
      let counted = record s { stats = count_received s.stats } in
      let noted =
        restat st size byte config content total capacity s d (count_received s.stats) g in
      elim (Bool-cases s.finished) [
        | inl over ↦
            let same : handle_packet st s d p ≡ on_settled st counted d p = ground (arith, over) in
            subst (λ o. StageOf o.session o.storage) (sym same)
              (idle-Stage st size byte config content total capacity counted d
                (on_settled st counted d p) (on_settled-IsIdle st counted d p) noted)
        | inr active ↦
            let same : handle_packet st s d p ≡ on_active st counted d p = ground (arith, active) in
            subst (λ o. StageOf o.session o.storage) (sym same)
              (active_step counted d p active of_file noted)
      ]

  run-Stage :
      (ps : List Packet) (s : Session st.Handle) (d : st.Disk)
      → All (IsOfFile config content total) ps
      → StageOf s d
      → StageOf (run st s d ps).0 (run st s d ps).1.0
  unfolding run
  run-Stage [] s d all g = g
  run-Stage (p ∷ ps) s d all g =
      run-Stage ps (handle_packet st s d p).session (handle_packet st s d p).storage all.1
        (handle_packet-Stage s d p all.0 g)

  -- A new session, once it has published, has the file.
  published-HasContent :
      (directory : List ℕ) (slots : ℕ) (d : st.Disk) (ps : List Packet)
      → (new_window slots).capacity ≡ capacity
      → All (IsOfFile config content total) ps
      → (run st (new_session slots directory) d ps).0.published ≡ true
      → (f : st.Handle) × ((run st (new_session slots directory) d ps).0.file ≡ some f)
        × HasContent st size byte content f (run st (new_session slots directory) d ps).1.0
  published-HasContent directory slots d ps sized all published = ending (
      run-Stage ps (new_session slots directory) d all (
        inr (
          inl (record {
            active = refl;
            unpublished = refl;
            not_started = refl;
            sized = sized;
            tracks = new_window-Tracks slots;
            empty = refl;
          }))))
    where
      s : Session st.Handle
      s = (run st (new_session slots directory) d ps).0

      ending :
          StageOf s (run st (new_session slots directory) d ps).1.0
          → (f : st.Handle) × (s.file ≡ some f)
            × HasContent st size byte content f (run st (new_session slots directory) d ps).1.0
      ending (inl (over, e)) = absurd (cc (published, e))
      ending (inr (inl x)) = let e = x.unpublished in absurd (cc (published, e))
      ending (inr (inr (inl x))) = let e = x.unpublished in absurd (cc (published, e))
      ending (inr (inr (inr x))) = (x.handle, x.opened, x.delivered)

module _ (config : SenderConfig) (content : List ℕ) (total : ℕ)
    (ok : IsSendable config content total) where
  All-Member :
      (sent : List (List ℕ)) (wire : List ℕ)
      → All (IsWire config content total) sent
      → Member wire sent
      → IsWire config content total wire
  All-Member [] wire all m = absurd m
  All-Member (x ∷ xs) wire all (inl e) = subst (IsWire config content total) (sym e) all.0
  All-Member (x ∷ xs) wire all (inr m) = All-Member xs wire all.1 m

  decoded-All :
      (sent arrivals : List (List ℕ))
      → All (IsWire config content total) sent
      → ((bytes : List ℕ)
          → Member bytes arrivals
          → Member bytes sent ⊎ ((x : DecodeError) × (deserialize bytes ≡ failure x)))
      → All (IsOfFile config content total) (decoded arrivals)
  unfolding decoded
  decoded-All sent [] all from = tt
  decoded-All sent (bytes ∷ rest) all from =
      let ih = decoded-All sent rest all (λ b m. from b (inr m)) in
      elim (DecodeResult-cases (deserialize bytes)) [
        | inr (x, bad) ↦ rw (decoded, bad) ih
        | inl (p, good) ↦ rw (decoded, good) (first p good (from bytes (inl refl)), ih)
      ]
    where
      first :
          (p : Packet)
          → deserialize bytes ≡ success p
          → Member bytes sent ⊎ ((x : DecodeError) × (deserialize bytes ≡ failure x))
          → IsOfFile config content total p
      first p good (inl m) =
          wire-IsOfFile config content total ok bytes p (All-Member sent bytes all m) good
      first p good (inr (x, bad)) = absurd (ground (arith, good, bad))

-- The datagrams that `send_file` puts out for a file are lost, repeated, delayed and put in any order on
-- the way, and some are damaged so that they no longer decode. If a new session that hears what arrives
-- publishes its file, then that file has the size of the one that was sent, and the same bytes. The file
-- must not change while it is sent, its packets must fit their format and the receiver's window must not
-- wrap round 2 ^ 32; the disk stores what is written to it.
pub delivers :
    (net : Network) (config : SenderConfig) (content : List ℕ) (total fuel rounds : ℕ)
    (path : List ℕ) (l : Link net.World) (st : Storage) (size : st.Handle → st.Disk → ℕ)
    (byte : st.Handle → st.Disk → ℕ → ℕ) (slots : ℕ) (directory : List ℕ) (d : st.Disk)
    (arrivals : List (List ℕ))
    → IsFile net content
    → IsSendable config content total
    → l.outbox ≡ []
    → IsDisk st size byte
    → total + (new_window slots).capacity < 2 ^ 32
    → ((bytes : List ℕ)
        → Member bytes arrivals
        → Member bytes (send_file net fuel rounds config path l).1.outbox
          ⊎ ((x : DecodeError) × (deserialize bytes ≡ failure x)))
    → (run st (new_session slots directory) d (decoded arrivals)).0.published ≡ true
    → (f : st.Handle) × ((run st (new_session slots directory) d (decoded arrivals)).0.file
        ≡ some f)
      × HasContent st size byte content f
          (run st (new_session slots directory) d (decoded arrivals)).1.0
delivers net config content total fuel rounds path l st size byte slots directory d arrivals file ok
      fresh disk short from published =
    let sent = send_file-All net config content total fuel rounds path l file ok.counted fresh in
    published-HasContent st size byte disk config content total (new_window slots).capacity ok short
      directory slots d (decoded arrivals) refl
      (decoded-All config content total ok (send_file net fuel rounds config path l).1.outbox
        arrivals sent from)
      published
