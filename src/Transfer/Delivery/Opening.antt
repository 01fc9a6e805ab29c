-- ===== src/Transfer/Delivery/Opening.antt =====
-- The START of a transfer that meets no trouble (`on_start` of src/transfer/receiver_session.cpp).
use swiftlink.Common.{
  ℕ, ◌+◌, ◌^◌, ◌<◌, ◌≡◌, refl, sym, ap, ◌∙◌, subst, arith, true, false, Option, none, some, List,
  length,
}
use swiftlink.Protocol.Packet.{Packet, start_ack, start, same_type}
use swiftlink.Transfer.Delivery.Packets.{IsSendable}
use swiftlink.Transfer.Delivery.Sessions.{IsDisk}
use swiftlink.Transfer.Delivery.Steps.{Creates-IsHolding}
use swiftlink.Transfer.Filename
use swiftlink.Transfer.Filename.{sanitize_filename, join_path, temp_name}
use swiftlink.Transfer.ReceiverWindow.{new_window}
use swiftlink.Transfer.ReceiverWindow.Refine.{new_window-Tracks}
use swiftlink.Transfer.Sender.{SenderConfig}
use swiftlink.Transfer.Session.{
  Storage, Session, new_session, handle_packet, on_active, on_start, after_sanitize, after_open,
  answer, reply_with,
}
use swiftlink.Transfer.Delivery.Clean.{IsWorking, IsAt, counted}

module _ (st : Storage) (size : st.Handle → st.Disk → ℕ) (byte : st.Handle → st.Disk → ℕ → ℕ)
    (disk : IsDisk st size byte) (works : IsWorking st size byte) (config : SenderConfig)
    (content : List ℕ) (total capacity : ℕ) (ok : IsSendable config content total)
    (short : total + capacity < 2 ^ 32) where
  after_open_ok :
      (s : Session st.Handle) (n : ℕ) (r : Option st.Handle × st.Disk) (f : st.Handle)
      → r.0 ≡ some f
      → after_open st s (length content) n r
        ≡ answer
            (record s { file = some f; declared_size = length content; started = true })
            r.1
            (reply_with start_ack n)
  unfolding after_open
  after_open_ok s n (none, d) f e = absurd (ground (arith, e))
  after_open_ok s n (some g, d) f e =
      let same : g ≡ f = cc in
      ap
        (λ (h : st.Handle).
          answer (record s { file = some h; declared_size = length content; started = true }) d
            (reply_with start_ack n))
        same

  start_goes :
      (s : Session st.Handle) (d : st.Disk) (p : Packet) (name : List ℕ)
      → s.finished ≡ false
      → s.started ≡ false
      → p.header.packet_type ≡ start
      → sanitize_filename p.payload ≡ (Filename.accepted, name)
      → handle_packet st s d p
        ≡ after_sanitize st
            (record (counted st size byte disk works config content total capacity ok short s) {
              session_id = p.header.session_id;
            })
            d
            p.header
            (Filename.accepted, name)
  unfolding handle_packet on_active on_start same_type
  start_goes s d p name active fresh is_start named =
      let goes : handle_packet st s d p
          ≡ after_sanitize st
              (record (counted st size byte disk works config content total capacity ok short s) {
                session_id = p.header.session_id;
              })
              d p.header (sanitize_filename p.payload) =
        ground arith in
      goes
      ∙ ap
          (after_sanitize st
            (record (counted st size byte disk works config content total capacity ok short s) {
              session_id = p.header.session_id;
            })
            d p.header)
          named

  -- The START makes the file.
  pub start_comes :
      (directory : List ℕ) (slots : ℕ) (d : st.Disk) (p : Packet) (name : List ℕ)
      → p.header.packet_type ≡ start
      → p.header.session_id ≡ config.session_id
      → p.header.byte_offset ≡ length content
      → sanitize_filename p.payload ≡ (Filename.accepted, name)
      → (new_window slots).capacity ≡ capacity
      → IsAt st size byte disk works config content total capacity ok short 0
          (handle_packet st (new_session slots directory) d p).session
          (handle_packet st (new_session slots directory) d p).storage
  unfolding after_sanitize
  start_comes directory slots d p name is_start id whole named sized =
      let s = new_session {handle = st.Handle} slots directory in
      let path = join_path directory (temp_name p.header.session_id) in
      let (f, opens) = works.opens path d in
      let t = record (counted st size byte disk works config content total capacity ok short s) {
        session_id = p.header.session_id;
        output_path = join_path directory name;
        temp_path = path;
      } in
      let o =
        answer (record t { file = some f; declared_size = length content; started = true })
          (st.open_write path d).1 (reply_with start_ack p.header.sequence_number) in
      let goes : handle_packet st s d p ≡ o =
        start_goes s d p name refl refl is_start named
        ∙ ap (λ k. after_open st t k p.header.sequence_number (st.open_write path d)) whole
        ∙ after_open_ok t p.header.sequence_number (st.open_write path d) f opens in
      let (y, seen) =
        Creates-IsHolding st size byte disk config content total capacity ok short s d o
          (path, d, f, opens, refl, refl, refl, refl, refl, refl, refl)
          (record {
            active = refl;
            unpublished = refl;
            not_started = refl;
            sized = sized;
            tracks = new_window-Tracks slots;
            empty = refl;
          }) in
      subst
        (λ r.
          IsAt st size byte disk works config content total capacity ok short 0 r.session r.storage)
        (sym goes)
        (record {
          holding = y;
          has = λ n. ap (λ g. g n) seen ∙ ground arith;
          same_id = id;
          declared = refl;
        })
