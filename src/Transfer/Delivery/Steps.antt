-- ===== src/Transfer/Delivery/Steps.antt =====
-- The steps of a session (src/transfer/receiver_session.cpp) that gets the packets of one file: its
-- creation, a chunk, its publication.
use swiftlink.Common.{
  ℕ, zero, suc, ◌+◌, ◌%◌, ◌^◌, ◌<◌, ◌≡◌, refl, sym, ap, ◌∙◌, subst, arith, Bool, true, false, some,
  List, length, ltb, set, ℕ_discrete, dec_le,
}
use swiftlink.Protocol.Packet.{Packet}
use swiftlink.Transfer.Chunks.{chunk_offset, chunk_count_covers, chunk_bounds}
use swiftlink.Transfer.Delivery.Disk.{write-HasChunks, HasChunks-HasContent, length-chunk_bytes}
use swiftlink.Transfer.Delivery.Outcomes.{Stores, Publishes, Creates}
use swiftlink.Transfer.Delivery.Packets.{HoldsChunk, IsSendable}
use swiftlink.Transfer.Delivery.Sessions.{IsDisk, HasContent, HasChunks}
use swiftlink.Transfer.Delivery.Stages.{IsFresh, IsHolding, IsDelivered}
use swiftlink.Transfer.Delivery.Sums.{
  stored-none, stored-insert, stored-le, stored_complete, stored-all,
}
use swiftlink.Transfer.ReceiverWindow.{ReceiverWindow, accepted, classify, mark_received, slide}
use swiftlink.Transfer.ReceiverWindow.Refine.{Tracks, insert, mark_received-Tracks, classify_lem}
use swiftlink.Transfer.Sender.{SenderConfig}
use swiftlink.Transfer.Sender.Send.Wires.{chunk_bytes}
use swiftlink.Transfer.Session.{Storage, Session, Outcome, write_at, sync}

slide-capacity : (fuel : ℕ) (w : ReceiverWindow) → (slide fuel w).capacity ≡ w.capacity
unfolding slide
slide-capacity zero w = refl
slide-capacity (suc fuel) w =
    let rest = slide-capacity fuel (record w {
      base = (w.base + 1) % 2 ^ 32;
      received = set w.received (w.base % w.capacity) false;
    }) in
    ground arith

capacity-mark_received : (w : ReceiverWindow) (n : ℕ) → (mark_received w n).capacity ≡ w.capacity
unfolding mark_received
capacity-mark_received w n =
    let moved =
      slide-capacity (w.capacity + 1)
        (record w { received = set w.received (n % w.capacity) true }) in
    ground arith

module _ (st : Storage) (size : st.Handle → st.Disk → ℕ) (byte : st.Handle → st.Disk → ℕ → ℕ)
    (disk : IsDisk st size byte) (config : SenderConfig) (content : List ℕ) (total capacity : ℕ)
    (ok : IsSendable config content total) (short : total + capacity < 2 ^ 32) where
  -- The window never ends past 2 ^ 32.
  pub base_short :
      (w : ReceiverWindow) (seen : ℕ → Bool)
      → w.capacity ≡ capacity
      → Tracks w seen
      → ((n : ℕ) → seen n ≡ true → n < total)
      → w.base + w.capacity < 2 ^ 32
  base_short w seen sized t below = elim (dec_le w.base total) [
    | yes le ↦ omega (arith, short, sized)
    | no gt ↦ absurd (omega (arith, below total (t.holds.stored total (omega arith))))
  ]

  pub Creates-IsHolding :
      (s : Session st.Handle) (d : st.Disk) (o : Outcome st.Handle st.Disk)
      → Creates st s d o
      → IsFresh st size byte config content total capacity s
      → (y : IsHolding st size byte config content total capacity o.session o.storage) × (y.seen
          ≡ (λ n. false))
  Creates-IsHolding s d o
        (path, before, f, made, file, storage, started, finished, published, window, bytes) x =
      (
        record {
          active = finished ∙ x.active;
          unpublished = published ∙ x.unpublished;
          started = started;
          sized = ap (λ w. w.capacity) window ∙ x.sized;
          handle = f;
          opened = file;
          seen = λ n. false;
          tracks = subst (λ w. Tracks w (λ n. false)) (sym window) x.tracks;
          below = λ n h. absurd (ground (arith, h));
          counts = bytes ∙ x.empty ∙ sym (stored-none (length content) config.chunk_size total);
          on_disk = record {
            not_longer = omega (arith, ap (size f) storage, disk.creates path before f made);
            has = λ n h. absurd (ground (arith, h));
          };
        },
        refl,
      )

  -- A chunk that is stored joins those on the disk.
  pub Stores-IsHolding :
      (s : Session st.Handle) (d : st.Disk) (o : Outcome st.Handle st.Disk) (p : Packet) (n : ℕ)
      → HoldsChunk config content total n p
      → Stores st s d p o
      → (x : IsHolding st size byte config content total capacity s d)
      → (y : IsHolding st size byte config content total capacity o.session o.storage) × (y.seen
          ≡ insert n x.seen)
  Stores-IsHolding s d o p n c (new, whole, (stats, noted), storage) x =
      let seen' = insert n x.seen in
      let (pos, narrow, covers, tight) =
        chunk_count_covers (length content) config.chunk_size total ok.file_fits ok.counted in
      let bytes = chunk_bytes config.chunk_size content n in
      let offset = chunk_offset n config.chunk_size in
      let call : write_at st s.file p.payload p.header.byte_offset d
          ≡ st.write_at x.handle bytes offset d =
        ap (λ file. write_at st file p.payload p.header.byte_offset d) x.opened
        ∙ ap (λ b. st.write_at x.handle b p.header.byte_offset d) c.bytes
        ∙ ap (λ k. st.write_at x.handle bytes k d) c.offset in
      let written : (st.write_at x.handle bytes offset d).0 ≡ some (length bytes) =
        ap (λ r. r.0) (sym call) ∙ whole ∙ ap (λ b. some (length b)) c.bytes in
      let near = base_short s.window x.seen x.sized x.tracks x.below in
      let fresh =
        (classify_lem s.window x.seen n x.tracks near).2.0
          (subst (λ k. classify s.window k ≡ accepted) c.number new) in
      let counted =
        stored-insert (length content) config.chunk_size x.seen n total fresh.0 c.below in
      let most = stored-le (length content) config.chunk_size seen' total in
      let whole_file =
        stored-all (length content) config.chunk_size total total ok.file_fits ok.counted
          (omega arith) in
      let long =
        length-chunk_bytes st size byte disk content config.chunk_size total ok.file_fits ok.counted
          n c.below in
      (
        record {
          active = ap (λ t. t.finished) noted ∙ x.active;
          unpublished = ap (λ t. t.published) noted ∙ x.unpublished;
          started = ap (λ t. t.started) noted ∙ x.started;
          sized =
              ap (λ t. t.window.capacity) noted
              ∙ capacity-mark_received s.window p.header.sequence_number
              ∙ x.sized;
          handle = x.handle;
          opened = ap (λ t. t.file) noted ∙ x.opened;
          seen = seen';
          tracks =
              subst (λ w. Tracks w seen')
                (ap (mark_received s.window) (sym c.number) ∙ sym (ap (λ t. t.window) noted))
                (let inside : ltb n (s.window.base + s.window.capacity) ≡ true =
                    ground (arith, fresh) in
                  rw inside at (mark_received-Tracks s.window x.seen n x.tracks near));
          below = λ m h. elim (ℕ_discrete m n) [
            | yes e ↦ omega (arith, c.below)
            | no ne ↦ x.below m (ground (arith, h, ne))
          ];
          counts =
              ap (λ t. t.bytes_written) noted
              ∙ added s.bytes_written (length p.payload) _ _ (ap length c.bytes ∙ long) x.counts
                  counted (omega (arith, most, whole_file, ok.file_fits, pos));
          on_disk =
              subst (HasChunks st size byte content config.chunk_size seen' x.handle)
                (sym (storage ∙ ap (λ r. r.1) call))
                (write-HasChunks st size byte disk content config.chunk_size total ok.file_fits
                  ok.counted x.seen x.handle d n c.below x.below written x.on_disk);
        },
        refl,
      )
    where
      added :
          (b k want old : ℕ) {new : ℕ}
          → k ≡ want
          → b ≡ old
          → new ≡ old + want
          → new < 2 ^ 64
          → (b + k) % 2 ^ 64 ≡ new
      added b k want old e f g lt = omega arith

  -- The file is published with all the chunks.
  pub Publishes-IsDelivered :
      (s : Session st.Handle) (d : st.Disk) (o : Outcome st.Handle st.Disk) (p : Packet)
      → p.header.byte_offset ≡ length content
      → Publishes st s d p o
      → IsHolding st size byte config content total capacity s d
      → IsDelivered st size byte config content total capacity o.session o.storage
  Publishes-IsDelivered s d o p whole (told, over, file, storage) x =
      let (pos, narrow, covers, tight) =
        chunk_count_covers (length content) config.chunk_size total ok.file_fits ok.counted in
      let whole_file =
        stored-all (length content) config.chunk_size total total ok.file_fits ok.counted
          (omega arith) in
      let all =
        stored_complete (length content) config.chunk_size x.seen total
          (λ n lt.
            (chunk_bounds (length content) config.chunk_size total n ok.file_fits ok.counted lt).1)
          (sym x.counts ∙ sym told ∙ whole ∙ omega (arith, whole_file)) in
      let there =
        HasChunks-HasContent st size byte disk content config.chunk_size total ok.file_fits
          ok.counted x.seen x.handle d all x.on_disk in
      let flushed = disk.flushes x.handle d in
      let moved = disk.renames x.handle s.temp_path s.output_path (st.sync x.handle d).1 in
      let after : o.storage ≡ (st.rename s.temp_path s.output_path (st.sync x.handle d).1).1 =
        storage ∙ ap (λ f. (st.rename s.temp_path s.output_path (sync st f d).1).1) x.opened in
      record {
        over = over;
        handle = x.handle;
        opened = file ∙ x.opened;
        delivered = subst (HasContent st size byte content x.handle) (sym after) (record {
          same_size = moved.0 ∙ flushed.0 ∙ there.same_size;
          same_bytes = λ i h. moved.1 i ∙ flushed.1 i ∙ there.same_bytes i h;
        });
      }
