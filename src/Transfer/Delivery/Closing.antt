-- ===== src/Transfer/Delivery/Closing.antt =====
-- The FIN of a transfer that meets no trouble (`on_fin` of src/transfer/receiver_session.cpp).
use swiftlink.Common.{
  ℕ, ◌+◌, ◌^◌, ◌<◌, ◌≡◌, refl, sym, ap, ◌∙◌, subst, arith, true, false, some, List, [], ◌∷◌, length,
  take, drop, take_all,
}
use swiftlink.Crypto.Sha256.{Sha256, sha256, finish, update, new_hasher}
use swiftlink.Crypto.Sha256.Chunking.{sha256_lem}
use swiftlink.Crypto.Sha256.Length.{length-sha256}
use swiftlink.Protocol.Packet.{Packet, fin, same_type}
use swiftlink.Transfer.Chunks.{chunk_count_covers}
use swiftlink.Transfer.Delivery.Disk.{HasChunks-HasContent}
use swiftlink.Transfer.Delivery.Packets.{IsSendable}
use swiftlink.Transfer.Delivery.Sessions.{IsDisk, HasContent}
use swiftlink.Transfer.Delivery.Sums.{stored_all_in, stored-all}
use swiftlink.Transfer.Sender.{SenderConfig}
use swiftlink.Transfer.Session.{
  Storage, Session, handle_packet, on_active, read_at, sync, hash_file, same_bytes, on_fin,
  after_sync, after_hash, after_rename,
}
use swiftlink.Transfer.Session.Published.{hash_file_lem}
use swiftlink.Transfer.Delivery.Clean.{IsWorking, IsAt, counted}

same_bytes_refl : (xs : List ℕ) → same_bytes xs xs ≡ true
same_bytes_refl [] = refl
same_bytes_refl (x ∷ xs) = let ih = same_bytes_refl xs in ground arith

module _ (st : Storage) (size : st.Handle → st.Disk → ℕ) (byte : st.Handle → st.Disk → ℕ → ℕ)
    (disk : IsDisk st size byte) (works : IsWorking st size byte) (config : SenderConfig)
    (content : List ℕ) (total capacity : ℕ) (ok : IsSendable config content total)
    (short : total + capacity < 2 ^ 32) where
  fin_goes :
      (s : Session st.Handle) (d : st.Disk) (p : Packet)
      → s.finished ≡ false
      → s.started ≡ true
      → p.header.session_id ≡ s.session_id
      → p.header.packet_type ≡ fin
      → handle_packet st s d p
        ≡ on_fin st (counted st size byte disk works config content total capacity ok short s) d p
  unfolding handle_packet on_active same_type
  fin_goes s d p active started id is_fin = ground arith

  on_fin_publishes :
      (s : Session st.Handle) (d : st.Disk) (p : Packet) (h : Sha256)
      → p.header.byte_offset ≡ s.bytes_written
      → (sync st s.file d).0 ≡ true
      → hash_file st s.file (sync st s.file d).1 s.bytes_written ≡ some h
      → length p.payload ≡ 32
      → same_bytes (finish h) p.payload ≡ true
      → (on_fin st s d p).session.published ≡ true
  unfolding on_fin after_sync after_hash after_rename
  on_fin_publishes s d p h offset synced hashed long same =
      let moved = works.moves s.temp_path s.output_path (sync st s.file d).1 in ground arith

  -- The FIN publishes the file, once all the chunks have come.
  pub fin_comes :
      (s : Session st.Handle) (d : st.Disk) (p : Packet)
      → p.header.packet_type ≡ fin
      → p.header.session_id ≡ config.session_id
      → p.header.byte_offset ≡ length content
      → p.payload ≡ sha256 content
      → IsAt st size byte disk works config content total capacity ok short total s d
      → (handle_packet st s d p).session.published ≡ true
  fin_comes s d p is_fin id whole digest x =
      let h = x.holding in
      let f = h.handle in
      let all : (n : ℕ) → n < total → h.seen n ≡ true = λ n lt. x.has n ∙ ground (arith, lt) in
      let there =
        HasChunks-HasContent st size byte disk content config.chunk_size total ok.file_fits
          ok.counted h.seen f d all h.on_disk in
      let flushed = disk.flushes f d in
      let after : HasContent st size byte content f (st.sync f d).1 = record {
        same_size = flushed.0 ∙ there.same_size;
        same_bytes = λ i lt. flushed.1 i ∙ there.same_bytes i lt;
      } in
      let (pos, narrow, covers, tight) =
        chunk_count_covers (length content) config.chunk_size total ok.file_fits ok.counted in
      let bytes : s.bytes_written ≡ length content =
        h.counts
        ∙ stored_all_in (length content) config.chunk_size h.seen total all
        ∙ stored-all (length content) config.chunk_size total total ok.file_fits ok.counted
            (omega arith)
        ∙ omega (arith, covers) in
      let reads : (want offset : ℕ)
          → read_at st s.file want offset (sync st s.file d).1
            ≡ some (take want (drop offset content)) =
        λ want offset.
          ap (λ g. read_at st g want offset (sync st g d).1) h.opened
          ∙ works.reads f content (st.sync f d).1 after want offset in
      let hashed =
        hash_file_lem st s.file (sync st s.file d).1 content reads s.bytes_written (omega arith) in
      let taken : take s.bytes_written content ≡ content =
        take_all s.bytes_written content (omega arith) in
      let agree : finish (update new_hasher (take s.bytes_written content)) ≡ p.payload =
        ap (λ b. finish (update new_hasher b)) taken ∙ sym (sha256_lem content) ∙ sym digest in
      subst (λ o. o.session.published ≡ true)
        (sym (fin_goes s d p h.active h.started (id ∙ sym x.same_id) is_fin))
        (on_fin_publishes (counted st size byte disk works config content total capacity ok short s)
          d p (update new_hasher (take s.bytes_written content)) (whole ∙ sym bytes)
          (ap (λ g. (sync st g d).0) h.opened ∙ works.syncs f d) hashed
          (ap length digest ∙ length-sha256 content)
          (subst (λ b. same_bytes b p.payload ≡ true) (sym agree) (same_bytes_refl p.payload)))
