-- ===== src/Transfer/Delivery/Clean.antt =====
-- The transfer that meets no trouble: every datagram of `send_file` (src/transfer/sender.cpp) comes once
-- and in order, and the disk of the session (src/transfer/receiver_session.cpp) works.
use swiftlink.Common.{
  ℕ, suc, ◌+◌, ◌^◌, ◌≤◌, ◌<◌, ◌≡◌, sym, ap, ◌∙◌, subst, arith, true, false, some, List, length,
  take, drop, ltb, ◌==◌, if◌then◌else◌, dec_le,
}
use swiftlink.Protocol.Packet.{Packet, data', same_type}
use swiftlink.Transfer.Chunks.{chunk_count_covers, chunk_bounds}
use swiftlink.Transfer.Delivery.Disk.{length-chunk_bytes}
use swiftlink.Transfer.Delivery.Outcomes.{Stores, on_data-Stores}
use swiftlink.Transfer.Delivery.Packets.{HoldsChunk, IsSendable}
use swiftlink.Transfer.Delivery.Sessions.{IsDisk, HasContent}
use swiftlink.Transfer.Delivery.Stages.{IsHolding}
use swiftlink.Transfer.Delivery.Steps.{Stores-IsHolding, base_short}
use swiftlink.Transfer.ReceiverWindow.{accepted, classify}
use swiftlink.Transfer.ReceiverWindow.Refine.{classify_lem}
use swiftlink.Transfer.Sender.{SenderConfig}
use swiftlink.Transfer.Session.{
  Storage, Session, count_received, handle_packet, on_active, on_data, exceeds_declared, write_at,
}

-- A disk on which nothing fails, and that gives back what it holds.
pub record IsWorking (st : Storage) (size : st.Handle → st.Disk → ℕ)
    (byte : st.Handle → st.Disk → ℕ → ℕ) : Type 0 where
  pub opens : (path : List ℕ) (d : st.Disk) → (f : st.Handle) × ((st.open_write path d).0 ≡ some f)
  pub writes :
      (f : st.Handle) (bytes : List ℕ) (offset : ℕ) (d : st.Disk)
      → (st.write_at f bytes offset d).0 ≡ some (length bytes)
  pub reads :
      (f : st.Handle) (content : List ℕ) (d : st.Disk)
      → HasContent st size byte content f d
      → (want offset : ℕ) → st.read_at f want offset d ≡ some (take want (drop offset content))
  pub syncs : (f : st.Handle) (d : st.Disk) → (st.sync f d).0 ≡ true
  pub moves : (from to : List ℕ) (d : st.Disk) → (st.rename from to d).0 ≡ true

fits_declared :
    (st : Storage) (s : Session st.Handle) (p : Packet) {offset want : ℕ}
    → p.header.byte_offset ≡ offset
    → length p.payload ≡ want
    → offset + want ≤ s.declared_size
    → s.declared_size < 2 ^ 64
    → exceeds_declared st s p ≡ false
unfolding exceeds_declared
fits_declared st s p e f le lt = ground arith

ltb-suc : (n k : ℕ) → (if n == k then true else ltb n k) ≡ ltb n (suc k)
ltb-suc n k = ground arith

module _ (st : Storage) (size : st.Handle → st.Disk → ℕ) (byte : st.Handle → st.Disk → ℕ → ℕ)
    (disk : IsDisk st size byte) (works : IsWorking st size byte) (config : SenderConfig)
    (content : List ℕ) (total capacity : ℕ) (ok : IsSendable config content total)
    (short : total + capacity < 2 ^ 32) where
  abbrev pub counted : Session st.Handle → Session st.Handle
  counted s = record s { stats = count_received s.stats }

  -- The chunks below `k` have come.
  pub record IsAt (k : ℕ) (s : Session st.Handle) (d : st.Disk) : Type 0 where
    pub holding : IsHolding st size byte config content total capacity s d
    pub has : (n : ℕ) → holding.seen n ≡ ltb n k
    pub same_id : s.session_id ≡ config.session_id
    pub declared : s.declared_size ≡ length content

  recount : (k : ℕ) (s : Session st.Handle) (d : st.Disk) → IsAt k s d → IsAt k (counted s) d
  recount k s d x =
      let h = x.holding in
      record {
        holding = record {
          active = h.active;
          unpublished = h.unpublished;
          started = h.started;
          sized = h.sized;
          handle = h.handle;
          opened = h.opened;
          seen = h.seen;
          tracks = h.tracks;
          below = h.below;
          counts = h.counts;
          on_disk = h.on_disk;
        };
        has = x.has;
        same_id = x.same_id;
        declared = x.declared;
      }

  -- The next chunk is stored.
  next-Stores :
      (k : ℕ) (s : Session st.Handle) (d : st.Disk) (p : Packet)
      → HoldsChunk config content total k p
      → IsAt k s d
      → Stores st s d p (on_data st s d p)
  next-Stores k s d p c x =
      let h = x.holding in
      let (starts, some_bytes, most, ends) =
        chunk_bounds (length content) config.chunk_size total k ok.file_fits ok.counted c.below in
      let near =
        base_short st size byte disk config content total capacity ok short s.window h.seen h.sized
          h.tracks h.below in
      let missing : h.seen k ≡ false = x.has k ∙ ground arith in
      let reached : k ≤ s.window.base = elim (dec_le k s.window.base) [
        | yes le ↦ le
        | no gt ↦ absurd (ground (arith, x.has s.window.base, h.tracks.next, gt))
      ] in
      let new : classify s.window p.header.sequence_number ≡ accepted =
        subst (λ n. classify s.window n ≡ accepted) (sym c.number)
          ((classify_lem s.window h.seen k h.tracks near).2.1
            (missing, omega (arith, h.tracks.holds.has_slots))) in
      let long =
        length-chunk_bytes st size byte disk content config.chunk_size total ok.file_fits ok.counted
          k c.below in
      let (pos, narrow, covers, tight) =
        chunk_count_covers (length content) config.chunk_size total ok.file_fits ok.counted in
      let whole = works.writes h.handle p.payload p.header.byte_offset d in
      on_data-Stores st s d p new
        (fits_declared st s p c.offset (ap length c.bytes ∙ long) (omega (arith, ends, x.declared))
          (omega (arith, x.declared, ok.file_fits, pos)))
        (ap (λ f. (write_at st f p.payload p.header.byte_offset d).0) h.opened ∙ whole)

  data_goes :
      (s : Session st.Handle) (d : st.Disk) (p : Packet)
      → s.finished ≡ false
      → s.started ≡ true
      → p.header.session_id ≡ s.session_id
      → p.header.packet_type ≡ data'
      → handle_packet st s d p ≡ on_data st (counted s) d p
  unfolding handle_packet on_active same_type
  data_goes s d p active started id is_data = ground arith

  pub chunk_comes :
      (k : ℕ) (s : Session st.Handle) (d : st.Disk) (p : Packet)
      → HoldsChunk config content total k p
      → p.header.session_id ≡ config.session_id
      → IsAt k s d
      → IsAt (suc k) (handle_packet st s d p).session (handle_packet st s d p).storage
  chunk_comes k s d p c id x =
      let x' = recount k s d x in
      let h = x'.holding in
      let o = on_data st (counted s) d p in
      let kept = next-Stores k (counted s) d p c x' in
      let (y, seen) =
        Stores-IsHolding st size byte disk config content total capacity ok short (counted s) d o p
          k c kept h in
      let (new, whole, (stats, noted), storage) = kept in
      subst (λ r. IsAt (suc k) r.session r.storage)
        (sym (data_goes s d p h.active h.started (id ∙ sym x.same_id) c.is_data))
        (record {
          holding = y;
          has = λ n.
              ap (λ f. f n) seen ∙ ap (λ b. if n == k then true else b) (x'.has n) ∙ ltb-suc n k;
          same_id = ap (λ t. t.session_id) noted ∙ x.same_id;
          declared = ap (λ t. t.declared_size) noted ∙ x.declared;
        })
