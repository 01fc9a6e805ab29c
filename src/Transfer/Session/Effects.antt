-- ===== src/Transfer/Session/Effects.antt =====
-- What one packet can do to the disk (src/transfer/receiver_session.cpp), and the paths that a session
-- uses.
use swiftlink.Common.{
  ℕ, ◌+◌, ◌^◌, ◌≤◌, ◌<◌, ◌≡◌, ◌⊎◌, inl, inr, refl, sym, subst, arith, Bool, true, false, Option,
  none, some, Bool-cases, List, length, ◌==◌, if◌then◌else◌,
}
use swiftlink.Crypto.Sha256.{Sha256, finish}
use swiftlink.Protocol.Packet.{PacketHeader, Packet, start, data', fin, same_type, same_type_lem}
use swiftlink.Transfer.Filename.{sanitize_filename, join_path, temp_name, FilenameRejection}
use swiftlink.Transfer.ReceiverWindow.{Disposition, accepted, duplicate, outside_window, classify}
use swiftlink.Transfer.Session.{
  Storage, Session, count_received, count_out_of_order, handle_packet, on_settled, on_active,
  on_data, on_accepted, exceeds_declared, after_write, fail, on_start, after_sanitize, after_open,
  on_fin, after_sync, after_hash, after_rename, hash_file, same_bytes, write_at, sync, close_file,
}

-- The session has started and is not settled, and the packet has its id.
pub record IsRunning {handle : Type 0} (s : Session handle) (p : Packet) : Type 0 where
  pub unsettled : s.finished ≡ false
  pub has_started : s.started ≡ true
  pub same_id : p.header.session_id ≡ s.session_id

-- The disks that a packet of a session can leave behind, with the condition of each.
pub data Effect (st : Storage) (s : Session st.Handle) (d : st.Disk) (p : Packet)
    : st.Disk → Type 0 where
  untouched : Effect st s d p d
  -- START creates the private file of its session id.
  opened :
      s.finished ≡ false
      → s.started ≡ false
      → p.header.packet_type ≡ start
      → Effect st s d p
          (st.open_write
            (join_path s.output_directory (temp_name p.header.session_id))
            (close_file st s.file d)).1
  -- DATA writes a chunk that the window has not seen, within the declared size.
  wrote :
      IsRunning s p
      → p.header.packet_type ≡ data'
      → classify s.window p.header.sequence_number ≡ accepted
      → (p.header.byte_offset + length p.payload < 2 ^ 64
          → p.header.byte_offset + length p.payload ≤ s.declared_size)
      → Effect st s d p (write_at st s.file p.payload p.header.byte_offset d).1
  -- FIN with the byte count flushes the file,
  flushed :
      IsRunning s p
      → p.header.packet_type ≡ fin
      → p.header.byte_offset ≡ s.bytes_written
      → Effect st s d p (sync st s.file d).1
  -- and renames it when the peer's digest is that of the bytes on disk.
  renamed :
      (h : Sha256)
      → IsRunning s p
      → p.header.packet_type ≡ fin
      → p.header.byte_offset ≡ s.bytes_written
      → hash_file st s.file (sync st s.file d).1 s.bytes_written ≡ some h
      → same_bytes (finish h) p.payload ≡ true
      → Effect st s d p (st.rename s.temp_path s.output_path (sync st s.file d).1).1

module _ (st : Storage) (s : Session st.Handle) (d : st.Disk) (p : Packet) where
  after_open-storage :
      (n size : ℕ) (r : Option st.Handle × st.Disk) → (after_open st s size n r).storage ≡ r.1
  unfolding after_open fail
  after_open-storage n size (none, d') = refl
  after_open-storage n size (some f, d') = refl

  after_write-storage : (r : Option ℕ × st.Disk) → (after_write st s p r).storage ≡ r.1
  unfolding after_write fail
  after_write-storage (none, d') = refl
  after_write-storage (some n, d') = ground arith

  after_rename-storage : (n : ℕ) (r : Bool × st.Disk) → (after_rename st s n r).storage ≡ r.1
  unfolding after_rename fail
  after_rename-storage n (true, d') = refl
  after_rename-storage n (false, d') = refl

  exceeds_declared-false :
      exceeds_declared st s p ≡ false
      → p.header.byte_offset + length p.payload < 2 ^ 64
      → p.header.byte_offset + length p.payload ≤ s.declared_size
  unfolding exceeds_declared
  exceeds_declared-false e fits = ground arith

after_sanitize-storage :
    (st : Storage) (s : Session st.Handle) (d : st.Disk) (h : PacketHeader)
    (v : FilenameRejection × List ℕ)
    → ((after_sanitize st s d h v).storage ≡ d)
      ⊎ ((after_sanitize st s d h v).storage
          ≡ (st.open_write
              (join_path s.output_directory (temp_name h.session_id))
              (close_file st s.file d)).1)
unfolding after_sanitize after_open fail
after_sanitize-storage st s d h v = ground arith

Disposition-cases : (x : Disposition) → (x ≡ accepted) ⊎ ((x ≡ duplicate) ⊎ (x ≡ outside_window))
Disposition-cases accepted = inl refl
Disposition-cases duplicate = inr (inl refl)
Disposition-cases outside_window = inr (inr refl)

abbrev count_order : {handle : Type 0} → Session handle → Packet → Session handle
count_order s p =
    let in_order = p.header.sequence_number == s.window.base in
    record s { stats = if in_order then s.stats else count_out_of_order s.stats }

module _ (st : Storage) (s : Session st.Handle) (d : st.Disk) (p : Packet) where
  on_accepted-Effect :
      IsRunning s p
      → p.header.packet_type ≡ data'
      → classify s.window p.header.sequence_number ≡ accepted
      → Effect st s d p (on_accepted st s d p).storage
  unfolding on_accepted fail
  on_accepted-Effect a i c = elim (Bool-cases (exceeds_declared st s p)) [
    | inl e ↦ rw e untouched
    | inr e ↦
        rw
          (
            e,
            after_write-storage st (count_order s p) d p
                (write_at st s.file p.payload p.header.byte_offset d),
          )
          (wrote a i c (exceeds_declared-false st s d p e))
  ]

  on_data-Effect :
      IsRunning s p → p.header.packet_type ≡ data' → Effect st s d p (on_data st s d p).storage
  unfolding on_data
  on_data-Effect a i = elim (Disposition-cases (classify s.window p.header.sequence_number)) [
    | inl c ↦ let e = on_accepted-Effect a i c in rw (on_data, c) e
    | inr (inl c) ↦ rw (on_data, c) untouched
    | inr (inr c) ↦ rw (on_data, c) untouched
  ]

  on_start-storage :
      s.started ≡ false
      → ((on_start st s d p).storage ≡ d)
        ⊎ ((on_start st s d p).storage
            ≡ (st.open_write
                (join_path s.output_directory (temp_name p.header.session_id))
                (close_file st s.file d)).1)
  unfolding on_start fail
  on_start-storage e =
      let verdict =
        after_sanitize-storage st (record s { session_id = p.header.session_id }) d p.header
          (sanitize_filename p.payload) in
      ground arith

  on_start-Effect :
      s.finished ≡ false
      → p.header.packet_type ≡ start
      → Effect st s d p (on_start st s d p).storage
  unfolding on_start fail
  on_start-Effect f y = elim (Bool-cases s.started) [
    | inl e ↦
        let same : (on_start st s d p).storage ≡ d = ground arith in
        subst (λ x. Effect st s d p x) (sym same) untouched
    | inr e ↦ elim (on_start-storage e) [
      | inl same ↦ subst (λ x. Effect st s d p x) (sym same) untouched
      | inr new ↦ subst (λ x. Effect st s d p x) (sym new) (opened f e y)
    ]
  ]

  after_hash-Effect :
      IsRunning s p
      → p.header.packet_type ≡ fin
      → p.header.byte_offset ≡ s.bytes_written
      → (x : Option Sha256) → hash_file st s.file (sync st s.file d).1 s.bytes_written ≡ x
      → Effect st s d p (after_hash st s (sync st s.file d).1 p x).storage
  unfolding after_hash fail
  after_hash-Effect a i o none e = flushed a i o
  after_hash-Effect a i o (some h) e = elim (Bool-cases (length p.payload == 32)) [
    | inr bad ↦ rw bad (flushed a i o)
    | inl good ↦ elim (Bool-cases (same_bytes (finish h) p.payload)) [
      | inr differ ↦ rw (good, differ) (flushed a i o)
      | inl same ↦
          rw
            (
              good,
              same,
              after_rename-storage st s d p p.header.sequence_number
                  (st.rename s.temp_path s.output_path (sync st s.file d).1),
            )
            (renamed h a i o e same)
    ]
  ]

  after_sync-Effect :
      IsRunning s p
      → p.header.packet_type ≡ fin
      → p.header.byte_offset ≡ s.bytes_written
      → Effect st s d p (after_sync st s p (sync st s.file d)).storage
  unfolding after_sync fail
  after_sync-Effect a i o =
      let hashed =
        after_hash-Effect a i o (hash_file st s.file (sync st s.file d).1 s.bytes_written) refl in
      elim (Bool-cases (sync st s.file d).0) [
        | inl e ↦ rw (after_sync, e) hashed
        | inr e ↦ rw (after_sync, e) (flushed a i o)
      ]

  on_fin-Effect :
      IsRunning s p → p.header.packet_type ≡ fin → Effect st s d p (on_fin st s d p).storage
  unfolding on_fin fail
  on_fin-Effect a i = elim (Bool-cases (p.header.byte_offset == s.bytes_written)) [
    | inl e ↦ let synced = after_sync-Effect a i (ground arith) in rw e synced
    | inr e ↦ rw e untouched
  ]

  -- The type of the packet picks the handler.
  on_active-storage :
      ((on_active st s d p).storage ≡ d)
      ⊎ (((same_type p.header.packet_type start ≡ true)
            × ((on_active st s d p).storage ≡ (on_start st s d p).storage))
          ⊎ (((s.started ≡ true) × (p.header.session_id ≡ s.session_id))
              × (((same_type p.header.packet_type data' ≡ true)
                    × ((on_active st s d p).storage ≡ (on_data st s d p).storage))
                  ⊎ ((same_type p.header.packet_type fin ≡ true)
                      × ((on_active st s d p).storage ≡ (on_fin st s d p).storage)))))
  unfolding on_active fail
  on_active-storage = ground arith

  on_active-Effect : s.finished ≡ false → Effect st s d p (on_active st s d p).storage
  on_active-Effect f = elim on_active-storage [
    | inl e ↦ subst (λ x. Effect st s d p x) (sym e) untouched
    | inr (inl (y, e)) ↦
        subst (λ x. Effect st s d p x) (sym e) (on_start-Effect f (same_type_lem _ start y))
    | inr (inr ((a, i), inl (y, e))) ↦
        let running : IsRunning s p = record { unsettled = f; has_started = a; same_id = i } in
        subst (λ x. Effect st s d p x) (sym e) (on_data-Effect running (same_type_lem _ data' y))
    | inr (inr ((a, i), inr (y, e))) ↦
        let running : IsRunning s p = record { unsettled = f; has_started = a; same_id = i } in
        subst (λ x. Effect st s d p x) (sym e) (on_fin-Effect running (same_type_lem _ fin y))
  ]

IsRunning-uncounted :
    {handle : Type 0} {s : Session handle} {p : Packet}
    → IsRunning (record s { stats = count_received s.stats }) p
    → IsRunning s p
IsRunning-uncounted a = record {
  unsettled = a.unsettled;
  has_started = a.has_started;
  same_id = a.same_id;
}

-- The counter of packets has no part in it.
Effect-uncounted :
    {st : Storage} {s : Session st.Handle} {d : st.Disk} {p : Packet} {d' : st.Disk}
    → Effect st (record s { stats = count_received s.stats }) d p d'
    → Effect st s d p d'
Effect-uncounted untouched = untouched
Effect-uncounted (opened f a y) = opened f a y
Effect-uncounted (wrote a y c b) = wrote (IsRunning-uncounted a) y c b
Effect-uncounted (flushed a y o) = flushed (IsRunning-uncounted a) y o
Effect-uncounted (renamed h a y o e same) = renamed h (IsRunning-uncounted a) y o e same

-- What one packet does to the disk: nothing; or, in a session that is not settled, a START of a
-- session that had not started creates the private file that is named after its session id; or, in a
-- session that has started and is not settled and whose id the packet has, a DATA writes one chunk
-- that the window had not seen at the chunk's offset, and within the declared size if the sum of
-- offset and length does not wrap at 2^64; or a FIN whose byte count is the session's flushes the
-- file; or a FIN renames the private file to the output name after the byte count and the SHA-256 of
-- what is on disk agreed.
pub handle_packet-Effect :
    (st : Storage) (s : Session st.Handle) (d : st.Disk) (p : Packet)
    → Effect st s d p (handle_packet st s d p).storage
unfolding handle_packet on_settled
handle_packet-Effect st s d p = elim (Bool-cases s.finished) [
  | inl e ↦
      let same : (handle_packet st s d p).storage ≡ d = ground arith in
      subst (λ x. Effect st s d p x) (sym same) untouched
  | inr e ↦
      let counted = record s { stats = count_received s.stats } in
      let same : (handle_packet st s d p).storage ≡ (on_active st counted d p).storage =
        ground arith in
      subst (λ x. Effect st s d p x) (sym same)
        (Effect-uncounted (on_active-Effect st counted d p e))
]
