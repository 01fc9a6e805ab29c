-- ===== src/Transfer/Delivery/Outcomes.antt =====
-- What a session (src/transfer/receiver_session.cpp) makes of a packet, as far as its file goes: it
-- fails, it leaves the file alone, it stores a chunk, or it publishes.
use swiftlink.Common.{
  ℕ, ◌+◌, ◌%◌, ◌^◌, ◌≡◌, ◌⊎◌, inl, inr, refl, sym, ap, subst, arith, Bool, true, false, ◌&&◌,
  Bool-cases, Option, none, some, List, length, ◌==◌, if◌then◌else◌,
}
use swiftlink.Crypto.Sha256.{Sha256, finish}
use swiftlink.Protocol.Packet.{PacketHeader, Packet, start_ack}
use swiftlink.Transfer.Filename
use swiftlink.Transfer.Filename.{FilenameRejection, sanitize_filename, join_path, temp_name}
use swiftlink.Transfer.ReceiverWindow.{
  Disposition, accepted, duplicate, outside_window, classify, mark_received,
}
use swiftlink.Transfer.Session.{
  Storage, Session, Outcome, answer, reply_with, count_duplicate, fail, count_out_of_order,
  on_start, after_sanitize, after_open, on_data, on_accepted, exceeds_declared, after_write,
  write_at, sync, close_file, hash_file, same_bytes, on_fin, after_sync, after_hash, after_rename,
  on_settled, is_repeated,
}
use swiftlink.Transfer.Stats.{TransferStats}

Disposition-cases : (x : Disposition) → (x ≡ accepted) ⊎ ((x ≡ duplicate) ⊎ (x ≡ outside_window))
Disposition-cases accepted = inl refl
Disposition-cases duplicate = inr (inl refl)
Disposition-cases outside_window = inr (inr refl)

after_write_cases :
    (st : Storage) (s : Session st.Handle) (p : Packet) (r : Option ℕ × st.Disk)
    → (((after_write st s p r).session.finished ≡ true)
        × ((after_write st s p r).session.published ≡ s.published))
      ⊎ ((r.0 ≡ some (length p.payload))
          × ((x : TransferStats) × ((after_write st s p r).session ≡ record s {
            window = mark_received s.window p.header.sequence_number;
            bytes_written = (s.bytes_written + length p.payload) % 2 ^ 64;
            stats = x;
          }))
          × ((after_write st s p r).storage ≡ r.1))
unfolding after_write fail
after_write_cases st s p (none, d) = inl (refl, refl)
after_write_cases st s p (some n, d) = elim (Bool-cases (n == length p.payload)) [
  | inr few ↦ inl (rw few (refl, refl))
  | inl all ↦ inr (ap some (ground (arith, all)), rw all (_, refl), rw all refl)
]

after_write_ok :
    (st : Storage) (s : Session st.Handle) (p : Packet) (r : Option ℕ × st.Disk)
    → r.0 ≡ some (length p.payload)
    → ((x : TransferStats) × ((after_write st s p r).session ≡ record s {
      window = mark_received s.window p.header.sequence_number;
      bytes_written = (s.bytes_written + length p.payload) % 2 ^ 64;
      stats = x;
    }))
      × ((after_write st s p r).storage ≡ r.1)
unfolding after_write
after_write_ok st s p (none, d) e = absurd (ground (arith, e))
after_write_ok st s p (some n, d) e =
    let all : (n == length p.payload) ≡ true = ground (arith, e) in rw all ((_, refl), refl)

after_rename_cases :
    (st : Storage) (s : Session st.Handle) (n : ℕ) (r : Bool × st.Disk)
    → ((after_rename st s n r).session.finished ≡ true)
      × (((after_rename st s n r).session.published ≡ s.published)
          ⊎ (((after_rename st s n r).session.file ≡ s.file)
              × ((after_rename st s n r).storage ≡ r.1)))
unfolding after_rename fail
after_rename_cases st s n (false, d) = (refl, inl refl)
after_rename_cases st s n (true, d) = (refl, inr (refl, refl))

after_hash_cases :
    (st : Storage) (s : Session st.Handle) (d : st.Disk) (p : Packet) (h : Option Sha256)
    → ((after_hash st s d p h).session.finished ≡ true)
      × (((after_hash st s d p h).session.published ≡ s.published)
          ⊎ (((after_hash st s d p h).session.file ≡ s.file)
              × ((after_hash st s d p h).storage ≡ (st.rename s.temp_path s.output_path d).1)))
unfolding after_hash fail
after_hash_cases st s d p none = (refl, inl refl)
after_hash_cases st s d p (some hasher) =
    elim (Bool-cases (length p.payload == 32 && same_bytes (finish hasher) p.payload)) [
      | inr differs ↦ rw differs (refl, inl refl)
      | inl agrees ↦
          rw agrees (
            after_rename_cases st s p.header.sequence_number
              (st.rename s.temp_path s.output_path d))
    ]

after_sync_cases :
    (st : Storage) (s : Session st.Handle) (p : Packet) (r : Bool × st.Disk)
    → ((after_sync st s p r).session.finished ≡ true)
      × (((after_sync st s p r).session.published ≡ s.published)
          ⊎ (((after_sync st s p r).session.file ≡ s.file)
              × ((after_sync st s p r).storage ≡ (st.rename s.temp_path s.output_path r.1).1)))
unfolding after_sync fail
after_sync_cases st s p (false, d) = (refl, inl refl)
after_sync_cases st s p (true, d) =
    after_hash_cases st s d p (hash_file st s.file d s.bytes_written)

module _ (st : Storage) (s : Session st.Handle) (d : st.Disk) where
  -- The session is over and has published nothing new.
  abbrev pub Fails : Outcome st.Handle st.Disk → Type 0
  Fails o = (o.session.finished ≡ true) × (o.session.published ≡ s.published)

  -- Nothing but the counters changes.
  abbrev pub IsIdle : Outcome st.Handle st.Disk → Type 0
  IsIdle o = ((x : TransferStats) × (o.session ≡ record s { stats = x })) × (o.storage ≡ d)

  -- A chunk is written whole, and noted.
  abbrev pub Stores : Packet → Outcome st.Handle st.Disk → Type 0
  Stores p o =
      let n = p.header.sequence_number in
      let call = write_at st s.file p.payload p.header.byte_offset d in
      (classify s.window n ≡ accepted)
      × (call.0 ≡ some (length p.payload))
      × ((x : TransferStats) × (o.session ≡ record s {
        window = mark_received s.window n;
        bytes_written = (s.bytes_written + length p.payload) % 2 ^ 64;
        stats = x;
      }))
      × (o.storage ≡ call.1)

  -- The file is flushed and renamed.
  abbrev pub Publishes : Packet → Outcome st.Handle st.Disk → Type 0
  Publishes p o =
      (p.header.byte_offset ≡ s.bytes_written)
      × (o.session.finished ≡ true)
      × (o.session.file ≡ s.file)
      × (o.storage ≡ (st.rename s.temp_path s.output_path (sync st s.file d).1).1)

  -- A file is created.
  abbrev pub Creates : Outcome st.Handle st.Disk → Type 0
  Creates o =
      (path : List ℕ) × (before : st.Disk) × (f : st.Handle) × ((st.open_write path before).0
        ≡ some f)
      × (o.session.file ≡ some f)
      × (o.storage ≡ (st.open_write path before).1)
      × (o.session.started ≡ true)
      × (o.session.finished ≡ s.finished)
      × (o.session.published ≡ s.published)
      × (o.session.window ≡ s.window)
      × (o.session.bytes_written ≡ s.bytes_written)

  pub on_settled-IsIdle : (p : Packet) → IsIdle (on_settled st s d p)
  unfolding on_settled
  on_settled-IsIdle p = elim (Bool-cases (is_repeated st s p)) [
    | inl again ↦ rw again ((_, refl), refl)
    | inr other ↦ rw other ((s.stats, refl), refl)
  ]

  pub on_data_cases :
      (p : Packet)
      → Fails (on_data st s d p) ⊎ (IsIdle (on_data st s d p) ⊎ Stores p (on_data st s d p))
  unfolding on_data on_accepted after_write fail
  on_data_cases p = elim (Disposition-cases (classify s.window p.header.sequence_number)) [
    | inr (inl old) ↦ inr (inl (rw (old, on_data) ((_, refl), refl)))
    | inr (inr far) ↦ inr (inl (rw (far, on_data) ((_, refl), refl)))
    | inl new ↦ elim (Bool-cases (exceeds_declared st s p)) [
      | inl beyond ↦ inl (rw (new, beyond, on_data) (refl, refl))
      | inr within ↦
          let counted = record s {
            stats =
                if p.header.sequence_number == s.window.base
                then s.stats
                else count_out_of_order s.stats;
          } in
          let call = write_at st s.file p.payload p.header.byte_offset d in
          let same : on_data st s d p ≡ after_write st counted p call =
            rw (new, within, on_data, on_accepted) refl in
          rw same (elim (after_write_cases st counted p call) [
            | inl over ↦ inl over
            | inr (whole, noted, stored) ↦ inr (inr (new, whole, noted, stored))
          ])
    ]
  ]

  -- A new chunk within the declared size that the disk takes whole.
  pub on_data-Stores :
      (p : Packet)
      → classify s.window p.header.sequence_number ≡ accepted
      → exceeds_declared st s p ≡ false
      → (write_at st s.file p.payload p.header.byte_offset d).0 ≡ some (length p.payload)
      → Stores p (on_data st s d p)
  unfolding on_data on_accepted
  on_data-Stores p new within whole =
      let counted = record s {
        stats =
            if p.header.sequence_number == s.window.base
            then s.stats
            else count_out_of_order s.stats;
      } in
      let call = write_at st s.file p.payload p.header.byte_offset d in
      let same : on_data st s d p ≡ after_write st counted p call =
        rw (new, within, on_data, on_accepted) refl in
      let (noted, stored) = after_write_ok st counted p call whole in
      rw same (new, whole, noted, stored)

  pub on_fin_cases : (p : Packet) → Fails (on_fin st s d p) ⊎ Publishes p (on_fin st s d p)
  unfolding on_fin fail
  on_fin_cases p = elim (Bool-cases (p.header.byte_offset == s.bytes_written)) [
    | inr differs ↦ inl (rw differs (refl, refl))
    | inl agrees ↦
        let (over, how) = after_sync_cases st s p (sync st s.file d) in
        rw agrees (elim how [
          | inl kept ↦ inl (over, kept)
          | inr (file, storage) ↦ inr (ground (arith, agrees), over, file, storage)
        ])
  ]

  after_open_cases :
      (t : Session st.Handle) (size n : ℕ) (path : List ℕ) (before : st.Disk)
      (r : Option st.Handle × st.Disk)
      → st.open_write path before ≡ r
      → t.finished ≡ s.finished
      → t.published ≡ s.published
      → t.window ≡ s.window
      → t.bytes_written ≡ s.bytes_written
      → Fails (after_open st t size n r) ⊎ Creates (after_open st t size n r)
  unfolding after_open fail
  after_open_cases t size n path before (none, d') e finished published window bytes =
      inl (refl, published)
  after_open_cases t size n path before (some f, d') e finished published window bytes = inr (
    path,
    before,
    f,
    ap (λ r. r.0) e,
    refl,
    sym (ap (λ r. r.1) e),
    refl,
    finished,
    published,
    window,
    bytes,
  )

  after_sanitize_cases :
      (h : PacketHeader) (v : FilenameRejection × List ℕ) (t : Session st.Handle)
      → t.finished ≡ s.finished
      → t.published ≡ s.published
      → t.window ≡ s.window
      → t.bytes_written ≡ s.bytes_written
      → Fails (after_sanitize st t d h v) ⊎ Creates (after_sanitize st t d h v)
  unfolding after_sanitize fail
  after_sanitize_cases h (Filename.accepted, name) t finished published window bytes =
      after_open_cases
        (record t {
          output_path = join_path t.output_directory name;
          temp_path = join_path t.output_directory (temp_name h.session_id);
        })
        h.byte_offset h.sequence_number (join_path t.output_directory (temp_name h.session_id))
        (close_file st t.file d) _ refl finished published window bytes
  after_sanitize_cases h (other, name) t finished published window bytes = inl (refl, published)

  -- A session that has not started creates its file, and one that has leaves it alone.
  pub on_start_cases :
      (p : Packet)
      → Fails (on_start st s d p)
        ⊎ (((s.started ≡ true) × IsIdle (on_start st s d p))
            ⊎ ((s.started ≡ false) × Creates (on_start st s d p)))
  unfolding on_start fail
  on_start_cases p = elim (Bool-cases s.started) [
    | inl started ↦ elim (Bool-cases (p.header.session_id == s.session_id)) [
      | inl same ↦
          let again : on_start st s d p
              ≡ answer (record s { stats = count_duplicate s.stats }) d
                  (reply_with start_ack p.header.sequence_number) =
            ground arith in
          inr (inl (started, subst (λ o. IsIdle o) (sym again) ((_, refl), refl)))
      | inr other ↦ inl (ground arith, ground arith)
    ]
    | inr not_yet ↦
        let t = record s { session_id = p.header.session_id } in
        let same : on_start st s d p
            ≡ after_sanitize st t d p.header (sanitize_filename p.payload) =
          ground arith in
        elim (after_sanitize_cases p.header (sanitize_filename p.payload) t refl refl refl refl) [
          | inl over ↦ inl (subst (λ o. Fails o) (sym same) over)
          | inr made ↦ inr (inr (not_yet, subst (λ o. Creates o) (sym same) made))
        ]
  ]
