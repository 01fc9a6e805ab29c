-- ===== src/Transfer/Session/Paths.antt =====
-- The paths of a session (src/transfer/receiver_session.cpp): what it renames, and to what.
use swiftlink.Common.{
  ℕ, ◌≡◌, ◌⊎◌, inl, inr, refl, sym, ap, subst, ◌∙◌, arith, true, false, Option, none, some,
  Bool-cases, List,
}
use swiftlink.Protocol.Packet.{PacketHeader, Packet}
use swiftlink.Transfer.Filename
use swiftlink.Transfer.Filename.{sanitize_filename, join_path, temp_name, FilenameRejection}
use swiftlink.Transfer.Filename.Safety.{IsSafeName, sanitize_filename-IsSafeName}
use swiftlink.Transfer.Session.{
  Storage, Session, count_received, handle_packet, on_settled, on_active, on_data, on_accepted,
  after_write, fail, on_start, after_sanitize, after_open, on_fin, close_file, after_sync,
  after_hash, after_rename,
}

-- A session that has started writes a file named after its id, and will publish it under a safe name
-- of its output directory.
abbrev pub HasPaths : {handle : Type 0} → List ℕ → Session handle → Type 0
HasPaths directory s =
    (s.output_directory ≡ directory)
    × (s.started ≡ true
        → (s.temp_path ≡ join_path directory (temp_name s.session_id))
          × ((name : List ℕ) × (IsSafeName name × (s.output_path ≡ join_path directory name))))

-- Only `on_start` changes a path, the id, or whether the session has started.
pub record SamePaths {handle : Type 0} (s t : Session handle) : Type 0 where
  pub same_directory : t.output_directory ≡ s.output_directory
  pub same_started : t.started ≡ s.started
  pub same_temp : t.temp_path ≡ s.temp_path
  pub same_output : t.output_path ≡ s.output_path
  pub same_id : t.session_id ≡ s.session_id

module _ (st : Storage) (s : Session st.Handle) (d : st.Disk) (p : Packet) where
  on_settled-SamePaths : SamePaths s (on_settled st s d p).session
  unfolding on_settled
  on_settled-SamePaths = ground arith

  on_data-SamePaths : SamePaths s (on_data st s d p).session
  unfolding on_data on_accepted after_write fail
  on_data-SamePaths = ground arith

  on_fin-SamePaths : SamePaths s (on_fin st s d p).session
  unfolding on_fin after_sync after_hash after_rename fail
  on_fin-SamePaths = ground arith

  on_start-SamePaths : s.started ≡ true → SamePaths s (on_start st s d p).session
  unfolding on_start fail
  on_start-SamePaths a = ground arith

HasPaths-SamePaths :
    {handle : Type 0} (directory : List ℕ) (s t : Session handle)
    → SamePaths s t
    → HasPaths directory s
    → HasPaths directory t
HasPaths-SamePaths directory s t same (at, paths) = (
  same.same_directory ∙ at,
  λ started.
      let (temp, (name, (safe, out))) = paths (sym same.same_started ∙ started) in
      (
        same.same_temp ∙ temp ∙ ap (λ i. join_path directory (temp_name i)) (sym same.same_id),
        (name, (safe, same.same_output ∙ out)),
      ),
)

module _ (st : Storage) (directory : List ℕ) where
  after_open-HasPaths :
      (s : Session st.Handle) (size n : ℕ) (r : Option st.Handle × st.Disk)
      → s.started ≡ false
      → s.output_directory ≡ directory
      → s.temp_path ≡ join_path directory (temp_name s.session_id)
      → (name : List ℕ) × (IsSafeName name × (s.output_path ≡ join_path directory name))
      → HasPaths directory (after_open st s size n r).session
  unfolding after_open fail
  after_open-HasPaths s size n (none, d) a at temp out = (at, λ started. (temp, out))
  after_open-HasPaths s size n (some f, d) a at temp out = (at, λ started. (temp, out))

  -- a name that is refused starts nothing
  after_sanitize-cases :
      (s : Session st.Handle) (d : st.Disk) (h : PacketHeader) (v : FilenameRejection × List ℕ)
      → (v.0 ≡ Filename.accepted)
        ⊎ (((after_sanitize st s d h v).session.started ≡ s.started)
            × ((after_sanitize st s d h v).session.output_directory ≡ s.output_directory))
  unfolding after_sanitize fail
  after_sanitize-cases s d h v = ground arith

  after_sanitize-HasPaths :
      (s : Session st.Handle) (d : st.Disk) (h : PacketHeader) (v : FilenameRejection × List ℕ)
      → s.started ≡ false
      → s.output_directory ≡ directory
      → s.session_id ≡ h.session_id
      → ((name : List ℕ) → v ≡ (Filename.accepted, name) → IsSafeName name)
      → HasPaths directory (after_sanitize st s d h v).session
  unfolding after_sanitize
  after_sanitize-HasPaths s d h v a at id safe = elim (after_sanitize-cases s d h v) [
    | inl e ↦
        rw (after_sanitize, e)
          (after_open-HasPaths
            (record s {
              output_path = join_path s.output_directory v.1;
              temp_path = join_path s.output_directory (temp_name h.session_id);
            })
            h.byte_offset h.sequence_number
            (st.open_write (join_path s.output_directory (temp_name h.session_id))
              (close_file st s.file d))
            a at
            (ap (λ x. join_path x (temp_name h.session_id)) at
              ∙ ap (λ i. join_path directory (temp_name i)) (sym id))
            (v.1, (safe v.1 (λ i. (e i, v.1)), ap (λ x. join_path x v.1) at)))
    | inr (same, same_at) ↦ (same_at ∙ at, λ started. absurd (ground arith))
  ]

  on_start-HasPaths :
      (s : Session st.Handle) (d : st.Disk) (p : Packet)
      → HasPaths directory s
      → HasPaths directory (on_start st s d p).session
  unfolding on_start
  on_start-HasPaths s d p h = elim (Bool-cases s.started) [
    | inl a ↦
        HasPaths-SamePaths directory s (on_start st s d p).session (on_start-SamePaths st s d p a) h
    | inr a ↦
        let sanitized =
          after_sanitize-HasPaths (record s { session_id = p.header.session_id }) d p.header
            (sanitize_filename p.payload) a h.0 refl
            (λ name e. (sanitize_filename-IsSafeName p.payload name e).0) in
        let same : after_sanitize st (record s { session_id = p.header.session_id }) d p.header
              (sanitize_filename p.payload)
            ≡ on_start st s d p =
          ground arith in
        subst (λ o. HasPaths directory o.session) same sanitized
  ]

  on_active-cases :
      (s : Session st.Handle) (d : st.Disk) (p : Packet)
      → ((on_active st s d p ≡ on_start st s d p)) ⊎ (SamePaths s (on_active st s d p).session)
  unfolding on_active fail
  on_active-cases s d p =
      let data_same = on_data-SamePaths st s d p in
      let fin_same = on_fin-SamePaths st s d p in ground arith

  on_active-HasPaths :
      (s : Session st.Handle) (d : st.Disk) (p : Packet)
      → HasPaths directory s
      → HasPaths directory (on_active st s d p).session
  on_active-HasPaths s d p h = elim (on_active-cases s d p) [
    | inl as_start ↦
        subst (λ o. HasPaths directory o.session) (sym as_start) (on_start-HasPaths s d p h)
    | inr same ↦ HasPaths-SamePaths directory s (on_active st s d p).session same h
  ]

  -- A session of an output directory keeps this, whatever the packet: a session that has started
  -- writes to a file named after its id in its output directory, and what it will be renamed to is
  -- that directory joined to a safe name: one that is neither empty nor too long nor dots, does
  -- not begin with a dash, and has no separator in it.
  pub handle_packet-HasPaths :
      (s : Session st.Handle) (d : st.Disk) (p : Packet)
      → HasPaths directory s
      → HasPaths directory (handle_packet st s d p).session
  unfolding handle_packet
  handle_packet-HasPaths s d p h =
      let counted = record s { stats = count_received s.stats } in
      elim (Bool-cases s.finished) [
        | inl e ↦
            let same : on_settled st counted d p ≡ handle_packet st s d p = ground arith in
            subst (λ o. HasPaths directory o.session) same
              (HasPaths-SamePaths directory counted (on_settled st counted d p).session
                (on_settled-SamePaths st counted d p) h)
        | inr e ↦
            let same : on_active st counted d p ≡ handle_packet st s d p = ground arith in
            subst (λ o. HasPaths directory o.session) same (on_active-HasPaths counted d p h)
      ]
