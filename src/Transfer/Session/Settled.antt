-- ===== src/Transfer/Session/Settled.antt =====
-- Settled sessions of src/transfer/receiver_session.cpp.
use swiftlink.Common.{◌≡◌, ◌⊎◌, sym, ap, subst, ◌∙◌, arith, true, false, List, [], ◌∷◌, All}
use swiftlink.Protocol.Packet.{Packet, same_type, fin, start, error}
use swiftlink.Transfer.Session.{
  Storage, Session, Reply, Outcome, count_received, no_reply, handle_packet, on_settled, on_active,
  is_repeated, on_data, on_accepted, after_write, fail, on_start, after_sanitize, after_open,
  on_fin, after_sync, after_hash, after_rename,
}

-- `handle_packet` of one packet after the other, with the replies.
unfoldable pub run :
    (st : Storage)
    → Session st.Handle
    → st.Disk
    → List Packet
    → Session st.Handle × (st.Disk × List Reply)
run st s d [] = (s, (d, []))
run st s d (p ∷ ps) =
    let o = handle_packet st s d p in
    let (s', (d', replies)) = run st o.session o.storage ps in (s', (d', o.reply ∷ replies))

-- What a settled session keeps.
pub record IsSettledAs {handle : Type 0} (s t : Session handle) : Type 0 where
  pub same_finished : t.finished ≡ s.finished
  pub same_id : t.session_id ≡ s.session_id
  pub same_published : t.published ≡ s.published
  pub same_reply : t.final_reply ≡ s.final_reply
  pub same_error : t.error_code ≡ s.error_code

module _ (st : Storage) where
  pub settled_step :
      (s : Session st.Handle) (d : st.Disk) (p : Packet)
      → s.finished ≡ true
      → IsSettledAs s (handle_packet st s d p).session
        × (((handle_packet st s d p).storage ≡ d)
            × (((handle_packet st s d p).reply ≡ no_reply)
                ⊎ ((handle_packet st s d p).reply ≡ s.final_reply)))
  unfolding handle_packet on_settled
  settled_step s d p h = ground arith

  -- However many packets a settled session gets, and whichever, the disk stays as it is, so do its
  -- verdict and whether it published its file, and each reply is silence or the stored verdict.
  pub run-settled :
      (ps : List Packet) (s : Session st.Handle) (d : st.Disk)
      → s.finished ≡ true
      → IsSettledAs s (run st s d ps).0
        × (((run st s d ps).1.0 ≡ d)
            × All (λ r. (r ≡ no_reply) ⊎ (r ≡ s.final_reply)) (run st s d ps).1.1)
  unfolding run
  run-settled [] s d h = ground arith
  run-settled (p ∷ ps) s d h =
      let (kept, (same_disk, silent_or_verdict)) = settled_step s d p h in
      let (kept', (same_disk', replies)) =
        run-settled ps (handle_packet st s d p).session (handle_packet st s d p).storage
          (kept.same_finished ∙ h) in
      (
        record {
          same_finished = kept'.same_finished ∙ kept.same_finished;
          same_id = kept'.same_id ∙ kept.same_id;
          same_published = kept'.same_published ∙ kept.same_published;
          same_reply = kept'.same_reply ∙ kept.same_reply;
          same_error = kept'.same_error ∙ kept.same_error;
        },
        (
          same_disk' ∙ same_disk,
          (
            silent_or_verdict,
            subst
                (λ v.
                  All (λ r. (r ≡ no_reply) ⊎ (r ≡ v))
                    (run st (handle_packet st s d p).session (handle_packet st s d p).storage
                      ps).1.1)
                kept.same_reply replies,
          ),
        ),
      )

-- A reply that settles a session is stored as its verdict.
abbrev IsVerdict : {handle disk : Type 0} → Outcome handle disk → Type 0
IsVerdict o = o.session.finished ≡ true → (o.reply ≡ o.session.final_reply) × (o.reply.send ≡ true)

module _ (st : Storage) (s : Session st.Handle) (d : st.Disk) (p : Packet) where
  on_data-IsVerdict : s.finished ≡ false → IsVerdict (on_data st s d p)
  unfolding on_data on_accepted after_write fail
  on_data-IsVerdict a b = ground arith

  on_start-IsVerdict : s.finished ≡ false → IsVerdict (on_start st s d p)
  unfolding on_start after_sanitize after_open fail
  on_start-IsVerdict a b = ground arith

  on_fin-IsVerdict : s.finished ≡ false → IsVerdict (on_fin st s d p)
  unfolding on_fin after_sync after_hash after_rename fail
  on_fin-IsVerdict a b = ground arith

  on_active-IsVerdict : s.finished ≡ false → IsVerdict (on_active st s d p)
  unfolding on_active fail
  on_active-IsVerdict a b =
      let data_verdict = on_data-IsVerdict a in
      let start_verdict = on_start-IsVerdict a in
      let fin_verdict = on_fin-IsVerdict a in ground arith

settles :
    (st : Storage) (s : Session st.Handle) (d : st.Disk) (p : Packet)
    → s.finished ≡ false
    → IsVerdict (handle_packet st s d p)
unfolding handle_packet
settles st s d p a f =
    let verdict = on_active-IsVerdict st (record s { stats = count_received s.stats }) d p a in
    ground arith

-- A repeated control packet of the session gets the stored verdict.
settled-repeats :
    (st : Storage) (s : Session st.Handle) (d : st.Disk) (q : Packet)
    → s.finished ≡ true
    → s.final_reply.send ≡ true
    → q.header.session_id ≡ s.session_id
    → (same_type q.header.packet_type fin ≡ true)
      ⊎ ((same_type q.header.packet_type start ≡ true)
          × (same_type s.final_reply.type error ≡ true))
    → ((handle_packet st s d q).reply ≡ s.final_reply) × ((handle_packet st s d q).storage ≡ d)
unfolding handle_packet on_settled is_repeated
settled-repeats st s d q f r e k = ground arith

-- The packet that settles a session is answered. After it, and after any further packets `ps`, a FIN of
-- the session gets the same reply again without a change of the disk, and so does a START if the
-- verdict is an ERROR.
pub handle_packet-replays :
    (st : Storage) (s : Session st.Handle) (d : st.Disk) (p : Packet) (ps : List Packet)
    (q : Packet)
    → s.finished ≡ false
    → (handle_packet st s d p).session.finished ≡ true
    → q.header.session_id ≡ (handle_packet st s d p).session.session_id
    → (same_type q.header.packet_type fin ≡ true)
      ⊎ ((same_type q.header.packet_type start ≡ true)
          × (same_type (handle_packet st s d p).reply.type error ≡ true))
    → let o = handle_packet st s d p in
      let later = run st o.session o.storage ps in
      let again = handle_packet st later.0 later.1.0 q in
      (o.reply.send ≡ true) × ((again.reply ≡ o.reply) × (again.storage ≡ o.storage))
handle_packet-replays st s d p ps q a f e k =
    let o = handle_packet st s d p in
    let later = run st o.session o.storage ps in
    let (kept, (same_disk, replies)) = run-settled st ps o.session o.storage f in
    let (stored, sent) = settles st s d p a f in
    let verdict : later.0.final_reply ≡ o.reply = kept.same_reply ∙ sym stored in
    let (again, unchanged) =
      settled-repeats st later.0 later.1.0 q (kept.same_finished ∙ f)
        (ap (λ r. r.send) verdict ∙ sent) (e ∙ sym kept.same_id)
        (subst
          (λ r.
            (same_type q.header.packet_type fin ≡ true)
            ⊎ ((same_type q.header.packet_type start ≡ true) × (same_type r.type error ≡ true)))
          (sym verdict) k) in
    (sent, (again ∙ verdict, unchanged ∙ same_disk))
