-- ===== src/Transfer/Session/Published.antt =====
-- When a session publishes its file (`on_fin` of src/transfer/receiver_session.cpp): the hash that it
-- computes is that of the bytes on disk, and nothing is renamed unless the peer's digest agrees.
use swiftlink.Common.{
  take_split, ℕ, zero, suc, ◌+◌, ◌-◌, ◌*◌, ◌/◌, ◌≤◌, min, ◌≡◌, refl, sym, ap, subst, ◌∙◌, arith,
  true, false, Option, some, List, [], ◌∷◌, length, take, drop, length-take, length-drop, ltb, ◌==◌,
  dec_lt,
}
use swiftlink.Crypto.Sha256.{Sha256, new_hasher, update, finish, sha256}
use swiftlink.Crypto.Sha256.Chunking.{update-append, update-none, sha256_lem}
use swiftlink.Protocol.Packet.{Packet, PacketType, fin, fin_ack, same_type}
use swiftlink.Transfer.Session.{
  Storage, Session, count_received, on_settled, on_data, on_accepted, after_write, fail, on_start,
  after_sanitize, after_open, on_fin, after_sync, after_hash, after_rename, sync, handle_packet,
  on_active, reply_with, hash_from, hash_file, hash_block, read_at, same_bytes,
}

pub same_bytes→≡ : (xs ys : List ℕ) → same_bytes xs ys ≡ true → xs ≡ ys
same_bytes→≡ [] [] h = refl
same_bytes→≡ [] (y ∷ ys) h = ground arith
same_bytes→≡ (x ∷ xs) [] h = ground arith
same_bytes→≡ (x ∷ xs) (y ∷ ys) h =
    let head : x ≡ y = ground arith in
    let tail : same_bytes xs ys ≡ true = ground arith in rw (head, same_bytes→≡ xs ys tail) refl

module _ (st : Storage) (f : Option st.Handle) (d : st.Disk) (content : List ℕ)
    (reads : (want offset : ℕ)
      → read_at st f want offset d ≡ some (take want (drop offset content))) where
  hash_from_lem :
      (fuel total offset : ℕ)
      → offset ≤ total
      → total ≤ length content
      → total - offset + hash_block ≤ fuel * hash_block
      → hash_from st fuel f d total offset (update new_hasher (take offset content))
        ≡ some (update new_hasher (take total content))
  unfolding hash_from
  hash_from_lem zero total offset h g e = ground arith
  hash_from_lem (suc fuel) total offset h g e = elim (dec_lt offset total) [
    | no done ↦
        let end : total ≡ offset = omega arith in
        let stop : ltb offset total ≡ false = ground arith in rw (stop, end) refl
    | yes more ↦
        let want = min (total - offset) hash_block in
        let go : ltb offset total ≡ true = ground arith in
        let full : (length (take want (drop offset content)) == want) ≡ true =
          ground (arith, length-take want (drop offset content), length-drop offset content) in
        rw
          (
            go,
            reads want offset,
            full,
            update-append new_hasher (take offset content) (take want (drop offset content))
                (omega arith),
            take_split offset want content,
          )
          (hash_from_lem fuel total (offset + want) (omega arith) g (omega arith))
  ]

  -- The loop has the rounds it needs, and computes the hash of the bytes that were counted.
  pub hash_file_lem :
      (total : ℕ)
      → total ≤ length content
      → hash_file st f d total ≡ some (update new_hasher (take total content))
  hash_file_lem total h =
      ap (λ k. hash_from st (total / hash_block + 2) f d total 0 k) (sym update-none)
      ∙ hash_from_lem (total / hash_block + 2) total 0 (omega arith) h (omega arith)

-- A handler other than `on_fin` leaves `published_` as it was.
module _ (st : Storage) (s : Session st.Handle) (d : st.Disk) (p : Packet) where
  on_settled-keeps : (on_settled st s d p).session.published ≡ s.published
  unfolding on_settled
  on_settled-keeps = ground arith

  on_data-keeps : (on_data st s d p).session.published ≡ s.published
  unfolding on_data on_accepted after_write fail
  on_data-keeps = ground arith

  on_start-keeps : (on_start st s d p).session.published ≡ s.published
  unfolding on_start after_sanitize after_open fail
  on_start-keeps = ground arith

  on_fin-publishes :
      (h : Sha256)
      → s.published ≡ false
      → hash_file st s.file (sync st s.file d).1 s.bytes_written ≡ some h
      → (on_fin st s d p).session.published ≡ true
      → (p.header.byte_offset ≡ s.bytes_written)
        × ((same_bytes (finish h) p.payload ≡ true)
            × ((on_fin st s d p).reply ≡ reply_with fin_ack p.header.sequence_number))
  unfolding on_fin after_sync after_hash after_rename fail
  on_fin-publishes h a e b = ground arith

  on_active-publishes :
      s.published ≡ false
      → (on_active st s d p).session.published ≡ true
      → (same_type p.header.packet_type fin ≡ true)
        × ((p.header.session_id ≡ s.session_id) × (on_active st s d p ≡ on_fin st s d p))
  unfolding on_active fail
  on_active-publishes a b =
      let start_keeps = on_start-keeps in let data_keeps = on_data-keeps in ground arith

abbrev counted : (st : Storage) → Session st.Handle → Session st.Handle
counted st s = record s { stats = count_received s.stats }

fin_code : (t : PacketType) → same_type t fin ≡ true → t ≡ fin
unfolding same_type
fin_code t h = ground arith

module _ (st : Storage) (s : Session st.Handle) (d : st.Disk) (p : Packet) (content : List ℕ) where
  handle_packet-active :
      (handle_packet st s d p).session.published ≡ true
      → s.published ≡ false
      → (handle_packet st s d p ≡ on_active st (counted st s) d p)
        × ((on_active st (counted st s) d p).session.published ≡ true)
  unfolding handle_packet
  handle_packet-active b a = let settled = on_settled-keeps st (counted st s) d p in ground arith

  -- A session that publishes its file was sent a FIN with its id and the number of bytes written, the
  -- digest in it is the SHA-256 of the bytes that the disk returns after the flush, and the reply is
  -- FIN_ACK. The disk is any on which the file reads as `content` after the flush, with at least the
  -- bytes that the session counted.
  pub handle_packet-publishes :
      s.published ≡ false
      → ((want offset : ℕ)
          → read_at st s.file want offset (sync st s.file d).1
            ≡ some (take want (drop offset content)))
      → s.bytes_written ≤ length content
      → (handle_packet st s d p).session.published ≡ true
      → (p.header.packet_type ≡ fin)
        × ((p.header.session_id ≡ s.session_id)
            × ((p.header.byte_offset ≡ s.bytes_written)
                × ((p.payload ≡ sha256 (take s.bytes_written content))
                    × ((handle_packet st s d p).reply
                        ≡ reply_with fin_ack p.header.sequence_number))))
  unfolding handle_packet
  handle_packet-publishes a reads fits b =
      let active = handle_packet-active b a in
      let (is_fin, (same_id, as_fin)) = on_active-publishes st (counted st s) d p a active.1 in
      let (offset, (digest, replied)) =
        on_fin-publishes st (counted st s) d p (update new_hasher (take s.bytes_written content)) a
          (hash_file_lem st s.file (sync st s.file d).1 content reads s.bytes_written fits)
          (subst (λ o. o.session.published ≡ true) as_fin active.1) in
      (
        fin_code p.header.packet_type is_fin,
        (
          same_id,
          (
            offset,
            (
              sym (
                    same_bytes→≡ (finish (update new_hasher (take s.bytes_written content)))
                      p.payload digest)
                  ∙ sym (sha256_lem (take s.bytes_written content)),
              ap (λ o. o.reply) (active.0 ∙ as_fin) ∙ replied,
            ),
          ),
        ),
      )
