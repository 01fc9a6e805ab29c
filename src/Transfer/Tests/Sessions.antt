-- ===== src/Transfer/Tests/Sessions.antt =====
-- Sessions on a disk that holds one file in memory.
use swiftlink.Common.{
  ℕ, ◌+◌, ◌≡◌, ◌⊎◌, inl, refl, arith, Bool, true, some, List, [], ◌∷◌, ◌++◌, length, take, drop,
  All,
}
use swiftlink.Crypto.Sha256.{sha256, finish, update, consume, absorb, compress}
use swiftlink.Protocol.Packet.{Packet, default_header, fin, start, same_type, fin_ack}
use swiftlink.Transfer.Filename.{codes}
use swiftlink.Transfer.Session.{
  Storage, Session, Reply, no_reply, reply_with, new_session, handle_packet, on_active, on_fin,
  after_sync, after_hash, after_rename, hash_from,
}
use swiftlink.Transfer.Session.Published.{handle_packet-publishes}
use swiftlink.Transfer.Session.Settled.{IsSettledAs, run, run-settled, handle_packet-replays}
use swiftlink.Transfer.Session.Effects.{Effect, handle_packet-Effect}
use swiftlink.Transfer.Session.Paths.{HasPaths, handle_packet-HasPaths}

-- Every name opens the one file.
abbrev pub memory : Storage
memory = record {
  Disk = List ℕ;
  Handle = Bool;
  open_write = λ path d. (some true, []);
  write_at = λ f bytes offset d.
      (some (length bytes), take offset d ++ (bytes ++ drop (offset + length bytes) d));
  read_at = λ f want offset d. some (take want (drop offset d));
  sync = λ f d. (true, d);
  close = λ f d. d;
  rename = λ from to d. (true, d);
  unlink = λ path d. [];
}

abbrev abc : List ℕ
abc = 97 ∷ 98 ∷ 99 ∷ []

-- three bytes have arrived
abbrev received_abc : Session Bool
received_abc = record (new_session 4 (codes "out")) {
  file = some true;
  session_id = 7;
  declared_size = 3;
  bytes_written = 3;
  started = true;
  temp_path = codes "out/t";
  output_path = codes "out/a";
}

abbrev start_packet : Packet
start_packet = record {
  header = record default_header { packet_type = start; session_id = 7; byte_offset = 3 };
  payload = codes "passwd";
}

abbrev fin_packet : Packet
fin_packet = record {
  header = record default_header {
    packet_type = fin;
    session_id = 7;
    sequence_number = 1;
    byte_offset = 3;
  };
  payload = sha256 abc;
}

fin_published : (handle_packet memory received_abc abc fin_packet).session.published ≡ true
unfolding handle_packet on_active on_fin after_sync after_hash after_rename hash_from same_type
    sha256 update consume finish absorb compress
fin_published = refl

handle_packet-publishes_example :
    (fin_packet.header.packet_type ≡ fin)
    × ((fin_packet.header.session_id ≡ received_abc.session_id)
        × ((fin_packet.header.byte_offset ≡ received_abc.bytes_written)
            × ((fin_packet.payload ≡ sha256 (take received_abc.bytes_written abc))
                × ((handle_packet memory received_abc abc fin_packet).reply
                    ≡ reply_with fin_ack fin_packet.header.sequence_number))))
handle_packet-publishes_example =
    handle_packet-publishes memory received_abc abc fin_packet abc refl (λ want offset. refl)
      (omega arith) fin_published

handle_packet-Effect_example :
    Effect memory received_abc abc fin_packet
      (handle_packet memory received_abc abc fin_packet).storage
handle_packet-Effect_example = handle_packet-Effect memory received_abc abc fin_packet

fin_finished : (handle_packet memory received_abc abc fin_packet).session.finished ≡ true
unfolding handle_packet on_active on_fin after_sync after_hash after_rename hash_from same_type
    sha256 update consume finish absorb compress
fin_finished = refl

fin_keeps_id :
    fin_packet.header.session_id
    ≡ (handle_packet memory received_abc abc fin_packet).session.session_id
unfolding handle_packet on_active on_fin after_sync after_hash after_rename hash_from same_type
    sha256 update consume finish absorb compress
fin_keeps_id = refl

fin_is_fin : same_type fin_packet.header.packet_type fin ≡ true
unfolding same_type
fin_is_fin = refl

-- a START and a FIN come in between
abbrev long_settled : Session Bool × (List ℕ × List Reply)
long_settled =
    run memory (handle_packet memory received_abc abc fin_packet).session
      (handle_packet memory received_abc abc fin_packet).storage (start_packet ∷ fin_packet ∷ [])

handle_packet-replays_example :
    ((handle_packet memory received_abc abc fin_packet).reply.send ≡ true)
    × (((handle_packet memory long_settled.0 long_settled.1.0 fin_packet).reply
          ≡ (handle_packet memory received_abc abc fin_packet).reply)
        × ((handle_packet memory long_settled.0 long_settled.1.0 fin_packet).storage
            ≡ (handle_packet memory received_abc abc fin_packet).storage))
handle_packet-replays_example =
    handle_packet-replays memory received_abc abc fin_packet (start_packet ∷ fin_packet ∷ [])
      fin_packet refl fin_finished fin_keeps_id (inl fin_is_fin)

abbrev settled_abc : Session Bool
settled_abc = record received_abc {
  published = true;
  finished = true;
  final_reply = reply_with fin_ack 1;
}

run-settled_example :
    IsSettledAs settled_abc (run memory settled_abc abc (fin_packet ∷ fin_packet ∷ [])).0
    × (((run memory settled_abc abc (fin_packet ∷ fin_packet ∷ [])).1.0 ≡ abc)
        × All
            (λ r. (r ≡ no_reply) ⊎ (r ≡ settled_abc.final_reply))
            (run memory settled_abc abc (fin_packet ∷ fin_packet ∷ [])).1.1)
run-settled_example = run-settled memory (fin_packet ∷ fin_packet ∷ []) settled_abc abc refl

new_session-HasPaths : HasPaths (codes "out") (new_session {handle = Bool} 4 (codes "out"))
new_session-HasPaths = (refl, λ started. absurd (ground arith))

handle_packet-HasPaths_example :
    HasPaths
      (codes "out")
      (handle_packet memory (new_session 4 (codes "out")) [] start_packet).session
handle_packet-HasPaths_example =
    handle_packet-HasPaths memory (codes "out") (new_session 4 (codes "out")) [] start_packet
      new_session-HasPaths
