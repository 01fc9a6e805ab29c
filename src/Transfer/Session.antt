-- ===== src/Transfer/Session.antt =====
-- include/swiftlink/transfer/receiver_session.hpp and src/transfer/receiver_session.cpp: the receiving
-- side of one file transfer. A handler takes the session, the disk and a packet and gives the next
-- session, the next disk and the reply. What the session asks of its file (src/io/file.cpp) and of
-- rename(2) and unlink(2) is the interface `Storage`.
pub mod Published
pub mod Effects
pub mod Paths
pub mod Settled
use swiftlink.Common.{
  ℕ, zero, suc, ◌+◌, ◌-◌, ◌/◌, ◌%◌, ◌^◌, min, Bool, true, false, not, ◌&&◌, ◌||◌, Option, none,
  some, List, [], ◌∷◌, length, ltb, ◌==◌, if◌then◌else◌,
}
use swiftlink.Crypto.Sha256.{Sha256, new_hasher, update, finish}
use swiftlink.Protocol.Packet.{
  PacketType, start, start_ack, data', ack, fin, fin_ack, error, same_type, PacketHeader, Packet,
}
use swiftlink.Protocol.Status
use swiftlink.Protocol.Status.{StatusCode, error_payload}
use swiftlink.Transfer.Filename
use swiftlink.Transfer.Filename.{sanitize_filename, join_path, temp_name, FilenameRejection}
use swiftlink.Transfer.ReceiverWindow.{
  Disposition, accepted, duplicate, outside_window, ReceiverWindow, new_window, classify,
  mark_received,
}
use swiftlink.Transfer.Stats
use swiftlink.Transfer.Stats.{TransferError, TransferStats, no_stats, next}

-- An operation gives what it returns and the disk behind it. `none` is the code's -1, and a `File`
-- that is not open is a session without a handle.
pub record Storage : Type 1 where
  pub Disk : Type 0
  pub Handle : Type 0
  pub open_write : List ℕ → Disk → Option Handle × Disk
  pub write_at : Handle → List ℕ → ℕ → Disk → Option ℕ × Disk
  pub read_at : Handle → ℕ → ℕ → Disk → Option (List ℕ)
  pub sync : Handle → Disk → Bool × Disk
  pub close : Handle → Disk → Disk
  pub rename : List ℕ → List ℕ → Disk → Bool × Disk
  pub unlink : List ℕ → Disk → Disk

pub record Reply : Type 0 where
  pub send : Bool
  pub type : PacketType
  pub sequence : ℕ
  pub payload : List ℕ

-- `Reply{}`
abbrev pub no_reply : Reply
no_reply = record { send = false; type = ack; sequence = 0; payload = [] }

abbrev pub reply_with : PacketType → ℕ → Reply
reply_with t n = record { send = true; type = t; sequence = n; payload = [] }

-- the reply that `fail` builds
abbrev pub error_reply : StatusCode → ℕ → Reply
error_reply code n = record {
  send = true;
  type = error;
  sequence = n;
  payload = error_payload code;
}

-- the buffer of `on_fin`
abbrev pub hash_block : ℕ
hash_block = 65536

abbrev pub same_bytes : List ℕ → List ℕ → Bool
same_bytes [] [] = true
same_bytes (x ∷ xs) (y ∷ ys) = x == y && same_bytes xs ys
same_bytes xs ys = false

pub record Session (handle : Type 0) : Type 0 where
  pub file : Option handle
  pub window : ReceiverWindow
  pub output_directory : List ℕ
  pub output_path : List ℕ
  pub temp_path : List ℕ
  pub published : Bool
  pub session_id : ℕ
  pub declared_size : ℕ
  pub bytes_written : ℕ
  pub started : Bool
  pub finished : Bool
  pub final_reply : Reply
  pub error_code : TransferError
  pub stats : TransferStats

abbrev pub new_session : {handle : Type 0} → ℕ → List ℕ → Session handle
new_session capacity directory = record {
  file = none;
  window = new_window capacity;
  output_directory = directory;
  output_path = [];
  temp_path = [];
  published = false;
  session_id = 0;
  declared_size = 0;
  bytes_written = 0;
  started = false;
  finished = false;
  final_reply = no_reply;
  error_code = Stats.none';
  stats = no_stats;
}

abbrev pub count_duplicate : TransferStats → TransferStats
count_duplicate s = record s { duplicates_received = next s.duplicates_received }

abbrev pub count_out_of_order : TransferStats → TransferStats
count_out_of_order s = record s { out_of_order_received = next s.out_of_order_received }

abbrev pub count_received : TransferStats → TransferStats
count_received s = record s { packets_received = next s.packets_received }

-- What a handler leaves behind.
pub record Outcome (handle disk : Type 0) : Type 0 where
  pub session : Session handle
  pub storage : disk
  pub reply : Reply

-- `fail`
unfoldable pub fail :
    {handle disk : Type 0}
    → Session handle
    → disk
    → StatusCode
    → TransferError
    → ℕ
    → Outcome handle disk
fail s d code e n = record {
  session = record s { error_code = e; finished = true; final_reply = error_reply code n };
  storage = d;
  reply = error_reply code n;
}

abbrev pub answer : {handle disk : Type 0} → Session handle → disk → Reply → Outcome handle disk
answer s d r = record { session = s; storage = d; reply = r }

module _ (st : Storage) where
  abbrev pub close_file : Option st.Handle → st.Disk → st.Disk
  close_file none d = d
  close_file (some f) d = st.close f d

  -- `File::write_at` of a file that may not be open
  abbrev pub write_at : Option st.Handle → List ℕ → ℕ → st.Disk → Option ℕ × st.Disk
  write_at none bytes offset d = (none, d)
  write_at (some f) bytes offset d = st.write_at f bytes offset d

  abbrev pub read_at : Option st.Handle → ℕ → ℕ → st.Disk → Option (List ℕ)
  read_at none want offset d = none
  read_at (some f) want offset d = st.read_at f want offset d

  abbrev pub sync : Option st.Handle → st.Disk → Bool × st.Disk
  sync none d = (false, d)
  sync (some f) d = st.sync f d

  -- The destructor.
  unfoldable pub abandon : Session st.Handle → st.Disk → st.Disk
  abandon s d =
      if not s.published && not (Filename.is_empty s.temp_path)
      then st.unlink s.temp_path (close_file s.file d)
      else d

  -- `on_start` after `open_write`
  unfoldable pub after_open :
      Session st.Handle → ℕ → ℕ → Option st.Handle × st.Disk → Outcome st.Handle st.Disk
  after_open s size n (none, d) =
      fail (record s { file = none }) d Status.file_open_failed Stats.file_open_failed n
  after_open s size n (some f, d) =
      answer (record s { file = some f; declared_size = size; started = true }) d
        (reply_with start_ack n)

  -- `on_start` with the verdict on the name
  unfoldable pub after_sanitize :
      Session st.Handle
      → st.Disk
      → PacketHeader
      → FilenameRejection × List ℕ
      → Outcome st.Handle st.Disk
  after_sanitize s d h (Filename.accepted, name) =
      let temporary = join_path s.output_directory (temp_name h.session_id) in
      after_open
        (record s { output_path = join_path s.output_directory name; temp_path = temporary })
        h.byte_offset h.sequence_number (st.open_write temporary (close_file s.file d))
  after_sanitize s d h other =
      fail s d Status.invalid_filename Stats.invalid_filename h.sequence_number

  unfoldable pub on_start : Session st.Handle → st.Disk → Packet → Outcome st.Handle st.Disk
  on_start s d p =
      let h = p.header in
      if s.started
      then (if h.session_id == s.session_id
          then answer (record s { stats = count_duplicate s.stats }) d
              (reply_with start_ack h.sequence_number)
          else fail s d Status.unknown_session Stats.protocol_violation h.sequence_number)
      else after_sanitize (record s { session_id = h.session_id }) d h (sanitize_filename p.payload)

  -- `on_data` after `write_at`
  unfoldable pub after_write :
      Session st.Handle → Packet → Option ℕ × st.Disk → Outcome st.Handle st.Disk
  after_write s p (none, d) =
      fail s d Status.internal_error Stats.file_write_failed p.header.sequence_number
  after_write s p (some written, d) =
      let n = p.header.sequence_number in
      let bytes = (s.bytes_written + length p.payload) % 2 ^ 64 in
      if written == length p.payload
      then answer
          (record s {
            window = mark_received s.window n;
            bytes_written = bytes;
            stats = record s.stats { chunks = next s.stats.chunks; bytes_transferred = bytes };
          })
          d (reply_with ack n)
      else fail s d Status.internal_error Stats.file_write_failed n

  -- the sum of the size check wraps at 2^64
  unfoldable pub exceeds_declared : Session st.Handle → Packet → Bool
  exceeds_declared s p = ltb s.declared_size ((p.header.byte_offset + length p.payload) % 2 ^ 64)

  -- `on_data` for a sequence number that the window accepts
  unfoldable pub on_accepted : Session st.Handle → st.Disk → Packet → Outcome st.Handle st.Disk
  on_accepted s d p =
      let n = p.header.sequence_number in
      let in_order = n == s.window.base in
      let counted = record s { stats = if in_order then s.stats else count_out_of_order s.stats } in
      if exceeds_declared s p
      then fail s d Status.size_mismatch Stats.size_mismatch n
      else after_write counted p (write_at s.file p.payload p.header.byte_offset d)

  unfoldable pub on_data : Session st.Handle → st.Disk → Packet → Outcome st.Handle st.Disk
  on_data s d p = elim (classify s.window p.header.sequence_number) [
    | duplicate ↦
        answer (record s { stats = count_duplicate s.stats }) d
          (reply_with ack p.header.sequence_number)
    | outside_window ↦ answer (record s { stats = count_out_of_order s.stats }) d no_reply
    | accepted ↦ on_accepted s d p
  ]

  -- The loop of `on_fin`. A round moves by a whole block but for the last, so one more round than
  -- there are whole blocks is enough (and one to see the end).
  unfoldable pub hash_from : ℕ → Option st.Handle → st.Disk → ℕ → ℕ → Sha256 → Option Sha256
  hash_from zero f d total offset hasher = none
  hash_from (suc fuel) f d total offset hasher =
      let want = min (total - offset) hash_block in
      if ltb offset total
      then (elim (read_at f want offset d) [
        | none ↦ none
        | some bytes ↦
            let rest = hash_from fuel f d total (offset + want) (update hasher bytes) in
            if length bytes == want then rest else none
      ])
      else some hasher

  abbrev pub hash_file : Option st.Handle → st.Disk → ℕ → Option Sha256
  hash_file f d total = hash_from (total / hash_block + 2) f d total 0 new_hasher

  -- `on_fin` after the rename
  unfoldable pub after_rename : Session st.Handle → ℕ → Bool × st.Disk → Outcome st.Handle st.Disk
  after_rename s n (false, d) = fail s d Status.internal_error Stats.file_write_failed n
  after_rename s n (true, d) =
      answer (record s { published = true; finished = true; final_reply = reply_with fin_ack n }) d
        (reply_with fin_ack n)

  -- `on_fin` with the hash of what is on disk
  unfoldable pub after_hash :
      Session st.Handle → st.Disk → Packet → Option Sha256 → Outcome st.Handle st.Disk
  after_hash s d p none =
      fail s d Status.internal_error Stats.file_write_failed p.header.sequence_number
  after_hash s d p (some hasher) =
      if length p.payload == 32 && same_bytes (finish hasher) p.payload
      then after_rename s p.header.sequence_number (st.rename s.temp_path s.output_path d)
      else fail s d Status.integrity_check_failed Stats.integrity_failed p.header.sequence_number

  unfoldable pub after_sync :
      Session st.Handle → Packet → Bool × st.Disk → Outcome st.Handle st.Disk
  after_sync s p (false, d) =
      fail s d Status.internal_error Stats.file_write_failed p.header.sequence_number
  after_sync s p (true, d) = after_hash s d p (hash_file s.file d s.bytes_written)

  unfoldable pub on_fin : Session st.Handle → st.Disk → Packet → Outcome st.Handle st.Disk
  on_fin s d p =
      if p.header.byte_offset == s.bytes_written
      then after_sync s p (sync s.file d)
      else fail s d Status.size_mismatch Stats.size_mismatch p.header.sequence_number

  -- whether a packet is one that the stored verdict answers
  unfoldable pub is_repeated : Session st.Handle → Packet → Bool
  is_repeated s p =
      let is_fin = same_type p.header.packet_type fin in
      let is_control = is_fin || same_type p.header.packet_type start in
      (p.header.session_id == s.session_id && s.final_reply.send)
      && (if same_type s.final_reply.type error then is_control else is_fin)

  -- `handle_packet` of a session that is not settled
  unfoldable pub on_active : Session st.Handle → st.Disk → Packet → Outcome st.Handle st.Disk
  on_active s d p =
      let h = p.header in
      if same_type h.packet_type start
      then on_start s d p
      else if not s.started
      then fail s d Status.unknown_session Stats.protocol_violation h.sequence_number
      else if not (h.session_id == s.session_id)
      then fail s d Status.unknown_session Stats.protocol_violation h.sequence_number
      else if same_type h.packet_type data'
      then on_data s d p
      else if same_type h.packet_type fin
      then on_fin s d p
      else answer s d no_reply

  -- `handle_packet` of a settled session
  unfoldable pub on_settled : Session st.Handle → st.Disk → Packet → Outcome st.Handle st.Disk
  on_settled s d p =
      if is_repeated s p
      then answer (record s { stats = count_duplicate s.stats }) d s.final_reply
      else answer s d no_reply

  unfoldable pub handle_packet : Session st.Handle → st.Disk → Packet → Outcome st.Handle st.Disk
  handle_packet s d p =
      let counted = record s { stats = count_received s.stats } in
      if s.finished then on_settled counted d p else on_active counted d p
