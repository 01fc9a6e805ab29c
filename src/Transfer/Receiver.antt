-- ===== src/Transfer/Receiver.antt =====
-- include/swiftlink/transfer/receiver.hpp and src/transfer/receiver.cpp: the blocking receiver, which
-- moves datagrams between a socket and one `ReceiverSession`. What each call of recv_from gives, and
-- whether the reply to it can be sent, are a list; the clock, which only times the transfer, is left out.
pub mod Verdict
use swiftlink.Common.{
  ℕ, Bool, true, false, not, ◌&&◌, Option, none, some, List, [], ◌∷◌, if◌then◌else◌,
}
use swiftlink.Net.UdpSocket.{Endpoint}
use swiftlink.Protocol.Packet.{PacketHeader, Packet, DecodeResult, success, failure, default_header}
use swiftlink.Protocol.Serializer.{serialize, deserialize}
use swiftlink.Transfer.Session.{
  Storage, Session, Outcome, Reply, new_session, handle_packet, abandon,
}
use swiftlink.Transfer.Stats
use swiftlink.Transfer.Stats.{TransferError}

-- `idle_timeout` is what the socket is given.
pub record ReceiverConfig : Type 0 where
  pub idle_timeout : ℕ
  pub window_size : ℕ

abbrev pub default_receiver_config : ReceiverConfig
default_receiver_config = record { idle_timeout = 10000; window_size = 1024 }

-- What recv_from gives: a datagram, its sender, and whether a reply to it can be sent; or the error.
pub data Incoming : Type 0 where
  datagram : Endpoint → List ℕ → Bool → Incoming
  would_block interrupted failed : Incoming

-- What `receive_file` has come to: a result, or it waits for more.
pub record Reception (handle disk : Type 0) : Type 0 where
  pub result : Option TransferError
  pub session : Session handle
  pub storage : disk
  pub sent : List (Endpoint × List ℕ)

-- `send_reply`
abbrev pub reply_wire : Reply → ℕ → List ℕ
reply_wire reply session_id =
    serialize
      (record default_header {
        packet_type = reply.type;
        session_id = session_id;
        sequence_number = reply.sequence;
        acknowledgement_number = reply.sequence;
      })
      reply.payload

module _ (st : Storage) where
  abbrev pub stop :
      Session st.Handle
      → st.Disk
      → Option TransferError
      → List (Endpoint × List ℕ)
      → Reception st.Handle st.Disk
  stop s d result sent = record { result = result; session = s; storage = d; sent = sent }

  -- The reply to a packet, and what comes later.
  unfoldable pub after_packet :
      Endpoint
      → Bool
      → Packet
      → Outcome st.Handle st.Disk
      → Reception st.Handle st.Disk
      → Reception st.Handle st.Disk
  after_packet peer sendable p o later =
      if not o.reply.send
      then later
      else if not sendable
      then stop o.session o.storage (some Stats.send_failed) []
      else record later { sent = (peer, reply_wire o.reply p.header.session_id) ∷ later.sent }

  -- The loop; a session that is finished ends it with its error, `kNone` for none.
  unfoldable pub receive_loop :
      List Incoming → Session st.Handle → st.Disk → Reception st.Handle st.Disk
  receive_loop [] s d = if s.finished then stop s d (some s.error_code) [] else stop s d none []
  receive_loop (would_block ∷ more) s d =
      if s.finished
      then stop s d (some s.error_code) []
      else stop s d (some Stats.peer_unresponsive) []
  receive_loop (failed ∷ more) s d =
      if s.finished
      then stop s d (some s.error_code) []
      else stop s d (some Stats.receive_failed) []
  receive_loop (interrupted ∷ more) s d = receive_loop more s d
  receive_loop (datagram peer bytes sendable ∷ more) s d = elim (deserialize bytes) [
    | failure x ↦
        let ignored = receive_loop more s d in
        if s.finished then stop s d (some s.error_code) [] else ignored
    | success p ↦
        let o = handle_packet st s d p in
        let later = receive_loop more o.session o.storage in
        if s.finished then stop s d (some s.error_code) [] else after_packet peer sendable p o later
  ]

  -- At the return the destructor of the session closes and deletes a file that is not published.
  unfoldable pub at_return : Reception st.Handle st.Disk → Reception st.Handle st.Disk
  at_return r = elim r.result [
    | none ↦ r
    | some e ↦ record r { storage = abandon st r.session r.storage }
  ]

  -- `configured` is whether the socket takes the idle timeout.
  unfoldable pub receive_file :
      ReceiverConfig → List ℕ → Bool → List Incoming → st.Disk → Reception st.Handle st.Disk
  receive_file config directory configured incoming d =
      let s = new_session config.window_size directory in
      at_return
        (if configured then receive_loop incoming s d else stop s d (some Stats.socket_failed) [])
