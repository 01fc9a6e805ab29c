-- ===== src/Server/Replies.antt =====
-- src/server/epoll_server.cpp: the key that a session is found by, and the datagrams that the server
-- sends.
use swiftlink.Common.{
  ℕ, ◌^◌, ◌<◌, ◌≤◌, ◌≡◌, refl, arith, Bool, true, false, not, ◌&&◌, List, [], ◌∷◌, length, ltb,
  ◌==◌, if◌then◌else◌,
}
use swiftlink.Protocol.Packet.{
  PacketType, PacketHeader, default_header, error, success, max_payload_size,
}
use swiftlink.Protocol.Status.{
  StatusCode, error_payload, ok, unsupported_version, invalid_filename, file_open_failed,
  integrity_check_failed, size_mismatch, unknown_session, internal_error, server_busy,
}
use swiftlink.Protocol.Serializer.{serialize, deserialize}
use swiftlink.Protocol.Serializer.RoundTrip.{IsCurrent, received_header, deserialize-serialize}
use swiftlink.Transfer.Session.{Reply}

pub record SessionKey : Type 0 where
  pub address : List ℕ
  pub port : ℕ
  pub session_id : ℕ

-- `operator<` and `!=` of std::string
abbrev pub text_less : List ℕ → List ℕ → Bool
text_less xs [] = false
text_less [] (y ∷ ys) = true
text_less (x ∷ xs) (y ∷ ys) =
    let rest = text_less xs ys in if ltb x y then true else if ltb y x then false else rest

abbrev pub text_equal : List ℕ → List ℕ → Bool
text_equal [] [] = true
text_equal (x ∷ xs) (y ∷ ys) = x == y && text_equal xs ys
text_equal xs ys = false

unfoldable pub key_less : SessionKey → SessionKey → Bool
key_less a b =
    if not (text_equal a.address b.address)
    then text_less a.address b.address
    else if not (a.port == b.port)
    then ltb a.port b.port
    else ltb a.session_id b.session_id

abbrev pub reply_header : PacketType → ℕ → ℕ → PacketHeader
reply_header t session sequence = record default_header {
  packet_type = t;
  session_id = session;
  sequence_number = sequence;
  acknowledgement_number = sequence;
}

-- the datagram of `send_error`
unfoldable pub error_datagram : PacketHeader → StatusCode → List ℕ
error_datagram request code =
    serialize (reply_header error request.session_id request.sequence_number) (error_payload code)

-- the datagram for a reply of a session
unfoldable pub reply_datagram : PacketHeader → Reply → List ℕ
reply_datagram request reply =
    serialize (reply_header reply.type request.session_id reply.sequence) reply.payload

reply_header-IsCurrent :
    (t : PacketType) (session sequence : ℕ)
    → session < 2 ^ 64
    → sequence < 2 ^ 32
    → IsCurrent (reply_header t session sequence)
reply_header-IsCurrent t session sequence a b = record {
  fields = record {
    magic_fits = omega arith;
    version_fits = omega arith;
    length_fits = omega arith;
    session_fits = a;
    sequence_fits = b;
    ack_fits = b;
    offset_fits = omega arith;
    flags_fit = omega arith;
  };
  magic_is = refl;
  version_is = refl;
  length_is = refl;
}

error_payload-length : (code : StatusCode) → length (error_payload code) ≤ max_payload_size
error_payload-length ok = omega arith
error_payload-length unsupported_version = omega arith
error_payload-length invalid_filename = omega arith
error_payload-length file_open_failed = omega arith
error_payload-length integrity_check_failed = omega arith
error_payload-length size_mismatch = omega arith
error_payload-length unknown_session = omega arith
error_payload-length internal_error = omega arith
error_payload-length server_busy = omega arith

-- A peer decodes the datagram of `send_error` to an ERROR packet with the session id and the sequence
-- number of the request, and the status byte and its text as payload, for each status code. The
-- request's session id has 64 bits and its sequence number 32.
pub deserialize-error_datagram :
    (request : PacketHeader) (code : StatusCode)
    → request.session_id < 2 ^ 64
    → request.sequence_number < 2 ^ 32
    → deserialize (error_datagram request code)
      ≡ success (record {
        header =
            received_header
              (reply_header error request.session_id request.sequence_number)
              (error_payload code);
        payload = error_payload code;
      })
unfolding error_datagram
deserialize-error_datagram request code a b =
    deserialize-serialize (reply_header error request.session_id request.sequence_number)
      (error_payload code)
      (reply_header-IsCurrent error request.session_id request.sequence_number a b)
      (error_payload-length code)
