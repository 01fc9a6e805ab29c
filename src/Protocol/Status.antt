-- ===== src/Protocol/Status.antt =====
-- include/swiftlink/protocol/status.hpp and src/protocol/status.cpp: the codes of ERROR packets.
use Prim.Native.Char.{code}
use Prim.Native.String.{String}
use swiftlink.Common.{ℕ, Bool, ◌||◌, List, [], ◌∷◌, ◌==◌}

pub data StatusCode : Type 0 where
  ok unsupported_version invalid_filename file_open_failed integrity_check_failed size_mismatch
        unknown_session internal_error server_busy :
      StatusCode

-- the enumerators' values
abbrev pub status_byte : StatusCode → ℕ
status_byte ok = 0
status_byte unsupported_version = 1
status_byte invalid_filename = 2
status_byte file_open_failed = 3
status_byte integrity_check_failed = 4
status_byte size_mismatch = 5
status_byte unknown_session = 6
status_byte internal_error = 7
status_byte server_busy = 8

unfoldable pub is_valid_status_code : ℕ → Bool
is_valid_status_code raw =
    raw == 0
    || (raw == 1
        || (raw == 2
            || (raw == 3 || (raw == 4 || (raw == 5 || (raw == 6 || (raw == 7 || raw == 8)))))))

abbrev pub status_to_string : StatusCode → String
status_to_string ok = "ok"
status_to_string unsupported_version = "unsupported protocol version"
status_to_string invalid_filename = "filename rejected"
status_to_string file_open_failed = "could not open the output file"
status_to_string integrity_check_failed = "SHA-256 of the received file did not match the sender's"
status_to_string size_mismatch = "received byte count disagrees with the declared size"
status_to_string unknown_session = "no such session"
status_to_string internal_error = "internal error"
status_to_string server_busy = "server is at its session limit"

-- the bytes of a std::string_view
abbrev pub bytes_of : String → List ℕ
bytes_of String.[] = []
bytes_of (String.◌∷◌ c s) = code c ∷ bytes_of s

-- The payload of an ERROR packet: the status byte, then the message.
abbrev pub error_payload : StatusCode → List ℕ
error_payload code' = status_byte code' ∷ bytes_of (status_to_string code')
