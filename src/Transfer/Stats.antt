-- ===== src/Transfer/Stats.antt =====
-- The errors and the counters of include/swiftlink/transfer/transfer.hpp and
-- src/transfer/transfer.cpp. A counter is a uint64_t; `elapsed_seconds`, a double that only
-- `throughput_mbps` reads, is left out.
use Prim.Native.String.{String}
use swiftlink.Common.{ℕ, ◌+◌, ◌%◌, ◌^◌}
use swiftlink.Protocol.Status.{StatusCode, ok}

pub data TransferError : Type 0 where
  none' file_open_failed file_read_failed file_write_failed socket_failed send_failed receive_failed
        peer_unresponsive protocol_violation size_mismatch handshake_failed remote_error
        integrity_failed invalid_filename :
      TransferError

abbrev pub transfer_error_to_string : TransferError → String
transfer_error_to_string none' = "ok"
transfer_error_to_string file_open_failed = "could not open file"
transfer_error_to_string file_read_failed = "read from file failed"
transfer_error_to_string file_write_failed = "write to file failed"
transfer_error_to_string socket_failed = "socket operation failed"
transfer_error_to_string send_failed = "sendto failed"
transfer_error_to_string receive_failed = "recvfrom failed"
transfer_error_to_string peer_unresponsive = "peer stopped responding"
transfer_error_to_string protocol_violation = "peer violated the protocol"
transfer_error_to_string size_mismatch = "received byte count disagrees with the declared file size"
transfer_error_to_string handshake_failed = "no START_ACK from the peer"
transfer_error_to_string remote_error = "peer reported an error"
transfer_error_to_string integrity_failed = "SHA-256 verification failed"
transfer_error_to_string invalid_filename = "filename rejected by the receiver"

pub record TransferStats : Type 0 where
  pub bytes_transferred : ℕ
  pub chunks : ℕ
  pub packets_sent : ℕ
  pub retransmissions : ℕ
  pub simulated_drops : ℕ
  pub packets_received : ℕ
  pub duplicates_received : ℕ
  pub out_of_order_received : ℕ
  pub timeouts : ℕ
  pub remote_status : StatusCode

abbrev pub no_stats : TransferStats
no_stats = record {
  bytes_transferred = 0;
  chunks = 0;
  packets_sent = 0;
  retransmissions = 0;
  simulated_drops = 0;
  packets_received = 0;
  duplicates_received = 0;
  out_of_order_received = 0;
  timeouts = 0;
  remote_status = ok;
}

-- `++counter`
abbrev pub next : ℕ → ℕ
next counter = (counter + 1) % 2 ^ 64
