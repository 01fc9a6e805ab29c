-- ===== src/Transfer/Sender.antt =====
-- include/swiftlink/transfer/sender.hpp and src/transfer/sender.cpp: what the sender is given and keeps.
-- The socket, the clock, the file and the loss simulator, whose draws are doubles, are the interface
-- `Network`; a time point is a number of nanoseconds.
pub mod Exchange
pub mod Send
use swiftlink.Common.{
  ℕ, zero, suc, ◌+◌, ◌-◌, ◌*◌, ◌/◌, ◌%◌, ◌^◌, Bool, true, false, Option, none, some, List, [], ◌∷◌,
  ◌++◌, ◌==◌, if◌then◌else◌,
}
use swiftlink.Protocol.Status
use swiftlink.Protocol.Status.{StatusCode}
use swiftlink.Transfer.Stats.{TransferStats, next}

-- `loss_probability` and `seed` go into `should_drop`.
pub record SenderConfig : Type 0 where
  pub chunk_size : ℕ
  pub rto : ℕ
  pub max_retries : ℕ
  pub window_size : ℕ
  pub session_id : ℕ
  pub remote_name : List ℕ

-- What recv_from gives: a datagram, or -1 with EAGAIN or EWOULDBLOCK, with EINTR, with another errno.
pub data Heard : Type 0 where
  heard : List ℕ → Heard
  timed_out interrupted receive_failed : Heard

pub record Network : Type 1 where
  pub World : Type 0
  pub now : World → ℕ × World
  pub should_drop : World → Bool × World
  pub send_to : List ℕ → World → Bool × World
  pub set_receive_timeout : ℕ → World → Bool × World
  pub recv_from : World → Heard × World
  pub open_read : List ℕ → World → Bool × World
  pub file_size : World → Option ℕ × World
  pub read_at : ℕ → ℕ → World → Option (List ℕ) × World

-- The world, the counters, and what has passed through the socket: the datagrams that were sent or
-- dropped by the simulation, and those that were heard, the latest first.
pub record Link (state : Type 0) : Type 0 where
  pub world : state
  pub stats : TransferStats
  pub outbox : List (List ℕ)
  pub inbox : List (List ℕ)

-- milliseconds in nanoseconds
abbrev pub ms : ℕ → ℕ
ms n = n * 1000000

-- `static_cast<StatusCode>(raw)`, which the code makes of valid values only
unfoldable pub status_code_of : ℕ → StatusCode
status_code_of raw =
    if raw == 0
    then Status.ok
    else if raw == 1
    then Status.unsupported_version
    else if raw == 2
    then Status.invalid_filename
    else if raw == 3
    then Status.file_open_failed
    else if raw == 4
    then Status.integrity_check_failed
    else if raw == 5
    then Status.size_mismatch
    else if raw == 6
    then Status.unknown_session
    else if raw == 7
    then Status.internal_error
    else Status.server_busy

module _ (net : Network) where
  abbrev pub count_sent : TransferStats → TransferStats
  count_sent s = record s { packets_sent = next s.packets_sent }

  abbrev pub count_drop : TransferStats → TransferStats
  count_drop s = record s { simulated_drops = next s.simulated_drops }

  -- A simulated loss counts as sent.
  unfoldable pub send_packet : Link net.World → List ℕ → Bool × Link net.World
  send_packet l wire =
      let draw = net.should_drop l.world in
      let call = net.send_to wire draw.1 in
      let counted = record l { stats = count_sent l.stats; outbox = wire ∷ l.outbox } in
      if draw.0
      then (true, record counted { world = draw.1; stats = count_drop counted.stats })
      else (call.0, record counted { world = call.1 })
