-- ===== src/Transfer/Delivery.antt =====
-- The way of a file from `send_file` (src/transfer/sender.cpp) to the session that receives it
-- (src/transfer/receiver_session.cpp).
pub mod Sums
pub mod Packets
pub mod Sessions
pub mod Disk
pub mod Outcomes
pub mod Stages
pub mod Steps
pub mod Delivered
pub mod Clean
pub mod Opening
pub mod Closing
pub mod Completed
