-- ===== src/Transfer/Tests.antt =====
-- The theorems on transfers at concrete inputs, one module for each part.
pub mod Receiver
pub mod Sender
pub mod Names
pub mod Sessions
pub mod Exchange
pub mod Reception
pub mod Delivery
