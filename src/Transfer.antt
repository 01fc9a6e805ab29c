-- ===== src/Transfer.antt =====
-- transfer/: the reliability layer.
pub mod Ring
pub mod ReceiverWindow
pub mod SenderWindow
pub mod Filename
pub mod Chunks
pub mod Stats
pub mod Session
pub mod Tests
pub mod Sender
pub mod Receiver
pub mod Delivery
