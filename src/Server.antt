-- ===== src/Server.antt =====
-- server/: the keys of the session table and the packets that the server answers with.
pub mod Config
pub mod Replies
pub mod Keys
pub mod Table
pub mod Loop
pub mod Tests
