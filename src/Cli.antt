-- ===== src/Cli.antt =====
-- The command lines of src/client/client_main.cpp and src/server/server_main.cpp.
pub mod Text
pub mod Client
pub mod Server
pub mod Tests
