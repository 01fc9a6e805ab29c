-- ===== src/Io.antt =====
-- io/: positional file I/O.
pub mod File
pub mod Tests
