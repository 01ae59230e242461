-- ===== src/Io.antt =====
-- boron/source/io: the I/O manager.
pub mod Pipe
