-- ===== src/Store.antt =====
-- rag.cpp/src/store: the binary format, the write-ahead log and the container.
pub mod Format
pub mod Crc
pub mod Frame
pub mod Wal
pub mod Container
