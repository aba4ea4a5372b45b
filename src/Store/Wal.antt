-- ===== src/Store/Wal.antt =====
-- rag.cpp/include/rag/store/wal.hpp and rag.cpp/src/store/wal.cpp: the log of logical mutations. The
-- disk's bytes are a field of the log; what the operating system answers to each call is an
-- argument. Allocation failures are left out.
pub mod Codec
pub mod File
pub mod Append
pub mod Durability
pub mod Reopen
mod Tests
