-- ===== src/Backend.antt =====
-- rag.cpp/include/rag/backend and rag.cpp/src/backend: the records that a candidate backend keeps, and the
-- embedded backend.
pub mod Types
pub mod Prepare
pub mod Embedded
