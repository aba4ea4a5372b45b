-- ===== src/Ingestion/JobStore.antt =====
-- rag.cpp/include/rag/ingestion/job_store.hpp and rag.cpp/src/ingestion/job_store.cpp: the append-only
-- job log. The JSON text of a job is a parameter, `JobCodec`.
pub mod File
pub mod Log
pub mod Durability
pub mod Broken
pub mod Compaction
pub mod Selection
pub mod Rewriting
pub mod Retention
pub mod Order
pub mod Loading
pub mod Totality
mod Tests
