-- ===== src/Ingestion.antt =====
-- rag.cpp/include/rag/ingestion and rag.cpp/src/ingestion: jobs and their coordinator.
pub mod Job
pub mod Coordinator
pub mod JobStore
