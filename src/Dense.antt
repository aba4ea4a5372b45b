-- ===== src/Dense.antt =====
-- Dense indexes: rag.cpp/include/rag/dense and rag.cpp/src/dense.
pub mod Building
pub mod Engine
pub mod Index
pub mod Policy
pub mod Tiered
pub mod Search
mod Tests
