-- ===== src/Core.antt =====
-- rag.cpp/include/rag/core: errors and results, byte strings, and document metadata.
pub mod Types
pub mod Metadata
pub mod Ordered
pub mod Keyset
pub mod Map
pub mod Keys
pub mod Normal
