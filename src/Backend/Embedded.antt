-- ===== src/Backend/Embedded.antt =====
-- rag.cpp/include/rag/backend/embedded_backend.hpp and rag.cpp/src/backend/embedded_backend.cpp.
pub mod Validate
pub mod State
pub mod Build
pub mod Write
pub mod Read
pub mod Catalog
pub mod Invariant
pub mod Outcome
pub mod System
pub mod Rows
pub mod Delta
pub mod Tiers
pub mod Contract
pub mod Safety
pub mod Represented
pub mod Stale
pub mod Reference
pub mod Equivalence
pub mod Fetching
pub mod Corpus
pub mod Promise
pub mod Refine
pub mod Acknowledged
pub mod Coordinated
pub mod Jobs
pub mod Lexical
mod Tests
mod ReaderTests
mod JobTests
