-- ===== src/Ingestion/Coordinator.antt =====
-- rag.cpp/include/rag/ingestion/coordinator.hpp and rag.cpp/src/ingestion/coordinator.cpp. Each
-- section of the code that holds the mutex is one function of the state; `execute`, which takes the
-- mutex several times, is a machine with a program point for each.
pub mod State
pub mod Transition
pub mod Execute
pub mod Submit
pub mod Invariant
pub mod Evolution
pub mod Sections
pub mod Admission
pub mod System
pub mod Safety
pub mod Progress
pub mod Completion
pub mod Publication
pub mod Untouched
mod Tests
