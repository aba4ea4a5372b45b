-- ===== src/Store/Container.antt =====
-- The .ragdb container: rag.cpp/include/rag/store/container_layout.hpp,
-- rag.cpp/src/store/container_layout.cpp and rag.cpp/src/store/container_view.cpp.
pub mod Layout
pub mod Sound
pub mod View
mod Tests
