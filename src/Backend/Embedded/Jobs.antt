-- ===== src/Backend/Embedded/Jobs.antt =====
-- What the end of a job's execution says of the embedded backend: `activate_backend` and `erase_backend` of
-- rag.cpp/src/ingestion/coordinator.cpp over rag.cpp/src/backend/embedded_backend.cpp.
use llama_rag_runtime.Dense.Engine.{Engine}
use llama_rag_runtime.Ingestion.Coordinator.State.{Coordinator}
use llama_rag_runtime.Ingestion.Coordinator.Execute.{Point, set_ready}
use llama_rag_runtime.Backend.Embedded.Coordinated.{Ingestion, embedded_services}

module _ (E : Engine) (I : Ingestion E) where
  abbrev Machine : Type 0
  Machine = Coordinator (embedded_services E I)

  abbrev pub IsSetReady : Point (embedded_services E I) → Type 0
  IsSetReady (set_ready p) = Unit
  IsSetReady _ = ⊥
