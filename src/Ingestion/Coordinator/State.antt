-- ===== src/Ingestion/Coordinator/State.antt =====
-- The coordinator's state, and what it calls: the job store, the backend, the preparation.
use llama_rag_runtime.Base.{ℕ, Bool, none, some, ltb, if◌then◌else◌, length, take, List}
use llama_rag_runtime.Core.Types.{Bytes, Error, Result}
use llama_rag_runtime.Core.Map.{Map, find, assign}
use llama_rag_runtime.Ingestion.Job.{JobId, IngestionInput, IngestionJob, JobError}

-- The interfaces that the coordinator is built over: `IngestionJobStore`, `CandidateBackend`,
-- `prepare_chunks` and `embed_document`. A call returns its answer and the new state.
pub record Services : Type 1 where
  pub Prepared : Type 0
  pub Store : Type 0
  pub Backend : Type 0
  pub persist : IngestionJob Prepared → Store → Result (Unit {0}) × Store
  pub load_latest : Store → Result (List (IngestionJob Prepared))
  pub activate : Prepared → ℕ → Backend → Result (Unit {0}) × Backend
  pub erase : Bytes → ℕ → Backend → Result Bool × Backend
  pub prepare : IngestionInput → Result Prepared
  pub embed : Prepared → Result Prepared

-- `has_embedder` and `has_on_ready`: whether the optional embedder and callback are there.
pub record CoordinatorConfig : Type 0 where
  pub worker_count : ℕ
  pub queue_capacity : ℕ
  pub has_embedder : Bool
  pub has_on_ready : Bool

-- `notified` counts the calls of `on_ready`. The condition variables and the worker threads are the
-- steps that the threads take.
pub record Coordinator (S : Services) : Type 0 where
  pub config : CoordinatorConfig
  pub stopping : Bool
  pub queue : List JobId
  pub jobs : Map (IngestionJob S.Prepared)
  pub latest_revision : Map ℕ
  pub latest_job : Map JobId
  pub store : S.Store
  pub backend : S.Backend
  pub notified : ℕ

-- `latest_revision_[document]` reads 0 for a document it does not know, and enters it.
unfoldable pub revision_at : Bytes → Map ℕ → ℕ
revision_at document m = elim (find document m) [ none ↦ 0 | some r ↦ r ]

unfoldable pub touch : Bytes → Map ℕ → Map ℕ
touch document m = elim (find document m) [ none ↦ assign document 0 m | some r ↦ m ]

unfoldable pub touched : {S : Services} → Bytes → Coordinator S → Coordinator S
touched document s = record s { latest_revision = touch document s.latest_revision }

abbrev pub max_error_bytes : ℕ
max_error_bytes = 1024

unfoldable pub bounded_error : Error → JobError
bounded_error e = record {
  code = e.code;
  message =
      if ltb max_error_bytes (length e.message) then take max_error_bytes e.message else e.message;
}
