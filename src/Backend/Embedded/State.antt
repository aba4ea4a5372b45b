-- ===== src/Backend/Embedded/State.antt =====
-- The state of `EmbeddedBackend` (rag.cpp/include/rag/backend/embedded_backend.hpp and
-- rag.cpp/src/backend/embedded_backend.cpp). The pointers to a prepared document and to the active
-- generation are never null: every writer sets them, and a backend whose constructor could not build the
-- empty generation is none (`create`).
use llama_rag_runtime.Base.{ℕ, Bool, List}
use llama_rag_runtime.Core.Types.{Bytes}
use llama_rag_runtime.Core.Map.{Map}
use llama_rag_runtime.Backend.Types.{PreparedDocument, StoredChunk}
use llama_rag_runtime.Dense.Engine.{Engine}
use llama_rag_runtime.Dense.Policy.{DensePolicy}
use llama_rag_runtime.Dense.Tiered.{TieredDenseIndex}

pub record ActiveDocument (F : Type 0) : Type 0 where
  pub revision : ℕ
  pub prepared : PreparedDocument F

-- `delta_fraction base delta` is `(double)delta >= (double)base * delta_base_fraction`, and so for
-- `tombstone_fraction`.
pub record EmbeddedMaintenancePolicy : Type 0 where
  pub delta_chunk_limit : ℕ
  pub delta_fraction : ℕ → ℕ → Bool
  pub tombstone_fraction : ℕ → ℕ → Bool
  pub compaction_memory_budget : ℕ
  pub automatic_compaction : Bool
  pub dense : DensePolicy

module _ (E : Engine) where
  pub record Generation : Type 0 where
    pub documents : Map (ActiveDocument E.Float)
    pub chunks : Map (StoredChunk E.Float)
    pub ordinal_keys : List Bytes
    pub lexical : E.Lexical
    pub dense : TieredDenseIndex E
    pub delta_documents : List Bytes
    pub dimension : ℕ
    pub chunking_fingerprint : Bytes
    pub embedding_identity : Bytes
    pub number : ℕ

  -- `stores` counts the stores to `active_`, so that it tells the pointers apart.
  pub record EmbeddedBackend : Type 0 where
    pub policy : EmbeddedMaintenancePolicy
    pub latest_revisions : Map ℕ
    pub active : Generation
    pub stores : ℕ
    pub maintenance_pending : Bool
