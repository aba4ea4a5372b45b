-- ===== src/Ingestion/Job.antt =====
-- rag.cpp/include/rag/ingestion/job.hpp and rag.cpp/src/ingestion/job.cpp. A job is generic in what a
-- prepared document is; times are milliseconds since the epoch.
use llama_rag_runtime.Base.{ℕ, Bool, true, false, Option}
use llama_rag_runtime.Core.Types.{Bytes, Errc, ascii}
use llama_rag_runtime.Core.Metadata.{Metadata}

abbrev pub JobId : Type 0
JobId = Bytes

pub data JobOperation : Type 0 where
  upsert erase : JobOperation

pub data JobStatus : Type 0 where
  queued chunking embedding publishing ready failed superseded cancelled : JobStatus

unfoldable pub terminal : JobStatus → Bool
terminal ready = true
terminal failed = true
terminal superseded = true
terminal cancelled = true
terminal queued = false
terminal chunking = false
terminal embedding = false
terminal publishing = false

unfoldable pub name : JobStatus → Bytes
name queued = ascii "queued"
name chunking = ascii "chunking"
name embedding = ascii "embedding"
name publishing = ascii "publishing"
name ready = ascii "ready"
name failed = ascii "failed"
name superseded = ascii "superseded"
name cancelled = ascii "cancelled"

pub record IngestionInput : Type 0 where
  pub document : Bytes
  pub title : Bytes
  pub content : Bytes
  pub metadata : Metadata

pub record JobError : Type 0 where
  pub code : Errc
  pub message : Bytes

pub record IngestionJob (Prepared : Type 0) : Type 0 where
  pub id : JobId
  pub operation : JobOperation
  pub input : IngestionInput
  pub revision : ℕ
  pub content_hash : Bytes
  pub status : JobStatus
  pub created_at_ms : ℕ
  pub updated_at_ms : ℕ
  pub error : Option JobError
  pub prepared : Option Prepared
  pub mutation_applied : Option Bool

-- What a client sees of a job.
pub record JobInfo : Type 0 where
  pub id : JobId
  pub document : Bytes
  pub revision : ℕ
  pub operation : JobOperation
  pub status : JobStatus
  pub created_at_ms : ℕ
  pub updated_at_ms : ℕ
  pub error : Option JobError

unfoldable pub info : {Prepared : Type 0} → IngestionJob Prepared → JobInfo
info job = record {
  id = job.id;
  document = job.input.document;
  revision = job.revision;
  operation = job.operation;
  status = job.status;
  created_at_ms = job.created_at_ms;
  updated_at_ms = job.updated_at_ms;
  error = job.error;
}
