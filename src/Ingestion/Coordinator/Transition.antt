-- ===== src/Ingestion/Coordinator/Transition.antt =====
-- `transition`, `fail_job` and `fail_volatile` of coordinator.cpp.
use llama_rag_runtime.Base.{ℕ, Bool, true, false, Option, none, some, [], ◌==◌, if◌then◌else◌}
use llama_rag_runtime.Core.Types.{Error, Result, ok, err, fail, ascii, not_found}
use llama_rag_runtime.Core.Map.{find, assign}
use llama_rag_runtime.Ingestion.Job.{
  JobId, JobStatus, ready, failed, superseded, terminal, IngestionJob, JobError,
}
use llama_rag_runtime.Ingestion.Coordinator.State.{
  Services, Coordinator, revision_at, touched, bounded_error,
}

abbrev pub is_ready : JobStatus → Bool
is_ready ready = true
is_ready _ = false

abbrev pub or_keep : {A : Type 0} → Option A → Option A → Option A
or_keep none old = old
or_keep (some new) old = some new

module _ {P : Type 0} where
  -- A job that a newer revision of its document has overtaken.
  unfoldable pub retired : ℕ → IngestionJob P → IngestionJob P
  retired now job = record job {
    status = superseded;
    updated_at_ms = now;
    input = record job.input { content = [] };
    prepared = none;
  }

  -- A terminal job drops its source text, and its prepared document unless it is ready.
  unfoldable pub trimmed : JobStatus → IngestionJob P → IngestionJob P
  trimmed status job =
      if terminal status
      then record job {
        input = record job.input { content = [] };
        prepared = if is_ready status then job.prepared else none;
      }
      else job

  unfoldable pub moved :
      JobStatus → Option JobError → Option P → Option Bool → ℕ → IngestionJob P → IngestionJob P
  unfolding trimmed
  moved status error prepared applied now job = trimmed status (record job {
    status = status;
    updated_at_ms = now;
    error = error;
    prepared = or_keep prepared job.prepared;
    mutation_applied = or_keep applied job.mutation_applied;
  })

module _ {S : Services} where
  -- `if (auto saved = store_->persist(next); !saved) return saved; found->second = next;`
  unfoldable pub save_job :
      JobId → IngestionJob S.Prepared → Coordinator S → Result (Unit {0}) × Coordinator S
  save_job id next s = elim (S.persist next s.store).0 [
    | ok _ ↦ (ok tt, record s { store = (S.persist next s.store).1; jobs = assign id next s.jobs })
    | err e ↦ (err e, record s { store = (S.persist next s.store).1 })
  ]

  abbrev pub answer : Bool → Result (Unit {0}) × Coordinator S → Result Bool × Coordinator S
  answer b (ok _, s) = (ok b, s)
  answer b (err e, s) = (err e, s)

  -- `transition` behind its lookup.
  unfoldable pub transition_job :
      JobId
      → IngestionJob S.Prepared
      → JobStatus
      → Option JobError
      → Option S.Prepared
      → Option Bool
      → ℕ
      → Coordinator S
      → Result Bool × Coordinator S
  transition_job id job status error prepared applied now s =
      if terminal job.status
      then (ok false, s)
      else if revision_at job.input.document s.latest_revision == job.revision
      then answer true
          (save_job id (moved status error prepared applied now job) (touched job.input.document s))
      else answer false
          (save_job id (record (retired now job) { error = none }) (touched job.input.document s))

  unfoldable pub transition :
      JobId
      → JobStatus
      → Option JobError
      → Option S.Prepared
      → Option Bool
      → ℕ
      → Coordinator S
      → Result Bool × Coordinator S
  transition id status error prepared applied now s = elim (find id s.jobs) [
    | none ↦ (fail not_found (ascii "ingestion job was not found"), s)
    | some job ↦ transition_job id job status error prepared applied now s
  ]

  -- The failure that could not be recorded: the job fails in memory only.
  unfoldable pub volatile :
      Error → ℕ → Coordinator S → IngestionJob S.Prepared → IngestionJob S.Prepared
  volatile e now s job = record job {
    status =
        if revision_at job.input.document s.latest_revision == job.revision
        then failed
        else superseded;
    updated_at_ms = now;
    error = some (bounded_error e);
    input = record job.input { content = [] };
    prepared = none;
  }

  unfoldable pub fail_volatile : JobId → Error → ℕ → Coordinator S → Coordinator S
  fail_volatile id e now s = elim (find id s.jobs) [
    | none ↦ s
    | some job ↦ if terminal job.status then s else record (touched job.input.document s) {
      jobs = assign id (volatile e now s job) s.jobs;
    }
  ]
