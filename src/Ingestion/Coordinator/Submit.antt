-- ===== src/Ingestion/Coordinator/Submit.antt =====
-- `submit`, `erase`, `get`, `wait` and `shutdown` of coordinator.cpp, up to where they leave the mutex.
-- The identifier that `next_job_id` makes and the times that `now_ms` reads are arguments.
use llama_rag_runtime.Base.{
  ℕ, ◌+◌, ◌%◌, ◌^◌, Bool, true, false, ◌&&◌, ◌||◌, Option, none, some, [], ◌∷◌, ◌++◌, ◌==◌, leb,
  if◌then◌else◌, length,
}
use llama_rag_runtime.Core.Types.{
  Bytes, Error, Result, ok, err, fail, ascii, invalid_argument, unavailable, not_found,
}
use llama_rag_runtime.Core.Map.{key_eq, find, assign}
use llama_rag_runtime.Core.Keys.{normalize_source_text, document_content_hash}
use llama_rag_runtime.Ingestion.Job.{
  JobId, JobOperation, upsert, erase, queued, terminal, IngestionInput, IngestionJob,
}
use llama_rag_runtime.Ingestion.Coordinator.State.{Services, Coordinator, revision_at, touched}
use llama_rag_runtime.Ingestion.Coordinator.Transition.{is_ready, retired}

pub record Submission (S : Services) : Type 0 where
  pub job : IngestionJob S.Prepared
  pub unchanged : Bool
  pub existing_pending : Bool

-- How the first section of a call ends: an error, an answer, a job to wait for, a job to execute, or
-- an exception (`jobs_.at` of an unknown job).
pub data Locked (S : Services) : Type 0 where
  refused : Error → Locked S
  replied : Submission S → Locked S
  waiting : JobId → Locked S
  created : IngestionJob S.Prepared → Locked S
  escaped : Locked S

abbrev pub is_empty : Bytes → Bool
is_empty text = length text == 0

abbrev pub normalized : IngestionInput → IngestionInput
normalized input = record input { content = normalize_source_text input.content }

abbrev pub fingerprint : IngestionInput → Bytes
fingerprint input = document_content_hash input.title input.content input.metadata

abbrev pub deletion_of : Bytes → IngestionInput
deletion_of document = record { document = document; title = []; content = []; metadata = [] }

module _ {S : Services} where
  -- The three maps learn of the new job.
  unfoldable pub register : IngestionJob S.Prepared → Coordinator S → Coordinator S
  register job s = record s {
    latest_revision = assign job.input.document job.revision s.latest_revision;
    latest_job = assign job.input.document job.id s.latest_job;
    jobs = assign job.id job s.jobs;
  }

  abbrev persisted : IngestionJob S.Prepared → Coordinator S → Coordinator S
  persisted job s = record s { store = (S.persist job s.store).1 }

  -- The job that was the document's latest is superseded, on disk and in memory, unless it is over.
  unfoldable pub supersede :
      IngestionJob S.Prepared
      → JobId
      → Option (IngestionJob S.Prepared)
      → ℕ
      → Coordinator S
      → Locked S × Coordinator S
  supersede job latest none later s = (escaped, s)
  supersede job latest (some older) later s =
      if terminal older.status
      then (created job, register job s)
      else elim (S.persist (retired later older) s.store).0 [
        | err e ↦ (refused e, persisted (retired later older) s)
        | ok _ ↦ (
          created job,
          register job (record (persisted (retired later older) s) {
            jobs = assign latest (retired later older) s.jobs;
          }),
        )
      ]

  -- The job takes the place of the document's latest, if there is one.
  unfoldable pub overtake :
      IngestionJob S.Prepared → Option JobId → ℕ → Coordinator S → Locked S × Coordinator S
  overtake job none later s = (created job, register job s)
  overtake job (some latest) later s = supersede job latest (find latest s.jobs) later s

  -- `persist(created)`, the superseding of the older job, and the registration.
  unfoldable pub admit : IngestionJob S.Prepared → ℕ → Coordinator S → Locked S × Coordinator S
  admit job later s = elim (S.persist job s.store).0 [
    | err e ↦ (refused e, persisted job s)
    | ok _ ↦ overtake job (find job.input.document s.latest_job) later (persisted job s)
  ]

  unfoldable pub new_job :
      JobId → JobOperation → IngestionInput → Bytes → ℕ → Coordinator S → IngestionJob S.Prepared
  new_job id operation input hash now s = record {
    id = id;
    operation = operation;
    input = input;
    revision = (revision_at input.document s.latest_revision + 1) % 2 ^ 64;
    content_hash = hash;
    status = queued;
    created_at_ms = now;
    updated_at_ms = now;
    error = none;
    prepared = none;
    mutation_applied = none;
  }

  -- The end of the section: an asynchronous job is queued and answered.
  unfoldable pub enqueue : Bool → Locked S × Coordinator S → Locked S × Coordinator S
  enqueue true (created job, s) = (
    replied (record { job = job; unchanged = false; existing_pending = false }),
    record s { queue = s.queue ++ job.id ∷ [] },
  )
  enqueue asynchronous r = r

  unfoldable pub submit_new :
      JobId → IngestionInput → Bytes → Bool → ℕ → ℕ → Coordinator S → Locked S × Coordinator S
  submit_new id input hash asynchronous now later s =
      if asynchronous && leb s.config.queue_capacity (length s.queue)
      then (refused (record { code = unavailable; message = ascii "ingestion queue is full" }), s)
      else enqueue asynchronous
          (admit (new_job id upsert input hash now s) later (touched input.document s))

  -- The document's latest job answers for content that it already has.
  unfoldable pub reuse : IngestionJob S.Prepared → Bytes → Bool → Option (Locked S)
  reuse latest hash asynchronous =
      if key_eq latest.content_hash hash
      then (if is_ready latest.status
          then some (replied (record { job = latest; unchanged = true; existing_pending = false }))
          else if terminal latest.status
          then none
          else if asynchronous
          then some (replied (record { job = latest; unchanged = false; existing_pending = true }))
          else some (waiting latest.id))
      else none

  abbrev pub reuse_or :
      Option (Locked S) → Locked S × Coordinator S → Coordinator S → Locked S × Coordinator S
  reuse_or none fresh s = fresh
  reuse_or (some answer) fresh s = (answer, s)

  -- The lookup of the latest job, then reuse or a new job.
  unfoldable pub submit_locked :
      JobId → IngestionInput → Bytes → Bool → ℕ → ℕ → Coordinator S → Locked S × Coordinator S
  submit_locked id input hash asynchronous now later s = elim (find input.document s.latest_job) [
    | none ↦ submit_new id input hash asynchronous now later s
    | some latest ↦ elim (find latest s.jobs) [
      | none ↦ (escaped, s)
      | some job ↦
          reuse_or (reuse job hash asynchronous) (submit_new id input hash asynchronous now later s)
            s
    ]
  ]

  unfoldable pub submit :
      JobId → IngestionInput → Bool → ℕ → ℕ → Coordinator S → Locked S × Coordinator S
  submit id input asynchronous now later s =
      if is_empty input.document || is_empty input.content
      then (
        refused (record {
          code = invalid_argument;
          message = ascii "document and content are required";
        }),
        s,
      )
      else if s.stopping
      then (
        refused
            (record { code = unavailable; message = ascii "ingestion coordinator is stopping" }),
        s,
      )
      else submit_locked id (normalized input) (fingerprint (normalized input)) asynchronous now
          later s

  unfoldable pub erase_document : JobId → Bytes → ℕ → ℕ → Coordinator S → Locked S × Coordinator S
  erase_document id document now later s =
      if is_empty document
      then (refused (record { code = invalid_argument; message = ascii "document is required" }), s)
      else if s.stopping
      then (
        refused
            (record { code = unavailable; message = ascii "ingestion coordinator is stopping" }),
        s,
      )
      else admit (new_job id erase (deletion_of document) (ascii "deleted") now s) later
          (touched document s)

  unfoldable pub get : JobId → Coordinator S → Result (IngestionJob S.Prepared)
  get id s = elim (find id s.jobs) [
    | none ↦ fail not_found (ascii "ingestion job was not found")
    | some job ↦ ok job
  ]

  -- What `wait` waits for, under its mutex.
  unfoldable pub wait_over : JobId → Coordinator S → Bool
  wait_over id s = elim (find id s.jobs) [
    | none ↦ true
    | some job ↦ terminal job.status || s.stopping
  ]

  -- The answer of `wait` in a state; `none` while it waits.
  unfoldable pub wait : JobId → Coordinator S → Option (Result (IngestionJob S.Prepared))
  wait id s = if wait_over id s then some (get id s) else none

  -- A worker takes the next job.
  unfoldable pub take_job : Coordinator S → Option (JobId × Coordinator S)
  take_job s =
      if s.stopping
      then none
      else elim s.queue [ [] ↦ none | id ∷ rest ↦ some (id, record s { queue = rest }) ]

  -- The first section of `shutdown`, and the last, behind the join.
  unfoldable pub stop : Coordinator S → Coordinator S
  stop s = record s { stopping = true }

  unfoldable pub drain : Coordinator S → Coordinator S
  drain s = record s { queue = [] }
