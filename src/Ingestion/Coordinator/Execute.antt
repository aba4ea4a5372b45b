-- ===== src/Ingestion/Coordinator/Execute.antt =====
-- `execute` of coordinator.cpp, as the points between which other threads may run. A point is the next
-- piece of `execute`: a section under the mutex, or a call of the preparation outside it.
use llama_rag_runtime.Base.{
  ℕ, zero, suc, ◌+◌, Bool, true, false, Option, none, some, ◌==◌, if◌then◌else◌,
}
use llama_rag_runtime.Core.Types.{Error, Result, ok, err}
use llama_rag_runtime.Core.Map.{find}
use llama_rag_runtime.Ingestion.Job.{
  JobId, upsert, erase, chunking, embedding, publishing, ready, failed, terminal, IngestionInput,
  IngestionJob,
}
use llama_rag_runtime.Ingestion.Coordinator.State.{
  Services, Coordinator, revision_at, touched, bounded_error,
}
use llama_rag_runtime.Ingestion.Coordinator.Transition.{transition, fail_volatile}

pub data Point (S : Services) : Type 0 where
  enter : Point S
  erase_publish : Point S
  erase_call : Point S
  erase_ready : Bool → Point S
  chunk : Point S
  read_input : Point S
  preparing : IngestionInput → Point S
  embed : S.Prepared → Point S
  embedding_run : S.Prepared → Point S
  publish : S.Prepared → Point S
  activating : S.Prepared → Point S
  set_ready : S.Prepared → Point S
  notify : Point S
  failing : Error → Point S
  failing_volatile : Error → Point S
  -- `jobs_.at(id)` found no job and throws.
  thrown : Point S
  finished : Point S

module _ {S : Services} where
  -- What follows a transition: a failure to record it, a job that is already over, the next point.
  abbrev pub after_transition : Point S → Result Bool × Coordinator S → Point S × Coordinator S
  after_transition next (ok true, s) = (next, s)
  after_transition next (ok false, s) = (finished, s)
  after_transition next (err e, s) = (failing_volatile e, s)

  abbrev pub after_failure : Result Bool × Coordinator S → Point S × Coordinator S
  after_failure (ok b, s) = (finished, s)
  after_failure (err e, s) = (failing_volatile e, s)

  -- The first section: an unknown or finished job is left alone.
  unfoldable pub entered : Option (IngestionJob S.Prepared) → Point S
  entered none = finished
  entered (some job) =
      if terminal job.status
      then finished
      else elim job.operation [ erase ↦ erase_publish | upsert ↦ chunk ]

  unfoldable pub erase_backend :
      Option (IngestionJob S.Prepared) → Coordinator S → Point S × Coordinator S
  erase_backend none s = (thrown, s)
  erase_backend (some job) s = elim (S.erase job.input.document job.revision s.backend).0 [
    | ok applied ↦ (
      erase_ready applied,
      record s { backend = (S.erase job.input.document job.revision s.backend).1 },
    )
    | err e ↦
        (failing e, record s { backend = (S.erase job.input.document job.revision s.backend).1 })
  ]

  abbrev pub input_of : Option (IngestionJob S.Prepared) → Point S
  input_of none = thrown
  input_of (some job) = preparing job.input

  abbrev pub prepared_or : (S.Prepared → Point S) → Result S.Prepared → Point S
  prepared_or next (ok p) = next p
  prepared_or next (err e) = failing e

  -- The activation, under the mutex: the job must still be live and its document's latest.
  unfoldable pub activate_current :
      S.Prepared → IngestionJob S.Prepared → Coordinator S → Point S × Coordinator S
  activate_current p job s = elim (S.activate p job.revision s.backend).0 [
    | ok _ ↦ (set_ready p, record s { backend = (S.activate p job.revision s.backend).1 })
    | err e ↦ (failing e, record s { backend = (S.activate p job.revision s.backend).1 })
  ]

  unfoldable pub activate_backend :
      S.Prepared → Option (IngestionJob S.Prepared) → Coordinator S → Point S × Coordinator S
  activate_backend p none s = (finished, s)
  activate_backend p (some job) s =
      if terminal job.status
      then (finished, s)
      else if revision_at job.input.document s.latest_revision == job.revision
      then activate_current p job (touched job.input.document s)
      else (finished, touched job.input.document s)

  -- One piece of `execute(id)`; `now` is what `now_ms()` reads in it.
  unfoldable pub exec_step : JobId → ℕ → Point S → Coordinator S → Point S × Coordinator S
  exec_step id now enter s = (entered (find id s.jobs), s)
  exec_step id now erase_publish s =
      after_transition erase_call (transition id publishing none none none now s)
  exec_step id now erase_call s = erase_backend (find id s.jobs) s
  exec_step id now (erase_ready applied) s =
      after_transition notify (transition id ready none none (some applied) now s)
  exec_step id now chunk s =
      after_transition read_input (transition id chunking none none none now s)
  exec_step id now read_input s = (input_of (find id s.jobs), s)
  exec_step id now (preparing input) s = (prepared_or embed (S.prepare input), s)
  exec_step id now (embed p) s =
      after_transition (embedding_run p) (transition id embedding none none none now s)
  exec_step id now (embedding_run p) s =
      (if s.config.has_embedder then prepared_or publish (S.embed p) else publish p, s)
  exec_step id now (publish p) s =
      after_transition (activating p) (transition id publishing none (some p) none now s)
  exec_step id now (activating p) s = activate_backend p (find id s.jobs) s
  exec_step id now (set_ready p) s =
      after_transition notify (transition id ready none (some p) none now s)
  exec_step id now notify s = (
    finished,
    record s { notified = if s.config.has_on_ready then s.notified + 1 else s.notified },
  )
  exec_step id now (failing e) s =
      after_failure (transition id failed (some (bounded_error e)) none none now s)
  exec_step id now (failing_volatile e) s = (finished, fail_volatile id e now s)
  exec_step id now thrown s = (thrown, s)
  exec_step id now finished s = (finished, s)

  abbrev pub is_over : Point S → Bool
  is_over finished = true
  is_over thrown = true
  is_over _ = false

  -- `execute(id)` from a point on with no other thread in between; `clock` reads the time of each
  -- piece. It takes at most eleven pieces (`execute_finishes`).
  unfoldable pub exec_run : ℕ → JobId → (ℕ → ℕ) → Point S → Coordinator S → Point S × Coordinator S
  exec_run zero id clock pc s = (pc, s)
  exec_run (suc fuel) id clock pc s =
      exec_run fuel id clock (exec_step id (clock fuel) pc s).0 (exec_step id (clock fuel) pc s).1

  unfoldable pub execute : JobId → (ℕ → ℕ) → Coordinator S → Coordinator S
  execute id clock s = (exec_run 11 id clock enter s).1
