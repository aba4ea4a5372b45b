-- ===== src/Ingestion/Coordinator/Publication.antt =====
-- What reaches the backend (coordinator.cpp): the activation and the deletion of a job's document.
use llama_rag_runtime.Base.{
  ℕ, ◌≡◌, refl, Bool, true, false, Option, some, arith, ◌⊎◌, inl, inr, Bool-cases, Option-cases,
  ◌==◌, ◌∙◌,
}
use llama_rag_runtime.Core.Types.{Error, Result, ok, err, Result-cases}
use llama_rag_runtime.Core.Map.{find}
use llama_rag_runtime.Ingestion.Job.{JobId, JobStatus, terminal, JobError, IngestionJob}
use llama_rag_runtime.Ingestion.Coordinator.State.{Services, Coordinator, revision_at, touched}
use llama_rag_runtime.Ingestion.Coordinator.Transition.{
  transition, transition_job, save_job, answer, fail_volatile,
}
use llama_rag_runtime.Ingestion.Coordinator.Execute.{
  Point, enter, erase_publish, erase_call, erase_ready, chunk, read_input, preparing, embed,
  embedding_run, publish, activating, set_ready, notify, failing, failing_volatile, thrown,
  finished, after_transition, after_failure, exec_step, erase_backend, activate_backend,
  activate_current,
}

module _ {S : Services} where
  -- The live job with its document's latest revision is activated under that revision.
  abbrev Activates : JobId → S.Prepared → Coordinator S → S.Backend → Type 0
  Activates k p s b =
      (job : IngestionJob S.Prepared) × (find k s.jobs ≡ some job)
      × (terminal job.status ≡ false)
      × (revision_at job.input.document s.latest_revision ≡ job.revision)
      × (b ≡ (S.activate p job.revision s.backend).1)

  -- The job's document is erased under the job's revision.
  abbrev Erases : JobId → Coordinator S → S.Backend → Type 0
  Erases k s b =
      (job : IngestionJob S.Prepared) × (find k s.jobs ≡ some job)
      × (b ≡ (S.erase job.input.document job.revision s.backend).1)

  -- What a point may do to the backend.
  abbrev pub Publishes : JobId → Point S → Coordinator S → S.Backend → Type 0
  Publishes k (activating p) s b = (b ≡ s.backend) ⊎ Activates k p s b
  Publishes k erase_call s b = (b ≡ s.backend) ⊎ Erases k s b
  Publishes k _ s b = b ≡ s.backend

  save_job_backend :
      (b : Bool) (k : JobId) (job : IngestionJob S.Prepared) (s : Coordinator S)
      → (answer b (save_job k job s)).1.backend ≡ s.backend
  unfolding save_job
  save_job_backend b k job s = elim (Result-cases (S.persist job s.store).0) [
    | inl (_, p) ↦ rw (p, save_job) refl
    | inr (_, p) ↦ rw (p, save_job) refl
  ]

  transition_job_backend :
      (k : JobId) (job : IngestionJob S.Prepared) (status : JobStatus) (error : Option JobError)
      (p : Option S.Prepared) (a : Option Bool) (now : ℕ) (s : Coordinator S)
      → (transition_job k job status error p a now s).1.backend ≡ s.backend
  unfolding transition_job touched
  transition_job_backend k job status error p a now s = elim (Bool-cases (terminal job.status)) [
    | inl over ↦ rw (over, transition_job) refl
    | inr live ↦
        elim (Bool-cases (revision_at job.input.document s.latest_revision == job.revision)) [
          | inl newest ↦
              simp (live, newest, transition_job)
                (save_job_backend true k _ (touched job.input.document s))
          | inr overtaken ↦
              simp (live, overtaken, transition_job)
                (save_job_backend false k _ (touched job.input.document s))
        ]
  ]

  transition_backend :
      (k : JobId) (status : JobStatus) (error : Option JobError) (p : Option S.Prepared)
      (a : Option Bool) (now : ℕ) (s : Coordinator S)
      → (transition k status error p a now s).1.backend ≡ s.backend
  unfolding transition
  transition_backend k status error p a now s = elim (Option-cases (find k s.jobs)) [
    | inl missing ↦ rw (missing, transition) refl
    | inr (job, there) ↦
        rw (there, transition) (transition_job_backend k job status error p a now s)
  ]

  after_transition_backend :
      (next : Point S) (r : Result Bool × Coordinator S)
      → (after_transition next r).1.backend ≡ r.1.backend
  after_transition_backend next (ok true, s) = refl
  after_transition_backend next (ok false, s) = refl
  after_transition_backend next (err e, s) = refl

  after_failure_backend :
      (r : Result Bool × Coordinator S) → (after_failure r).1.backend ≡ r.1.backend
  after_failure_backend (ok b, s) = refl
  after_failure_backend (err e, s) = refl

  fail_volatile_backend :
      (k : JobId) (e : Error) (now : ℕ) (s : Coordinator S)
      → (fail_volatile k e now s).backend ≡ s.backend
  unfolding fail_volatile touched
  fail_volatile_backend k e now s = ground arith

  transition_then_backend :
      (k : JobId) (status : JobStatus) (error : Option JobError) (p : Option S.Prepared)
      (a : Option Bool) (now : ℕ) (next : Point S) (s : Coordinator S)
      → (after_transition next (transition k status error p a now s)).1.backend ≡ s.backend
  transition_then_backend k status error p a now next s =
      after_transition_backend next (transition k status error p a now s)
      ∙ transition_backend k status error p a now s

  erase_backend-Publishes :
      (k : JobId) (s : Coordinator S)
      → ((erase_backend (find k s.jobs) s).1.backend ≡ s.backend)
        ⊎ Erases k s (erase_backend (find k s.jobs) s).1.backend
  unfolding erase_backend
  erase_backend-Publishes k s = elim (Option-cases (find k s.jobs)) [
    | inl missing ↦ rw (missing, erase_backend) (inl refl)
    | inr (job, there) ↦ elim (Result-cases (S.erase job.input.document job.revision s.backend).0) [
      | inl (_, p) ↦ inr (job, there, rw (there, p, erase_backend) refl)
      | inr (_, p) ↦ inr (job, there, rw (there, p, erase_backend) refl)
    ]
  ]

  activate_current_backend :
      (p : S.Prepared) (job : IngestionJob S.Prepared) (s : Coordinator S)
      → (activate_current p job (touched job.input.document s)).1.backend
        ≡ (S.activate p job.revision s.backend).1
  unfolding activate_current touched
  activate_current_backend p job s = elim (Result-cases (S.activate p job.revision s.backend).0) [
    | inl (_, e) ↦ rw (e, activate_current) refl
    | inr (_, e) ↦ rw (e, activate_current) refl
  ]

  activate_backend-Publishes :
      (k : JobId) (p : S.Prepared) (s : Coordinator S)
      → ((activate_backend p (find k s.jobs) s).1.backend ≡ s.backend)
        ⊎ Activates k p s (activate_backend p (find k s.jobs) s).1.backend
  unfolding activate_backend touched
  activate_backend-Publishes k p s = elim (Option-cases (find k s.jobs)) [
    | inl missing ↦ rw (missing, activate_backend) (inl refl)
    | inr (job, there) ↦
        rw (there, activate_backend)
          (elim (Bool-cases (terminal job.status)) [
            | inl over ↦ simp over (inl refl)
            | inr live ↦
                elim (Bool-cases
                  (revision_at job.input.document s.latest_revision == job.revision)) [
                    | inl newest ↦ inr (
                      job,
                      refl,
                      live,
                      ground (arith, newest),
                      simp (live, newest) (activate_current_backend p job s),
                    )
                    | inr overtaken ↦ simp (live, overtaken) (inl refl)
                  ]
          ])
  ]

  -- A piece of an execution reaches the backend at two points only: an activation is of a job that is
  -- not over, under its revision, and that is the latest of its document at that moment; a deletion
  -- is of the document and the revision of the job that is executed.
  pub publication_is_guarded :
      (k : JobId) (now : ℕ) (pc : Point S) (s : Coordinator S)
      → Publishes k pc s (exec_step k now pc s).1.backend
  unfolding exec_step
  publication_is_guarded k now enter s = refl
  publication_is_guarded k now erase_publish s = transition_then_backend k _ _ _ _ now _ s
  publication_is_guarded k now erase_call s = erase_backend-Publishes k s
  publication_is_guarded k now (erase_ready applied) s = transition_then_backend k _ _ _ _ now _ s
  publication_is_guarded k now chunk s = transition_then_backend k _ _ _ _ now _ s
  publication_is_guarded k now read_input s = refl
  publication_is_guarded k now (preparing input) s = refl
  publication_is_guarded k now (embed p) s = transition_then_backend k _ _ _ _ now _ s
  publication_is_guarded k now (embedding_run p) s = refl
  publication_is_guarded k now (publish p) s = transition_then_backend k _ _ _ _ now _ s
  publication_is_guarded k now (activating p) s = activate_backend-Publishes k p s
  publication_is_guarded k now (set_ready p) s = transition_then_backend k _ _ _ _ now _ s
  publication_is_guarded k now notify s = refl
  publication_is_guarded k now (failing e) s =
      after_failure_backend (transition k _ _ _ _ now s) ∙ transition_backend k _ _ _ _ now s
  publication_is_guarded k now (failing_volatile e) s = fail_volatile_backend k e now s
  publication_is_guarded k now thrown s = refl
  publication_is_guarded k now finished s = refl
