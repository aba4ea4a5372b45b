-- ===== src/Ingestion/Coordinator/Sections.antt =====
-- Each section of `execute`, `submit`, `erase` and the workers evolves the coordinator.
use llama_rag_runtime.Base.{
  ℕ, ◌≡◌, refl, Bool, true, false, Option, none, some, inl, inr, Bool-cases, ◌==◌,
}
use llama_rag_runtime.Core.Types.{Result, ok, err, Result-cases}
use llama_rag_runtime.Core.Map.{find}
use llama_rag_runtime.Ingestion.Job.{JobId, JobStatus, terminal, JobError, IngestionJob}
use llama_rag_runtime.Ingestion.Coordinator.State.{Services, Coordinator, revision_at, touched}
use llama_rag_runtime.Ingestion.Coordinator.Transition.{transition}
use llama_rag_runtime.Ingestion.Coordinator.Execute.{
  Point, enter, erase_publish, erase_call, erase_ready, chunk, read_input, preparing, embed,
  embedding_run, publish, activating, set_ready, notify, failing, failing_volatile, thrown,
  finished, after_transition, after_failure, exec_step, erase_backend, activate_backend,
  activate_current,
}
use llama_rag_runtime.Ingestion.Coordinator.Evolution.{
  Evolves, Evolves-same, Evolves-trans, Evolves-touched, transition-Evolves, fail_volatile-Evolves,
}

module _ {S : Services} where
  after_transition_state :
      (next : Point S) (r : Result Bool × Coordinator S) → (after_transition next r).1 ≡ r.1
  after_transition_state next (ok true, s) = refl
  after_transition_state next (ok false, s) = refl
  after_transition_state next (err e, s) = refl

  after_failure_state : (r : Result Bool × Coordinator S) → (after_failure r).1 ≡ r.1
  after_failure_state (ok b, s) = refl
  after_failure_state (err e, s) = refl

  transition_then :
      (k : JobId) (status : JobStatus) (error : Option JobError) (p : Option S.Prepared)
      (a : Option Bool) (now : ℕ) (next : Point S) (s : Coordinator S)
      → Evolves s (after_transition next (transition k status error p a now s)).1
  transition_then k status error p a now next s =
      rw (after_transition_state next (transition k status error p a now s))
        (transition-Evolves k status error p a now s)

  erase_backend-Evolves :
      (o : Option (IngestionJob S.Prepared)) (s : Coordinator S) → Evolves s (erase_backend o s).1
  unfolding erase_backend
  erase_backend-Evolves none s = Evolves-same s s refl refl refl
  erase_backend-Evolves (some job) s =
      elim (Result-cases (S.erase job.input.document job.revision s.backend).0) [
        | inl (_, p) ↦ rw (p, erase_backend) (Evolves-same s _ refl refl refl)
        | inr (_, p) ↦ rw (p, erase_backend) (Evolves-same s _ refl refl refl)
      ]

  activate_current-Evolves :
      (p : S.Prepared) (job : IngestionJob S.Prepared) (s : Coordinator S)
      → Evolves s (activate_current p job s).1
  unfolding activate_current
  activate_current-Evolves p job s = elim (Result-cases (S.activate p job.revision s.backend).0) [
    | inl (_, e) ↦ rw (e, activate_current) (Evolves-same s _ refl refl refl)
    | inr (_, e) ↦ rw (e, activate_current) (Evolves-same s _ refl refl refl)
  ]

  activate_backend-Evolves :
      (p : S.Prepared) (o : Option (IngestionJob S.Prepared)) (s : Coordinator S)
      → Evolves s (activate_backend p o s).1
  unfolding activate_backend
  activate_backend-Evolves p none s = Evolves-same s s refl refl refl
  activate_backend-Evolves p (some job) s = elim (Bool-cases (terminal job.status)) [
    | inl over ↦ simp over (Evolves-same s s refl refl refl)
    | inr live ↦
        elim (Bool-cases (revision_at job.input.document s.latest_revision == job.revision)) [
          | inl newest ↦
              simp (live, newest)
                (Evolves-trans s (touched job.input.document s) _
                  (Evolves-touched job.input.document s)
                  (activate_current-Evolves p job (touched job.input.document s)))
          | inr overtaken ↦ simp (live, overtaken) (Evolves-touched job.input.document s)
        ]
  ]

  -- Every piece of `execute`, at any program point, of any job.
  pub exec_step-Evolves :
      (k : JobId) (now : ℕ) (pc : Point S) (s : Coordinator S) → Evolves s (exec_step k now pc s).1
  unfolding exec_step
  exec_step-Evolves k now enter s = Evolves-same s s refl refl refl
  exec_step-Evolves k now erase_publish s = transition_then k _ _ _ _ now _ s
  exec_step-Evolves k now erase_call s = erase_backend-Evolves (find k s.jobs) s
  exec_step-Evolves k now (erase_ready applied) s = transition_then k _ _ _ _ now _ s
  exec_step-Evolves k now chunk s = transition_then k _ _ _ _ now _ s
  exec_step-Evolves k now read_input s = Evolves-same s s refl refl refl
  exec_step-Evolves k now (preparing input) s = Evolves-same s s refl refl refl
  exec_step-Evolves k now (embed p) s = transition_then k _ _ _ _ now _ s
  exec_step-Evolves k now (embedding_run p) s = Evolves-same s s refl refl refl
  exec_step-Evolves k now (publish p) s = transition_then k _ _ _ _ now _ s
  exec_step-Evolves k now (activating p) s = activate_backend-Evolves p (find k s.jobs) s
  exec_step-Evolves k now (set_ready p) s = transition_then k _ _ _ _ now _ s
  exec_step-Evolves k now notify s = Evolves-same s _ refl refl refl
  exec_step-Evolves k now (failing e) s =
      rw after_failure_state (transition-Evolves k _ _ _ _ now s)
  exec_step-Evolves k now (failing_volatile e) s = fail_volatile-Evolves k e now s
  exec_step-Evolves k now thrown s = Evolves-same s s refl refl refl
  exec_step-Evolves k now finished s = Evolves-same s s refl refl refl
