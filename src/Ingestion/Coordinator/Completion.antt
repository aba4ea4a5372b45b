-- ===== src/Ingestion/Coordinator/Completion.antt =====
-- An execution that no other thread interrupts leaves its job over (coordinator.cpp).
use llama_rag_runtime.Base.{
  ℕ, zero, suc, ◌≡◌, refl, Bool, true, false, Option, some, arith, inl, inr, Bool-cases, ◌==◌,
}
use llama_rag_runtime.Core.Types.{Bytes, Error, Result, ok, err, Result-cases}
use llama_rag_runtime.Core.Map.{find, assign, find-assign_self}
use llama_rag_runtime.Ingestion.Job.{
  JobId, JobStatus, JobOperation, chunking, embedding, publishing, ready, failed, terminal, upsert,
  erase, JobError, IngestionJob,
}
use llama_rag_runtime.Ingestion.Coordinator.State.{Services, Coordinator, revision_at, touched}
use llama_rag_runtime.Ingestion.Coordinator.Transition.{
  transition, transition_job, save_job, answer, moved, trimmed, retired, fail_volatile, volatile,
}
use llama_rag_runtime.Ingestion.Coordinator.Execute.{
  Point, enter, erase_publish, erase_call, erase_ready, chunk, read_input, preparing, embed,
  embedding_run, publish, activating, set_ready, notify, failing, failing_volatile, thrown,
  finished, after_transition, after_failure, exec_step, exec_run, execute, is_over, entered,
  prepared_or, erase_backend, activate_backend, activate_current,
}
use llama_rag_runtime.Ingestion.Coordinator.Evolution.{IsConsistent}
use llama_rag_runtime.Ingestion.Coordinator.Sections.{exec_step-Evolves}
use llama_rag_runtime.Ingestion.Coordinator.Progress.{execute_finishes}

module _ {P : Type 0} where
  -- The job is known, and over.
  abbrev Over : Option (IngestionJob P) → Type 0
  Over o = (j : IngestionJob P) × (o ≡ some j) × (terminal j.status ≡ true)

  -- The job is known, and has a status.
  abbrev Has : JobStatus → Option (IngestionJob P) → Type 0
  Has status o = (j : IngestionJob P) × (o ≡ some j) × (j.status ≡ status)

  abbrev Known : Option (IngestionJob P) → Type 0
  Known o = (j : IngestionJob P) × (o ≡ some j)

  moved_status :
      (status : JobStatus) (error : Option JobError) (p : Option P) (a : Option Bool) (now : ℕ)
      (job : IngestionJob P)
      → (moved status error p a now job).status ≡ status
  unfolding moved trimmed
  moved_status status error p a now job = ground arith

  retired_over : (now : ℕ) (job : IngestionJob P) → terminal (retired now job).status ≡ true
  unfolding retired terminal
  retired_over now job = refl

  known : {status : JobStatus} (o : Option (IngestionJob P)) → Has status o → Known o
  known o (j, there, e) = (j, there)

  ready-Over : (o : Option (IngestionJob P)) → Has ready o → Over o
  unfolding terminal
  ready-Over o (j, there, e) = (j, there, rw e refl)

guard_passes : (n : ℕ) → (n == n) ≡ true
guard_passes n = ground arith

module _ {S : Services} where
  -- What an execution knows of its job at a program point.
  abbrev Ends : Option (IngestionJob S.Prepared) → Point S → Type 0
  Ends o finished = Over o
  Ends o notify = Over o
  Ends o thrown = ⊥
  Ends o _ = Known o

entered-Ends :
    (S : Services) (job : IngestionJob S.Prepared) → Ends (some job) (entered {S = S} (some job))
unfolding entered
entered-Ends S job = elim (Bool-cases (terminal job.status)) [
  | inl over ↦ simp over (job, refl, over)
  | inr live ↦ simp live (go job.operation)
]
  where
    go :
        (o : JobOperation)
        → Ends {S = S} (some job) (elim o [ erase ↦ erase_publish | upsert ↦ chunk ])
    go erase = (job, refl)
    go upsert = (job, refl)

module _ {S : Services} where
  -- What a transition leaves.
  abbrev Moved : JobId → JobStatus → Result Bool × Coordinator S → Type 0
  Moved k status (ok true, t) = Has status (find k t.jobs)
  Moved k status (ok false, t) = Over (find k t.jobs)
  Moved k status (err e, t) = Known (find k t.jobs)

  jobs_touched :
      (k : JobId) (job : IngestionJob S.Prepared) (d : Bytes) (s : Coordinator S)
      → find k s.jobs ≡ some job
      → find k (touched d s).jobs ≡ some job
  unfolding touched
  jobs_touched k job d s there = there

  saved-Moved :
      (b : Bool) (k : JobId) (old new : IngestionJob S.Prepared) (status : JobStatus)
      (t : Coordinator S)
      → find k t.jobs ≡ some old
      → (b ≡ true → new.status ≡ status)
      → (b ≡ false → terminal new.status ≡ true)
      → Moved k status (answer b (save_job k new t))
  unfolding save_job
  saved-Moved b k old new status t there h g = elim (Result-cases (S.persist new t.store).0) [
    | inr (_, p) ↦ rw (p, save_job) (old, there)
    | inl (_, p) ↦ rw (p, save_job) (go b h g)
  ]
    where
      go :
          (b : Bool)
          → (b ≡ true → new.status ≡ status)
          → (b ≡ false → terminal new.status ≡ true)
          → Moved k status
              (ok b, record t { store = (S.persist new t.store).1; jobs = assign k new t.jobs })
      go true h g = (new, find-assign_self k new t.jobs, h refl)
      go false h g = (new, find-assign_self k new t.jobs, g refl)

  transition_job-Moved :
      (k : JobId) (job : IngestionJob S.Prepared) (status : JobStatus) (error : Option JobError)
      (p : Option S.Prepared) (a : Option Bool) (now : ℕ) (s : Coordinator S)
      → find k s.jobs ≡ some job
      → Moved k status (transition_job k job status error p a now s)
  unfolding transition_job
  transition_job-Moved k job status error p a now s there =
      elim (Bool-cases (terminal job.status)) [
        | inl over ↦ rw (over, transition_job) (job, there, over)
        | inr live ↦
            elim (Bool-cases (revision_at job.input.document s.latest_revision == job.revision)) [
              | inl newest ↦
                  simp (live, newest, transition_job)
                    (saved-Moved true k job _ status (touched job.input.document s)
                      (jobs_touched k job job.input.document s there)
                      (λ _. moved_status status error p a now job) (λ e. cc))
              | inr overtaken ↦
                  simp (live, overtaken, transition_job)
                    (saved-Moved false k job _ status (touched job.input.document s)
                      (jobs_touched k job job.input.document s there) (λ e. cc)
                      (λ _. retired_over now job))
            ]
      ]

  transition-Moved :
      (k : JobId) (job : IngestionJob S.Prepared) (status : JobStatus) (error : Option JobError)
      (p : Option S.Prepared) (a : Option Bool) (now : ℕ) (s : Coordinator S)
      → find k s.jobs ≡ some job
      → Moved k status (transition k status error p a now s)
  unfolding transition
  transition-Moved k job status error p a now s there =
      rw (there, transition) (transition_job-Moved k job status error p a now s there)

  after_transition-Ends :
      (k : JobId) (status : JobStatus) (next : Point S) (r : Result Bool × Coordinator S)
      → Moved k status r
      → ((o : Option (IngestionJob S.Prepared)) → Has status o → Ends o next)
      → Ends (find k (after_transition next r).1.jobs) (after_transition next r).0
  after_transition-Ends k status next (ok true, s) m f = f (find k s.jobs) m
  after_transition-Ends k status next (ok false, s) m f = m
  after_transition-Ends k status next (err e, s) m f = m

  after_failure-Ends :
      (k : JobId) (r : Result Bool × Coordinator S)
      → Moved k failed r
      → Ends (find k (after_failure r).1.jobs) (after_failure r).0
  unfolding terminal
  after_failure-Ends k (ok true, s) (j, there, e) = (j, there, rw e refl)
  after_failure-Ends k (ok false, s) m = m
  after_failure-Ends k (err e, s) m = m

  fail_volatile-Over :
      (k : JobId) (job : IngestionJob S.Prepared) (e : Error) (now : ℕ) (s : Coordinator S)
      → find k s.jobs ≡ some job
      → Over (find k (fail_volatile k e now s).jobs)
  unfolding fail_volatile volatile terminal
  fail_volatile-Over k job e now s there = elim (Bool-cases (terminal job.status)) [
    | inl over ↦ (job, ground arith, over)
    | inr live ↦ (
      volatile e now s job,
      ground (arith, find-assign_self k (volatile e now s job) s.jobs),
      ground arith,
    )
  ]

  erase_backend-Ends :
      (k : JobId) (job : IngestionJob S.Prepared) (s : Coordinator S)
      → find k s.jobs ≡ some job
      → Ends (find k (erase_backend (some job) s).1.jobs) (erase_backend (some job) s).0
  unfolding erase_backend
  erase_backend-Ends k job s there =
      elim (Result-cases (S.erase job.input.document job.revision s.backend).0) [
        | inl (_, p) ↦ rw (p, erase_backend) (job, there)
        | inr (_, p) ↦ rw (p, erase_backend) (job, there)
      ]

  activate_current-Ends :
      (p : S.Prepared) (k : JobId) (job : IngestionJob S.Prepared) (s : Coordinator S)
      → find k s.jobs ≡ some job
      → Ends (find k (activate_current p job s).1.jobs) (activate_current p job s).0
  unfolding activate_current
  activate_current-Ends p k job s there =
      elim (Result-cases (S.activate p job.revision s.backend).0) [
        | inl (_, e) ↦ rw (e, activate_current) (job, there)
        | inr (_, e) ↦ rw (e, activate_current) (job, there)
      ]

  -- A live job has the latest revision, so that the guard lets it pass.
  activate_backend-Ends :
      (p : S.Prepared) (k : JobId) (job : IngestionJob S.Prepared) (s : Coordinator S)
      → IsConsistent s
      → find k s.jobs ≡ some job
      → Ends (find k (activate_backend p (some job) s).1.jobs) (activate_backend p (some job) s).0
  unfolding activate_backend
  activate_backend-Ends p k job s v there = elim (Bool-cases (terminal job.status)) [
    | inl over ↦ simp over (job, there, over)
    | inr live ↦
        simp (live, (v.current k job there live).1, guard_passes job.revision)
          (activate_current-Ends p k job (touched job.input.document s)
            (jobs_touched k job job.input.document s there))
  ]

  prepared_or-Ends :
      (k : JobId) (next : S.Prepared → Point S) (r : Result S.Prepared) (s : Coordinator S)
      → Known (find k s.jobs)
      → ((p : S.Prepared) → Known (find k s.jobs) → Ends (find k s.jobs) (next p))
      → Ends (find k s.jobs) (prepared_or next r)
  prepared_or-Ends k next (ok p) s m f = f p m
  prepared_or-Ends k next (err e) s m f = m

  exec_step-Ends :
      (k : JobId) (now : ℕ) (pc : Point S) (s : Coordinator S)
      → IsConsistent s
      → Ends (find k s.jobs) pc
      → Ends (find k (exec_step k now pc s).1.jobs) (exec_step k now pc s).0
  unfolding exec_step
  exec_step-Ends k now enter s v (j, there) = rw there (entered-Ends S j)
  exec_step-Ends k now erase_publish s v (j, there) =
      after_transition-Ends k publishing erase_call _ (transition-Moved k j _ _ _ _ now s there)
        known
  exec_step-Ends k now erase_call s v (j, there) = simp there (erase_backend-Ends k j s there)
  exec_step-Ends k now (erase_ready applied) s v (j, there) =
      after_transition-Ends k ready notify _ (transition-Moved k j _ _ _ _ now s there) ready-Over
  exec_step-Ends k now chunk s v (j, there) =
      after_transition-Ends k chunking read_input _ (transition-Moved k j _ _ _ _ now s there) known
  exec_step-Ends k now read_input s v (j, there) = simp there (j, refl)
  exec_step-Ends k now (preparing input) s v m =
      prepared_or-Ends k embed (S.prepare input) s m (λ p m. m)
  exec_step-Ends k now (embed p) s v (j, there) =
      after_transition-Ends k embedding (embedding_run p) _
        (transition-Moved k j _ _ _ _ now s there) known
  exec_step-Ends k now (embedding_run p) s v m = elim (Bool-cases s.config.has_embedder) [
    | inl has ↦ simp has (prepared_or-Ends k publish (S.embed p) s m (λ p m. m))
    | inr hasnt ↦ simp hasnt m
  ]
  exec_step-Ends k now (publish p) s v (j, there) =
      after_transition-Ends k publishing (activating p) _ (transition-Moved k j _ _ _ _ now s there)
        known
  exec_step-Ends k now (activating p) s v (j, there) =
      simp there (activate_backend-Ends p k j s v there)
  exec_step-Ends k now (set_ready p) s v (j, there) =
      after_transition-Ends k ready notify _ (transition-Moved k j _ _ _ _ now s there) ready-Over
  exec_step-Ends k now notify s v m = m
  exec_step-Ends k now (failing e) s v (j, there) =
      after_failure-Ends k _ (transition-Moved k j _ _ _ _ now s there)
  exec_step-Ends k now (failing_volatile e) s v (j, there) = fail_volatile-Over k j e now s there
  exec_step-Ends k now thrown s v m = m
  exec_step-Ends k now finished s v m = m

  exec_run-Ends :
      (n : ℕ) (k : JobId) (clock : ℕ → ℕ) (pc : Point S) (s : Coordinator S)
      → IsConsistent s
      → Ends (find k s.jobs) pc
      → Ends (find k (exec_run n k clock pc s).1.jobs) (exec_run n k clock pc s).0
  unfolding exec_run
  exec_run-Ends zero k clock pc s v m = m
  exec_run-Ends (suc n) k clock pc s v m =
      exec_run-Ends n k clock _ _ ((exec_step-Evolves k (clock n) pc s).consistent v)
        (exec_step-Ends k (clock n) pc s v m)

  ended :
      (o : Option (IngestionJob S.Prepared)) (pc : Point S) → is_over pc ≡ true → Ends o pc → Over o
  ended o finished e m = m
  ended o thrown e m = absurd m
  ended o _ e m = absurd (ground arith)

  -- When no other thread interrupts it, the execution of a known job of a consistent coordinator leaves
  -- the job ready, failed, superseded or cancelled, whichever call of it fails.
  pub execute_over :
      (k : JobId) (job : IngestionJob S.Prepared) (clock : ℕ → ℕ) (s : Coordinator S)
      → IsConsistent s
      → find k s.jobs ≡ some job
      → (j : IngestionJob S.Prepared) × (find k (execute k clock s).jobs ≡ some j)
        × (terminal j.status ≡ true)
  unfolding execute
  execute_over k job clock s v there =
      ended _ _ (execute_finishes k clock s) (exec_run-Ends 11 k clock enter s v (job, there))
