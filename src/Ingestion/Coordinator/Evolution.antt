-- ===== src/Ingestion/Coordinator/Evolution.antt =====
-- How any section of the coordinator changes its jobs: a job that is over is never changed again, a
-- live one keeps its identity, and the maps stay consistent.
use llama_rag_runtime.Base.{
  ℕ, ◌≡◌, refl, Bool, true, false, Option, none, some, arith, ◌⊎◌, inl, inr, Option-cases,
  Bool-cases, ◌==◌, sym, ◌∙◌, subst,
}
use llama_rag_runtime.Core.Types.{Bytes, Error, Result, ok, err, Result-cases}
use llama_rag_runtime.Core.Map.{find, assign, find-assign, find-assign_ne, key_eq, key_eq_iff}
use llama_rag_runtime.Ingestion.Job.{JobId, JobStatus, terminal, JobError, IngestionJob}
use llama_rag_runtime.Ingestion.Coordinator.State.{Services, Coordinator, revision_at, touched}
use llama_rag_runtime.Ingestion.Coordinator.Transition.{
  retired, moved, save_job, answer, transition_job, transition, volatile, fail_volatile,
}
use llama_rag_runtime.Ingestion.Coordinator.Invariant.{Inv, Succeeds, replace-Inv, touch-Inv}

module _ {P : Type 0} where
  -- A job may stay as it is; if it is live, it may be succeeded.
  abbrev pub Becomes : IngestionJob P → IngestionJob P → Type 0
  Becomes old new = (new ≡ old) ⊎ ((terminal old.status ≡ false) × Succeeds old new)

  Becomes-trans : (i j k : IngestionJob P) → Becomes i j → Becomes j k → Becomes i k
  Becomes-trans i j k (inl p) (inl q) = inl (q ∙ p)
  Becomes-trans i j k (inl p) (inr q) = subst (λ (t : IngestionJob P). Becomes t k) p (inr q)
  Becomes-trans i j k (inr p) (inl q) = inr (p.0, subst (Succeeds i) (sym q) p.1)
  Becomes-trans i j k (inr p) (inr q) = inr (p.0, ground (arith, p.1, q.1))

  moved-Succeeds :
      (status : JobStatus) (error : Option JobError) (p : Option P) (a : Option Bool) (now : ℕ)
      (job : IngestionJob P)
      → terminal job.status ≡ false
      → Succeeds job (moved status error p a now job)
  unfolding moved
  moved-Succeeds status error p a now job live = ground arith

  pub retired-Succeeds :
      (now : ℕ) (job : IngestionJob P) (error : Option JobError)
      → Succeeds job (record (retired now job) { error = error })
  unfolding retired terminal
  retired-Succeeds now job error = ground arith

module _ {S : Services} where
  abbrev pub IsConsistent : Coordinator S → Type 0
  IsConsistent s = Inv s.jobs s.latest_revision s.latest_job

  pub record Evolves (s t : Coordinator S) : Type 0 where
    pub consistent : IsConsistent s → IsConsistent t
    pub becomes :
        (k : JobId) (j : IngestionJob S.Prepared)
        → find k s.jobs ≡ some j
        → (i : IngestionJob S.Prepared) × (find k t.jobs ≡ some i) × Becomes j i

  -- What leaves the maps alone.
  pub Evolves-same :
      (s t : Coordinator S)
      → t.jobs ≡ s.jobs
      → t.latest_revision ≡ s.latest_revision
      → t.latest_job ≡ s.latest_job
      → Evolves s t
  Evolves-same s t p q r = record {
    consistent = λ v. rw (p, q, r) v;
    becomes = λ k j e. (j, rw p e, inl refl);
  }

  pub Evolves-trans : (s t u : Coordinator S) → Evolves s t → Evolves t u → Evolves s u
  Evolves-trans s t u f g = record {
    consistent = λ v. g.consistent (f.consistent v);
    becomes = λ k j e.
        let (i, there, b) = f.becomes k j e in
        let (h, later, c) = g.becomes k i there in (h, later, Becomes-trans j i h b c);
  }

  pub Evolves-touched : (d : Bytes) (s : Coordinator S) → Evolves s (touched d s)
  unfolding touched
  Evolves-touched d s = record {
    consistent = touch-Inv s.jobs s.latest_revision s.latest_job d;
    becomes = λ k j e. (j, e, inl refl);
  }

  -- A live job is replaced by a successor.
  pub Evolves-write :
      (s t : Coordinator S) (k : JobId) (old new : IngestionJob S.Prepared)
      → find k s.jobs ≡ some old
      → terminal old.status ≡ false
      → Succeeds old new
      → t.jobs ≡ assign k new s.jobs
      → t.latest_revision ≡ s.latest_revision
      → t.latest_job ≡ s.latest_job
      → Evolves s t
  Evolves-write s t k old new e live h p q r = record {
    consistent =
        λ v. rw (p, q, r) (replace-Inv s.jobs s.latest_revision s.latest_job k old new v e h);
    becomes = λ i j there. elim (Bool-cases (key_eq k i)) [
      | inl same ↦ (
        new,
        rw p (ground (arith, find-assign k i new s.jobs)),
        inr (ground (arith, e, there, key_eq_iff k i, live, h)),
      )
      | inr other ↦ (j, rw (p, find-assign_ne k i new s.jobs other) there, inl refl)
    ];
  }

  save_job-Evolves :
      (k : JobId) (old new : IngestionJob S.Prepared) (s : Coordinator S)
      → find k s.jobs ≡ some old
      → terminal old.status ≡ false
      → Succeeds old new
      → Evolves s (save_job k new s).1
  unfolding save_job
  save_job-Evolves k old new s e live h = elim (Result-cases (S.persist new s.store).0) [
    | inl (_, p) ↦ rw (p, save_job) (Evolves-write s _ k old new e live h refl refl refl)
    | inr (why, p) ↦ rw (p, save_job) (Evolves-same s _ refl refl refl)
  ]

  answer_state : (b : Bool) (r : Result (Unit {0}) × Coordinator S) → (answer b r).1 ≡ r.1
  answer_state b (ok _, s) = refl
  answer_state b (err e, s) = refl

  -- A write after the entry of the document in the revisions.
  saved-Evolves :
      (b : Bool) (k : JobId) (old new : IngestionJob S.Prepared) (d : Bytes) (s : Coordinator S)
      → find k s.jobs ≡ some old
      → terminal old.status ≡ false
      → Succeeds old new
      → Evolves s (answer b (save_job k new (touched d s))).1
  unfolding touched
  saved-Evolves b k old new d s e live h = rw (answer_state b (save_job k new (touched d s))) (
      Evolves-trans s (touched d s) _ (Evolves-touched d s)
        (save_job-Evolves k old new (touched d s) e live h))

  transition_job-Evolves :
      (k : JobId) (job : IngestionJob S.Prepared) (status : JobStatus) (error : Option JobError)
      (p : Option S.Prepared) (a : Option Bool) (now : ℕ) (s : Coordinator S)
      → find k s.jobs ≡ some job
      → Evolves s (transition_job k job status error p a now s).1
  unfolding transition_job
  transition_job-Evolves k job status error p a now s there =
      elim (Bool-cases (terminal job.status)) [
        | inl over ↦ rw (over, transition_job) (Evolves-same s s refl refl refl)
        | inr live ↦
            elim (Bool-cases (revision_at job.input.document s.latest_revision == job.revision)) [
              | inl newest ↦
                  simp (live, newest, transition_job)
                    (saved-Evolves true k job _ job.input.document s there live
                      (moved-Succeeds status error p a now job live))
              | inr overtaken ↦
                  simp (live, overtaken, transition_job)
                    (saved-Evolves false k job _ job.input.document s there live
                      (retired-Succeeds now job none))
            ]
      ]

  -- A transition of any job to any status.
  pub transition-Evolves :
      (k : JobId) (status : JobStatus) (error : Option JobError) (p : Option S.Prepared)
      (a : Option Bool) (now : ℕ) (s : Coordinator S)
      → Evolves s (transition k status error p a now s).1
  unfolding transition
  transition-Evolves k status error p a now s = elim (Option-cases (find k s.jobs)) [
    | inl missing ↦ rw (missing, transition) (Evolves-same s s refl refl refl)
    | inr (job, there) ↦
        rw (there, transition) (transition_job-Evolves k job status error p a now s there)
  ]

  volatile-Succeeds :
      (e : Error) (now : ℕ) (s : Coordinator S) (job : IngestionJob S.Prepared)
      → terminal job.status ≡ false
      → Succeeds job (volatile e now s job)
  unfolding volatile
  volatile-Succeeds e now s job live = record {
    same_id = refl;
    same_document = refl;
    same_revision = refl;
    live_before = λ _. live;
  }

  pub fail_volatile-Evolves :
      (k : JobId) (e : Error) (now : ℕ) (s : Coordinator S) → Evolves s (fail_volatile k e now s)
  unfolding fail_volatile touched
  fail_volatile-Evolves k e now s = elim (Option-cases (find k s.jobs)) [
    | inl missing ↦ rw (missing, fail_volatile) (Evolves-same s s refl refl refl)
    | inr (job, there) ↦ elim (Bool-cases (terminal job.status)) [
      | inl over ↦ rw (there, fail_volatile) (rw over (Evolves-same s s refl refl refl))
      | inr live ↦
          rw (there, fail_volatile)
            (simp live (
              Evolves-trans s (touched job.input.document s) _
                (Evolves-touched job.input.document s)
                (Evolves-write (touched job.input.document s) _ k job (volatile e now s job) there
                  live (volatile-Succeeds e now s job live) refl refl refl)))
    ]
  ]
