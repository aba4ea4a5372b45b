-- ===== src/Ingestion/Coordinator/Invariant.antt =====
-- What holds of the coordinator's maps between any two sections: a live job is its document's latest.
use llama_rag_runtime.Base.{
  ℕ, ◌≡◌, true, false, none, some, arith, inl, inr, Option-cases, Bool-cases, ◌∙◌,
}
use llama_rag_runtime.Core.Types.{Bytes}
use llama_rag_runtime.Core.Map.{
  Map, find, assign, find-assign, key_eq, key_eq_iff, find-assign_cases, find-assign_ne,
  find-assign_self,
}
use llama_rag_runtime.Ingestion.Job.{JobId, terminal, IngestionJob}
use llama_rag_runtime.Ingestion.Coordinator.State.{revision_at, touch}

pub revision_at-touch : (d e : Bytes) (m : Map ℕ) → revision_at d (touch e m) ≡ revision_at d m
unfolding revision_at touch
revision_at-touch d e m = elim (Option-cases (find e m)) [
  | inl missing ↦ rw (missing, touch) (ground (arith, find-assign e d 0 m, key_eq_iff e d, missing))
  | inr (r, there) ↦ rw (there, touch)
]

module _ {P : Type 0} where
  pub record Inv (jobs : Map (IngestionJob P)) (revisions : Map ℕ) (latest : Map JobId)
      : Type 0 where
    -- A job stands under its own identifier.
    pub keyed : (k : JobId) (j : IngestionJob P) → find k jobs ≡ some j → j.id ≡ k
    -- A job that is not over is the latest of its document.
    pub current :
        (k : JobId) (j : IngestionJob P)
        → find k jobs ≡ some j
        → terminal j.status ≡ false
        → (find j.input.document latest ≡ some k)
          × (revision_at j.input.document revisions ≡ j.revision)
    -- The latest job of a document is known.
    pub known :
        (d : Bytes) (k : JobId)
        → find d latest ≡ some k
        → (j : IngestionJob P) × (find k jobs ≡ some j) × (j.input.document ≡ d)

  -- `new` may stand where `old` stood: it is the same job, and live only if that was.
  pub record Succeeds (old new : IngestionJob P) : Type 0 where
    pub same_id : new.id ≡ old.id
    pub same_document : new.input.document ≡ old.input.document
    pub same_revision : new.revision ≡ old.revision
    pub live_before : terminal new.status ≡ false → terminal old.status ≡ false

  pub replace-Inv :
      (jobs : Map (IngestionJob P)) (revisions : Map ℕ) (latest : Map JobId) (k : JobId)
      (old new : IngestionJob P)
      → Inv jobs revisions latest
      → find k jobs ≡ some old
      → Succeeds old new
      → Inv (assign k new jobs) revisions latest
  replace-Inv jobs revisions latest k old new v e h = record {
    keyed = λ i j p.
        ground (arith, find-assign_cases k i new j jobs p, v.keyed i j, v.keyed k old e, h.same_id);
    current = λ i j p live. elim (find-assign_cases k i new j jobs p) [
      | inl (here, is_new) ↦
          ground (
            arith,
            here,
            is_new,
            h.live_before,
            h.same_document,
            h.same_revision,
            v.current k old e,
          )
      | inr (_, there) ↦ v.current i j there live
    ];
    known = λ d i p. elim (Bool-cases (key_eq k i)) [
      | inl same ↦
          let (j, found, doc) = v.known d i p in
          (
            new,
            ground (arith, find-assign k i new jobs),
            ground (arith, found, doc, e, h.same_document, key_eq_iff k i),
          )
      | inr other ↦
          let (j, found, doc) = v.known d i p in
          (j, rw (find-assign_ne k i new jobs other) found, doc)
    ];
  }

  -- The invariant looks at the revisions through `revision_at` only.
  pub touch-Inv :
      (jobs : Map (IngestionJob P)) (revisions : Map ℕ) (latest : Map JobId) (e : Bytes)
      → Inv jobs revisions latest
      → Inv jobs (touch e revisions) latest
  touch-Inv jobs revisions latest e v = record {
    keyed = v.keyed;
    current = λ k j p live. (
      (v.current k j p live).0,
      revision_at-touch j.input.document e revisions ∙ (v.current k j p live).1,
    );
    known = v.known;
  }

  -- A new job may be registered where no job of its document is live.
  pub register-Inv :
      (jobs : Map (IngestionJob P)) (revisions : Map ℕ) (latest : Map JobId) (job : IngestionJob P)
      → Inv jobs revisions latest
      → find job.id jobs ≡ none
      → ((k : JobId) (j : IngestionJob P)
          → find k jobs ≡ some j
          → j.input.document ≡ job.input.document
          → terminal j.status ≡ true)
      → Inv
          (assign job.id job jobs)
          (assign job.input.document job.revision revisions)
          (assign job.input.document job.id latest)
  unfolding revision_at
  register-Inv jobs revisions latest job v fresh over = record {
    keyed = λ i j p. ground (arith, find-assign_cases job.id i job j jobs p, v.keyed i j);
    current = λ i j p live. elim (find-assign_cases job.id i job j jobs p) [
      | inl (here, is_new) ↦ ground (
        arith,
        here,
        is_new,
        find-assign_self job.input.document job.id latest,
        find-assign_self job.input.document job.revision revisions,
      )
      | inr (_, there) ↦ ground (
        arith,
        over i j there,
        live,
        v.current i j there live,
        key_eq_iff job.input.document j.input.document,
        find-assign job.input.document j.input.document job.id latest,
        find-assign job.input.document j.input.document job.revision revisions,
      )
    ];
    known = λ d i p. elim (find-assign_cases job.input.document d job.id i latest p) [
      | inl (here, is_new) ↦ (job, rw is_new (find-assign_self job.id job jobs), here)
      | inr (_, there) ↦
          let (j, found, doc) = v.known d i there in
          (j, ground (arith, find-assign job.id i job jobs, key_eq_iff job.id i, fresh, found), doc)
    ];
  }
