-- ===== src/Ingestion/Coordinator/Admission.antt =====
-- `submit` and `erase` of coordinator.cpp evolve the coordinator: the job they admit is new, and the
-- live job that it overtakes is superseded.
use llama_rag_runtime.Base.{
  ℕ, ◌≡◌, refl, Bool, true, false, Option, none, some, arith, inl, inr, Option-cases, Bool-cases,
  ◌||◌, ◌&&◌, leb, length,
}
use llama_rag_runtime.Core.Types.{Bytes, ascii, Result-cases}
use llama_rag_runtime.Core.Map.{Map, find, assign, find-assign, find-assign_self, key_eq_iff}
use llama_rag_runtime.Ingestion.Job.{JobId, upsert, erase, terminal, IngestionInput, IngestionJob}
use llama_rag_runtime.Ingestion.Coordinator.State.{Services, Coordinator, touched}
use llama_rag_runtime.Ingestion.Coordinator.Transition.{retired}
use llama_rag_runtime.Ingestion.Coordinator.Submit.{
  Locked, refused, replied, waiting, created, escaped, register, supersede, overtake, admit,
  enqueue, submit_new, reuse, reuse_or, submit_locked, submit, erase_document, new_job, deletion_of,
  is_empty, normalized, fingerprint,
}
use llama_rag_runtime.Ingestion.Coordinator.Invariant.{Inv, register-Inv}
use llama_rag_runtime.Ingestion.Coordinator.Evolution.{
  IsConsistent, Evolves, Evolves-same, Evolves-trans, Evolves-touched, Evolves-write,
  retired-Succeeds,
}

module _ {P : Type 0} where
  -- Every job of the document is over.
  abbrev AllOver : Map (IngestionJob P) → Bytes → Type 0
  AllOver jobs d =
      (k : JobId) (j : IngestionJob P)
      → find k jobs ≡ some j
      → j.input.document ≡ d
      → terminal j.status ≡ true

  -- No job of a document is live if it has no latest job, or one that is over.
  over_without_latest :
      (jobs : Map (IngestionJob P)) (revisions : Map ℕ) (latest : Map JobId) (d : Bytes)
      → Inv jobs revisions latest
      → find d latest ≡ none
      → AllOver jobs d
  over_without_latest jobs revisions latest d v missing k j there doc =
      elim (Bool-cases (terminal j.status)) [
        | inl over ↦ over
        | inr live ↦ ground (arith, v.current k j there live, doc, missing)
      ]

  over_with_latest :
      (jobs : Map (IngestionJob P)) (revisions : Map ℕ) (latest : Map JobId) (d : Bytes) (l : JobId)
      (older : IngestionJob P)
      → Inv jobs revisions latest
      → find d latest ≡ some l
      → find l jobs ≡ some older
      → terminal older.status ≡ true
      → AllOver jobs d
  over_with_latest jobs revisions latest d l older v newest found is_over k j there doc =
      elim (Bool-cases (terminal j.status)) [
        | inl over ↦ over
        | inr live ↦ ground (arith, v.current k j there live, doc, newest, found, is_over, there)
      ]

  fresh_after :
      (k l : JobId) (old new : IngestionJob P) (jobs : Map (IngestionJob P))
      → find k jobs ≡ none
      → find l jobs ≡ some old
      → find k (assign l new jobs) ≡ none
  fresh_after k l old new jobs missing there =
      ground (arith, find-assign l k new jobs, key_eq_iff l k, missing, there)

  retired_over : (now : ℕ) (job : IngestionJob P) → terminal (retired now job).status ≡ true
  unfolding retired terminal
  retired_over now job = refl

module _ {S : Services} where
  register-Evolves :
      (job : IngestionJob S.Prepared) (s : Coordinator S)
      → find job.id s.jobs ≡ none
      → (IsConsistent s → AllOver s.jobs job.input.document)
      → Evolves s (register job s)
  unfolding register
  register-Evolves job s fresh over = record {
    consistent = λ v. register-Inv s.jobs s.latest_revision s.latest_job job v fresh (over v);
    becomes = λ k j there. (
      j,
      ground (arith, find-assign job.id k job s.jobs, key_eq_iff job.id k, fresh, there),
      inl refl,
    );
  }

  -- The successful end of `supersede`, for any store.
  superseded-Evolves :
      (job : IngestionJob S.Prepared) (l : JobId) (older : IngestionJob S.Prepared) (later : ℕ)
      (store : S.Store) (s : Coordinator S)
      → find job.id s.jobs ≡ none
      → find job.input.document s.latest_job ≡ some l
      → find l s.jobs ≡ some older
      → terminal older.status ≡ false
      → Evolves s
          (register job (record s { store = store; jobs = assign l (retired later older) s.jobs }))
  unfolding retired
  superseded-Evolves job l older later store s fresh newest there live =
      let mid : Coordinator S = record s {
        store = store;
        jobs = assign l (retired later older) s.jobs;
      } in
      Evolves-trans s mid _
        (Evolves-write s mid l older (retired later older) there live
          (retired-Succeeds later older older.error) refl refl refl)
        (register-Evolves job mid
          (fresh_after job.id l older (retired later older) s.jobs fresh there)
          (λ v.
            over_with_latest mid.jobs mid.latest_revision mid.latest_job job.input.document l
              (retired later older) v newest (find-assign_self l (retired later older) s.jobs)
              (retired_over later older)))

  supersede-Evolves :
      (job : IngestionJob S.Prepared) (l : JobId) (older : IngestionJob S.Prepared) (later : ℕ)
      (s : Coordinator S)
      → find job.id s.jobs ≡ none
      → find job.input.document s.latest_job ≡ some l
      → find l s.jobs ≡ some older
      → Evolves s (supersede job l (some older) later s).1
  unfolding supersede
  supersede-Evolves job l older later s fresh newest there =
      elim (Bool-cases (terminal older.status)) [
        | inl over ↦ simp over (
            register-Evolves job s fresh (λ v.
              over_with_latest s.jobs s.latest_revision s.latest_job job.input.document l older v
                newest there over))
        | inr live ↦ elim (Result-cases (S.persist (retired later older) s.store).0) [
          | inr (_, p) ↦ simp (live, p) (Evolves-same s _ refl refl refl)
          | inl (_, p) ↦
              simp (live, p) (superseded-Evolves job l older later _ s fresh newest there live)
        ]
      ]

  supersede_any :
      (job : IngestionJob S.Prepared) (l : JobId) (later : ℕ) (s : Coordinator S)
      → find job.id s.jobs ≡ none
      → find job.input.document s.latest_job ≡ some l
      → (o : Option (IngestionJob S.Prepared)) → find l s.jobs ≡ o
      → Evolves s (supersede job l o later s).1
  unfolding supersede
  supersede_any job l later s fresh newest none e = Evolves-same s s refl refl refl
  supersede_any job l later s fresh newest (some older) e =
      supersede-Evolves job l older later s fresh newest e

  overtake-Evolves :
      (job : IngestionJob S.Prepared) (later : ℕ) (s : Coordinator S)
      → find job.id s.jobs ≡ none
      → (o : Option JobId) → find job.input.document s.latest_job ≡ o
      → Evolves s (overtake job o later s).1
  unfolding overtake
  overtake-Evolves job later s fresh none missing =
      register-Evolves job s fresh (λ v.
        over_without_latest s.jobs s.latest_revision s.latest_job job.input.document v missing)
  overtake-Evolves job later s fresh (some l) newest =
      supersede_any job l later s fresh newest (find l s.jobs) refl

  admit-Evolves :
      (job : IngestionJob S.Prepared) (later : ℕ) (s : Coordinator S)
      → find job.id s.jobs ≡ none
      → Evolves s (admit job later s).1
  unfolding admit
  admit-Evolves job later s fresh = elim (Result-cases (S.persist job s.store).0) [
    | inr (_, p) ↦ simp p (Evolves-same s _ refl refl refl)
    | inl (_, p) ↦ simp p (
        Evolves-trans s _ _
          (Evolves-same s (record s { store = (S.persist job s.store).1 }) refl refl refl)
          (overtake-Evolves job later (record s { store = (S.persist job s.store).1 }) fresh
            (find job.input.document s.latest_job) refl))
  ]

  admit-touched-Evolves :
      (job : IngestionJob S.Prepared) (d : Bytes) (later : ℕ) (s : Coordinator S)
      → find job.id s.jobs ≡ none
      → Evolves s (admit job later (touched d s)).1
  unfolding touched
  admit-touched-Evolves job d later s fresh =
      Evolves-trans s (touched d s) _ (Evolves-touched d s)
        (admit-Evolves job later (touched d s) fresh)

  enqueue-Evolves :
      (s : Coordinator S) (asynchronous : Bool) (r : Locked S × Coordinator S)
      → Evolves s r.1
      → Evolves s (enqueue asynchronous r).1
  unfolding enqueue
  enqueue-Evolves s true (created job, t) f =
      Evolves-trans s t _ f (Evolves-same t _ refl refl refl)
  enqueue-Evolves s true (refused e, t) f = f
  enqueue-Evolves s true (replied x, t) f = f
  enqueue-Evolves s true (waiting x, t) f = f
  enqueue-Evolves s true (escaped, t) f = f
  enqueue-Evolves s false r f = f

  submit_new-Evolves :
      (id : JobId) (input : IngestionInput) (hash : Bytes) (asynchronous : Bool) (now later : ℕ)
      (s : Coordinator S)
      → find id s.jobs ≡ none
      → Evolves s (submit_new id input hash asynchronous now later s).1
  unfolding submit_new new_job
  submit_new-Evolves id input hash asynchronous now later s fresh =
      elim (Bool-cases (asynchronous && leb s.config.queue_capacity (length s.queue))) [
        | inl over ↦ rw over (Evolves-same s s refl refl refl)
        | inr room ↦ rw room (
            enqueue-Evolves s asynchronous _ (
              admit-touched-Evolves (new_job id upsert input hash now s) input.document later s
                fresh))
      ]

  reuse_or-Evolves :
      (o : Option (Locked S)) (fresh : Locked S × Coordinator S) (s : Coordinator S)
      → Evolves s fresh.1
      → Evolves s (reuse_or o fresh s).1
  reuse_or-Evolves none fresh s f = f
  reuse_or-Evolves (some answer) fresh s f = Evolves-same s s refl refl refl

  submit_locked-Evolves :
      (id : JobId) (input : IngestionInput) (hash : Bytes) (asynchronous : Bool) (now later : ℕ)
      (s : Coordinator S)
      → find id s.jobs ≡ none
      → Evolves s (submit_locked id input hash asynchronous now later s).1
  unfolding submit_locked
  submit_locked-Evolves id input hash asynchronous now later s fresh =
      elim (Option-cases (find input.document s.latest_job)) [
        | inl missing ↦
            rw (missing, submit_locked)
              (submit_new-Evolves id input hash asynchronous now later s fresh)
        | inr (l, newest) ↦ elim (Option-cases (find l s.jobs)) [
          | inl gone ↦ rw (newest, submit_locked) (rw gone (Evolves-same s s refl refl refl))
          | inr (job, there) ↦
              rw (newest, submit_locked)
                (rw there (
                  reuse_or-Evolves (reuse job hash asynchronous) _ s
                    (submit_new-Evolves id input hash asynchronous now later s fresh)))
        ]
      ]

  -- `submit` with a new identifier.
  pub submit-Evolves :
      (id : JobId) (input : IngestionInput) (asynchronous : Bool) (now later : ℕ)
      (s : Coordinator S)
      → find id s.jobs ≡ none
      → Evolves s (submit id input asynchronous now later s).1
  unfolding submit
  submit-Evolves id input asynchronous now later s fresh =
      elim (Bool-cases (is_empty input.document || is_empty input.content)) [
        | inl empty ↦ rw empty (Evolves-same s s refl refl refl)
        | inr full ↦ elim (Bool-cases s.stopping) [
          | inl stopping ↦ simp (full, stopping) (Evolves-same s s refl refl refl)
          | inr running ↦
              simp (full, running)
                (submit_locked-Evolves id (normalized input) (fingerprint (normalized input))
                  asynchronous now later s fresh)
        ]
      ]

  -- `erase` with a new identifier.
  pub erase_document-Evolves :
      (id : JobId) (document : Bytes) (now later : ℕ) (s : Coordinator S)
      → find id s.jobs ≡ none
      → Evolves s (erase_document id document now later s).1
  unfolding erase_document new_job
  erase_document-Evolves id document now later s fresh = elim (Bool-cases (is_empty document)) [
    | inl empty ↦ rw empty (Evolves-same s s refl refl refl)
    | inr full ↦ elim (Bool-cases s.stopping) [
      | inl stopping ↦ simp (full, stopping) (Evolves-same s s refl refl refl)
      | inr running ↦
          simp (full, running)
            (admit-touched-Evolves (new_job id erase (deletion_of document) (ascii "deleted") now s)
              document later s fresh)
    ]
  ]
