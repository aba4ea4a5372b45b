-- ===== src/Ingestion/Coordinator/Untouched.antt =====
-- The callers of `submit` and `erase` (coordinator.cpp) leave the backend alone.
use llama_rag_runtime.Base.{
  ℕ, ◌≡◌, refl, Bool, true, false, ◌&&◌, ◌||◌, Option, none, some, inl, inr, Bool-cases,
  Option-cases, ◌∙◌, leb, length, if◌then◌else◌,
}
use llama_rag_runtime.Core.Types.{Bytes, ascii, Result-cases}
use llama_rag_runtime.Core.Map.{find}
use llama_rag_runtime.Ingestion.Job.{JobId, terminal, upsert, erase, IngestionInput, IngestionJob}
use llama_rag_runtime.Ingestion.Coordinator.State.{Services, Coordinator, touched}
use llama_rag_runtime.Ingestion.Coordinator.Transition.{retired}
use llama_rag_runtime.Ingestion.Coordinator.Submit.{
  Locked, refused, replied, waiting, created, escaped, register, supersede, overtake, admit,
  new_job, enqueue, submit_new, reuse, reuse_or, submit_locked, submit, erase_document, is_empty,
  normalized, fingerprint, deletion_of,
}

module _ {S : Services} where
  supersede_backend :
      (job : IngestionJob S.Prepared) (latest : JobId) (older : Option (IngestionJob S.Prepared))
      (later : ℕ) (s : Coordinator S)
      → (supersede job latest older later s).1.backend ≡ s.backend
  unfolding supersede register
  supersede_backend job latest none later s = refl
  supersede_backend job latest (some older) later s = elim (Bool-cases (terminal older.status)) [
    | inl over ↦ rw (over, supersede) refl
    | inr live ↦ elim (Result-cases (S.persist (retired later older) s.store).0) [
      | inl (_, p) ↦ rw (live, p, supersede) refl
      | inr (_, p) ↦ rw (live, p, supersede) refl
    ]
  ]

  overtake_backend :
      (job : IngestionJob S.Prepared) (latest : Option JobId) (later : ℕ) (s : Coordinator S)
      → (overtake job latest later s).1.backend ≡ s.backend
  unfolding overtake register
  overtake_backend job none later s = refl
  overtake_backend job (some latest) later s =
      supersede_backend job latest (find latest s.jobs) later s

  admit_backend :
      (job : IngestionJob S.Prepared) (later : ℕ) (s : Coordinator S)
      → (admit job later s).1.backend ≡ s.backend
  unfolding admit
  admit_backend job later s = elim (Result-cases (S.persist job s.store).0) [
    | inl (_, p) ↦
        rw (p, admit)
          (overtake_backend job (find job.input.document s.latest_job) later
            (record s { store = (S.persist job s.store).1 }))
    | inr (_, p) ↦ rw (p, admit) refl
  ]

  enqueue_backend :
      (asynchronous : Bool) (l : Locked S) (s : Coordinator S)
      → (enqueue asynchronous (l, s)).1.backend ≡ s.backend
  unfolding enqueue
  enqueue_backend true (created job) s = refl
  enqueue_backend true (refused e) s = refl
  enqueue_backend true (replied r) s = refl
  enqueue_backend true (waiting id) s = refl
  enqueue_backend true escaped s = refl
  enqueue_backend false l s = refl

  submit_new_backend :
      (id : JobId) (input : IngestionInput) (hash : Bytes) (asynchronous : Bool) (now later : ℕ)
      (s : Coordinator S)
      → (submit_new id input hash asynchronous now later s).1.backend ≡ s.backend
  unfolding submit_new touched
  submit_new_backend id input hash asynchronous now later s =
      let job = new_job id upsert input hash now s in
      elim (Bool-cases (asynchronous && leb s.config.queue_capacity (length s.queue))) [
        | inl full ↦ rw (full, submit_new) refl
        | inr room ↦
            rw (room, submit_new)
              (enqueue_backend asynchronous (admit job later (touched input.document s)).0
                  (admit job later (touched input.document s)).1
                ∙ admit_backend job later (touched input.document s))
      ]

  reuse_or_backend :
      (answer : Option (Locked S)) (r : Locked S × Coordinator S) (s : Coordinator S)
      → r.1.backend ≡ s.backend
      → (reuse_or answer r s).1.backend ≡ s.backend
  reuse_or_backend none r s h = h
  reuse_or_backend (some a) r s h = refl

  submit_locked_backend :
      (id : JobId) (input : IngestionInput) (hash : Bytes) (asynchronous : Bool) (now later : ℕ)
      (s : Coordinator S)
      → (submit_locked id input hash asynchronous now later s).1.backend ≡ s.backend
  unfolding submit_locked
  submit_locked_backend id input hash asynchronous now later s =
      let fresh = submit_new_backend id input hash asynchronous now later s in
      elim (Option-cases (find input.document s.latest_job)) [
        | inl first ↦ rw (first, submit_locked) fresh
        | inr (latest, there) ↦ elim (Option-cases (find latest s.jobs)) [
          | inl missing ↦ rw (there, missing, submit_locked) refl
          | inr (job, known) ↦
              rw (there, known, submit_locked)
                (reuse_or_backend (reuse job hash asynchronous)
                  (submit_new id input hash asynchronous now later s) s fresh)
        ]
      ]

  -- Whichever way a guard goes.
  if_backend :
      (b : Bool) (x y : Locked S × Coordinator S) (s : Coordinator S)
      → x.1.backend ≡ s.backend
      → y.1.backend ≡ s.backend
      → (if b then x else y).1.backend ≡ s.backend
  if_backend true x y s h k = h
  if_backend false x y s h k = k

  pub submit_backend :
      (id : JobId) (input : IngestionInput) (asynchronous : Bool) (now later : ℕ)
      (s : Coordinator S)
      → (submit id input asynchronous now later s).1.backend ≡ s.backend
  unfolding submit
  submit_backend id input asynchronous now later s =
      if_backend (is_empty input.document || is_empty input.content) _ _ s refl (
        if_backend s.stopping _ _ s refl (
          submit_locked_backend id (normalized input) (fingerprint (normalized input)) asynchronous
            now later s))

  pub erase_document_backend :
      (id : JobId) (document : Bytes) (now later : ℕ) (s : Coordinator S)
      → (erase_document id document now later s).1.backend ≡ s.backend
  unfolding erase_document touched
  erase_document_backend id document now later s = if_backend (is_empty document) _ _ s refl (
      if_backend s.stopping _ _ s refl (
        admit_backend (new_job id erase (deletion_of document) (ascii "deleted") now s) later
          (touched document s)))
