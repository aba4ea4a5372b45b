-- ===== src/Ingestion/Coordinator/Safety.antt =====
-- What holds in every interleaving of the coordinator's threads (coordinator.cpp).
use llama_rag_runtime.Base.{◌≡◌, refl, true, false, some, arith}
use llama_rag_runtime.Core.Map.{find}
use llama_rag_runtime.Ingestion.Job.{JobId, terminal, IngestionJob}
use llama_rag_runtime.Ingestion.Coordinator.State.{
  Services, CoordinatorConfig, Coordinator, revision_at,
}
use llama_rag_runtime.Ingestion.Coordinator.Submit.{take_job, stop, drain}
use llama_rag_runtime.Ingestion.Coordinator.Invariant.{Inv}
use llama_rag_runtime.Ingestion.Coordinator.Evolution.{
  IsConsistent, Evolves, Evolves-same, Evolves-trans,
}
use llama_rag_runtime.Ingestion.Coordinator.Sections.{exec_step-Evolves}
use llama_rag_runtime.Ingestion.Coordinator.Admission.{submit-Evolves, erase_document-Evolves}
use llama_rag_runtime.Ingestion.Coordinator.System.{
  System, Step, submits, erases, takes, runs, stops, drains, Reach, here, next, start,
}

module _ {S : Services} where
  take_job-Evolves : (s t : Coordinator S) (id : JobId) → take_job s ≡ some (id, t) → Evolves s t
  unfolding take_job
  take_job-Evolves s t id h = Evolves-same s t (ground arith) (ground arith) (ground arith)

  Step-Evolves : {a b : System S} → Step a b → Evolves a.coordinator b.coordinator
  unfolding stop drain
  Step-Evolves {a} (submits id input asynchronous now later fresh) =
      submit-Evolves id input asynchronous now later a.coordinator fresh
  Step-Evolves {a} (erases id document now later fresh) =
      erase_document-Evolves id document now later a.coordinator fresh
  Step-Evolves {a} (takes id c e) = take_job-Evolves a.coordinator c id e
  Step-Evolves {a} (runs before after id pc now e) = exec_step-Evolves id now pc a.coordinator
  Step-Evolves {a} stops = Evolves-same a.coordinator _ refl refl refl
  Step-Evolves {a} drains = Evolves-same a.coordinator _ refl refl refl

  Reach-Evolves : {a b : System S} → Reach a b → Evolves a.coordinator b.coordinator
  Reach-Evolves {a} here = Evolves-same a.coordinator a.coordinator refl refl refl
  Reach-Evolves (next r st) = Evolves-trans _ _ _ (Reach-Evolves r) (Step-Evolves st)

  -- A job whose status is terminal stays exactly as it is, whatever sections of whatever threads run
  -- after that.
  pub terminal_is_final :
      {a b : System S} (k : JobId) (j : IngestionJob S.Prepared)
      → Reach a b
      → find k a.coordinator.jobs ≡ some j
      → terminal j.status ≡ true
      → find k b.coordinator.jobs ≡ some j
  terminal_is_final k j r there over =
      let (i, later, became) = (Reach-Evolves r).becomes k j there in ground (arith, later, became)

module _ (S : Services) where
  pub start-IsConsistent :
      (config : CoordinatorConfig) (store : S.Store) (backend : S.Backend)
      → IsConsistent (start S config store backend).coordinator
  unfolding start find
  start-IsConsistent config store backend = record {
    keyed = λ k j e. cc;
    current = λ k j e live. cc;
    known = λ d k e. cc;
  }

  -- In every state that the threads reach from an empty store, a job that is not over has the latest
  -- revision of its document, and any two such jobs of one document are the same job.
  pub live_is_latest :
      {b : System S} (config : CoordinatorConfig) (store : S.Store) (backend : S.Backend)
      (k l : JobId) (j i : IngestionJob S.Prepared)
      → Reach (start S config store backend) b
      → find k b.coordinator.jobs ≡ some j
      → terminal j.status ≡ false
      → find l b.coordinator.jobs ≡ some i
      → terminal i.status ≡ false
      → i.input.document ≡ j.input.document
      → (revision_at j.input.document b.coordinator.latest_revision ≡ j.revision) × (l ≡ k)
  live_is_latest {b} config store backend k l j i r there live found alive doc = (
    (v.current k j there live).1,
    ground (arith, v.current k j there live, v.current l i found alive, doc),
  )
    where
      v : Inv b.coordinator.jobs b.coordinator.latest_revision b.coordinator.latest_job
      v = (Reach-Evolves r).consistent (start-IsConsistent config store backend)
