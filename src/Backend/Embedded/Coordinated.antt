-- ===== src/Backend/Embedded/Coordinated.antt =====
-- The coordinator (rag.cpp/src/ingestion/coordinator.cpp) over the embedded backend
-- (rag.cpp/src/backend/embedded_backend.cpp): every interleaving of callers, workers and executions is, for the backend,
-- an order of its writers.
use llama_rag_runtime.Base.{◌≡◌, sym, subst, List, [], inl, inr, some, arith}
use llama_rag_runtime.Core.Types.{Result}
use llama_rag_runtime.Backend.Types.{PreparedDocument}
use llama_rag_runtime.Dense.Engine.{Engine}
use llama_rag_runtime.Ingestion.Job.{JobId, IngestionInput, IngestionJob}
use llama_rag_runtime.Ingestion.Coordinator.State.{Services, CoordinatorConfig, Coordinator}
use llama_rag_runtime.Ingestion.Coordinator.Execute.{Point, erase_call, activating}
use llama_rag_runtime.Ingestion.Coordinator.Submit.{take_job, stop, drain}
use llama_rag_runtime.Ingestion.Coordinator.Publication.{Publishes, publication_is_guarded}
use llama_rag_runtime.Ingestion.Coordinator.Untouched.{submit_backend, erase_document_backend}
use llama_rag_runtime.Ingestion.Coordinator.System.{
  System, Step, submits, erases, takes, runs, stops, drains, Reach, start,
}
use llama_rag_runtime.Backend.Embedded.State.{EmbeddedBackend}
use llama_rag_runtime.Backend.Embedded.Write.{activate, erase_active}
use llama_rag_runtime.Backend.Embedded.System.{Writers, Write, Written, IsNew}
use llama_rag_runtime.Backend.Embedded.Corpus.{CorpusReach}
use llama_rag_runtime.Backend.Embedded.Promise.{view}
use llama_rag_runtime.Backend.Embedded.Refine.{written_refines}

-- The job store, the preparation and the embedder of a coordinator over an embedded backend.
pub record Ingestion (E : Engine) : Type 1 where
  pub Store : Type 0
  pub persist : IngestionJob (PreparedDocument E.Float) → Store → Result (Unit {0}) × Store
  pub load_latest : Store → Result (List (IngestionJob (PreparedDocument E.Float)))
  pub prepare : IngestionInput → Result (PreparedDocument E.Float)
  pub embed : PreparedDocument E.Float → Result (PreparedDocument E.Float)

-- The services with `EmbeddedBackend` as the backend.
abbrev pub embedded_services : (E : Engine) → Ingestion E → Services
embedded_services E I = record {
  Prepared = PreparedDocument E.Float;
  Store = I.Store;
  Backend = EmbeddedBackend E;
  persist = I.persist;
  load_latest = I.load_latest;
  activate = activate E;
  erase = erase_active E;
  prepare = I.prepare;
  embed = I.embed;
}

module _ (E : Engine) (I : Ingestion E) where
  -- The writers of a backend that only the coordinator writes to.
  abbrev pub writers_of : EmbeddedBackend E → Writers E
  writers_of b = record { backend = b; building = [] }

  abbrev Follows : EmbeddedBackend E → EmbeddedBackend E → Type 0
  Follows b c = Written E (writers_of b) (writers_of c)

  Follows-same : (b c : EmbeddedBackend E) → c ≡ b → Follows b c
  Follows-same b c same = subst (Follows b) (sym same) Written.here

  Publishes-Follows :
      (k : JobId) (pc : Point (embedded_services E I)) (s : Coordinator (embedded_services E I))
      (c : EmbeddedBackend E)
      → Publishes k pc s c
      → Follows s.backend c
  Publishes-Follows k (activating p) s c (inl same) = Follows-same s.backend c same
  Publishes-Follows k (activating p) s c (inr (job, _, _, _, same)) =
      subst (Follows s.backend) (sym same)
        (Written.next Written.here (Write.activates p job.revision))
  Publishes-Follows k erase_call s c (inl same) = Follows-same s.backend c same
  Publishes-Follows k erase_call s c (inr (job, _, same)) =
      subst (Follows s.backend) (sym same)
        (Written.next Written.here (Write.erases job.input.document job.revision))
  Publishes-Follows k _ s c same = Follows-same s.backend c same

  Follows-trans : {b c d : EmbeddedBackend E} → Follows b c → Follows c d → Follows b d
  Follows-trans {b} h r = joined h r
    where
      joined :
          {x y : Writers E}
          → Written E (writers_of b) x
          → Written E x y
          → Written E (writers_of b) y
      joined h Written.here = h
      joined h (Written.next r w) = Written.next (joined h r) w

  take_job_backend :
      (s c : Coordinator (embedded_services E I)) (id : JobId)
      → take_job s ≡ some (id, c)
      → c.backend ≡ s.backend
  unfolding take_job
  take_job_backend s c id h = ground (arith, h)

  Step-Follows :
      {a b : System (embedded_services E I)}
      → Step a b
      → Follows a.coordinator.backend b.coordinator.backend
  unfolding stop drain
  Step-Follows {a} (submits id input asynchronous now later fresh) =
      Follows-same _ _ (submit_backend id input asynchronous now later a.coordinator)
  Step-Follows {a} (erases id document now later fresh) =
      Follows-same _ _ (erase_document_backend id document now later a.coordinator)
  Step-Follows {a} (takes id c e) = Follows-same _ _ (take_job_backend a.coordinator c id e)
  Step-Follows {a} (runs before after id pc now e) =
      Publishes-Follows id pc a.coordinator _ (publication_is_guarded id now pc a.coordinator)
  Step-Follows stops = Written.here
  Step-Follows drains = Written.here

  Reach-Follows :
      {a b : System (embedded_services E I)}
      → Reach a b
      → Follows a.coordinator.backend b.coordinator.backend
  Reach-Follows Reach.here = Written.here
  Reach-Follows (Reach.next r st) = Follows-trans (Reach-Follows r) (Step-Follows st)

  -- A coordinator over a new embedded backend: in every interleaving of callers, workers and executions, what happens to
  -- the corpus between two moments is a history of activations and deletions, each under a revision newer than any that
  -- its document has had.
  pub coordinated_refines :
      {b c : System (embedded_services E I)} (config : CoordinatorConfig) (store : I.Store)
      (backend : EmbeddedBackend E)
      → IsNew E (writers_of backend)
      → Reach (start (embedded_services E I) config store backend) b
      → Reach b c
      → CorpusReach (view E b.coordinator.backend) (view E c.coordinator.backend)
  unfolding start
  coordinated_refines config store backend new r q =
      written_refines E new (Reach-Follows r) (Reach-Follows q)
