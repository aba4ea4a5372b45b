-- ===== src/Ingestion/Coordinator/System.antt =====
-- The threads of the coordinator: callers of `submit` and `erase`, workers and executions, one section
-- at a time in any order.
use llama_rag_runtime.Base.{ℕ, Bool, ◌≡◌, none, some, List, [], ◌∷◌, ◌++◌}
use llama_rag_runtime.Core.Types.{Bytes}
use llama_rag_runtime.Core.Map.{find}
use llama_rag_runtime.Ingestion.Job.{JobId, IngestionInput}
use llama_rag_runtime.Ingestion.Coordinator.State.{Services, CoordinatorConfig, Coordinator}
use llama_rag_runtime.Ingestion.Coordinator.Execute.{Point, enter, exec_step}
use llama_rag_runtime.Ingestion.Coordinator.Submit.{
  Locked, created, submit, erase_document, take_job, stop, drain,
}

-- The executions that are under way, each at its program point.
pub record System (S : Services) : Type 0 where
  pub coordinator : Coordinator S
  pub running : List (JobId × Point S)

module _ {S : Services} where
  -- A caller that leaves the mutex with a new job executes it.
  unfoldable pub started : Locked S → List (JobId × Point S) → List (JobId × Point S)
  started (created job) running = (job.id, enter) ∷ running
  started _ running = running

-- `next_job_id` makes an identifier that no job has.
pub data Step {S : Services} (a : System S) : System S → Type 0 where
  submits :
      (id : JobId) (input : IngestionInput) (asynchronous : Bool) (now later : ℕ)
      → find id a.coordinator.jobs ≡ none
      → Step a (record {
        coordinator = (submit id input asynchronous now later a.coordinator).1;
        running = started (submit id input asynchronous now later a.coordinator).0 a.running;
      })
  erases :
      (id : JobId) (document : Bytes) (now later : ℕ)
      → find id a.coordinator.jobs ≡ none
      → Step a (record {
        coordinator = (erase_document id document now later a.coordinator).1;
        running = started (erase_document id document now later a.coordinator).0 a.running;
      })
  takes :
      (id : JobId) (c : Coordinator S)
      → take_job a.coordinator ≡ some (id, c)
      → Step a (record { coordinator = c; running = (id, enter) ∷ a.running })
  runs :
      (before after : List (JobId × Point S)) (id : JobId) (pc : Point S) (now : ℕ)
      → a.running ≡ before ++ (id, pc) ∷ after
      → Step a (record {
        coordinator = (exec_step id now pc a.coordinator).1;
        running = before ++ (id, (exec_step id now pc a.coordinator).0) ∷ after;
      })
  stops : Step a (record a { coordinator = stop a.coordinator })
  drains : Step a (record a { coordinator = drain a.coordinator })

pub data Reach {S : Services} (a : System S) : System S → Type 0 where
  here : Reach a a
  next : {b c : System S} → Reach a b → Step b c → Reach a c

module _ (S : Services) where
  -- A coordinator over an empty job store.
  unfoldable pub start : CoordinatorConfig → S.Store → S.Backend → System S
  start config store backend = record {
    coordinator = record {
      config = config;
      stopping = Bool.false;
      queue = [];
      jobs = [];
      latest_revision = [];
      latest_job = [];
      store = store;
      backend = backend;
      notified = 0;
    };
    running = [];
  }
