-- ===== src/Ingestion/Coordinator/Tests.antt =====
-- The coordinator's theorems at concrete states, over a job store that keeps a log and a backend that
-- keeps the revisions it was given.
use llama_rag_runtime.Base.{ℕ, ◌≡◌, refl, true, false, none, some, List, [], ◌∷◌, ◌++◌}
use llama_rag_runtime.Core.Types.{Bytes, Error, ok, ascii, io_error}
use llama_rag_runtime.Core.Map.{find, assign, key_eq}
use llama_rag_runtime.Ingestion.Coordinator.Transition.{transition, transition_job}
use llama_rag_runtime.Ingestion.Job.{upsert, queued, ready, terminal, IngestionInput, IngestionJob}
use llama_rag_runtime.Ingestion.Coordinator.State.{
  Services, CoordinatorConfig, Coordinator, revision_at, touch, touched,
}
use llama_rag_runtime.Ingestion.Coordinator.Execute.{Point, activating, failing, exec_step, execute}
use llama_rag_runtime.Ingestion.Coordinator.Submit.{
  submit, submit_locked, submit_new, admit, overtake, new_job, register, enqueue, normalized,
  fingerprint,
}
use llama_rag_runtime.Ingestion.Coordinator.Admission.{submit-Evolves}
use llama_rag_runtime.Ingestion.Coordinator.System.{
  System, started, submits, runs, here, next, start,
}
use llama_rag_runtime.Ingestion.Coordinator.Safety.{
  terminal_is_final, live_is_latest, start-IsConsistent,
}
use llama_rag_runtime.Ingestion.Coordinator.Completion.{execute_over}
use llama_rag_runtime.Ingestion.Coordinator.Publication.{Publishes, publication_is_guarded}

abbrev memory : Services
memory = record {
  Prepared = Bytes;
  Store = List (IngestionJob Bytes);
  Backend = List ℕ;
  persist = λ job log. (ok tt, log ++ job ∷ []);
  load_latest = λ log. ok log;
  activate = λ p revision given. (ok tt, revision ∷ given);
  erase = λ document revision given. (ok true, revision ∷ given);
  prepare = λ input. ok input.content;
  embed = λ p. ok p;
}

abbrev config : CoordinatorConfig
config = record { worker_count = 1; queue_capacity = 4; has_embedder = true; has_on_ready = true }

abbrev page : Bytes → IngestionInput
page text = record { document = ascii "d"; title = ascii "t"; content = text; metadata = [] }

abbrev done : IngestionJob Bytes
done = record {
  id = ascii "a";
  operation = upsert;
  input = page [];
  revision = 1;
  content_hash = ascii "x";
  status = ready;
  created_at_ms = 1;
  updated_at_ms = 2;
  error = none;
  prepared = some (ascii "p");
  mutation_applied = none;
}

abbrev late : Error
late = record { code = io_error; message = ascii "late" }

-- One job is ready, and its execution is still at a failure.
abbrev settled : System memory
settled = record {
  coordinator = record {
    config = config;
    stopping = false;
    queue = [];
    jobs = (ascii "a", done) ∷ [];
    latest_revision = (ascii "d", 1) ∷ [];
    latest_job = (ascii "d", ascii "a") ∷ [];
    store = done ∷ [];
    backend = 1 ∷ [];
    notified = 0;
  };
  running = (ascii "a", failing late) ∷ [];
}

abbrev late_failure : Point memory × Coordinator memory
late_failure = exec_step (ascii "a") 7 (failing late) settled.coordinator

abbrev failed_late : System memory
failed_late = record { coordinator = late_failure.1; running = (ascii "a", late_failure.0) ∷ [] }

abbrev resubmitted : System memory
resubmitted = record {
  coordinator = (submit (ascii "b") (page (ascii "new")) true 8 9 failed_late.coordinator).1;
  running =
      started (submit (ascii "b") (page (ascii "new")) true 8 9 failed_late.coordinator).0
        failed_late.running;
}

terminal_is_final_example : find (ascii "a") resubmitted.coordinator.jobs ≡ some done
unfolding find key_eq ascii terminal exec_step transition transition_job
terminal_is_final_example =
    terminal_is_final {a = settled} {b = resubmitted} (ascii "a") done
      (next {b = failed_late}
        (next {b = settled} here (runs [] [] (ascii "a") (failing late) 7 refl))
        (submits (ascii "b") (page (ascii "new")) true 8 9 refl))
      refl refl

abbrev empty : Coordinator memory
empty = (start memory config [] []).coordinator

abbrev submitted : System memory
submitted = record {
  coordinator = (submit (ascii "b") (page (ascii "new")) true 8 9 empty).1;
  running = started (submit (ascii "b") (page (ascii "new")) true 8 9 empty).0 [];
}

abbrev live : IngestionJob Bytes
live = record {
  id = ascii "b";
  operation = upsert;
  input = normalized (page (ascii "new"));
  revision = 1;
  content_hash = fingerprint (normalized (page (ascii "new")));
  status = queued;
  created_at_ms = 8;
  updated_at_ms = 8;
  error = none;
  prepared = none;
  mutation_applied = none;
}

live_is_latest_example :
    (revision_at (ascii "d") submitted.coordinator.latest_revision ≡ 1) × (ascii "b" ≡ ascii "b")
unfolding find key_eq ascii terminal submit submit_locked submit_new admit overtake new_job register
    enqueue touched touch revision_at assign start
live_is_latest_example =
    live_is_latest memory config [] [] (ascii "b") (ascii "b") live live
      (next here (submits (ascii "b") (page (ascii "new")) true 8 9 refl)) refl refl refl refl refl

execute_over_example :
    (j : IngestionJob Bytes) × (find
        (ascii "b")
        (execute (ascii "b") (λ n. n) submitted.coordinator).jobs
      ≡ some j)
    × (terminal j.status ≡ true)
unfolding find key_eq ascii terminal submit submit_locked submit_new admit overtake new_job register
    enqueue touched touch revision_at assign start
execute_over_example =
    execute_over (ascii "b") live (λ n. n) submitted.coordinator
      ((submit-Evolves (ascii "b") (page (ascii "new")) true 8 9 empty refl).consistent
        (start-IsConsistent memory config [] []))
      refl

publication_is_guarded_example :
    Publishes
      (ascii "a")
      (activating (ascii "p"))
      settled.coordinator
      (exec_step (ascii "a") 7 (activating (ascii "p")) settled.coordinator).1.backend
publication_is_guarded_example =
    publication_is_guarded (ascii "a") 7 (activating (ascii "p")) settled.coordinator
