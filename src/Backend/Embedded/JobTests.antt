-- ===== src/Backend/Embedded/JobTests.antt =====
-- Concrete runs of the preparation, of a coordinator over the embedded backend, and of its lexical search.
use llama_rag_runtime.Backend.Embedded.System.{Written, Write}
use llama_rag_runtime.Backend.Embedded.Lexical.{IsCandidate, lexical_candidates_live}
use llama_rag_runtime.Backend.Embedded.Reference.{IsIndexOf, no_texts, added}
use llama_rag_runtime.Backend.Embedded.Read.{lexical_candidates}
use llama_rag_runtime.Backend.Prepare.{
  TextChunk, AreTexts, HaveKeys, prepare_chunks, prepare_chunks-validate,
}
use llama_rag_runtime.Backend.Embedded.Validate.{validate}
use llama_rag_runtime.Dense.Index.{is_empty}
use llama_rag_runtime.Core.Keyset.{contains}
use llama_rag_runtime.Core.Keys.{normalize_source_text}
use llama_rag_runtime.Base.{
  ℕ, ◌≡◌, refl, true, false, none, some, List, [], ◌∷◌, ◌++◌, ◌≤◌, ◌<◌, ◌+◌, arith, All, length,
}
use llama_rag_runtime.Core.Types.{ok, ascii, Bytes}
use llama_rag_runtime.Core.Map.{find}
use llama_rag_runtime.Backend.Types.{PreparedDocument, LexicalRequest, Candidate}
use llama_rag_runtime.Ingestion.Job.{upsert, publishing, IngestionInput, IngestionJob}
use llama_rag_runtime.Ingestion.Coordinator.State.{CoordinatorConfig, Coordinator}
use llama_rag_runtime.Ingestion.Coordinator.Submit.{submit}
use llama_rag_runtime.Ingestion.Coordinator.System.{System, Reach, submits, start, started}
use llama_rag_runtime.Backend.Embedded.Write.{activate}
use llama_rag_runtime.Backend.Embedded.Corpus.{CorpusReach}
use llama_rag_runtime.Backend.Embedded.Promise.{view}
use llama_rag_runtime.Backend.Embedded.Coordinated.{
  Ingestion, embedded_services, coordinated_refines,
}
use llama_rag_runtime.Backend.Embedded.Tests.{
  engine, new_backend, a_page, writers-IsNew, all_hits, writers,
}

abbrev PageJob : Type 0
PageJob = IngestionJob (PreparedDocument ℕ)

abbrev memory : Ingestion engine
memory = record {
  Store = List PageJob;
  persist = λ job log. (ok tt, log ++ job ∷ []);
  load_latest = λ log. ok log;
  prepare = λ input. ok a_page;
  embed = λ p. ok p;
}

abbrev config : CoordinatorConfig
config = record { worker_count = 1; queue_capacity = 4; has_embedder = true; has_on_ready = true }

abbrev input_a : IngestionInput
input_a = record { document = ascii "a"; title = []; content = ascii "x"; metadata = [] }

abbrev publishing_a : PageJob
publishing_a = record {
  id = ascii "j";
  operation = upsert;
  input = input_a;
  revision = 1;
  content_hash = ascii "h";
  status = publishing;
  created_at_ms = 1;
  updated_at_ms = 2;
  error = none;
  prepared = some a_page;
  mutation_applied = none;
}

abbrev coordinator : Coordinator (embedded_services engine memory)
coordinator = record {
  config = config;
  stopping = false;
  queue = [];
  jobs = (ascii "j", publishing_a) ∷ [];
  latest_revision = (ascii "a", 1) ∷ [];
  latest_job = (ascii "a", ascii "j") ∷ [];
  store = [];
  backend = new_backend;
  notified = 0;
}

abbrev begun : System (embedded_services engine memory)
begun = start (embedded_services engine memory) config [] new_backend

no_jobs : find (ascii "j") begun.coordinator.jobs ≡ none
unfolding start find
no_jobs = refl

coordinated_refines_example :
    CorpusReach
      (view engine begun.coordinator.backend)
      (view engine (submit (ascii "j") input_a true 1 2 begun.coordinator).1.backend)
coordinated_refines_example =
    coordinated_refines engine memory {b = begun}
      {c = record {
        coordinator = (submit (ascii "j") input_a true 1 2 begun.coordinator).1;
        running = started (submit (ascii "j") input_a true 1 2 begun.coordinator).0 begun.running;
      }}
      config [] new_backend writers-IsNew Reach.here
      (Reach.next Reach.here (submits (ascii "j") input_a true 1 2 no_jobs))

-- A chunker that takes the text as one chunk.
abbrev whole_text : Bytes → List TextChunk
whole_text text = record { text = text; context = ascii "h"; start_line = 1; end_line = 1 } ∷ []

whole_text-AreTexts : AreTexts (whole_text (normalize_source_text (ascii "x")))
unfolding normalize_source_text is_empty ascii
whole_text-AreTexts = ((refl, refl), tt)

whole_text-HaveKeys : HaveKeys (ascii "a") [] (whole_text (normalize_source_text (ascii "x")))
unfolding contains
whole_text-HaveKeys = (refl, tt)

some_text : is_empty (ascii "a") ≡ false
unfolding is_empty ascii
some_text = refl

some_content : is_empty (ascii "x") ≡ false
unfolding is_empty ascii
some_content = refl

prepare_chunks-validate_example :
    (p : PreparedDocument ℕ) × (prepare_chunks ℕ whole_text
        (ascii "a")
        (ascii "a")
        (ascii "x")
        []
        []
      ≡ ok p)
    × (validate engine p 1 ≡ ok tt)
prepare_chunks-validate_example =
    prepare_chunks-validate engine whole_text (ascii "a") (ascii "a") (ascii "x") [] [] 1 some_text
      some_content some_text refl whole_text-AreTexts whole_text-HaveKeys

all_hits-below :
    (n m : ℕ) (l : List ℕ)
    → n ≤ m
    → All (λ (i, _). i < n) (all_hits l)
    → All (λ (i, _). i < m) (all_hits l)
all_hits-below n m [] le h = tt
all_hits-below n m (i ∷ l) le h = (omega (arith, le, h.0), all_hits-below n m l le h.1)

-- The index of the tests answers with what was added.
in_range :
    (n : ℕ) (l : List ℕ) (query : Bytes) (limit : ℕ)
    → IsIndexOf engine n l
    → All (λ (i, _). i < n) (all_hits l)
in_range _ _ query limit no_texts = tt
in_range _ _ query limit (added {n} {l} text h) =
    (omega arith, all_hits-below n (n + 1) l (omega arith) (in_range n l query limit h))

abbrev search_x : LexicalRequest
search_x = record { query = ascii "x"; k = 1; filter = record { required = []; supplied = false } }

lexical_candidates_live_example :
    (out : List (Candidate ℕ)) × (lexical_candidates engine
        (activate engine a_page 1 new_backend).1.active
        search_x
      ≡ ok out)
    × (length out ≤ 1)
    × All (IsCandidate engine (activate engine a_page 1 new_backend).1.active search_x) out
lexical_candidates_live_example =
    lexical_candidates_live engine {a = writers}
      {b = record { backend = (activate engine a_page 1 new_backend).1; building = [] }} search_x
      in_range writers-IsNew (Written.next Written.here (Write.activates a_page 1))
