-- ===== src/Backend/Embedded/Tests.antt =====
-- Concrete runs of the embedded backend, on numbers in the place of floating-point numbers.
use llama_rag_runtime.Base.{ℕ, ◌+◌, ◌*◌, true, false, not, ◌≡◌, refl, List, [], ◌∷◌, ◌==◌, ltb}
use llama_rag_runtime.Core.Types.{unless, and_then, Bytes, ok, ascii, fail, unavailable}
use llama_rag_runtime.Core.Keys.{
  normalize_source_text, hex64, hash_field, fnv1a, to_decimal, document_content_hash,
  stable_chunk_key,
}
use llama_rag_runtime.Core.Map.{find, key_eq, assign}
use llama_rag_runtime.Core.Ordered.{put}
use llama_rag_runtime.Core.Keyset.{contains, insert}
use llama_rag_runtime.Backend.Types.{StoredChunk, FetchOptions, PreparedDocument}
use llama_rag_runtime.Dense.Engine.{Engine}
use llama_rag_runtime.Dense.Policy.{native, automatic}
use llama_rag_runtime.Dense.Index.{
  is_empty, build_exact, source_dimension, check_rows, is_normalized, NativeExactIndex,
}
use llama_rag_runtime.Dense.Tiered.{
  empty, with_tier, keys_of, with_delta, check_tombstones, check_delta, contains_base,
  TieredDenseIndex, native_exact,
}
use llama_rag_runtime.Backend.Embedded.Validate.{
  validate, check_chunks, indexed_text_of, check_values, check_embeddings,
}
use llama_rag_runtime.Backend.Embedded.State.{EmbeddedMaintenancePolicy, EmbeddedBackend}
use llama_rag_runtime.Backend.Embedded.Write.{
  erase_active, activate, activate_valid, is_behind, published, next_activated, tombstones_for,
  create, next_erased,
}
use llama_rag_runtime.Backend.Embedded.Build.{
  build_generation, add_documents, nothing_built, add_document, agreed, add_chunks, add_chunk,
  catalogued, embedded, generation_of,
}
use llama_rag_runtime.Backend.Embedded.System.{
  Written, Writers, IsNew, created, here, next, activates,
}
use llama_rag_runtime.Backend.Embedded.Corpus.{IsLater, CorpusActivated, CorpusErased, CorpusReach}
use llama_rag_runtime.Backend.Embedded.Promise.{view}
use llama_rag_runtime.Backend.Embedded.Refine.{writers_refine, written_refines}
use llama_rag_runtime.Backend.Embedded.Fetching.{AreFetched, fetch_live}
use llama_rag_runtime.Backend.Embedded.Read.{fetch}
use llama_rag_runtime.Backend.Embedded.Acknowledged.{Stands, acknowledged-Stands}

abbrev pub all_hits : List ℕ → List (ℕ × ℕ)
all_hits [] = []
all_hits (i ∷ is) = (i, 1) ∷ all_hits is

abbrev pub engine : Engine
engine = record {
  Float = ℕ;
  Double = ℕ;
  zero_norm = 0;
  add_square = λ n v. n + v * v;
  off_unit = λ n. not (n == 1);
  within_unit = λ n. n == 1;
  is_finite = λ v. true;
  float_eq = λ a b. a == b;
  float_gt = λ a b. ltb b a;
  dot = λ a b. 1;
  faiss_enabled = false;
  Other = Unit;
  build_other = λ p a rows. fail unavailable [];
  search_other = λ i q allowed k. ok [];
  vectors_other = λ i. 0;
  dimension_other = λ i. 0;
  Lexical = List ℕ;
  empty_lexical = [];
  add_text = λ i text l. i ∷ l;
  finalize = λ l. l;
  search_lexical = λ l query limit. all_hits l;
}

-- A document of one line, with an embedding.
abbrev pub prepared : Bytes → Bytes → List ℕ → PreparedDocument ℕ
prepared key text embedding = record {
  key = key;
  title = [];
  content = text;
  metadata = [];
  content_hash = document_content_hash [] text [];
  chunking_fingerprint = ascii "c";
  embedding_identity = ascii "m";
  chunks =
      record {
        key = stable_chunk_key key 1 1 text;
        ordinal = 0;
        text = text;
        indexed_text = text;
        context = [];
        start_line = 1;
        end_line = 1;
        embedding = embedding;
      }
      ∷ [];
}

abbrev pub policy : EmbeddedMaintenancePolicy
policy = record {
  delta_chunk_limit = 2;
  delta_fraction = λ base delta. false;
  tombstone_fraction = λ base tombstones. false;
  compaction_memory_budget = 1000;
  automatic_compaction = true;
  dense = record { implementation = native; algorithm = automatic; exact_threshold = 10 };
}

abbrev pub no_index : NativeExactIndex engine
no_index = record { rows = []; dimension = 0 }

abbrev pub no_vectors : TieredDenseIndex engine
no_vectors = record {
  base = record { index = native_exact no_index; keys = []; dimension = 0 };
  delta = no_index;
  delta_keys = [];
  tombstones = [];
  dimension = 0;
}

abbrev pub new_backend : EmbeddedBackend engine
new_backend = record {
  policy = policy;
  latest_revisions = [];
  active = record {
    documents = [];
    chunks = [];
    ordinal_keys = [];
    lexical = [];
    dense = no_vectors;
    delta_documents = [];
    dimension = 0;
    chunking_fingerprint = [];
    embedding_identity = [];
    number = 0;
  };
  stores = 1;
  maintenance_pending = false;
}

created_new : create engine policy ≡ ok new_backend
unfolding create empty build_exact unless is_empty source_dimension check_rows and_then with_tier
    keys_of build_generation add_documents nothing_built with_delta check_tombstones check_delta
    generation_of
created_new = refl

abbrev pub a_page : PreparedDocument ℕ
a_page = prepared (ascii "a") (ascii "x") (1 ∷ 0 ∷ [])

abbrev pub b_page : PreparedDocument ℕ
b_page = prepared (ascii "b") (ascii "y") (0 ∷ 1 ∷ [])

abbrev new_a : PreparedDocument ℕ
new_a = prepared (ascii "a") (ascii "z") (0 ∷ 1 ∷ [])

abbrev pub writers : Writers engine
writers = record { backend = new_backend; building = [] }

pub writers-IsNew : IsNew engine writers
writers-IsNew = created policy created_new refl

valid_a : validate engine a_page 1 ≡ ok tt
unfolding validate unless is_empty ascii document_content_hash key_eq normalize_source_text hex64
    hash_field fnv1a to_decimal check_chunks stable_chunk_key contains insert indexed_text_of
    check_values check_embeddings
valid_a = refl

activated_a : (activate engine a_page 1 new_backend).0 ≡ ok tt
unfolding validate unless is_empty ascii document_content_hash key_eq normalize_source_text hex64
    hash_field fnv1a to_decimal check_chunks stable_chunk_key contains insert indexed_text_of
    check_values check_embeddings activate activate_valid is_behind find published next_activated
    build_generation and_then add_documents nothing_built add_document agreed add_chunks add_chunk
    catalogued embedded assign with_delta check_tombstones check_delta with_tier build_exact
    check_rows is_normalized source_dimension tombstones_for contains_base put
activated_a = refl

-- The second revision does not touch the promise of the first.
acknowledged-Stands_example :
    Stands a_page 1 (view engine (activate engine a_page 1 new_backend).1)
    × IsLater a_page.key 1
        (find a_page.key (activate engine a_page 1 new_backend).1.active.documents)
        (view engine (activate engine new_a 2 (activate engine a_page 1 new_backend).1).1)
acknowledged-Stands_example =
    acknowledged-Stands engine {a = writers} {b = writers} a_page 1 writers-IsNew here activated_a
      (next here (activates new_a 2))

abbrev pub with_a : Writers engine
with_a = record { backend = (activate engine a_page 1 new_backend).1; building = [] }

abbrev pub with_b : Writers engine
with_b = record { backend = (activate engine b_page 3 with_a.backend).1; building = [] }

reached_b : Written engine with_a with_b
reached_b = next here (activates b_page 3)

writers_refine_example :
    CorpusActivated
      (validate engine b_page 3)
      (next_activated engine b_page 3 with_a.backend.active)
      b_page
      3
      (view engine with_a.backend)
      (activate engine b_page 3 with_a.backend).0
      (view engine (activate engine b_page 3 with_a.backend).1)
    × CorpusErased
        (next_erased engine (ascii "a") with_a.backend.active)
        (ascii "a")
        3
        (view engine with_a.backend)
        (erase_active engine (ascii "a") 3 with_a.backend).0
        (view engine (erase_active engine (ascii "a") 3 with_a.backend).1)
writers_refine_example = writers_refine engine b_page (ascii "a") 3 with_a.backend

written_refines_example : CorpusReach (view engine with_a.backend) (view engine with_b.backend)
written_refines_example =
    written_refines engine {a = writers} writers-IsNew (next here (activates a_page 1)) reached_b

abbrev pub everything : FetchOptions
everything = record { include_text = true; include_embedding = true }

abbrev pub a_key : Bytes
a_key = stable_chunk_key (ascii "a") 1 1 (ascii "x")

fetch_live_example :
    (out : List (StoredChunk ℕ)) × (fetch engine with_b.backend.active everything
        (a_key ∷ ascii "unknown" ∷ [])
      ≡ ok out)
    × AreFetched engine with_b.backend.active everything (a_key ∷ ascii "unknown" ∷ []) out
fetch_live_example =
    fetch_live engine {a = writers} {b = with_b} everything (a_key ∷ ascii "unknown" ∷ [])
      writers-IsNew (next (next here (activates a_page 1)) (activates b_page 3))
