-- ===== src/Backend/Embedded/ReaderTests.antt =====
-- Concrete runs of the embedded backend with a compaction, and of its readers.
use llama_rag_runtime.Dense.Search.{IsDistinct, search_tiered-IsDistinct}
use llama_rag_runtime.Backend.Embedded.Equivalence.{readers_agree, compaction_invisible}
use llama_rag_runtime.Base.{
  ℕ, true, false, ◌≡◌, refl, List, [], ◌∷◌, some, ◌++◌, sort_by, length, arith, ◌≤◌,
}
use llama_rag_runtime.Core.Types.{unless, and_then, ok, ascii, Result, err}
use llama_rag_runtime.Core.Keys.{
  normalize_source_text, hex64, hash_field, fnv1a, to_decimal, document_content_hash,
  stable_chunk_key,
}
use llama_rag_runtime.Core.Map.{find, key_eq, assign}
use llama_rag_runtime.Core.Ordered.{put}
use llama_rag_runtime.Core.Metadata.{compare_bytes}
use llama_rag_runtime.Core.Keyset.{contains, insert}
use llama_rag_runtime.Backend.Types.{PreparedDocument, PreparedChunk, LexicalRequest, Candidate}
use llama_rag_runtime.Dense.Policy.{
  resolve_dense_algorithm, resolve_native, DensePolicy, native, automatic,
}
use llama_rag_runtime.Dense.Index.{
  is_empty, build_exact, source_dimension, check_rows, is_normalized, search_exact, scored,
  ranks_before, VectorRecord,
}
use llama_rag_runtime.Dense.Tiered.{
  compact_index, check_base, build_dense_index, build_algorithm, built_exact, with_tier, keys_of,
  with_delta, check_tombstones, check_delta, contains_base, search_tiered, search_tier,
  search_index, keep_best,
}
use llama_rag_runtime.Backend.Embedded.Validate.{
  validate, check_chunks, indexed_text_of, check_values, check_embeddings,
}
use llama_rag_runtime.Backend.Embedded.State.{Generation}
use llama_rag_runtime.Backend.Embedded.Write.{
  activate, activate_valid, is_behind, published, next_activated, tombstones_for, built_compaction,
  live_vectors, chunk_vectors, estimated_bytes, publish_compacted, scheduled, stored, buried,
  chunk_keys,
}
use llama_rag_runtime.Backend.Embedded.Build.{
  stored_chunk, build_generation, add_documents, nothing_built, add_document, agreed, add_chunks,
  add_chunk, catalogued, embedded, generation_of,
}
use llama_rag_runtime.Backend.Embedded.System.{
  Written, Writers, here, next, activates, compacts, publishes,
}
use llama_rag_runtime.Backend.Embedded.Read.{fetch, get_elem?, lexical_candidates, document_state}
use llama_rag_runtime.Backend.Embedded.Stale.{IsStale, activate-IsStale}
use llama_rag_runtime.Backend.Embedded.Tests.{
  engine, new_backend, a_page, b_page, writers, writers-IsNew, with_a, with_b, everything, a_key,
}

abbrev or_active : Result (Generation engine) → Generation engine
or_active (ok g) = g
or_active (err e) = new_backend.active

-- The generation that a compaction builds of `with_a`.
abbrev compaction : Generation engine
compaction = or_active (built_compaction engine with_a.backend.policy false with_a.backend.active)

compaction_built :
    built_compaction engine with_a.backend.policy false with_a.backend.active ≡ ok compaction
unfolding validate unless is_empty ascii document_content_hash key_eq normalize_source_text hex64
    hash_field fnv1a to_decimal check_chunks stable_chunk_key contains insert indexed_text_of
    check_values check_embeddings activate activate_valid is_behind find published next_activated
    build_generation and_then add_documents nothing_built add_document agreed add_chunks add_chunk
    catalogued embedded assign with_delta check_tombstones check_delta with_tier build_exact
    check_rows is_normalized source_dimension tombstones_for contains_base put scheduled stored
    generation_of keys_of stored_chunk built_compaction compact_index live_vectors chunk_vectors
    check_base build_dense_index resolve_dense_algorithm resolve_native build_algorithm built_exact
    estimated_bytes publish_compacted compare_bytes buried chunk_keys
compaction_built = refl

abbrev with_base : Writers engine
with_base = record {
  backend = (publish_compacted engine with_a.backend.stores compaction with_a.backend).1;
  building = [];
}

reached_base : Written engine writers with_base
reached_base =
    next (next (next here (activates a_page 1)) (compacts false compaction compaction_built))
      (publishes [] [] with_a.backend.stores compaction refl)

-- The same lines under another heading: the key is the same, the embedding another.
abbrev moved_chunk : PreparedChunk ℕ
moved_chunk = record {
  key = a_key;
  ordinal = 0;
  text = ascii "x";
  indexed_text = ascii "h" ++ (10 ∷ ascii "x");
  context = ascii "h";
  start_line = 1;
  end_line = 1;
  embedding = 0 ∷ 1 ∷ [];
}

abbrev moved_a : PreparedDocument ℕ
moved_a = record a_page { chunks = moved_chunk ∷ [] }

stands_in_base : contains_base engine moved_chunk.key with_base.backend.active.dense ≡ true
unfolding validate unless is_empty ascii document_content_hash key_eq normalize_source_text hex64
    hash_field fnv1a to_decimal check_chunks stable_chunk_key contains insert indexed_text_of
    check_values check_embeddings activate activate_valid is_behind find published next_activated
    build_generation and_then add_documents nothing_built add_document agreed add_chunks add_chunk
    catalogued embedded assign with_delta check_tombstones check_delta with_tier build_exact
    check_rows is_normalized source_dimension tombstones_for contains_base put scheduled stored
    generation_of keys_of stored_chunk built_compaction compact_index live_vectors chunk_vectors
    check_base build_dense_index resolve_dense_algorithm resolve_native build_algorithm built_exact
    estimated_bytes publish_compacted compare_bytes buried chunk_keys
stands_in_base = refl

moved_activated : (activate engine moved_a 2 with_base.backend).0 ≡ ok tt
unfolding validate unless is_empty ascii document_content_hash key_eq normalize_source_text hex64
    hash_field fnv1a to_decimal check_chunks stable_chunk_key contains insert indexed_text_of
    check_values check_embeddings activate activate_valid is_behind find published next_activated
    build_generation and_then add_documents nothing_built add_document agreed add_chunks add_chunk
    catalogued embedded assign with_delta check_tombstones check_delta with_tier build_exact
    check_rows is_normalized source_dimension tombstones_for contains_base put scheduled stored
    generation_of keys_of stored_chunk built_compaction compact_index live_vectors chunk_vectors
    check_base build_dense_index resolve_dense_algorithm resolve_native build_algorithm built_exact
    estimated_bytes publish_compacted compare_bytes buried chunk_keys
moved_activated = refl

first_chunk : get_elem? 0 moved_a.chunks ≡ some moved_chunk
unfolding get_elem?
first_chunk = refl

activate-IsStale_example :
    IsStale engine a_key with_base.backend.active
      (activate engine moved_a 2 with_base.backend).1.active
activate-IsStale_example =
    activate-IsStale engine {a = writers} {b = with_base} moved_a 2 0 moved_chunk writers-IsNew
      reached_base first_chunk stands_in_base moved_activated

-- The same documents, activated in the other order.
abbrev with_a_last : Writers engine
with_a_last = record {
  backend = (activate engine a_page 1 (activate engine b_page 3 new_backend).1).1;
  building = [];
}

same_documents : with_b.backend.active.documents ≡ with_a_last.backend.active.documents
unfolding validate unless is_empty ascii document_content_hash key_eq normalize_source_text hex64
    hash_field fnv1a to_decimal check_chunks stable_chunk_key contains insert indexed_text_of
    check_values check_embeddings activate activate_valid is_behind find published next_activated
    build_generation and_then add_documents nothing_built add_document agreed add_chunks add_chunk
    catalogued embedded assign with_delta check_tombstones check_delta with_tier build_exact
    check_rows is_normalized source_dimension tombstones_for contains_base put scheduled stored
    generation_of keys_of stored_chunk compare_bytes
same_documents = refl

abbrev search_x : LexicalRequest
search_x = record { query = ascii "x"; k = 2; filter = record { required = []; supplied = false } }

readers_agree_example :
    (fetch engine with_b.backend.active everything (a_key ∷ [])
      ≡ fetch engine with_a_last.backend.active everything (a_key ∷ []))
    × (lexical_candidates engine with_b.backend.active search_x
        ≡ lexical_candidates engine with_a_last.backend.active search_x)
    × (document_state engine with_b.backend.active (ascii "a")
        ≡ document_state engine with_a_last.backend.active (ascii "a"))
readers_agree_example =
    readers_agree engine {a = writers} {b = with_b} {c = writers} {d = with_a_last} everything
      (a_key ∷ []) search_x (ascii "a") writers-IsNew
      (next (next here (activates a_page 1)) (activates b_page 3)) writers-IsNew
      (next (next here (activates b_page 3)) (activates a_page 1)) same_documents

compaction_invisible_example :
    (fetch engine with_base.backend.active everything (a_key ∷ [])
      ≡ fetch engine with_a.backend.active everything (a_key ∷ []))
    × (lexical_candidates engine with_base.backend.active search_x
        ≡ lexical_candidates engine with_a.backend.active search_x)
    × (document_state engine with_base.backend.active (ascii "a")
        ≡ document_state engine with_a.backend.active (ascii "a"))
compaction_invisible_example =
    compaction_invisible engine {a = writers}
      {b = record { backend = with_a.backend; building = (with_a.backend.stores, compaction) ∷ [] }}
      [] [] with_a.backend.stores compaction everything (a_key ∷ []) search_x (ascii "a")
      writers-IsNew
      (next (next here (activates a_page 1)) (compacts false compaction compaction_built)) refl

-- Both vectors are in the delta; the better one is asked for.
abbrev or_nothing : Result (List (Candidate ℕ)) → List (Candidate ℕ)
or_nothing (ok out) = out
or_nothing (err e) = []

abbrev best : List (Candidate ℕ)
best = or_nothing (search_tiered engine with_b.backend.active.dense (1 ∷ 0 ∷ []) [] (a_key ∷ []) 1)

best_found :
    search_tiered engine with_b.backend.active.dense (1 ∷ 0 ∷ []) [] (a_key ∷ []) 1 ≡ ok best
unfolding validate unless is_empty ascii document_content_hash key_eq normalize_source_text hex64
    hash_field fnv1a to_decimal check_chunks stable_chunk_key contains insert indexed_text_of
    check_values check_embeddings activate activate_valid is_behind find published next_activated
    build_generation and_then add_documents nothing_built add_document agreed add_chunks add_chunk
    catalogued embedded assign with_delta check_tombstones check_delta with_tier build_exact
    check_rows is_normalized source_dimension tombstones_for contains_base put scheduled stored
    generation_of keys_of stored_chunk compare_bytes search_tiered search_tier search_index
    search_exact scored sort_by ranks_before keep_best
best_found = refl

search_tiered-IsDistinct_example : (length best ≤ 1) × IsDistinct best
search_tiered-IsDistinct_example =
    search_tiered-IsDistinct engine with_b.backend.active.dense (1 ∷ 0 ∷ []) [] (a_key ∷ []) 1 best
      (omega arith) best_found

abbrev automatic_policy : DensePolicy
automatic_policy = record { implementation = native; algorithm = automatic; exact_threshold = 2 }

abbrev two_rows : List (VectorRecord engine)
two_rows = (a_key, 1 ∷ 0 ∷ []) ∷ (ascii "b", 0 ∷ 1 ∷ []) ∷ []
