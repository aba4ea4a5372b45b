-- ===== src/Backend/Embedded/Read.antt =====
-- The readers of `EmbeddedBackend` (rag.cpp/src/backend/embedded_backend.cpp), each on the generation that it has
-- read. The sizes in bytes and the names among the statistics are left out.
use llama_rag_runtime.Base.{
  ℕ, Bool, true, false, ◌&&◌, ◌||◌, not, ◌==◌, leb, ltb, Option, none, some, List, [], ◌∷◌, ◌++◌,
  if◌then◌else◌, length,
}
use llama_rag_runtime.Core.Types.{Bytes, Result, ok, err, fail, ascii, unavailable, corrupt_index}
use llama_rag_runtime.Core.Map.{Map, key_eq, find}
use llama_rag_runtime.Backend.Types.{
  MetadataFilter, is_filtered, Candidate, bm25, LexicalRequest, DenseRequest, FetchOptions,
  StoredChunk,
}
use llama_rag_runtime.Dense.Engine.{Engine}
use llama_rag_runtime.Dense.Tiered.{contains_base, contains_delta, search_tiered}
use llama_rag_runtime.Backend.Embedded.State.{ActiveDocument, EmbeddedMaintenancePolicy, Generation}
use llama_rag_runtime.Backend.Embedded.Write.{estimated_bytes}

-- `v[i]`, within the vector.
unfoldable pub get_elem? {ℓ} : {A : Type ℓ} → ℕ → List A → Option A
get_elem? i [] = none
get_elem? ℕ.zero (x ∷ xs) = some x
get_elem? (ℕ.suc i) (x ∷ xs) = get_elem? i xs

pub record ActiveDocumentState : Type 0 where
  pub revision : ℕ
  pub content_hash : Bytes

pub record BackendStats : Type 0 where
  pub live_documents : ℕ
  pub live_chunks : ℕ
  pub embedding_dimension : ℕ
  pub dense_base_chunks : ℕ
  pub dense_delta_chunks : ℕ
  pub tombstones : ℕ
  pub generation : ℕ
  pub estimated_compaction_bytes : ℕ
  pub maintenance_required : Bool

module _ (E : Engine) where
  -- The chunk without what the options leave out.
  unfoldable pub shown : FetchOptions → StoredChunk E.Float → StoredChunk E.Float
  shown options stored =
      if options.include_text then stored else record stored { text = []; context = [] }

  -- The prepared chunk that the embedding is copied from.
  unfoldable pub embedding_source :
      Bytes → ℕ → Option (ActiveDocument E.Float) → Result (List E.Float)
  embedding_source key ordinal none = fail corrupt_index (ascii "chunk embedding source is missing")
  embedding_source key ordinal (some active) = elim (get_elem? ordinal active.prepared.chunks) [
    | none ↦ fail corrupt_index (ascii "chunk embedding source is missing")
    | some prepared ↦
        if not (key_eq prepared.key key)
        then fail corrupt_index (ascii "chunk embedding source does not match catalog")
        else ok prepared.embedding
  ]

  unfoldable pub fetch_one :
      Generation E → FetchOptions → Bytes → StoredChunk E.Float → Result (StoredChunk E.Float)
  fetch_one generation options key found =
      if options.include_embedding
      then elim (embedding_source key found.ordinal (find found.document generation.documents)) [
        | ok embedding ↦ ok (record (shown options found) { embedding = embedding })
        | err e ↦ err e
      ]
      else ok (shown options found)

  unfoldable pub then_fetched :
      Result (StoredChunk E.Float)
      → Result (List (StoredChunk E.Float))
      → Result (List (StoredChunk E.Float))
  then_fetched (ok chunk) (ok chunks) = ok (chunk ∷ chunks)
  then_fetched (ok chunk) (err e) = err e
  then_fetched (err e) rest = err e

  -- A key that is not live is skipped.
  unfoldable pub fetch :
      Generation E → FetchOptions → List Bytes → Result (List (StoredChunk E.Float))
  fetch generation options [] = ok []
  fetch generation options (key ∷ keys) =
      let rest = fetch generation options keys in
      elim (find key generation.chunks) [
        | none ↦ rest
        | some found ↦ then_fetched (fetch_one generation options key found) rest
      ]

  -- The loop over the hits; `output` are the candidates so far.
  unfoldable pub take_hits :
      Generation E
      → LexicalRequest
      → List (Candidate E.Float)
      → List (ℕ × E.Float)
      → Result (List (Candidate E.Float))
  take_hits generation request output [] = ok output
  take_hits generation request output ((chunk, score) ∷ hits) =
      let without = take_hits generation request output hits in
      elim (get_elem? chunk generation.ordinal_keys) [
        | none ↦ fail corrupt_index (ascii "lexical ordinal is out of range")
        | some key ↦ elim (find key generation.chunks) [
          | none ↦ fail corrupt_index (ascii "lexical chunk is missing")
          | some stored ↦
              let longer =
                output ++ record { chunk = key; raw_score = score; score_type = bm25 } ∷ [] in
              let rest = take_hits generation request longer hits in
              if is_filtered request.filter stored.metadata
              then without
              else if length longer == request.k
              then ok longer
              else rest
        ]
      ]

  unfoldable pub lexical_candidates :
      Generation E → LexicalRequest → Result (List (Candidate E.Float))
  lexical_candidates generation request =
      if request.k == 0
      then ok []
      else take_hits generation request []
          (E.search_lexical generation.lexical request.query (length generation.ordinal_keys))

  -- The keys of the live chunks that pass the filter and a test.
  unfoldable pub allowed_keys :
      (Bytes → Bool) → MetadataFilter → Map (StoredChunk E.Float) → List Bytes
  allowed_keys test filter [] = []
  allowed_keys test filter ((key, chunk) ∷ chunks) =
      let rest = allowed_keys test filter chunks in
      if is_filtered filter chunk.metadata then rest else if test key then key ∷ rest else rest

  unfoldable pub has_no_chunks : Map (StoredChunk E.Float) → Bool
  has_no_chunks [] = true
  has_no_chunks (c ∷ chunks) = false

  unfoldable pub dense_candidates :
      Generation E → DenseRequest E.Float → Result (List (Candidate E.Float))
  dense_candidates generation request =
      if request.k == 0 || has_no_chunks generation.chunks
      then ok []
      else if generation.dimension == 0
      then fail unavailable (ascii "embedded backend has no dense vectors")
      else search_tiered E generation.dense request.query
          (allowed_keys (λ key. contains_base E key generation.dense) request.filter
            generation.chunks)
          (allowed_keys (λ key. contains_delta E key generation.dense) request.filter
            generation.chunks)
          request.k

  unfoldable pub document_state : Generation E → Bytes → Option ActiveDocumentState
  document_state generation document = elim (find document generation.documents) [
    | none ↦ none
    | some active ↦
        some (record { revision = active.revision; content_hash = active.prepared.content_hash })
  ]

  unfoldable pub is_due : EmbeddedMaintenancePolicy → ℕ → ℕ → ℕ → ℕ → Bool
  is_due policy base delta tombstones estimated =
      leb policy.delta_chunk_limit delta
      || (not (base == 0) && policy.delta_fraction base delta
          || (not (base == 0) && policy.tombstone_fraction base tombstones
              || (ltb policy.compaction_memory_budget estimated
                  || (base == 0 && leb policy.dense.exact_threshold delta))))

  unfoldable pub stats : EmbeddedMaintenancePolicy → Generation E → BackendStats
  stats policy generation = record {
    live_documents = length generation.documents;
    live_chunks = length generation.chunks;
    embedding_dimension = generation.dimension;
    dense_base_chunks = length generation.dense.base.keys;
    dense_delta_chunks = length generation.dense.delta_keys;
    tombstones = length generation.dense.tombstones;
    generation = generation.number;
    estimated_compaction_bytes = estimated_bytes E generation;
    maintenance_required =
        is_due policy (length generation.dense.base.keys) (length generation.dense.delta_keys)
          (length generation.dense.tombstones) (estimated_bytes E generation);
  }
