-- ===== src/Backend/Embedded/Build.antt =====
-- `EmbeddedBackend::build_generation` of rag.cpp/src/backend/embedded_backend.cpp.
use llama_rag_runtime.Base.{
  ℕ, ◌+◌, ◌-◌, ◌%◌, ◌^◌, true, false, ◌&&◌, not, ◌==◌, leb, none, some, List, [], ◌∷◌, ◌++◌,
  if◌then◌else◌, length,
}
use llama_rag_runtime.Core.Types.{
  Bytes, Result, ok, ascii, invalid_argument, already_exists, dimension_mismatch, unless, and_then,
}
use llama_rag_runtime.Core.Map.{Map, key_eq, find, assign}
use llama_rag_runtime.Core.Keyset.{contains}
use llama_rag_runtime.Backend.Types.{PreparedChunk, PreparedDocument, StoredChunk}
use llama_rag_runtime.Dense.Engine.{Engine}
use llama_rag_runtime.Dense.Index.{is_empty, VectorRecord}
use llama_rag_runtime.Dense.Tiered.{TieredDenseIndex, contains_base, with_delta}
use llama_rag_runtime.Backend.Embedded.State.{ActiveDocument, Generation}

-- `ChunkId::invalid().get()`.
abbrev pub invalid_chunk_id : ℕ
invalid_chunk_id = 2 ^ 32 - 1

unfoldable pub stored_chunk :
    {F : Type 0} → Bytes → ActiveDocument F → PreparedChunk F → StoredChunk F
stored_chunk document_key active chunk = record {
  key = chunk.key;
  document = document_key;
  revision = active.revision;
  ordinal = chunk.ordinal;
  title = active.prepared.title;
  text = chunk.text;
  context = chunk.context;
  metadata = active.prepared.metadata;
  start_line = chunk.start_line;
  end_line = chunk.end_line;
  embedding = [];
}

-- The variables of the loop.
pub record Building (E : Engine) : Type 0 where
  pub chunks : Map (StoredChunk E.Float)
  pub ordinal_keys : List Bytes
  pub lexical : E.Lexical
  pub dimension : ℕ
  pub chunking_fingerprint : Bytes
  pub embedding_identity : Bytes
  pub delta_vectors : List (VectorRecord E)
  pub dense_chunks : ℕ
  pub ordinal : ℕ

module _ (E : Engine) where
  -- The entries of a chunk in the catalog and in the lexical index.
  unfoldable pub catalogued :
      Bytes → ActiveDocument E.Float → PreparedChunk E.Float → Building E → Building E
  catalogued document_key active chunk b = record b {
    lexical = E.add_text (b.ordinal % 2 ^ 32) chunk.indexed_text b.lexical;
    ordinal_keys = b.ordinal_keys ++ chunk.key ∷ [];
    chunks = assign chunk.key (stored_chunk document_key active chunk) b.chunks;
    ordinal = b.ordinal + 1;
  }

  -- Its embedding, in the delta unless the base stands for it.
  unfoldable pub embedded :
      TieredDenseIndex E → List Bytes → Bytes → PreparedChunk E.Float → Building E → Building E
  embedded dense_index delta_documents document_key chunk b = record b {
    dense_chunks = b.dense_chunks + 1;
    dimension = if b.dimension == 0 then length chunk.embedding else b.dimension;
    delta_vectors =
        if contains document_key delta_documents && not (contains_base E chunk.key dense_index)
        then b.delta_vectors ++ (chunk.key, chunk.embedding) ∷ []
        else b.delta_vectors;
  }

  unfoldable pub add_chunk :
      TieredDenseIndex E
      → List Bytes
      → Bytes
      → ActiveDocument E.Float
      → PreparedChunk E.Float
      → Building E
      → Result (Building E)
  add_chunk dense_index delta_documents document_key active chunk b =
      unless (leb invalid_chunk_id b.ordinal) invalid_argument (ascii "chunk limit exceeded") (
        unless (elim (find chunk.key b.chunks) [ none ↦ false | some _ ↦ true ]) already_exists
          (ascii "chunk key collision")
          (if is_empty chunk.embedding
            then ok (catalogued document_key active chunk b)
            else unless (not (b.dimension == 0) && not (length chunk.embedding == b.dimension))
                dimension_mismatch (ascii "documents use different embedding dimensions")
                (ok (
                  embedded dense_index delta_documents document_key chunk
                    (catalogued document_key active chunk b)))))

  unfoldable pub add_chunks :
      TieredDenseIndex E
      → List Bytes
      → Bytes
      → ActiveDocument E.Float
      → List (PreparedChunk E.Float)
      → Building E
      → Result (Building E)
  add_chunks dense_index delta_documents document_key active [] b = ok b
  add_chunks dense_index delta_documents document_key active (chunk ∷ chunks) b =
      and_then (add_chunk dense_index delta_documents document_key active chunk b)
        (add_chunks dense_index delta_documents document_key active chunks)

  -- The first document decides the fingerprint and the identity of all.
  unfoldable pub agreed : PreparedDocument E.Float → Building E → Building E
  agreed prepared b = record b {
    chunking_fingerprint =
        if is_empty b.chunking_fingerprint
        then prepared.chunking_fingerprint
        else b.chunking_fingerprint;
    embedding_identity =
        if is_empty b.embedding_identity then prepared.embedding_identity else b.embedding_identity;
  }

  unfoldable pub add_document :
      TieredDenseIndex E
      → List Bytes
      → Bytes
      → ActiveDocument E.Float
      → Building E
      → Result (Building E)
  add_document dense_index delta_documents document_key active b =
      let c = agreed active.prepared b in
      unless (not (key_eq c.chunking_fingerprint active.prepared.chunking_fingerprint))
        invalid_argument (ascii "documents use different chunking fingerprints")
        (unless (not (key_eq c.embedding_identity active.prepared.embedding_identity))
          invalid_argument (ascii "documents use different embedding identities")
          (add_chunks dense_index delta_documents document_key active active.prepared.chunks c))

  unfoldable pub add_documents :
      TieredDenseIndex E
      → List Bytes
      → Map (ActiveDocument E.Float)
      → Building E
      → Result (Building E)
  add_documents dense_index delta_documents [] b = ok b
  add_documents dense_index delta_documents ((document_key, active) ∷ documents) b =
      and_then (add_document dense_index delta_documents document_key active b)
        (add_documents dense_index delta_documents documents)

  unfoldable pub nothing_built : Building E
  nothing_built = record {
    chunks = [];
    ordinal_keys = [];
    lexical = E.empty_lexical;
    dimension = 0;
    chunking_fingerprint = [];
    embedding_identity = [];
    delta_vectors = [];
    dense_chunks = 0;
    ordinal = 0;
  }

  unfoldable pub generation_of :
      Map (ActiveDocument E.Float) → List Bytes → ℕ → Building E → TieredDenseIndex E → Generation E
  generation_of documents delta_documents number b dense = record {
    documents = documents;
    chunks = b.chunks;
    ordinal_keys = b.ordinal_keys;
    lexical = E.finalize b.lexical;
    dense = dense;
    delta_documents = delta_documents;
    dimension = b.dimension;
    chunking_fingerprint = b.chunking_fingerprint;
    embedding_identity = b.embedding_identity;
    number = number;
  }

  unfoldable pub build_generation :
      Map (ActiveDocument E.Float)
      → TieredDenseIndex E
      → List Bytes
      → List Bytes
      → ℕ
      → Result (Generation E)
  build_generation documents dense_index delta_documents tombstones generation_number =
      and_then (add_documents dense_index delta_documents documents nothing_built) λ b.
        unless (not (b.dense_chunks == 0) && not (b.dense_chunks == length b.chunks))
          dimension_mismatch (ascii "cannot mix lexical-only and dense documents")
          (and_then (with_delta E b.delta_vectors tombstones b.dimension dense_index)
            λ dense. ok (generation_of documents delta_documents generation_number b dense))
