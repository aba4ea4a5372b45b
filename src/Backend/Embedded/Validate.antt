-- ===== src/Backend/Embedded/Validate.antt =====
-- `EmbeddedBackend::validate` of rag.cpp/src/backend/embedded_backend.cpp.
use llama_rag_runtime.Base.{
  ℕ, suc, Bool, true, false, ◌&&◌, ◌||◌, not, ◌==◌, ltb, List, [], ◌∷◌, ◌++◌, if◌then◌else◌, length,
}
use llama_rag_runtime.Core.Types.{
  Bytes, Result, ok, ascii, invalid_argument, dimension_mismatch, unless,
}
use llama_rag_runtime.Core.Map.{key_eq}
use llama_rag_runtime.Core.Keyset.{contains, insert}
use llama_rag_runtime.Core.Keys.{normalize_source_text, document_content_hash, stable_chunk_key}
use llama_rag_runtime.Backend.Types.{PreparedChunk, PreparedDocument}
use llama_rag_runtime.Dense.Engine.{Engine}
use llama_rag_runtime.Dense.Index.{is_empty}

-- The text that is indexed for a chunk.
unfoldable pub indexed_text_of : {F : Type 0} → PreparedChunk F → Bytes
indexed_text_of chunk =
    if is_empty chunk.context then chunk.text else chunk.context ++ (10 ∷ chunk.text)

module _ (E : Engine) where
  -- The values of an embedding, and what follows it.
  unfoldable pub check_values : E.Double → List E.Float → Result (Unit {0}) → Result (Unit {0})
  check_values norm [] rest =
      unless (E.off_unit norm) invalid_argument (ascii "prepared embedding is not normalized") rest
  check_values norm (value ∷ values) rest =
      let behind = check_values (E.add_square norm value) values rest in
      unless (not (E.is_finite value)) invalid_argument
        (ascii "embedding contains non-finite values") behind

  -- The checks behind the loop.
  unfoldable pub check_embeddings : Bool → Bool → Bytes → Result (Unit {0})
  check_embeddings any_embedding any_empty identity =
      unless (any_embedding && any_empty) invalid_argument
        (ascii "prepared document has partial embeddings")
        (unless (any_embedding && is_empty identity) invalid_argument
          (ascii "embedding identity is required") (ok tt))

  -- The loop over the chunks: `index`, `keys`, `dimension`, `any_embedding` and `any_empty` are its
  -- variables.
  unfoldable pub check_chunks :
      PreparedDocument E.Float
      → ℕ
      → List Bytes
      → ℕ
      → Bool
      → Bool
      → List (PreparedChunk E.Float)
      → Result (Unit {0})
  check_chunks document index keys dimension any_embedding any_empty [] =
      check_embeddings any_embedding any_empty document.embedding_identity
  check_chunks document index keys dimension any_embedding any_empty (chunk ∷ chunks) =
      let without =
        check_chunks document (suc index) (insert chunk.key keys) dimension any_embedding true
          chunks in
      let measured = if dimension == 0 then length chunk.embedding else dimension in
      let embedded =
        check_chunks document (suc index) (insert chunk.key keys) measured true any_empty chunks in
      unless (is_empty chunk.key || contains chunk.key keys) invalid_argument
        (ascii "chunk keys must be non-empty and unique")
        (unless (not (chunk.ordinal == index) || ltb chunk.end_line chunk.start_line)
          invalid_argument (ascii "chunk ordering or source lines are invalid")
          (unless (is_empty chunk.text || is_empty chunk.indexed_text) invalid_argument
            (ascii "prepared chunk text must not be empty")
            (unless
              (not (key_eq chunk.indexed_text (indexed_text_of chunk))
                || not (
                    key_eq chunk.key
                      (stable_chunk_key document.key chunk.start_line chunk.end_line chunk.text)))
              invalid_argument (ascii "prepared chunk fingerprint is invalid")
              (if is_empty chunk.embedding
                then without
                else unless (not (length chunk.embedding == measured)) dimension_mismatch
                    (ascii "prepared embedding dimensions differ")
                    (check_values E.zero_norm chunk.embedding embedded)))))

  unfoldable pub validate : PreparedDocument E.Float → ℕ → Result (Unit {0})
  validate document revision =
      unless (is_empty document.key || revision == 0) invalid_argument
        (ascii "document key and revision are required")
        (unless (is_empty document.content_hash || is_empty document.chunking_fingerprint)
          invalid_argument (ascii "document preparation fingerprints are required")
          (unless
            (not (key_eq document.content (normalize_source_text document.content))
              || not (
                  key_eq document.content_hash
                    (document_content_hash document.title document.content document.metadata)))
            invalid_argument (ascii "document content hash is invalid")
            (check_chunks document 0 [] 0 false false document.chunks)))
